-- ===== src/Fuzzer/CrackMap.antt =====
-- __dump_crack_map and __gen_concolic_cmd of src/fuzz/conolic.py: the map that tells the concolic
-- executor which blocks to crack. The result `none` is an exception, an IndexError.
pub mod Marks
use co_fuzz.Prelude.{
  ℕ, Bool, List, [], ◌∷◌, Option, none, some, ltb, length, replicate, set, if◌then◌else◌,
}
use co_fuzz.Prelude.Text.{Bytes}

-- The loop over the addresses.
unfoldable pub mark_all : (crack_list : List ℕ) → (value_list : List ℕ) → Option Bytes
mark_all [] value_list = some value_list
mark_all (crack_addr ∷ crack_list) value_list =
    let rest = mark_all crack_list (set value_list crack_addr 0) in
    if ltb crack_addr (length value_list) then rest else none

-- __dump_crack_map(crack_list), for MAP_SIZE: the bytes of the file.
unfoldable pub dump_crack_map : (map_size : ℕ) → (crack_list : List ℕ) → Option Bytes
unfolding mark_all
dump_crack_map map_size crack_list = mark_all crack_list (replicate map_size 255)

-- What __gen_concolic_cmd sets in the environment: the file of SYMCC_CRACK_MAP, or the directory of
-- SYMCC_OUTPUT_DIR.
pub data ConcolicEnv : Type 0 where
  cracking : (crack_map : Bytes) → ConcolicEnv
  output : ConcolicEnv

-- __gen_concolic_cmd(crack_list), where no list is the empty one.
unfoldable pub gen_concolic_env : (map_size : ℕ) → (crack_list : List ℕ) → Option ConcolicEnv
unfolding dump_crack_map
gen_concolic_env map_size [] = some output
gen_concolic_env map_size (crack_addr ∷ crack_list) =
    elim (dump_crack_map map_size (crack_addr ∷ crack_list)) [
      | none ↦ none
      | some crack_map ↦ some (cracking crack_map)
    ]

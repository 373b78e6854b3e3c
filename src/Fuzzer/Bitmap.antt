-- ===== src/Fuzzer/Bitmap.antt =====
-- AFLMap of src/fuzz/afl.py: the map of covered edges, one byte for each edge. A file of the fuzzer
-- is the bytes that it holds, or `none` where it does not exist, and the result `none` is an
-- exception: AssertionError in the constructor, IndexError else.
pub mod Bits
pub mod Learns
use Prim.Native.Nat.{bit_or, bit_xor}
use co_fuzz.Prelude.{
  ℕ, ◌+◌, List, [], ◌∷◌, Option, none, some, ◌==◌, map, length, replicate, if◌then◌else◌,
}
use co_fuzz.Prelude.Text.{Bytes}

-- MAP_SIZE of src/fuzz/config.py
unfoldable pub edge_map_size : ℕ
edge_map_size = 65536

-- AFL keeps the bits that it has not seen: byte_val ^ 255.
abbrev pub flip : ℕ → ℕ
flip byte_val = bit_xor byte_val 255

-- __init_bitmap
unfoldable pub init_bitmap : (map_size : ℕ) → (file : Option Bytes) → Option (List ℕ)
init_bitmap map_size none = some (replicate map_size 0)
init_bitmap map_size (some afl_bitmap) =
    if length afl_bitmap == map_size then some (map flip afl_bitmap) else none

-- An update of a list of results.
abbrev pub cons : ℕ → Option (List ℕ) → Option (List ℕ)
cons b none = none
cons b (some bs) = some (b ∷ bs)

-- The loop of update_bitmap, over the bytes of the file.
unfoldable pub update_bytes : List ℕ → (afl_bitmap : Bytes) → Option (List ℕ)
update_bytes bs [] = some bs
update_bytes [] (byte_val ∷ afl) = none
update_bytes (b ∷ bs) (byte_val ∷ afl) = cons (bit_or b (flip byte_val)) (update_bytes bs afl)

-- update_bitmap
unfoldable pub update_bitmap : List ℕ → (file : Option Bytes) → Option (List ℕ)
unfolding update_bytes
update_bitmap bs none = some bs
update_bitmap bs (some afl_bitmap) = update_bytes bs afl_bitmap

-- One byte of is_interesting, in front of what the others give.
unfoldable pub merge_byte : (b t : ℕ) → Option (ℕ × List ℕ) → Option (ℕ × List ℕ)
merge_byte b t none = none
merge_byte b t (some (cov_increase, bs)) =
    if b == bit_or b t
    then some (cov_increase, b ∷ bs)
    else some (cov_increase + 1, bit_or b t ∷ bs)

-- is_interesting: the number of bytes that change, and the new map.
unfoldable pub is_interesting : List ℕ → (testcase_bitmap : Bytes) → Option (ℕ × List ℕ)
unfolding merge_byte
is_interesting [] testcase_bitmap = some (0, [])
is_interesting (b ∷ bs) [] = none
is_interesting (b ∷ bs) (t ∷ ts) = merge_byte b t (is_interesting bs ts)

-- ===== src/Fuzzer/Constraints.antt =====
-- Synchronizer.dump_constraint of src/fuzz/sync.py: the log of the concolic executor, read into the
-- constraints of each block. A line that splitlines gives has no newline, so `$` is its end.
pub mod Blocks
pub mod Groups
pub mod Lines
use co_fuzz.Prelude.{
  ℕ, Bool, true, false, ◌&&◌, ◌||◌, List, [], ◌∷◌, ◌++◌, Option, none, some, ◌==◌, if◌then◌else◌,
}
use co_fuzz.Prelude.Text.{Bytes, codes, text_eq}
use co_fuzz.Tracer.Python.{Unicode, number, splitlines}
use co_fuzz.Tracer.Line.{strip_prefix, rest_of_line, ◌>>=◌}

-- reg_start: `^\[STAT] CRACK:(?P<src>\d+),(?P<dest>\d+)$`
unfoldable pub match_start : Unicode → Bytes → Option (ℕ × ℕ)
unfolding strip_prefix
match_start u line = do
  s1 ← strip_prefix (codes "[STAT] CRACK:") line
  (src, s2) ← number u s1
  s3 ← strip_prefix (codes ",") s2
  (dest, s4) ← number u s3
  if text_eq s4 [] then some (src, dest) else none

-- reg_express: `^\s*\(.*$`
unfoldable pub match_express : Unicode → Bytes → Bool
unfolding rest_of_line
match_express u [] = false
match_express u (c ∷ s) = ((c == b'(') && rest_of_line s) || (u.is_space c && match_express u s)

-- '\n'.join
unfoldable pub join_lines : List Bytes → Bytes
join_lines [] = []
join_lines (e ∷ []) = e
join_lines (e ∷ f ∷ es) = e ++ b'\n' ∷ join_lines (f ∷ es)

-- constraint_dict, in the order of its keys
abbrev pub Constraints : Type 0
Constraints = List (ℕ × List Bytes)

-- constraint_dict[src_bb].append(constraint)
unfoldable pub append_at : (src_bb : ℕ) → (constraint : Bytes) → Constraints → Constraints
append_at src_bb constraint [] = (src_bb, constraint ∷ []) ∷ []
append_at src_bb constraint ((k, cs) ∷ rest) =
    let later = append_at src_bb constraint rest in
    if k == src_bb then (k, cs ++ constraint ∷ []) ∷ rest else (k, cs) ∷ later

-- The variables of the loop.
pub record Reading : Type 0 where
  pub constraint_dict : Constraints
  pub src_bb : ℕ
  pub record_flag : Bool
  pub express_list : List Bytes

-- One line of the log; `none` does not decode.
unfoldable pub read_text : Unicode → Bytes → Reading → Reading
unfolding match_start match_express append_at join_lines
read_text u line r = elim (match_start u line) [
  | some (src, dest) ↦ record r { src_bb = src; record_flag = true }
  | none ↦
      if r.record_flag && match_express u line
      then record r { express_list = r.express_list ++ line ∷ [] }
      else if text_eq line (codes "CRACK-END") && r.record_flag
      then record r {
        constraint_dict = append_at r.src_bb (join_lines r.express_list) r.constraint_dict;
        record_flag = false;
        express_list = [];
      }
      else r
]

unfoldable pub read_line : Unicode → Option Bytes → Reading → Reading
unfolding read_text
read_line u none r = r
read_line u (some line) r = read_text u line r

unfoldable pub read_lines : Unicode → List Bytes → Reading → Reading
unfolding read_line
read_lines u [] r = r
read_lines u (raw ∷ lines) r = read_lines u lines (read_line u (u.decode raw) r)

abbrev pub first_reading : Reading
first_reading = record { constraint_dict = []; src_bb = 0; record_flag = false; express_list = [] }

-- dump_constraint(constraint_info)
unfoldable pub dump_constraint : Unicode → (constraint_info : Bytes) → Constraints
unfolding read_lines
dump_constraint u constraint_info =
    (read_lines u (splitlines constraint_info) first_reading).constraint_dict

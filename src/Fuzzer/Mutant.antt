-- ===== src/Fuzzer/Mutant.antt =====
-- Synchronizer.__save_seed of src/fuzz/sync.py: a seed with the bytes that a solution gives. A value
-- that is no byte, and an offset past the end, are exceptions, the result `none`. A variable's name
-- has no newline, so `$` is its end.
pub mod Writes
use co_fuzz.Prelude.{
  ℕ, ◌+◌, Bool, true, false, ◌&&◌, List, [], ◌∷◌, Option, none, some, ◌==◌, ltb, length, set,
  if◌then◌else◌,
}
use co_fuzz.Prelude.Text.{Bytes, codes, text_eq}
use co_fuzz.Tracer.Python.{Unicode, number}
use co_fuzz.Tracer.Line.{strip_prefix, ◌>>=◌}

-- The text in front of a last `0`.
unfoldable pub before_zero : Bytes → Option Bytes
unfolding text_eq
before_zero [] = none
before_zero (c ∷ s) = elim (before_zero s) [
  | some front ↦ some (c ∷ front)
  | none ↦ if (c == b'0') && text_eq s [] then some [] else none
]

-- reg_index: `^k!(?P<idx>\d+)0$`, with int() of what it matched.
unfoldable pub match_index : Unicode → (k_name : Bytes) → Option ℕ
unfolding strip_prefix before_zero number
match_index u k_name = do
  s1 ← strip_prefix (codes "k!") k_name
  s2 ← before_zero s1
  (idx, s3) ← number u s2
  if text_eq s3 [] then some idx else none

-- `arr[offset] = value`
unfoldable pub assign : (arr : Bytes) → (offset value : ℕ) → Option Bytes
assign arr offset value =
    if ltb offset (length arr) && ltb value 256 then some (set arr offset value) else none

-- The loop over the offsets, each with its item of the result: the mutant's bytes.
unfoldable pub save_seed : Unicode → (offsets : List (Bytes × ℕ)) → (arr : Bytes) → Option Bytes
unfolding match_index assign
save_seed u [] arr = some arr
save_seed u ((k_name, value) ∷ offsets) arr = elim (match_index u k_name) [
  | none ↦ save_seed u offsets arr
  | some offset ↦ assign arr offset value >>= λ arr'. save_seed u offsets arr'
]

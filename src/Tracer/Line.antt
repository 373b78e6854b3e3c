-- ===== src/Tracer/Line.antt =====
-- The regular expression of CorpusTracer in src/fuzz/trace.py,
-- ^\[\*]\s\((?P<condition>.*)\): (?P<src>\d+),(?P<dest>\d+).*$
pub mod RoundTrip
use co_fuzz.Prelude.{
  ℕ, Bool, true, false, ◌&&◌, ◌++◌, List, [], ◌∷◌, Option, none, some, ◌==◌, if◌then◌else◌, not,
}
use co_fuzz.Prelude.Text.{Bytes, codes}
use co_fuzz.Tracer.Python.{Unicode, number}

-- The rest of a text behind a prefix.
unfoldable pub strip_prefix : Bytes → Bytes → Option Bytes
strip_prefix [] s = some s
strip_prefix (p ∷ ps) [] = none
strip_prefix (p ∷ ps) (c ∷ s) = if p == c then strip_prefix ps s else none

-- `.*$`: the dot matches anything but a newline.
unfoldable pub rest_of_line : Bytes → Bool
rest_of_line [] = true
rest_of_line (c ∷ s) = not (c == b'\n') && rest_of_line s

infixl 5 ◌>>=◌
abbrev pub ◌>>=◌ {ℓ κ} : {A : Type ℓ} {B : Type κ} → Option A → (A → Option B) → Option B
none >>= f = none
some a >>= f = f a

-- `\): (?P<src>\d+),(?P<dest>\d+).*$`
unfoldable pub match_edge : Unicode → Bytes → Option (ℕ × ℕ)
unfolding strip_prefix rest_of_line
match_edge u s = do
  s1 ← strip_prefix (codes "): ") s
  (src, s2) ← number u s1
  s3 ← strip_prefix (codes ",") s2
  (dest, s4) ← number u s3
  if rest_of_line s4 then some (src, dest) else none

-- What the expression binds: condition, src, dest.
abbrev pub Match : Type 0
Match = Bytes × ℕ × ℕ

-- `(?P<condition>.*)` and what follows, greedily: a longer condition is tried first.
unfoldable pub match_condition : Unicode → Bytes → Option Match
unfolding match_edge
match_condition u [] = none
match_condition u (c ∷ s) =
    let longer = match_condition u s in
    let here : Option Match = elim (match_edge u (c ∷ s)) [
      | none ↦ none
      | some (src, dest) ↦ some ([], src, dest)
    ] in
    if c == b'\n'
    then here
    else elim longer [ some (condition, src, dest) ↦ some (c ∷ condition, src, dest) | none ↦ here ]

-- `\s\(`
unfoldable pub strip_space_paren : Unicode → Bytes → Option Bytes
strip_space_paren u [] = none
strip_space_paren u (c ∷ s) = if u.is_space c then strip_prefix (codes "(") s else none

-- reg_trace.match(line)
unfoldable pub match_line : Unicode → Bytes → Option Match
unfolding strip_prefix strip_space_paren
match_line u line = do
  s1 ← strip_prefix (codes "[*]") line
  s2 ← strip_space_paren u s1
  match_condition u s2

-- ===== src/Tracer/Python.antt =====
-- What src/fuzz/trace.py uses of Python's texts: bytes.splitlines, bytes.decode, and the regular
-- expressions `\d` and `\s` with int(). The Unicode tables are not part of the repository, so
-- decoding and the classes of characters are parameters, with what holds of ASCII.
use co_fuzz.Prelude.{
  ℕ, ◌+◌, ◌*◌, ◌-◌, ◌<◌, ◌≡◌, ◌≢◌, refl, Bool, true, false, ◌&&◌, ◌++◌, List, [], append_assoc,
  append-nil, ◌∷◌, Option, none, some, ◌==◌, leb, if◌then◌else◌, arith,
}
use co_fuzz.Prelude.Text.{Bytes, All}
use co_fuzz.Prelude.Decimal.{IsDigit, value}

abbrev pub IsAscii : ℕ → Type 0
IsAscii c = c < 128

pub record Unicode : Type 0 where
  -- bytes.decode(); `none` is a UnicodeDecodeError
  pub decode : Bytes → Option (List ℕ)
  -- the value of a character that `\d` matches
  pub digit_value : ℕ → Option ℕ
  -- does `\s` match?
  pub is_space : ℕ → Bool
  pub decode_ascii : (s : Bytes) → All IsAscii s → decode s ≡ some s
  pub digit_ascii :
      (c : ℕ)
      → c < 128
      → digit_value c ≡ (if leb b'0' c && leb c b'9' then some (c - b'0') else none)
  pub space_ascii : is_space b' ' ≡ true

-- A run of digits, greedily: the values, and the text behind.
unfoldable pub take_digits : Unicode → Bytes → List ℕ × Bytes
take_digits u [] = ([], [])
take_digits u (c ∷ s) =
    let (ds, rest) = take_digits u s in
    elim (u.digit_value c) [ none ↦ ([], c ∷ s) | some d ↦ (d ∷ ds, rest) ]

-- int(), on the values of the digits
unfoldable pub int_of : ℕ → List ℕ → ℕ
int_of n [] = n
int_of n (d ∷ ds) = int_of (n * 10 + d) ds

-- `(\d+)` with int() of what it matched.
unfoldable pub number : Unicode → Bytes → Option (ℕ × Bytes)
unfolding take_digits int_of
number u s =
    let (ds, rest) = take_digits u s in
    elim ds [ [] ↦ none | d ∷ more ↦ some (int_of 0 (d ∷ more), rest) ]

-- A text that does not begin with a digit.
abbrev pub StopsDigits : Unicode → Bytes → Type 0
StopsDigits u [] = Unit
StopsDigits u (c ∷ s) = u.digit_value c ≡ none

-- The values of ASCII digits.
digit_values : Bytes → List ℕ
digit_values [] = []
digit_values (c ∷ s) = (c - b'0') ∷ digit_values s

take_digits-append :
    (u : Unicode) (s rest : Bytes)
    → All IsDigit s
    → StopsDigits u rest
    → take_digits u (s ++ rest) ≡ (digit_values s, rest)
unfolding take_digits digit_values
take_digits-append u [] [] h stop = refl
take_digits-append u [] (c ∷ rest) h stop = ground arith
take_digits-append u (c ∷ s) rest (h, hs) stop =
    ground (arith, u.digit_ascii c (omega arith), take_digits-append u s rest hs stop)

int_of-digit_values : (n : ℕ) (s : Bytes) → int_of n (digit_values s) ≡ value n s
unfolding int_of digit_values
int_of-digit_values n [] = refl
int_of-digit_values n (c ∷ s) = int_of-digit_values (n * 10 + (c - b'0')) s

-- A number is read back from its digits.
pub number-append :
    (u : Unicode) (s rest : Bytes)
    → s ≢ []
    → All IsDigit s
    → StopsDigits u rest
    → number u (s ++ rest) ≡ some (value 0 s, rest)
unfolding number digit_values
number-append u [] rest ne h stop = absurd (ne refl)
number-append u (c ∷ s) rest ne h stop =
    ground (arith, take_digits-append u (c ∷ s) rest h stop, int_of-digit_values 0 (c ∷ s))

-- bytes.splitlines(): a line ends at "\n", at "\r", or at the two together. `line` is the line so
-- far, `after_cr` says that the last byte was a "\r" that ended one.
split_at : Bytes → (line : Bytes) → (after_cr : Bool) → List Bytes
split_at [] [] after_cr = []
split_at [] (b ∷ line) after_cr = (b ∷ line) ∷ []
split_at (c ∷ s) line after_cr =
    let end_lf = line ∷ split_at s [] false in
    let end_cr = line ∷ split_at s [] true in
    let skip = split_at s [] false in
    let more = split_at s (line ++ c ∷ []) false in
    if c == b'\n' then (if after_cr then skip else end_lf) else if c == b'\r' then end_cr else more

unfoldable pub splitlines : Bytes → List Bytes
unfolding split_at
splitlines s = split_at s [] false

-- A text in which no line ends.
abbrev pub IsOneLine : Bytes → Type 0
IsOneLine = All (λ c. (c ≢ b'\n') × (c ≢ b'\r'))

split_at_line :
    (s rest line : Bytes)
    → IsOneLine s
    → split_at (s ++ b'\n' ∷ rest) line false ≡ (line ++ s) ∷ split_at rest [] false
unfolding split_at
split_at_line [] rest line h = rw append-nil
split_at_line (c ∷ s) rest line (h, hs) =
    ground (arith, split_at_line s rest (line ++ c ∷ []) hs, append_assoc line (c ∷ []) s)

-- A line and its "\n" come off the front.
pub splitlines-append :
    (s rest : Bytes) → IsOneLine s → splitlines (s ++ b'\n' ∷ rest) ≡ s ∷ splitlines rest
unfolding splitlines
splitlines-append s rest h = split_at_line s rest [] h

pub splitlines-nil : splitlines [] ≡ []
unfolding splitlines
splitlines-nil = refl

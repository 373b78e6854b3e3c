-- ===== src/Tracer/Line/RoundTrip.antt =====
-- A line of trace/trace-rt.o.c is read back by the expression of src/fuzz/trace.py.
use co_fuzz.Prelude.{ℕ, ◌≡◌, ◌≢◌, refl, ◌++◌, [], ◌∷◌, none, some, arith, append-nil}
use co_fuzz.Prelude.Text.{Bytes, codes, All, All-append}
use co_fuzz.Prelude.Decimal.{decimal, decimal-ne-nil, decimal-IsDigit, value-decimal, IsDigit}
use co_fuzz.Tracer.Python.{Unicode, number, number-append, StopsDigits}
use co_fuzz.Tracer.Line.{match_edge, match_condition, match_line}

pub number-decimal :
    (u : Unicode) (n : ℕ) (rest : Bytes)
    → StopsDigits u rest
    → number u (decimal n ++ rest) ≡ some (n, rest)
number-decimal u n rest stop =
    rw value-decimal at
      (number-append u (decimal n) rest (decimal-ne-nil n) (decimal-IsDigit n) stop)

-- The end of a line of the log, without its newline.
abbrev pub edge_text : ℕ → ℕ → Bytes
edge_text src dest = codes "): " ++ (decimal src ++ (codes "," ++ decimal dest))

match_edge-edge_text :
    (u : Unicode) (src dest : ℕ) → match_edge u (edge_text src dest) ≡ some (src, dest)
unfolding match_edge
match_edge-edge_text u src dest =
    let comma : u.digit_value b',' ≡ none = u.digit_ascii b',' (omega arith) in
    ground (
      arith,
      number-decimal u src (codes "," ++ decimal dest) comma,
      rw append-nil at (number-decimal u dest [] tt),
    )

decimal-Lacks : (n : ℕ) → All (λ c. c ≢ b')') (decimal n)
decimal-Lacks n = digits-Lacks (decimal n) (decimal-IsDigit n)
  where
    digits-Lacks : (s : Bytes) → All IsDigit s → All (λ c. c ≢ b')') s
    digits-Lacks [] h = tt
    digits-Lacks (c ∷ s) (h, hs) = (omega arith, digits-Lacks s hs)

edge_text-Lacks :
    (src dest : ℕ)
    → All (λ c. c ≢ b')') (codes ": " ++ (decimal src ++ (codes "," ++ decimal dest)))
edge_text-Lacks src dest = (
  omega arith,
  (
    omega arith,
    All-append (λ c. c ≢ b')') (decimal src) (codes "," ++ decimal dest) (decimal-Lacks src)
        (omega arith, decimal-Lacks dest),
  ),
)

-- Behind the last closing parenthesis nothing matches.
match_condition-none :
    (u : Unicode) (s : Bytes) → All (λ c. c ≢ b')') s → match_condition u s ≡ none
unfolding match_condition
match_condition-none u [] h = refl
match_condition-none u (c ∷ s) (h, hs) = ground (arith, match_condition-none u s hs)

match_condition-append :
    (u : Unicode) (condition : Bytes) (src dest : ℕ)
    → All (λ c. c ≢ b'\n') condition
    → match_condition u (condition ++ edge_text src dest) ≡ some (condition, src, dest)
unfolding match_condition
match_condition-append u [] src dest h = ground (
  arith,
  match_edge-edge_text u src dest,
  match_condition-none u (codes ": " ++ (decimal src ++ (codes "," ++ decimal dest)))
      (edge_text-Lacks src dest),
)
match_condition-append u (c ∷ condition) src dest (h, hs) =
    ground (arith, match_condition-append u condition src dest hs)

-- A line "[*] (CONDITION): SRC,DEST" is read back as its three parts, for a condition of one line,
-- whatever parentheses and digits it holds.
pub match_line-print :
    (u : Unicode) (condition : Bytes) (src dest : ℕ)
    → All (λ c. c ≢ b'\n') condition
    → match_line u (codes "[*] (" ++ (condition ++ edge_text src dest))
      ≡ some (condition, src, dest)
unfolding match_line
match_line-print u condition src dest h =
    ground (arith, u.space_ascii, match_condition-append u condition src dest h)

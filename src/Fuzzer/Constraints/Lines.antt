-- ===== src/Fuzzer/Constraints/Lines.antt =====
-- One line of the log, read by dump_constraint of src/fuzz/sync.py.
use co_fuzz.Prelude.{
  ℕ, ◌<◌, ◌≡◌, ◌≢◌, refl, true, false, [], ◌∷◌, ◌++◌, none, some, arith, append-nil,
}
use co_fuzz.Prelude.Text.{Bytes, codes, text_eq, All, All-append}
use co_fuzz.Prelude.Decimal.{decimal, decimal-IsDigit, IsDigit}
use co_fuzz.Tracer.Python.{Unicode, splitlines, splitlines-append}
use co_fuzz.Tracer.Line.{rest_of_line}
use co_fuzz.Tracer.Line.RoundTrip.{number-decimal}
use co_fuzz.Fuzzer.Constraints.{
  match_start, match_express, join_lines, append_at, Reading, read_text, read_line, read_lines,
}

abbrev pub start_text : ℕ → ℕ → Bytes
start_text src dest = codes "[STAT] CRACK:" ++ (decimal src ++ (codes "," ++ decimal dest))

-- An ASCII character that ends no line.
abbrev pub IsInLine : ℕ → Type 0
IsInLine c = (c < 128) × (c ≢ b'\n') × (c ≢ b'\r')

-- An expression: an opening parenthesis and characters of one line.
abbrev pub IsExpression : Bytes → Type 0
IsExpression [] = ⊥
IsExpression (c ∷ s) = (c ≡ b'(') × All IsInLine s

match_start-start_text :
    (u : Unicode) (src dest : ℕ) → match_start u (start_text src dest) ≡ some (src, dest)
unfolding match_start text_eq
match_start-start_text u src dest =
    let comma : u.digit_value b',' ≡ none = u.digit_ascii b',' (omega arith) in
    ground (
      arith,
      number-decimal u src (codes "," ++ decimal dest) comma,
      rw append-nil at (number-decimal u dest [] tt),
    )

rest_of_line-IsInLine : (s : Bytes) → All IsInLine s → rest_of_line s ≡ true
unfolding rest_of_line
rest_of_line-IsInLine [] h = refl
rest_of_line-IsInLine (c ∷ s) (h, hs) = ground (arith, rest_of_line-IsInLine s hs)

match_start-expression : (u : Unicode) (e : Bytes) → IsExpression e → match_start u e ≡ none
unfolding match_start
match_start-expression u [] h = absurd h
match_start-expression u (c ∷ s) (h, hs) = ground arith

match_express-expression : (u : Unicode) (e : Bytes) → IsExpression e → match_express u e ≡ true
unfolding match_express
match_express-expression u [] h = absurd h
match_express-expression u (c ∷ s) (h, hs) = ground (arith, rest_of_line-IsInLine s hs)

-- The line of an expression, of a start, and of the end.
pub read_text-expression :
    (u : Unicode) (e : Bytes) (r : Reading)
    → IsExpression e
    → r.record_flag ≡ true
    → read_text u e r ≡ record r { express_list = r.express_list ++ e ∷ [] }
unfolding read_text
read_text-expression u e r h flag =
    ground (arith, match_start-expression u e h, match_express-expression u e h)

pub read_text-start :
    (u : Unicode) (src dest : ℕ) (r : Reading)
    → read_text u (start_text src dest) r ≡ record r { src_bb = src; record_flag = true }
unfolding read_text
read_text-start u src dest r = ground (arith, match_start-start_text u src dest)

match_express-Lacks : (u : Unicode) (s : Bytes) → All (λ c. c ≢ b'(') s → match_express u s ≡ false
unfolding match_express
match_express-Lacks u [] h = refl
match_express-Lacks u (c ∷ s) (h, hs) = ground (arith, match_express-Lacks u s hs)

pub read_text-end :
    (u : Unicode) (r : Reading)
    → r.record_flag ≡ true
    → read_text u (codes "CRACK-END") r ≡ record r {
      constraint_dict = append_at r.src_bb (join_lines r.express_list) r.constraint_dict;
      record_flag = false;
      express_list = [];
    }
unfolding read_text match_start text_eq
read_text-end u r flag = ground (arith, match_express-Lacks u (codes "CRACK-END") (omega arith))

-- A line of ASCII characters comes off the front of the log and is read.
pub read_lines-line :
    (u : Unicode) (line rest : Bytes) (r : Reading)
    → All IsInLine line
    → read_lines u (splitlines (line ++ b'\n' ∷ rest)) r
      ≡ read_lines u (splitlines rest) (read_text u line r)
unfolding read_lines read_line
read_lines-line u line rest r h = ground (
  arith,
  splitlines-append line rest (All-map (λ c p. (p.1, p.2)) line h),
  u.decode_ascii line (All-map (λ c p. p.0) line h),
)
  where
    All-map :
        {P : ℕ → Type 0} → ((c : ℕ) → IsInLine c → P c) → (s : Bytes) → All IsInLine s → All P s
    All-map f [] h = tt
    All-map f (c ∷ s) (h, hs) = (f c h, All-map f s hs)

digits-IsInLine : (s : Bytes) → All IsDigit s → All IsInLine s
digits-IsInLine [] h = tt
digits-IsInLine (c ∷ s) (h, hs) = ((omega arith, omega arith, omega arith), digits-IsInLine s hs)

decimal-IsInLine : (n : ℕ) → All IsInLine (decimal n)
decimal-IsInLine n = digits-IsInLine (decimal n) (decimal-IsDigit n)

pub start_text-IsInLine : (src dest : ℕ) → All IsInLine (start_text src dest)
start_text-IsInLine src dest =
    All-append IsInLine (codes "[STAT] CRACK:") (decimal src ++ (codes "," ++ decimal dest))
      (omega arith)
      (All-append IsInLine (decimal src) (codes "," ++ decimal dest) (decimal-IsInLine src)
        (omega arith, decimal-IsInLine dest))

pub expression-IsInLine : (e : Bytes) → IsExpression e → All IsInLine e
expression-IsInLine [] h = absurd h
expression-IsInLine (c ∷ s) (h, hs) = ((omega arith, omega arith, omega arith), hs)

-- ===== src/Tracer/Condition/Parse.antt =====
-- The texts of trace/trace-pass.so.cc and trace/trace-rt.o.c as src/fuzz/condition.py reads them.
use co_fuzz.Prelude.{
  ℕ, ◌≡◌, ◌≢◌, refl, Bool, true, false, ◌++◌, [], ◌∷◌, none, some, arith, append-nil,
}
use co_fuzz.Prelude.Text.{Bytes, codes, All}
use co_fuzz.Prelude.Decimal.{decimal, decimal-IsDigit, IsDigit}
use co_fuzz.Tracer.Python.{Unicode}
use co_fuzz.Tracer.Line.{rest_of_line}
use co_fuzz.Tracer.Line.RoundTrip.{number-decimal}
use co_fuzz.Tracer.Condition.{
  log2_of, search_first, match_number, parse_edge_type, parse_cond_width, match_branch,
  match_switch, parse_condition,
}
use co_fuzz.Pass.Ir.{Ir}
use co_fuzz.Pass.Condition.{icmp_text}

rest_of_line-true : (s : Bytes) → All (λ c. c ≢ b'\n') s → rest_of_line s ≡ true
unfolding rest_of_line
rest_of_line-true [] h = refl
rest_of_line-true (c ∷ s) (h, hs) = ground (arith, rest_of_line-true s hs)

-- The outcome in front of a branch's condition.
abbrev pub outcome : Bool → Bytes
outcome true = codes "Br_true_"
outcome false = codes "Br_false_"

-- A branch's condition, of a text with no newline, is read as one with two successors, of the type
-- and the width in its text.
pub parse_condition_branch :
    (u : Unicode) (taken : Bool) (text : Bytes)
    → All (λ c. c ≢ b'\n') text
    → parse_condition u (outcome taken ++ text) ≡ record {
      succ_num = 2;
      edge_type = parse_edge_type u text;
      cond_width = parse_cond_width u text;
    }
unfolding parse_condition match_branch
parse_condition_branch u true text h = ground (arith, rest_of_line-true text h)
parse_condition_branch u false text h = ground (arith, rest_of_line-true text h)

-- A switch's condition, printed with its width and its number of cases in decimal, is read as a
-- condition with that many successors and the logarithm of that width, and as a switch.
pub parse_condition_switch :
    (u : Unicode) (width case_num : ℕ)
    → parse_condition u (codes "Switch_i" ++ (decimal width ++ (codes "_" ++ decimal case_num)))
      ≡ record { succ_num = case_num; edge_type = 48; cond_width = log2_of width }
unfolding parse_condition match_branch match_switch
parse_condition_switch u width case_num =
    let stop : u.digit_value b'_' ≡ none = u.digit_ascii b'_' (omega arith) in
    ground (
      arith,
      number-decimal u width (codes "_" ++ decimal case_num) stop,
      rw append-nil at (number-decimal u case_num [] tt),
    )

search_first-digits :
    (u : Unicode) (s rest : Bytes)
    → All IsDigit s
    → search_first (match_number u (codes "_i")) (s ++ rest)
      ≡ search_first (match_number u (codes "_i")) rest
unfolding search_first match_number
search_first-digits u [] rest h = refl
search_first-digits u (c ∷ s) rest (h, hs) = ground (arith, search_first-digits u s rest hs)

-- The type and the width that are read from the text of an integer comparison are the predicate
-- and the first operand's bit width that the pass wrote, for an operand of an integer type.
pub parse-icmp_text :
    (u : Unicode) (ir : Ir) (pred operand0 : ℕ) {width : ℕ}
    → ir.bit_width operand0 ≡ some width
    → (parse_edge_type u (icmp_text ir pred operand0) ≡ pred)
      × (parse_cond_width u (icmp_text ir pred operand0) ≡ log2_of width)
unfolding icmp_text parse_edge_type parse_cond_width
parse-icmp_text u ir pred operand0 {width} e =
    let stop : u.digit_value b'_' ≡ none = u.digit_ascii b'_' (omega arith) in
    let rest = codes "_i" ++ decimal width in
    ground (
      arith,
      number-decimal u pred rest stop,
      search_first-digits u (decimal pred) rest (decimal-IsDigit pred),
      rw append-nil at (number-decimal u width [] tt),
    )

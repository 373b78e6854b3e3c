-- ===== src/Tracer/Condition.antt =====
-- src/fuzz/condition.py: what the tracer makes of a condition's text.
pub mod Parse
use co_fuzz.Prelude.{
  ℕ, Bool, true, false, ◌++◌, List, [], ◌∷◌, Option, none, some, ◌==◌, if◌then◌else◌, ◌||◌,
}
use co_fuzz.Prelude.Text.{Bytes, codes, contains}
use co_fuzz.Tracer.Python.{Unicode, number}
use co_fuzz.Tracer.Line.{strip_prefix, rest_of_line, ◌>>=◌}

-- `cond_width`: 0, or np.log2 of a number, which is left as it stands.
pub data Width : Type 0 where
  no_width : Width
  log2_of : ℕ → Width

-- The attributes of CondBase, BrCond and SwitchCond that are read. `succ_max` is `succ_num`.
pub record Cond : Type 0 where
  pub succ_num : ℕ
  pub edge_type : ℕ
  pub cond_width : Width

-- pattern.search: the leftmost place where a matcher succeeds.
unfoldable pub search_first : (Bytes → Option ℕ) → Bytes → Option ℕ
search_first matcher [] = matcher []
search_first matcher (c ∷ s) =
    let later = search_first matcher s in elim (matcher (c ∷ s)) [ none ↦ later | some n ↦ some n ]

-- A prefix, and a number behind it.
unfoldable pub match_number : Unicode → Bytes → Bytes → Option ℕ
unfolding strip_prefix
match_number u p s = do rest ← strip_prefix p s; (n, s') ← number u rest; some n

-- The loop over `edge_enum`.
unfoldable pub find_type : List (Bytes × ℕ) → Bytes → ℕ
find_type [] condition = 0
find_type ((str_cmp, cond_type) ∷ types) condition =
    if contains condition str_cmp then cond_type else find_type types condition

abbrev pub edge_enum : List (Bytes × ℕ)
edge_enum =
    (codes "strcmp", 42)
    ∷ (codes "strncmp", 43)
    ∷ (codes "memcmp", 44)
    ∷ (codes "phi", 45)
    ∷ (codes "call@", 46)
    ∷ (codes "constInst", 47)
    ∷ []

-- BrCond.__parse_edge_type
unfoldable pub parse_edge_type : Unicode → Bytes → ℕ
unfolding search_first match_number
parse_edge_type u condition = elim (search_first (match_number u (codes "pred@")) condition) [
  | some n ↦ n
  | none ↦ find_type edge_enum condition
]

-- BrCond.__parse_cond_width
unfoldable pub parse_cond_width : Unicode → Bytes → Width
unfolding search_first match_number
parse_cond_width u condition = elim (search_first (match_number u (codes "_i")) condition) [
  | some n ↦ log2_of n
  | none ↦ no_width
]

-- br_pattern, ^Br_(?P<value>true|false)_(?P<br_cond>.*)$: the condition it binds.
unfoldable pub match_branch : Bytes → Option Bytes
unfolding strip_prefix
match_branch s = do
  rest ← strip_prefix (codes "Br_") s
  br_cond ← elim (strip_prefix (codes "true_") rest) [
    | some br_cond ↦ some br_cond
    | none ↦ strip_prefix (codes "false_") rest
  ]
  if rest_of_line br_cond then some br_cond else none

-- `$`: the end, or a newline that is the end.
unfoldable pub at_end : Bytes → Bool
at_end [] = true
at_end (c ∷ []) = c == b'\n'
at_end (c ∷ d ∷ s) = false

-- reg_switch, ^Switch_i(?P<width>\d+)_(?P<case_num>\d+)$
unfoldable pub match_switch : Unicode → Bytes → Option (ℕ × ℕ)
unfolding strip_prefix at_end
match_switch u s = do
  s1 ← strip_prefix (codes "Switch_i") s
  (width, s2) ← number u s1
  s3 ← strip_prefix (codes "_") s2
  (case_num, s4) ← number u s3
  if at_end s4 then some (width, case_num) else none

-- CondStmt.__parse_condition
unfoldable pub parse_condition : Unicode → Bytes → Cond
parse_condition u cond_str = elim (match_branch cond_str) [
  | some br_cond ↦ record {
    succ_num = 2;
    edge_type = parse_edge_type u br_cond;
    cond_width = parse_cond_width u br_cond;
  }
  | none ↦ elim (match_switch u cond_str) [
    | some (width, case_num) ↦ record {
      succ_num = case_num;
      edge_type = 48;
      cond_width = log2_of width;
    }
    | none ↦ record { succ_num = 0; edge_type = 0; cond_width = no_width }
  ]
]

-- ===== src/Tracer/State.antt =====
-- CorpusTracer.__dump_trace of src/fuzz/trace.py: how one run's log changes the execution tree that
-- StateDepot keeps in cov_state.
pub mod Log
pub mod Node
use co_fuzz.Prelude.{
  ℕ, ◌+◌, Bool, true, false, ◌||◌, ◌++◌, List, [], ◌∷◌, Option, none, some, ◌==◌, ltb, leb, length,
  if◌then◌else◌,
}
use co_fuzz.Prelude.Text.{Bytes, text_eq}
use co_fuzz.Tracer.Python.{Unicode, splitlines}
use co_fuzz.Tracer.Line.{match_line}
use co_fuzz.Tracer.Condition.{Cond, parse_condition}

-- CondStmt
pub record CondStmt : Type 0 where
  pub addr : ℕ
  pub min_dist : ℕ
  pub condition : Cond
  pub children : List ℕ
  pub belongs : List Bytes

-- cov_state, a dictionary
abbrev pub CovState : Type 0
CovState = List (ℕ × CondStmt)

unfoldable pub get : CovState → ℕ → Option CondStmt
get [] src = none
get ((k, node) ∷ m) src = if k == src then some node else get m src

-- `cov_state[src] = node`
unfoldable pub put : CovState → ℕ → CondStmt → CovState
put [] src node = (src, node) ∷ []
put ((k, old) ∷ m) src node = if k == src then (k, node) ∷ m else (k, old) ∷ put m src node

unfoldable pub has_child : List ℕ → ℕ → Bool
has_child [] dest = false
has_child (c ∷ cs) dest = (c == dest) || has_child cs dest

unfoldable pub has_seed : List Bytes → Bytes → Bool
has_seed [] seed = false
has_seed (c ∷ cs) seed = text_eq c seed || has_seed cs seed

-- `children.add(dest)` and `belongs.add(seed_path)`, on sets
unfoldable pub add_child : List ℕ → ℕ → List ℕ
unfolding has_child
add_child cs dest = if has_child cs dest then cs else dest ∷ cs

unfoldable pub add_seed : List Bytes → Bytes → List Bytes
unfolding has_seed
add_seed cs seed = if has_seed cs seed then cs else seed ∷ cs

-- CondStmt(addr, cond_str, edge_dist)
unfoldable pub new_stmt : Unicode → (addr : ℕ) → (cond_str : Bytes) → (edge_dist : ℕ) → CondStmt
new_stmt u addr cond_str edge_dist = record {
  addr = addr;
  min_dist = edge_dist;
  condition = parse_condition u cond_str;
  children = [];
  belongs = [];
}

-- CondStmt.update_dist
unfoldable pub update_dist : ℕ → CondStmt → CondStmt
update_dist edge_dist node =
    if ltb edge_dist node.min_dist then record node { min_dist = edge_dist } else node

-- CondStmt.is_branch_covered
unfoldable pub is_branch_covered : CondStmt → Bool
is_branch_covered node = leb node.condition.succ_num (length node.children)

-- The node of an edge, made or found, with the edge's destination, seed and distance.
unfoldable pub touch :
    Unicode
    → (seed_path : Bytes) → (line_cnt : ℕ) → Bytes
    → (src dest : ℕ) → Option CondStmt
    → CondStmt
unfolding add_child add_seed new_stmt update_dist
touch u seed_path line_cnt cond_str src dest found =
    let node : CondStmt = elim found [ none ↦ new_stmt u src cond_str line_cnt | some old ↦ old ] in
    update_dist line_cnt (record node {
      children = add_child node.children dest;
      belongs = add_seed node.belongs seed_path;
    })

-- One edge of the log, behind the regular expression.
unfoldable pub add_edge :
    Unicode → (seed_path : Bytes) → (line_cnt : ℕ) → Bytes → (src dest : ℕ) → CovState → CovState
add_edge u seed_path line_cnt cond_str src dest m =
    put m src (touch u seed_path line_cnt cond_str src dest (get m src))

-- The loop over the lines. A line that does not decode is not counted.
unfoldable pub dump_lines :
    Unicode → (seed_path : Bytes) → (line_cnt : ℕ) → List Bytes → CovState → CovState
dump_lines u seed_path line_cnt [] m = m
dump_lines u seed_path line_cnt (raw ∷ lines) m = elim (u.decode raw) [
  | none ↦ dump_lines u seed_path line_cnt lines m
  | some line ↦ elim (match_line u line) [
    | none ↦ dump_lines u seed_path (line_cnt + 1) lines m
    | some (cond_str, src, dest) ↦
        dump_lines u seed_path (line_cnt + 1) lines
          (add_edge u seed_path (line_cnt + 1) cond_str src dest m)
  ]
]

-- __dump_trace(trace_info, seed_path)
unfoldable pub dump_trace : Unicode → (trace_info seed_path : Bytes) → CovState → CovState
unfolding dump_lines
dump_trace u trace_info seed_path m = dump_lines u seed_path 0 (splitlines trace_info) m

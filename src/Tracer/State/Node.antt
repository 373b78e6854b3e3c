-- ===== src/Tracer/State/Node.antt =====
-- The nodes of the execution tree after a log of trace/trace-rt.o.c is read by src/fuzz/trace.py.
use Prim.Native.Nat.{min}
use co_fuzz.Prelude.{
  ℕ, ◌+◌, ◌≤◌, ◌≡◌, refl, Bool, false, ◌&&◌, ◌||◌, List, [], ◌∷◌, Option, none, some, if◌then◌else◌,
  ◌==◌, arith, Bool-cases, inl, inr, ap, ◌∙◌,
}
use co_fuzz.Prelude.Text.{Bytes, All}
use co_fuzz.Tracer.Python.{Unicode}
use co_fuzz.Tracer.State.{
  CondStmt, CovState, get, put, has_child, add_child, touch, add_edge, dump_trace,
}
use co_fuzz.Tracer.State.Log.{Event, HasPlainText, log_of, add_events, dump_trace-log}

get-put :
    (m : CovState) (src k : ℕ) (node : CondStmt)
    → get (put m src node) k ≡ (if src == k then some node else get m k)
unfolding get put
get-put [] src k node = refl
get-put ((j, old) ∷ m) src k node = ground (arith, get-put m src k node)

has_child-add_child :
    (cs : List ℕ) (dest d : ℕ) → has_child (add_child cs dest) d ≡ ((dest == d) || has_child cs d)
unfolding has_child add_child
has_child-add_child cs dest d = elim (Bool-cases (dest == d)) [
  | inl same ↦ ground arith
  | inr differ ↦ ground arith
]

-- The destinations of a node, and of none.
abbrev pub children_of : Option CondStmt → List ℕ
children_of none = []
children_of (some node) = node.children

touch-children :
    (u : Unicode) (seed_path : Bytes) (n : ℕ) (text : Bytes) (src dest : ℕ)
    (found : Option CondStmt)
    → (touch u seed_path n text src dest found).children ≡ add_child (children_of found) dest
unfolding touch
touch-children u seed_path n text src dest none = ground arith
touch-children u seed_path n text src dest (some old) = ground arith

touch-min_dist :
    (u : Unicode) (seed_path : Bytes) (n : ℕ) (text : Bytes) (src dest : ℕ)
    (found : Option CondStmt)
    → some (touch u seed_path n text src dest found).min_dist
      ≡ (elim found [ none ↦ some n | some old ↦ some (min old.min_dist n) ])
unfolding touch
touch-min_dist u seed_path n text src dest none = ground arith
touch-min_dist u seed_path n text src dest (some old) = ground arith

-- Is there an edge from the block to `d` in the tree?
abbrev pub child_of : CovState → ℕ → ℕ → Bool
child_of m k d = has_child (children_of (get m k)) d

child_of-add_edge :
    (u : Unicode) (seed_path : Bytes) (n : ℕ) (text : Bytes) (src dest : ℕ) (m : CovState) (k d : ℕ)
    → child_of (add_edge u seed_path n text src dest m) k d
      ≡ (child_of m k d || ((src == k) && (dest == d)))
unfolding add_edge
child_of-add_edge u seed_path n text src dest m k d =
    let node = touch u seed_path n text src dest (get m src) in
    ground (
      arith,
      get-put m src k node,
      touch-children u seed_path n text src dest (get m src),
      has_child-add_child (children_of (get m k)) dest d,
    )

-- Does some event go from `k` to `d`?
abbrev pub logged : List Event → ℕ → ℕ → Bool
logged [] k d = false
logged (e ∷ events) k d = ((e.src == k) && (e.dest == d)) || logged events k d

-- The least distance of a block's node.
abbrev pub dist_of : CovState → ℕ → Option ℕ
dist_of m k = elim (get m k) [ none ↦ none | some node ↦ some node.min_dist ]

-- The least of the old distance and the line of an edge from the block.
abbrev pub dist_with : Option ℕ → ℕ → Option ℕ
dist_with none n = some n
dist_with (some d) n = some (min d n)

dist_of-add_edge :
    (u : Unicode) (seed_path : Bytes) (n : ℕ) (text : Bytes) (src dest : ℕ) (m : CovState) (k : ℕ)
    → dist_of (add_edge u seed_path n text src dest m) k
      ≡ (if src == k then dist_with (dist_of m k) n else dist_of m k)
unfolding add_edge
dist_of-add_edge u seed_path n text src dest m k =
    let node = touch u seed_path n text src dest (get m src) in
    ground (arith, get-put m src k node, touch-min_dist u seed_path n text src dest (get m src))

add_events-child_of :
    (u : Unicode) (seed_path : Bytes) (n : ℕ) (events : List Event) (m : CovState) (k d : ℕ)
    → child_of (add_events u seed_path n events m) k d ≡ (child_of m k d || logged events k d)
add_events-child_of u seed_path n [] m k d = ground arith
add_events-child_of u seed_path n (e ∷ events) m k d =
    let m' = add_edge u seed_path (n + 1) e.condition e.src e.dest m in
    ground (
      arith,
      add_events-child_of u seed_path (n + 1) events m' k d,
      child_of-add_edge u seed_path (n + 1) e.condition e.src e.dest m k d,
    )

-- The distances that the events leave, the first of them at line `n + 1`.
abbrev pub dist_after : Option ℕ → ℕ → List Event → ℕ → Option ℕ
dist_after dist n [] k = dist
dist_after dist n (e ∷ events) k =
    dist_after (if e.src == k then dist_with dist (n + 1) else dist) (n + 1) events k

add_events-dist_of :
    (u : Unicode) (seed_path : Bytes) (n : ℕ) (events : List Event) (m : CovState) (k : ℕ)
    → dist_of (add_events u seed_path n events m) k ≡ dist_after (dist_of m k) n events k
add_events-dist_of u seed_path n [] m k = refl
add_events-dist_of u seed_path n (e ∷ events) m k =
    add_events-dist_of u seed_path (n + 1) events
      (add_edge u seed_path (n + 1) e.condition e.src e.dest m) k
    ∙ ap (λ dist. dist_after dist (n + 1) events k)
        (dist_of-add_edge u seed_path (n + 1) e.condition e.src e.dest m k)

-- The line of the first event from a block, the first event being at line `n + 1`.
abbrev pub first_line : ℕ → List Event → ℕ → Option ℕ
first_line n [] k = none
first_line n (e ∷ events) k =
    let later = first_line (n + 1) events k in if e.src == k then some (n + 1) else later

-- A distance that is no more than the lines to come stays.
dist_after-some :
    (d n : ℕ) (events : List Event) (k : ℕ) → d ≤ n → dist_after (some d) n events k ≡ some d
dist_after-some d n [] k h = refl
dist_after-some d n (e ∷ events) k h = rw smaller (dist_after-some d (n + 1) events k (omega arith))
  where
    smaller : (if e.src == k then some (min d (n + 1)) else some d) ≡ some d
    smaller = ground arith

dist_after-none :
    (n : ℕ) (events : List Event) (k : ℕ) → dist_after none n events k ≡ first_line n events k
dist_after-none n [] k = refl
dist_after-none n (e ∷ events) k = elim (Bool-cases (e.src == k)) [
  | inl same ↦ rw same (dist_after-some (n + 1) (n + 1) events k (omega arith))
  | inr differ ↦ rw differ (dist_after-none (n + 1) events k)
]

-- After a log of events with plain-text conditions is read, the tree has an edge exactly where it
-- had one before or the log has one.
pub dump_trace-child_of :
    (u : Unicode) (seed_path : Bytes) (events : List Event) (m : CovState) (k d : ℕ)
    → All HasPlainText events
    → child_of (dump_trace u (log_of events) seed_path m) k d
      ≡ (child_of m k d || logged events k d)
dump_trace-child_of u seed_path events m k d h =
    rw (dump_trace-log u seed_path events m h) (add_events-child_of u seed_path 0 events m k d)

-- After a log of events with plain-text conditions is read, the distance of a block that the tree
-- did not know is the line of its first edge in the log, and it stays unknown if the log has no
-- edge from it.
pub dump_trace-first_line :
    (u : Unicode) (seed_path : Bytes) (events : List Event) (m : CovState) (k : ℕ)
    → All HasPlainText events
    → get m k ≡ none
    → dist_of (dump_trace u (log_of events) seed_path m) k ≡ first_line 0 events k
dump_trace-first_line u seed_path events m k h e =
    let unknown : dist_of m k ≡ none = ground arith in
    rw (dump_trace-log u seed_path events m h) (
      add_events-dist_of u seed_path 0 events m k
      ∙ ap (λ dist. dist_after dist 0 events k) unknown
      ∙ dist_after-none 0 events k)

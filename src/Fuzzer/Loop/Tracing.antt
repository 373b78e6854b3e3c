-- ===== src/Fuzzer/Loop/Tracing.antt =====
-- What tracing the new seeds, with __seek_trace_seeds of src/fuzz/executor.py and trace_corpus of
-- src/fuzz/trace.py, leaves in the execution tree and in the set of traced seeds.
use co_fuzz.Prelude.{
  ℕ, ◌+◌, ◌<◌, ◌≡◌, refl, sym, ap, ◌∙◌, subst, Bool, true, false, ◌||◌, List, [], ◌∷◌, ◌==◌, arith,
  if◌then◌else◌, Bool-cases, inl, inr,
}
use co_fuzz.Prelude.Text.{Bytes, text_eq, text_eq→eq, All}
use co_fuzz.Tracer.Python.{Unicode}
use co_fuzz.Tracer.State.{CondStmt, CovState, put, add_edge, get, has_seed, dump_trace}
use co_fuzz.Tracer.State.Log.{Event, HasPlainText, log_of, add_events, dump_trace-log}
use co_fuzz.Tracer.State.Node.{child_of, logged, dump_trace-child_of}
use co_fuzz.Fuzzer.Depot.Picks.{is_key}
use co_fuzz.Fuzzer.Loop.{World, seek_trace_seeds, trace_corpus}

-- What the traced program writes: the log of the runtime, with ids of blocks below map_size.
pub record Traceable (map_size : ℕ) (w : World) : Type 0 where
  pub events : (seed_path : Bytes) → List Event
  pub written : (seed_path : Bytes) → w.trace_info seed_path ≡ log_of (events seed_path)
  pub plain : (seed_path : Bytes) → All HasPlainText (events seed_path)
  pub small : (seed_path : Bytes) → All (λ e. e.src < map_size) (events seed_path)

-- The blocks of the tree are below map_size.
abbrev pub KeysBelow : ℕ → CovState → Type 0
KeysBelow map_size m = All (λ (k, node). k < map_size) m

module _ (map_size : ℕ) where
  put-KeysBelow :
      (m : CovState) (src : ℕ) (node : CondStmt)
      → src < map_size
      → KeysBelow map_size m
      → KeysBelow map_size (put m src node)
  unfolding put
  put-KeysBelow [] src node h hs = (h, tt)
  put-KeysBelow ((k, old) ∷ m) src node h (l, ls) = found (k == src) (put-KeysBelow m src node h ls)
    where
      found :
          (same : Bool)
          → KeysBelow map_size (put m src node)
          → KeysBelow map_size (if same then (k, node) ∷ m else (k, old) ∷ put m src node)
      found true later = (l, ls)
      found false later = (l, later)

  add_edge-KeysBelow :
      (u : Unicode) (seed_path : Bytes) (n : ℕ) (text : Bytes) (src dest : ℕ) (m : CovState)
      → src < map_size
      → KeysBelow map_size m
      → KeysBelow map_size (add_edge u seed_path n text src dest m)
  unfolding add_edge
  add_edge-KeysBelow u seed_path n text src dest m h hs = put-KeysBelow m src _ h hs

  add_events-KeysBelow :
      (u : Unicode) (seed_path : Bytes) (n : ℕ) (events : List Event) (m : CovState)
      → All (λ e. e.src < map_size) events
      → KeysBelow map_size m
      → KeysBelow map_size (add_events u seed_path n events m)
  add_events-KeysBelow u seed_path n [] m h hs = hs
  add_events-KeysBelow u seed_path n (e ∷ events) m (h, rest) hs =
      add_events-KeysBelow u seed_path (n + 1) events _ rest
        (add_edge-KeysBelow u seed_path (n + 1) e.condition e.src e.dest m h hs)

  pub is_key-below :
      (m : CovState) (a : ℕ) → KeysBelow map_size m → is_key m a ≡ true → a < map_size
  unfolding get
  is_key-below [] a hs h = ground arith
  is_key-below ((k, node) ∷ m) a (l, ls) h = ground (arith, is_key-below m a ls)

  -- Does one of the seeds log an edge from `k` to `d`?
  module _ (w : World) (t : Traceable map_size w) (u : Unicode) where
    abbrev pub any_logs : List Bytes → ℕ → ℕ → Bool
    any_logs [] k d = false
    any_logs (seed ∷ seeds) k d = logged (t.events seed) k d || any_logs seeds k d

    trace_corpus-cons :
        (seed : Bytes) (seeds : List Bytes) (m : CovState)
        → trace_corpus u w.trace_info (seed ∷ seeds) m
          ≡ trace_corpus u w.trace_info seeds (dump_trace u (log_of (t.events seed)) seed m)
    unfolding trace_corpus
    trace_corpus-cons seed seeds m =
        ap (λ log. trace_corpus u w.trace_info seeds (dump_trace u log seed m)) (t.written seed)

    pub trace_corpus-KeysBelow :
        (seeds : List Bytes) (m : CovState)
        → KeysBelow map_size m
        → KeysBelow map_size (trace_corpus u w.trace_info seeds m)
    unfolding trace_corpus
    trace_corpus-KeysBelow [] m hs = hs
    trace_corpus-KeysBelow (seed ∷ seeds) m hs =
        let m' = dump_trace u (w.trace_info seed) seed m in
        let read : m' ≡ add_events u seed 0 (t.events seed) m =
          ap (λ log. dump_trace u log seed m) (t.written seed)
          ∙ dump_trace-log u seed (t.events seed) m (t.plain seed) in
        trace_corpus-KeysBelow seeds m' (
          subst (KeysBelow map_size) (sym read)
            (add_events-KeysBelow u seed 0 (t.events seed) m (t.small seed) hs))

    pub trace_corpus-child_of :
        (seeds : List Bytes) (m : CovState) (k d : ℕ)
        → child_of (trace_corpus u w.trace_info seeds m) k d
          ≡ (child_of m k d || any_logs seeds k d)
    unfolding trace_corpus
    trace_corpus-child_of [] m k d = ground arith
    trace_corpus-child_of (seed ∷ seeds) m k d =
        let m' = dump_trace u (log_of (t.events seed)) seed m in
        ap (λ tree. child_of tree k d) (trace_corpus-cons seed seeds m)
        ∙ trace_corpus-child_of seeds m' k d
        ∙ ground (arith, dump_trace-child_of u seed (t.events seed) m k d (t.plain seed))

has_seed-cons :
    (n m : Bytes) (seen : List Bytes) → has_seed (m ∷ seen) n ≡ (text_eq m n || has_seed seen n)
unfolding has_seed
has_seed-cons n m seen = refl

-- A name in the set stands for its text.
text_eq-has_seed :
    (m n : Bytes) (seen : List Bytes)
    → has_seed seen m ≡ true
    → text_eq m n ≡ true
    → has_seed seen n ≡ true
text_eq-has_seed m n seen h same = subst (λ x. has_seed seen x ≡ true) (text_eq→eq m n same) h

-- Is it the name of one of the seeds?
abbrev pub named : (name : Bytes → Bytes) → List Bytes → Bytes → Bool
named name [] n = false
named name (seed ∷ seeds) n = text_eq (name seed) n || named name seeds n

-- The listed seeds have names that are not in the set, and no name twice.
abbrev pub AllNew : (name : Bytes → Bytes) → List Bytes → (seen : List Bytes) → Type 0
AllNew name [] seen = Unit
AllNew name (seed ∷ seeds) seen =
    (has_seed seen (name seed) ≡ false) × AllNew name seeds (name seed ∷ seen)

-- The listed seeds are new, each once, and the set gains the names of the queue.
pub record Seeks (name : Bytes → Bytes) (queue seen : List Bytes) (r : List Bytes × List Bytes)
    : Type 0 where
  pub new : AllNew name r.0 seen
  pub listed :
      (n : Bytes) → (has_seed seen n || named name r.0 n) ≡ (has_seed seen n || named name queue n)
  pub traced : (n : Bytes) → has_seed r.1 n ≡ (has_seed seen n || named name queue n)

module _ (name : Bytes → Bytes) (seed : Bytes) (queue seen : List Bytes) where
  seek_trace_seeds-old :
      has_seed seen (name seed) ≡ true
      → seek_trace_seeds name (seed ∷ queue) seen ≡ seek_trace_seeds name queue seen
  unfolding seek_trace_seeds
  seek_trace_seeds-old old = ground (arith, old)

  seek_trace_seeds-fresh :
      has_seed seen (name seed) ≡ false
      → seek_trace_seeds name (seed ∷ queue) seen ≡ (
          let (trace_list, traced) = seek_trace_seeds name queue (name seed ∷ seen) in
          (seed ∷ trace_list, traced))
  unfolding seek_trace_seeds
  seek_trace_seeds-fresh fresh = ground (arith, fresh)

pub seek_trace_seeds-Seeks :
    (name : Bytes → Bytes) (queue seen : List Bytes)
    → Seeks name queue seen (seek_trace_seeds name queue seen)
unfolding seek_trace_seeds
seek_trace_seeds-Seeks name [] seen = record {
  new = tt;
  listed = λ n. refl;
  traced = λ n. ground arith;
}
seek_trace_seeds-Seeks name (seed ∷ queue) seen = elim (Bool-cases (has_seed seen (name seed))) [
  | inl old ↦
      let s = seek_trace_seeds-Seeks name queue seen in
      rw (seek_trace_seeds-old name seed queue seen old) (record {
        new = s.new;
        listed = λ n. ground (arith, s.listed n, text_eq-has_seed (name seed) n seen old);
        traced = λ n. ground (arith, s.traced n, text_eq-has_seed (name seed) n seen old);
      })
  | inr fresh ↦
      let s = seek_trace_seeds-Seeks name queue (name seed ∷ seen) in
      rw (seek_trace_seeds-fresh name seed queue seen fresh) (record {
        new = (fresh, s.new);
        listed = λ n. ground (arith, s.listed n, has_seed-cons n (name seed) seen);
        traced = λ n. ground (arith, s.traced n, has_seed-cons n (name seed) seen);
      })
]

-- ===== src/Fuzzer/Loop/Runs.antt =====
-- Any number of turns of the loop of run of src/fuzz/executor.py.
use co_fuzz.Prelude.{
  if◌then◌else◌, ◌==◌, ◌⊎◌, inl, inr, ℕ, ◌+◌, ◌<◌, ◌≤◌, ◌≡◌, refl, Bool, true, false, ◌||◌, List,
  [], ◌∷◌, ◌++◌, Option, Option-cases, some, length, arith,
}
use co_fuzz.Prelude.Text.{Bytes, All}
use co_fuzz.Tracer.Python.{Unicode}
use co_fuzz.Tracer.State.{has_seed}
use co_fuzz.Tracer.State.Node.{child_of}
use co_fuzz.Fuzzer.Executor.{◌>>=◌}
use co_fuzz.Fuzzer.Executor.Numbered.{Extends}
use co_fuzz.Fuzzer.Executor.Solves.{Extends-trans}
use co_fuzz.Fuzzer.Loop.{World, Hybrid, unsolved_of, run_turn, run}
use co_fuzz.Fuzzer.Loop.Tracing.{named}
use co_fuzz.Fuzzer.Loop.Solving.{Keeps}
use co_fuzz.Fuzzer.Loop.Turn.{Works, Ready, run_turn-Turns}

-- Is it the name of a seed in one of the queues?
abbrev pub any_named : List World → Bytes → Bool
any_named [] n = false
any_named (w ∷ worlds) n = named w.choice.name w.queue n || any_named worlds n

-- In how many of the turns the queue had a seed that is not solved?
abbrev pub busy : List World → (solved_seeds : List Bytes) → ℕ
busy [] solved_seeds = 0
busy (w ∷ worlds) solved_seeds =
    (if length (unsolved_of w.choice.name w.later_queue solved_seeds) == 0 then 0 else 1)
    + busy worlds solved_seeds

-- More solved seeds leave fewer unsolved ones.
length-unsolved_of :
    (name : Bytes → Bytes) (queue old new : List Bytes)
    → Keeps old new
    → length (unsolved_of name queue new) ≤ length (unsolved_of name queue old)
unfolding unsolved_of
length-unsolved_of name [] old new keeps = omega arith
length-unsolved_of name (seed ∷ queue) old new keeps =
    ground (arith, keeps (name seed), length-unsolved_of name queue old new keeps)

-- A turn and the later ones: `left` seeds were unsolved when it began, `still` are at the end.
busy_step :
    (left still later before between after : ℕ)
    → still ≤ left
    → (left ≡ 0) ⊎ (before < between)
    → before ≤ between
    → later + between ≤ after
    → (if still == 0 then 0 else 1) + later + before ≤ after
busy_step left still later before between after fewer (inl none_left) more rest = ground arith
busy_step left still later before between after fewer (inr less) more rest = ground arith

-- What any number of turns keeps: the invariant, the files, the solved seeds and the edges of the
-- tree; the traced seeds are those of the queues more; and each turn with a seed in the queue that
-- stays unsolved cracked or solved something.
pub record Lasts (map_size : ℕ) (worlds : List World) (s : Hybrid) (r : Option Hybrid)
    : Type 0 where
  pub after : Hybrid
  pub run : r ≡ some after
  pub ready : Ready map_size after
  pub queue : Extends s.executor.concolic_queue after.executor.concolic_queue
  pub hangs : Extends s.executor.concolic_hangs after.executor.concolic_hangs
  pub crashes : Extends s.executor.concolic_crash after.executor.concolic_crash
  pub solved : Keeps s.executor.solved_seeds after.executor.solved_seeds
  pub traced :
      (n : Bytes)
      → has_seed after.traced_seeds n ≡ (has_seed s.traced_seeds n || any_named worlds n)
  pub progress :
      busy worlds after.executor.solved_seeds
        + (length s.depot.cracked_seed + length s.executor.solved_seeds)
      ≤ length after.depot.cracked_seed + length after.executor.solved_seeds
  pub edges :
      (k d : ℕ) → child_of s.depot.cov_state k d ≡ true → child_of after.depot.cov_state k d ≡ true

module _ (u : Unicode) (map_size : ℕ) where
  run-cons :
      (w : World) (worlds : List World) (s s' : Hybrid)
      → run_turn u map_size w s ≡ some s'
      → run u map_size (w ∷ worlds) s ≡ run u map_size worlds s'
  unfolding run
  run-cons w worlds s s' turn = rw turn refl

  -- The later turns go on from the state that the first ones leave.
  run-append :
      (before later : List World) (s : Hybrid)
      → run u map_size (before ++ later) s ≡ (run u map_size before s >>= run u map_size later)
  unfolding run
  run-append [] later s = refl
  run-append (w ∷ before) later s = elim (Option-cases (run_turn u map_size w s)) [
    | inl stopped ↦ rw stopped refl
    | inr (s', turn) ↦ rw turn (run-append before later s')
  ]

  pub run_more :
      (before later : List World) (s middle : Hybrid)
      → run u map_size before s ≡ some middle
      → run u map_size (before ++ later) s ≡ run u map_size later middle
  run_more before later s middle e = rw (run-append before later s, e) refl

  -- From a state with the invariant, any number of turns, each with a world that works, raises no
  -- exception, and the invariant still holds.
  pub run-Lasts :
      (worlds : List World) (s : Hybrid)
      → All (Works u map_size) worlds
      → Ready map_size s
      → Lasts map_size worlds s (run u map_size worlds s)
  unfolding run
  run-Lasts [] s works ready = record {
    after = s;
    run = refl;
    ready = ready;
    queue = ([], refl);
    hangs = ([], refl);
    crashes = ([], refl);
    solved = λ n h. h;
    traced = λ n. ground arith;
    progress = omega arith;
    edges = λ k d h. h;
  }
  run-Lasts (w ∷ worlds) s (works, rest) ready =
      let t = run_turn-Turns u map_size w works s ready in
      let r = run-Lasts worlds t.after rest t.ready in
      rw (run-cons w worlds s t.after t.run) (record {
        after = r.after;
        run = r.run;
        ready = r.ready;
        queue = Extends-trans _ _ _ t.queue r.queue;
        hangs = Extends-trans _ _ _ t.hangs r.hangs;
        crashes = Extends-trans _ _ _ t.crashes r.crashes;
        solved = λ n h. r.solved n (t.solved n h);
        traced = λ n. ground (arith, r.traced n, t.traced n);
        progress =
            busy_step (length (unsolved_of w.choice.name w.later_queue s.executor.solved_seeds))
              (length (unsolved_of w.choice.name w.later_queue r.after.executor.solved_seeds))
              (busy worlds r.after.executor.solved_seeds)
              (length s.depot.cracked_seed + length s.executor.solved_seeds)
              (length t.after.depot.cracked_seed + length t.after.executor.solved_seeds)
              (length r.after.depot.cracked_seed + length r.after.executor.solved_seeds)
              (length-unsolved_of w.choice.name w.later_queue s.executor.solved_seeds
                r.after.executor.solved_seeds (λ n h. r.solved n (t.solved n h)))
              t.progress t.more r.progress;
        edges = λ k d h. r.edges k d (ground (arith, t.tree k d));
      })

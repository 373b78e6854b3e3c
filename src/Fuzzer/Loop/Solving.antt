-- ===== src/Fuzzer/Loop/Solving.antt =====
-- What __solve_seed and __solve_random of src/fuzz/executor.py keep in the state of the main loop.
use co_fuzz.Prelude.{
  ℕ, ◌+◌, ◌≤◌, ◌≡◌, refl, ap, ◌∙◌, true, false, List, [], ◌∷◌, Option, none, some, length, arith,
  Bool-cases, inl, inr,
}
use co_fuzz.Prelude.Text.{Bytes, All}
use co_fuzz.Tracer.Python.{Unicode}
use co_fuzz.Fuzzer.Executor.{Executor, is_solved, solve_seed}
use co_fuzz.Fuzzer.Executor.Numbered.{Counted, Extends}
use co_fuzz.Fuzzer.Executor.Solves.{
  All-fits, Extends-trans, FileFits, solved_already, is_solved_first, solve_seed-Solves,
}
use co_fuzz.Fuzzer.Loop.{World, Hybrid, solve_one, solve_list}

-- The invariant of the loop: the counters number the saved files, the fuzzer's map has map_size
-- bytes, and the two fields that stand for solved_seeds agree.
pub record Sound (map_size : ℕ) (s : Hybrid) : Type 0 where
  pub counted : Counted s.executor
  pub size : length s.executor.afl_map ≡ map_size
  pub shared : s.depot.solved_seeds ≡ s.executor.solved_seeds

-- Every name of one set is in the other.
abbrev pub Keeps : List Bytes → List Bytes → Type 0
Keeps old new = (n : Bytes) → is_solved n old ≡ true → is_solved n new ≡ true

-- A step that tests seeds: it ends, the saved files and the solved seeds stay, and the tree, the
-- cracked pairs and the traced seeds are not its.
pub record Advances (map_size : ℕ) (s : Hybrid) (r : Option Hybrid) : Type 0 where
  pub after : Hybrid
  pub run : r ≡ some after
  pub sound : Sound map_size after
  pub queue : Extends s.executor.concolic_queue after.executor.concolic_queue
  pub hangs : Extends s.executor.concolic_hangs after.executor.concolic_hangs
  pub crashes : Extends s.executor.concolic_crash after.executor.concolic_crash
  pub solved : Keeps s.executor.solved_seeds after.executor.solved_seeds
  pub count : length s.executor.solved_seeds ≤ length after.executor.solved_seeds
  pub tree : after.depot.cov_state ≡ s.depot.cov_state
  pub cracked : after.depot.cracked_seed ≡ s.depot.cracked_seed
  pub traced : after.traced_seeds ≡ s.traced_seeds
  pub hits : after.blk_hit ≡ s.blk_hit

module _ (map_size : ℕ) where
  abbrev pub no_step : (s : Hybrid) → Sound map_size s → Advances map_size s (some s)
  no_step s sound = record {
    after = s;
    run = refl;
    sound = sound;
    queue = ([], refl);
    hangs = ([], refl);
    crashes = ([], refl);
    solved = λ n h. h;
    count = omega arith;
    tree = refl;
    cracked = refl;
    traced = refl;
    hits = refl;
  }

  -- Two steps, one behind the other.
  abbrev pub two_steps :
      (s : Hybrid) (r r' : Option Hybrid)
      → (a : Advances map_size s r) → Advances map_size a.after r'
      → Advances map_size s r'
  two_steps s r r' a b = record {
    after = b.after;
    run = b.run;
    sound = b.sound;
    queue = Extends-trans _ _ _ a.queue b.queue;
    hangs = Extends-trans _ _ _ a.hangs b.hangs;
    crashes = Extends-trans _ _ _ a.crashes b.crashes;
    solved = λ n h. b.solved n (a.solved n h);
    count = omega (arith, a.count, b.count);
    tree = b.tree ∙ a.tree;
    cracked = b.cracked ∙ a.cracked;
    traced = b.traced ∙ a.traced;
    hits = b.hits ∙ a.hits;
  }

-- The file of the fuzzer's bitmap is not longer than the map.
abbrev pub FileWithin : ℕ → Option Bytes → Type 0
FileWithin map_size none = Unit {0}
FileWithin map_size (some afl) = length afl ≤ map_size

pub FileWithin-FileFits :
    (map_size : ℕ) (file : Option Bytes) (bs : List ℕ)
    → length bs ≡ map_size
    → FileWithin map_size file
    → FileFits file bs
FileWithin-FileFits map_size none bs size h = tt
FileWithin-FileFits map_size (some afl) bs size h = omega (arith, size)

-- What the files and the concolic executor give for the seeds that are solved.
pub record Solvable (map_size : ℕ) (w : World) : Type 0 where
  pub file : (seed : Bytes) → FileWithin map_size (w.solve_bitmap seed)
  pub fits : (seed : Bytes) → All (λ t. map_size ≤ length t.bitmap) (w.testcases seed)

-- The seed is solved, and it is one more if it was not.
pub record SolvesOne (map_size : ℕ) (name : Bytes) (s : Hybrid) (r : Option Hybrid) : Type 0 where
  pub advances : Advances map_size s r
  pub done : is_solved name advances.after.executor.solved_seeds ≡ true
  pub more :
      is_solved name s.executor.solved_seeds ≡ false
      → length advances.after.executor.solved_seeds ≡ length s.executor.solved_seeds + 1

is_solved_more :
    (name n : Bytes) (solved : List Bytes)
    → is_solved n solved ≡ true
    → is_solved n (name ∷ solved) ≡ true
unfolding is_solved
is_solved_more name n solved h = ground arith

-- The state with what the executor's methods leave.
abbrev with_executor : Executor → Hybrid → Hybrid
with_executor e s = record s {
  executor = e;
  depot = record s.depot { solved_seeds = e.solved_seeds };
}

module _ (u : Unicode) (map_size : ℕ) (w : World) where
  solve_one-some :
      (seed : Bytes) (s : Hybrid) (e : Executor)
      → solve_seed u (w.choice.name seed) (w.solve_bitmap seed) (w.testcases seed) s.executor
        ≡ some e
      → solve_one u w seed s ≡ some (with_executor e s)
  unfolding solve_one
  solve_one-some seed s e run = rw run refl

  solve_one-solved :
      (seed : Bytes) (s : Hybrid)
      → Sound map_size s
      → is_solved (w.choice.name seed) s.executor.solved_seeds ≡ true
      → SolvesOne map_size (w.choice.name seed) s (solve_one u w seed s)
  solve_one-solved seed s sound solved = record {
    advances = record {
      after = with_executor s.executor s;
      run = solve_one-some seed s s.executor (solved_already u _ _ _ s.executor solved);
      sound = record { counted = sound.counted; size = sound.size; shared = refl };
      queue = ([], refl);
      hangs = ([], refl);
      crashes = ([], refl);
      solved = λ n h. h;
      count = omega arith;
      tree = refl;
      cracked = refl;
      traced = refl;
      hits = refl;
    };
    done = solved;
    more = λ unsolved. ground arith;
  }

  module _ (ok : Solvable map_size w) where
    solve_one-unsolved :
        (seed : Bytes) (s : Hybrid)
        → Sound map_size s
        → is_solved (w.choice.name seed) s.executor.solved_seeds ≡ false
        → SolvesOne map_size (w.choice.name seed) s (solve_one u w seed s)
    solve_one-unsolved seed s sound unsolved =
        let name = w.choice.name seed in
        let old = s.executor.solved_seeds in
        let t =
          solve_seed-Solves u name (w.solve_bitmap seed) (w.testcases seed) s.executor sound.counted
            unsolved
            (FileWithin-FileFits map_size (w.solve_bitmap seed) s.executor.afl_map sound.size
              (ok.file seed))
            (All-fits map_size (length s.executor.afl_map) (w.testcases seed) sound.size
              (ok.fits seed)) in
        record {
          advances = record {
            after = with_executor t.after s;
            run = solve_one-some seed s t.after t.run;
            sound = record { counted = t.counted; size = t.size ∙ sound.size; shared = refl };
            queue = t.queue;
            hangs = t.hangs;
            crashes = t.crashes;
            solved = λ n h. rw t.solved (is_solved_more name n old h);
            count = omega (arith, ap length t.solved);
            tree = refl;
            cracked = refl;
            traced = refl;
            hits = refl;
          };
          done = rw t.solved (is_solved_first name old);
          more = λ _. omega (arith, ap length t.solved);
        }

    pub solve_one-SolvesOne :
        (seed : Bytes) (s : Hybrid)
        → Sound map_size s
        → SolvesOne map_size (w.choice.name seed) s (solve_one u w seed s)
    solve_one-SolvesOne seed s sound =
        elim (Bool-cases (is_solved (w.choice.name seed) s.executor.solved_seeds)) [
          | inl solved ↦ solve_one-solved seed s sound solved
          | inr unsolved ↦ solve_one-unsolved seed s sound unsolved
        ]

    pub solve_list-cons :
        (seed : Bytes) (seeds : List Bytes) (s s' : Hybrid)
        → solve_one u w seed s ≡ some s'
        → solve_list u w (seed ∷ seeds) s ≡ solve_list u w seeds s'
    unfolding solve_list
    solve_list-cons seed seeds s s' run = rw run refl

    pub solve_list-Advances :
        (seeds : List Bytes) (s : Hybrid)
        → Sound map_size s
        → Advances map_size s (solve_list u w seeds s)
    unfolding solve_list
    solve_list-Advances [] s sound = no_step map_size s sound
    solve_list-Advances (seed ∷ seeds) s sound =
        let a = (solve_one-SolvesOne seed s sound).advances in
        rw (solve_list-cons seed seeds s a.after a.run) (
          two_steps map_size s (solve_one u w seed s) (solve_list u w seeds a.after) a
            (solve_list-Advances seeds a.after a.sound))

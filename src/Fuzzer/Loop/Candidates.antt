-- ===== src/Fuzzer/Loop/Candidates.antt =====
-- What a turn of the loop of run of src/fuzz/executor.py does with the candidates, or without any.
use co_fuzz.Prelude.{
  ℕ, suc, ◌<◌, ◌≡◌, refl, sym, ap, subst, ◌∙◌, Bool, true, false, List, [], ◌∷◌, Option, some,
  length, take, ltb, arith, if◌then◌else◌,
}
use co_fuzz.Prelude.Text.{Bytes, All, All-map}
use co_fuzz.Tracer.Python.{Unicode}
use co_fuzz.Fuzzer.Executor.{is_solved}
use co_fuzz.Fuzzer.Cracking.{Counts}
use co_fuzz.Fuzzer.Depot.{Depot}
use co_fuzz.Fuzzer.Depot.Picks.{is_key}
use co_fuzz.Fuzzer.Order.{Core, testcase_core, sort_seeds}
use co_fuzz.Fuzzer.Order.Sorts.{sort_seeds-All, length-sort_seeds}
use co_fuzz.Fuzzer.Loop.{
  World, Hybrid, solve_list, unsolved_of, rand_solve_num, solve_random, crack_candidates,
  update_model, use_candidate,
}
use co_fuzz.Fuzzer.Loop.Labels.{all_keys, are_labels-all_keys}
use co_fuzz.Fuzzer.Loop.Tracing.{KeysBelow, is_key-below}
use co_fuzz.Fuzzer.Loop.Solving.{
  Sound, Advances, no_step, two_steps, Solvable, solve_one-SolvesOne, solve_list-Advances,
  solve_list-cons,
}
use co_fuzz.Fuzzer.Loop.Cracking.{Crackable, AllSolved, crack_candidates-LabelsAll}

-- The model learns labels of blocks of the tree that are indices of blk_hit.
record Learns (d : Depot) (r : Option Depot) : Type 0 where
  after : Depot
  run : r ≡ some after
  tree : after.cov_state ≡ d.cov_state
  solved : after.solved_seeds ≡ d.solved_seeds
  cracked : after.cracked_seed ≡ d.cracked_seed

update_model-Learns :
    (hits : List ℕ) (label_cov : Counts) (d : Depot)
    → all_keys (is_key d.cov_state) label_cov ≡ true
    → ((a : ℕ) → is_key d.cov_state a ≡ true → ltb a (length hits) ≡ true)
    → Learns d (update_model hits label_cov d)
unfolding update_model
update_model-Learns hits [] d h inside = record {
  after = d;
  run = refl;
  tree = refl;
  solved = refl;
  cracked = refl;
}
update_model-Learns hits (label ∷ label_cov) d h inside =
    rw (are_labels-all_keys hits d.cov_state (label ∷ label_cov) h inside) (record {
      after = record d { init_phase = false };
      run = refl;
      tree = refl;
      solved = refl;
      cracked = refl;
    })

unsolved_of-All :
    (name : Bytes → Bytes) (queue solved : List Bytes)
    → All (λ seed. is_solved (name seed) solved ≡ false) (unsolved_of name queue solved)
unfolding unsolved_of
unsolved_of-All name [] solved = tt
unsolved_of-All name (seed ∷ queue) solved =
    keep (is_solved (name seed) solved) refl (unsolved_of-All name queue solved)
  where
    keep :
        (b : Bool)
        → is_solved (name seed) solved ≡ b
        → All (λ seed. is_solved (name seed) solved ≡ false) (unsolved_of name queue solved)
        → All
            (λ seed. is_solved (name seed) solved ≡ false)
            (if b then unsolved_of name queue solved else seed ∷ unsolved_of name queue solved)
    keep true at rest = rest
    keep false at rest = (at, rest)

module _ (u : Unicode) (map_size : ℕ) (w : World) (ok : Solvable map_size w) where
  -- Solving a list of seeds whose first is unsolved makes one more solved seed at least.
  record Random (unsolved : List Bytes) (s : Hybrid) (r : Option Hybrid) : Type 0 where
    advances : Advances map_size s r
    progress :
        0 < length unsolved
        → length s.executor.solved_seeds < length advances.after.executor.solved_seeds

  -- The first ones of a list of unsolved seeds.
  solve_list-Random :
      (n : ℕ) (seeds : List Bytes) (s : Hybrid)
      → Sound map_size s
      → All (λ seed. is_solved (w.choice.name seed) s.executor.solved_seeds ≡ false) seeds
      → Random seeds s (solve_list u w (take (suc n) seeds) s)
  unfolding solve_list
  solve_list-Random n [] s sound h = record {
    advances = no_step map_size s sound;
    progress = λ less. absurd (omega (arith, less));
  }
  solve_list-Random n (seed ∷ seeds) s sound (h, hs) =
      let a = solve_one-SolvesOne u map_size w ok seed s sound in
      let b =
        solve_list-Advances u map_size w ok (take n seeds) a.advances.after a.advances.sound in
      rw (solve_list-cons u map_size w ok seed (take n seeds) s a.advances.after a.advances.run)
        (record {
          advances = two_steps map_size s _ _ a.advances b;
          progress = λ less. omega (arith, a.more h, b.count);
        })

  -- The seeds that __solve_random chooses from.
  abbrev pub waiting : Hybrid → List Bytes
  waiting s = unsolved_of w.choice.name w.later_queue s.depot.solved_seeds

  solve_random-Random : (s : Hybrid) → Sound map_size s → Random (waiting s) s (solve_random u w s)
  unfolding solve_random rand_solve_num
  solve_random-Random s sound =
      let core : Bytes → Core = λ seed. testcase_core (w.choice.name seed) (w.st_size seed) in
      let name = w.choice.name in
      let sorted = sort_seeds core (waiting s) in
      let r = solve_list-Random 9 sorted s sound (
        subst (λ solved. All (λ seed. is_solved (name seed) solved ≡ false) sorted) sound.shared
          (sort_seeds-All core _ (waiting s)
            (unsolved_of-All name w.later_queue s.depot.solved_seeds))) in
      record {
        advances = r.advances;
        progress = λ less. r.progress (omega (arith, length-sort_seeds core (waiting s), less));
      }

-- The turn behind concolic_candidate: every candidate's seed is solved; where there is none, one more
-- seed is, if the queue has an unsolved one.
pub record Uses (map_size : ℕ) (w : World) (candidate : List (Bytes × List ℕ)) (s : Hybrid)
    (r : Option Hybrid) : Type 0 where
  pub advances : Advances map_size s r
  pub done : AllSolved w.choice.name candidate advances.after.executor.solved_seeds
  pub progress :
      length candidate ≡ 0
      → 0 < length (unsolved_of w.choice.name w.later_queue s.depot.solved_seeds)
      → length s.executor.solved_seeds < length advances.after.executor.solved_seeds

module _ (u : Unicode) (map_size : ℕ) (w : World) where
  use_candidate-cons :
      (c : Bytes × List ℕ) (cs : List (Bytes × List ℕ)) (s s' : Hybrid) (counts : Counts)
      (d : Depot)
      → crack_candidates u w map_size (c ∷ cs) [] s ≡ some (counts, s')
      → update_model s'.blk_hit counts s'.depot ≡ some d
      → use_candidate u w map_size (c ∷ cs) s ≡ some (record s' { depot = d })
  unfolding use_candidate
  use_candidate-cons c cs s s' counts d run run' = rw (run, run') refl

  use_candidate-nil : (s : Hybrid) → use_candidate u w map_size [] s ≡ solve_random u w s
  unfolding use_candidate
  use_candidate-nil s = refl

  module _ (crackable : Crackable u map_size w) (solvable : Solvable map_size w) where
    pub use_candidate-Uses :
        (candidate : List (Bytes × List ℕ)) (s : Hybrid)
        → Sound map_size s
        → KeysBelow map_size s.depot.cov_state
        → length s.blk_hit ≡ map_size
        → All (λ (seed, addrs). All (λ a. is_key s.depot.cov_state a ≡ true) addrs) candidate
        → Uses map_size w candidate s (use_candidate u w map_size candidate s)
    use_candidate-Uses [] s sound below hits keys =
        let r = solve_random-Random u map_size w solvable s sound in
        rw (use_candidate-nil s) (record {
          advances = r.advances;
          done = tt;
          progress = λ none_left less. r.progress less;
        })
    use_candidate-Uses (c ∷ cs) s sound below hits keys =
        let tree = s.depot.cov_state in
        let l =
          crack_candidates-LabelsAll u map_size w crackable solvable (is_key tree) (c ∷ cs) [] s
            sound
            (All-map _ _ (c ∷ cs)
              (λ (seed, addrs) hs.
                All-map _ _ addrs (λ a h. (is_key-below map_size tree a below h, h)) hs)
              keys)
            refl in
        let a = l.labels.advances in
        let same : (x : ℕ) → is_key a.after.depot.cov_state x ≡ is_key tree x =
          λ x. ap (λ m. is_key m x) a.tree in
        let m =
          update_model-Learns a.after.blk_hit l.labels.counts a.after.depot
            (subst (λ t. all_keys (is_key t) l.labels.counts ≡ true) (sym a.tree) l.labels.keyed)
            (λ x known.
              inside x (is_key-below map_size tree x below (sym (same x) ∙ known))
                (ap length a.hits ∙ hits)) in
        rw (use_candidate-cons c cs s a.after l.labels.counts m.after l.labels.run m.run) (record {
          advances = record {
            after = record a.after { depot = m.after };
            run = refl;
            sound = record {
              counted = a.sound.counted;
              size = a.sound.size;
              shared = m.solved ∙ a.sound.shared;
            };
            queue = a.queue;
            hangs = a.hangs;
            crashes = a.crashes;
            solved = a.solved;
            count = a.count;
            tree = m.tree ∙ a.tree;
            cracked = m.cracked ∙ a.cracked;
            traced = a.traced;
            hits = a.hits;
          };
          done = l.done;
          progress = λ empty less. absurd (omega (arith, empty));
        })
      where
        inside : {n : ℕ} (x : ℕ) → x < map_size → n ≡ map_size → ltb x n ≡ true
        inside x less size = ground arith

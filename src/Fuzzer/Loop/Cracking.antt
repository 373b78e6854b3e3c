-- ===== src/Fuzzer/Loop/Cracking.antt =====
-- What the loop of run of src/fuzz/executor.py over the candidates keeps in the state.
use co_fuzz.Prelude.{
  ℕ, zero, suc, ◌<◌, ◌≡◌, refl, sym, ap, subst, ◌∙◌, Bool, true, List, [], ◌∷◌, Option, none, some,
  length, get_elem?, arith,
}
use co_fuzz.Prelude.Text.{Bytes, All, All-map}
use co_fuzz.Tracer.Python.{Unicode}
use co_fuzz.Tracer.State.{has_child}
use co_fuzz.Fuzzer.Constraints.{dump_constraint}
use co_fuzz.Fuzzer.Executor.{Executor, is_solved}
use co_fuzz.Fuzzer.Executor.Solves.{All-fits}
use co_fuzz.Fuzzer.Cracking.{Counts, in_order, crack_seed}
use co_fuzz.Fuzzer.Cracking.Counts.{AllFit, crack_seed-Cracks}
use co_fuzz.Fuzzer.CrackMap.{ConcolicEnv, cracking, output, dump_crack_map, gen_concolic_env}
use co_fuzz.Fuzzer.CrackMap.Marks.{dump_crack_map-marks}
use co_fuzz.Fuzzer.Loop.{World, Hybrid, crack_one, solve_one, add_counts, crack_candidates}
use co_fuzz.Fuzzer.Loop.Labels.{all_keys, add_counts-all_keys, Keyed, HasKey, crack_seed-Keyed}
use co_fuzz.Fuzzer.Loop.Solving.{
  Sound, Advances, no_step, two_steps, FileWithin, FileWithin-FileFits, Solvable,
  solve_one-SolvesOne,
}

-- Does the environment ask for the block to be cracked?
abbrev pub Asks : ConcolicEnv → ℕ × Bytes → Type 0
Asks (cracking crack_map) (a, constraint) = get_elem? crack_map a ≡ some 0
Asks output (a, constraint) = ⊥

-- What the files, the samplers and the concolic executor give for the seeds that are cracked: the
-- concolic executor logs the constraints of the blocks that it is asked for only.
pub record Crackable (u : Unicode) (map_size : ℕ) (w : World) : Type 0 where
  pub file : (seed : Bytes) → FileWithin map_size (w.crack_bitmap seed)
  pub fits : (seed : Bytes) → AllFit (w.sampler seed) map_size
  pub asked :
      (seed : Bytes) (env : ConcolicEnv)
      → All (Asks env) (in_order (dump_constraint u (w.constraint_info seed env)))

-- The addresses are in the map, and have `p`.
abbrev pub IsInMap : (map_size : ℕ) → (p : ℕ → Bool) → List ℕ → Type 0
IsInMap map_size p addrs = All (λ a. (a < map_size) × (p a ≡ true)) addrs

has_child-all :
    (map_size : ℕ) (p : ℕ → Bool) (addrs : List ℕ) (a : ℕ)
    → IsInMap map_size p addrs
    → has_child addrs a ≡ true
    → p a ≡ true
unfolding has_child
has_child-all map_size p [] a h member = ground arith
has_child-all map_size p (b ∷ addrs) a ((less, hb), hs) member =
    ground (arith, has_child-all map_size p addrs a hs)

-- The crack map of addresses in the map asks for these.
record AsksFor (map_size : ℕ) (p : ℕ → Bool) (r : Option ConcolicEnv) : Type 0 where
  env : ConcolicEnv
  run : r ≡ some env
  asks : (pair : ℕ × Bytes) → Asks env pair → HasKey p pair

gen_concolic_env-some :
    (map_size c : ℕ) (cs : List ℕ) (crack_map : Bytes)
    → dump_crack_map map_size (c ∷ cs) ≡ some crack_map
    → gen_concolic_env map_size (c ∷ cs) ≡ some (cracking crack_map)
unfolding gen_concolic_env
gen_concolic_env-some map_size c cs crack_map run = ground (arith, run)

gen_concolic_env-nil : (map_size : ℕ) → gen_concolic_env map_size [] ≡ some output
unfolding gen_concolic_env
gen_concolic_env-nil map_size = refl

get_elem?-lt : (bs : List ℕ) (i v : ℕ) → get_elem? bs i ≡ some v → i < length bs
get_elem?-lt [] i v h = ground arith
get_elem?-lt (b ∷ bs) zero v h = omega arith
get_elem?-lt (b ∷ bs) (suc i) v h = omega (arith, get_elem?-lt bs i v h)

gen_concolic_env-AsksFor :
    (map_size : ℕ) (p : ℕ → Bool) (addrs : List ℕ)
    → IsInMap map_size p addrs
    → AsksFor map_size p (gen_concolic_env map_size addrs)
gen_concolic_env-AsksFor map_size p [] h = record {
  env = output;
  run = gen_concolic_env-nil map_size;
  asks = λ (a, constraint) no. absurd no;
}
gen_concolic_env-AsksFor map_size p (c ∷ cs) h =
    let (crack_map, run, size, marked) =
      (dump_crack_map-marks map_size (c ∷ cs)).1
        (All-map _ (λ a. a < map_size) (c ∷ cs) (λ a l. l.0) h) in
    record {
      env = cracking crack_map;
      run = gen_concolic_env-some map_size c cs crack_map run;
      asks = λ (a, constraint) zero_byte.
          let less : a < map_size = omega (arith, get_elem?-lt crack_map a 0 zero_byte, size) in
          has_child-all map_size p (c ∷ cs) a h (ground (arith, marked a less));
    }

-- The loop's state, next to the counts.
abbrev state_of : Option (Counts × Hybrid) → Option Hybrid
state_of none = none
state_of (some (counts, s)) = some s

-- A step that cracks: the counts are of addresses with `p`.
pub record Labels (map_size : ℕ) (p : ℕ → Bool) (s : Hybrid) (r : Option (Counts × Hybrid))
    : Type 0 where
  pub counts : Counts
  pub advances : Advances map_size s (state_of r)
  pub run : r ≡ some (counts, advances.after)
  pub keyed : all_keys p counts ≡ true

module _ (u : Unicode) (map_size : ℕ) (w : World) (ok : Crackable u map_size w) where
  crack_one-some :
      (seed : Bytes) (addrs : List ℕ) (s : Hybrid) (env : ConcolicEnv) (counts : Counts)
      (e : Executor)
      → gen_concolic_env map_size addrs ≡ some env
      → crack_seed u
          (w.sampler seed)
          (w.choice.name seed)
          (w.constraint_info seed env)
          (w.crack_bitmap seed)
          s.executor
        ≡ some (counts, e)
      → crack_one u w map_size seed addrs s ≡ some (counts, record s { executor = e })
  unfolding crack_one
  crack_one-some seed addrs s env counts e run run' = rw (run, run') refl

  crack_one-Labels :
      (p : ℕ → Bool) (seed : Bytes) (addrs : List ℕ) (s : Hybrid)
      → Sound map_size s
      → IsInMap map_size p addrs
      → Labels map_size p s (crack_one u w map_size seed addrs s)
  crack_one-Labels p seed addrs s sound inside =
      let g = gen_concolic_env-AsksFor map_size p addrs inside in
      let info = w.constraint_info seed g.env in
      let name = w.choice.name seed in
      let file = w.crack_bitmap seed in
      let c =
        crack_seed-Cracks u (w.sampler seed) name info file s.executor sound.counted
          (FileWithin-FileFits map_size file s.executor.afl_map sound.size (ok.file seed))
          (λ k constraint.
            All-fits map_size (length s.executor.afl_map) (w.sampler seed k constraint) sound.size
              (ok.fits seed k constraint)) in
      let keyed = crack_seed-Keyed p u (w.sampler seed) name info file s.executor (
        All-map (Asks g.env) (HasKey p) (in_order (dump_constraint u info)) g.asks
          (ok.asked seed g.env)) in
      rw (crack_one-some seed addrs s g.env c.counts_after c.after g.run c.run) (record {
        counts = c.counts_after;
        advances = record {
          after = record s { executor = c.after };
          run = refl;
          sound = record {
            counted = c.counted;
            size = c.size ∙ sound.size;
            shared = sound.shared ∙ sym c.solved;
          };
          queue = c.queue;
          hangs = c.hangs;
          crashes = c.crashes;
          solved = λ n h. rw c.solved h;
          count = omega (arith, ap length c.solved);
          tree = refl;
          cracked = refl;
          traced = refl;
          hits = refl;
        };
        run = refl;
        keyed = subst (Keyed p) c.run keyed;
      })

-- Each candidate's addresses are in the map, and have `p`.
abbrev pub AllInMap : (map_size : ℕ) → (p : ℕ → Bool) → List (Bytes × List ℕ) → Type 0
AllInMap map_size p candidate = All (λ (seed, addrs). IsInMap map_size p addrs) candidate

-- Is the seed of each candidate in the set?
abbrev pub AllSolved : (name : Bytes → Bytes) → List (Bytes × List ℕ) → List Bytes → Type 0
AllSolved name candidate solved_seeds =
    All (λ (seed, addrs). is_solved (name seed) solved_seeds ≡ true) candidate

pub record LabelsAll (map_size : ℕ) (p : ℕ → Bool) (name : Bytes → Bytes)
    (candidate : List (Bytes × List ℕ)) (s : Hybrid) (r : Option (Counts × Hybrid)) : Type 0 where
  pub labels : Labels map_size p s r
  pub done : AllSolved name candidate labels.advances.after.executor.solved_seeds

module _ (u : Unicode) (map_size : ℕ) (w : World) where
  crack_candidates-cons :
      (seed : Bytes) (addrs : List ℕ) (candidate : List (Bytes × List ℕ))
      (label_cov counts : Counts) (s s' s'' : Hybrid)
      → crack_one u w map_size seed addrs s ≡ some (counts, s')
      → solve_one u w seed s' ≡ some s''
      → crack_candidates u w map_size ((seed, addrs) ∷ candidate) label_cov s
        ≡ crack_candidates u w map_size candidate (add_counts counts label_cov) s''
  unfolding crack_candidates
  crack_candidates-cons seed addrs candidate label_cov counts s s' s'' run run' =
      rw (run, run') refl

  module _ (crackable : Crackable u map_size w) (solvable : Solvable map_size w)
      (p : ℕ → Bool) where
    pub crack_candidates-LabelsAll :
        (candidate : List (Bytes × List ℕ)) (label_cov : Counts) (s : Hybrid)
        → Sound map_size s
        → AllInMap map_size p candidate
        → all_keys p label_cov ≡ true
        → LabelsAll map_size p w.choice.name candidate s
            (crack_candidates u w map_size candidate label_cov s)
    unfolding crack_candidates
    crack_candidates-LabelsAll [] label_cov s sound inside keyed = record {
      labels = record {
        counts = label_cov;
        advances = no_step map_size s sound;
        run = refl;
        keyed = keyed;
      };
      done = tt;
    }
    crack_candidates-LabelsAll ((seed, addrs) ∷ candidate) label_cov s sound (h, hs) keyed =
        let a = crack_one-Labels u map_size w crackable p seed addrs s sound h in
        let b = solve_one-SolvesOne u map_size w solvable seed a.advances.after a.advances.sound in
        let c =
          crack_candidates-LabelsAll candidate (add_counts a.counts label_cov) b.advances.after
            b.advances.sound hs (add_counts-all_keys p a.counts label_cov a.keyed keyed) in
        rw
          (crack_candidates-cons seed addrs candidate label_cov a.counts s a.advances.after
            b.advances.after a.run b.advances.run)
          (record {
            labels = record {
              counts = c.labels.counts;
              advances =
                  two_steps map_size s _ _ a.advances
                    (two_steps map_size a.advances.after _ _ b.advances c.labels.advances);
              run = c.labels.run;
              keyed = c.labels.keyed;
            };
            done = (c.labels.advances.solved (w.choice.name seed) b.done, c.done);
          })

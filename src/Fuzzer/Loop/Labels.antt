-- ===== src/Fuzzer/Loop/Labels.antt =====
-- Which edges the counts of __crack_seed of src/fuzz/executor.py are of, and so the labels that
-- update_model of src/fuzz/depot.py learns from.
use co_fuzz.Prelude.{
  ℕ, ◌+◌, ◌≡◌, refl, Bool, true, ◌&&◌, List, [], ◌∷◌, Option, none, some, ltb, length, arith,
}
use co_fuzz.Prelude.Text.{Bytes, codes, All}
use co_fuzz.Tracer.Python.{Unicode}
use co_fuzz.Tracer.State.{CovState}
use co_fuzz.Fuzzer.Bitmap.{update_bitmap}
use co_fuzz.Fuzzer.Constraints.{dump_constraint}
use co_fuzz.Fuzzer.Names.{identify_id}
use co_fuzz.Fuzzer.Executor.{Testcase, Executor, sync_seed, ◌>>=◌}
use co_fuzz.Fuzzer.Depot.Picks.{is_key}
use co_fuzz.Fuzzer.Cracking.{
  Counts, add_count, crack_testcases, in_order, crack_constraints, crack_seed,
}
use co_fuzz.Fuzzer.Loop.{add_counts, are_labels}

-- Is each counted address one with `p`?
abbrev pub all_keys : (p : ℕ → Bool) → Counts → Bool
all_keys p [] = true
all_keys p ((a, n) ∷ counts) = p a && all_keys p counts

module _ (p : ℕ → Bool) where
  add_count-all_keys :
      (a n : ℕ) (counts : Counts)
      → p a ≡ true
      → all_keys p counts ≡ true
      → all_keys p (add_count a n counts) ≡ true
  unfolding add_count
  add_count-all_keys a n [] h hs = ground arith
  add_count-all_keys a n ((b, m) ∷ counts) h hs = ground (arith, add_count-all_keys a n counts h)

  pub add_counts-all_keys :
      (cov_count label_cov : Counts)
      → all_keys p cov_count ≡ true
      → all_keys p label_cov ≡ true
      → all_keys p (add_counts cov_count label_cov) ≡ true
  unfolding add_counts
  add_counts-all_keys [] label_cov h hs = hs
  add_counts-all_keys ((a, n) ∷ cov_count) label_cov h hs =
      add_counts-all_keys cov_count (add_count a n label_cov) (ground arith)
        (add_count-all_keys a n label_cov (ground arith) hs)

  -- The result's counts are of addresses with `p`.
  abbrev pub Keyed : Option (Counts × Executor) → Type 0
  Keyed none = Unit {0}
  Keyed (some (counts, e)) = all_keys p counts ≡ true

  bind-Keyed :
      {A : Type 0} (r : Option A) (next : A → Option (Counts × Executor))
      → ((a : A) → Keyed (next a))
      → Keyed (r >>= next)
  bind-Keyed none next h = tt
  bind-Keyed (some a) next h = h a

  then-Keyed :
      (r : Option (Counts × Executor)) (next : Counts × Executor → Option (Counts × Executor))
      → Keyed r
      → ((counts : Counts) (e : Executor) → all_keys p counts ≡ true → Keyed (next (counts, e)))
      → Keyed (r >>= next)
  then-Keyed none next keyed h = tt
  then-Keyed (some (counts, e)) next keyed h = h counts e keyed

  abbrev pub HasKey : ℕ × Bytes → Type 0
  HasKey (a, constraint) = p a ≡ true

  module _ (src : Bytes) where
    crack_testcases-Keyed :
        (addr : ℕ) (ts : List Testcase) (counts : Counts) (e : Executor)
        → p addr ≡ true
        → all_keys p counts ≡ true
        → Keyed (crack_testcases addr src ts counts e)
    unfolding crack_testcases
    crack_testcases-Keyed addr [] counts e h hs = hs
    crack_testcases-Keyed addr (t ∷ ts) counts e h hs =
        bind-Keyed (sync_seed t src (codes "crack") e) _ (λ (cov, e').
          crack_testcases-Keyed addr ts (add_count addr cov counts) e' h
            (add_count-all_keys addr cov counts h hs))

    crack_constraints-Keyed :
        (sampler : ℕ → Bytes → List Testcase) (k : ℕ) (pairs : List (ℕ × Bytes)) (counts : Counts)
        (e : Executor)
        → All HasKey pairs
        → all_keys p counts ≡ true
        → Keyed (crack_constraints sampler k src pairs counts e)
    unfolding crack_constraints
    crack_constraints-Keyed sampler k [] counts e h hs = hs
    crack_constraints-Keyed sampler k ((addr, constraint) ∷ pairs) counts e (h, rest) hs =
        then-Keyed (crack_testcases addr src (sampler k constraint) counts e) _
          (crack_testcases-Keyed addr (sampler k constraint) counts e h hs)
          (λ cs e' keyed. crack_constraints-Keyed sampler (k + 1) pairs cs e' rest keyed)

  pub crack_seed-Keyed :
      (u : Unicode) (sampler : ℕ → Bytes → List Testcase) (name constraint_info : Bytes)
      (file : Option Bytes) (e : Executor)
      → All HasKey (in_order (dump_constraint u constraint_info))
      → Keyed (crack_seed u sampler name constraint_info file e)
  unfolding crack_seed
  crack_seed-Keyed u sampler name constraint_info file e h =
      bind-Keyed (update_bitmap e.afl_map file) _
        (λ bitmap. crack_constraints-Keyed (identify_id u name) sampler 0 _ [] _ h refl)

-- Labels of blocks of the tree that are indices are found.
pub are_labels-all_keys :
    (hits : List ℕ) (m : CovState) (label_cov : Counts)
    → all_keys (is_key m) label_cov ≡ true
    → ((a : ℕ) → is_key m a ≡ true → ltb a (length hits) ≡ true)
    → are_labels hits m label_cov ≡ true
unfolding are_labels
are_labels-all_keys hits m [] h inside = refl
are_labels-all_keys hits m ((a, n) ∷ label_cov) h inside =
    ground (arith, inside a, are_labels-all_keys hits m label_cov)

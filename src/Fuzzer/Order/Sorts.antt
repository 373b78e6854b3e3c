-- ===== src/Fuzzer/Order/Sorts.antt =====
-- What the sort of the seeds by testcase_core of src/fuzz/common.py gives.
use co_fuzz.Prelude.{
  ℕ, suc, ◌+◌, ◌≡◌, refl, ap, ◌∙◌, Bool, true, false, List, [], ◌∷◌, length, if◌then◌else◌,
}
use co_fuzz.Prelude.Text.{Bytes, All}
use co_fuzz.Fuzzer.Order.{Core, core_less, insert_seed, sort_seeds}

module _ (core : Bytes → Core) where
  insert_seed-All :
      (P : Bytes → Type 0) (seed : Bytes) (sorted : List Bytes)
      → P seed
      → All P sorted
      → All P (insert_seed core seed sorted)
  unfolding insert_seed
  insert_seed-All P seed [] h hs = (h, tt)
  insert_seed-All P seed (s ∷ sorted) h (k, ks) =
      place (core_less (core seed) (core s)) (insert_seed-All P seed sorted h ks)
    where
      place :
          (less : Bool)
          → All P (insert_seed core seed sorted)
          → All P (if less then s ∷ insert_seed core seed sorted else seed ∷ s ∷ sorted)
      place true later = (k, later)
      place false later = (h, (k, ks))

  pub sort_seeds-All :
      (P : Bytes → Type 0) (seeds : List Bytes) → All P seeds → All P (sort_seeds core seeds)
  unfolding sort_seeds
  sort_seeds-All P [] h = tt
  sort_seeds-All P (seed ∷ seeds) (h, hs) =
      insert_seed-All P seed (sort_seeds core seeds) h (sort_seeds-All P seeds hs)

  length-insert_seed :
      (seed : Bytes) (sorted : List Bytes)
      → length (insert_seed core seed sorted) ≡ suc (length sorted)
  unfolding insert_seed
  length-insert_seed seed [] = refl
  length-insert_seed seed (s ∷ sorted) =
      place (core_less (core seed) (core s)) (length-insert_seed seed sorted)
    where
      place :
          (less : Bool)
          → length (insert_seed core seed sorted) ≡ suc (length sorted)
          → length (if less then s ∷ insert_seed core seed sorted else seed ∷ s ∷ sorted)
            ≡ suc (suc (length sorted))
      place true later = ap suc later
      place false later = refl

  pub length-sort_seeds : (seeds : List Bytes) → length (sort_seeds core seeds) ≡ length seeds
  unfolding sort_seeds
  length-sort_seeds [] = refl
  length-sort_seeds (seed ∷ seeds) =
      length-insert_seed seed (sort_seeds core seeds) ∙ ap suc (length-sort_seeds seeds)

  -- No seed behind the given one is greater.
  abbrev NoneAbove : Bytes → List Bytes → Type 0
  NoneAbove seed seeds = All (λ s. core_less (core seed) (core s) ≡ false) seeds

  -- Greatest first: no seed is followed by one with a greater key.
  abbrev pub Descending : List Bytes → Type 0
  Descending [] = Unit
  Descending (seed ∷ seeds) = NoneAbove seed seeds × Descending seeds

-- How many of the seeds have `q`.
abbrev pub count : (q : Bytes → Bool) → List Bytes → ℕ
count q [] = 0
count q (seed ∷ seeds) = (if q seed then 1 else 0) + count q seeds

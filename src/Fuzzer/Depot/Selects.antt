-- ===== src/Fuzzer/Depot/Selects.antt =====
-- What __seed_selection of src/fuzz/depot.py selects.
use co_fuzz.Prelude.{
  ℕ, ◌+◌, ◌-◌, ◌<◌, ◌≡◌, refl, Bool, true, false, not, List, [], ◌∷◌, ◌++◌, length, min, leb,
  if◌then◌else◌, arith, length-append, Bool-cases, inl, inr,
}
use co_fuzz.Prelude.Text.{Bytes}
use co_fuzz.Tracer.State.{get}
use co_fuzz.Fuzzer.Depot.{
  all, Choice, Depot, is_cracked, seeds_by, select_from, belongs_of, seed_selection,
}

-- A seed that was not cracked at this edge.
abbrev pub is_new : Choice → Depot → (addr : ℕ) → Bytes → Bool
is_new choice d addr seed = not (is_cracked addr (choice.name seed) d.cracked_seed)

pub all-append :
    {A : Type 0} (p : A → Bool) (xs ys : List A)
    → all p xs ≡ true
    → all p ys ≡ true
    → all p (xs ++ ys) ≡ true
all-append p [] ys hx hy = hy
all-append p (x ∷ xs) ys hx hy = ground (arith, all-append p xs ys)

pub all_weaken :
    (q p : ℕ → Bool) (xs : List ℕ)
    → ((a : ℕ) → q a ≡ true → p a ≡ true)
    → all q xs ≡ true
    → all p xs ≡ true
all_weaken q p [] weaker h = refl
all_weaken q p (x ∷ xs) weaker h = ground (arith, weaker x, all_weaken q p xs weaker)

seeds_by-is_new :
    (want_solved : Bool) (choice : Choice) (d : Depot) (addr : ℕ) (seeds : List Bytes)
    → all (is_new choice d addr) (seeds_by want_solved choice d addr seeds) ≡ true
unfolding seeds_by
seeds_by-is_new want_solved choice d addr [] = refl
seeds_by-is_new true choice d addr (seed ∷ seeds) =
    ground (arith, seeds_by-is_new true choice d addr seeds)
seeds_by-is_new false choice d addr (seed ∷ seeds) =
    ground (arith, seeds_by-is_new false choice d addr seeds)

module _ (choice : Choice) (addr seed_max : ℕ) (unsolved solved : List Bytes) where
  select_from-all :
      (p : Bytes → Bool)
      → all p unsolved ≡ true
      → all p solved ≡ true
      → all p (select_from choice addr seed_max unsolved solved) ≡ true
  unfolding select_from
  select_from-all p hu hs = elim (Bool-cases (leb seed_max (length unsolved))) [
    | inl enough ↦ rw enough (choice.sample_all addr unsolved seed_max p hu)
    | inr few ↦ rw few (
        all-append p unsolved _ hu
          (choice.sample_all addr solved (min (seed_max - length unsolved) (length solved)) p hs))
  ]

  length-select_from :
      length (select_from choice addr seed_max unsolved solved)
      ≡ min seed_max (length unsolved + length solved)
  unfolding select_from
  length-select_from = elim (Bool-cases (leb seed_max (length unsolved))) [
    | inl enough ↦ rw enough (ground (arith, choice.length_sample addr unsolved seed_max))
    | inr few ↦
        let k = min (seed_max - length unsolved) (length solved) in
        let sampled : length (choice.sample addr solved k) ≡ k =
          choice.length_sample addr solved k (omega arith) in
        let less : length unsolved < seed_max = ground arith in
        rw few (omega (arith, sampled, less, length-append unsolved (choice.sample addr solved k)))
  ]

-- The seeds of an edge that were not cracked there.
abbrev pub new_seeds : Choice → Depot → (addr : ℕ) → List Bytes → ℕ
new_seeds choice d addr [] = 0
new_seeds choice d addr (seed ∷ seeds) =
    (if is_new choice d addr seed then 1 else 0) + new_seeds choice d addr seeds

seeds_by-new_seeds :
    (choice : Choice) (d : Depot) (addr : ℕ) (seeds : List Bytes)
    → length (seeds_by false choice d addr seeds) + length (seeds_by true choice d addr seeds)
      ≡ new_seeds choice d addr seeds
unfolding seeds_by
seeds_by-new_seeds choice d addr [] = refl
seeds_by-new_seeds choice d addr (seed ∷ seeds) =
    ground (arith, seeds_by-new_seeds choice d addr seeds)

-- As many new seeds as there are, seed_max at most, and only new ones.
pub seed_selection-is_new :
    (choice : Choice) (d : Depot) (addr seed_max : ℕ)
    → all (is_new choice d addr) (seed_selection choice d addr seed_max) ≡ true
unfolding seed_selection
seed_selection-is_new choice d addr seed_max =
    let seeds = belongs_of (get d.cov_state addr) in
    select_from-all choice addr seed_max _ _ (is_new choice d addr)
      (seeds_by-is_new false choice d addr seeds) (seeds_by-is_new true choice d addr seeds)

pub length-seed_selection :
    (choice : Choice) (d : Depot) (addr seed_max : ℕ)
    → length (seed_selection choice d addr seed_max)
      ≡ min seed_max (new_seeds choice d addr (belongs_of (get d.cov_state addr)))
unfolding seed_selection
length-seed_selection choice d addr seed_max =
    let seeds = belongs_of (get d.cov_state addr) in
    omega (
      arith,
      seeds_by-new_seeds choice d addr seeds,
      length-select_from choice addr seed_max (seeds_by false choice d addr seeds)
          (seeds_by true choice d addr seeds),
    )

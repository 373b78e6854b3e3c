-- ===== src/Fuzzer/Depot/Starves.antt =====
-- When concolic_candidate of src/fuzz/depot.py finds a candidate: an edge without a new seed takes a
-- place too.
use co_fuzz.Prelude.{
  ℕ, zero, suc, ◌+◌, ◌<◌, ◌≡◌, refl, Bool, true, false, List, [], ◌∷◌, ◌==◌, length, take, leb,
  if◌then◌else◌, arith, Bool-cases, inl, inr,
}
use co_fuzz.Prelude.Text.{Bytes, All}
use co_fuzz.Tracer.State.{get}
use co_fuzz.Fuzzer.Depot.{
  all, Choice, Depot, open_edges, belongs_of, seed_selection, Chosen, take_seed, take_seeds,
  take_edges, concolic_candidate,
}
use co_fuzz.Fuzzer.Depot.Selects.{new_seeds, length-seed_selection}
use co_fuzz.Fuzzer.Depot.Picks.{
  pairs_in, add_candidate-pairs_in, take_seeds-Picks, take_edges-Picks,
}

-- Has the edge no seed that was not cracked there?
abbrev pub is_spent : Choice → Depot → (addr : ℕ) → Bool
is_spent choice d addr = new_seeds choice d addr (belongs_of (get d.cov_state addr)) == 0

AllUnit : (addrs : List ℕ) → All (λ a. Unit {0}) addrs
AllUnit [] = tt
AllUnit (a ∷ addrs) = (tt, AllUnit addrs)

length-pairs_in :
    (candidate : List (Bytes × List ℕ)) → 0 < pairs_in candidate → 0 < length candidate
length-pairs_in [] h = h
length-pairs_in (c ∷ candidate) h = omega arith

module _ (choice : Choice) (seed_max : ℕ) (some_seed : 0 < seed_max) where
  take_seeds-nil :
      (addr : ℕ) (seeds : List Bytes) (c : Chosen)
      → length seeds ≡ 0
      → take_seeds choice addr seeds c ≡ c
  unfolding take_seeds
  take_seeds-nil addr [] c h = refl
  take_seeds-nil addr (seed ∷ seeds) c h = absurd (omega (arith, h))

  pairs_in-take_seeds :
      (addr : ℕ) (seeds : List Bytes) (c : Chosen)
      → 0 < length seeds
      → 0 < pairs_in (take_seeds choice addr seeds c).candidate
  unfolding take_seeds take_seed
  pairs_in-take_seeds addr [] c h = absurd (omega (arith, h))
  pairs_in-take_seeds addr (seed ∷ seeds) c h = omega (
    arith,
    add_candidate-pairs_in seed addr c.candidate,
    (take_seeds-Picks (λ a. Unit {0}) choice addr seeds (take_seed choice addr seed c) tt).more,
  )

  module _ (edge_max : ℕ) where
    -- The seeds of the edge, and what is left.
    take_edges-spent :
        (n r addr : ℕ) (addrs : List ℕ) (c : Chosen)
        → is_spent choice c.depot addr ≡ true
        → take_edges choice edge_max seed_max n (addr ∷ addrs) c ≡ (
            if leb edge_max (n + 1) then c else take_edges choice edge_max seed_max (n + 1) addrs c)
    unfolding take_edges
    take_edges-spent n r addr addrs c spent =
        let none_left : length (seed_selection choice c.depot addr seed_max) ≡ 0 =
          ground (arith, length-seed_selection choice c.depot addr seed_max) in
        rw (take_seeds-nil addr (seed_selection choice c.depot addr seed_max) c none_left) refl

    take_edges-found :
        (n addr : ℕ) (addrs : List ℕ) (c : Chosen)
        → is_spent choice c.depot addr ≡ false
        → 0 < length (take_edges choice edge_max seed_max n (addr ∷ addrs) c).candidate
    unfolding take_edges
    take_edges-found n addr addrs c left =
        let seeds = seed_selection choice c.depot addr seed_max in
        let c' = take_seeds choice addr seeds c in
        let picked : 0 < length seeds =
          ground (arith, length-seed_selection choice c.depot addr seed_max) in
        let found = pairs_in-take_seeds addr seeds c picked in
        let rest =
          take_edges-Picks (λ a. Unit {0}) choice edge_max seed_max (n + 1) addrs c'
            (AllUnit addrs) in
        elim (Bool-cases (leb edge_max (n + 1))) [
          | inl last ↦ rw last (length-pairs_in c'.candidate found)
          | inr more ↦ rw more (length-pairs_in _ (omega (arith, found, rest.more)))
        ]

    take_edges-is_spent :
        (addrs : List ℕ) (n r : ℕ) (c : Chosen)
        → edge_max ≡ n + suc r
        → c.candidate ≡ []
        → (length (take_edges choice edge_max seed_max n addrs c).candidate == 0)
          ≡ all (is_spent choice c.depot) (take (suc r) addrs)
    unfolding take_edges
    take_edges-is_spent [] n r c at empty = rw empty refl
    take_edges-is_spent (addr ∷ addrs) n r c at empty =
        elim (Bool-cases (is_spent choice c.depot addr)) [
          | inl spent ↦
              rw (take_edges-spent n r addr addrs c spent)
                (last_or_more r at spent (λ q e. take_edges-is_spent addrs (n + 1) q c e empty))
          | inr left ↦ ground (arith, take_edges-found n addr addrs c left)
        ]
      where
        last_or_more :
            (r : ℕ)
            → edge_max ≡ n + suc r
            → is_spent choice c.depot addr ≡ true
            → ((q : ℕ)
                → edge_max ≡ n + 1 + suc q
                → (length (take_edges choice edge_max seed_max (n + 1) addrs c).candidate == 0)
                  ≡ all (is_spent choice c.depot) (take (suc q) addrs))
            → (length
                  (if leb edge_max (n + 1)
                    then c
                    else take_edges choice edge_max seed_max (n + 1) addrs c).candidate
                == 0)
              ≡ all (is_spent choice c.depot) (addr ∷ take r addrs)
        last_or_more zero at spent later =
            let last : leb edge_max (n + 1) ≡ true = ground arith in rw (last, empty, spent) refl
        last_or_more (suc q) at spent later =
            let more : leb edge_max (n + 1) ≡ false = ground arith in
            rw (more, spent) (later q (omega arith))

-- For edge_max and seed_max above zero, there is no candidate exactly where none of the first edge_max
-- open edges, in the order of the choice, has a seed that was not cracked at it.
pub concolic_candidate-is_spent :
    (choice : Choice) (edge_max seed_max : ℕ) (d : Depot)
    → 0 < edge_max
    → 0 < seed_max
    → (length (concolic_candidate choice edge_max seed_max d).candidate == 0)
      ≡ all (is_spent choice d) (take edge_max (choice.order (open_edges d d.cov_state)))
unfolding concolic_candidate
concolic_candidate-is_spent choice zero seed_max d some_edge some_seed = absurd (omega arith)
concolic_candidate-is_spent choice (suc r) seed_max d some_edge some_seed =
    take_edges-is_spent choice seed_max some_seed (suc r) (choice.order (open_edges d d.cov_state))
      0 r (record { candidate = []; depot = d }) (omega arith) refl

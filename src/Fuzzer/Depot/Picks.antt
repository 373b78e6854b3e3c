-- ===== src/Fuzzer/Depot/Picks.antt =====
-- The candidates of concolic_candidate of src/fuzz/depot.py, and the part of the depot that it leaves.
use co_fuzz.Prelude.{
  ℕ, suc, ◌+◌, ◌≤◌, ◌≡◌, refl, ap, ◌∙◌, Bool, true, false, List, [], ◌∷◌, ◌++◌, none, some, ==_self,
  length, leb, if◌then◌else◌, arith,
}
use co_fuzz.Prelude.Text.{Bytes, text_eq, All, All-append}
use co_fuzz.Tracer.State.{CovState, get}
use co_fuzz.Fuzzer.Depot.Selects.{all_weaken}
use co_fuzz.Fuzzer.Depot.{
  all, Choice, Depot, open_edges, seed_selection, add_candidate, Chosen, take_seed, take_seeds,
  take_edges, concolic_candidate,
}

-- How many pairs of a seed and an address the candidates hold.
abbrev pub pairs_in : List (Bytes × List ℕ) → ℕ
pairs_in [] = 0
pairs_in ((seed, addrs) ∷ candidate) = length addrs + pairs_in candidate

length-snoc : (addrs : List ℕ) (a : ℕ) → length (addrs ++ a ∷ []) ≡ suc (length addrs)
length-snoc [] a = refl
length-snoc (b ∷ addrs) a = ap suc (length-snoc addrs a)

pub add_candidate-pairs_in :
    (seed : Bytes) (a : ℕ) (candidate : List (Bytes × List ℕ))
    → pairs_in (add_candidate seed a candidate) ≡ suc (pairs_in candidate)
unfolding add_candidate
add_candidate-pairs_in seed a [] = refl
add_candidate-pairs_in seed a ((s, addrs) ∷ candidate) =
    ground (arith, add_candidate-pairs_in seed a candidate, length-snoc addrs a)

length-add_candidate :
    (seed : Bytes) (a : ℕ) (candidate : List (Bytes × List ℕ))
    → length (add_candidate seed a candidate) ≤ suc (length candidate)
unfolding add_candidate
length-add_candidate seed a [] = omega arith
length-add_candidate seed a ((s, addrs) ∷ candidate) =
    ground (arith, length-add_candidate seed a candidate)

module _ (P : ℕ → Type 0) where
  -- Each address of each candidate has `P`.
  abbrev pub AllAddrs : List (Bytes × List ℕ) → Type 0
  AllAddrs candidate = All (λ (seed, addrs). All P addrs) candidate

  add_candidate-AllAddrs :
      (seed : Bytes) (a : ℕ) (candidate : List (Bytes × List ℕ))
      → P a
      → AllAddrs candidate
      → AllAddrs (add_candidate seed a candidate)
  unfolding add_candidate
  add_candidate-AllAddrs seed a [] h hs = ((h, tt), tt)
  add_candidate-AllAddrs seed a ((s, addrs) ∷ candidate) h (k, ks) =
      found (text_eq s seed) (add_candidate-AllAddrs seed a candidate h ks)
    where
      found :
          (same : Bool)
          → AllAddrs (add_candidate seed a candidate)
          → AllAddrs (
              if same
              then (s, addrs ++ a ∷ []) ∷ candidate
              else (s, addrs) ∷ add_candidate seed a candidate)
      found true later = (All-append P addrs (a ∷ []) k (h, tt), ks)
      found false later = (k, later)

  -- The tree and the solved seeds stay, the pairs of the candidates are the cracked ones, and the
  -- addresses of new candidates have `P`.
  pub record Picks (c c' : Chosen) : Type 0 where
    pub tree : c'.depot.cov_state ≡ c.depot.cov_state
    pub solved : c'.depot.solved_seeds ≡ c.depot.solved_seeds
    pub pairs :
        length c'.depot.cracked_seed + pairs_in c.candidate
        ≡ length c.depot.cracked_seed + pairs_in c'.candidate
    pub more : pairs_in c.candidate ≤ pairs_in c'.candidate
    pub few :
        length c'.candidate + pairs_in c.candidate ≤ length c.candidate + pairs_in c'.candidate
    pub addrs : AllAddrs c.candidate → AllAddrs c'.candidate

  pick_none : (c : Chosen) → Picks c c
  pick_none c = record {
    tree = refl;
    solved = refl;
    pairs = refl;
    more = omega arith;
    few = omega arith;
    addrs = λ h. h;
  }

  pick_both : (c c' c'' : Chosen) → Picks c c' → Picks c' c'' → Picks c c''
  pick_both c c' c'' x y = record {
    tree = y.tree ∙ x.tree;
    solved = y.solved ∙ x.solved;
    pairs = omega (arith, x.pairs, y.pairs);
    more = omega (arith, x.more, y.more);
    few = omega (arith, x.few, y.few);
    addrs = λ h. y.addrs (x.addrs h);
  }

  module _ (choice : Choice) where
    pub take_seed-Picks :
        (a : ℕ) (seed : Bytes) (c : Chosen) → P a → Picks c (take_seed choice a seed c)
    unfolding take_seed
    take_seed-Picks a seed c h = record {
      tree = refl;
      solved = refl;
      pairs = omega (arith, add_candidate-pairs_in seed a c.candidate);
      more = omega (arith, add_candidate-pairs_in seed a c.candidate);
      few = omega (
        arith,
        add_candidate-pairs_in seed a c.candidate,
        length-add_candidate seed a c.candidate,
      );
      addrs = add_candidate-AllAddrs seed a c.candidate h;
    }

    pub take_seeds-Picks :
        (a : ℕ) (seeds : List Bytes) (c : Chosen) → P a → Picks c (take_seeds choice a seeds c)
    unfolding take_seeds
    take_seeds-Picks a [] c h = pick_none c
    take_seeds-Picks a (seed ∷ seeds) c h =
        let c' = take_seed choice a seed c in
        pick_both c c' (take_seeds choice a seeds c') (take_seed-Picks a seed c h)
          (take_seeds-Picks a seeds c' h)

    pub take_edges-Picks :
        (edge_max seed_max n : ℕ) (addrs : List ℕ) (c : Chosen)
        → All P addrs
        → Picks c (take_edges choice edge_max seed_max n addrs c)
    unfolding take_edges
    take_edges-Picks edge_max seed_max n [] c h = pick_none c
    take_edges-Picks edge_max seed_max n (a ∷ addrs) c (h, hs) =
        let seeds = seed_selection choice c.depot a seed_max in
        let c' = take_seeds choice a seeds c in
        last_or_more (leb edge_max (n + 1)) (take_seeds-Picks a seeds c h)
          (take_edges-Picks edge_max seed_max (n + 1) addrs c' hs)
      where
        last_or_more :
            {c' c'' : Chosen} (last : Bool)
            → Picks c c'
            → Picks c' c''
            → Picks c (if last then c' else c'')
        last_or_more true x y = x
        last_or_more {c'} {c''} false x y = pick_both c c' c'' x y

-- Is the block in the tree?
abbrev pub is_key : CovState → ℕ → Bool
is_key m a = elim (get m a) [ none ↦ false | some node ↦ true ]

pub open_edges-is_key : (d : Depot) (m : CovState) → all (is_key m) (open_edges d m) ≡ true
unfolding open_edges get
open_edges-is_key d [] = refl
open_edges-is_key d ((k, node) ∷ m) =
    let rest : all (is_key ((k, node) ∷ m)) (open_edges d m) ≡ true =
      all_weaken (is_key m) (is_key ((k, node) ∷ m)) (open_edges d m) (λ a h. ground arith)
        (open_edges-is_key d m) in
    ground (arith, ==_self k)

all-All : (p : ℕ → Bool) (xs : List ℕ) → all p xs ≡ true → All (λ a. p a ≡ true) xs
all-All p [] h = tt
all-All p (x ∷ xs) h = (ground arith, all-All p xs (ground arith))

-- The candidates' addresses are blocks of the tree.
pub concolic_candidate-Picks :
    (choice : Choice) (edge_max seed_max : ℕ) (d : Depot)
    → Picks
        (λ a. is_key d.cov_state a ≡ true)
        (record { candidate = []; depot = d })
        (concolic_candidate choice edge_max seed_max d)
unfolding concolic_candidate
concolic_candidate-Picks choice edge_max seed_max d =
    let m = d.cov_state in
    take_edges-Picks (λ a. is_key m a ≡ true) choice edge_max seed_max 0
      (choice.order (open_edges d m)) _
      (all-All (is_key m) _ (choice.order_all _ (is_key m) (open_edges-is_key d m)))

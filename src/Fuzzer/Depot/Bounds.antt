-- ===== src/Fuzzer/Depot/Bounds.antt =====
-- How much concolic_candidate of src/fuzz/depot.py takes.
use co_fuzz.Prelude.{
  ℕ, zero, suc, ◌+◌, ◌*◌, ◌<◌, ◌≤◌, ◌≡◌, refl, sym, ap, ==_self, ◌∙◌, Bool, true, false, ◌&&◌, ◌||◌,
  not, List, [], ◌∷◌, ◌++◌, ◌==◌, length, ltb, leb, if◌then◌else◌, arith, length-append,
  append_assoc,
}
use co_fuzz.Prelude.Text.{Bytes}
use co_fuzz.Tracer.State.{CovState, is_branch_covered}
use co_fuzz.Fuzzer.Depot.{
  crack_upper_limit, all, Choice, Depot, is_cracked, open_edges, seed_selection, Chosen, take_seed,
  take_seeds, take_edges, concolic_candidate,
}
use co_fuzz.Fuzzer.Depot.Selects.{
  is_new, all-append, all_weaken, seed_selection-is_new, length-seed_selection,
}

-- How many of the pairs are of this edge.
abbrev pub pairs_of : ℕ → List (ℕ × Bytes) → ℕ
pairs_of a [] = 0
pairs_of a ((b, name) ∷ pairs) = (if a == b then 1 else 0) + pairs_of a pairs

pairs_of-append :
    (a : ℕ) (xs ys : List (ℕ × Bytes)) → pairs_of a (xs ++ ys) ≡ pairs_of a xs + pairs_of a ys
pairs_of-append a [] ys = omega arith
pairs_of-append a ((b, name) ∷ xs) ys = omega (arith, pairs_of-append a xs ys)

-- `n` pairs at most are taken, all with `f`, and the counters of the edges count them.
pub record Takes (f : ℕ × Bytes → Bool) (n : ℕ) (d d' : Depot) : Type 0 where
  pub added : List (ℕ × Bytes)
  pub pairs : d'.cracked_seed ≡ added ++ d.cracked_seed
  pub bound : length added ≤ n
  pub holds : all f added ≡ true
  pub counted : (a : ℕ) → d'.cracked_addr a ≡ d.cracked_addr a + pairs_of a added

Takes-none : (f : ℕ × Bytes → Bool) (n : ℕ) (d : Depot) → Takes f n d d
Takes-none f n d = record {
  added = [];
  pairs = refl;
  bound = omega arith;
  holds = refl;
  counted = λ a. omega arith;
}

Takes-trans :
    (f : ℕ × Bytes → Bool) (m n k : ℕ) (d d' d'' : Depot)
    → m + n ≤ k
    → Takes f m d d'
    → Takes f n d' d''
    → Takes f k d d''
Takes-trans f m n k d d' d'' within s t = record {
  added = t.added ++ s.added;
  pairs =
      t.pairs ∙ ap (λ l. t.added ++ l) s.pairs ∙ sym (append_assoc t.added s.added d.cracked_seed);
  bound = omega (arith, length-append t.added s.added, s.bound, t.bound);
  holds = all-append f t.added s.added t.holds s.holds;
  counted = λ a. omega (arith, s.counted a, t.counted a, pairs_of-append a t.added s.added);
}

module _ (choice : Choice) (f : ℕ × Bytes → Bool) (addr : ℕ) where
  take_seed-Takes :
      (seed : Bytes) (c : Chosen)
      → f (addr, choice.name seed) ≡ true
      → Takes f 1 c.depot (take_seed choice addr seed c).depot
  unfolding take_seed
  take_seed-Takes seed c h = record {
    added = (addr, choice.name seed) ∷ [];
    pairs = refl;
    bound = omega arith;
    holds = ground arith;
    counted = λ a. ground arith;
  }

  take_seeds-Takes :
      (seeds : List Bytes) (c : Chosen)
      → all (λ seed. f (addr, choice.name seed)) seeds ≡ true
      → Takes f (length seeds) c.depot (take_seeds choice addr seeds c).depot
  unfolding take_seeds
  take_seeds-Takes [] c h = Takes-none f 0 c.depot
  take_seeds-Takes (seed ∷ seeds) c h =
      let c' = take_seed choice addr seed c in
      Takes-trans f 1 (length seeds) (suc (length seeds)) c.depot c'.depot
        (take_seeds choice addr seeds c').depot (omega arith)
        (take_seed-Takes seed c (ground arith)) (take_seeds-Takes seeds c' (ground arith))

is_cracked-append :
    (a : ℕ) (name : Bytes) (added old : List (ℕ × Bytes))
    → is_cracked a name (added ++ old) ≡ false
    → is_cracked a name old ≡ false
unfolding is_cracked
is_cracked-append a name [] old h = h
is_cracked-append a name ((b, n) ∷ added) old h = is_cracked-append a name added old (ground arith)

-- A pair of an edge with `p` that was not cracked before.
abbrev pub is_fresh : (p : ℕ → Bool) → List (ℕ × Bytes) → ℕ × Bytes → Bool
is_fresh p old (a, name) = p a && not (is_cracked a name old)

all-is_fresh :
    (choice : Choice) (d : Depot) (addr : ℕ) (p : ℕ → Bool) (prior old : List (ℕ × Bytes))
    (seeds : List Bytes)
    → d.cracked_seed ≡ prior ++ old
    → p addr ≡ true
    → all (is_new choice d addr) seeds ≡ true
    → all (λ seed. is_fresh p old (addr, choice.name seed)) seeds ≡ true
all-is_fresh choice d addr p prior old [] e hp h = refl
all-is_fresh choice d addr p prior old (seed ∷ seeds) e hp h = ground (
  arith,
  is_cracked-append addr (choice.name seed) prior old,
  all-is_fresh choice d addr p prior old seeds e hp,
)

step_bound : (r s : ℕ) → s + r * s ≡ suc r * s
step_bound r s = omega arith

module _ (choice : Choice) (p : ℕ → Bool) (old : List (ℕ × Bytes)) (edge_max seed_max : ℕ) where
  -- The seeds of one edge.
  edge_taken : (addr : ℕ) → Chosen → Chosen
  edge_taken addr c = take_seeds choice addr (seed_selection choice c.depot addr seed_max) c

  edge_taken-Takes :
      (addr : ℕ) (c : Chosen) (prior : List (ℕ × Bytes))
      → c.depot.cracked_seed ≡ prior ++ old
      → p addr ≡ true
      → Takes (is_fresh p old) seed_max c.depot (edge_taken addr c).depot
  unfolding edge_taken
  edge_taken-Takes addr c prior e hp =
      let seeds = seed_selection choice c.depot addr seed_max in
      let few : length seeds ≤ seed_max =
        omega (arith, length-seed_selection choice c.depot addr seed_max) in
      Takes-trans (is_fresh p old) (length seeds) 0 seed_max c.depot
        (take_seeds choice addr seeds c).depot (take_seeds choice addr seeds c).depot (omega arith)
        (take_seeds-Takes choice (is_fresh p old) addr seeds c (
          all-is_fresh choice c.depot addr p prior old seeds e hp
            (seed_selection-is_new choice c.depot addr seed_max)))
        (Takes-none (is_fresh p old) 0 (take_seeds choice addr seeds c).depot)

  take_edges-Takes :
      (addrs : List ℕ) (edge_cnt r : ℕ) (c : Chosen) (prior : List (ℕ × Bytes))
      → edge_max ≡ edge_cnt + suc r
      → c.depot.cracked_seed ≡ prior ++ old
      → all p addrs ≡ true
      → Takes
          (is_fresh p old)
          (suc r * seed_max)
          c.depot
          (take_edges choice edge_max seed_max edge_cnt addrs c).depot
  unfolding take_edges edge_taken
  take_edges-Takes [] edge_cnt r c prior at e hp =
      Takes-none (is_fresh p old) (suc r * seed_max) c.depot
  take_edges-Takes (addr ∷ addrs) edge_cnt zero c prior at e hp =
      let last : leb edge_max (edge_cnt + 1) ≡ true = ground arith in
      rw last (
        Takes-trans (is_fresh p old) seed_max 0 (1 * seed_max) c.depot (edge_taken addr c).depot
          (edge_taken addr c).depot (omega arith) (edge_taken-Takes addr c prior e (ground arith))
          (Takes-none (is_fresh p old) 0 (edge_taken addr c).depot))
  take_edges-Takes (addr ∷ addrs) edge_cnt (suc r) c prior at e hp =
      let more : leb edge_max (edge_cnt + 1) ≡ false = ground arith in
      let c' = edge_taken addr c in
      let s = edge_taken-Takes addr c prior e (ground arith) in
      rw more (
        Takes-trans (is_fresh p old) seed_max (suc r * seed_max) (suc (suc r) * seed_max) c.depot
          c'.depot (take_edges choice edge_max seed_max (edge_cnt + 1) addrs c').depot
          (omega (arith, step_bound (suc r) seed_max)) s
          (take_edges-Takes addrs (edge_cnt + 1) r c' (s.added ++ prior) (omega arith)
            (s.pairs ∙ ap (λ l. s.added ++ l) e ∙ sym (append_assoc s.added prior old))
            (ground arith)))

-- An edge of the tree with a branch that was not seen, which past the first phase has also been
-- cracked fewer times than the limit.
abbrev pub is_open : Depot → CovState → ℕ → Bool
is_open d [] a = false
is_open d ((k, node) ∷ m) a =
    ((k == a)
      && (not (is_branch_covered node)
          && (d.init_phase || ltb (d.cracked_addr a) crack_upper_limit)))
    || is_open d m a

open_edges-is_open : (d : Depot) (m : CovState) → all (is_open d m) (open_edges d m) ≡ true
unfolding open_edges
open_edges-is_open d [] = refl
open_edges-is_open d ((k, node) ∷ m) =
    let rest : all (is_open d ((k, node) ∷ m)) (open_edges d m) ≡ true =
      all_weaken (is_open d m) (is_open d ((k, node) ∷ m)) (open_edges d m) (λ a h. ground arith)
        (open_edges-is_open d m) in
    ground (arith, ==_self k)

-- A call of concolic_candidate for at least one edge takes edge_max * seed_max pairs of an edge and a
-- seed at most. Each pair is of an edge that is open when the call starts, and was not cracked before
-- it; and the counter of each edge grows by the number of its pairs.
pub concolic_candidate-Takes :
    (choice : Choice) (edge_max seed_max : ℕ) (d : Depot)
    → 0 < edge_max
    → Takes
        (is_fresh (is_open d d.cov_state) d.cracked_seed)
        (edge_max * seed_max)
        d
        (concolic_candidate choice edge_max seed_max d).depot
unfolding concolic_candidate
concolic_candidate-Takes choice (suc r) seed_max d some_edge =
    let p = is_open d d.cov_state in
    take_edges-Takes choice p d.cracked_seed (suc r) seed_max
      (choice.order (open_edges d d.cov_state)) 0 r (record { candidate = []; depot = d }) []
      (omega arith) refl
      (choice.order_all (open_edges d d.cov_state) p (open_edges-is_open d d.cov_state))
concolic_candidate-Takes choice zero seed_max d some_edge = absurd (omega arith)

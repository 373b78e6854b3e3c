-- ===== src/Fuzzer/Depot.antt =====
-- StateDepot.concolic_candidate of src/fuzz/depot.py: which edges and seeds are cracked next. The
-- random choices, the order of the edges and Path.name are the record `Choice`.
pub mod Selects
pub mod Bounds
pub mod Picks
pub mod Starves
use co_fuzz.Prelude.{
  ℕ, zero, suc, ◌+◌, ◌-◌, ◌≤◌, ◌≡◌, Bool, true, false, ◌&&◌, ◌||◌, not, List, [], ◌∷◌, ◌++◌, Option,
  none, some, ◌==◌, length, min, ltb, leb, if◌then◌else◌,
}
use co_fuzz.Prelude.Text.{Bytes, text_eq}
use co_fuzz.Tracer.State.{CondStmt, CovState, get, is_branch_covered}
use co_fuzz.Fuzzer.Executor.{is_solved}

abbrev pub all : {A : Type 0} → (A → Bool) → List A → Bool
all p [] = true
all p (x ∷ xs) = p x && all p xs

-- random.sample, which gives that many of the items; random.shuffle and the sort by the predicted
-- value, which give only items of the list; and the last part of a path.
pub record Choice : Type 0 where
  pub sample : (addr : ℕ) → List Bytes → ℕ → List Bytes
  pub order : List ℕ → List ℕ
  pub name : Bytes → Bytes
  pub length_sample :
      (addr : ℕ) (xs : List Bytes) (k : ℕ) → k ≤ length xs → length (sample addr xs k) ≡ k
  pub sample_all :
      (addr : ℕ) (xs : List Bytes) (k : ℕ) (p : Bytes → Bool)
      → all p xs ≡ true
      → all p (sample addr xs k) ≡ true
  pub order_all : (xs : List ℕ) (p : ℕ → Bool) → all p xs ≡ true → all p (order xs) ≡ true

-- CRACK_UPPER_LIMIT of src/fuzz/config.py
unfoldable pub crack_upper_limit : ℕ
crack_upper_limit = 8

-- What concolic_candidate reads and changes. cov_state is the execution tree.
pub record Depot : Type 0 where
  pub cov_state : CovState
  pub init_phase : Bool
  pub solved_seeds : List Bytes
  pub cracked_seed : List (ℕ × Bytes)
  pub cracked_addr : ℕ → ℕ

-- `(addr, name) in cracked_seed`
unfoldable pub is_cracked : (addr : ℕ) → (name : Bytes) → List (ℕ × Bytes) → Bool
is_cracked addr name [] = false
is_cracked addr name ((a, n) ∷ pairs) =
    ((a == addr) && text_eq n name) || is_cracked addr name pairs

-- The loop of __init_edges and of __edge_predict, in front of the shuffle or the sort.
unfoldable pub open_edges : Depot → CovState → List ℕ
open_edges d [] = []
open_edges d ((addr, node) ∷ m) =
    let rest = open_edges d m in
    if is_branch_covered node
    then rest
    else if not d.init_phase && leb crack_upper_limit (d.cracked_addr addr)
    then rest
    else addr ∷ rest

-- The loop of __seed_selection: the seeds that are solved, or are not.
unfoldable pub seeds_by :
    (want_solved : Bool) → Choice → Depot → (addr : ℕ) → List Bytes → List Bytes
unfolding is_cracked is_solved
seeds_by want_solved choice d addr [] = []
seeds_by want_solved choice d addr (seed ∷ belongs) =
    let rest = seeds_by want_solved choice d addr belongs in
    if is_cracked addr (choice.name seed) d.cracked_seed
    then rest
    else if is_solved (choice.name seed) d.solved_seeds
    then (if want_solved then seed ∷ rest else rest)
    else if want_solved
    then rest
    else seed ∷ rest

-- The end of __seed_selection.
unfoldable pub select_from :
    Choice → (addr seed_max : ℕ) → (unsolved_list solved_list : List Bytes) → List Bytes
select_from choice addr seed_max unsolved_list solved_list =
    if leb seed_max (length unsolved_list)
    then choice.sample addr unsolved_list seed_max
    else unsolved_list
      ++ choice.sample addr solved_list (min (seed_max - length unsolved_list) (length solved_list))

unfoldable pub belongs_of : Option CondStmt → List Bytes
belongs_of none = []
belongs_of (some node) = node.belongs

-- __seed_selection(addr, seed_max)
unfoldable pub seed_selection : Choice → Depot → (addr seed_max : ℕ) → List Bytes
unfolding select_from seeds_by belongs_of
seed_selection choice d addr seed_max =
    let belongs = belongs_of (get d.cov_state addr) in
    select_from choice addr seed_max (seeds_by false choice d addr belongs)
      (seeds_by true choice d addr belongs)

-- candidate[seed_path].append(addr)
unfoldable pub add_candidate : Bytes → ℕ → List (Bytes × List ℕ) → List (Bytes × List ℕ)
add_candidate seed addr [] = (seed, addr ∷ []) ∷ []
add_candidate seed addr ((s, addrs) ∷ rest) =
    let later = add_candidate seed addr rest in
    if text_eq s seed then (s, addrs ++ addr ∷ []) ∷ rest else (s, addrs) ∷ later

-- The candidates so far, and the depot.
pub record Chosen : Type 0 where
  pub candidate : List (Bytes × List ℕ)
  pub depot : Depot

abbrev pub count_up : (ℕ → ℕ) → ℕ → ℕ → ℕ
count_up f addr a = if a == addr then f a + 1 else f a

-- One seed of an edge.
unfoldable pub take_seed : Choice → (addr : ℕ) → (seed_path : Bytes) → Chosen → Chosen
unfolding add_candidate
take_seed choice addr seed_path c = record {
  candidate = add_candidate seed_path addr c.candidate;
  depot = record c.depot {
    cracked_seed = (addr, choice.name seed_path) ∷ c.depot.cracked_seed;
    cracked_addr = count_up c.depot.cracked_addr addr;
  };
}

unfoldable pub take_seeds : Choice → (addr : ℕ) → List Bytes → Chosen → Chosen
unfolding take_seed
take_seeds choice addr [] c = c
take_seeds choice addr (seed ∷ seeds) c =
    take_seeds choice addr seeds (take_seed choice addr seed c)

-- The loop over the edges, with edge_cnt of them done.
unfoldable pub take_edges : Choice → (edge_max seed_max edge_cnt : ℕ) → List ℕ → Chosen → Chosen
unfolding take_seeds seed_selection
take_edges choice edge_max seed_max edge_cnt [] c = c
take_edges choice edge_max seed_max edge_cnt (addr ∷ addrs) c =
    let c' = take_seeds choice addr (seed_selection choice c.depot addr seed_max) c in
    let rest = take_edges choice edge_max seed_max (edge_cnt + 1) addrs c' in
    if leb edge_max (edge_cnt + 1) then c' else rest

-- concolic_candidate(edge_max, seed_max)
unfoldable pub concolic_candidate : Choice → (edge_max seed_max : ℕ) → Depot → Chosen
unfolding take_edges open_edges
concolic_candidate choice edge_max seed_max d =
    take_edges choice edge_max seed_max 0 (choice.order (open_edges d d.cov_state))
      (record { candidate = []; depot = d })

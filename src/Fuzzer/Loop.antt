-- ===== src/Fuzzer/Loop.antt =====
-- HybridExecutor.run of src/fuzz/executor.py, with __seek_trace_seeds and __solve_random, and what it
-- calls: CorpusTracer.trace_corpus of src/fuzz/trace.py, and resolve_fuzz_hits and update_model of
-- src/fuzz/depot.py. What the other processes and the files give in one turn of the loop is the
-- record `World`; the result `none` is an exception, which ends the loop.
pub mod Tracing
pub mod Solving
pub mod Candidates
pub mod Turn
pub mod Runs
pub mod Start
pub mod Labels
pub mod Cracking
use co_fuzz.Prelude.{
  ℕ, ◌+◌, Bool, true, false, ◌&&◌, ◌||◌, not, List, [], ◌∷◌, Option, none, some, length, take,
  replicate, ltb, leb, if◌then◌else◌,
}
use co_fuzz.Prelude.Text.{Bytes}
use co_fuzz.Tracer.Python.{Unicode}
use co_fuzz.Tracer.State.{CovState, get, has_seed, dump_trace}
use co_fuzz.Fuzzer.Bitmap.{init_bitmap}
use co_fuzz.Fuzzer.Executor.{Testcase, Executor, is_solved, solve_seed, ◌>>=◌}
use co_fuzz.Fuzzer.Cracking.{Counts, add_count, crack_seed}
use co_fuzz.Fuzzer.Depot.{all, Choice, Depot, open_edges, Chosen, concolic_candidate}
use co_fuzz.Fuzzer.CrackMap.{ConcolicEnv, gen_concolic_env}
use co_fuzz.Fuzzer.Hits.{parse_bitmap}
use co_fuzz.Fuzzer.Order.{Core, testcase_core, sort_seeds}

-- CANDIDATE_NUM, CRACK_SEED_MAX and RAND_SOLVE_NUM of src/fuzz/config.py
unfoldable pub candidate_num : ℕ
candidate_num = 10

unfoldable pub crack_seed_max : ℕ
crack_seed_max = 10

unfoldable pub rand_solve_num : ℕ
rand_solve_num = 10

-- One turn of the loop. A seed is solved once in a turn and cracked once, so that what belongs to
-- these two is a function of its path: what the traced program writes, what the concolic executor
-- writes for a crack map, the sampled test cases, the bitmap of the fuzzer when the seed is cracked
-- and when it is solved, the test cases of the concolic executor, and the size of the file. The
-- fuzzer's queue is listed twice.
pub record World : Type 0 where
  pub choice : Choice
  pub queue : List Bytes
  pub later_queue : List Bytes
  pub trace_info : (seed_path : Bytes) → Bytes
  pub bb_bitmap : Option Bytes
  pub constraint_info : (seed_path : Bytes) → ConcolicEnv → Bytes
  pub sampler : (seed_path : Bytes) → ℕ → Bytes → List Testcase
  pub crack_bitmap : (seed_path : Bytes) → Option Bytes
  pub solve_bitmap : (seed_path : Bytes) → Option Bytes
  pub testcases : (seed_path : Bytes) → List Testcase
  pub st_size : (seed_path : Bytes) → ℕ

-- HybridExecutor and its StateDepot. The set solved_seeds of the depot is also a field of the model of
-- the executor's own methods.
pub record Hybrid : Type 0 where
  pub depot : Depot
  pub traced_seeds : List Bytes
  pub blk_hit : List ℕ
  pub executor : Executor

-- HybridExecutor.__init__, for the file of the fuzzer's bitmap, with StateDepot.__init__: the three
-- directories are emptied.
unfoldable pub init_hybrid : (map_size : ℕ) → (bitmap_file : Option Bytes) → Option Hybrid
unfolding init_bitmap
init_hybrid map_size bitmap_file = do
  afl_map ← init_bitmap map_size bitmap_file
  some (record {
    depot = record {
      cov_state = [];
      init_phase = true;
      solved_seeds = [];
      cracked_seed = [];
      cracked_addr = λ addr. 0;
    };
    traced_seeds = [];
    blk_hit = replicate map_size 0;
    executor = record {
      afl_map = afl_map;
      concolic_queue = [];
      concolic_hangs = [];
      concolic_crash = [];
      interesting_cnt = 0;
      crash_cnt = 0;
      hang_cnt = 0;
      solved_seeds = [];
    };
  })

-- __seek_trace_seeds: trace_list, and traced_seeds.
unfoldable pub seek_trace_seeds :
    (name : Bytes → Bytes) → (queue traced_seeds : List Bytes) → List Bytes × List Bytes
unfolding has_seed
seek_trace_seeds name [] traced_seeds = ([], traced_seeds)
seek_trace_seeds name (seed ∷ queue) traced_seeds = elim (has_seed traced_seeds (name seed)) [
  | true ↦ seek_trace_seeds name queue traced_seeds
  | false ↦
      let (trace_list, traced) = seek_trace_seeds name queue (name seed ∷ traced_seeds) in
      (seed ∷ trace_list, traced)
]

-- trace_corpus(seeds_list)
unfoldable pub trace_corpus :
    Unicode → (trace_info : Bytes → Bytes) → (seeds_list : List Bytes) → CovState → CovState
unfolding dump_trace
trace_corpus u trace_info [] m = m
trace_corpus u trace_info (seed_path ∷ seeds_list) m =
    trace_corpus u trace_info seeds_list (dump_trace u (trace_info seed_path) seed_path m)

-- resolve_fuzz_hits; the file may be missing.
unfoldable pub resolve_fuzz_hits : (bb_bitmap : Option Bytes) → Option (List ℕ)
unfolding parse_bitmap
resolve_fuzz_hits none = none
resolve_fuzz_hits (some bit_arr) = some (parse_bitmap bit_arr)

-- Is each of the addresses an index of blk_hit?
unfoldable pub are_indices : (blk_hit addrs : List ℕ) → Bool
are_indices blk_hit addrs = all (λ addr. ltb addr (length blk_hit)) addrs

-- concolic_candidate() with its default arguments. Past the first phase, __edge_predict reads blk_hit
-- at each open edge.
unfoldable pub resolve_candidate : Choice → (blk_hit : List ℕ) → Depot → Option Chosen
unfolding concolic_candidate open_edges are_indices candidate_num crack_seed_max
resolve_candidate choice blk_hit d =
    if d.init_phase || are_indices blk_hit (open_edges d d.cov_state)
    then some (concolic_candidate choice candidate_num crack_seed_max d)
    else none

-- __solve_seed(seed_input)
unfoldable pub solve_one : Unicode → World → (seed_path : Bytes) → Hybrid → Option Hybrid
unfolding solve_seed
solve_one u w seed_path s = do
  e ←
      solve_seed u (w.choice.name seed_path) (w.solve_bitmap seed_path) (w.testcases seed_path)
        s.executor
  some (record s { executor = e; depot = record s.depot { solved_seeds = e.solved_seeds } })

-- The loop of __solve_random over the seeds that it takes.
unfoldable pub solve_list : Unicode → World → List Bytes → Hybrid → Option Hybrid
unfolding solve_one
solve_list u w [] s = some s
solve_list u w (seed ∷ seeds) s = solve_one u w seed s >>= λ s'. solve_list u w seeds s'

-- The loop of __solve_random over the queue.
unfoldable pub unsolved_of : (name : Bytes → Bytes) → (queue solved_seeds : List Bytes) → List Bytes
unfolding is_solved
unsolved_of name [] solved_seeds = []
unsolved_of name (seed ∷ queue) solved_seeds =
    let rest = unsolved_of name queue solved_seeds in
    if is_solved (name seed) solved_seeds then rest else seed ∷ rest

-- __solve_random. Without an unsolved seed it waits.
unfoldable pub solve_random : Unicode → World → Hybrid → Option Hybrid
unfolding solve_list unsolved_of sort_seeds testcase_core rand_solve_num
solve_random u w s =
    let core : Bytes → Core = λ seed. testcase_core (w.choice.name seed) (w.st_size seed) in
    let unsolved_seeds = unsolved_of w.choice.name w.later_queue s.depot.solved_seeds in
    solve_list u w (take rand_solve_num (sort_seeds core unsolved_seeds)) s

-- __crack_seed(seed_input, crack_addr), with the crack map that the concolic executor is given.
unfoldable pub crack_one :
    Unicode
    → World
    → (map_size : ℕ) → (seed_path : Bytes) → (crack_addr : List ℕ) → Hybrid
    → Option (Counts × Hybrid)
unfolding gen_concolic_env crack_seed
crack_one u w map_size seed_path crack_addr s = do
  env ← gen_concolic_env map_size crack_addr
  (cov_count, e) ←
      crack_seed u (w.sampler seed_path) (w.choice.name seed_path) (w.constraint_info seed_path env)
        (w.crack_bitmap seed_path) s.executor
  some (cov_count, record s { executor = e })

-- label_cov[addr] += cov_count[addr], for each addr
unfoldable pub add_counts : (cov_count label_cov : Counts) → Counts
unfolding add_count
add_counts [] label_cov = label_cov
add_counts ((addr, n) ∷ cov_count) label_cov = add_counts cov_count (add_count addr n label_cov)

-- The loop of run over the candidates.
unfoldable pub crack_candidates :
    Unicode
    → World
    → (map_size : ℕ) → (candidate : List (Bytes × List ℕ)) → (label_cov : Counts) → Hybrid
    → Option (Counts × Hybrid)
unfolding crack_one solve_one add_counts
crack_candidates u w map_size [] label_cov s = some (label_cov, s)
crack_candidates u w map_size ((seed_input, crack_addr) ∷ candidate) label_cov s =
    crack_one u w map_size seed_input crack_addr s >>= λ (cov_count, s').
    solve_one u w seed_input s' >>= λ s''.
    crack_candidates u w map_size candidate (add_counts cov_count label_cov) s''

-- Does update_model find the edges of its labels in the tree and in blk_hit?
unfoldable pub are_labels : (blk_hit : List ℕ) → CovState → (label_cov : Counts) → Bool
unfolding get
are_labels blk_hit m [] = true
are_labels blk_hit m ((addr, cov) ∷ label_cov) =
    let rest = are_labels blk_hit m label_cov in
    elim (get m addr) [ none ↦ false | some node ↦ ltb addr (length blk_hit) && rest ]

-- update_model(label_cov), without the regression. A missing edge is a KeyError or an IndexError.
unfoldable pub update_model : (blk_hit : List ℕ) → (label_cov : Counts) → Depot → Option Depot
unfolding are_labels
update_model blk_hit [] d = some d
update_model blk_hit (label ∷ label_cov) d =
    if are_labels blk_hit d.cov_state (label ∷ label_cov)
    then some (record d { init_phase = false })
    else none

-- The turn behind concolic_candidate.
unfoldable pub use_candidate :
    Unicode → World → (map_size : ℕ) → (candidate : List (Bytes × List ℕ)) → Hybrid → Option Hybrid
unfolding solve_random crack_candidates update_model
use_candidate u w map_size [] s = solve_random u w s
use_candidate u w map_size (c ∷ candidate) s =
    crack_candidates u w map_size (c ∷ candidate) [] s >>= λ (label_cov, s').
    update_model s'.blk_hit label_cov s'.depot >>= λ d. some (record s' { depot = d })

-- One turn of the loop of run, for MAP_SIZE.
unfoldable pub run_turn : Unicode → (map_size : ℕ) → World → Hybrid → Option Hybrid
unfolding seek_trace_seeds trace_corpus resolve_fuzz_hits resolve_candidate use_candidate
run_turn u map_size w s = do
  let (trace_list, traced_seeds) = seek_trace_seeds w.choice.name w.queue s.traced_seeds
  let tree = trace_corpus u w.trace_info trace_list s.depot.cov_state
  blk_hit ← resolve_fuzz_hits w.bb_bitmap
  chosen ← resolve_candidate w.choice blk_hit (record s.depot { cov_state = tree })
  use_candidate u w map_size chosen.candidate
      (record s { traced_seeds = traced_seeds; blk_hit = blk_hit; depot = chosen.depot })

-- The loop of run, for as many turns as there are worlds.
unfoldable pub run : Unicode → (map_size : ℕ) → List World → Hybrid → Option Hybrid
unfolding run_turn
run u map_size [] s = some s
run u map_size (w ∷ worlds) s = run_turn u map_size w s >>= λ s'. run u map_size worlds s'

-- main of src/cofuzz.py behind its arguments: the executor is made, and its loop runs.
unfoldable pub main_loop :
    Unicode → (map_size : ℕ) → (bitmap_file : Option Bytes) → List World → Option Hybrid
unfolding init_hybrid run
main_loop u map_size bitmap_file worlds =
    init_hybrid map_size bitmap_file >>= λ s. run u map_size worlds s

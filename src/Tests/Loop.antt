-- ===== src/Tests/Loop.antt =====
-- Turns of the main loop in a small world: a map of eight edges, and one seed, whose run takes the edge
-- from block 3 to block 4.
use co_fuzz.Prelude.{
  ◌⊎◌, ltb, ℕ, zero, suc, ◌≡◌, refl, ap, Bool, true, false, List, [], ◌∷◌, Option, none, some, ◌==◌,
  length, take, replicate, get_elem?, if◌then◌else◌, arith,
}
use co_fuzz.Prelude.Text.{Bytes, codes, All}
use co_fuzz.Tracer.Python.{splitlines}
use co_fuzz.Tracer.State.{has_child}
use co_fuzz.Tracer.State.Log.{Event, log_of}
use co_fuzz.Fuzzer.Constraints.{dump_constraint, append_at, join_lines}
use co_fuzz.Fuzzer.Constraints.Blocks.{Block, log_text, dump_constraint-collect}
use co_fuzz.Fuzzer.Cracking.{in_order}
use co_fuzz.Fuzzer.Executor.{Testcase, exited}
use co_fuzz.Fuzzer.Depot.{all, open_edges, concolic_candidate}
use co_fuzz.Fuzzer.Depot.Starves.{is_spent, concolic_candidate-is_spent}
use co_fuzz.Fuzzer.CrackMap.{ConcolicEnv, cracking, output, dump_crack_map}
use co_fuzz.Fuzzer.CrackMap.Marks.{dump_crack_map-outcome}
use co_fuzz.Fuzzer.Hits.{parse_bitmap}
use co_fuzz.Fuzzer.Hits.Logs.{file_of, AllLog2, parse_bitmap-IsLog2}
use co_fuzz.Fuzzer.Order.{Core, testcase_core}
use co_fuzz.Fuzzer.Loop.{World, Hybrid, run_turn}
use co_fuzz.Fuzzer.Loop.Turn.{Works, Turns, run_turn-Turns}
use co_fuzz.Fuzzer.Loop.Start.{Goes, main_loop-Lasts}
use co_fuzz.Fuzzer.Loop.Cracking.{Asks}
use co_fuzz.Tests.Sample.{ascii}
use co_fuzz.Tests.Fuzzer.{first_ones, half_seen}

abbrev pub seed_run : List Event
seed_run = record { condition = codes "Br_true_x_i8"; src = 3; dest = 4 } ∷ []

-- The log of the concolic executor, if block 3 is to be cracked.
abbrev pub block_3 : List Block
block_3 = record { src = 3; dest = 4; expressions = codes "(= a 1)" ∷ []; ended = true } ∷ []

abbrev pub block_log : Bytes
block_log = log_text block_3

abbrev pub is_zero : Option ℕ → Bool
is_zero none = false
is_zero (some b) = b == 0

abbrev pub cracked_log : ConcolicEnv → Bytes
cracked_log (cracking crack_map) = if is_zero (get_elem? crack_map 3) then block_log else []
cracked_log output = []

abbrev pub covering : Testcase
covering = record { content = codes "ab"; bitmap = replicate 8 1; ret = exited 0 }

abbrev pub small_world : World
small_world = record {
  choice = first_ones;
  queue = codes "id:000000,orig:a" ∷ [];
  later_queue = codes "id:000000,orig:a" ∷ [];
  trace_info = λ seed. log_of seed_run;
  bb_bitmap = some (replicate 32 1);
  constraint_info = λ seed env. cracked_log env;
  sampler = λ seed k constraint. covering ∷ [];
  crack_bitmap = λ seed. none;
  solve_bitmap = λ seed. none;
  testcases = λ seed. covering ∷ [];
  st_size = λ seed. 2;
}

block_log-constraints : in_order (dump_constraint ascii block_log) ≡ (3, codes "(= a 1)") ∷ []
unfolding in_order append_at join_lines
block_log-constraints = ap in_order (dump_constraint-collect ascii block_3 (omega arith))

nothing_logged : in_order (dump_constraint ascii []) ≡ []
unfolding in_order dump_constraint splitlines
nothing_logged = refl

pub cracked_log-Asks :
    (env : ConcolicEnv) → All (Asks env) (in_order (dump_constraint ascii (cracked_log env)))
cracked_log-Asks output = rw nothing_logged tt
cracked_log-Asks (cracking crack_map) = by_byte (get_elem? crack_map 3) refl
  where
    by_byte :
        (b : Option ℕ)
        → get_elem? crack_map 3 ≡ b
        → All
            (Asks (cracking crack_map))
            (in_order (dump_constraint ascii (if is_zero b then block_log else [])))
    by_byte none at = rw nothing_logged tt
    by_byte (some zero) at = rw block_log-constraints (at, tt)
    by_byte (some (suc n)) at =
        let other : (suc n == 0) ≡ false = ground arith in rw (other, nothing_logged) tt

small_world-Works : Works ascii 8 small_world
small_world-Works = record {
  traceable = record {
    events = λ seed. seed_run;
    written = λ seed. refl;
    plain = λ seed. (omega arith, tt);
    small = λ seed. (omega arith, tt);
  };
  crackable = record {
    file = λ seed. tt;
    fits = λ seed k constraint. (omega arith, tt);
    asked = λ seed env. cracked_log-Asks env;
  };
  solvable = record { file = λ seed. tt; fits = λ seed. (omega arith, tt) };
  bit_arr = replicate 32 1;
  bb_file = refl;
  bb_size = refl;
}

abbrev pub first_state : Hybrid
first_state = record {
  depot = record {
    cov_state = [];
    init_phase = true;
    solved_seeds = [];
    cracked_seed = [];
    cracked_addr = λ addr. 0;
  };
  traced_seeds = [];
  blk_hit = replicate 8 0;
  executor = record {
    afl_map = replicate 8 0;
    concolic_queue = [];
    concolic_hangs = [];
    concolic_crash = [];
    interesting_cnt = 0;
    crash_cnt = 0;
    hang_cnt = 0;
    solved_seeds = [];
  };
}

run_turn-Turns_example :
    Turns ascii 8 small_world small_world-Works first_state
      (run_turn ascii 8 small_world first_state)
run_turn-Turns_example = run_turn-Turns ascii 8 small_world small_world-Works first_state (record {
  sound = record {
    counted = record { queue = refl; hangs = refl; crashes = refl };
    size = refl;
    shared = refl;
  };
  below = tt;
})

main_loop-Lasts_example : Goes ascii 8 none (small_world ∷ []) (small_world ∷ [])
main_loop-Lasts_example =
    main_loop-Lasts ascii 8 none (small_world ∷ []) (small_world ∷ []) tt (small_world-Works, tt)
      (small_world-Works, tt)

dump_crack_map-outcome_example :
    ((all (λ a. ltb a 8) (3 ∷ 5 ∷ []) ≡ false) × (dump_crack_map 8 (3 ∷ 5 ∷ []) ≡ none))
    ⊎ ((all (λ a. ltb a 8) (3 ∷ 5 ∷ []) ≡ true)
        × (crack_map : Bytes) × (dump_crack_map 8 (3 ∷ 5 ∷ []) ≡ some crack_map)
        × ((a : ℕ)
            → get_elem? crack_map a
              ≡ (if ltb a 8 then some (if has_child (3 ∷ 5 ∷ []) a then 0 else 255) else none)))
dump_crack_map-outcome_example = dump_crack_map-outcome 8 (3 ∷ 5 ∷ [])

parse_bitmap-IsLog2_example :
    AllLog2
      (parse_bitmap (file_of (0 ∷ 1 ∷ 1000 ∷ 4294967295 ∷ [])))
      (0 ∷ 1 ∷ 1000 ∷ 4294967295 ∷ [])
parse_bitmap-IsLog2_example = parse_bitmap-IsLog2 (0 ∷ 1 ∷ 1000 ∷ 4294967295 ∷ []) (omega arith)

-- A file of one byte, of which the name says what it is.
abbrev core_of : Bytes → Core
core_of name = testcase_core name 1

abbrev some_seeds : List Bytes
some_seeds = codes "id:000001" ∷ codes "id:000002,orig:a" ∷ codes "id:000003,+cov" ∷ []

concolic_candidate-is_spent_example :
    (length (concolic_candidate first_ones 10 10 half_seen).candidate == 0)
    ≡ all
        (is_spent first_ones half_seen)
        (take 10 (first_ones.order (open_edges half_seen half_seen.cov_state)))
concolic_candidate-is_spent_example =
    concolic_candidate-is_spent first_ones 10 10 half_seen (omega arith) (omega arith)

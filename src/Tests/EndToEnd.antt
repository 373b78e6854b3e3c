-- ===== src/Tests/EndToEnd.antt =====
-- A run of the small program through the pass, the runtime and the tracer.
use co_fuzz.Prelude.{
  ℕ, ◌*◌, ◌≡◌, refl, ap, ◌||◌, List, [], ◌∷◌, Option, none, some, replicate, arith,
}
use co_fuzz.Prelude.Text.{Bytes, codes, All}
use co_fuzz.Pass.Ir.{branch, switch}
use co_fuzz.Pass.BlockIds.{BlockMap, map_size, no_match, do_initialization}
use co_fuzz.Pass.BlockIds.Init.{IsBounded}
use co_fuzz.Pass.Instrument.Machine.{Frame, frame}
use co_fuzz.Tracer.State.{dump_trace}
use co_fuzz.Tracer.State.Node.{child_of}
use co_fuzz.Fuzzer.Loop.{World, Hybrid, seek_trace_seeds, run_turn}
use co_fuzz.Fuzzer.CrackMap.Marks.{length_bytes}
use co_fuzz.EndToEnd.{Arrival, edges_of, passes, run_path, IsTraced}
use co_fuzz.EndToEnd.Program.{IsBlockOf, program-child_of}
use co_fuzz.EndToEnd.Turn.{any_passes, run_turn-child_of}
use co_fuzz.Tests.Sample.{ascii, straight, block_ids, functions}
use co_fuzz.Tests.Pass.{no_names, rank, falls, knows_1, knows_2, knows_3, cond_text, describes}
use co_fuzz.Tests.Loop.{small_world, first_state, cracked_log-Asks}

-- Block 1 takes its branch to block 2, whose switch goes back to it, and the branch goes to block 3.
abbrev journey : List Arrival
journey =
    (record { address = 1; terminator = branch 10 2 3 }, λ v. 1)
    ∷ (record { address = 2; terminator = switch 11 3 ((5, 1) ∷ (7, 2) ∷ []) }, λ v. 5)
    ∷ (record { address = 1; terminator = branch 10 2 3 }, λ v. 0)
    ∷ []

in_blocks : All (IsBlockOf straight functions) journey
in_blocks = (
  (refl, (refl, refl), tt),
  (
    (refl, (refl, (refl, (refl, tt))), ((32, refl, omega arith), omega arith)),
    ((refl, (refl, refl), tt), tt),
  ),
)

-- random() counts up.
abbrev given_ids : BlockMap
given_ids = do_initialization (λ seed k. k) (λ s. no_match) 0 none functions

program-child_of_example :
    (t : Frame) × (run_path straight 2 given_ids (λ k. 7) journey (frame [] [] []) ≡ some t)
    × (child_of (dump_trace ascii t.stderr (codes "seed") []) 1 0
        ≡ (child_of [] 1 0 || passes (edges_of straight given_ids journey) 1 0))
program-child_of_example =
    program-child_of straight (λ seed k. k) (λ s. no_match) 0 none functions rank 2 no_names
      (falls given_ids) (λ value. ground arith) ascii (λ k. 7) journey (codes "seed") [] 1 0
      in_blocks

bounded : IsBounded block_ids
bounded = omega arith

traced : All (IsTraced straight 1 block_ids) journey
traced = (
  (((cond_text, describes), knows_1, knows_2, knows_3), tt),
  (
    (
      ((32, refl), knows_2, knows_3, (knows_1, (knows_2, tt))),
      ((32, refl, omega arith), omega arith),
    ),
    ((((cond_text, describes), knows_1, knows_2, knows_3), tt), tt),
  ),
)

-- The small program in the loop: each of its seeds makes the journey, and nothing is solved or sampled.
abbrev stderr_of : Option Frame → Bytes
stderr_of none = []
stderr_of (some t) = t.stderr

abbrev travelling : World
travelling = record small_world {
  trace_info = λ seed. stderr_of (run_path straight 1 block_ids (λ k. 7) journey (frame [] [] []));
  bb_bitmap = some (replicate (4 * map_size) 0);
  sampler = λ seed k constraint. [];
  testcases = λ seed. [];
}

abbrev waiting : Hybrid
waiting = record first_state {
  executor = record first_state.executor { afl_map = replicate map_size 0 };
}

run_turn-child_of_example :
    (after : Hybrid) × (run_turn ascii map_size travelling waiting ≡ some after)
    × ((k d : ℕ)
        → child_of after.depot.cov_state k d ≡ (
            child_of waiting.depot.cov_state k d
            || any_passes straight block_ids
                (λ seed. journey)
                (seek_trace_seeds travelling.choice.name travelling.queue waiting.traced_seeds).0
                k
                d))
run_turn-child_of_example =
    run_turn-child_of straight 1 block_ids no_names bounded travelling
      (record {
        garbage = λ k. 7;
        path = λ seed. journey;
        traced = λ seed. traced;
        written = λ seed t run. ap stderr_of run;
      })
      ascii waiting
      (record {
        file = λ seed. tt;
        fits = λ seed k constraint. tt;
        asked = λ seed env. cracked_log-Asks env;
      })
      (record { file = λ seed. tt; fits = λ seed. tt }) (replicate (4 * map_size) 0) refl
      (length_bytes (4 * map_size) 0)
      (record {
        sound = record {
          counted = record { queue = refl; hangs = refl; crashes = refl };
          size = length_bytes map_size 0;
          shared = refl;
        };
        below = tt;
      })

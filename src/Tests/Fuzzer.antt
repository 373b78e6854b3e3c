-- ===== src/Tests/Fuzzer.antt =====
-- The fuzzers' side on small inputs: a map of two edges, a log of two blocks, two test cases.
use co_fuzz.Prelude.{
  ℕ, zero, suc, ◌*◌, ◌≤◌, ◌≡◌, refl, Bool, true, false, List, [], ◌∷◌, ◌++◌, none, some, arith,
  take, length,
}
use co_fuzz.Prelude.Text.{Bytes, codes, All}
use co_fuzz.Fuzzer.Bitmap.{is_interesting}
use co_fuzz.Fuzzer.Bitmap.Learns.{Learns, is_interesting-Learns}
use co_fuzz.Fuzzer.Constraints.{dump_constraint}
use co_fuzz.Fuzzer.Constraints.Groups.{
  keys, list_at, sources, of_source, constraints_of, dump_constraint-log,
}
use co_fuzz.Fuzzer.Constraints.Blocks.{Block, log_text}
use co_fuzz.Fuzzer.Executor.{Testcase, exited, Executor, is_solved, solve_seed}
use co_fuzz.Fuzzer.Executor.Solves.{Solves, solve_seed-Solves}
use co_fuzz.Fuzzer.Cracking.{crack_seed}
use co_fuzz.Fuzzer.Cracking.Counts.{Cracks, crack_seed-Cracks}
use co_fuzz.Tracer.Condition.{no_width}
use co_fuzz.Fuzzer.Depot.{all, Choice, Depot, concolic_candidate}
use co_fuzz.Fuzzer.Depot.Bounds.{Takes, is_fresh, is_open, concolic_candidate-Takes}
use co_fuzz.Tracer.Line.{strip_prefix, rest_of_line}
use co_fuzz.Fuzzer.Stats.{
  lstrip, rstrip, strip, match_cmd, parse_fuzz_stats, after_dashes, parse_target_cmd, replace_at,
  showmap_cmd,
}
use co_fuzz.Fuzzer.Stats.Reads.{stats_line, parse_fuzz_stats-target}
use co_fuzz.Tests.Sample.{ascii}

is_interesting-Learns_example :
    Learns (0 ∷ 5 ∷ []) (1 ∷ 4 ∷ []) (is_interesting (0 ∷ 5 ∷ []) (1 ∷ 4 ∷ []))
is_interesting-Learns_example = is_interesting-Learns (0 ∷ 5 ∷ []) (1 ∷ 4 ∷ []) (omega arith)

-- The first block broke off.
abbrev blocks : List Block
blocks =
    record { src = 7; dest = 8; expressions = codes "(= a 1)" ∷ []; ended = false }
    ∷ record { src = 9; dest = 3; expressions = codes "(= b 2)" ∷ []; ended = true }
    ∷ []

dump_constraint-log_example :
    (keys (dump_constraint ascii (log_text blocks)) ≡ sources [] (constraints_of [] blocks))
    × ((k : ℕ)
        → list_at k (dump_constraint ascii (log_text blocks))
          ≡ of_source k (constraints_of [] blocks))
dump_constraint-log_example = dump_constraint-log ascii blocks (omega arith)

-- The expression of block 7 stands in the constraint of block 9.
expressions_left :
    list_at 9 (dump_constraint ascii (log_text blocks)) ≡ codes "(= a 1)\n(= b 2)" ∷ []
expressions_left = (dump_constraint-log ascii blocks (omega arith)).1 9

abbrev idle : Executor
idle = record {
  afl_map = 0 ∷ 0 ∷ [];
  concolic_queue = [];
  concolic_hangs = [];
  concolic_crash = [];
  interesting_cnt = 0;
  crash_cnt = 0;
  hang_cnt = 0;
  solved_seeds = [];
}

abbrev testcases : List Testcase
testcases =
    record { content = codes "ab"; bitmap = 1 ∷ 0 ∷ []; ret = exited 0 }
    ∷ record { content = codes "cd"; bitmap = 0 ∷ 0 ∷ []; ret = exited 2 }
    ∷ []

unsolved : is_solved (codes "id:000001,orig:a") idle.solved_seeds ≡ false
unfolding is_solved
unsolved = refl

solve_seed-Solves_example :
    Solves ascii
      (codes "id:000001,orig:a")
      testcases
      idle
      (solve_seed ascii (codes "id:000001,orig:a") (some (255 ∷ 254 ∷ [])) testcases idle)
solve_seed-Solves_example =
    solve_seed-Solves ascii (codes "id:000001,orig:a") (some (255 ∷ 254 ∷ [])) testcases idle
      (record { queue = refl; hangs = refl; crashes = refl }) unsolved (omega arith) (omega arith)

-- random.sample takes the first items, and the edges keep their order.
pub all-take :
    (p : Bytes → Bool) (k : ℕ) (xs : List Bytes) → all p xs ≡ true → all p (take k xs) ≡ true
all-take p zero xs h = refl
all-take p (suc k) [] h = refl
all-take p (suc k) (x ∷ xs) h = ground (arith, all-take p k xs)

pub length-take_le : (k : ℕ) (xs : List Bytes) → k ≤ length xs → length (take k xs) ≡ k
length-take_le zero xs h = refl
length-take_le (suc k) [] h = absurd (omega arith)
length-take_le (suc k) (x ∷ xs) h = omega (arith, length-take_le k xs (omega arith))

abbrev pub first_ones : Choice
first_ones = record {
  sample = λ addr xs k. take k xs;
  order = λ xs. xs;
  name = λ path. path;
  length_sample = λ addr xs k h. length-take_le k xs h;
  sample_all = λ addr xs k p h. all-take p k xs h;
  order_all = λ xs p h. h;
}

-- An edge with one of its two branches seen, by two seeds, of which one is solved.
abbrev pub half_seen : Depot
half_seen = record {
  cov_state =
      (
        7,
        record {
          addr = 7;
          min_dist = 1;
          condition = record { succ_num = 2; edge_type = 0; cond_width = no_width };
          children = 8 ∷ [];
          belongs = codes "a" ∷ codes "b" ∷ [];
        },
      )
      ∷ [];
  init_phase = true;
  solved_seeds = codes "a" ∷ [];
  cracked_seed = [];
  cracked_addr = λ a. 0;
}

concolic_candidate-Takes_example :
    Takes
      (is_fresh (is_open half_seen half_seen.cov_state) half_seen.cracked_seed)
      (10 * 10)
      half_seen
      (concolic_candidate first_ones 10 10 half_seen).depot
concolic_candidate-Takes_example = concolic_candidate-Takes first_ones 10 10 half_seen (omega arith)

-- One test case for each constraint, of which the log has one.
abbrev sampler : ℕ → Bytes → List Testcase
sampler k constraint = record { content = constraint; bitmap = 1 ∷ 2 ∷ []; ret = exited 0 } ∷ []

crack_seed-Cracks_example : Cracks [] idle (
    crack_seed ascii sampler
      (codes "id:000001,orig:a")
      (log_text blocks)
      (some (255 ∷ 254 ∷ []))
      idle)
crack_seed-Cracks_example =
    crack_seed-Cracks ascii sampler (codes "id:000001,orig:a") (log_text blocks)
      (some (255 ∷ 254 ∷ [])) idle (record { queue = refl; hangs = refl; crashes = refl })
      (omega arith) (λ k constraint. (omega arith, tt))

-- The statistics of a fuzzer.
abbrev stats_before : List Bytes
stats_before = codes "start_time        : 1700000000" ∷ codes "banner : prog" ∷ []

others_skipped : All (λ line. match_cmd ascii line ≡ none) stats_before
unfolding match_cmd strip_prefix
others_skipped = (refl, (refl, tt))

abbrev options : Bytes
options = codes "afl-fuzz -i in -o out "

line_ends :
    rest_of_line
      (codes " " ++ ((options ++ (codes "--" ++ (codes " " ++ codes "./prog @@"))) ++ []))
    ≡ true
unfolding rest_of_line
line_ends = refl

no_more_dashes : after_dashes (b'-' ∷ (codes " " ++ codes "./prog @@")) ≡ none
unfolding after_dashes strip_prefix
no_more_dashes = refl

command_trimmed :
    strip ascii (options ++ (codes "--" ++ (codes " " ++ codes "./prog @@")))
    ≡ options ++ (codes "--" ++ (codes " " ++ codes "./prog @@"))
unfolding strip lstrip rstrip
command_trimmed = refl

target_trimmed : strip ascii (codes "./prog @@") ≡ codes "./prog @@"
unfolding strip lstrip rstrip
target_trimmed = refl

parse_fuzz_stats-target_example :
    (parse_fuzz_stats ascii (
        stats_before
        ++ stats_line
            (codes "      ")
            (codes " ")
            (options ++ (codes "--" ++ (codes " " ++ codes "./prog @@")))
            []
          ∷ [])
      ≡ some (options ++ (codes "--" ++ (codes " " ++ codes "./prog @@"))))
    × (parse_target_cmd ascii (options ++ (codes "--" ++ (codes " " ++ codes "./prog @@")))
        ≡ some (codes "./prog @@"))
parse_fuzz_stats-target_example =
    parse_fuzz_stats-target ascii stats_before [] (codes "      ") (codes " ") [] options
      (codes " ") (codes "./prog @@") refl others_skipped
      (refl, (refl, (refl, (refl, (refl, (refl, tt)))))) (refl, tt) tt (refl, tt) line_ends
      no_more_dashes command_trimmed target_trimmed

-- The command that runs afl-showmap on a test case.
showmap_command :
    showmap_cmd
      (record {
        afl_cmd = options;
        afl_path = codes "afl-fuzz";
        target_cmd = codes "./prog @@";
        qemu_mode = false;
      })
      (codes "afl-showmap")
      (codes "/tmp/map")
      (codes "seed")
    ≡ codes "afl-showmap -t 5000 -m none -q -b  -o /tmp/map -- ./prog seed"
unfolding showmap_cmd replace_at
showmap_command = refl

-- ===== src/Lib.antt =====
-- CoFuzz: the tracing compiler and its runtime, the reader of the traces, the choice and the sharing
-- of seeds, and the allocator.
--
-- The program. `clang-trace` (trace/clang-trace.c) replaces the compiler: it finds the directory of
-- the runtime and calls clang with the pass trace-pass.so and the object trace-rt.o added. The pass
-- (trace/trace-pass.so.cc) gives every basic block a random id and puts, in front of each
-- conditional branch and switch, a call of a logging function (trace/trace-rt.o.c), which writes the
-- condition and the two ids of the edge that is taken to stderr. The fuzzer (src/fuzz/trace.py,
-- src/fuzz/condition.py) reads these lines and keeps an execution tree, from which
-- src/fuzz/depot.py chooses edges and seeds for the concolic executor; src/fuzz/sync.py reads that
-- executor's constraints, and src/fuzz/executor.py saves the test cases that src/fuzz/afl.py finds
-- to cover new edges. clang-trace allocates with trace/include/alloc-inl.h.
--
-- The files.
--   Prelude        native numbers, tests, lists, texts as lists of codes, printf's decimals
--   Runtime        trace/trace-rt.o.c: `log_branch` and `log_switch` are __log_branch and
--                  __log_switch; the line written to stderr is the result
--   Debug          the macros of trace/include/debug.h: what they print and how they end a run. The
--                  other files keep the message of FATAL and ABORT as a value
--   Pass.Ir        what the pass reads of LLVM's IR; values and blocks are numbers, for pointers
--   Pass.BlockIds  basicBlockMap and doInitialization of trace/trace-pass.so.cc
--   Pass.Condition getBrCond of the same file; `depth` is fuel for its recursion
--   Pass.Instrument
--                  visitBranchInst, visitSwitchInst and runOnModule: the instructions that each
--                  block gets. Pass.Instrument.Machine runs them, with the calls of Runtime
--   Tracer.Python  splitlines, int() and character classes, as src/fuzz/trace.py uses them
--   Tracer.Line    its regular expression for a line
--   Tracer.Condition
--                  BrCond, SwitchCond and __parse_condition of src/fuzz/condition.py
--   Tracer.State   __dump_trace of src/fuzz/trace.py on cov_state, and CondStmt
--   Alloc.Heap     the blocks of malloc, with the words in front of the user's pointer
--   Alloc.Libc     malloc, realloc and free, as a parameter with laws
--   Alloc.Check    ALLOC_CHECK_SIZE, ALLOC_CHECK_RESULT, CHECK_PTR, the canaries
--   Alloc.Dfl      the DFL_ck_ functions, in a build with and without DEBUG_BUILD
--   Alloc.Owns     what a pointer of the allocator stands for
--   Alloc.Ends     how each function ends, where memory may be short
--   Alloc.Track    the TRK_ functions of a debug build: the table TRK as entries beside the heap, with
--                  the block that each of its arrays stands in, and the warnings as a list
--   Wrapper        trace/clang-trace.c: find_obj, edit_params and main, over the environment;
--                  a run ends with a result, by FATAL, by ABORT, or in undefined behaviour. The
--                  build defines neither DEBUG_BUILD nor __ANDROID__
--   Fuzzer.Bitmap  AFLMap of src/fuzz/afl.py: the map of covered edges
--   Fuzzer.Constraints
--                  dump_constraint of src/fuzz/sync.py, which reads the concolic executor's log
--   Fuzzer.CrackMap
--                  __dump_crack_map and __gen_concolic_cmd of src/fuzz/conolic.py
--   Fuzzer.Depot   concolic_candidate of src/fuzz/depot.py, on the execution tree of Tracer.State
--   Fuzzer.Stats   AFLConfig of src/fuzz/afl.py: the command lines, from the lines of the statistics
--   Fuzzer.Names   the names of saved seeds, and identify_id of src/fuzz/common.py
--   Fuzzer.Executor
--                  __sync_seed and __solve_seed of src/fuzz/executor.py: a directory is a list of
--                  files, and what the external tools give is an argument. Fuzzer.Executor.Later has
--                  the states that calls of __solve_seed and __crack_seed lead to
--   Fuzzer.Cracking
--                  __crack_seed of the same file; the sampled test cases are an argument
--   Fuzzer.Mutant  __save_seed of src/fuzz/sync.py: a solution's bytes in a seed
--   Fuzzer.Hits    __parse_bitmap of src/fuzz/depot.py: the hits of the blocks
--   Fuzzer.Order   testcase_core of src/fuzz/common.py, and the sort in __solve_random
--   Fuzzer.Loop    HybridExecutor.__init__ and run of src/fuzz/executor.py, with
--                  __seek_trace_seeds and __solve_random, trace_corpus of src/fuzz/trace.py, and
--                  resolve_fuzz_hits and update_model of src/fuzz/depot.py; a turn of the loop is
--                  `run_turn`, and an exception is the result `none`
--   EndToEnd       the pass, the runtime and the tracer on a run of an instrumented program, from the
--                  module to the execution tree, and in a turn of the main loop. `edges_of` has the
--                  edges of conditional branches and of switches that are not on a call's result
--   Tests          runs at concrete inputs
--
-- Parameters. LLVM's casts and accessors are the record `Ir`; random(), srand and sscanf are
-- arguments of `do_initialization`; Python's decoder and Unicode tables are the record `Unicode`, with
-- what holds of ASCII; malloc, realloc and free are the record `Libc`, with what the C standard says of
-- fresh addresses; getenv, access and execvp are the record `World` of Wrapper;
-- the random choices and the order of the edges are the record `Choice`; what the traced program, the
-- concolic executor, the samplers and the fuzzer's files give in one turn of the main loop is the
-- record `World` of Fuzzer.Loop.
--
-- Numbers and fuel. A u32 size wraps at 2 ^ 32 where the source adds to it (`wrap32`). Addresses are
-- unbounded. `%d` of an id prints the 32-bit pattern as signed. getBrCond is the only recursion that
-- structure does not bound: Pass.Condition.Termination says for which operand graphs enough fuel
-- gives a text and for which no fuel does. A boolean of the program is stored and passed as 0 or 1.
-- The ids of the cases and of the branch fit in 32 bits, since they are below MAP_SIZE. The logarithm
-- of a block's hits has fuel 32, since a number of four bytes has 32 bits. MAP_SIZE of
-- src/fuzz/config.py is the argument `map_size` of the main loop.
--
-- What is not modelled. clang-trace in a build with DEBUG_BUILD, where it allocates with the TRK_
-- functions, or for Android, where its obj_path stays NULL; trace/include/types.h and most of
-- trace/include/config.h, which no code here uses; of src/fuzz: edge_feature of condition.py, sampler.py and the regression of
-- depot.py (floating point), crack_target of sync.py (solvers outside the repository), the processes
-- that afl.py, trace.py and conolic.py start, the logging and paths of common.py, and the arguments of
-- src/cofuzz.py.
pub mod Prelude
pub mod Runtime
pub mod Debug
pub mod Pass
pub mod Tracer
pub mod Alloc
pub mod Wrapper
pub mod Fuzzer
pub mod EndToEnd
pub mod Tests

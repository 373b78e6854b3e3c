-- ===== src/Wrapper/FindObj/First.antt =====
-- Which directory find_obj of trace/clang-trace.c chooses.
use co_fuzz.Prelude.{
  ◌+◌, ◌^◌, ◌<◌, ◌≡◌, false, List, [], ◌∷◌, Option, none, some, length, if◌then◌else◌,
}
use co_fuzz.Prelude.Text.{Bytes, codes, split_last}
use co_fuzz.Alloc.Heap.{Heap}
use co_fuzz.Alloc.Libc.{Libc}
use co_fuzz.Wrapper.Base.{
  World, Build, Fatal, snprintf_fails, unable_to_find, asan_and_msan, asan_and_harden,
  msan_and_harden, inst_ratio_not_available, m32_not_supported, m64_not_supported,
  failed_to_execute, Out,
}
use co_fuzz.Wrapper.Safe.{Safe, Keeps}
use co_fuzz.Wrapper.FindObj.{runtime_in}

-- The directories in the order of the tests: AFL_PATH, that of argv[0], and the build's.
abbrev pub of_getenv : Option Bytes → List Bytes → List Bytes
of_getenv none dirs = dirs
of_getenv (some dir) dirs = dir ∷ dirs

abbrev pub of_argv0 : Option (Bytes × Bytes) → List Bytes → List Bytes
of_argv0 none dirs = dirs
of_argv0 (some (front, name)) dirs = front ∷ dirs

abbrev pub candidates : Build → World → (argv0 : Bytes) → List Bytes
candidates build world argv0 =
    of_getenv (world.getenv (codes "AFL_PATH"))
      (of_argv0 (split_last b'/' argv0) (build.afl_path ∷ []))

-- The first directory whose runtime can be read.
abbrev pub first_readable : World → List Bytes → Option Bytes
first_readable world [] = none
first_readable world (dir ∷ dirs) =
    if world.readable (runtime_in dir) then some dir else first_readable world dirs

-- A directory whose runtime's path snprintf can print.
abbrev pub AllShort : List Bytes → Type 0
AllShort [] = Unit
AllShort (dir ∷ dirs) = (length dir + 16 < 2 ^ 31) × AllShort dirs

-- find_obj stops with one message only, and where there is no such directory.
abbrev pub IsMissing : Option Bytes → Fatal → Type 0
IsMissing first unable_to_find = first ≡ none
IsMissing first snprintf_fails = ⊥
IsMissing first asan_and_msan = ⊥
IsMissing first asan_and_harden = ⊥
IsMissing first msan_and_harden = ⊥
IsMissing first inst_ratio_not_available = ⊥
IsMissing first m32_not_supported = ⊥
IsMissing first m64_not_supported = ⊥
IsMissing first failed_to_execute = ⊥

module _ (libc : Libc) (build : Build) (world : World) where
  -- The run ends with this directory, and every owner keeps its bytes.
  abbrev pub Finds : Heap → Option Bytes → Out Bytes → Type 0
  Finds h first = Safe libc (λ dir g. (first ≡ some dir) × Keeps h g) (IsMissing first)

  -- A directory that is not chosen leaves the choice to the others.
  skip-Finds :
      (h : Heap) (dir : Bytes) (dirs : List Bytes) (r : Out Bytes)
      → world.readable (runtime_in dir) ≡ false
      → Finds h (first_readable world dirs) r
      → Finds h (first_readable world (dir ∷ dirs)) r
  skip-Finds h dir dirs r missing f = rw missing f

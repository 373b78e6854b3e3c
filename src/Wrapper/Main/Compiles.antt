-- ===== src/Wrapper/Main/Compiles.antt =====
-- What main of trace/clang-trace.c does, from find_obj and edit_params.
use co_fuzz.Prelude.{◌+◌, ◌^◌, ◌<◌, ◌≡◌, ◌⊎◌, true, false, Bool, List, Option, some, length}
use co_fuzz.Prelude.Text.{Bytes}
use co_fuzz.Alloc.Heap.{Heap}
use co_fuzz.Alloc.Libc.{Libc}
use co_fuzz.Wrapper.Base.{World, Build, Fatal, failed_to_execute}
use co_fuzz.Wrapper.Safe.{Safe}
use co_fuzz.Wrapper.FindObj.First.{candidates, first_readable, IsMissing}
use co_fuzz.Wrapper.Params.Layout.{layout}
use co_fuzz.Wrapper.Params.Steps.{IsRefused}
use co_fuzz.Wrapper.Main.{End, compiler_runs, shows_banner}

module _ (libc : Libc) (build : Build) (world : World) (stderr_is_tty : Bool) where
  -- The directory of the runtime.
  abbrev pub directory : (argv0 : Bytes) → Option Bytes
  directory argv0 = first_readable world (candidates build world argv0)

  -- The compiler's arguments, for a directory of the runtime.
  abbrev pub arguments : (dir argv0 : Bytes) → List Bytes → List Bytes
  arguments dir argv0 argv = layout build world dir argv0 argv

  -- main has become the compiler.
  abbrev pub Compiles : (argv0 : Bytes) → List Bytes → End → Heap → Type 0
  Compiles argv0 argv end h =
      (dir : Bytes) × (directory argv0 ≡ some dir)
      × (end ≡ compiler_runs (shows_banner stderr_is_tty world) (arguments dir argv0 argv))
      × (world.executes (arguments dir argv0 argv) ≡ true)

  -- The reason of a message: no runtime, a refusal of edit_params, or a compiler that cannot be run.
  abbrev pub Fails : (argv0 : Bytes) → List Bytes → Fatal → Type 0
  Fails argv0 argv why =
      IsMissing (directory argv0) why
      ⊎ ((dir : Bytes) × (directory argv0 ≡ some dir)
          × (IsRefused build world dir why
              ⊎ ((why ≡ failed_to_execute) × (world.executes (arguments dir argv0 argv) ≡ false))))

  -- A directory that can be printed.
  abbrev Chosen : Option Bytes → Bytes → Heap → Type 0
  Chosen first dir g = (first ≡ some dir) × (length dir + 16 < 2 ^ 31)

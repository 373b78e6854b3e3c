-- ===== src/Wrapper/Main.antt =====
-- main of trace/clang-trace.c.
pub mod Compiles
use co_fuzz.Prelude.{Bool, not, ◌&&◌, List, [], ◌∷◌, if◌then◌else◌}
use co_fuzz.Prelude.Text.{Bytes, codes}
use co_fuzz.Alloc.Libc.{Libc}
use co_fuzz.Wrapper.Base.{World, Build, Wr, pure, fatal, failed_to_execute, ◌>>=◌}
use co_fuzz.Wrapper.FindObj.{find_obj}
use co_fuzz.Wrapper.Params.{is_set, edit_params}

-- How main ends when it does not fail: the usage text and exit(1), or the process is the compiler.
pub data End : Type 0 where
  usage : (banner : Bool) → End
  compiler_runs : (banner : Bool) → List Bytes → End

-- Is the line with the program's name written?
unfoldable pub shows_banner : (stderr_is_tty : Bool) → World → Bool
shows_banner stderr_is_tty world = stderr_is_tty && not (is_set world (codes "AFL_QUIET"))

module _ (libc : Libc) (build : Build) (world : World) (stderr_is_tty : Bool) where
  -- The end of main, from the call of edit_params on.
  unfoldable pub run_compiler : (banner : Bool) → (obj_path argv0 : Bytes) → List Bytes → Wr End
  run_compiler banner obj_path argv0 argv = do
    cc_params ← edit_params libc build world obj_path argv0 argv
    if world.executes cc_params
        then pure (compiler_runs banner cc_params)
        else fatal failed_to_execute

  -- main, for the list argv; argc is its length
  unfoldable pub main : List Bytes → Wr End
  main [] = pure (usage (shows_banner stderr_is_tty world))
  main (argv0 ∷ []) = pure (usage (shows_banner stderr_is_tty world))
  main (argv0 ∷ arg ∷ args) = do
    obj_path ← find_obj libc build world argv0
    run_compiler (shows_banner stderr_is_tty world) obj_path argv0 (arg ∷ args)

-- ===== src/Wrapper/FindObj.antt =====
-- find_obj of trace/clang-trace.c: where the runtime library is.
pub mod First
use co_fuzz.Prelude.{Bool, false, ◌++◌, Option, none, some, if◌then◌else◌}
use co_fuzz.Prelude.Text.{Bytes, codes, split_last}
use co_fuzz.Alloc.Libc.{Libc}
use co_fuzz.Alloc.Dfl.{ck_free, ck_strdup}
use co_fuzz.Wrapper.Base.{
  World, Build, Wr, pure, fatal, unable_to_find, ◌>>=◌, ◌>>◌, lift, alloc_printf,
}

-- "%s/trace-rt.o"
abbrev pub runtime_in : Bytes → Bytes
runtime_in dir = dir ++ codes "/trace-rt.o"

module _ (libc : Libc) (build : Build) (world : World) where
  -- tmp = alloc_printf("%s/trace-rt.o", dir), the test access(tmp, R_OK), and ck_free(tmp)
  unfoldable pub probe : Bytes → Wr Bool
  probe dir = do
    tmp ← alloc_printf libc (runtime_in dir)
    let found = world.readable (runtime_in dir)
    lift (ck_free libc false tmp)
    pure found

  -- The last test, of the directory that the build fixed.
  unfoldable pub find_default : Wr Bytes
  find_default =
      if world.readable (runtime_in build.afl_path)
      then pure build.afl_path
      else fatal unable_to_find

  -- `if (slash) { … }`, on the part of argv[0] in front of its last slash.
  unfoldable pub find_beside : Option (Bytes × Bytes) → Wr Bytes
  find_beside none = find_default
  find_beside (some (front, name)) = do
    dir ← lift (ck_strdup libc (some front))
    found ← probe front
    if found then pure front else lift (ck_free libc false dir) >> find_default

  -- `if (afl_path) { … }`
  unfoldable pub find_from : Option Bytes → (argv0 : Bytes) → Wr Bytes
  unfolding split_last
  find_from none argv0 = find_beside (split_last b'/' argv0)
  find_from (some afl_path) argv0 = do
    found ← probe afl_path
    if found then pure afl_path else find_beside (split_last b'/' argv0)

  -- find_obj(argv0): the value of obj_path
  unfoldable pub find_obj : (argv0 : Bytes) → Wr Bytes
  find_obj argv0 = find_from (world.getenv (codes "AFL_PATH")) argv0

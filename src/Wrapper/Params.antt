-- ===== src/Wrapper/Params.antt =====
-- edit_params of trace/clang-trace.c: the arguments of the real compiler.
pub mod Lists
pub mod Steps
pub mod Layout
use co_fuzz.Prelude.{
  ℕ, ◌+◌, ◌*◌, ◌/◌, Bool, true, false, not, ◌||◌, ◌&&◌, List, [], ◌∷◌, ◌++◌, Option, none, some,
  ltb, length, ◌==◌, if◌then◌else◌,
}
use co_fuzz.Prelude.Text.{Bytes, codes, text_eq, contains, split_last}
use co_fuzz.Alloc.Libc.{Libc}
use co_fuzz.Alloc.Dfl.{wrap32, ck_alloc}
use co_fuzz.Wrapper.Base.{
  World, Build, Wr, pure, fatal, undefined, asan_and_msan, asan_and_harden, msan_and_harden,
  inst_ratio_not_available, m32_not_supported, m64_not_supported, ◌>>=◌, ◌>>◌, lift, alloc_printf,
}

-- The part of argv[0] behind its last slash.
unfoldable pub base_name : Bytes → Bytes
unfolding split_last
base_name argv0 = elim (split_last b'/' argv0) [ none ↦ argv0 | some (front, name) ↦ name ]

-- `alt ? alt : fallback`
abbrev pub or_else : Option Bytes → Bytes → Bytes
or_else none fallback = fallback
or_else (some alt) fallback = alt

-- Is the environment variable set?
abbrev pub is_set : World → Bytes → Bool
is_set world name = elim (world.getenv name) [ none ↦ false | some value ↦ true ]

-- cc_params[0]
unfoldable pub compiler : World → (argv0 : Bytes) → Bytes
unfolding base_name text_eq
compiler world argv0 =
    if text_eq (base_name argv0) (codes "clang-trace++")
    then or_else (world.getenv (codes "Cohyzz_CXX")) (codes "clang++")
    else or_else (world.getenv (codes "Cohyzz_CC")) (codes "clang")

-- The local variables of the loop over argv.
pub record Flags : Type 0 where
  pub fortify_set : Bool
  pub asan_set : Bool
  pub x_set : Bool
  pub bit_mode : ℕ

abbrev pub no_flags : Flags
no_flags = record { fortify_set = false; asan_set = false; x_set = false; bit_mode = 0 }

-- The last of the three tests of bit_mode that holds decides.
unfoldable pub bit_mode_of : Bytes → ℕ → ℕ
unfolding text_eq
bit_mode_of cur old =
    if text_eq cur (codes "-m64")
    then 64
    else if text_eq cur (codes "armv7a-linux-androideabi")
    then 32
    else if text_eq cur (codes "-m32")
    then 32
    else old

-- The tests of one round.
unfoldable pub note : Bytes → Flags → Flags
unfolding text_eq contains bit_mode_of
note cur f = record {
  fortify_set = contains cur (codes "FORTIFY_SOURCE") || f.fortify_set;
  asan_set =
      (text_eq cur (codes "-fsanitize=address") || text_eq cur (codes "-fsanitize=memory"))
      || f.asan_set;
  x_set = text_eq cur (codes "-x") || f.x_set;
  bit_mode = bit_mode_of cur f.bit_mode;
}

-- The two arguments that are left out.
unfoldable pub is_dropped : Bytes → Bool
unfolding text_eq
is_dropped cur = text_eq cur (codes "-Wl,-z,defs") || text_eq cur (codes "-Wl,--no-undefined")

-- The array cc_params: its slots, and what is in the first of them. cc_par_cnt is their number.
pub record Params : Type 0 where
  pub capacity : ℕ
  pub stored : List Bytes

-- cc_params[cc_par_cnt++] = param
unfoldable pub push : Bytes → Params → Wr Params
push param p h =
    if ltb (length p.stored) p.capacity
    then pure (record p { stored = p.stored ++ param ∷ [] }) h
    else undefined

unfoldable pub push_all : List Bytes → Params → Wr Params
unfolding push
push_all [] p = pure p
push_all (param ∷ params) p = do p' ← push param p; push_all params p'

-- The loop over argv.
unfoldable pub copy_arguments : List Bytes → Flags → Params → Wr (Flags × Params)
copy_arguments [] f p = pure (f, p)
copy_arguments (cur ∷ argv) f p = do
  p' ← elim (is_dropped cur) [ true ↦ pure p | false ↦ push cur p ]
  copy_arguments argv (note cur f) p'

abbrev pub when : Bool → List Bytes → List Bytes
when test params = if test then params else []

-- The flags that AFL_HARDEN adds.
unfoldable pub harden_flags : World → Flags → List Bytes
harden_flags world f =
    when (is_set world (codes "AFL_HARDEN"))
      (codes "-fstack-protector-all" ∷ when (not f.fortify_set) (codes "-D_FORTIFY_SOURCE=2" ∷ []))

-- The flags that AFL_USE_ASAN and AFL_USE_MSAN add.
unfoldable pub sanitizer_flags : World → Flags → Wr (List Bytes)
sanitizer_flags world f =
    if f.asan_set
    then pure []
    else if is_set world (codes "AFL_USE_ASAN")
    then (if is_set world (codes "AFL_USE_MSAN")
        then fatal asan_and_msan
        else if is_set world (codes "AFL_HARDEN")
        then fatal asan_and_harden
        else pure (codes "-U_FORTIFY_SOURCE" ∷ codes "-fsanitize=address" ∷ []))
    else if is_set world (codes "AFL_USE_MSAN")
    then (if is_set world (codes "AFL_USE_ASAN")
        then fatal asan_and_msan
        else if is_set world (codes "AFL_HARDEN")
        then fatal msan_and_harden
        else pure (codes "-U_FORTIFY_SOURCE" ∷ codes "-fsanitize=memory" ∷ []))
    else pure []

-- The flags between the sanitizers and the run-time library.
unfoldable pub common_flags : World → Flags → List Bytes
common_flags world f =
    when (not (is_set world (codes "AFL_DONT_OPTIMIZE")))
      (codes "-g" ∷ codes "-O3" ∷ codes "-funroll-loops" ∷ [])
    ++ (when (is_set world (codes "AFL_NO_BUILTIN")) (
          codes "-fno-builtin-strcmp"
          ∷ codes "-fno-builtin-strncmp"
          ∷ codes "-fno-builtin-strcasecmp"
          ∷ codes "-fno-builtin-strncasecmp"
          ∷ codes "-fno-builtin-memcmp"
          ∷ [])
        ++ (codes "-D__AFL_HAVE_MANUAL_CONTROL=1"
            ∷ codes "-D__AFL_COMPILER=1"
            ∷ codes "-DFUZZING_BUILD_MODE_UNSAFE_FOR_PRODUCTION=1"
            ∷ when f.x_set (codes "-x" ∷ codes "none" ∷ [])))

module _ (libc : Libc) (build : Build) (world : World) (obj_path : Bytes) where
  -- The flags in front of the arguments.
  unfoldable pub mode_flags : Wr (List Bytes)
  mode_flags =
      if build.use_trace_pc
      then pure (
          codes "-fsanitize-coverage=trace-pc-guard"
          ∷ codes "-mllvm"
          ∷ codes "-sanitizer-coverage-block-threshold=0"
          ∷ codes "-Qunused-arguments"
          ∷ [])
      else do
        tmp ← alloc_printf libc (obj_path ++ codes "/trace-pass.so")
        pure (
            codes "-Xclang"
            ∷ codes "-load"
            ∷ codes "-Xclang"
            ∷ (obj_path ++ codes "/trace-pass.so")
            ∷ codes "-Qunused-arguments"
            ∷ [])

  -- `if (access(...)) FATAL(...)`
  unfoldable pub library_for : Bytes → Wr (Unit {0}) → Wr (List Bytes)
  library_for name test = do
    tmp ← alloc_printf libc (obj_path ++ name)
    test
    pure ((obj_path ++ name) ∷ [])

  -- The `switch (bit_mode)`.
  unfoldable pub library_flags : (bit_mode : ℕ) → Wr (List Bytes)
  library_flags bit_mode =
      if bit_mode == 0
      then library_for (codes "/trace-rt.o") (pure tt)
      else if bit_mode == 32
      then library_for (codes "/trace-rt-32.o") (
          if world.readable (obj_path ++ codes "/trace-rt-32.o")
          then pure tt
          else fatal m32_not_supported)
      else if bit_mode == 64
      then library_for (codes "/trace-rt-64.o") (
          if world.readable (obj_path ++ codes "/trace-rt-64.o")
          then pure tt
          else fatal m64_not_supported)
      else pure []

  -- `#ifdef USE_TRACE_PC`, `if (getenv("AFL_INST_RATIO")) FATAL(...)`
  unfoldable pub check_inst_ratio : Wr (Unit {0})
  check_inst_ratio =
      if build.use_trace_pc && is_set world (codes "AFL_INST_RATIO")
      then fatal inst_ratio_not_available
      else pure tt

  -- cc_params[cc_par_cnt] = NULL
  unfoldable pub terminate : Params → Wr (List Bytes)
  terminate p h = if ltb (length p.stored) p.capacity then pure p.stored h else undefined

  -- edit_params(argc, argv), for argv0 and the other arguments: the strings in cc_params.
  unfoldable pub edit_params : (argv0 : Bytes) → (argv : List Bytes) → Wr (List Bytes)
  edit_params argv0 argv = do
    let bytes = wrap32 ((length argv + 1 + 128) * 8)
    cc_params ← lift (ck_alloc libc bytes)
    p0 ← push (compiler world argv0) (record { capacity = bytes / 8; stored = [] })
    mode ← mode_flags
    p1 ← push_all mode p0
    (f, p2) ← copy_arguments argv no_flags p1
    p3 ← push_all (harden_flags world f) p2
    sanitizers ← sanitizer_flags world f
    p4 ← push_all sanitizers p3
    check_inst_ratio
    p5 ← push_all (common_flags world f) p4
    library ← library_flags f.bit_mode
    p6 ← push_all library p5
    terminate p6

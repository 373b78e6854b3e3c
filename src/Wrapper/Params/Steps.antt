-- ===== src/Wrapper/Params/Steps.antt =====
-- The steps of edit_params of trace/clang-trace.c: what each gives, and why it may stop.
use co_fuzz.Prelude.{
  ℕ, ◌+◌, ◌<◌, ◌≤◌, ◌^◌, ◌≡◌, refl, Bool, true, false, ◌&&◌, List, [], ◌∷◌, ◌++◌, length, ◌==◌,
  if◌then◌else◌, arith, length-append,
}
use co_fuzz.Prelude.Text.{Bytes, codes}
use co_fuzz.Alloc.Heap.{Heap}
use co_fuzz.Alloc.Libc.{Libc}
use co_fuzz.Wrapper.Base.{
  World, Build, Fatal, snprintf_fails, unable_to_find, asan_and_msan, asan_and_harden,
  msan_and_harden, inst_ratio_not_available, m32_not_supported, m64_not_supported,
  failed_to_execute, Out, Wr, alloc_printf, pure, fatal, ◌>>=◌,
}
use co_fuzz.Wrapper.Safe.{Safe, Safe-bind, alloc_printf-Safe}
use co_fuzz.Wrapper.Params.{
  is_set, Flags, sanitizer_flags, mode_flags, library_for, library_flags, check_inst_ratio,
}
use co_fuzz.Wrapper.Params.Lists.{}

-- What must hold for each message of edit_params.
abbrev pub IsRefused : Build → World → (obj_path : Bytes) → Fatal → Type 0
IsRefused build world obj_path snprintf_fails = ⊥
IsRefused build world obj_path unable_to_find = ⊥
IsRefused build world obj_path asan_and_msan =
    (is_set world (codes "AFL_USE_ASAN") ≡ true) × (is_set world (codes "AFL_USE_MSAN") ≡ true)
IsRefused build world obj_path asan_and_harden =
    (is_set world (codes "AFL_USE_ASAN") ≡ true) × (is_set world (codes "AFL_HARDEN") ≡ true)
IsRefused build world obj_path msan_and_harden =
    (is_set world (codes "AFL_USE_MSAN") ≡ true) × (is_set world (codes "AFL_HARDEN") ≡ true)
IsRefused build world obj_path inst_ratio_not_available =
    (build.use_trace_pc ≡ true) × (is_set world (codes "AFL_INST_RATIO") ≡ true)
IsRefused build world obj_path m32_not_supported =
    world.readable (obj_path ++ codes "/trace-rt-32.o") ≡ false
IsRefused build world obj_path m64_not_supported =
    world.readable (obj_path ++ codes "/trace-rt-64.o") ≡ false
IsRefused build world obj_path failed_to_execute = ⊥

-- The sanitizer's flags, where no message stops the run.
abbrev pub sanitizer_list : World → Flags → List Bytes
sanitizer_list world f =
    if f.asan_set
    then []
    else if is_set world (codes "AFL_USE_ASAN")
    then codes "-U_FORTIFY_SOURCE" ∷ codes "-fsanitize=address" ∷ []
    else if is_set world (codes "AFL_USE_MSAN")
    then codes "-U_FORTIFY_SOURCE" ∷ codes "-fsanitize=memory" ∷ []
    else []

abbrev pub mode_list : Build → (obj_path : Bytes) → List Bytes
mode_list build obj_path =
    if build.use_trace_pc
    then codes "-fsanitize-coverage=trace-pc-guard"
      ∷ codes "-mllvm"
      ∷ codes "-sanitizer-coverage-block-threshold=0"
      ∷ codes "-Qunused-arguments"
      ∷ []
    else codes "-Xclang"
      ∷ codes "-load"
      ∷ codes "-Xclang"
      ∷ (obj_path ++ codes "/trace-pass.so")
      ∷ codes "-Qunused-arguments"
      ∷ []

-- The run-time library, by the bit mode, which is 0, 32 or 64.
abbrev pub library_list : (obj_path : Bytes) → (bit_mode : ℕ) → List Bytes
library_list obj_path bit_mode =
    if bit_mode == 0
    then (obj_path ++ codes "/trace-rt.o") ∷ []
    else if bit_mode == 32
    then (obj_path ++ codes "/trace-rt-32.o") ∷ []
    else if bit_mode == 64
    then (obj_path ++ codes "/trace-rt-64.o") ∷ []
    else []

module _ (libc : Libc) (build : Build) (world : World) (obj_path : Bytes)
    (short : length obj_path + 16 < 2 ^ 31) where
  -- A step that gives this value, or stops with a message whose reason holds.
  abbrev pub Gets : {A : Type 0} → A → Out A → Type 0
  Gets a = Safe libc (λ b g. b ≡ a) (IsRefused build world obj_path)

  if-Gets :
      {A : Type 0} (b : Bool) (x y : A) (v w : Wr A) (h : Heap)
      → (b ≡ true → Gets x (v h))
      → (b ≡ false → Gets y (w h))
      → Gets (if b then x else y) ((if b then v else w) h)
  if-Gets true x y v w h sat unsat = sat refl
  if-Gets false x y v w h sat unsat = unsat refl

  -- `if (b) FATAL(...)`
  guard-Gets :
      {A : Type 0} (b : Bool) (x : A) (why : Fatal) (w : Wr A) (h : Heap)
      → (b ≡ true → IsRefused build world obj_path why)
      → (b ≡ false → Gets x (w h))
      → Gets x ((if b then fatal why else w) h)
  guard-Gets true x why w h sat unsat = sat refl
  guard-Gets false x why w h sat unsat = unsat refl

  pub sanitizer_flags-Gets :
      (f : Flags) (h : Heap) → Gets (sanitizer_list world f) (sanitizer_flags world f h)
  unfolding sanitizer_flags
  sanitizer_flags-Gets f h =
      if-Gets f.asan_set _ _ _ _ h (λ set. refl)
        λ unset.
          if-Gets (is_set world (codes "AFL_USE_ASAN")) _ _ _ _ h
            (λ asan.
              guard-Gets (is_set world (codes "AFL_USE_MSAN")) _ asan_and_msan _ h
                (λ msan. (asan, msan))
                λ no_msan.
                  guard-Gets (is_set world (codes "AFL_HARDEN")) _ asan_and_harden _ h
                    (λ harden. (asan, harden)) (λ soft. refl))
            λ no_asan.
              if-Gets (is_set world (codes "AFL_USE_MSAN")) _ _ _ _ h
                (λ msan.
                  guard-Gets (is_set world (codes "AFL_USE_ASAN")) _ asan_and_msan _ h
                    (λ asan. (asan, msan))
                    λ still_no_asan.
                      guard-Gets (is_set world (codes "AFL_HARDEN")) _ msan_and_harden _ h
                        (λ harden. (msan, harden)) (λ soft. refl))
                (λ no_msan. refl)

  pub check_inst_ratio-Gets : (h : Heap) → Gets tt (check_inst_ratio libc build world obj_path h)
  unfolding check_inst_ratio
  check_inst_ratio-Gets h =
      guard-Gets (build.use_trace_pc && is_set world (codes "AFL_INST_RATIO")) _
        inst_ratio_not_available _ h (λ both. and-true build.use_trace_pc _ both) (λ not_both. refl)
    where
      and-true : (a b : Bool) → (a && b) ≡ true → (a ≡ true) × (b ≡ true)
      and-true a b e = ground (arith, e)

  -- A path in the directory is printed, and then the run goes on.
  print_path-Gets :
      {A : Type 0} (a : A) (name : Bytes) (k : ℕ → Wr A) (h : Heap)
      → length name ≤ 15
      → ((tmp : ℕ) (g : Heap) → Gets a (k tmp g))
      → Gets a ((alloc_printf libc (obj_path ++ name) >>= k) h)
  print_path-Gets a name k h few next =
      Safe-bind libc _ _ _ (alloc_printf libc (obj_path ++ name) h) k
        (alloc_printf-Safe libc h (obj_path ++ name) _ (omega (arith, length-append obj_path name)))
        (λ tmp g fresh. next tmp g)

  pub mode_flags-Gets :
      (h : Heap) → Gets (mode_list build obj_path) (mode_flags libc build world obj_path h)
  unfolding mode_flags
  mode_flags-Gets h =
      if-Gets build.use_trace_pc _ _ _ _ h (λ pc. refl)
        (λ pass. print_path-Gets _ (codes "/trace-pass.so") _ h (omega arith) (λ tmp g. refl))

  library_for-Gets :
      (name : Bytes) (test : Wr (Unit {0})) (h : Heap)
      → length name ≤ 15
      → ((g : Heap) → Gets tt (test g))
      → Gets ((obj_path ++ name) ∷ []) (library_for libc build world obj_path name test h)
  unfolding library_for
  library_for-Gets name test h few safe =
      print_path-Gets _ name _ h few
        λ tmp g. Safe-bind libc _ _ _ (test g) _ (safe g) (λ u g' e. refl)

  -- The library of a bit mode that the compiler may lack.
  checked_library-Gets :
      (name : Bytes) (why : Fatal) (h : Heap)
      → length name ≤ 15
      → (world.readable (obj_path ++ name) ≡ false → IsRefused build world obj_path why)
      → Gets ((obj_path ++ name) ∷ []) (
          library_for libc build world obj_path name
            (if world.readable (obj_path ++ name) then pure tt else fatal why)
            h)
  checked_library-Gets name why h few excuse =
      library_for-Gets name _ h few λ g. go (world.readable (obj_path ++ name)) g excuse
    where
      go :
          (b : Bool) (g : Heap)
          → (b ≡ false → IsRefused build world obj_path why)
          → Gets tt ((if b then pure tt else fatal why) g)
      go true g e = refl
      go false g e = e refl

  pub library_flags-Gets :
      (bit_mode : ℕ) (h : Heap)
      → Gets (library_list obj_path bit_mode) (library_flags libc build world obj_path bit_mode h)
  unfolding library_flags
  library_flags-Gets bit_mode h =
      if-Gets (bit_mode == 0) _ _ _ _ h
        (λ any. library_for-Gets (codes "/trace-rt.o") (pure tt) h (omega arith) (λ g. refl))
        λ n0.
          if-Gets (bit_mode == 32) _ _ _ _ h
            (λ m32.
              checked_library-Gets (codes "/trace-rt-32.o") m32_not_supported h (omega arith)
                (λ missing. missing))
            λ n32.
              if-Gets (bit_mode == 64) _ _ _ _ h
                (λ m64.
                  checked_library-Gets (codes "/trace-rt-64.o") m64_not_supported h (omega arith)
                    (λ missing. missing))
                (λ n64. refl)

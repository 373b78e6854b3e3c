-- ===== src/Wrapper/Params/Layout.antt =====
-- What edit_params of trace/clang-trace.c makes of the arguments.
use co_fuzz.Prelude.{◌+◌, ◌<◌, ◌^◌, ◌≡◌, List, ◌∷◌, ◌++◌, length}
use co_fuzz.Prelude.Text.{Bytes}
use co_fuzz.Alloc.Heap.{Heap}
use co_fuzz.Alloc.Libc.{Libc}
use co_fuzz.Wrapper.Base.{World, Build, Out, ◌>>=◌, ◌>>◌}
use co_fuzz.Wrapper.Safe.{Safe}
use co_fuzz.Wrapper.Params.{compiler, no_flags, harden_flags, common_flags}
use co_fuzz.Wrapper.Params.Lists.{kept, noted}
use co_fuzz.Wrapper.Params.Steps.{IsRefused, sanitizer_list, mode_list, library_list}

-- The arguments of the compiler, for the program's name and its other arguments.
abbrev pub layout :
    Build → World → (obj_path : Bytes) → (argv0 : Bytes) → (argv : List Bytes) → List Bytes
layout build world obj_path argv0 argv =
    let f = noted argv no_flags in
    compiler world argv0
    ∷ (mode_list build obj_path
        ++ (kept argv
            ++ (harden_flags world f
                ++ (sanitizer_list world f
                    ++ (common_flags world f ++ library_list obj_path f.bit_mode)))))

module _ (libc : Libc) (build : Build) (world : World) (obj_path : Bytes)
    (short : length obj_path + 16 < 2 ^ 31) where
  abbrev Gets : {A : Type 0} → A → Out A → Type 0
  Gets a = Safe libc (λ b g. b ≡ a) (IsRefused build world obj_path)

-- ===== src/Tests/Wrapper.antt =====
-- The compiler wrapper in a small environment.
use co_fuzz.Prelude.{true, false, List, [], ◌∷◌, none}
use co_fuzz.Prelude.Text.{Bytes, codes, text_eq}
use co_fuzz.Wrapper.Base.{World, Build}
use co_fuzz.Wrapper.Safe.{Safe}
use co_fuzz.Wrapper.Main.Compiles.{Compiles}

-- No variable is set, and the files of one directory can be read.
abbrev bare : World
bare = record {
  getenv = λ name. none;
  readable = λ path. text_eq path (codes "/opt/cofuzz/trace-rt.o");
  executes = λ params. true;
}

abbrev plain_build : Build
plain_build = record { use_trace_pc = false; afl_path = codes "/usr/lib/afl" }

abbrev program : Bytes
program = codes "/opt/cofuzz/clang-trace"

abbrev arguments : List Bytes
arguments = codes "-m32" ∷ codes "-Wl,-z,defs" ∷ codes "main.c" ∷ []

abbrev directory : Bytes
directory = codes "/opt/cofuzz"

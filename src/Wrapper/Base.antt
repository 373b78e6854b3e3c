-- ===== src/Wrapper/Base.antt =====
-- What trace/clang-trace.c runs on: the environment, the build's settings, and the ways a run ends.
use co_fuzz.Prelude.{
  ◌-◌, ◌==◌, ℕ, ◌+◌, ◌^◌, Bool, List, [], ◌∷◌, ◌++◌, Option, leb, length, if◌then◌else◌,
}
use co_fuzz.Prelude.Text.{Bytes}
use co_fuzz.Alloc.Heap.{Heap, Run, ok, abort, fault, Reason, Cmd, write_bytes}
use co_fuzz.Alloc.Libc.{Libc}
use co_fuzz.Alloc.Dfl.{ck_alloc}

-- getenv, access(path, R_OK) and execvp, as they answer during the run.
pub record World : Type 0 where
  pub getenv : Bytes → Option Bytes
  pub readable : Bytes → Bool
  pub executes : List Bytes → Bool

-- The macros USE_TRACE_PC and AFL_PATH. The build defines neither __ANDROID__ nor DEBUG_BUILD.
pub record Build : Type 0 where
  pub use_trace_pc : Bool
  pub afl_path : Bytes

-- The messages of FATAL.
pub data Fatal : Type 0 where
  snprintf_fails : Fatal
  unable_to_find : Fatal
  asan_and_msan : Fatal
  asan_and_harden : Fatal
  msan_and_harden : Fatal
  inst_ratio_not_available : Fatal
  m32_not_supported : Fatal
  m64_not_supported : Fatal
  failed_to_execute : Fatal

-- `exits` is FATAL, `died` is ABORT, `undefined` is undefined behaviour.
pub data Out (A : Type 0) : Type 0 where
  done : A → Heap → Out A
  exits : Fatal → Out A
  died : Reason → Out A
  undefined : Out A

abbrev pub Wr : Type 0 → Type 0
Wr A = Heap → Out A

abbrev pub pure : {A : Type 0} → A → Wr A
pure = done

abbrev pub fatal : {A : Type 0} → Fatal → Wr A
fatal why h = exits why

module _ {A B : Type 0} where
  abbrev pub and_then : Out A → (A → Wr B) → Out B
  and_then (done a h) k = k a h
  and_then (exits why) k = exits why
  and_then (died why) k = died why
  and_then undefined k = undefined

  infixl 5 ◌>>=◌ ◌>>◌
  abbrev pub ◌>>=◌ : Wr A → (A → Wr B) → Wr B
  m >>= k = λ h. and_then (m h) k

  abbrev pub ◌>>◌ : Wr A → Wr B → Wr B
  m >> n = m >>= λ _. n

-- A command of the allocator.
abbrev pub from_run : {A : Type 0} → Run A → Out A
from_run (ok a h) = done a h
from_run (abort why) = died why
from_run fault = undefined

abbrev pub lift : {A : Type 0} → Cmd A → Wr A
lift m h = from_run (m h)

-- alloc_printf of a text: a buffer with the text and its NUL. snprintf fails on a text of more than
-- INT_MAX bytes, and at INT_MAX bytes `_len + 1` overflows.
unfoldable pub alloc_printf : Libc → Bytes → Wr ℕ
alloc_printf libc text =
    if leb (2 ^ 31) (length text)
    then fatal snprintf_fails
    else if length text == 2 ^ 31 - 1
    then (λ h. undefined)
    else do
      tmp ← lift (ck_alloc libc (length text + 1))
      lift (write_bytes tmp 0 (text ++ 0 ∷ []))
      pure tmp

-- ===== src/Alloc/Track.antt =====
-- The allocation tracking of trace/include/alloc-inl.h in a debug build: the table TRK, the report,
-- and the TRK_ck_ functions. An array TRK[bucket] is a list of records beside the heap, and the heap
-- has the block that it stands in: every use of the array is a use of that many bytes of the block.
pub mod Bag
pub mod File
pub mod FileIn
pub mod Drop
pub mod Report
pub mod Sound
pub mod Steps
pub mod Ops
pub mod Program
use Prim.Native.Nat.{bit_xor}
use co_fuzz.Prelude.{
  ℕ, zero, suc, ◌+◌, ◌*◌, ◌/◌, ◌%◌, ◌^◌, Bool, true, false, List, [], ◌∷◌, ◌++◌, Option, none, some,
  ◌==◌, length, if◌then◌else◌,
}
use co_fuzz.Prelude.Text.{Bytes}
use co_fuzz.Alloc.Heap.{Heap, Run, ok, abort, fault, Cmd, Reason, null, read_bytes}
use co_fuzz.Alloc.Libc.{Libc}
use co_fuzz.Alloc.Dfl.{
  wrap32, ck_alloc, ck_strdup, ck_memdup, ck_memdup_str, ck_free, ck_realloc, ck_realloc_block,
}

-- file, func and line of a call
pub record Site : Type 0 where
  pub file : Bytes
  pub func : Bytes
  pub line : ℕ

-- struct TRK_obj
pub record Slot : Type 0 where
  pub ptr : ℕ
  pub site : Site

-- sizeof(struct TRK_obj), on a 64-bit machine
abbrev pub slot_size : ℕ
slot_size = 32

-- ALLOC_BUCKETS
abbrev pub alloc_buckets : ℕ
alloc_buckets = 4096

-- The two messages of WARNF.
pub data Warning : Type 0 where
  free_non_allocated : Site → Warning
  never_freed : Site → Warning

-- TRK is `area`, the pointers, and `slots`, the entries behind them; TRK_cnt is the entries' number.
pub record Tracker : Type 0 where
  pub heap : Heap
  pub area : ℕ → ℕ
  pub slots : ℕ → List Slot
  pub warned : List Warning

-- A result, ABORT, or undefined behaviour.
pub data Out (A : Type 0) : Type 0 where
  done : A → Tracker → Out A
  died : Reason → Out A
  undefined : Out A

abbrev pub Trk : Type 0 → Type 0
Trk A = Tracker → Out A

abbrev pub pure : {A : Type 0} → A → Trk A
pure = done

module _ {A B : Type 0} where
  abbrev pub go_on : Out A → (A → Trk B) → Out B
  go_on (done a s) next = next a s
  go_on (died why) next = died why
  go_on undefined next = undefined

  infixl 5 ◌>>=◌ ◌>>◌
  abbrev pub ◌>>=◌ : Trk A → (A → Trk B) → Trk B
  first >>= next = λ s. go_on (first s) next

  abbrev pub ◌>>◌ : Trk A → Trk B → Trk B
  first >> second = first >>= λ _. second

-- A command of the allocator.
abbrev pub from_run : {A : Type 0} → Tracker → Run A → Out A
from_run s (ok a h) = done a (record s { heap = h })
from_run s (abort why) = died why
from_run s fault = undefined

abbrev pub lift : {A : Type 0} → Cmd A → Trk A
lift m s = from_run s (m s.heap)

-- A function with another value at one number.
abbrev pub with_value {ℓ} : {A : Type ℓ} → (ℕ → A) → ℕ → A → ℕ → A
with_value f n a k = if k == n then a else f k

-- TRKH(ptr)
unfoldable pub trkh : ℕ → ℕ
trkh ptr = bit_xor (wrap32 ptr / 2 ^ 16) (wrap32 ptr) % alloc_buckets

-- A use of the first `count` entries of the array at a pointer.
unfoldable pub reach : (area count : ℕ) → Trk (Unit {0})
reach area count =
    if count == 0 then pure tt else lift (read_bytes area (count * slot_size)) >> pure tt

-- The loop of TRK_alloc_buf: the first entry with no pointer is overwritten.
unfoldable pub fill : Slot → List Slot → Option (List Slot)
fill new [] = none
fill new (s ∷ ss) =
    let later = fill new ss in
    if s.ptr == null
    then some (new ∷ ss)
    else elim later [ none ↦ none | some ss' ↦ some (s ∷ ss') ]

-- The loop of TRK_free_buf: the first entry with this pointer loses it.
unfoldable pub clear : ℕ → List Slot → Option (List Slot)
clear ptr [] = none
clear ptr (s ∷ ss) =
    let later = clear ptr ss in
    if s.ptr == ptr
    then some (record s { ptr = null } ∷ ss)
    else elim later [ none ↦ none | some ss' ↦ some (s ∷ ss') ]

abbrev pub set_slots : (bucket : ℕ) → List Slot → Tracker → Tracker
set_slots bucket ss s = record s { slots = with_value s.slots bucket ss }

abbrev pub set_area : (bucket area : ℕ) → Tracker → Tracker
set_area bucket area s = record s { area = with_value s.area bucket area }

abbrev pub warn : Warning → Tracker → Tracker
warn w s = record s { warned = s.warned ++ w ∷ [] }

-- TRK_free_buf(ptr, file, func, line), for a bucket
unfoldable pub drop_from : (bucket ptr : ℕ) → Site → Trk (Unit {0})
unfolding reach clear
drop_from bucket ptr site s =
    (reach (s.area bucket) (length (s.slots bucket)) >> (λ t. elim (clear ptr (t.slots bucket)) [
      | some ss ↦ done tt (set_slots bucket ss t)
      | none ↦ done tt (warn (free_non_allocated site) t)
    ]))
      s

-- TRK_free_buf(ptr, file, func, line)
unfoldable pub trk_free_buf : ℕ → Site → Trk (Unit {0})
unfolding drop_from trkh
trk_free_buf ptr site = if ptr == null then pure tt else drop_from (trkh ptr) ptr site

module _ (libc : Libc) where
  -- The end of TRK_alloc_buf, where no entry is free.
  unfoldable pub grow : (bucket : ℕ) → Slot → Trk (Unit {0})
  unfolding reach
  grow bucket new s =
      let count = length (s.slots bucket) in
      (do
        area ←
            lift
              (ck_realloc_block libc true (s.area bucket) (wrap32 (wrap32 (count + 1) * slot_size)))
        reach area (count + 1)
        λ t. done tt (set_slots bucket (s.slots bucket ++ new ∷ []) (set_area bucket area t)))
        s

  -- TRK_alloc_buf(ptr, file, func, line), for a bucket
  unfoldable pub file_in : (bucket : ℕ) → Slot → Trk (Unit {0})
  unfolding grow reach fill
  file_in bucket new s =
      (reach (s.area bucket) (length (s.slots bucket)) >> (λ t. elim (fill new (t.slots bucket)) [
        | some ss ↦ done tt (set_slots bucket ss t)
        | none ↦ grow bucket new t
      ]))
        s

  -- TRK_alloc_buf(ptr, file, func, line)
  unfoldable pub trk_alloc_buf : ℕ → Site → Trk (Unit {0})
  unfolding file_in trkh
  trk_alloc_buf ptr site =
      if ptr == null then pure tt else file_in (trkh ptr) (record { ptr = ptr; site = site })

  unfoldable pub trk_ck_alloc : ℕ → Site → Trk ℕ
  unfolding trk_alloc_buf
  trk_ck_alloc size site = do ret ← lift (ck_alloc libc size); trk_alloc_buf ret site; pure ret

  unfoldable pub trk_ck_realloc : (orig size : ℕ) → Site → Trk ℕ
  unfolding trk_alloc_buf trk_free_buf
  trk_ck_realloc orig size site = do
    ret ← lift (ck_realloc libc true orig size)
    trk_free_buf orig site
    trk_alloc_buf ret site
    pure ret

  unfoldable pub trk_ck_realloc_block : (orig size : ℕ) → Site → Trk ℕ
  unfolding trk_alloc_buf trk_free_buf
  trk_ck_realloc_block orig size site = do
    ret ← lift (ck_realloc_block libc true orig size)
    trk_free_buf orig site
    trk_alloc_buf ret site
    pure ret

  unfoldable pub trk_ck_strdup : Option Bytes → Site → Trk ℕ
  unfolding trk_alloc_buf
  trk_ck_strdup str site = do ret ← lift (ck_strdup libc str); trk_alloc_buf ret site; pure ret

  unfoldable pub trk_ck_memdup : Option Bytes → Site → Trk ℕ
  unfolding trk_alloc_buf
  trk_ck_memdup mem site = do ret ← lift (ck_memdup libc mem); trk_alloc_buf ret site; pure ret

  unfoldable pub trk_ck_memdup_str : Option Bytes → Site → Trk ℕ
  unfolding trk_alloc_buf
  trk_ck_memdup_str mem site = do
    ret ← lift (ck_memdup_str libc mem)
    trk_alloc_buf ret site
    pure ret

  unfoldable pub trk_ck_free : ℕ → Site → Trk (Unit {0})
  unfolding trk_free_buf
  trk_ck_free ptr site = trk_free_buf ptr site >> lift (ck_free libc true ptr)

-- The inner loop of TRK_report.
unfoldable pub report_slots : List Slot → List Warning
report_slots [] = []
report_slots (s ∷ ss) =
    let rest = report_slots ss in if s.ptr == null then rest else never_freed s.site ∷ rest

-- The outer loop of TRK_report, over the first buckets.
unfoldable pub report_buckets : (count : ℕ) → Trk (Unit {0})
unfolding report_slots reach
report_buckets zero = pure tt
report_buckets (suc bucket) = report_buckets bucket >> (λ s.
    (reach (s.area bucket) (length (s.slots bucket))
        >> (λ t. done tt (record t { warned = t.warned ++ report_slots (t.slots bucket) })))
      s)

-- TRK_report()
unfoldable pub trk_report : Trk (Unit {0})
unfolding report_buckets
trk_report = report_buckets alloc_buckets

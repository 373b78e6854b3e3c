-- ===== src/Alloc/Track/Sound.antt =====
-- The invariant of the allocation tracking of trace/include/alloc-inl.h, and the two functions that
-- change the table.
use co_fuzz.Prelude.{
  ℕ, ◌*◌, ◌<◌, ◌≤◌, ◌≡◌, ◌≢◌, ◌⊎◌, List, ◌∷◌, ◌==◌, length, arith, Bool-cases, inl, inr,
  length-append, ==_iff,
}
use co_fuzz.Alloc.Heap.{Heap, Run, ok, abort, fault, null, read_bytes}
use co_fuzz.Alloc.Libc.{Libc}
use co_fuzz.Alloc.Check.{magic_c2}
use co_fuzz.Alloc.Cells.{peek-cell}
use co_fuzz.Alloc.Owns.{block, Owns}
use co_fuzz.Alloc.Ends.{Starves, Ends}
use co_fuzz.Alloc.Track.{
  Slot, slot_size, Tracker, Out, done, died, undefined, Trk, go_on, from_run, trkh, reach,
  set_slots,
}
use co_fuzz.Alloc.Track.Bag.{occurs}

-- How often the table has the pointer, in its bucket.
abbrev pub tracked : Tracker → ℕ → ℕ
tracked s q = occurs q (s.slots (trkh q))

-- A bucket has no array and no entries, or a block of the size of its entries.
abbrev pub HasArea : Tracker → ℕ → Type 0
HasArea s b =
    ((s.area b ≡ null) × (length (s.slots b) ≡ 0))
    ⊎ ((ds : List ℕ) × Owns s.heap (s.area b) ds × (length ds ≡ length (s.slots b) * slot_size))

-- Every array has its own block; a pointer is in the table once at most, in its bucket, and then it
-- is not an array, and but for `x` it is somebody's.
pub record SoundBut (x : ℕ) (s : Tracker) : Type 0 where
  pub areas : (b : ℕ) → HasArea s b
  pub apart : (b c : ℕ) → s.area b ≡ s.area c → (b ≡ c) ⊎ (s.area b ≡ null)
  pub single : (q : ℕ) → q ≢ null → tracked s q ≤ 1
  pub filed : (b q : ℕ) → q ≢ null → 0 < occurs q (s.slots b) → trkh q ≡ b
  pub owned : (q : ℕ) → q ≢ null → q ≢ x → 0 < tracked s q → (ds : List ℕ) × Owns s.heap q ds
  pub users : (q b : ℕ) → q ≢ null → 0 < tracked s q → s.area b ≢ q

-- The invariant between the calls.
abbrev pub Sound : Tracker → Type 0
Sound = SoundBut null

-- No array stands at the pointer.
abbrev pub IsUser : Tracker → ℕ → Type 0
IsUser s q = (b : ℕ) → s.area b ≢ q

-- What the owners of other pointers see of a change of the table.
abbrev pub Keeps : Tracker → Tracker → Type 0
Keeps s t = (q : ℕ) (ds : List ℕ) → IsUser s q → Owns s.heap q ds → Owns t.heap q ds × IsUser t q

-- The step returns with P, or an allocation fails.
abbrev pub Returns : Libc → {A : Type 0} → (A → Tracker → Type 0) → Out A → Type 0
Returns libc P (done a t) = P a t
Returns libc P (died why) = Starves libc why
Returns libc P undefined = ⊥

pub Returns-lift :
    (libc : Libc) {A B : Type 0} (P : A → Heap → Type 0) (R : B → Tracker → Type 0) (s : Tracker)
    (r : Run A) (next : A → Trk B)
    → Ends libc P r
    → ((a : A) (h : Heap) → P a h → Returns libc R (next a (record s { heap = h })))
    → Returns libc R (go_on (from_run s r) next)
Returns-lift libc P R s (ok a h) next p then_ = then_ a h p
Returns-lift libc P R s (abort why) next p then_ = p
Returns-lift libc P R s fault next p then_ = p

pub Returns-bind :
    (libc : Libc) {A B : Type 0} (P : A → Tracker → Type 0) (R : B → Tracker → Type 0) (r : Out A)
    (next : A → Trk B)
    → Returns libc P r
    → ((a : A) (t : Tracker) → P a t → Returns libc R (next a t))
    → Returns libc R (go_on r next)
Returns-bind libc P R (done a t) next p then_ = then_ a t p
Returns-bind libc P R (died why) next p then_ = p
Returns-bind libc P R undefined next p then_ = p

-- The use of a block's bytes.
pub reach_owned :
    (s : Tracker) (p n : ℕ) (ds : List ℕ)
    → Owns s.heap p ds
    → n * slot_size ≤ length ds
    → reach p n s ≡ done tt s
unfolding reach read_bytes
reach_owned s p n ds o fits =
    ground
      (arith, peek-cell s.heap p (block ds o.extra) o.cell, length-append ds (magic_c2 ∷ o.extra))

pub reach-HasArea :
    (s : Tracker) (b : ℕ) → HasArea s b → reach (s.area b) (length (s.slots b)) s ≡ done tt s
unfolding reach
reach-HasArea s b (inl (at, empty)) = ground arith
reach-HasArea s b (inr (ds, o, size)) =
    reach_owned s (s.area b) (length (s.slots b)) ds o (omega arith)

-- The entries of one bucket are replaced, by as many.
pub areas-set_slots :
    (s : Tracker) (b : ℕ) (ss : List Slot)
    → ((k : ℕ) → HasArea s k)
    → length ss ≡ length (s.slots b)
    → (k : ℕ) → HasArea (set_slots b ss s) k
areas-set_slots s b ss areas size k = elim (Bool-cases (k == b)) [
  | inl same ↦
      let e : k ≡ b = (==_iff k b).0 same in
      elim (areas k) [
        | inl (at, empty) ↦ inl (at, rw same (rw (size, ← e) empty))
        | inr (ds, o, full) ↦ inr (ds, o, rw same (rw (size, ← e) full))
      ]
  | inr differ ↦ rw differ (areas k)
]

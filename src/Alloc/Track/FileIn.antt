-- ===== src/Alloc/Track/FileIn.antt =====
-- TRK_alloc_buf of trace/include/alloc-inl.h, run on a table that keeps its invariant.
use co_fuzz.Prelude.{
  ℕ, ◌+◌, ◌*◌, ◌≡◌, ◌≢◌, true, List, none, some, ◌==◌, length, arith, Option-cases, Bool-cases, inl,
  inr, ==_iff,
}
use co_fuzz.Alloc.Heap.{null}
use co_fuzz.Alloc.Libc.{Libc}
use co_fuzz.Alloc.Dfl.{wrap32, ck_realloc, ck_realloc_block}
use co_fuzz.Alloc.Owns.{Owns}
use co_fuzz.Alloc.Ends.{IsResized, length-IsResized, IsGiven, IsMoved, ck_realloc-Ends}
use co_fuzz.Alloc.Track.{
  Site, Slot, slot_size, Tracker, done, trkh, fill, set_slots, grow, file_in, trk_alloc_buf,
}
use co_fuzz.Alloc.Track.Sound.{
  tracked, HasArea, Sound, IsUser, Returns, Returns-lift, reach_owned, reach-HasArea,
}
use co_fuzz.Alloc.Track.File.{Files, fill-Files, grow-Files}

area-IsGiven : (s : Tracker) (b : ℕ) → HasArea s b → IsGiven s.heap (s.area b)
area-IsGiven s b (inl (at, empty)) = inl at
area-IsGiven s b (inr (ds, o, full)) = inr (ds, o)

-- The size asked for does not wrap around.
area-size :
    (s : Tracker) (b : ℕ)
    → HasArea s b
    → wrap32 (wrap32 (length (s.slots b) + 1) * slot_size) ≡ (length (s.slots b) + 1) * slot_size
area-size s b (inl (at, empty)) = ground (arith, empty)
area-size s b (inr (ds, o, full)) = omega (arith, full, o.small)

module _ (libc : Libc) (s : Tracker) (site : Site) (p : ℕ) (ds : List ℕ) (inv : Sound s)
    (ne : p ≢ null) (o : Owns s.heap p ds) (fresh : tracked s p ≡ 0) (user : IsUser s p) where
  grow-Returns :
      Returns libc (λ _ t. Files p s t) (grow libc (trkh p) (record { ptr = p; site = site }) s)
  unfolding grow ck_realloc_block
  grow-Returns =
      let b = trkh p in
      let size = (length (s.slots b) + 1) * slot_size in
      rw (area-size s b (inv.areas b)) (
        Returns-lift libc
          (λ np g.
            (es : List ℕ) × IsResized s.heap (s.area b) size es × IsMoved s.heap (s.area b) np g es)
          (λ _ t. Files p s t) s (ck_realloc libc true (s.area b) size s.heap) _
          (ck_realloc-Ends libc s.heap (s.area b) size (area-IsGiven s b (inv.areas b))
            (omega arith))
          (λ np g (es, resized, moved).
            let full = length-IsResized s.heap (s.area b) size es resized in
            rw
              (reach_owned (record s { heap = g }) np (length (s.slots b) + 1) es moved.0
                (omega (arith, full)))
              (grow-Files s site p ds inv ne o fresh user np g es moved full)))

  file_in-fill :
      (ss : List Slot)
      → fill (record { ptr = p; site = site }) (s.slots (trkh p)) ≡ some ss
      → file_in libc (trkh p) (record { ptr = p; site = site }) s
        ≡ done tt (set_slots (trkh p) ss s)
  unfolding file_in
  file_in-fill ss filled = ground (arith, reach-HasArea s (trkh p) (inv.areas (trkh p)))

  file_in-grow :
      fill (record { ptr = p; site = site }) (s.slots (trkh p)) ≡ none
      → file_in libc (trkh p) (record { ptr = p; site = site }) s
        ≡ grow libc (trkh p) (record { ptr = p; site = site }) s
  unfolding file_in
  file_in-grow full = ground (arith, reach-HasArea s (trkh p) (inv.areas (trkh p)))

  file_in-Returns :
      Returns libc (λ _ t. Files p s t) (file_in libc (trkh p) (record { ptr = p; site = site }) s)
  file_in-Returns =
      elim (Option-cases (fill (record { ptr = p; site = site }) (s.slots (trkh p)))) [
        | inl full ↦ rw (file_in-grow full) grow-Returns
        | inr (ss, filled) ↦
            rw (file_in-fill ss filled) (fill-Files s site p ds inv ne o fresh user ss filled)
      ]

  pub trk_alloc_buf-Returns : Returns libc (λ _ t. Files p s t) (trk_alloc_buf libc p site s)
  unfolding trk_alloc_buf
  trk_alloc_buf-Returns = elim (Bool-cases (p == null)) [
    | inl at ↦ absurd (ne ((==_iff p null).0 at))
    | inr off ↦ rw off file_in-Returns
  ]

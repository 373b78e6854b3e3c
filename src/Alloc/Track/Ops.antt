-- ===== src/Alloc/Track/Ops.antt =====
-- The TRK_ck_ functions of trace/include/alloc-inl.h, each from its DFL_ck_ function and the table.
use co_fuzz.Prelude.{
  ℕ, ◌+◌, ◌^◌, ◌<◌, ◌≡◌, ◌≢◌, refl, true, List, [], ◌∷◌, ◌++◌, some, ◌==◌, length, replicate, arith,
  Bool-cases, inl, inr, append-nil, ==_iff, ==_self,
}
use co_fuzz.Prelude.Text.{Bytes}
use co_fuzz.Alloc.Heap.{Heap, Run, ok, null}
use co_fuzz.Alloc.Libc.{Libc}
use co_fuzz.Alloc.Dfl.{ck_alloc, ck_strdup, ck_memdup, ck_free, ck_realloc, ck_realloc_block}
use co_fuzz.Alloc.Owns.{Owns}
use co_fuzz.Alloc.Owns.Release.{ck_free-Releases}
use co_fuzz.Alloc.Ends.{
  IsResized, Ends, IsGiven, IsMoved, ck_alloc-Ends, ck_strdup-Ends, ck_memdup-Ends, ck_realloc-Ends,
}
use co_fuzz.Alloc.Track.{
  Site, Tracker, Out, ◌>>◌, pure, go_on, from_run, trk_alloc_buf, trk_free_buf, trk_ck_alloc,
  trk_ck_realloc, trk_ck_realloc_block, trk_ck_strdup, trk_ck_memdup, trk_ck_free,
}
use co_fuzz.Alloc.Track.Sound.{SoundBut, Sound, Returns, Returns-lift}
use co_fuzz.Alloc.Track.Drop.{Drops, trk_free_buf-Drops}
use co_fuzz.Alloc.Track.Steps.{
  IsTracked, Tracks, weaken, SoundBut-heap, off_areas, uncomplaining, retrack,
}

pub Returns-map :
    (libc : Libc) {A : Type 0} (P R : A → Tracker → Type 0) (r : Out A)
    → ((a : A) (t : Tracker) → P a t → R a t)
    → Returns libc P r
    → Returns libc R r
Returns-map libc P R (Out.done a t) imp p = imp a t p
Returns-map libc P R (Out.died why) imp p = p
Returns-map libc P R Out.undefined imp p = p

module _ (libc : Libc) (s : Tracker) (inv : Sound s) (site : Site) where
  -- A function that only allocates.
  allocated :
      (ds : Bytes) (r : Run ℕ)
      → Ends libc (λ np g. IsMoved s.heap null np g ds) r
      → Returns libc
          (λ p t. Tracks null p ds s t)
          (go_on (from_run s r) (λ ret. trk_alloc_buf libc ret site >> pure ret))
  unfolding trk_free_buf
  allocated ds r ends =
      Returns-lift libc (λ np g. IsMoved s.heap null np g ds) (λ p t. Tracks null p ds s t) s r _
        ends (λ np g moved. retrack libc s inv site null np g ds (inl refl) moved)

  pub trk_ck_alloc-Tracks :
      (size : ℕ)
      → 0 < size
      → Returns libc (λ p t. Tracks null p (replicate size 0) s t) (trk_ck_alloc libc size site s)
  unfolding trk_ck_alloc
  trk_ck_alloc-Tracks size some_size =
      allocated (replicate size 0) (ck_alloc libc size s.heap)
        (ck_alloc-Ends libc s.heap size some_size)

  pub trk_ck_strdup-Tracks :
      (str : Bytes)
      → length str + 1 < 2 ^ 32
      → Returns libc
          (λ p t. Tracks null p (str ++ 0 ∷ []) s t)
          (trk_ck_strdup libc (some str) site s)
  unfolding trk_ck_strdup
  trk_ck_strdup-Tracks str short =
      allocated (str ++ 0 ∷ []) (ck_strdup libc (some str) s.heap)
        (ck_strdup-Ends libc s.heap str short)

  pub trk_ck_memdup-Tracks :
      (mem : Bytes)
      → 0 < length mem
      → Returns libc (λ p t. Tracks null p mem s t) (trk_ck_memdup libc (some mem) site s)
  unfolding trk_ck_memdup
  trk_ck_memdup-Tracks mem some_size =
      allocated mem (ck_memdup libc (some mem) s.heap) (ck_memdup-Ends libc s.heap mem some_size)

  IsTracked-IsGiven : (p : ℕ) → IsTracked s p → IsGiven s.heap p
  IsTracked-IsGiven p (inl at) = inl at
  IsTracked-IsGiven p (inr in_s) = elim (Bool-cases (p == null)) [
    | inl at ↦ inl ((==_iff p null).0 at)
    | inr off ↦ let ne : p ≢ null = λ e. ground (arith, e) in inr (inv.owned p ne ne in_s)
  ]

  pub trk_ck_realloc-Tracks :
      (p size : ℕ)
      → IsTracked s p
      → 0 < size
      → Returns libc
          (λ np t. (ds : Bytes) × IsResized s.heap p size ds × Tracks p np ds s t)
          (trk_ck_realloc libc p size site s)
  unfolding trk_ck_realloc
  trk_ck_realloc-Tracks p size given some_size =
      Returns-lift libc
        (λ np g. (ds : List ℕ) × IsResized s.heap p size ds × IsMoved s.heap p np g ds)
        (λ np t. (ds : Bytes) × IsResized s.heap p size ds × Tracks p np ds s t) s
        (ck_realloc libc true p size s.heap) _
        (ck_realloc-Ends libc s.heap p size (IsTracked-IsGiven p given) some_size)
        (λ np g (ds, full, moved).
          Returns-map libc (λ np t. Tracks p np ds s t) _ _ (λ np t tr. (ds, full, tr))
            (retrack libc s inv site p np g ds given moved))

  pub trk_ck_realloc_block-eq :
      (p size : ℕ) → trk_ck_realloc_block libc p size site s ≡ trk_ck_realloc libc p size site s
  unfolding trk_ck_realloc_block trk_ck_realloc ck_realloc_block
  trk_ck_realloc_block-eq p size = refl

  -- The table without `p`, and a memory in which the other owners have theirs.
  module _ (p : ℕ) (given : IsTracked s p) (d : Drops p site s (trk_free_buf p site s)) (g : Heap)
      (frame : (q : ℕ) (ds : List ℕ) → p ≢ q → Owns s.heap q ds → Owns g q ds) where
    given_up : SoundBut p (record d.after { heap = g })
    given_up =
        SoundBut-heap d.after p g (weaken p d.sound)
          (rw (d.same_area, d.same_heap) (off_areas s p inv given)) (rw d.same_heap frame)

    freed-Tracks : Tracks p null [] s (record d.after { heap = g })
    freed-Tracks = record {
      sound = record {
        areas = given_up.areas;
        apart = given_up.apart;
        single = given_up.single;
        filed = given_up.filed;
        owned = λ q ne _ in_t.
            given_up.owned q ne (λ e. ground (arith, d.counts q ne, e, ==_self p)) in_t;
        users = given_up.users;
      };
      counts = λ q ne. ground (arith, d.counts q ne);
      handed = λ ne. absurd (ne refl);
      kept = λ q es differ free_q o_q. (frame q es differ o_q, rw d.same_area free_q);
      quiet = ground (arith, d.warnings, uncomplaining s p site given, append-nil s.warned);
    }

  ck_free-null : (p : ℕ) (h : Heap) → p ≡ null → ck_free libc true p h ≡ ok tt h
  unfolding ck_free
  ck_free-null p h at = ground arith

  pub trk_ck_free-Tracks :
      (p : ℕ)
      → IsTracked s p
      → Returns libc
          (λ _ t. Tracks p null [] s t × ((ds : List ℕ) → ¬ (Owns t.heap p ds)))
          (trk_ck_free libc p site s)
  unfolding trk_ck_free
  trk_ck_free-Tracks p given =
      let d = trk_free_buf-Drops s p site (weaken p inv) in
      rw (d.run, d.same_heap)
        (elim (IsTracked-IsGiven p given) [
          | inl at ↦
              rw (ck_free-null p s.heap at)
                (freed-Tracks p given d s.heap (λ q ds _ o. o), λ ds o. omega (arith, at, o.above))
          | inr (ds, o) ↦
              let r = ck_free-Releases libc true s.heap p ds o in
              rw r.run (freed-Tracks p given d r.heap r.frame, r.unowned)
        ])

-- ===== src/Alloc/Track/Steps.antt =====
-- The TRK_ck_ functions of trace/include/alloc-inl.h keep the table, the memory and the owners' bytes
-- in step.
use co_fuzz.Prelude.{
  ℕ, ◌+◌, ◌<◌, ◌≡◌, ◌≢◌, ◌⊎◌, List, [], ◌==◌, if◌then◌else◌, arith, Bool-cases, inl, inr, sym,
  append-nil, ==_iff,
}
use co_fuzz.Prelude.Text.{Bytes}
use co_fuzz.Alloc.Heap.{Heap, null}
use co_fuzz.Alloc.Libc.{Libc}
use co_fuzz.Alloc.Owns.{Owns}
use co_fuzz.Alloc.Ends.{IsMoved}
use co_fuzz.Alloc.Track.{Site, Tracker, done, ◌>>◌, pure, trk_alloc_buf, trk_free_buf}
use co_fuzz.Alloc.Track.Bag.{one_if}
use co_fuzz.Alloc.Track.Sound.{tracked, SoundBut, Sound, IsUser, Returns, Returns-bind}
use co_fuzz.Alloc.Track.File.{Files}
use co_fuzz.Alloc.Track.FileIn.{trk_alloc_buf-Returns}
use co_fuzz.Alloc.Track.Drop.{complaint, Drops, trk_free_buf-Drops}

-- The pointer is NULL, or the table has it.
abbrev pub IsTracked : Tracker → ℕ → Type 0
IsTracked s p = (p ≡ null) ⊎ (0 < tracked s p)

-- `old` is given up and `new` handed out, each of which may be NULL: the table follows, `new` is a
-- fresh pointer to `ds`, every other owner's bytes are as they were, and there is no warning.
pub record Tracks (old new : ℕ) (ds : Bytes) (s t : Tracker) : Type 0 where
  pub sound : Sound t
  pub counts :
      (q : ℕ) → q ≢ null → tracked t q ≡ one_if (new == q) + (if old == q then 0 else tracked s q)
  pub handed : new ≢ null → Owns t.heap new ds × IsUser t new × (tracked s new ≡ 0)
  pub kept :
      (q : ℕ) (es : List ℕ)
      → old ≢ q
      → IsUser s q
      → Owns s.heap q es
      → Owns t.heap q es × IsUser t q
  pub quiet : t.warned ≡ s.warned

pub weaken : {s : Tracker} (p : ℕ) → Sound s → SoundBut p s
weaken p inv = record {
  areas = inv.areas;
  apart = inv.apart;
  single = inv.single;
  filed = inv.filed;
  owned = λ q ne _ in_t. inv.owned q ne ne in_t;
  users = inv.users;
}

-- A change of the memory that leaves the other owners' bytes.
pub SoundBut-heap :
    (s : Tracker) (p : ℕ) (g : Heap)
    → SoundBut p s
    → ((b : ℕ) (ds : List ℕ) → Owns s.heap (s.area b) ds → p ≢ s.area b)
    → ((q : ℕ) (ds : List ℕ) → p ≢ q → Owns s.heap q ds → Owns g q ds)
    → SoundBut p (record s { heap = g })
SoundBut-heap s p g inv off frame = record {
  areas = λ b. elim (inv.areas b) [
    | inl none_yet ↦ inl none_yet
    | inr (ds, o, full) ↦ inr (ds, frame (s.area b) ds (off b ds o) o, full)
  ];
  apart = inv.apart;
  single = inv.single;
  filed = inv.filed;
  owned = λ q ne differ in_t.
      let old = inv.owned q ne differ in_t in (old.0, frame q old.0 (λ e. differ (sym e)) old.1);
  users = inv.users;
}

-- A pointer of the program's is not an array.
pub off_areas :
    (s : Tracker) (p : ℕ)
    → Sound s
    → IsTracked s p
    → (b : ℕ) (ds : List ℕ) → Owns s.heap (s.area b) ds
    → p ≢ s.area b
off_areas s p inv (inl at) b ds o e = omega (arith, at, e, o.above)
off_areas s p inv (inr in_s) b ds o e =
    inv.users p b (λ at. omega (arith, at, e, o.above)) in_s (sym e)

pub uncomplaining : (s : Tracker) (p : ℕ) (site : Site) → IsTracked s p → complaint s p site ≡ []
uncomplaining s p site (inl at) = ground arith
uncomplaining s p site (inr in_s) = ground arith

module _ (libc : Libc) (s : Tracker) (inv : Sound s) (site : Site) where
  -- The new pointer is not in the table, nor an array.
  module _ (old np : ℕ) (g : Heap) (ds : Bytes) (given : IsTracked s old)
      (moved : IsMoved s.heap old np g ds) where
    untracked : tracked s np ≡ 0
    untracked = elim (Bool-cases (tracked s np == 0)) [
      | inl e ↦ (==_iff (tracked s np) 0).0 e
      | inr more ↦
          let ne : np ≢ null = λ e. omega (arith, e, moved.0.above) in
          let old_owner = inv.owned np ne ne (ground arith) in
          absurd (moved.1 old_owner.0 old_owner.1)
    ]

    no_array : IsUser s np
    no_array b = elim (inv.areas b) [
      | inl (at, empty) ↦ λ e. omega (arith, at, e, moved.0.above)
      | inr (es, o, full) ↦ λ e. moved.1 es (rw (← e) o)
    ]

    combine :
        (d : Drops old site (record s { heap = g }) (trk_free_buf old site (record s { heap = g })))
        (t : Tracker)
        → Files np d.after t
        → Tracks old np ds s t
    combine d t f = record {
      sound = f.sound;
      counts = λ q ne. ground (arith, f.counts q ne, d.counts q ne);
      handed = λ _.
          let k = f.kept np ds (rw d.same_area no_array) (rw d.same_heap moved.0) in
          (k.0, k.1, untracked);
      kept = λ q es differ free_q o_q.
          f.kept q es (rw d.same_area free_q) (rw d.same_heap (moved.2 q es differ o_q));
      quiet = ground (
        arith,
        f.quiet,
        d.warnings,
        uncomplaining (record s { heap = g }) old site given,
        append-nil s.warned,
      );
    }

    -- TRK_free_buf of the old pointer, then TRK_alloc_buf of the new one.
    pub retrack :
        Returns libc
          (λ p t. Tracks old p ds s t)
          ((trk_free_buf old site >> (trk_alloc_buf libc np site >> pure np))
            (record s { heap = g }))
    retrack =
        let s1 = record s { heap = g } in
        let d : Drops old site s1 (trk_free_buf old site s1) =
          trk_free_buf-Drops s1 old site
            (SoundBut-heap s old g (weaken old inv) (off_areas s old inv given) moved.2) in
        let ne : np ≢ null = λ e. omega (arith, e, moved.0.above) in
        rw d.run (
          Returns-bind libc (λ _ t. Files np d.after t) (λ p t. Tracks old p ds s t)
            (trk_alloc_buf libc np site d.after) (λ _. done np)
            (trk_alloc_buf-Returns libc d.after site np ds d.sound ne (rw d.same_heap moved.0)
              (ground (arith, d.counts np ne, untracked)) (rw d.same_area no_array))
            (λ _ t f. combine d t f))

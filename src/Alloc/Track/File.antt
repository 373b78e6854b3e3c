-- ===== src/Alloc/Track/File.antt =====
-- TRK_alloc_buf of trace/include/alloc-inl.h adds the pointer once to a table that keeps its invariant.
use co_fuzz.Prelude.{
  ℕ, ◌+◌, ◌*◌, ◌<◌, ◌≡◌, ◌≢◌, ◌⊎◌, refl, false, List, [], ◌∷◌, ◌++◌, some, ◌==◌, length,
  if◌then◌else◌, arith, Bool-cases, inl, inr, length-append, ap, ==_iff, ==_self,
}
use co_fuzz.Alloc.Heap.{Heap, null}
use co_fuzz.Alloc.Owns.{Owns}
use co_fuzz.Alloc.Ends.{IsMoved}
use co_fuzz.Alloc.Track.{
  Site, Slot, slot_size, Tracker, with_value, trkh, fill, set_slots, set_area,
}
use co_fuzz.Alloc.Track.Bag.{one_if, occurs, occurs-append, occurs-fill, length-fill}
use co_fuzz.Alloc.Track.Sound.{tracked, HasArea, Sound, IsUser, Keeps, areas-set_slots}

-- Every number but that of `p` in bucket `b` is as it was, and that one is one more.
abbrev Adds : (p b : ℕ) → Tracker → Tracker → Type 0
Adds p b s t =
    (q c : ℕ)
    → q ≢ null
    → occurs q (t.slots c) ≡ (if c == b then one_if (p == q) else 0) + occurs q (s.slots c)

Adds-with_value :
    (p b : ℕ) (s t : Tracker) (ss : List Slot)
    → t.slots ≡ with_value s.slots b ss
    → ((q : ℕ) → q ≢ null → occurs q ss ≡ one_if (p == q) + occurs q (s.slots b))
    → Adds p b s t
Adds-with_value p b s t ss at adds q c ne = rw at (elim (Bool-cases (c == b)) [
  | inl same ↦ rw (same, (==_iff c b).0 same) (adds q ne)
  | inr differ ↦ rw differ (omega arith)
])

-- The table with one more pointer.
pub record Files (p : ℕ) (s t : Tracker) : Type 0 where
  pub sound : Sound t
  pub counts : (q : ℕ) → q ≢ null → tracked t q ≡ one_if (p == q) + tracked s q
  pub kept : Keeps s t
  pub quiet : t.warned ≡ s.warned

module _ (s t : Tracker) (p : ℕ) (ds : List ℕ) (inv : Sound s) (ne : p ≢ null)
    (o : Owns s.heap p ds) (fresh : tracked s p ≡ 0) (user : IsUser s p)
    (areas : (b : ℕ) → HasArea t b)
    (apart : (b c : ℕ) → t.area b ≡ t.area c → (b ≡ c) ⊎ (t.area b ≡ null)) (kept : Keeps s t)
    (adds : Adds p (trkh p) s t) (quiet : t.warned ≡ s.warned) where
  counts-Adds : (q : ℕ) → q ≢ null → tracked t q ≡ one_if (p == q) + tracked s q
  counts-Adds q some_q = elim (Bool-cases (p == q)) [
    | inl same ↦
        let e : p ≡ q = (==_iff p q).0 same in
        ground (arith, adds q (trkh q) some_q, ==_self (trkh p), e)
    | inr differ ↦ ground (arith, adds q (trkh q) some_q)
  ]

  old-or-new : (q : ℕ) → q ≢ null → 0 < tracked t q → (p ≡ q) ⊎ (0 < tracked s q)
  old-or-new q some_q in_t = elim (Bool-cases (p == q)) [
    | inl same ↦ inl ((==_iff p q).0 same)
    | inr differ ↦ inr (ground (arith, counts-Adds q some_q))
  ]

  filed-Adds : (b q : ℕ) → q ≢ null → 0 < occurs q (t.slots b) → trkh q ≡ b
  filed-Adds b q some_q in_t = elim (Bool-cases (p == q)) [
    | inl same ↦
        ground (arith, adds q b some_q, inv.filed b q some_q, ap trkh ((==_iff p q).0 same))
    | inr differ ↦ inv.filed b q some_q (ground (arith, adds q b some_q))
  ]

  still-Owns : (q : ℕ) → q ≢ null → 0 < tracked t q → (ds : List ℕ) × Owns t.heap q ds × IsUser t q
  still-Owns q some_q in_t = elim (old-or-new q some_q in_t) [
    | inl e ↦ let k = kept p ds user o in rw (← e) (ds, k.0, k.1)
    | inr in_s ↦
        let old = inv.owned q some_q some_q in_s in
        let k = kept q old.0 (λ b. inv.users q b some_q in_s) old.1 in (old.0, k.0, k.1)
  ]

  pub Files-Adds : Files p s t
  Files-Adds = record {
    sound = record {
      areas = areas;
      apart = apart;
      single =
          λ q some_q. ground (arith, counts-Adds q some_q, inv.single q some_q, (==_iff p q).0);
      filed = filed-Adds;
      owned = λ q some_q differ in_t. let k = still-Owns q some_q in_t in (k.0, k.1);
      users = λ q b some_q in_t. (still-Owns q some_q in_t).2 b;
    };
    counts = counts-Adds;
    kept = kept;
    quiet = quiet;
  }

module _ (s : Tracker) (site : Site) (p : ℕ) (ds : List ℕ) (inv : Sound s) (ne : p ≢ null)
    (o : Owns s.heap p ds) (fresh : tracked s p ≡ 0) (user : IsUser s p) where
  -- A free entry takes the pointer.
  pub fill-Files :
      (ss : List Slot)
      → fill (record { ptr = p; site = site }) (s.slots (trkh p)) ≡ some ss
      → Files p s (set_slots (trkh p) ss s)
  fill-Files ss filled =
      let new : Slot = record { ptr = p; site = site } in
      Files-Adds s (set_slots (trkh p) ss s) p ds inv ne o fresh user
        (areas-set_slots s (trkh p) ss inv.areas (length-fill new (s.slots (trkh p)) ss filled))
        inv.apart (λ q es free_q o_q. (o_q, free_q))
        (Adds-with_value p (trkh p) s (set_slots (trkh p) ss s) ss refl
          (λ q some_q. occurs-fill q new (s.slots (trkh p)) ss some_q filled))
        refl

  -- A new array takes the old one's place, one entry longer.
  module _ (np : ℕ) (g : Heap) (es : List ℕ) (moved : IsMoved s.heap (s.area (trkh p)) np g es)
      (size : length es ≡ (length (s.slots (trkh p)) + 1) * slot_size) where
    abbrev pub longer : List Slot
    longer = s.slots (trkh p) ++ record { ptr = p; site = site } ∷ []

    abbrev pub grown_table : Tracker
    grown_table = set_slots (trkh p) longer (set_area (trkh p) np (record s { heap = g }))

    unused : (k : ℕ) → s.area k ≢ np
    unused k = elim (inv.areas k) [
      | inl (at, empty) ↦ λ e. omega (arith, at, e, moved.0.above)
      | inr (fs, o_k, full) ↦ λ e. moved.1 fs (rw (← e) o_k)
    ]

    areas-grown : (k : ℕ) → HasArea grown_table k
    areas-grown k = elim (Bool-cases (k == trkh p)) [
      | inl same ↦ rw same (
          inr (
            es,
            moved.0,
            ground (
              arith,
              size,
              length-append (s.slots (trkh p)) (record { ptr = p; site = site } ∷ []),
            ),
          ))
      | inr differ ↦ rw differ (elim (inv.areas k) [
        | inl none_yet ↦ inl none_yet
        | inr (fs, o_k, full) ↦ inr (fs, moved.2 (s.area k) fs (other k differ fs o_k) o_k, full)
      ])
    ]
      where
        other :
            (k : ℕ)
            → (k == trkh p) ≡ false
            → (fs : List ℕ) → Owns s.heap (s.area k) fs
            → s.area (trkh p) ≢ s.area k
        other k differ fs o_k e = elim (inv.apart (trkh p) k e) [
          | inl same ↦ ground (arith, same)
          | inr at ↦ omega (arith, at, e, o_k.above)
        ]

    apart-grown :
        (b c : ℕ)
        → with_value s.area (trkh p) np b ≡ with_value s.area (trkh p) np c
        → (b ≡ c) ⊎ (with_value s.area (trkh p) np b ≡ null)
    apart-grown b c e = elim (Bool-cases (b == trkh p)) [
      | inl b_at ↦ elim (Bool-cases (c == trkh p)) [
        | inl c_at ↦ inl (ground arith)
        | inr c_off ↦ absurd (unused c (ground arith))
      ]
      | inr b_off ↦ elim (Bool-cases (c == trkh p)) [
        | inl c_at ↦ absurd (unused b (ground arith))
        | inr c_off ↦ elim (inv.apart b c (ground arith)) [
          | inl same ↦ inl same
          | inr at ↦ inr (ground arith)
        ]
      ]
    ]

    kept-grown : Keeps s grown_table
    kept-grown q fs free_q o_q = (moved.2 q fs (free_q (trkh p)) o_q, off)
      where
        off : IsUser grown_table q
        off b = elim (Bool-cases (b == trkh p)) [
          | inl same ↦ rw same (λ e. moved.1 fs (rw e o_q))
          | inr differ ↦ rw differ (free_q b)
        ]

    pub grow-Files : Files p s grown_table
    grow-Files =
        let new : Slot = record { ptr = p; site = site } in
        Files-Adds s grown_table p ds inv ne o fresh user areas-grown apart-grown kept-grown
          (Adds-with_value p (trkh p) s grown_table longer refl
            (λ q some_q. ground (arith, occurs-append q (s.slots (trkh p)) (new ∷ []))))
          refl

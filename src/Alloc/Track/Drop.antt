-- ===== src/Alloc/Track/Drop.antt =====
-- TRK_free_buf of trace/include/alloc-inl.h takes the pointer out of a table that keeps its invariant,
-- or warns.
use co_fuzz.Prelude.{
  ℕ, ◌<◌, ◌≤◌, ◌≡◌, ◌≢◌, refl, List, [], ◌∷◌, ◌++◌, none, some, ◌==◌, if◌then◌else◌, arith,
  Option-cases, Bool-cases, inl, inr, append-nil, ==_iff, ==_self,
}
use co_fuzz.Alloc.Heap.{null}
use co_fuzz.Alloc.Track.{
  Site, Slot, Warning, free_non_allocated, Tracker, Out, done, with_value, trkh, clear, set_slots,
  warn, drop_from, trk_free_buf,
}
use co_fuzz.Alloc.Track.Bag.{occurs, occurs-clear, length-clear, occurs-clear-none}
use co_fuzz.Alloc.Track.Sound.{tracked, HasArea, SoundBut, Sound, reach-HasArea, areas-set_slots}

-- What TRK_free_buf adds to the warnings: nothing for NULL or a tracked pointer.
abbrev pub complaint : Tracker → ℕ → Site → List Warning
complaint s p site =
    if p == null then [] else if tracked s p == 0 then free_non_allocated site ∷ [] else []

-- The table without the pointer, with the memory as it was.
pub record Drops (p : ℕ) (site : Site) (s : Tracker) (r : Out (Unit {0})) : Type 0 where
  pub after : Tracker
  pub run : r ≡ done tt after
  pub sound : Sound after
  pub counts : (q : ℕ) → q ≢ null → tracked after q ≡ (if p == q then 0 else tracked s q)
  pub same_heap : after.heap ≡ s.heap
  pub same_area : after.area ≡ s.area
  pub warnings : after.warned ≡ s.warned ++ complaint s p site

module _ (s : Tracker) (p : ℕ) (inv : SoundBut p s) (t : Tracker) (same_heap : t.heap ≡ s.heap)
    (same_area : t.area ≡ s.area) (areas : (b : ℕ) → HasArea t b)
    (counts : (q : ℕ) → q ≢ null → tracked t q ≡ (if p == q then 0 else tracked s q))
    (filed : (b q : ℕ) → q ≢ null → occurs q (t.slots b) ≤ occurs q (s.slots b)) where
  Sound-dropped : Sound t
  Sound-dropped = record {
    areas = areas;
    apart = rw same_area inv.apart;
    single = λ q ne. ground (arith, counts q ne, inv.single q ne);
    filed = λ b q ne in_t. inv.filed b q ne (omega (arith, filed b q ne));
    owned = λ q ne _ in_t. rw same_heap (inv.owned q ne (differ q ne in_t) (in_s q ne in_t));
    users = λ q b ne in_t. rw same_area (inv.users q b ne (in_s q ne in_t));
  }
    where
      in_s : (q : ℕ) → q ≢ null → 0 < tracked t q → 0 < tracked s q
      in_s q ne in_t = ground (arith, counts q ne)

      differ : (q : ℕ) → q ≢ null → 0 < tracked t q → q ≢ p
      differ q ne in_t e = ground (arith, counts q ne, e)

module _ (s : Tracker) (p : ℕ) (site : Site) (inv : SoundBut p s) (ne : p ≢ null) where
  clear-Drops :
      (ss : List Slot)
      → clear p (s.slots (trkh p)) ≡ some ss
      → Drops p site s (done tt (set_slots (trkh p) ss s))
  clear-Drops ss cleared = record {
    after = t;
    run = refl;
    sound =
        Sound-dropped s p inv t refl refl
          (areas-set_slots s (trkh p) ss inv.areas (length-clear p (s.slots (trkh p)) ss cleared))
          counts fewer;
    counts = counts;
    same_heap = refl;
    same_area = refl;
    warnings =
        ground (
          arith,
          append-nil s.warned,
          ==_self p,
          occurs-clear p p (s.slots (trkh p)) ss ne cleared,
        );
  }
    where
      t : Tracker
      t = set_slots (trkh p) ss s

      fewer :
          (b q : ℕ) → q ≢ null → occurs q (with_value s.slots (trkh p) ss b) ≤ occurs q (s.slots b)
      fewer b q some_q = elim (Bool-cases (b == trkh p)) [
        | inl at ↦
            rw (at, (==_iff b (trkh p)).0 at)
              (omega (arith, occurs-clear q p (s.slots (trkh p)) ss some_q cleared))
        | inr off ↦ rw off (omega arith)
      ]

      counts :
          (q : ℕ)
          → q ≢ null
          → occurs q (with_value s.slots (trkh p) ss (trkh q)) ≡ (if p == q then 0 else tracked s q)
      counts q some_q = elim (Bool-cases (p == q)) [
        | inl same ↦
            rw (same, ← (==_iff p q).0 same, ==_self (trkh p))
              (ground (
                arith,
                ==_self p,
                inv.single p ne,
                occurs-clear p p (s.slots (trkh p)) ss ne cleared,
              ))
        | inr differ ↦ rw differ (elim (Bool-cases (trkh q == trkh p)) [
          | inl at ↦
              rw (at, (==_iff (trkh q) (trkh p)).0 at)
                (ground (arith, occurs-clear q p (s.slots (trkh p)) ss some_q cleared))
          | inr off ↦ rw off refl
        ])
      ]

  missing-Drops :
      clear p (s.slots (trkh p)) ≡ none
      → Drops p site s (done tt (warn (free_non_allocated site) s))
  missing-Drops missing = record {
    after = t;
    run = refl;
    sound = Sound-dropped s p inv t refl refl inv.areas counts (λ b q some_q. omega arith);
    counts = counts;
    same_heap = refl;
    same_area = refl;
    warnings = ground (arith, occurs-clear-none p (s.slots (trkh p)) missing);
  }
    where
      t : Tracker
      t = warn (free_non_allocated site) s

      counts : (q : ℕ) → q ≢ null → tracked s q ≡ (if p == q then 0 else tracked s q)
      counts q some_q = elim (Bool-cases (p == q)) [
        | inl same ↦
            rw (same, ← (==_iff p q).0 same) (occurs-clear-none p (s.slots (trkh p)) missing)
        | inr differ ↦ rw differ refl
      ]

  drop_from-clear :
      (ss : List Slot)
      → clear p (s.slots (trkh p)) ≡ some ss
      → drop_from (trkh p) p site s ≡ done tt (set_slots (trkh p) ss s)
  unfolding drop_from
  drop_from-clear ss cleared = ground (arith, reach-HasArea s (trkh p) (inv.areas (trkh p)))

  drop_from-missing :
      clear p (s.slots (trkh p)) ≡ none
      → drop_from (trkh p) p site s ≡ done tt (warn (free_non_allocated site) s)
  unfolding drop_from
  drop_from-missing missing = ground (arith, reach-HasArea s (trkh p) (inv.areas (trkh p)))

  drop_from-Drops : Drops p site s (drop_from (trkh p) p site s)
  drop_from-Drops = elim (Option-cases (clear p (s.slots (trkh p)))) [
    | inl missing ↦ rw (drop_from-missing missing) (missing-Drops missing)
    | inr (ss, cleared) ↦ rw (drop_from-clear ss cleared) (clear-Drops ss cleared)
  ]

-- On a table that keeps its invariant, where the pointer itself may have no owner any more,
-- TRK_free_buf returns, does not touch the memory, and leaves the whole invariant: the pointer is not
-- in the table any more, every other pointer is there as often as before, and a warning is added
-- exactly where the pointer is not NULL and was not tracked.
pub trk_free_buf-Drops :
    (s : Tracker) (p : ℕ) (site : Site) → SoundBut p s → Drops p site s (trk_free_buf p site s)
unfolding trk_free_buf
trk_free_buf-Drops s p site inv = elim (Bool-cases (p == null)) [
  | inl at ↦ rw at (null-Drops ((==_iff p null).0 at))
  | inr off ↦ rw off (drop_from-Drops s p site inv (λ e. ground (arith, e)))
]
  where
    null-Drops : p ≡ null → Drops p site s (done tt s)
    null-Drops e = record {
      after = s;
      run = refl;
      sound = rw e at inv;
      counts = λ q ne. ground (arith, e);
      same_heap = refl;
      same_area = refl;
      warnings = ground (arith, e, append-nil s.warned);
    }

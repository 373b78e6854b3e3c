-- ===== src/Alloc/Track/Report.antt =====
-- TRK_report of trace/include/alloc-inl.h names what was never freed, bucket by bucket.
use co_fuzz.Prelude.{
  ℕ, zero, suc, ◌<◌, ◌≡◌, ◌≢◌, ◌↔◌, refl, List, none, some, [], ◌∷◌, ◌++◌, ◌==◌, if◌then◌else◌,
  arith, Bool-cases, inl, inr, ==_iff, ==_self, append_assoc, append-nil,
}
use mathlib.Core.List.{filter_map}
use co_fuzz.Alloc.Heap.{null}
use co_fuzz.Alloc.Track.{
  Slot, Warning, never_freed, Tracker, Out, done, alloc_buckets, trkh, report_slots, report_buckets,
  trk_report,
}
use co_fuzz.Alloc.Track.Bag.{occurs}
use co_fuzz.Alloc.Track.Sound.{tracked, Sound, HasArea, reach-HasArea}

-- The calls that created what an array still has.
abbrev pub unfreed : List Slot → List Warning
unfreed ss = filter_map (λ slot. if slot.ptr == null then none else some (never_freed slot.site)) ss

-- The same of the first buckets, in their order.
abbrev pub leaks : (ℕ → List Slot) → ℕ → List Warning
leaks slots zero = []
leaks slots (suc b) = leaks slots b ++ unfreed (slots b)

report_slots-unfreed : (ss : List Slot) → report_slots ss ≡ unfreed ss
unfolding report_slots filter_map
report_slots-unfreed [] = refl
report_slots-unfreed (s ∷ ss) = elim (Bool-cases (s.ptr == null)) [
  | inl gone ↦ rw gone (report_slots-unfreed ss)
  | inr live ↦ rw (live, report_slots-unfreed ss) refl
]

report_buckets-leaks :
    (s : Tracker) (n : ℕ)
    → ((b : ℕ) → HasArea s b)
    → report_buckets n s ≡ done tt (record s { warned = s.warned ++ leaks s.slots n })
unfolding report_buckets
report_buckets-leaks s zero areas = ground (arith, append-nil s.warned)
report_buckets-leaks s (suc b) areas =
    let t = record s { warned = s.warned ++ leaks s.slots b } in
    ground (
      arith,
      report_buckets-leaks s b areas,
      reach-HasArea t b (areas b),
      report_slots-unfreed (s.slots b),
      append_assoc s.warned (leaks s.slots b) (unfreed (s.slots b)),
    )

-- An array has no call to name exactly where it has no pointer.
unfreed-nil : (ss : List Slot) → ((q : ℕ) → q ≢ null → occurs q ss ≡ 0) → unfreed ss ≡ []
unfolding filter_map
unfreed-nil [] empty = refl
unfreed-nil (s ∷ ss) empty = elim (Bool-cases (s.ptr == null)) [
  | inl gone ↦ rw gone (unfreed-nil ss (λ q ne. omega (arith, empty q ne)))
  | inr live ↦ absurd (ground (arith, ==_self s.ptr, empty s.ptr (λ e. ground (arith, e))))
]

occurs-unfreed : (q : ℕ) (ss : List Slot) → q ≢ null → unfreed ss ≡ [] → occurs q ss ≡ 0
unfolding filter_map
occurs-unfreed q [] ne e = refl
occurs-unfreed q (s ∷ ss) ne e = elim (Bool-cases (s.ptr == null)) [
  | inl gone ↦ ground (arith, occurs-unfreed q ss ne (rw gone at e))
  | inr live ↦ absurd (cons-ne (rw live at e))
]
  where
    cons-ne : {w : Warning} {ws : List Warning} → w ∷ ws ≡ [] → ⊥
    cons-ne e = cc

append-nil_iff : (ws vs : List Warning) → ws ++ vs ≡ [] → (ws ≡ []) × (vs ≡ [])
append-nil_iff [] vs e = (refl, e)
append-nil_iff (w ∷ ws) vs e = absurd (cc)

leaks-nil :
    (slots : ℕ → List Slot) (n : ℕ) → ((b : ℕ) → unfreed (slots b) ≡ []) → leaks slots n ≡ []
leaks-nil slots zero empty = refl
leaks-nil slots (suc b) empty = rw (leaks-nil slots b empty) (empty b)

unfreed-leaks :
    (slots : ℕ → List Slot) (n b : ℕ) → b < n → leaks slots n ≡ [] → unfreed (slots b) ≡ []
unfreed-leaks slots zero b h e = elim h [ ]
unfreed-leaks slots (suc n) b h e =
    let parts = append-nil_iff (leaks slots n) (unfreed (slots n)) e in
    elim (Bool-cases (b == n)) [
      | inl last ↦ rw ((==_iff b n).0 last) parts.1
      | inr before ↦ unfreed-leaks slots n b (ground arith) parts.0
    ]

trkh-lt : (q : ℕ) → trkh q < alloc_buckets
unfolding trkh
trkh-lt q = omega arith

-- The report, and when it is empty.
pub record Reports (s : Tracker) (r : Out (Unit {0})) : Type 0 where
  pub run : r ≡ done tt (record s { warned = s.warned ++ leaks s.slots alloc_buckets })
  pub silent : (leaks s.slots alloc_buckets ≡ []) ↔ ((q : ℕ) → q ≢ null → tracked s q ≡ 0)

-- On a sound table TRK_report returns and changes nothing but the warnings: it names the call of
-- every entry with a pointer, in the order of the buckets and of their entries, and it names none
-- exactly where no pointer is tracked.
pub trk_report-Reports : (s : Tracker) → Sound s → Reports s (trk_report s)
unfolding trk_report
trk_report-Reports s inv = record {
  run = report_buckets-leaks s alloc_buckets inv.areas;
  silent = (all_freed, nothing_named);
}
  where
    all_freed : leaks s.slots alloc_buckets ≡ [] → (q : ℕ) → q ≢ null → tracked s q ≡ 0
    all_freed e q ne =
        occurs-unfreed q (s.slots (trkh q)) ne
          (unfreed-leaks s.slots alloc_buckets (trkh q) (trkh-lt q) e)

    nothing_named : ((q : ℕ) → q ≢ null → tracked s q ≡ 0) → leaks s.slots alloc_buckets ≡ []
    nothing_named none_left =
        leaks-nil s.slots alloc_buckets (λ b. unfreed-nil (s.slots b) (absent b))
      where
        absent : (b q : ℕ) → q ≢ null → occurs q (s.slots b) ≡ 0
        absent b q ne = elim (Bool-cases (occurs q (s.slots b) == 0)) [
          | inl e ↦ (==_iff (occurs q (s.slots b)) 0).0 e
          | inr some_q ↦
              let at : trkh q ≡ b = inv.filed b q ne (ground arith) in
              absurd (ground (arith, none_left q ne, at))
        ]

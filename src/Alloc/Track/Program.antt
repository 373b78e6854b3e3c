-- ===== src/Alloc/Track/Program.antt =====
-- A program in a debug build that frees and moves only what it has: the calls of
-- trace/include/alloc-inl.h's TRK_ck_ functions in any order.
use co_fuzz.Prelude.{
  ℕ, ◌+◌, ◌^◌, ◌<◌, ◌≡◌, ◌≢◌, ◌↔◌, refl, ap, ◌∙◌, List, [], ◌∷◌, ◌++◌, some, ◌==◌, length,
  if◌then◌else◌, arith, inl, inr, replicate,
}
use co_fuzz.Prelude.Text.{Bytes}
use co_fuzz.Alloc.Heap.{Heap, null}
use co_fuzz.Alloc.Libc.{Libc}
use co_fuzz.Alloc.Owns.{Owns}
use co_fuzz.Alloc.Ends.{IsResized}
use co_fuzz.Alloc.Track.{
  Site, Tracker, Out, done, Trk, ◌>>◌, pure, alloc_buckets, trk_ck_alloc, trk_ck_realloc,
  trk_ck_realloc_block, trk_ck_strdup, trk_ck_memdup, trk_ck_free, trk_report,
}
use co_fuzz.Alloc.Track.Bag.{one_if}
use co_fuzz.Alloc.Track.Sound.{tracked, Sound, Returns, Returns-bind}
use co_fuzz.Alloc.Track.Report.{leaks, trk_report-Reports}
use co_fuzz.Alloc.Track.Steps.{IsTracked, Tracks}
use co_fuzz.Alloc.Track.Ops.{
  Returns-map, trk_ck_alloc-Tracks, trk_ck_strdup-Tracks, trk_ck_memdup-Tracks,
  trk_ck_realloc-Tracks, trk_ck_realloc_block-eq, trk_ck_free-Tracks,
}

-- A call of the allocator.
pub data Call : Type 0 where
  alloc : (size : ℕ) → Call
  resize : (orig size : ℕ) → Call
  resize_block : (orig size : ℕ) → Call
  duplicate : (str : Bytes) → Call
  copy : (mem : Bytes) → Call
  release : ℕ → Call

-- The pointer that a call gives up.
abbrev pub given_up : Call → ℕ
given_up (alloc size) = null
given_up (resize orig size) = orig
given_up (resize_block orig size) = orig
given_up (duplicate str) = null
given_up (copy mem) = null
given_up (release p) = p

-- The sizes of a call, which are not 0 and for a string fit 32 bits.
abbrev pub IsSized : Call → Type 0
IsSized (alloc size) = 0 < size
IsSized (resize orig size) = 0 < size
IsSized (resize_block orig size) = 0 < size
IsSized (duplicate str) = length str + 1 < 2 ^ 32
IsSized (copy mem) = 0 < length mem
IsSized (release p) = Unit {0}

-- What a call from a heap hands out must hold.
abbrev pub Holds : Call → Heap → Bytes → Type 0
Holds (alloc size) h ds = ds ≡ replicate size 0
Holds (resize orig size) h ds = IsResized h orig size ds
Holds (resize_block orig size) h ds = IsResized h orig size ds
Holds (duplicate str) h ds = ds ≡ str ++ 0 ∷ []
Holds (copy mem) h ds = ds ≡ mem
Holds (release p) h ds = ds ≡ []

module _ (libc : Libc) where
  unfoldable pub call : Call → Site → Trk ℕ
  unfolding trk_ck_alloc trk_ck_realloc trk_ck_realloc_block trk_ck_strdup trk_ck_memdup trk_ck_free
  call (alloc size) site = trk_ck_alloc libc size site
  call (resize orig size) site = trk_ck_realloc libc orig size site
  call (resize_block orig size) site = trk_ck_realloc_block libc orig size site
  call (duplicate str) site = trk_ck_strdup libc (some str) site
  call (copy mem) site = trk_ck_memdup libc (some mem) site
  call (release p) site = trk_ck_free libc p site >> pure null

  -- The call returns with all that it promises, or there is no memory.
  abbrev pub Promises : Call → Tracker → Out ℕ → Type 0
  Promises c s =
      Returns libc (λ p t. (ds : Bytes) × Holds c s.heap ds × Tracks (given_up c) p ds s t)

  promise :
      (c : Call) (s : Tracker) (ds : Bytes) (r : Out ℕ)
      → Holds c s.heap ds
      → Returns libc (λ p t. Tracks (given_up c) p ds s t) r
      → Promises c s r
  promise c s ds r holds =
      Returns-map libc (λ p t. Tracks (given_up c) p ds s t)
        (λ p t. (ds : Bytes) × Holds c s.heap ds × Tracks (given_up c) p ds s t) r
        (λ p t tr. (ds, holds, tr))

  pub call-Tracks :
      (s : Tracker) (c : Call) (site : Site)
      → Sound s
      → IsTracked s (given_up c)
      → IsSized c
      → Promises c s (call c site s)
  unfolding call
  call-Tracks s (alloc size) site inv given sized =
      promise (alloc size) s (replicate size 0) (trk_ck_alloc libc size site s) refl
        (trk_ck_alloc-Tracks libc s inv site size sized)
  call-Tracks s (resize orig size) site inv given sized =
      trk_ck_realloc-Tracks libc s inv site orig size given sized
  call-Tracks s (resize_block orig size) site inv given sized =
      rw (trk_ck_realloc_block-eq libc s inv site orig size)
        (trk_ck_realloc-Tracks libc s inv site orig size given sized)
  call-Tracks s (duplicate str) site inv given sized =
      promise (duplicate str) s (str ++ 0 ∷ []) (trk_ck_strdup libc (some str) site s) refl
        (trk_ck_strdup-Tracks libc s inv site str sized)
  call-Tracks s (copy mem) site inv given sized =
      promise (copy mem) s mem (trk_ck_memdup libc (some mem) site s) refl
        (trk_ck_memdup-Tracks libc s inv site mem sized)
  call-Tracks s (release p) site inv given sized =
      Returns-bind libc (λ _ t. Tracks p null [] s t × ((ds : List ℕ) → ¬ (Owns t.heap p ds)))
        (λ np t. (ds : Bytes) × Holds (release p) s.heap ds × Tracks p np ds s t)
        (trk_ck_free libc p site s) (λ _. pure null) (trk_ck_free-Tracks libc s inv site p given)
        (λ _ t tr. ([], refl, tr.0))

  -- A run of calls, each of which gives up NULL or a pointer that the table has, and returns.
  pub data Runs : Tracker → Tracker → Type 0 where
    start : (s : Tracker) → Runs s s
    after :
        {s t u : Tracker} (before : Runs s t) (c : Call) (site : Site) (p : ℕ)
        → IsTracked t (given_up c)
        → IsSized c
        → call c site t ≡ done p u
        → Runs s u

  -- Whether a pointer is held at the end of a run: it was handed out, and not given up since.
  abbrev pub held : {s t : Tracker} → Runs s t → ℕ → ℕ
  held (start s) q = 0
  held (after before c site p given sized e) q =
      one_if (p == q) + (if given_up c == q then 0 else held before q)

-- The table before the first call.
abbrev pub no_table : Heap → Tracker
no_table h = record { heap = h; area = λ _. null; slots = λ _. []; warned = [] }

pub no_table-Sound : (h : Heap) → Sound (no_table h)
no_table-Sound h = record {
  areas = λ _. inl (refl, refl);
  apart = λ _ _ _. inr refl;
  single = λ _ _. omega arith;
  filed = λ _ _ _ in_t. absurd (omega (arith, in_t));
  owned = λ _ _ _ in_t. absurd (omega (arith, in_t));
  users = λ _ _ _ in_t. absurd (omega (arith, in_t));
}

-- What every run keeps: the table is sound and has what is held, and nothing is warned of.
pub record Kept (libc : Libc) {s t : Tracker} (run : Runs libc s t) : Type 0 where
  pub sound : Sound t
  pub ledger : (q : ℕ) → q ≢ null → tracked t q ≡ held libc run q
  pub quiet : t.warned ≡ s.warned

Kept-after :
    (libc : Libc) {s t u : Tracker} (before : Runs libc s t) (c : Call) (site : Site) (p : ℕ)
    (given : IsTracked t (given_up c)) (sized : IsSized c) (e : call libc c site t ≡ done p u)
    → Kept libc before
    → Kept libc (after before c site p given sized e)
Kept-after libc {t} before c site p given sized e k =
    let (ds, _, tr) = rw e at (call-Tracks libc t c site k.sound given sized) in
    record {
      sound = tr.sound;
      ledger = λ q ne. ground (arith, tr.counts q ne, k.ledger q ne);
      quiet = ground (arith, tr.quiet, k.quiet);
    }

pub Runs-Kept :
    (libc : Libc) {s t : Tracker} (run : Runs libc s t)
    → Sound s
    → ((q : ℕ) → q ≢ null → tracked s q ≡ 0)
    → Kept libc run
Runs-Kept libc (start s) inv none_yet = record { sound = inv; ledger = none_yet; quiet = refl }
Runs-Kept libc (after before c site p given sized e) inv none_yet =
    Kept-after libc before c site p given sized e (Runs-Kept libc before inv none_yet)

-- After any run of such calls from an empty table, TRK_report returns, and what has been warned of is
-- the call behind each entry with a pointer, in the order of the buckets and of their entries: no
-- release was warned of. Nothing is reported exactly where every pointer that was handed out has
-- been given up since.
pub Runs-report :
    (libc : Libc) (h : Heap) {t : Tracker} (run : Runs libc (no_table h) t)
    → (trk_report t ≡ done tt (record t { warned = leaks t.slots alloc_buckets }))
      × ((leaks t.slots alloc_buckets ≡ []) ↔ ((q : ℕ) → q ≢ null → held libc run q ≡ 0))
Runs-report libc h {t} run =
    let k = Runs-Kept libc run (no_table-Sound h) (λ q ne. refl) in
    let r = trk_report-Reports t k.sound in
    (
      r.run ∙ ap (λ ws. done tt (record t { warned = ws ++ leaks t.slots alloc_buckets })) k.quiet,
      (
        λ e q ne. omega (arith, k.ledger q ne, r.silent.0 e q ne),
        λ all. r.silent.1 (λ q ne. omega (arith, k.ledger q ne, all q ne)),
      ),
    )

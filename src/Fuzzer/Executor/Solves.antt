-- ===== src/Fuzzer/Executor/Solves.antt =====
-- What __solve_seed of src/fuzz/executor.py keeps over all its test cases.
use co_fuzz.Prelude.{
  ℕ, ◌≤◌, ◌≡◌, refl, sym, ap, ◌∙◌, Bool, true, false, List, [], ◌∷◌, ◌++◌, Option, none, some, ◌==◌,
  if◌then◌else◌, length, arith, append_assoc,
}
use co_fuzz.Prelude.Text.{Bytes, codes, text_eq_self, All}
use co_fuzz.Tracer.Python.{Unicode}
use co_fuzz.Fuzzer.Bitmap.{cons, update_bytes, update_bitmap}
use co_fuzz.Fuzzer.Bitmap.Learns.{
  AllCovered, AllCovered-Grows, AllCovered-IsKnown, IsKnown, Grows, start,
}
use co_fuzz.Fuzzer.Names.{identify_id}
use co_fuzz.Fuzzer.Executor.{Files, exited, Testcase, Executor, sync_all, is_solved, solve_seed}
use co_fuzz.Fuzzer.Executor.Numbered.{Counted, Extends}
use co_fuzz.Fuzzer.Executor.Later.{Reaches, Grows_trans, Reaches-Follows}
use co_fuzz.Fuzzer.Executor.Saves.{sync_seed-Synced}

pub Extends-trans : (a b c : Files) → Extends a b → Extends b c → Extends a c
Extends-trans a b c (xs, e) (ys, e') =
    (ys ++ xs, e' ∙ ap (λ l. ys ++ l) e ∙ sym (append_assoc ys xs a))

-- If a test case's run ended normally, the map has its bits, or it is known.
abbrev IsMerged : List ℕ → Testcase → Type 0
IsMerged map t = t.ret ≡ exited 0 → AllCovered map t.bitmap

abbrev pub WasMerged : List ℕ → Testcase → Type 0
WasMerged map t = t.ret ≡ exited 0 → IsKnown map t.bitmap

All_later :
    (map later : List ℕ) (ts : List Testcase)
    → Grows map later
    → All (IsMerged map) ts
    → All (WasMerged later) ts
All_later map later [] grows h = tt
All_later map later (t ∷ ts) grows (h, hs) = (
  λ normal. AllCovered-IsKnown later t.bitmap (AllCovered-Grows t.bitmap grows (h normal)),
  All_later map later ts grows hs,
)

record SyncedAll (ts : List Testcase) (e : Executor) (r : Option Executor) : Type 0 where
  after : Executor
  run : r ≡ some after
  counted : Counted after
  size : length after.afl_map ≡ length e.afl_map
  solved : after.solved_seeds ≡ e.solved_seeds
  grows : Grows e.afl_map after.afl_map
  covered : All (IsMerged after.afl_map) ts
  queue : Extends e.concolic_queue after.concolic_queue
  hangs : Extends e.concolic_hangs after.concolic_hangs
  crashes : Extends e.concolic_crash after.concolic_crash

pub queue-Extends :
    (name content : Bytes) (b : Bool) (old : Files)
    → Extends old (if b then old else (name, content) ∷ old)
queue-Extends name content true old = ([], refl)
queue-Extends name content false old = ((name, content) ∷ [], refl)

pub All-fits :
    (n m : ℕ) (ts : List Testcase)
    → m ≡ n
    → All (λ t. n ≤ length t.bitmap) ts
    → All (λ t. m ≤ length t.bitmap) ts
All-fits n m [] e h = tt
All-fits n m (t ∷ ts) e (h, hs) = (omega arith, All-fits n m ts e hs)

module _ (u : Unicode) (src : Bytes) where
  sync_all-SyncedAll :
      (ts : List Testcase) (e : Executor)
      → Counted e
      → All (λ t. length e.afl_map ≤ length t.bitmap) ts
      → SyncedAll ts e (sync_all src ts e)
  unfolding sync_all
  sync_all-SyncedAll [] e inv h = record {
    after = e;
    run = refl;
    counted = inv;
    size = refl;
    solved = refl;
    grows = start e.afl_map;
    covered = tt;
    queue = ([], refl);
    hangs = ([], refl);
    crashes = ([], refl);
  }
  sync_all-SyncedAll (t ∷ ts) e inv (h, hs) =
      let s = sync_seed-Synced u t src (codes "concolic") e inv h in
      let rest =
        sync_all-SyncedAll ts s.after s.counted
          (All-fits (length e.afl_map) (length s.after.afl_map) ts s.size hs) in
      rw s.run (record {
        after = rest.after;
        run = rest.run;
        counted = rest.counted;
        size = rest.size ∙ s.size;
        solved = rest.solved ∙ s.solved;
        grows = Grows_trans s.grows rest.grows;
        covered = (λ normal. AllCovered-Grows t.bitmap rest.grows (s.covered normal), rest.covered);
        queue =
            Extends-trans e.concolic_queue s.after.concolic_queue rest.after.concolic_queue
              (rw s.queue (queue-Extends _ t.content (s.cov_increase == 0) e.concolic_queue))
              rest.queue;
        hangs =
            Extends-trans e.concolic_hangs s.after.concolic_hangs rest.after.concolic_hangs s.hangs
              rest.hangs;
        crashes =
            Extends-trans e.concolic_crash s.after.concolic_crash rest.after.concolic_crash
              s.crashes rest.crashes;
      })

-- The file of the fuzzer's bitmap is not longer than the map.
abbrev pub FileFits : Option Bytes → List ℕ → Type 0
FileFits none bs = Unit {0}
FileFits (some afl) bs = length afl ≤ length bs

update_bytes-some :
    (bs afl : List ℕ)
    → length afl ≤ length bs
    → (bs' : List ℕ) × (update_bytes bs afl ≡ some bs') × (length bs' ≡ length bs)
unfolding update_bytes
update_bytes-some bs [] fits = (bs, refl, refl)
update_bytes-some [] (a ∷ afl) fits = absurd (omega arith)
update_bytes-some (b ∷ bs) (a ∷ afl) fits =
    let (bs', run, size) = update_bytes-some bs afl (omega arith) in
    (_ ∷ bs', ap (cons _) run, omega (arith, size))

pub update_bitmap-some :
    (bs : List ℕ) (file : Option Bytes)
    → FileFits file bs
    → (bs' : List ℕ) × (update_bitmap bs file ≡ some bs') × (length bs' ≡ length bs)
unfolding update_bitmap
update_bitmap-some bs none fits = (bs, refl, refl)
update_bitmap-some bs (some afl) fits = update_bytes-some bs afl fits

-- What __solve_seed leaves.
pub record Solves (u : Unicode) (name : Bytes) (ts : List Testcase) (e : Executor)
    (r : Option Executor) : Type 0 where
  pub after : Executor
  pub run : r ≡ some after
  pub counted : Counted after
  pub size : length after.afl_map ≡ length e.afl_map
  pub solved : after.solved_seeds ≡ name ∷ e.solved_seeds
  pub known : (later : Executor) → Reaches u after later → All (WasMerged later.afl_map) ts
  pub queue : Extends e.concolic_queue after.concolic_queue
  pub hangs : Extends e.concolic_hangs after.concolic_hangs
  pub crashes : Extends e.concolic_crash after.concolic_crash
  pub again :
      (later : Executor)
      → Reaches u after later
      → (file : Option Bytes) (ts' : List Testcase) → solve_seed u name file ts' later ≡ some later

pub solved_already :
    (u : Unicode) (name : Bytes) (file : Option Bytes) (ts : List Testcase) (e : Executor)
    → is_solved name e.solved_seeds ≡ true
    → solve_seed u name file ts e ≡ some e
unfolding solve_seed
solved_already u name file ts e h = rw h refl

pub is_solved_first : (name : Bytes) (solved : List Bytes) → is_solved name (name ∷ solved) ≡ true
unfolding is_solved
is_solved_first name solved = rw (text_eq_self name) refl

-- A seed that is not solved yet, in a state whose counters number the saved files, with a bitmap file
-- not longer than the map and test cases whose maps are not shorter: __solve_seed raises no
-- exception; the counters still number the files; the map keeps its length; the seed is the one that
-- is solved more; and every file that was saved stays as it was. In this state and in every one to
-- which calls of __solve_seed and __crack_seed that raise no exception then lead, whatever they are
-- given, every test case whose run ended normally counts as known, and __solve_seed of the seed
-- changes nothing.
pub solve_seed-Solves :
    (u : Unicode) (name : Bytes) (file : Option Bytes) (ts : List Testcase) (e : Executor)
    → Counted e
    → is_solved name e.solved_seeds ≡ false
    → FileFits file e.afl_map
    → All (λ t. length e.afl_map ≤ length t.bitmap) ts
    → Solves u name ts e (solve_seed u name file ts e)
unfolding solve_seed
solve_seed-Solves u name file ts e inv unsolved file_fits fits =
    let (bitmap, updates, size) = update_bitmap-some e.afl_map file file_fits in
    let s =
      sync_all-SyncedAll u (identify_id u name) ts (record e { afl_map = bitmap })
        (record { queue = inv.queue; hangs = inv.hangs; crashes = inv.crashes })
        (All-fits (length e.afl_map) (length bitmap) ts size fits) in
    rw (unsolved, updates, s.run)
      (record {
        after = record s.after { solved_seeds = name ∷ s.after.solved_seeds };
        run = refl;
        counted = record {
          queue = s.counted.queue;
          hangs = s.counted.hangs;
          crashes = s.counted.crashes;
        };
        size = s.size ∙ size;
        solved = ap (◌∷◌ name) s.solved;
        known = λ later reached.
            All_later s.after.afl_map later.afl_map ts (Reaches-Follows u reached).grows s.covered;
        queue = s.queue;
        hangs = s.hangs;
        crashes = s.crashes;
        again = λ later reached file' ts'.
            solved_already u name file' ts' later
              ((Reaches-Follows u reached).solved name (is_solved_first name s.after.solved_seeds));
      })

-- ===== src/Fuzzer/Executor.antt =====
-- __sync_seed and __solve_seed of src/fuzz/executor.py. What afl-showmap says of a test case and
-- what the concolic executor generates are arguments; `none` is an exception.
pub mod Numbered
pub mod Saves
pub mod Later
pub mod Solves
use co_fuzz.Prelude.{
  ℕ, ◌+◌, Bool, true, false, ◌||◌, List, [], ◌∷◌, Option, none, some, ◌==◌, if◌then◌else◌,
}
use co_fuzz.Prelude.Text.{Bytes, codes, text_eq}
use co_fuzz.Tracer.Python.{Unicode}
use co_fuzz.Fuzzer.Bitmap.{is_interesting, update_bitmap}
use co_fuzz.Fuzzer.Names.{seed_name, identify_id}

-- A directory: names and contents, the newest first.
abbrev pub Files : Type 0
Files = List (Bytes × Bytes)

-- Is there a file of that name?
unfoldable pub has_file : (name : Bytes) → Files → Bool
has_file name [] = false
has_file name ((n, c) ∷ files) = text_eq n name || has_file name files

unfoldable pub replace_file : (name content : Bytes) → Files → Files
replace_file name content [] = []
replace_file name content ((n, c) ∷ files) =
    (n, if text_eq n name then content else c) ∷ replace_file name content files

-- shutil.copy2 into a directory.
unfoldable pub save : (name content : Bytes) → Files → Files
unfolding has_file replace_file
save name content files =
    if has_file name files then replace_file name content files else (name, content) ∷ files

-- How afl-showmap ended; a signal gives a negative code.
pub data Exit : Type 0 where
  exited : ℕ → Exit
  killed : Exit

-- A test case, and what exec_showmap returns of it.
pub record Testcase : Type 0 where
  pub content : Bytes
  pub bitmap : Bytes
  pub ret : Exit

pub record Executor : Type 0 where
  pub afl_map : List ℕ
  pub concolic_queue : Files
  pub concolic_hangs : Files
  pub concolic_crash : Files
  pub interesting_cnt : ℕ
  pub crash_cnt : ℕ
  pub hang_cnt : ℕ
  pub solved_seeds : List Bytes

-- The seed is saved if it increases the coverage.
unfoldable pub save_interesting :
    (cov_increase : ℕ) → Testcase → (src_id op : Bytes) → Executor → Executor
unfolding save seed_name
save_interesting cov_increase t src_id op e = if cov_increase == 0 then e else record e {
  concolic_queue = save (seed_name e.interesting_cnt src_id op) t.content e.concolic_queue;
  interesting_cnt = e.interesting_cnt + 1;
}

unfoldable pub save_hang : Testcase → (src_id op : Bytes) → Executor → Executor
unfolding save seed_name
save_hang t src_id op e = record e {
  concolic_hangs = save (seed_name e.hang_cnt src_id op) t.content e.concolic_hangs;
  hang_cnt = e.hang_cnt + 1;
}

unfoldable pub save_crash : Testcase → (src_id op : Bytes) → Executor → Executor
unfolding save seed_name
save_crash t src_id op e = record e {
  concolic_crash = save (seed_name e.crash_cnt src_id op) t.content e.concolic_crash;
  crash_cnt = e.crash_cnt + 1;
}

-- The branch of a run that ended normally, behind is_interesting.
unfoldable pub save_covering :
    Option (ℕ × List ℕ) → Testcase → (src_id op : Bytes) → Executor → Option (ℕ × Executor)
unfolding save_interesting
save_covering none t src_id op e = none
save_covering (some (cov_increase, bitmap)) t src_id op e =
    some (cov_increase, save_interesting cov_increase t src_id op (record e { afl_map = bitmap }))

unfoldable pub sync_exited :
    (ret : ℕ) → Testcase → (src_id op : Bytes) → Executor → Option (ℕ × Executor)
unfolding save_covering save_hang save_crash is_interesting
sync_exited ret t src_id op e =
    if ret == 0
    then save_covering (is_interesting e.afl_map t.bitmap) t src_id op e
    else if ret == 1
    then some (0, save_hang t src_id op e)
    else if ret == 2
    then some (0, save_crash t src_id op e)
    else some (0, e)

-- __sync_seed(testcase, src_id, op)
unfoldable pub sync_seed : Testcase → (src_id op : Bytes) → Executor → Option (ℕ × Executor)
unfolding sync_exited
sync_seed t src_id op e = elim t.ret [
  | exited ret ↦ sync_exited ret t src_id op e
  | killed ↦ some (0, e)
]

infixl 5 ◌>>=◌
abbrev pub ◌>>=◌ : {A B : Type 0} → Option A → (A → Option B) → Option B
none >>= next = none
some a >>= next = next a

-- The loop over the test cases of __solve_seed.
unfoldable pub sync_all : (src_id : Bytes) → List Testcase → Executor → Option Executor
unfolding sync_seed
sync_all src_id [] e = some e
sync_all src_id (t ∷ ts) e =
    sync_seed t src_id (codes "concolic") e >>= λ (cov_increase, e'). sync_all src_id ts e'

unfoldable pub is_solved : Bytes → List Bytes → Bool
is_solved name [] = false
is_solved name (s ∷ solved) = text_eq s name || is_solved name solved

-- __solve_seed, for the test cases that the concolic executor generated and the bytes of the fuzzer's
-- bitmap.
unfoldable pub solve_seed :
    Unicode
    → (name : Bytes) → (bitmap_file : Option Bytes) → List Testcase
    → Executor
    → Option Executor
unfolding sync_all is_solved identify_id update_bitmap
solve_seed u name bitmap_file testcases e = if is_solved name e.solved_seeds then some e else do
  bitmap ← update_bitmap e.afl_map bitmap_file
  e' ← sync_all (identify_id u name) testcases (record e { afl_map = bitmap })
  some (record e' { solved_seeds = name ∷ e'.solved_seeds })

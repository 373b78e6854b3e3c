-- ===== src/Fuzzer/Cracking.antt =====
-- __crack_seed of src/fuzz/executor.py. The test cases that crack_target samples for a constraint,
-- with what afl-showmap says of them, are the argument `sampler`, for the constraint's position too.
pub mod Counts
use co_fuzz.Prelude.{ℕ, ◌+◌, List, [], ◌∷◌, ◌++◌, Option, none, some, ◌==◌, if◌then◌else◌}
use co_fuzz.Prelude.Text.{Bytes, codes}
use co_fuzz.Tracer.Python.{Unicode}
use co_fuzz.Fuzzer.Bitmap.{update_bitmap}
use co_fuzz.Fuzzer.Constraints.{Constraints, dump_constraint}
use co_fuzz.Fuzzer.Names.{identify_id}
use co_fuzz.Fuzzer.Executor.{Testcase, Executor, sync_seed, ◌>>=◌}

-- cov_count, with its keys in the order of their first use.
abbrev pub Counts : Type 0
Counts = List (ℕ × ℕ)

-- cov_count[addr] += cov_increase
unfoldable pub add_count : (addr cov_increase : ℕ) → Counts → Counts
add_count addr cov_increase [] = (addr, cov_increase) ∷ []
add_count addr cov_increase ((a, n) ∷ counts) =
    let later = add_count addr cov_increase counts in
    if a == addr then (a, n + cov_increase) ∷ counts else (a, n) ∷ later

-- The loop over the test cases of one constraint.
unfoldable pub crack_testcases :
    (addr : ℕ) → (src_id : Bytes) → List Testcase → Counts → Executor → Option (Counts × Executor)
unfolding sync_seed add_count
crack_testcases addr src_id [] counts e = some (counts, e)
crack_testcases addr src_id (t ∷ ts) counts e =
    sync_seed t src_id (codes "crack") e >>= λ (cov_increase, e').
    crack_testcases addr src_id ts (add_count addr cov_increase counts) e'

-- The constraints with their addresses, in the order of the two loops.
abbrev pub with_addr : ℕ → List Bytes → List (ℕ × Bytes)
with_addr addr [] = []
with_addr addr (c ∷ cs) = (addr, c) ∷ with_addr addr cs

unfoldable pub in_order : Constraints → List (ℕ × Bytes)
in_order [] = []
in_order ((addr, cs) ∷ rest) = with_addr addr cs ++ in_order rest

-- The loops over the constraints, of which `k` are done.
unfoldable pub crack_constraints :
    (sampler : ℕ → Bytes → List Testcase)
    → (k : ℕ) → (src_id : Bytes) → List (ℕ × Bytes)
    → Counts
    → Executor
    → Option (Counts × Executor)
unfolding crack_testcases
crack_constraints sampler k src_id [] counts e = some (counts, e)
crack_constraints sampler k src_id ((addr, constraint) ∷ rest) counts e =
    crack_testcases addr src_id (sampler k constraint) counts e >>= λ (counts', e').
    crack_constraints sampler (k + 1) src_id rest counts' e'

-- __crack_seed, for the log of the concolic executor and the bytes of the fuzzer's bitmap.
unfoldable pub crack_seed :
    Unicode
    → (sampler : ℕ → Bytes → List Testcase) → (name constraint_info : Bytes)
    → (bitmap_file : Option Bytes) → Executor
    → Option (Counts × Executor)
unfolding crack_constraints in_order dump_constraint update_bitmap identify_id
crack_seed u sampler name constraint_info bitmap_file e = do
  bitmap ← update_bitmap e.afl_map bitmap_file
  crack_constraints sampler 0 (identify_id u name) (in_order (dump_constraint u constraint_info)) []
      (record e { afl_map = bitmap })

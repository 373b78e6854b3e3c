-- ===== src/Fuzzer/Cracking/Counts.antt =====
-- What __crack_seed of src/fuzz/executor.py counts and keeps.
use co_fuzz.Prelude.{
  ℕ, ◌+◌, ◌<◌, ◌≤◌, ◌≡◌, refl, ap, ◌∙◌, true, false, List, [], ◌∷◌, Option, none, some, ◌==◌,
  if◌then◌else◌, length, arith, Bool-cases, inl, inr, ◌⊎◌, ltb, ltb→lt, ltb-le,
}
use co_fuzz.Prelude.Text.{Bytes, codes, All}
use co_fuzz.Tracer.Python.{Unicode}
use co_fuzz.Fuzzer.Names.{identify_id}
use co_fuzz.Fuzzer.Constraints.{dump_constraint}
use co_fuzz.Fuzzer.Executor.{Files, Testcase, Executor, sync_seed, ◌>>=◌}
use co_fuzz.Fuzzer.Executor.Numbered.{Counted, Extends}
use co_fuzz.Fuzzer.Executor.Saves.{sync_seed-Synced}
use co_fuzz.Fuzzer.Executor.Solves.{
  All-fits, Extends-trans, queue-Extends, FileFits, update_bitmap-some,
}
use co_fuzz.Fuzzer.Cracking.{
  Counts, add_count, crack_testcases, in_order, crack_constraints, crack_seed,
}

abbrev pub total : Counts → ℕ
total [] = 0
total ((a, n) ∷ counts) = n + total counts

total-add_count :
    (addr n : ℕ) (counts : Counts) → total (add_count addr n counts) ≡ n + total counts
unfolding add_count
total-add_count addr n [] = refl
total-add_count addr n ((a, m) ∷ counts) = ground (arith, total-add_count addr n counts)

-- The counters number the files, no file is replaced or lost, and the queue grows by one file at most
-- for each covered byte that is counted, so not at all where none is.
pub record Cracks (counts : Counts) (e : Executor) (r : Option (Counts × Executor)) : Type 0 where
  pub counts_after : Counts
  pub after : Executor
  pub run : r ≡ some (counts_after, after)
  pub counted : Counted after
  pub size : length after.afl_map ≡ length e.afl_map
  pub solved : after.solved_seeds ≡ e.solved_seeds
  pub queue : Extends e.concolic_queue after.concolic_queue
  pub hangs : Extends e.concolic_hangs after.concolic_hangs
  pub crashes : Extends e.concolic_crash after.concolic_crash
  pub rewarded :
      length after.concolic_queue + total counts ≤ length e.concolic_queue + total counts_after
  pub grown : length e.concolic_queue ≤ length after.concolic_queue
  pub more : total counts ≤ total counts_after
  pub saved :
      total counts < total counts_after → length e.concolic_queue < length after.concolic_queue

Cracks-none : (counts : Counts) (e : Executor) → Counted e → Cracks counts e (some (counts, e))
Cracks-none counts e inv = record {
  counts_after = counts;
  after = e;
  run = refl;
  counted = inv;
  size = refl;
  solved = refl;
  queue = ([], refl);
  hangs = ([], refl);
  crashes = ([], refl);
  rewarded = omega arith;
  grown = omega arith;
  more = omega arith;
  saved = λ up. absurd (omega (arith, up));
}

-- The queue grows by a file exactly where a byte is counted.
length-queue :
    (cov : ℕ) (name content : Bytes) (old : Files)
    → length (if cov == 0 then old else (name, content) ∷ old)
      ≡ length old + (if cov == 0 then 0 else 1)
length-queue cov name content old = ground arith

-- The numbers of the files and of the bytes, before and after a test case.
one_file :
    (cov files files' bytes bytes' : ℕ)
    → files' ≡ files + (if cov == 0 then 0 else 1)
    → bytes' ≡ cov + bytes
    → (files' + bytes ≤ files + bytes') × (files ≤ files') × (bytes < bytes' → files < files')
one_file cov files files' bytes bytes' f b =
    (ground (arith, f, b), ground (arith, f), λ up. ground (arith, f, b, up))

-- What follows a part of the loops.
Cracks-bind :
    (counts : Counts) (e : Executor) (r : Option (Counts × Executor))
    (next : Counts × Executor → Option (Counts × Executor))
    → (c : Cracks counts e r) → Cracks c.counts_after c.after (next (c.counts_after, c.after))
    → Cracks counts e (r >>= next)
Cracks-bind counts e r next c d = rw c.run (record {
  counts_after = d.counts_after;
  after = d.after;
  run = d.run;
  counted = d.counted;
  size = d.size ∙ c.size;
  solved = d.solved ∙ c.solved;
  queue =
      Extends-trans e.concolic_queue c.after.concolic_queue d.after.concolic_queue c.queue d.queue;
  hangs =
      Extends-trans e.concolic_hangs c.after.concolic_hangs d.after.concolic_hangs c.hangs d.hangs;
  crashes =
      Extends-trans e.concolic_crash c.after.concolic_crash d.after.concolic_crash c.crashes
        d.crashes;
  rewarded = omega (arith, c.rewarded, d.rewarded);
  grown = omega (arith, c.grown, d.grown);
  more = omega (arith, c.more, d.more);
  saved = saved_by (Bool-cases (ltb (total counts) (total c.counts_after)));
})
  where
    saved_by :
        (ltb (total counts) (total c.counts_after) ≡ true)
          ⊎ (ltb (total counts) (total c.counts_after) ≡ false)
        → total counts < total d.counts_after
        → length e.concolic_queue < length d.after.concolic_queue
    saved_by (inl up) less =
        omega (arith, c.saved (ltb→lt (total counts) (total c.counts_after) up), d.grown)
    saved_by (inr same) less = omega (
      arith,
      c.grown,
      d.saved (omega (arith, less, ltb-le (total counts) (total c.counts_after) same)),
    )

-- Every test case's map is as long as the fuzzer's.
abbrev pub AllFit : (sampler : ℕ → Bytes → List Testcase) → ℕ → Type 0
AllFit sampler n =
    (k : ℕ) (constraint : Bytes) → All (λ t. n ≤ length t.bitmap) (sampler k constraint)

module _ (u : Unicode) (src : Bytes) where
  sync_seed-Cracks :
      (addr : ℕ) (t : Testcase) (counts : Counts) (e : Executor)
      → Counted e
      → length e.afl_map ≤ length t.bitmap
      → Cracks counts e (
          sync_seed t src (codes "crack") e >>= λ (cov_increase, e').
          some (add_count addr cov_increase counts, e'))
  sync_seed-Cracks addr t counts e inv fits =
      let s = sync_seed-Synced u t src (codes "crack") e inv fits in
      let sum = total-add_count addr s.cov_increase counts in
      let files : length s.after.concolic_queue
          ≡ length e.concolic_queue + (if s.cov_increase == 0 then 0 else 1) =
        ap length s.queue ∙ length-queue s.cov_increase _ t.content e.concolic_queue in
      let (rewarded, grown, saved) =
        one_file s.cov_increase (length e.concolic_queue) (length s.after.concolic_queue)
          (total counts) (total (add_count addr s.cov_increase counts)) files sum in
      rw s.run (record {
        counts_after = add_count addr s.cov_increase counts;
        after = s.after;
        run = refl;
        counted = s.counted;
        size = s.size;
        solved = s.solved;
        queue = rw s.queue (queue-Extends _ t.content (s.cov_increase == 0) e.concolic_queue);
        hangs = s.hangs;
        crashes = s.crashes;
        rewarded = rewarded;
        grown = grown;
        more = omega (arith, sum);
        saved = saved;
      })

  -- The test cases of one constraint.
  crack_testcases-Cracks :
      (addr : ℕ) (ts : List Testcase) (counts : Counts) (e : Executor)
      → Counted e
      → All (λ t. length e.afl_map ≤ length t.bitmap) ts
      → Cracks counts e (crack_testcases addr src ts counts e)
  unfolding crack_testcases
  crack_testcases-Cracks addr [] counts e inv h = Cracks-none counts e inv
  crack_testcases-Cracks addr (t ∷ ts) counts e inv (h, hs) =
      let c = sync_seed-Cracks addr t counts e inv h in
      let rest =
        crack_testcases-Cracks addr ts c.counts_after c.after c.counted
          (All-fits (length e.afl_map) (length c.after.afl_map) ts c.size hs) in
      rw
        (regroup (sync_seed t src (codes "crack") e) (λ cov. add_count addr cov counts)
          (λ (cs, e'). crack_testcases addr src ts cs e'))
        (Cracks-bind counts e _ (λ (cs, e'). crack_testcases addr src ts cs e') c rest)
    where
      regroup :
          (r : Option (ℕ × Executor)) (f : ℕ → Counts)
          (next : Counts × Executor → Option (Counts × Executor))
          → (r >>= λ (cov, e'). next (f cov, e')) ≡ ((r >>= λ (cov, e'). some (f cov, e')) >>= next)
      regroup none f next = refl
      regroup (some (cov, e')) f next = refl

  crack_constraints-Cracks :
      (sampler : ℕ → Bytes → List Testcase) (k : ℕ) (pairs : List (ℕ × Bytes)) (counts : Counts)
      (e : Executor)
      → Counted e
      → AllFit sampler (length e.afl_map)
      → Cracks counts e (crack_constraints sampler k src pairs counts e)
  unfolding crack_constraints
  crack_constraints-Cracks sampler k [] counts e inv fit = Cracks-none counts e inv
  crack_constraints-Cracks sampler k ((addr, constraint) ∷ pairs) counts e inv fit =
      let c = crack_testcases-Cracks addr (sampler k constraint) counts e inv (fit k constraint) in
      Cracks-bind counts e (crack_testcases addr src (sampler k constraint) counts e)
        (λ (cs, e'). crack_constraints sampler (k + 1) src pairs cs e') c
        (crack_constraints-Cracks sampler (k + 1) pairs c.counts_after c.after c.counted (λ j d.
          All-fits (length e.afl_map) (length c.after.afl_map) (sampler j d) c.size (fit j d)))

-- Another map in front of the same files.
Cracks-map :
    (counts : Counts) (e : Executor) (bitmap : List ℕ) (r : Option (Counts × Executor))
    → length bitmap ≡ length e.afl_map
    → Cracks counts (record e { afl_map = bitmap }) r
    → Cracks counts e r
Cracks-map counts e bitmap r same c = record {
  counts_after = c.counts_after;
  after = c.after;
  run = c.run;
  counted = c.counted;
  size = c.size ∙ same;
  solved = c.solved;
  queue = c.queue;
  hangs = c.hangs;
  crashes = c.crashes;
  rewarded = c.rewarded;
  grown = c.grown;
  more = c.more;
  saved = c.saved;
}

-- In a state whose counters number the saved files, with a bitmap file not longer than the map and
-- sampled test cases whose maps are not shorter, __crack_seed raises no exception, whatever the log of
-- the concolic executor says. The counters still number the files and every saved file stays as it
-- was. The queue gains no more files than the increases that are counted for the addresses sum up to,
-- and at least one file where any is counted.
pub crack_seed-Cracks :
    (u : Unicode) (sampler : ℕ → Bytes → List Testcase) (name constraint_info : Bytes)
    (file : Option Bytes) (e : Executor)
    → Counted e
    → FileFits file e.afl_map
    → AllFit sampler (length e.afl_map)
    → Cracks [] e (crack_seed u sampler name constraint_info file e)
unfolding crack_seed
crack_seed-Cracks u sampler name constraint_info file e inv file_fits fit =
    let (bitmap, updates, same) = update_bitmap-some e.afl_map file file_fits in
    let e' = record e { afl_map = bitmap } in
    rw updates (
      Cracks-map [] e bitmap _ same (
        crack_constraints-Cracks u (identify_id u name) sampler 0
          (in_order (dump_constraint u constraint_info)) [] e'
          (record { queue = inv.queue; hangs = inv.hangs; crashes = inv.crashes })
          (λ k d. All-fits (length e.afl_map) (length bitmap) (sampler k d) same (fit k d))))

-- ===== src/Fuzzer/Executor/Saves.antt =====
-- What __sync_seed of src/fuzz/executor.py keeps: no saved file is ever replaced, and what was run once
-- is not new again.
use co_fuzz.Prelude.{
  ℕ, ◌+◌, ◌≤◌, ◌≡◌, ◌≢◌, refl, Bool, true, false, List, [], ◌∷◌, Option, some, ◌==◌, if◌then◌else◌,
  length, arith, Bool-cases, inl, inr, ==_iff,
}
use co_fuzz.Prelude.Text.{Bytes}
use co_fuzz.Tracer.Python.{Unicode}
use co_fuzz.Fuzzer.Bitmap.{is_interesting}
use co_fuzz.Fuzzer.Bitmap.Learns.{
  Learns, is_interesting-Learns, joined, new_bytes, AllCovered, AllCovered-joined, Grows, start,
  merged,
}
use co_fuzz.Fuzzer.Names.{seed_name}
use co_fuzz.Fuzzer.Executor.{
  Exit, exited, killed, Testcase, Executor, save_interesting, save_hang, save_crash, save_covering,
  sync_exited, sync_seed,
}
use co_fuzz.Fuzzer.Executor.Numbered.{Numbered, Counted, save-Numbered, Extends}

-- What __sync_seed leaves: the counters count, no file is replaced or lost, the map only grows, and
-- a seed is saved exactly where its coverage is new.
pub record Synced (t : Testcase) (src op : Bytes) (e : Executor) (r : Option (ℕ × Executor))
    : Type 0 where
  pub cov_increase : ℕ
  pub after : Executor
  pub run : r ≡ some (cov_increase, after)
  pub counted : Counted after
  pub grows : Grows e.afl_map after.afl_map
  pub size : length after.afl_map ≡ length e.afl_map
  pub covered : t.ret ≡ exited 0 → AllCovered after.afl_map t.bitmap
  pub queue : after.concolic_queue ≡ (
      if cov_increase == 0
      then e.concolic_queue
      else (seed_name e.interesting_cnt src op, t.content) ∷ e.concolic_queue)
  pub hangs : Extends e.concolic_hangs after.concolic_hangs
  pub crashes : Extends e.concolic_crash after.concolic_crash
  pub solved : after.solved_seeds ≡ e.solved_seeds

length-joined : (bs ts : List ℕ) → length bs ≤ length ts → length (joined bs ts) ≡ length bs
length-joined [] ts fits = refl
length-joined (b ∷ bs) [] fits = absurd (omega arith)
length-joined (b ∷ bs) (t ∷ ts) fits = omega (arith, length-joined bs ts (omega arith))

module _ (u : Unicode) (t : Testcase) (src op : Bytes) (e : Executor) (inv : Counted e) where
  -- A run that leaves the map: a signal, an unknown code.
  idle-Synced : t.ret ≢ exited 0 → Synced t src op e (some (0, e))
  idle-Synced other = record {
    cov_increase = 0;
    after = e;
    run = refl;
    counted = inv;
    grows = start e.afl_map;
    size = refl;
    covered = λ normal. absurd (other normal);
    queue = refl;
    hangs = ([], refl);
    crashes = ([], refl);
    solved = refl;
  }

  hang-Synced : t.ret ≢ exited 0 → Synced t src op e (some (0, save_hang t src op e))
  unfolding save_hang
  hang-Synced other =
      let name = seed_name e.hang_cnt src op in
      let saved = save-Numbered u e.concolic_hangs e.hang_cnt src op t.content inv.hangs in
      record {
        cov_increase = 0;
        after = record e {
          concolic_hangs = (name, t.content) ∷ e.concolic_hangs;
          hang_cnt = e.hang_cnt + 1;
        };
        run = rw saved refl;
        counted = record {
          queue = inv.queue;
          hangs = (e.hang_cnt, src, op, refl, refl, inv.hangs);
          crashes = inv.crashes;
        };
        grows = start e.afl_map;
        size = refl;
        covered = λ normal. absurd (other normal);
        queue = refl;
        hangs = ((name, t.content) ∷ [], refl);
        crashes = ([], refl);
        solved = refl;
      }

  crash-Synced : t.ret ≢ exited 0 → Synced t src op e (some (0, save_crash t src op e))
  unfolding save_crash
  crash-Synced other =
      let name = seed_name e.crash_cnt src op in
      let saved = save-Numbered u e.concolic_crash e.crash_cnt src op t.content inv.crashes in
      record {
        cov_increase = 0;
        after = record e {
          concolic_crash = (name, t.content) ∷ e.concolic_crash;
          crash_cnt = e.crash_cnt + 1;
        };
        run = rw saved refl;
        counted = record {
          queue = inv.queue;
          hangs = inv.hangs;
          crashes = (e.crash_cnt, src, op, refl, refl, inv.crashes);
        };
        grows = start e.afl_map;
        size = refl;
        covered = λ normal. absurd (other normal);
        queue = refl;
        hangs = ([], refl);
        crashes = ((name, t.content) ∷ [], refl);
        solved = refl;
      }

  -- A run that ended normally, with the map that is_interesting leaves.
  module _ (fits : length e.afl_map ≤ length t.bitmap) where
    learnt : Learns e.afl_map t.bitmap (is_interesting e.afl_map t.bitmap)
    learnt = is_interesting-Learns e.afl_map t.bitmap fits

    abbrev merged_map : List ℕ
    merged_map = joined e.afl_map t.bitmap

    abbrev count : ℕ
    count = new_bytes e.afl_map t.bitmap

    queue-Numbered :
        (new : Bool)
        → (count == 0) ≡ new
        → Numbered
            (if new
              then e.concolic_queue
              else (seed_name e.interesting_cnt src op, t.content) ∷ e.concolic_queue)
            (if new then e.interesting_cnt else e.interesting_cnt + 1)
    queue-Numbered true at = inv.queue
    queue-Numbered false at = (e.interesting_cnt, src, op, refl, refl, inv.queue)

    abbrev with_seed : Executor
    with_seed = record e {
      afl_map = merged_map;
      concolic_queue =
          if count == 0
          then e.concolic_queue
          else (seed_name e.interesting_cnt src op, t.content) ∷ e.concolic_queue;
      interesting_cnt = if count == 0 then e.interesting_cnt else e.interesting_cnt + 1;
    }

    save_interesting-run :
        save_interesting count t src op (record e { afl_map = merged_map }) ≡ with_seed
    unfolding save_interesting
    save_interesting-run = elim (Bool-cases (count == 0)) [
      | inl known ↦ rw known refl
      | inr new ↦
          rw (new, save-Numbered u e.concolic_queue e.interesting_cnt src op t.content inv.queue)
            refl
    ]

    covering-Synced :
        Synced t src op e (save_covering (is_interesting e.afl_map t.bitmap) t src op e)
    unfolding save_covering
    covering-Synced = record {
      cov_increase = count;
      after = with_seed;
      run = rw (learnt.run, save_interesting-run) refl;
      counted = record {
        queue = queue-Numbered (count == 0) refl;
        hangs = inv.hangs;
        crashes = inv.crashes;
      };
      grows = merged (start e.afl_map) t.bitmap count learnt.run;
      size = length-joined e.afl_map t.bitmap fits;
      covered = λ _. AllCovered-joined e.afl_map t.bitmap fits;
      queue = refl;
      hangs = ([], refl);
      crashes = ([], refl);
      solved = refl;
    }

  sync_exited-Synced :
      (ret : ℕ)
      → t.ret ≡ exited ret
      → (ret ≡ 0 → length e.afl_map ≤ length t.bitmap)
      → Synced t src op e (sync_exited ret t src op e)
  unfolding sync_exited
  sync_exited-Synced ret at fits = elim (Bool-cases (ret == 0)) [
    | inl normal ↦ rw normal (covering-Synced (fits ((==_iff ret 0).0 normal)))
    | inr abnormal ↦
        let other : t.ret ≢ exited 0 = λ zero_ret. ground (arith, at, zero_ret) in
        elim (Bool-cases (ret == 1)) [
          | inl hung ↦ rw (abnormal, hung) (hang-Synced other)
          | inr not_hung ↦ elim (Bool-cases (ret == 2)) [
            | inl crashed ↦ rw (abnormal, not_hung, crashed) (crash-Synced other)
            | inr unknown ↦ rw (abnormal, not_hung, unknown) (idle-Synced other)
          ]
        ]
  ]

-- Any test case, in a state whose counters count.
pub sync_seed-Synced :
    (u : Unicode) (t : Testcase) (src op : Bytes) (e : Executor)
    → Counted e
    → length e.afl_map ≤ length t.bitmap
    → Synced t src op e (sync_seed t src op e)
unfolding sync_seed
sync_seed-Synced u t src op e inv fits = by_exit t.ret refl
  where
    by_exit :
        (ret : Exit)
        → t.ret ≡ ret
        → Synced t src op e
            (elim ret [ exited r ↦ sync_exited r t src op e | killed ↦ some (0, e) ])
    by_exit (exited r) at = sync_exited-Synced u t src op e inv r at (λ _. fits)
    by_exit killed at = idle-Synced u t src op e inv (λ normal. ground (arith, at, normal))

-- ===== src/Fuzzer/Loop/Turn.antt =====
-- One turn of the loop of run of src/fuzz/executor.py, and any number of turns.
use co_fuzz.Prelude.{
  ◌⊎◌, inl, inr, ℕ, zero, suc, ◌+◌, ◌*◌, ◌<◌, ◌≤◌, ◌≡◌, refl, sym, ap, subst, ◌∙◌, true, ◌||◌, List,
  [], ◌∷◌, Option, some, length, arith,
}
use co_fuzz.Prelude.Text.{Bytes, All}
use co_fuzz.Tracer.Python.{Unicode}
use co_fuzz.Tracer.State.{CovState, has_seed}
use co_fuzz.Tracer.State.Node.{child_of}
use co_fuzz.Fuzzer.Executor.Numbered.{Extends}
use co_fuzz.Fuzzer.Depot.{all, Choice, Depot, open_edges, Chosen, concolic_candidate}
use co_fuzz.Fuzzer.Depot.Picks.{pairs_in, is_key, open_edges-is_key, concolic_candidate-Picks}
use co_fuzz.Fuzzer.Hits.{parse_bitmap}
use co_fuzz.Fuzzer.Hits.Logs.{length-parse_bitmap}
use co_fuzz.Fuzzer.Loop.{
  World, Hybrid, seek_trace_seeds, trace_corpus, resolve_fuzz_hits, are_indices, candidate_num,
  crack_seed_max, resolve_candidate, unsolved_of, use_candidate, run_turn,
}
use co_fuzz.Fuzzer.Loop.Tracing.{
  Traceable, KeysBelow, is_key-below, any_logs, trace_corpus-KeysBelow, trace_corpus-child_of,
  named, seek_trace_seeds-Seeks,
}
use co_fuzz.Fuzzer.Loop.Solving.{Sound, Keeps, Solvable}
use co_fuzz.Fuzzer.Loop.Cracking.{Crackable, AllSolved}
use co_fuzz.Fuzzer.Loop.Candidates.{use_candidate-Uses}

-- What the other processes and the files give in one turn. The fuzzer writes four bytes for each
-- block.
pub record Works (u : Unicode) (map_size : ℕ) (w : World) : Type 0 where
  pub traceable : Traceable map_size w
  pub crackable : Crackable u map_size w
  pub solvable : Solvable map_size w
  pub bit_arr : Bytes
  pub bb_file : w.bb_bitmap ≡ some bit_arr
  pub bb_size : length bit_arr ≡ 4 * map_size

-- The invariant, with the execution tree's blocks below map_size.
pub record Ready (map_size : ℕ) (s : Hybrid) : Type 0 where
  pub sound : Sound map_size s
  pub below : KeysBelow map_size s.depot.cov_state

all-below :
    (map_size : ℕ) (m : CovState) (hits addrs : List ℕ)
    → KeysBelow map_size m
    → length hits ≡ map_size
    → all (is_key m) addrs ≡ true
    → are_indices hits addrs ≡ true
unfolding are_indices
all-below map_size m hits [] below size h = refl
all-below map_size m hits (a ∷ addrs) below size h =
    ground (arith, is_key-below map_size m a below, all-below map_size m hits addrs below size)

resolve_candidate-some :
    (choice : Choice) (map_size : ℕ) (hits : List ℕ) (d : Depot)
    → KeysBelow map_size d.cov_state
    → length hits ≡ map_size
    → resolve_candidate choice hits d
      ≡ some (concolic_candidate choice candidate_num crack_seed_max d)
unfolding resolve_candidate
resolve_candidate-some choice map_size hits d below size =
    let found =
      all-below map_size d.cov_state hits (open_edges d d.cov_state) below size
        (open_edges-is_key d d.cov_state) in
    ground (arith, found)

module _ (u : Unicode) (map_size : ℕ) (w : World) where
  -- The tree with the new seeds' runs, and the candidates that are chosen on it.
  abbrev pub traced_tree : Hybrid → CovState
  traced_tree s =
      trace_corpus u w.trace_info (seek_trace_seeds w.choice.name w.queue s.traced_seeds).0
        s.depot.cov_state

  abbrev pub chosen_of : Hybrid → Chosen
  chosen_of s =
      concolic_candidate w.choice candidate_num crack_seed_max
        (record s.depot { cov_state = traced_tree s })

-- What one turn does: the files and the solved seeds stay, the traced seeds are those of the queue
-- more, the tree gains the logged edges of the newly traced seeds, and the turn makes progress.
pub record Turns (u : Unicode) (map_size : ℕ) (w : World) (works : Works u map_size w) (s : Hybrid)
    (r : Option Hybrid) : Type 0 where
  pub after : Hybrid
  pub run : r ≡ some after
  pub ready : Ready map_size after
  pub queue : Extends s.executor.concolic_queue after.executor.concolic_queue
  pub hangs : Extends s.executor.concolic_hangs after.executor.concolic_hangs
  pub crashes : Extends s.executor.concolic_crash after.executor.concolic_crash
  pub solved : Keeps s.executor.solved_seeds after.executor.solved_seeds
  pub traced :
      (n : Bytes)
      → has_seed after.traced_seeds n ≡ (has_seed s.traced_seeds n || named w.choice.name w.queue n)
  pub tree :
      (k d : ℕ)
      → child_of after.depot.cov_state k d ≡ (
          child_of s.depot.cov_state k d
          || any_logs map_size w works.traceable u
              (seek_trace_seeds w.choice.name w.queue s.traced_seeds).0
              k
              d)
  pub done :
      AllSolved w.choice.name (chosen_of u map_size w s).candidate after.executor.solved_seeds
  pub more :
      length s.depot.cracked_seed + length s.executor.solved_seeds
      ≤ length after.depot.cracked_seed + length after.executor.solved_seeds
  pub progress :
      (length (unsolved_of w.choice.name w.later_queue s.executor.solved_seeds) ≡ 0)
      ⊎ (length s.depot.cracked_seed + length s.executor.solved_seeds
          < length after.depot.cracked_seed + length after.executor.solved_seeds)

-- The pairs of the candidates are cracked, and no seed is forgotten.
no_less :
    (pairs cracked cracked' cracked'' solved solved' : ℕ)
    → cracked' + 0 ≡ cracked + pairs
    → cracked'' ≡ cracked'
    → solved ≤ solved'
    → cracked + solved ≤ cracked'' + solved'
no_less p c c' c'' s s' pairs same count = omega (arith, pairs, same, count)

none_or_some : {A : Type 0} (n : ℕ) → (0 < n → A) → (n ≡ 0) ⊎ A
none_or_some zero h = inl refl
none_or_some (suc n) h = inr (h (omega arith))

-- Either there are candidates, each with a pair that is cracked, or one more seed is solved.
grown :
    (pairs cracked cracked' cracked'' solved solved' candidates : ℕ)
    → candidates + 0 ≤ 0 + pairs
    → cracked' + 0 ≡ cracked + pairs
    → cracked'' ≡ cracked'
    → solved ≤ solved'
    → (candidates ≡ 0 → solved < solved')
    → cracked + solved < cracked'' + solved'
grown p c c' c'' s s' zero few pairs same count progress =
    omega (arith, few, pairs, same, count, progress refl)
grown p c c' c'' s s' (suc n) few pairs same count progress = omega (arith, few, pairs, same, count)

module _ (u : Unicode) (map_size : ℕ) (w : World) where
  run_turn-use :
      (s : Hybrid) (bit_arr : Bytes) (seeds traced : List Bytes) (chosen : Chosen)
      → w.bb_bitmap ≡ some bit_arr
      → seek_trace_seeds w.choice.name w.queue s.traced_seeds ≡ (seeds, traced)
      → resolve_candidate w.choice
          (parse_bitmap bit_arr)
          (record s.depot { cov_state = trace_corpus u w.trace_info seeds s.depot.cov_state })
        ≡ some chosen
      → run_turn u map_size w s
        ≡ use_candidate u w map_size chosen.candidate (record s {
          traced_seeds = traced;
          blk_hit = parse_bitmap bit_arr;
          depot = chosen.depot;
        })
  unfolding run_turn resolve_fuzz_hits
  run_turn-use s bit_arr seeds traced chosen bb sought resolved = rw (sought, bb, resolved) refl

  abbrev before_use : (bit_arr : Bytes) → Hybrid → Hybrid
  before_use bit_arr s = record s {
    traced_seeds = (seek_trace_seeds w.choice.name w.queue s.traced_seeds).1;
    blk_hit = parse_bitmap bit_arr;
    depot = (chosen_of u map_size w s).depot;
  }

  -- A turn of the loop that starts with the invariant, in a world where the files have the right sizes,
  -- the traced program writes the log of the runtime, and the concolic executor logs constraints of
  -- the blocks that it is asked for only, raises no exception and keeps the invariant, the files and
  -- the solved seeds. The traced seeds gain the names in the queue, the tree gains the logged edges of
  -- the newly listed seeds, and the seed of every candidate is solved. Either the queue has no
  -- unsolved seed, or the turn makes progress: there are more cracked pairs and solved seeds than
  -- before.
  pub run_turn-Turns :
      (works : Works u map_size w) (s : Hybrid)
      → Ready map_size s
      → Turns u map_size w works s (run_turn u map_size w s)
  run_turn-Turns works s ready =
      let seek = seek_trace_seeds w.choice.name w.queue s.traced_seeds in
      let sought = seek_trace_seeds-Seeks w.choice.name w.queue s.traced_seeds in
      let d : Depot = record s.depot { cov_state = traced_tree u map_size w s } in
      let below =
        trace_corpus-KeysBelow map_size w works.traceable u seek.0 s.depot.cov_state ready.below in
      let size = length-parse_bitmap map_size works.bit_arr works.bb_size in
      let picks = concolic_candidate-Picks w.choice candidate_num crack_seed_max d in
      let run =
        run_turn-use s works.bit_arr seek.0 seek.1 (chosen_of u map_size w s) works.bb_file refl
          (resolve_candidate-some w.choice map_size (parse_bitmap works.bit_arr) d below size) in
      let used =
        use_candidate-Uses u map_size w works.crackable works.solvable
          (chosen_of u map_size w s).candidate (before_use works.bit_arr s)
          (record {
            counted = ready.sound.counted;
            size = ready.sound.size;
            shared = picks.solved ∙ ready.sound.shared;
          })
          (subst (KeysBelow map_size) (sym picks.tree) below) size
          (subst
            (λ m.
              All (λ (seed, addrs). All (λ a. is_key m a ≡ true) addrs)
                (chosen_of u map_size w s).candidate)
            (sym picks.tree) (picks.addrs tt)) in
      rw run (record {
        after = used.advances.after;
        run = used.advances.run;
        ready = record {
          sound = used.advances.sound;
          below = subst (KeysBelow map_size) (sym (used.advances.tree ∙ picks.tree)) below;
        };
        queue = used.advances.queue;
        hangs = used.advances.hangs;
        crashes = used.advances.crashes;
        solved = used.advances.solved;
        traced = λ n. ap (λ seen. has_seed seen n) used.advances.traced ∙ sought.traced n;
        tree = λ k d.
            ap (λ m. child_of m k d) (used.advances.tree ∙ picks.tree)
            ∙ trace_corpus-child_of map_size w works.traceable u seek.0 s.depot.cov_state k d;
        done = used.done;
        more =
            no_less (pairs_in (chosen_of u map_size w s).candidate) (length s.depot.cracked_seed)
              (length (chosen_of u map_size w s).depot.cracked_seed)
              (length used.advances.after.depot.cracked_seed) (length s.executor.solved_seeds)
              (length used.advances.after.executor.solved_seeds) picks.pairs
              (ap length used.advances.cracked) used.advances.count;
        progress =
            none_or_some (length (unsolved_of w.choice.name w.later_queue s.executor.solved_seeds))
              (λ waiting.
                grown (pairs_in (chosen_of u map_size w s).candidate) (length s.depot.cracked_seed)
                  (length (chosen_of u map_size w s).depot.cracked_seed)
                  (length used.advances.after.depot.cracked_seed) (length s.executor.solved_seeds)
                  (length used.advances.after.executor.solved_seeds)
                  (length (chosen_of u map_size w s).candidate) picks.few picks.pairs
                  (ap length used.advances.cracked) used.advances.count
                  (λ empty. used.progress empty (
                    subst (λ solved. 0 < length (unsolved_of w.choice.name w.later_queue solved))
                      (sym (picks.solved ∙ ready.sound.shared)) waiting)));
      })

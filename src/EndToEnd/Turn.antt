-- ===== src/EndToEnd/Turn.antt =====
-- A turn of the loop of src/fuzz/executor.py in which the traced program is one that
-- trace/trace-pass.so.cc instrumented.
use co_fuzz.Prelude.{
  ℕ, ◌*◌, ◌<◌, ◌≡◌, refl, sym, ap, subst, ◌∙◌, Bool, true, false, ◌||◌, List, [], ◌∷◌, some, map,
  if◌then◌else◌, length,
}
use co_fuzz.Prelude.Text.{Bytes, All, All-append}
use co_fuzz.Pass.Ir.{Ir, Terminator, jump, branch, switch, other_term}
use co_fuzz.Pass.BlockIds.{BlockMap, index, map_size}
use co_fuzz.Pass.BlockIds.Init.{IsBounded, index-IsBounded}
use co_fuzz.Pass.Condition.Plain.{HasPlainNames}
use co_fuzz.Pass.Instrument.{is_call}
use co_fuzz.Pass.Instrument.Machine.{Frame, frame}
use co_fuzz.Tracer.Python.{Unicode}
use co_fuzz.Tracer.State.Log.{Event}
use co_fuzz.Tracer.State.Node.{child_of, logged}
use co_fuzz.Fuzzer.Loop.{World, Hybrid, seek_trace_seeds, run_turn}
use co_fuzz.Fuzzer.Loop.Tracing.{Traceable, any_logs}
use co_fuzz.Fuzzer.Loop.Solving.{Solvable}
use co_fuzz.Fuzzer.Loop.Cracking.{Crackable}
use co_fuzz.Fuzzer.Loop.Turn.{Ready, run_turn-Turns}
use co_fuzz.EndToEnd.{Arrival, edges_from, edges_of, passes, run_path, IsTraced}
use co_fuzz.EndToEnd.Step.{ends, Logs}
use co_fuzz.EndToEnd.Path.{run_path-Logs, logged-passes}

-- The edges leave blocks with ids below MAP_SIZE.
abbrev FromBelow : List (ℕ × ℕ) → Type 0
FromBelow edges = All (λ e. e.0 < map_size) edges

module _ (ir : Ir) (m : BlockMap) (bounded : IsBounded m) where
  edges_from-FromBelow :
      (block : ℕ) (t : Terminator) (values : ℕ → ℕ) → FromBelow (edges_from ir m block t values)
  edges_from-FromBelow block (jump succ) values = tt
  edges_from-FromBelow block (branch condition succ0 succ1) values =
      (index-IsBounded m block bounded, tt)
  edges_from-FromBelow block (switch condition default_dest cases) values =
      by_call (is_call (ir.view condition)) _
    where
      by_call :
          (calls : Bool) (dest : ℕ)
          → FromBelow (if calls then [] else ((index m block).0, dest) ∷ [])
      by_call true dest = tt
      by_call false dest = (index-IsBounded m block bounded, tt)
  edges_from-FromBelow block other_term values = tt

  edges_of-FromBelow : (path : List Arrival) → FromBelow (edges_of ir m path)
  edges_of-FromBelow [] = tt
  edges_of-FromBelow ((b, values) ∷ path) =
      All-append _ (edges_from ir m b.address b.terminator values) (edges_of ir m path)
        (edges_from-FromBelow b.address b.terminator values) (edges_of-FromBelow path)

events-FromBelow :
    (events : List Event) → FromBelow (map ends events) → All (λ e. e.src < map_size) events
events-FromBelow [] h = tt
events-FromBelow (e ∷ events) (h, hs) = (h, events-FromBelow events hs)

-- For each seed, the blocks that the instrumented program comes to, and that it writes what the
-- inserted code writes.
pub record Instrumented (ir : Ir) (depth : ℕ) (m : BlockMap) (w : World) : Type 0 where
  pub garbage : ℕ → ℕ
  pub path : (seed : Bytes) → List Arrival
  pub traced : (seed : Bytes) → All (IsTraced ir depth m) (path seed)
  pub written :
      (seed : Bytes) (t : Frame)
      → run_path ir depth m garbage (path seed) (frame [] [] []) ≡ some t
      → w.trace_info seed ≡ t.stderr

-- Does the run of one of the seeds take an edge from `k` to `d`?
abbrev pub any_passes : Ir → BlockMap → (path : Bytes → List Arrival) → List Bytes → ℕ → ℕ → Bool
any_passes ir m path [] k d = false
any_passes ir m path (seed ∷ seeds) k d =
    passes (edges_of ir m (path seed)) k d || any_passes ir m path seeds k d

module _ (ir : Ir) (depth : ℕ) (m : BlockMap) (names : HasPlainNames ir) (bounded : IsBounded m)
    (w : World) (p : Instrumented ir depth m w) where
  -- What the run of a seed logs.
  abbrev logs :
      (seed : Bytes)
      → Logs
          (frame [] [] [])
          (run_path ir depth m p.garbage (p.path seed) (frame [] [] []))
          (edges_of ir m (p.path seed))
  logs seed =
      run_path-Logs ir depth m names bounded p.garbage (p.path seed) (frame [] [] [])
        (p.traced seed)

  abbrev traceable : Traceable map_size w
  traceable = record {
    events = λ seed. (logs seed).events;
    written = λ seed. p.written seed (logs seed).next (logs seed).run ∙ (logs seed).stderr;
    plain = λ seed. (logs seed).plain;
    small = λ seed.
        events-FromBelow (logs seed).events
          (subst FromBelow (sym (logs seed).edges) (edges_of-FromBelow ir m bounded (p.path seed)));
  }

  any_logs-any_passes :
      (u : Unicode) (seeds : List Bytes) (k d : ℕ)
      → any_logs map_size w traceable u seeds k d ≡ any_passes ir m p.path seeds k d
  any_logs-any_passes u [] k d = refl
  any_logs-any_passes u (seed ∷ seeds) k d =
      let passed : logged (logs seed).events k d ≡ passes (edges_of ir m (p.path seed)) k d =
        logged-passes (logs seed).events k d ∙ ap (λ es. passes es k d) (logs seed).edges in
      rw (passed, any_logs-any_passes u seeds k d) refl

  -- In a turn of the loop that starts with the invariant, where each seed that is traced runs an
  -- instrumented program through blocks that the pass can visit, the turn raises no exception, and the
  -- execution tree has an edge exactly where it had one before or the run of a newly found seed took it
  -- at a terminator that is reported: a conditional branch, or a switch that is not on the result of a
  -- call. Unconditional jumps, switches on the result of a call and all other terminators give no edge,
  -- and a switch that goes to a block with the id 0 gives the edge to its default destination in place
  -- of the one taken. This is for called functions whose names are plain ASCII, ids below MAP_SIZE,
  -- switches whose width and number of cases are below 2 ^ 31, files of the right sizes, and a concolic
  -- executor that logs constraints of the blocks that it is asked for only.
  pub run_turn-child_of :
      (u : Unicode) (s : Hybrid)
      → Crackable u map_size w
      → Solvable map_size w
      → (bit_arr : Bytes) → w.bb_bitmap ≡ some bit_arr
      → length bit_arr ≡ 4 * map_size
      → Ready map_size s
      → (after : Hybrid) × (run_turn u map_size w s ≡ some after)
        × ((k d : ℕ)
            → child_of after.depot.cov_state k d ≡ (
                child_of s.depot.cov_state k d
                || any_passes ir m p.path
                    (seek_trace_seeds w.choice.name w.queue s.traced_seeds).0
                    k
                    d))
  run_turn-child_of u s crackable solvable bit_arr file size ready =
      let t =
        run_turn-Turns u map_size w
          (record {
            traceable = traceable;
            crackable = crackable;
            solvable = solvable;
            bit_arr = bit_arr;
            bb_file = file;
            bb_size = size;
          })
          s ready in
      (
        t.after,
        t.run,
        λ k d.
            t.tree k d
            ∙ ap (λ b. child_of s.depot.cov_state k d || b) (any_logs-any_passes u _ k d),
      )

-- ===== src/EndToEnd/Path.antt =====
-- The execution tree after a run of an instrumented program.
use co_fuzz.Prelude.{
  ℕ, ◌≡◌, refl, ◌&&◌, ◌||◌, List, [], ◌∷◌, ◌++◌, some, ◌==◌, map, append_assoc, append-nil, ap, ◌∙◌,
  sym,
}
use mathlib.Core.List.{map-append}
use co_fuzz.Prelude.Text.{Bytes, All, All-append}
use co_fuzz.Pass.Ir.{Ir}
use co_fuzz.Pass.BlockIds.{BlockMap}
use co_fuzz.Pass.BlockIds.Init.{IsBounded}
use co_fuzz.Pass.Condition.Plain.{HasPlainNames}
use co_fuzz.Pass.Instrument.Machine.{Frame, frame}
use co_fuzz.Tracer.Python.{Unicode}
use co_fuzz.Tracer.State.{CovState, dump_trace}
use co_fuzz.Tracer.State.Log.{Event, text_of, log_of}
use co_fuzz.Tracer.State.Node.{child_of, logged, dump_trace-child_of}
use co_fuzz.EndToEnd.{Arrival, edges_of, passes, run_path, IsTraced}
use co_fuzz.EndToEnd.Step.{ends, Logs, visit-Logs}

log_of-append : (es fs : List Event) → log_of (es ++ fs) ≡ log_of es ++ log_of fs
log_of-append [] fs = refl
log_of-append (e ∷ es) fs =
    ap (λ t. text_of e ++ b'\n' ∷ t) (log_of-append es fs)
    ∙ sym (append_assoc (text_of e) (b'\n' ∷ log_of es) (log_of fs))

pub logged-passes :
    (events : List Event) (k d : ℕ) → logged events k d ≡ passes (map ends events) k d
logged-passes [] k d = refl
logged-passes (e ∷ events) k d =
    ap (λ b. ((e.src == k) && (e.dest == d)) || b) (logged-passes events k d)

module _ (ir : Ir) (depth : ℕ) (m : BlockMap) (names : HasPlainNames ir)
    (bounded : IsBounded m) where
  pub run_path-Logs :
      (garbage : ℕ → ℕ) (path : List Arrival) (s : Frame)
      → All (IsTraced ir depth m) path
      → Logs s (run_path ir depth m garbage path s) (edges_of ir m path)
  unfolding run_path
  run_path-Logs garbage [] s h = record {
    events = [];
    next = s;
    run = refl;
    stderr = rw append-nil;
    plain = tt;
    edges = refl;
  }
  run_path-Logs garbage ((b, values) ∷ path) s ((visitable, small), hs) =
      let here =
        visit-Logs ir depth m names bounded b.address b.terminator values garbage s visitable
          small in
      let later = run_path-Logs garbage path here.next hs in
      record {
        events = here.events ++ later.events;
        next = later.next;
        run = rw (here.run, run_path) later.run;
        stderr =
            later.stderr
            ∙ rw (here.stderr, log_of-append here.events later.events)
                (append_assoc s.stderr (log_of here.events) (log_of later.events));
        plain = All-append _ here.events later.events here.plain later.plain;
        edges = map-append ends here.events later.events ∙ rw (here.edges, later.edges);
      }

  -- On any run of an instrumented program, the inserted code of the blocks that it comes to does not
  -- fail, and after what they wrote to stderr is read, the execution tree has an edge exactly where it
  -- had one before or the run took it at a terminator that is reported: a conditional branch, or a switch
  -- that is not on the result of a call. A switch that goes to a block with the id 0 gives the edge to
  -- its default destination. This is for called functions whose names are plain ASCII, ids below
  -- MAP_SIZE, and blocks that the pass can visit, with switches whose width and number of cases are
  -- below 2 ^ 31.
  pub run_path-child_of :
      (u : Unicode) (garbage : ℕ → ℕ) (path : List Arrival) (seed_path : Bytes) (tree : CovState)
      (k d : ℕ)
      → All (IsTraced ir depth m) path
      → (t : Frame) × (run_path ir depth m garbage path (frame [] [] []) ≡ some t)
        × (child_of (dump_trace u t.stderr seed_path tree) k d
            ≡ (child_of tree k d || passes (edges_of ir m path) k d))
  run_path-child_of u garbage path seed_path tree k d h =
      let r = run_path-Logs garbage path (frame [] [] []) h in
      (
        r.next,
        r.run,
        rw r.stderr (
            dump_trace-child_of u seed_path r.events tree k d r.plain
            ∙ ap (λ b. child_of tree k d || b)
                (logged-passes r.events k d ∙ ap (λ es. passes es k d) r.edges)),
      )

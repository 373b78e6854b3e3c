-- ===== src/Pass/Instrument/Coverage.antt =====
-- runOnModule of trace/trace-pass.so.cc visits every block once.
use native.Mathlib.Nat.{add-zero}
use mathlib.Core.List.{map-append}
use co_fuzz.Prelude.{
  length-append, ℕ, ◌+◌, ◌≡◌, refl, ◌++◌, List, [], ◌∷◌, some, length, ◌==◌, if◌then◌else◌, arith,
  append_assoc, append-nil, map,
}
use co_fuzz.Prelude.Text.{Bytes, All}
use co_fuzz.Pass.Ir.{Ir, Terminator, jump, branch, switch, other_term, Block, Module}
use co_fuzz.Pass.BlockIds.{BlockMap}
use co_fuzz.Pass.BlockIds.Init.{Has, index-Has}
use co_fuzz.Pass.Condition.{br_cond}
use co_fuzz.Pass.Instrument.{
  Inst, Progress, no_targets, instrumented, visit, inserted_by, run_on_blocks, run_on_functions,
  run_on_module,
}
use co_fuzz.Pass.Instrument.Stores.{AllHas, visit_cases-case_stores}

-- The blocks that a terminator names have ids, the condition of a branch has a text within the fuel,
-- and a switch is on an integer.
abbrev pub IsVisitable : Ir → (depth : ℕ) → BlockMap → (block : ℕ) → Terminator → Type 0
IsVisitable ir depth m block (jump succ) = Unit
IsVisitable ir depth m block (branch condition succ0 succ1) =
    ((text : Bytes) × (br_cond ir m depth condition ≡ some text))
    × Has m block
    × Has m succ0
    × Has m succ1
IsVisitable ir depth m block (switch condition default_dest cases) =
    ((width : ℕ) × (ir.bit_width condition ≡ some width))
    × Has m block
    × Has m default_dest
    × AllHas m cases
IsVisitable ir depth m block other_term = Unit

visit-some :
    (ir : Ir) (depth : ℕ) (m : BlockMap) (block : ℕ) (t : Terminator)
    → IsVisitable ir depth m block t
    → visit ir depth m block t ≡ some (inserted_by (visit ir depth m block t), m)
unfolding visit
visit-some ir depth m block (jump succ) h = refl
visit-some ir depth m block (branch condition succ0 succ1) ((text, e), hb, h0, h1) =
    ground (arith, index-Has m block hb, index-Has m succ0 h0, index-Has m succ1 h1)
visit-some ir depth m block (switch condition default_dest cases) ((width, e), hb, hd, hc) =
    ground (
      arith,
      index-Has m block hb,
      index-Has m default_dest hd,
      visit_cases-case_stores m condition 0 cases hc,
    )
visit-some ir depth m block other_term h = refl

-- A block with the instructions that a visit inserts.
abbrev pub visited : Ir → (depth : ℕ) → BlockMap → Block → Block × List Inst
visited ir depth m b = (b, inserted_by (visit ir depth m b.address b.terminator))

abbrev pub AllVisitable : Ir → (depth : ℕ) → BlockMap → List Block → Type 0
AllVisitable ir depth m = All (λ b. IsVisitable ir depth m b.address b.terminator)

abbrev pub progress : List (Block × List Inst) → BlockMap → ℕ → Progress
progress done m n = record { inserted = done; block_map = m; inst_blocks = n }

run_on_blocks-map :
    (ir : Ir) (depth : ℕ) (m : BlockMap) (blocks : List Block) (done : List (Block × List Inst))
    (n : ℕ)
    → AllVisitable ir depth m blocks
    → run_on_blocks ir depth blocks (progress done m n)
      ≡ some (progress (done ++ map (visited ir depth m) blocks) m (n + length blocks))
unfolding run_on_blocks
run_on_blocks-map ir depth m [] done n h = rw (append-nil, add-zero)
run_on_blocks-map ir depth m (b ∷ blocks) done n (h, hs) =
    let step = visit-some ir depth m b.address b.terminator h in
    let rest = run_on_blocks-map ir depth m blocks (done ++ visited ir depth m b ∷ []) (n + 1) hs in
    ground (
      arith,
      step,
      rest,
      append_assoc done (visited ir depth m b ∷ []) (map (visited ir depth m) blocks),
    )

-- The blocks of a module, function by function.
abbrev pub all_blocks : Module → List Block
all_blocks [] = []
all_blocks (f ∷ functions) = f ++ all_blocks functions

run_on_functions-map :
    (ir : Ir) (depth : ℕ) (m : BlockMap) (functions : Module) (done : List (Block × List Inst))
    (n : ℕ)
    → All (AllVisitable ir depth m) functions
    → run_on_functions ir depth functions (progress done m n)
      ≡ some (
          progress
            (done ++ map (visited ir depth m) (all_blocks functions))
            m
            (n + length (all_blocks functions)))
unfolding run_on_functions
run_on_functions-map ir depth m [] done n h = rw (append-nil, add-zero)
run_on_functions-map ir depth m (f ∷ functions) done n (h, hs) =
    let mine = map (visited ir depth m) f in
    ground (
      arith,
      run_on_blocks-map ir depth m f done n h,
      run_on_functions-map ir depth m functions (done ++ mine) (n + length f) hs,
      append_assoc done mine (map (visited ir depth m) (all_blocks functions)),
      map-append (visited ir depth m) f (all_blocks functions),
      length-append f (all_blocks functions),
    )

-- On a module whose blocks can all be visited, runOnModule returns: every block has its instructions
-- once, in the module's order; the map is unchanged; and the message gives the number of the blocks,
-- or the warning if there is none.
pub run_on_module-map :
    (ir : Ir) (depth : ℕ) (m : BlockMap) (functions : Module)
    → All (AllVisitable ir depth m) functions
    → run_on_module ir depth m functions
      ≡ some (
        progress
            (map (visited ir depth m) (all_blocks functions))
            m
            (length (all_blocks functions)),
        if length (all_blocks functions) == 0
            then no_targets
            else instrumented (length (all_blocks functions)),
      )
unfolding run_on_module
run_on_module-map ir depth m functions h =
    ground (arith, run_on_functions-map ir depth m functions [] 0 h)

-- ===== src/EndToEnd/Program.antt =====
-- The whole way, from a module that trace/trace-pass.so.cc instruments to the execution tree: its ids
-- are those of doInitialization, and its condition texts those of getBrCond.
use co_fuzz.Prelude.{
  ℕ, ◌<◌, ◌≡◌, Bool, true, false, ◌||◌, List, [], ◌∷◌, Option, some, ◌==◌, arith, Bool-cases, inl,
  inr, ==_iff, subst,
}
use co_fuzz.Prelude.Text.{Bytes, All, All-map}
use co_fuzz.Pass.Ir.{Ir, Terminator, jump, branch, switch, other_term, Block, Module}
use co_fuzz.Pass.BlockIds.{BlockMap, Scan, do_initialization}
use co_fuzz.Pass.BlockIds.Init.{Has, do_initialization_ids}
use co_fuzz.Pass.Condition.{br_cond}
use co_fuzz.Pass.Condition.Plain.{HasPlainNames}
use co_fuzz.Pass.Condition.Termination.{Follows, br_cond_total}
use co_fuzz.Pass.Instrument.Machine.{Frame, frame}
use co_fuzz.Pass.Instrument.Coverage.{IsVisitable}
use co_fuzz.Tracer.Python.{Unicode}
use co_fuzz.Tracer.State.{CovState, dump_trace}
use co_fuzz.Tracer.State.Node.{child_of}
use co_fuzz.EndToEnd.{Arrival, edges_of, passes, run_path, IsSmall, IsTraced}
use co_fuzz.EndToEnd.Path.{run_path-child_of}

-- Is it the address of a block of the function, of the module?
abbrev pub in_function : List Block → ℕ → Bool
in_function [] a = false
in_function (b ∷ blocks) a = (b.address == a) || in_function blocks a

abbrev pub in_module : Module → ℕ → Bool
in_module [] a = false
in_module (f ∷ functions) a = in_function f a || in_module functions a

-- The terminator goes to blocks of the module only.
abbrev pub StaysIn : Module → Terminator → Type 0
StaysIn functions (jump succ) = in_module functions succ ≡ true
StaysIn functions (branch condition succ0 succ1) =
    (in_module functions succ0 ≡ true) × (in_module functions succ1 ≡ true)
StaysIn functions (switch condition default_dest cases) =
    (in_module functions default_dest ≡ true) × All (λ c. in_module functions c.1 ≡ true) cases
StaysIn functions other_term = Unit

-- A block of a well-formed module, with a switch of a bounded size, if it is one.
abbrev pub IsBlockOf : Ir → Module → Arrival → Type 0
IsBlockOf ir functions (b, values) =
    (in_module functions b.address ≡ true)
    × StaysIn functions b.terminator
    × IsSmall ir b.terminator

module _ (m : BlockMap) where
  in_function-Has :
      (blocks : List Block) (a : ℕ)
      → All (λ b. Has m b.address) blocks
      → in_function blocks a ≡ true
      → Has m a
  in_function-Has [] a h member = ground arith
  in_function-Has (b ∷ blocks) a (h, hs) member = elim (Bool-cases (b.address == a)) [
    | inl same ↦ subst (Has m) ((==_iff b.address a).0 same) h
    | inr differ ↦ in_function-Has blocks a hs (ground arith)
  ]

  in_module-Has :
      (functions : Module) (a : ℕ)
      → All (All (λ b. Has m b.address)) functions
      → in_module functions a ≡ true
      → Has m a
  in_module-Has [] a h member = ground arith
  in_module-Has (f ∷ functions) a (h, hs) member = elim (Bool-cases (in_function f a)) [
    | inl here ↦ in_function-Has f a h here
    | inr there ↦ in_module-Has functions a hs (ground arith)
  ]

module _ (ir : Ir) (depth : ℕ) (m : BlockMap) (functions : Module)
    (ids : All (All (λ b. Has m b.address)) functions)
    (describes : (value : ℕ) → (text : Bytes) × (br_cond ir m depth value ≡ some text)) where
  terminator-IsVisitable :
      (block : ℕ) (t : Terminator)
      → in_module functions block ≡ true
      → StaysIn functions t
      → IsSmall ir t
      → IsVisitable ir depth m block t
  terminator-IsVisitable block (jump succ) h stays small = tt
  terminator-IsVisitable block (branch condition succ0 succ1) h (h0, h1) small = (
    describes condition,
    in_module-Has m functions block ids h,
    in_module-Has m functions succ0 ids h0,
    in_module-Has m functions succ1 ids h1,
  )
  terminator-IsVisitable block (switch condition default_dest cases) h (hd, hc)
        ((width, e, narrow), few) =
      (
        (width, e),
        in_module-Has m functions block ids h,
        in_module-Has m functions default_dest ids hd,
        All-map _ (λ c. Has m c.1) cases (λ c hc. in_module-Has m functions c.1 ids hc) hc,
      )
  terminator-IsVisitable block other_term h stays small = tt

  path-IsTraced :
      (path : List Arrival) → All (IsBlockOf ir functions) path → All (IsTraced ir depth m) path
  path-IsTraced path h =
      All-map _ (IsTraced ir depth m) path
        (λ (b, values) (member, stays, small).
          (terminator-IsVisitable b.address b.terminator member stays small, small))
        h

-- For a module whose terminators go to its blocks, on any run through its blocks, with the ids that
-- doInitialization gives, however random() is seeded and whatever it returns: the inserted code does
-- not fail, and after what it wrote to stderr is read, the execution tree has an edge exactly where
-- it had one before or the run took it at a terminator that is reported: a conditional branch, or a
-- switch that is not on the result of a call. Unconditional jumps, switches on the result of a call
-- and all other terminators give no edge, and a switch that goes to a block with the id 0 gives the
-- edge to its default destination in place of the one taken. This is for IR in which the operands that
-- getBrCond follows fall in a rank that stays below the fuel, called functions whose names are plain
-- ASCII, and switches whose width and number of cases are below 2 ^ 31.
pub program-child_of :
    (ir : Ir) (generator : Option ℕ → ℕ → ℕ) (sscanf : Bytes → Scan) (unset : ℕ)
    (seed_text : Option Bytes) (functions : Module) (rank : ℕ → ℕ) (depth : ℕ)
    → HasPlainNames ir
    → ((value operand : ℕ)
        → Follows ir
            (do_initialization generator sscanf unset seed_text functions)
            (ir.view value)
            operand
        → rank operand < rank value)
    → ((value : ℕ) → rank value < depth)
    → (u : Unicode) (garbage : ℕ → ℕ) (path : List Arrival) (seed_path : Bytes) (tree : CovState)
      (k d : ℕ)
    → All (IsBlockOf ir functions) path
    → (t : Frame) × (run_path ir depth
          (do_initialization generator sscanf unset seed_text functions)
          garbage
          path
          (frame [] [] [])
        ≡ some t)
      × (child_of (dump_trace u t.stderr seed_path tree) k d ≡ (
          child_of tree k d
          || passes
              (edges_of ir (do_initialization generator sscanf unset seed_text functions) path)
              k
              d))
program-child_of ir generator sscanf unset seed_text functions rank depth names falls within u
      garbage path seed_path tree k d h =
    let m = do_initialization generator sscanf unset seed_text functions in
    let ids = do_initialization_ids generator sscanf unset seed_text functions in
    run_path-child_of ir depth m names ids.1 u garbage path seed_path tree k d (
      path-IsTraced ir depth m functions ids.0
        (λ value. br_cond_total ir m rank falls depth value (within value)) path h)

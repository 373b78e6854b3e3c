-- ===== src/EndToEnd.antt =====
-- The way from the program to the execution tree: the code that trace/trace-pass.so.cc inserts runs
-- with trace/trace-rt.o.c, and src/fuzz/trace.py reads what it wrote.
pub mod Step
pub mod Path
pub mod Program
pub mod Turn
use co_fuzz.Prelude.{
  ℕ, ◌+◌, ◌<◌, ◌^◌, ◌≡◌, Bool, true, false, ◌&&◌, ◌||◌, List, [], ◌∷◌, ◌++◌, Option, none, some,
  ◌==◌, length, if◌then◌else◌,
}
use co_fuzz.Runtime.{or_default}
use co_fuzz.Pass.Ir.{Ir, Terminator, jump, branch, switch, other_term, Block}
use co_fuzz.Pass.BlockIds.{BlockMap}
use co_fuzz.Pass.Instrument.{visit, inserted_by, is_call}
use co_fuzz.Pass.Instrument.Machine.{Frame, execute, switch_dest}
use co_fuzz.Pass.Instrument.Stores.{id}
use co_fuzz.Pass.Instrument.Faithful.{branch_dest}
use co_fuzz.Pass.Instrument.Coverage.{IsVisitable}

-- A block whose terminator the program runs, with the values of the program at that time.
abbrev pub Arrival : Type 0
Arrival = Block × (ℕ → ℕ)

-- The edge that is reported when a block's terminator runs, by its ids: that of a conditional branch,
-- and that of a switch that is not on a call's result, where a destination with the id 0 is taken for
-- the default. Jumps, switches on a call's result and other terminators report none.
abbrev pub edges_from : Ir → BlockMap → (block : ℕ) → Terminator → (ℕ → ℕ) → List (ℕ × ℕ)
edges_from ir m block (jump succ) values = []
edges_from ir m block (branch condition succ0 succ1) values =
    (id m block, id m (branch_dest (values condition) succ0 succ1)) ∷ []
edges_from ir m block (switch condition default_dest cases) values =
    if is_call (ir.view condition)
    then []
    else (
      id m block,
      or_default (id m (switch_dest (values condition) default_dest cases)) (id m default_dest),
    )
      ∷ []
edges_from ir m block other_term values = []

abbrev pub edges_of : Ir → BlockMap → List Arrival → List (ℕ × ℕ)
edges_of ir m [] = []
edges_of ir m ((b, values) ∷ path) =
    edges_from ir m b.address b.terminator values ++ edges_of ir m path

-- Is the edge from `k` to `d` in the list?
abbrev pub passes : List (ℕ × ℕ) → ℕ → ℕ → Bool
passes [] k d = false
passes ((src, dest) ∷ edges) k d = ((src == k) && (dest == d)) || passes edges k d

-- The inserted code of the blocks of a path, one after the other.
unfoldable pub run_path :
    Ir → (depth : ℕ) → BlockMap → (garbage : ℕ → ℕ) → List Arrival → Frame → Option Frame
run_path ir depth m garbage [] s = some s
run_path ir depth m garbage ((b, values) ∷ path) s =
    elim (execute values garbage (inserted_by (visit ir depth m b.address b.terminator)) s) [
      | none ↦ none
      | some s' ↦ run_path ir depth m garbage path s'
    ]

-- The width and the number of cases of a switch fit in a signed 32-bit number.
abbrev pub IsSmall : Ir → Terminator → Type 0
IsSmall ir (jump succ) = Unit
IsSmall ir (branch condition succ0 succ1) = Unit
IsSmall ir (switch condition default_dest cases) =
    ((width : ℕ) × (ir.bit_width condition ≡ some width) × (width < 2 ^ 31))
    × (length cases < 2 ^ 31)
IsSmall ir other_term = Unit

-- A block that the pass can visit, with a switch of a bounded size, if it is one.
abbrev pub IsTraced : Ir → (depth : ℕ) → BlockMap → Arrival → Type 0
IsTraced ir depth m (b, values) =
    IsVisitable ir depth m b.address b.terminator × IsSmall ir b.terminator

-- ===== src/Pass/Ir.antt =====
-- What trace/trace-pass.so.cc reads of LLVM's IR. Values and basic blocks are pointers, that is
-- numbers, so the graph of the operands may have cycles. LLVM itself is not modelled: a function
-- `view` gives, for each value, what the pass's casts and accessors return.
use co_fuzz.Prelude.{ℕ, Bool, false, List, [], ◌∷◌, Option, none, some, ◌==◌, if◌then◌else◌, ◌||◌}
use co_fuzz.Prelude.Text.{Bytes, codes, text_eq}

-- What `dyn_cast<Instruction>`, `getOpcode` and `dyn_cast<Constant>` tell of a value.
pub data View : Type 0 where
  icmp : (pred operand0 operand1 : ℕ) → View
  fcmp : (pred : ℕ) → View
  -- the incoming edges, each a block with a value
  phi : List (ℕ × ℕ) → View
  -- the name of the called function, if the call is direct
  call : Option Bytes → View
  or_inst : (operand0 operand1 : ℕ) → View
  and_inst : (operand0 operand1 : ℕ) → View
  xor_inst : (operand0 operand1 : ℕ) → View
  other_inst : View
  -- `isZeroValue`
  constant : Bool → View
  -- neither an instruction nor a constant
  unidentified : View

pub record Ir : Type 0 where
  pub view : ℕ → View
  -- the bit width of a value's type, if that is an integer type
  pub bit_width : ℕ → Option ℕ

pub data Terminator : Type 0 where
  jump : (succ : ℕ) → Terminator
  branch : (condition succ0 succ1 : ℕ) → Terminator
  -- the default destination, and each case's value and successor
  switch : (condition default_dest : ℕ) → (cases : List (ℕ × ℕ)) → Terminator
  other_term : Terminator

pub record Block : Type 0 where
  pub address : ℕ
  pub terminator : Terminator

-- A function is its blocks, a module its functions.
abbrev pub Module : Type 0
Module = List (List Block)

-- PHINode::getIncomingValueForBlock
unfoldable pub incoming_value : List (ℕ × ℕ) → ℕ → Option ℕ
incoming_value [] block = none
incoming_value ((b, v) ∷ edges) block = if b == block then some v else incoming_value edges block

-- The function names that isStrcmp looks for.
unfoldable pub is_compare_name : Bytes → Bool
is_compare_name called =
    text_eq called (codes "strcmp")
    || text_eq called (codes "strncmp")
    || text_eq called (codes "memcmp")

-- isStrcmp, on what the value is
unfoldable pub is_strcmp : View → Bool
unfolding is_compare_name
is_strcmp (call (some called)) = is_compare_name called
is_strcmp _ = false

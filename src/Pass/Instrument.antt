-- ===== src/Pass/Instrument.antt =====
-- visitBranchInst, visitSwitchInst and runOnModule of trace/trace-pass.so.cc: the instructions that
-- the pass puts in front of a block's terminator, and what running them does.
pub mod Machine
pub mod Stores
pub mod Faithful
pub mod Coverage
use co_fuzz.Prelude.{
  ℕ, zero, suc, ◌+◌, ◌%◌, ◌^◌, Bool, true, false, ◌++◌, List, [], ◌∷◌, Option, none, some, length,
  ◌==◌, if◌then◌else◌,
}
use co_fuzz.Prelude.Text.{Bytes}
use co_fuzz.Pass.Ir.{View, call, Ir, Terminator, jump, branch, switch, other_term, Block, Module}
use co_fuzz.Pass.BlockIds.{BlockMap, index}
use co_fuzz.Pass.Condition.{br_cond}

-- What the pass inserts.
pub data Inst : Type 0 where
  -- __log_branch(prev_loc, succ_true, succ_false, condition text, value of the condition)
  log_branch_call : (prev_loc succ_true succ_false : ℕ) → Bytes → (condition : ℕ) → Inst
  -- the two arrays on the stack, of so many entries
  alloca_cases : (case_num : ℕ) → Inst
  -- caseLoc[idx] = loc
  store_loc : (idx loc : ℕ) → Inst
  -- caseCov[idx] = (condition == case_value)
  store_taken : (idx condition case_value : ℕ) → Inst
  -- __log_switch(case_num, bit_width, prev_loc, default_loc, caseCov, caseLoc)
  log_switch_call : (case_num bit_width prev_loc default_loc : ℕ) → Inst

-- What a visit returns: the inserted instructions and the map, or nothing if getBrCond needs more
-- fuel or a cast fails.
abbrev pub Visit : Type 0
Visit = Option (List Inst × BlockMap)

-- The instructions of a visit.
abbrev pub inserted_by : Visit → List Inst
inserted_by none = []
inserted_by (some (insts, m)) = insts

-- void visitBranchInst, at a conditional branch
unfoldable pub visit_branch :
    Ir → (depth : ℕ) → BlockMap → (block condition succ0 succ1 : ℕ) → Visit
visit_branch ir depth m block condition succ0 succ1 = elim (br_cond ir m depth condition) [
  | none ↦ none
  | some cond_info ↦
      let (prev_loc, m1) = index m block in
      let (succ_true, m2) = index m1 succ0 in
      let (succ_false, m3) = index m2 succ1 in
      some (log_branch_call prev_loc succ_true succ_false cond_info condition ∷ [], m3)
]

-- The loop over the cases, from the case of this index on.
unfoldable pub visit_cases : BlockMap → (condition idx : ℕ) → List (ℕ × ℕ) → List Inst × BlockMap
visit_cases m condition idx [] = ([], m)
visit_cases m condition idx ((case_value, succ) ∷ cases) =
    let (loc, m1) = index m succ in
    let (insts, m2) = visit_cases m1 condition (idx + 1) cases in
    (store_loc idx loc ∷ store_taken idx condition case_value ∷ insts, m2)

-- `dyn_cast<CallInst>(condition)`
unfoldable pub is_call : View → Bool
is_call (call name) = true
is_call _ = false

-- void visitSwitchInst
unfoldable pub visit_switch :
    Ir → BlockMap → (block condition default_dest : ℕ) → List (ℕ × ℕ) → Visit
unfolding is_call visit_cases
visit_switch ir m block condition default_dest cases =
    if is_call (ir.view condition) then some ([], m) else elim (ir.bit_width condition) [
      | none ↦ none
      | some bit_width ↦
          let case_num = length cases in
          let (prev_loc, m1) = index m block in
          let (default_loc, m2) = index m1 default_dest in
          let (insts, m3) = visit_cases m2 condition 0 cases in
          some (
            alloca_cases case_num
                ∷ (insts ++ log_switch_call case_num bit_width prev_loc default_loc ∷ []),
            m3,
          )
    ]

-- The dispatch of runOnModule on the terminator. An unconditional branch is left alone.
unfoldable pub visit : Ir → (depth : ℕ) → BlockMap → (block : ℕ) → Terminator → Visit
unfolding visit_branch visit_switch
visit ir depth m block (branch condition succ0 succ1) =
    visit_branch ir depth m block condition succ0 succ1
visit ir depth m block (switch condition default_dest cases) =
    visit_switch ir m block condition default_dest cases
visit ir depth m block (jump succ) = some ([], m)
visit ir depth m block other_term = some ([], m)

-- What the loops of runOnModule have done: the instructions by block, the map, and inst_blocks.
pub record Progress : Type 0 where
  pub inserted : List (Block × List Inst)
  pub block_map : BlockMap
  pub inst_blocks : ℕ

unfoldable pub run_on_blocks : Ir → (depth : ℕ) → List Block → Progress → Option Progress
run_on_blocks ir depth [] p = some p
run_on_blocks ir depth (b ∷ blocks) p = elim (visit ir depth p.block_map b.address b.terminator) [
  | none ↦ none
  | some (insts, m) ↦ run_on_blocks ir depth blocks (record {
    inserted = p.inserted ++ (b, insts) ∷ [];
    block_map = m;
    inst_blocks = p.inst_blocks + 1;
  })
]

unfoldable pub run_on_functions : Ir → (depth : ℕ) → Module → Progress → Option Progress
run_on_functions ir depth [] p = some p
run_on_functions ir depth (f ∷ functions) p = elim (run_on_blocks ir depth f p) [
  | none ↦ none
  | some p' ↦ run_on_functions ir depth functions p'
]

-- The message at the end: a warning, or the number of the blocks.
pub data Message : Type 0 where
  no_targets : Message
  instrumented : ℕ → Message

-- runOnModule, on the map that doInitialization left
unfoldable pub run_on_module : Ir → (depth : ℕ) → BlockMap → Module → Option (Progress × Message)
run_on_module ir depth m functions =
    elim (run_on_functions ir depth functions
      (record { inserted = []; block_map = m; inst_blocks = 0 })) [
        | none ↦ none
        | some p ↦ some (p, if p.inst_blocks == 0 then no_targets else instrumented p.inst_blocks)
      ]

-- ===== src/Pass/Instrument/Machine.antt =====
-- The run of the instructions that trace/trace-pass.so.cc inserts, as LLVM documents them, with the
-- calls of the functions of trace/trace-rt.o.c; and which block a terminator goes to.
use co_fuzz.Prelude.{
  zero, suc, ◌+◌, ℕ, ◌++◌, List, [], ◌∷◌, Option, none, some, length, set, ltb, ◌==◌, if◌then◌else◌,
}
use co_fuzz.Prelude.Text.{Bytes}
use co_fuzz.Pass.Instrument.{
  Inst, log_branch_call, alloca_cases, store_loc, store_taken, log_switch_call,
}
use co_fuzz.Runtime.{log_branch, log_switch}

-- The two arrays of a block's frame, and what has been written to stderr.
pub record Frame : Type 0 where
  pub case_cov : Bytes
  pub case_loc : List ℕ
  pub stderr : Bytes

-- An array of n entries that nothing has written.
abbrev pub fresh : (ℕ → ℕ) → ℕ → List ℕ
fresh garbage zero = []
fresh garbage (suc n) = garbage n ∷ fresh garbage n

-- An equality test as it is stored.
abbrev pub taken_bit : ℕ → ℕ → ℕ
taken_bit value case_value = if value == case_value then 1 else 0

-- One instruction, where `values` gives the run-time value of each IR value, and `garbage` is what
-- the fresh entries on the stack hold. `none` is an access
-- past the end of an array. A boolean is stored and passed as 0 or 1.
unfoldable pub step : (values : ℕ → ℕ) → (garbage : ℕ → ℕ) → Inst → Frame → Option Frame
step values garbage (log_branch_call prev_loc succ_true succ_false text condition) s =
    some (record s {
      stderr = s.stderr ++ log_branch prev_loc succ_true succ_false text (values condition);
    })
step values garbage (alloca_cases n) s =
    some (record s { case_cov = fresh garbage n; case_loc = fresh (λ k. garbage (n + k)) n })
step values garbage (store_loc idx loc) s =
    if ltb idx (length s.case_loc)
    then some (record s { case_loc = set s.case_loc idx loc })
    else none
step values garbage (store_taken idx condition case_value) s =
    if ltb idx (length s.case_cov)
    then some (record s { case_cov = set s.case_cov idx (taken_bit (values condition) case_value) })
    else none
step values garbage (log_switch_call case_num bit_width prev_loc default_loc) s =
    elim (log_switch case_num bit_width prev_loc default_loc s.case_cov s.case_loc) [
      | none ↦ none
      | some line ↦ some (record s { stderr = s.stderr ++ line })
    ]

unfoldable pub execute : (values : ℕ → ℕ) → (garbage : ℕ → ℕ) → List Inst → Frame → Option Frame
execute values garbage [] s = some s
execute values garbage (i ∷ insts) s = elim (step values garbage i s) [
  | none ↦ none
  | some s' ↦ execute values garbage insts s'
]

abbrev pub frame : Bytes → List ℕ → Bytes → Frame
frame cov loc err = record { case_cov = cov; case_loc = loc; stderr = err }

-- The destination of a `switch`: that of the case with this value, or the default.
abbrev pub switch_dest : ℕ → ℕ → List (ℕ × ℕ) → ℕ
switch_dest value default_dest [] = default_dest
switch_dest value default_dest ((case_value, succ) ∷ cases) =
    if value == case_value then succ else switch_dest value default_dest cases

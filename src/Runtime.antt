-- ===== src/Runtime.antt =====
-- trace/trace-rt.o.c: the logging functions that the instrumented program calls. Each writes one
-- line to stderr, which is its result here; `none` is a read past the end of an array.
pub mod Switch
use co_fuzz.Prelude.{
  ℕ, zero, suc, ◌+◌, Bool, true, false, ◌++◌, [], ◌∷◌, List, Option, none, some, ◌==◌,
  if◌then◌else◌, get_elem?,
}
use co_fuzz.Prelude.Text.{Bytes, codes}
use co_fuzz.Prelude.Decimal.{signed}

-- "): %d,%d\n" behind a condition
unfoldable pub edge : ℕ → ℕ → Bytes
edge src dest = codes "): " ++ (signed src ++ (codes "," ++ (signed dest ++ codes "\n")))

-- void __log_branch(prev_loc, succ_true, succ_false, condition, taken)
unfoldable pub log_branch : ℕ → ℕ → ℕ → Bytes → ℕ → Bytes
unfolding edge
log_branch prev_loc succ_true succ_false condition taken =
    if taken == 0
    then codes "[*] (Br_false_" ++ (condition ++ edge prev_loc succ_false)
    else codes "[*] (Br_true_" ++ (condition ++ edge prev_loc succ_true)

-- The `for` loop of __log_switch: `rounds` is `case_num - idx`, and the result is `dest_loc`.
find_case : ℕ → ℕ → Bytes → List ℕ → Option ℕ
find_case zero idx case_cov case_loc = some 0
find_case (suc rounds) idx case_cov case_loc =
    let rest = find_case rounds (idx + 1) case_cov case_loc in
    elim (get_elem? case_cov idx) [
      | none ↦ none
      | some covered ↦ if covered == 0 then rest else get_elem? case_loc idx
    ]

-- "[*] (Switch_i%d_%d): %d,%d\n"
unfoldable pub switch_line : ℕ → ℕ → ℕ → ℕ → Bytes
unfolding edge
switch_line bit_width case_num prev_loc dest_loc =
    codes "[*] (Switch_i"
    ++ (signed bit_width ++ (codes "_" ++ (signed case_num ++ edge prev_loc dest_loc)))

-- `if (!dest_loc) dest_loc = default_loc;`
abbrev pub or_default : ℕ → ℕ → ℕ
or_default dest_loc default_loc = if dest_loc == 0 then default_loc else dest_loc

-- void __log_switch(case_num, bit_width, prev_loc, default_loc, case_cov, case_loc)
unfoldable pub log_switch : ℕ → ℕ → ℕ → ℕ → Bytes → List ℕ → Option Bytes
unfolding find_case switch_line
log_switch case_num bit_width prev_loc default_loc case_cov case_loc =
    elim (find_case case_num 0 case_cov case_loc) [
      | none ↦ none
      | some dest_loc ↦
          some (switch_line bit_width case_num prev_loc (or_default dest_loc default_loc))
    ]

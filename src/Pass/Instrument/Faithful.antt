-- ===== src/Pass/Instrument/Faithful.antt =====
-- The instructions that trace/trace-pass.so.cc inserts report the edge that the program takes.
use co_fuzz.Prelude.{
  ℕ, zero, suc, ◌+◌, ◌≡◌, refl, not, Bool, false, ◌++◌, List, [], ◌∷◌, some, length, ◌==◌,
  if◌then◌else◌, arith, sym, ◌∙◌, ap,
}
use co_fuzz.Prelude.Text.{Bytes, codes}
use co_fuzz.Pass.Ir.{Ir, branch, switch}
use co_fuzz.Pass.BlockIds.{BlockMap}
use co_fuzz.Pass.BlockIds.Init.{Has, index-Has}
use co_fuzz.Pass.Condition.{br_cond}
use co_fuzz.Pass.Instrument.{
  Inst, alloca_cases, log_switch_call, visit_switch, visit, is_call, inserted_by,
}
use co_fuzz.Pass.Instrument.Machine.{Frame, frame, step, execute, switch_dest, fresh}
use co_fuzz.Runtime.{edge, log_branch, switch_line, or_default, log_switch}
use co_fuzz.Runtime.Switch.{log_switch-first_covered}
use co_fuzz.Pass.Instrument.Stores.{
  id, AllHas, case_stores, visit_cases-case_stores, covered, case_ids, length-covered,
  length-case_ids, or_default-first_covered, execute-append, execute-case_stores,
}

-- "[*] (Br_%s_%s): %d,%d\n"
abbrev pub branch_line : Bool → Bytes → ℕ → ℕ → Bytes
branch_line taken text src dest =
    if taken
    then codes "[*] (Br_true_" ++ (text ++ edge src dest)
    else codes "[*] (Br_false_" ++ (text ++ edge src dest)

-- Where a conditional branch goes.
abbrev pub branch_dest : ℕ → ℕ → ℕ → ℕ
branch_dest value succ0 succ1 = if value == 0 then succ1 else succ0

-- At a conditional branch whose three blocks have ids, the pass inserts code that, run in any frame,
-- appends one line to stderr: the condition's outcome and text, the id of the block, and the id of
-- the block that the branch goes to. The map is left as it was.
pub visit_branch_faithful :
    (ir : Ir) (depth : ℕ) (m : BlockMap) (block condition succ0 succ1 : ℕ) (text : Bytes)
    → br_cond ir m depth condition ≡ some text
    → Has m block
    → Has m succ0
    → Has m succ1
    → (values garbage : ℕ → ℕ) (s : Frame)
    → (visit ir depth m block (branch condition succ0 succ1)
        ≡ some (inserted_by (visit ir depth m block (branch condition succ0 succ1)), m))
      × (execute values garbage
            (inserted_by (visit ir depth m block (branch condition succ0 succ1)))
            s
          ≡ some (record s {
            stderr =
                s.stderr
                ++ branch_line
                    (not (values condition == 0))
                    text
                    (id m block)
                    (id m (branch_dest (values condition) succ0 succ1));
          }))
unfolding visit execute step log_branch
visit_branch_faithful ir depth m block condition succ0 succ1 text e hb h0 h1 values garbage s =
    ground (arith, index-Has m block hb, index-Has m succ0 h0, index-Has m succ1 h1)

-- What the pass inserts at a switch.
switch_code : BlockMap → (block condition default_dest bit_width : ℕ) → List (ℕ × ℕ) → List Inst
switch_code m block condition default_dest bit_width cases =
    alloca_cases (length cases)
    ∷ (case_stores m condition 0 cases
        ++ log_switch_call (length cases) bit_width (id m block) (id m default_dest) ∷ [])

visit-switch_code :
    (ir : Ir) (depth : ℕ) (m : BlockMap) (block condition default_dest bit_width : ℕ)
    (cases : List (ℕ × ℕ))
    → is_call (ir.view condition) ≡ false
    → ir.bit_width condition ≡ some bit_width
    → Has m block
    → Has m default_dest
    → AllHas m cases
    → visit ir depth m block (switch condition default_dest cases)
      ≡ some (switch_code m block condition default_dest bit_width cases, m)
unfolding visit_switch visit switch_code
visit-switch_code ir depth m block condition default_dest bit_width cases no_call width hb hd hc =
    ground (
      arith,
      index-Has m block hb,
      index-Has m default_dest hd,
      visit_cases-case_stores m condition 0 cases hc,
    )

length-fresh : (garbage : ℕ → ℕ) (n : ℕ) → length (fresh garbage n) ≡ n
length-fresh garbage zero = refl
length-fresh garbage (suc n) = ap suc (length-fresh garbage n)

-- The call behind the stores.
log_switch-covered :
    (m : BlockMap) (bit_width prev value default_dest : ℕ) (cases : List (ℕ × ℕ))
    → log_switch
        (length cases)
        bit_width
        prev
        (id m default_dest)
        (covered value cases)
        (case_ids m cases)
      ≡ some (
          switch_line bit_width
            (length cases)
            prev
            (or_default (id m (switch_dest value default_dest cases)) (id m default_dest)))
log_switch-covered m bit_width prev value default_dest cases =
    rw (length-covered value cases, or_default-first_covered m value default_dest cases) at
      (log_switch-first_covered bit_width prev (id m default_dest) (covered value cases)
        (case_ids m cases) (length-covered value cases ∙ sym (length-case_ids m cases)))

execute-switch_code :
    (m : BlockMap) (block condition default_dest bit_width : ℕ) (cases : List (ℕ × ℕ))
    (values garbage : ℕ → ℕ) (s : Frame)
    → (t : Frame) × (execute values garbage
          (switch_code m block condition default_dest bit_width cases)
          s
        ≡ some t)
      × (t.stderr
          ≡ s.stderr
            ++ switch_line bit_width (length cases) (id m block) (
                or_default
                  (id m (switch_dest (values condition) default_dest cases))
                  (id m default_dest)))
unfolding execute step switch_code
execute-switch_code m block condition default_dest bit_width cases values garbage s =
    let value = values condition in
    let cov = fresh garbage (length cases) in
    let loc = fresh (λ k. garbage (length cases + k)) (length cases) in
    let call = log_switch_call (length cases) bit_width (id m block) (id m default_dest) ∷ [] in
    (
      frame (covered value cases) (case_ids m cases) (
          s.stderr
          ++ switch_line bit_width (length cases) (id m block)
              (or_default (id m (switch_dest value default_dest cases)) (id m default_dest))),
      ground (
        arith,
        execute-append values garbage (case_stores m condition 0 cases) call
            (frame cov loc s.stderr),
        execute-case_stores values garbage m condition 0 cases [] cov [] loc s.stderr refl refl
            (length-fresh garbage (length cases)) (length-fresh _ (length cases)),
        log_switch-covered m bit_width (id m block) value default_dest cases,
      ),
      refl,
    )

-- At a switch on an integer that is not a call's result, whose blocks have ids, the pass inserts
-- code that, run in any frame and whatever the fresh stack arrays hold, appends one line to stderr:
-- the bit width, the number of cases, the id of the block, and the id of the block that the switch
-- goes to, or the default destination's id where that id is 0. The map is left as it was.
pub visit_switch_faithful :
    (ir : Ir) (depth : ℕ) (m : BlockMap) (block condition default_dest bit_width : ℕ)
    (cases : List (ℕ × ℕ))
    → is_call (ir.view condition) ≡ false
    → ir.bit_width condition ≡ some bit_width
    → Has m block
    → Has m default_dest
    → AllHas m cases
    → (values garbage : ℕ → ℕ) (s : Frame)
    → (visit ir depth m block (switch condition default_dest cases)
        ≡ some (inserted_by (visit ir depth m block (switch condition default_dest cases)), m))
      × (t : Frame) × (execute values garbage
            (inserted_by (visit ir depth m block (switch condition default_dest cases)))
            s
          ≡ some t)
      × (t.stderr
          ≡ s.stderr
            ++ switch_line bit_width (length cases) (id m block) (
                or_default
                  (id m (switch_dest (values condition) default_dest cases))
                  (id m default_dest)))
visit_switch_faithful ir depth m block condition default_dest bit_width cases no_call width hb hd hc
      values garbage s =
    let e =
      visit-switch_code ir depth m block condition default_dest bit_width cases no_call width hb hd
        hc in
    let (t, run, line) =
      execute-switch_code m block condition default_dest bit_width cases values garbage s in
    rw e (refl, t, run, line)

-- ===== src/Tests/Pass.antt =====
-- The pass and the runtime at a small program.
use co_fuzz.Prelude.{
  ℕ, ◌<◌, ◌≡◌, refl, inl, inr, true, [], ◌∷◌, ◌++◌, none, some, ◌==◌, map, if◌then◌else◌, arith,
}
use co_fuzz.Prelude.Text.{Bytes, codes, All}
use co_fuzz.Prelude.Decimal.{decimal}
use co_fuzz.Runtime.{switch_line, or_default, log_switch}
use co_fuzz.Runtime.Switch.{log_switch-first_covered}
use co_fuzz.Pass.Ir.{branch, switch, incoming_value, is_strcmp}
use co_fuzz.Pass.BlockIds.{BlockMap, find, no_match, do_initialization}
use co_fuzz.Pass.BlockIds.Init.{Has, IsBounded, do_initialization_ids}
use co_fuzz.Pass.Condition.{br_cond, describe, icmp_text}
use co_fuzz.Pass.Condition.Termination.{Follows, br_cond_total, br_cond_diverges}
use co_fuzz.Pass.Condition.Plain.{HasPlainNames}
use co_fuzz.Pass.Instrument.{visit, inserted_by, is_call, run_on_module, instrumented}
use co_fuzz.Pass.Instrument.Machine.{Frame, frame, execute}
use co_fuzz.Pass.Instrument.Stores.{id}
use co_fuzz.Pass.Instrument.Faithful.{branch_line, visit_branch_faithful, visit_switch_faithful}
use co_fuzz.Pass.Instrument.Coverage.{
  AllVisitable, progress, visited, all_blocks, run_on_module-map,
}
use co_fuzz.Tests.Sample.{straight, looping, block_ids, functions}

log_switch-first_covered_example :
    log_switch 2 32 100 300 (0 ∷ 1 ∷ []) (100 ∷ 200 ∷ []) ≡ some (switch_line 32 2 100 200)
log_switch-first_covered_example =
    log_switch-first_covered 32 100 300 (0 ∷ 1 ∷ []) (100 ∷ 200 ∷ []) refl

pub knows_1 : Has block_ids 1
unfolding find
knows_1 = (100, refl)

pub knows_2 : Has block_ids 2
unfolding find
knows_2 = (200, refl)

pub knows_3 : Has block_ids 3
unfolding find
knows_3 = (300, refl)

do_initialization_ids_example :
    All
      (All (λ b. Has (do_initialization (λ seed k. k) (λ s. no_match) 0 none functions) b.address))
      functions
    × IsBounded (do_initialization (λ seed k. k) (λ s. no_match) 0 none functions)
do_initialization_ids_example = do_initialization_ids (λ seed k. k) (λ s. no_match) 0 none functions

-- The rank of the values: 14 is above its operands.
abbrev pub rank : ℕ → ℕ
rank v = if v == 14 then 1 else 0

pub falls :
    (m : BlockMap) (value operand : ℕ)
    → Follows straight m (straight.view value) operand
    → rank operand < rank value
unfolding is_strcmp
falls m value operand f = ground (arith, f)

br_cond_total_example : (text : Bytes) × (br_cond straight block_ids 2 14 ≡ some text)
br_cond_total_example = br_cond_total straight block_ids rank (falls block_ids) 2 14 (omega arith)

abbrev IsLooping : ℕ → Type 0
IsLooping v = v ≡ 20

loops :
    (value : ℕ)
    → IsLooping value
    → (operand : ℕ) × Follows looping block_ids (looping.view value) operand × IsLooping operand
unfolding find incoming_value
loops value e = rw e (20, inr (inl (200, refl, refl)), refl)

br_cond_diverges_example : br_cond looping block_ids 100 20 ≡ none
br_cond_diverges_example = br_cond_diverges looping block_ids IsLooping loops 100 20 refl

abbrev pub cond_text : Bytes
cond_text = codes "icmp_pred@32_i32"

pub describes : br_cond straight block_ids 1 10 ≡ some cond_text
unfolding br_cond describe icmp_text is_strcmp decimal
describes = refl

pub no_names : HasPlainNames straight
no_names value name e = ground (arith, e)

abbrev start : Frame
start = frame [] [] []

visit_branch_faithful_example :
    (visit straight 1 block_ids 1 (branch 10 2 3)
      ≡ some (inserted_by (visit straight 1 block_ids 1 (branch 10 2 3)), block_ids))
    × (execute (λ v. 1) (λ k. 7) (inserted_by (visit straight 1 block_ids 1 (branch 10 2 3))) start
        ≡ some (record start {
          stderr = start.stderr ++ branch_line true cond_text (id block_ids 1) (id block_ids 2);
        }))
visit_branch_faithful_example =
    visit_branch_faithful straight 1 block_ids 1 10 2 3 cond_text describes knows_1 knows_2 knows_3
      (λ v. 1) (λ k. 7) start

visit_switch_faithful_example :
    (visit straight 1 block_ids 2 (switch 11 3 ((5, 1) ∷ (7, 2) ∷ []))
      ≡ some (
        inserted_by (visit straight 1 block_ids 2 (switch 11 3 ((5, 1) ∷ (7, 2) ∷ []))),
        block_ids,
      ))
    × (t : Frame) × (execute
          (λ v. 7)
          (λ k. 7)
          (inserted_by (visit straight 1 block_ids 2 (switch 11 3 ((5, 1) ∷ (7, 2) ∷ []))))
          start
        ≡ some t)
    × (t.stderr
        ≡ [] ++ switch_line 32 2 (id block_ids 2) (or_default (id block_ids 2) (id block_ids 3)))
unfolding is_call
visit_switch_faithful_example =
    visit_switch_faithful straight 1 block_ids 2 11 3 32 ((5, 1) ∷ (7, 2) ∷ []) refl refl knows_2
      knows_3 (knows_1, (knows_2, tt)) (λ v. 7) (λ k. 7) start

visitable : All (AllVisitable straight 1 block_ids) functions
visitable = (
  (
    ((cond_text, describes), knows_1, knows_2, knows_3),
    (((32, refl), knows_2, knows_3, (knows_1, (knows_2, tt))), tt),
  ),
  ((tt, tt), tt),
)

run_on_module-map_example :
    run_on_module straight 1 block_ids functions
    ≡ some (
      progress (map (visited straight 1 block_ids) (all_blocks functions)) block_ids 3,
      instrumented 3,
    )
run_on_module-map_example = run_on_module-map straight 1 block_ids functions visitable

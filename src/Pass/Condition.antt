-- ===== src/Pass/Condition.antt =====
-- getBrCond of trace/trace-pass.so.cc: the text that describes the condition of a branch.
pub mod Termination
pub mod Plain
use co_fuzz.Prelude.{
  ℕ, zero, suc, Bool, true, false, ◌||◌, ◌++◌, List, [], ◌∷◌, Option, none, some, if◌then◌else◌,
}
use co_fuzz.Prelude.Text.{Bytes, codes}
use co_fuzz.Prelude.Decimal.{decimal}
use co_fuzz.Pass.Ir.{
  View, icmp, fcmp, phi, call, or_inst, and_inst, xor_inst, other_inst, constant, unidentified, Ir,
  incoming_value, is_strcmp,
}
use co_fuzz.Pass.BlockIds.{BlockMap, find}

infixl 5 ◌>>=◌
abbrev pub ◌>>=◌ : Option Bytes → (Bytes → Option Bytes) → Option Bytes
none >>= f = none
some s >>= f = f s

-- `getBrCond(a) + joint + getBrCond(b)`
unfoldable pub join : Option Bytes → Bytes → Option Bytes → Option Bytes
join left joint right = do l ← left; r ← right; some (l ++ (joint ++ r))

-- The text of an integer comparison that is not one of strcmp's results.
unfoldable pub icmp_text : Ir → ℕ → ℕ → Bytes
icmp_text ir pred operand0 =
    codes "icmp_pred@"
    ++ (decimal pred
        ++ elim (ir.bit_width operand0) [ none ↦ [] | some width ↦ codes "_i" ++ decimal width ])

-- The loop over the blocks of a phi node; `text` is the recursive call. A block that the map does
-- not know is skipped.
unfoldable pub phi_text : BlockMap → (ℕ → Option Bytes) → List (ℕ × ℕ) → List (ℕ × ℕ) → Option Bytes
phi_text m text all [] = some []
phi_text m text all ((block, _) ∷ edges) =
    let rest = phi_text m text all edges in
    elim (find m block) [
      | none ↦ rest
      | some loc ↦ elim (incoming_value all block) [
        | none ↦ none
        | some value ↦ do
          v ← text value
          tail ← rest
          some (codes "(" ++ (decimal loc ++ (codes "," ++ (v ++ (codes ")" ++ tail)))))
      ]
    ]

-- The body of getBrCond, on what the value is; `text` is the recursive call.
unfoldable pub describe : Ir → BlockMap → (ℕ → Option Bytes) → View → Option Bytes
unfolding join icmp_text phi_text
describe ir m text (icmp pred operand0 operand1) =
    if is_strcmp (ir.view operand0) || is_strcmp (ir.view operand1)
    then (do t ← join (text operand0) (codes "_") (text operand1); some (codes "icmp_" ++ t))
    else some (icmp_text ir pred operand0)
describe ir m text (fcmp pred) = some (codes "fcmp_pred@" ++ decimal pred)
describe ir m text (phi edges) = do t ← phi_text m text edges edges; some (codes "phi@" ++ t)
describe ir m text (call none) = some (codes "call@")
describe ir m text (call (some name)) = some (codes "call@" ++ name)
describe ir m text (or_inst operand0 operand1) = join (text operand0) (codes " || ") (text operand1)
describe ir m text (and_inst operand0 operand1) =
    join (text operand0) (codes " && ") (text operand1)
describe ir m text (xor_inst operand0 operand1) = join (text operand0) (codes " ^ ") (text operand1)
describe ir m text other_inst = some (codes "constInst")
describe ir m text (constant is_zero) = some (if is_zero then codes "0" else codes "1")
describe ir m text unidentified = some (codes "none")

-- getBrCond, with fuel for the depth of the calls. `none` is a run that goes deeper.
unfoldable pub br_cond : Ir → BlockMap → ℕ → ℕ → Option Bytes
unfolding describe
br_cond ir m zero value = none
br_cond ir m (suc depth) value = describe ir m (br_cond ir m depth) (ir.view value)

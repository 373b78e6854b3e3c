-- ===== src/Pass/Condition/Termination.antt =====
-- When the recursion of getBrCond in trace/trace-pass.so.cc ends: exactly along the operands that
-- it follows.
use co_fuzz.Prelude.{
  ℕ, zero, suc, ◌<◌, ◌≡◌, refl, ◌⊎◌, inl, inr, true, ◌||◌, ◌++◌, List, [], ◌∷◌, Option, none, some,
  arith, Bool-cases, Option-cases, append_assoc, ◌==◌, ==_self, ◌≢◌, ◌∙◌, sym,
}
use co_fuzz.Prelude.Text.{Bytes, codes}
use co_fuzz.Pass.Ir.{
  View, icmp, fcmp, phi, call, or_inst, and_inst, xor_inst, other_inst, constant, unidentified, Ir,
  incoming_value, is_strcmp,
}
use co_fuzz.Pass.BlockIds.{BlockMap, find}
use co_fuzz.Pass.Condition.{join, phi_text, describe, br_cond}

-- Some edge of the list comes from a known block, with `value` as the incoming value.
abbrev pub EdgeTo : BlockMap → List (ℕ × ℕ) → List (ℕ × ℕ) → ℕ → Type 0
EdgeTo m all [] value = ⊥
EdgeTo m all ((block, _) ∷ edges) value =
    ((loc : ℕ) × (find m block ≡ some loc) × (incoming_value all block ≡ some value))
    ⊎ EdgeTo m all edges value

-- getBrCond on a value of this view calls itself on `operand`.
abbrev pub Follows : Ir → BlockMap → View → ℕ → Type 0
Follows ir m (icmp pred a b) operand =
    ((is_strcmp (ir.view a) || is_strcmp (ir.view b)) ≡ true) × ((operand ≡ a) ⊎ (operand ≡ b))
Follows ir m (phi edges) operand = EdgeTo m edges edges operand
Follows ir m (or_inst a b) operand = (operand ≡ a) ⊎ (operand ≡ b)
Follows ir m (and_inst a b) operand = (operand ≡ a) ⊎ (operand ≡ b)
Follows ir m (xor_inst a b) operand = (operand ≡ a) ⊎ (operand ≡ b)
Follows ir m (fcmp pred) operand = ⊥
Follows ir m (call name) operand = ⊥
Follows ir m other_inst operand = ⊥
Follows ir m (constant is_zero) operand = ⊥
Follows ir m unidentified operand = ⊥

abbrev IsDone : Option Bytes → Type 0
IsDone o = o ≢ none

join-IsDone :
    (left right : Option Bytes) (joint : Bytes)
    → IsDone left
    → IsDone right
    → IsDone (join left joint right)
unfolding join
join-IsDone left right joint l r = ground arith

incoming_value_found :
    (before edges : List (ℕ × ℕ)) (block v : ℕ)
    → (value : ℕ) × (incoming_value (before ++ (block, v) ∷ edges) block ≡ some value)
unfolding incoming_value
incoming_value_found [] edges block v = (v, rw ==_self)
incoming_value_found ((b, w) ∷ before) edges block v =
    let (value, e) = incoming_value_found before edges block v in
    elim (Bool-cases (b == block)) [ inl same ↦ (w, rw same) | inr differ ↦ (value, rw differ e) ]

module _ (ir : Ir) (m : BlockMap) (text : ℕ → Option Bytes) where
  phi_text-IsDone :
      (all before edges : List (ℕ × ℕ))
      → all ≡ before ++ edges
      → ((operand : ℕ) → EdgeTo m all edges operand → IsDone (text operand))
      → IsDone (phi_text m text all edges)
  unfolding phi_text
  phi_text-IsDone all before [] split h = cc
  phi_text-IsDone all before ((block, v) ∷ edges) split h =
      let rest =
        phi_text-IsDone all (before ++ (block, v) ∷ []) edges
          (split ∙ sym (append_assoc before ((block, v) ∷ []) edges))
          (λ operand f. h operand (inr f)) in
      let (value, e) = incoming_value_found before edges block v in
      let found : incoming_value all block ≡ some value = rw split e in
      elim (Option-cases (find m block)) [
        | inl unknown ↦ ground arith
        | inr (loc, known) ↦ ground (arith, h value (inl (loc, known, found)))
      ]

  describe-IsDone :
      (w : View)
      → ((operand : ℕ) → Follows ir m w operand → IsDone (text operand))
      → IsDone (describe ir m text w)
  unfolding describe
  describe-IsDone (icmp pred a b) h =
      ground (arith, h a, h b, join-IsDone (text a) (text b) (codes "_"))
  describe-IsDone (fcmp pred) h = cc
  describe-IsDone (phi edges) h = ground (arith, phi_text-IsDone edges [] edges refl h)
  describe-IsDone (call none) h = cc
  describe-IsDone (call (some name)) h = cc
  describe-IsDone (or_inst a b) h =
      join-IsDone (text a) (text b) (codes " || ") (h a (inl refl)) (h b (inr refl))
  describe-IsDone (and_inst a b) h =
      join-IsDone (text a) (text b) (codes " && ") (h a (inl refl)) (h b (inr refl))
  describe-IsDone (xor_inst a b) h =
      join-IsDone (text a) (text b) (codes " ^ ") (h a (inl refl)) (h b (inr refl))
  describe-IsDone other_inst h = cc
  describe-IsDone (constant is_zero) h = cc
  describe-IsDone unidentified h = cc

  -- An operand whose text never comes leaves the whole without one.
  join-none :
      (a b : ℕ) (joint : Bytes) (operand : ℕ)
      → (operand ≡ a) ⊎ (operand ≡ b)
      → text operand ≡ none
      → join (text a) joint (text b) ≡ none
  unfolding join
  join-none a b joint operand (inl e) h = ground arith
  join-none a b joint operand (inr e) h = ground arith

  phi_text-none :
      (all edges : List (ℕ × ℕ)) (operand : ℕ)
      → EdgeTo m all edges operand
      → text operand ≡ none
      → phi_text m text all edges ≡ none
  unfolding phi_text
  phi_text-none all [] operand f h = absurd f
  phi_text-none all ((block, _) ∷ edges) operand (inl (loc, e, i)) h = ground arith
  phi_text-none all ((block, _) ∷ edges) operand (inr later) h =
      ground (arith, phi_text-none all edges operand later h)

  describe-none :
      (w : View) (operand : ℕ)
      → Follows ir m w operand
      → text operand ≡ none
      → describe ir m text w ≡ none
  unfolding describe
  describe-none (icmp pred a b) operand (test, side) h =
      ground (arith, join-none a b (codes "_") operand side h)
  describe-none (phi edges) operand f h = rw (phi_text-none edges edges operand f h)
  describe-none (or_inst a b) operand side h = join-none a b (codes " || ") operand side h
  describe-none (and_inst a b) operand side h = join-none a b (codes " && ") operand side h
  describe-none (xor_inst a b) operand side h = join-none a b (codes " ^ ") operand side h
  describe-none (fcmp pred) operand f h = absurd f
  describe-none (call name) operand f h = absurd f
  describe-none other_inst operand f h = absurd f
  describe-none (constant is_zero) operand f h = absurd f
  describe-none unidentified operand f h = absurd f

br_cond-IsDone :
    (ir : Ir) (m : BlockMap) (rank : ℕ → ℕ)
    → ((value operand : ℕ) → Follows ir m (ir.view value) operand → rank operand < rank value)
    → (depth value : ℕ) → rank value < depth
    → IsDone (br_cond ir m depth value)
unfolding br_cond
br_cond-IsDone ir m rank falls zero value h = absurd (omega arith)
br_cond-IsDone ir m rank falls (suc depth) value h =
    describe-IsDone ir m (br_cond ir m depth) (ir.view value) λ operand f.
      br_cond-IsDone ir m rank falls depth operand (omega (arith, falls value operand f))

-- If the operands that getBrCond follows fall in rank, it returns a text at every value, with any
-- fuel above the value's rank.
pub br_cond_total :
    (ir : Ir) (m : BlockMap) (rank : ℕ → ℕ)
    → ((value operand : ℕ) → Follows ir m (ir.view value) operand → rank operand < rank value)
    → (depth value : ℕ) → rank value < depth
    → (text : Bytes) × (br_cond ir m depth value ≡ some text)
br_cond_total ir m rank falls depth value h = elim (Option-cases (br_cond ir m depth value)) [
  | inl out ↦ absurd (br_cond-IsDone ir m rank falls depth value h out)
  | inr done ↦ done
]

-- If every value of a set has an operand in the set that getBrCond follows, as on a loop-carried
-- phi node, then it returns at no value of the set, however deep the recursion may go.
pub br_cond_diverges :
    (ir : Ir) (m : BlockMap) (S : ℕ → Type 0)
    → ((value : ℕ) → S value → (operand : ℕ) × Follows ir m (ir.view value) operand × S operand)
    → (depth value : ℕ) → S value
    → br_cond ir m depth value ≡ none
unfolding br_cond
br_cond_diverges ir m S next zero value s = refl
br_cond_diverges ir m S next (suc depth) value s =
    let (operand, f, s') = next value s in
    describe-none ir m (br_cond ir m depth) (ir.view value) operand f
      (br_cond_diverges ir m S next depth operand s')

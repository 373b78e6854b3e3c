-- ===== src/Pass/Condition/Plain.antt =====
-- Which characters getBrCond of trace/trace-pass.so.cc writes.
use co_fuzz.Prelude.{
  ℕ, zero, suc, ◌<◌, ◌≡◌, ◌≢◌, refl, Bool, true, false, ◌||◌, ◌++◌, List, [], ◌∷◌, Option, none,
  some, if◌then◌else◌, arith, Option-cases, inl, inr, subst, sym,
}
use co_fuzz.Prelude.Text.{Bytes, codes, All, All-append}
use co_fuzz.Prelude.Decimal.{decimal, decimal-IsDigit, IsDigit}
use co_fuzz.Pass.Ir.{
  View, icmp, fcmp, phi, call, or_inst, and_inst, xor_inst, other_inst, constant, unidentified, Ir,
  incoming_value, is_strcmp,
}
use co_fuzz.Pass.BlockIds.{BlockMap, find}
use co_fuzz.Pass.Condition.{◌>>=◌, join, icmp_text, phi_text, describe, br_cond}

-- An ASCII character that ends neither a line nor a C string.
abbrev pub IsPlain : ℕ → Type 0
IsPlain c = (0 < c) × (c < 128) × (c ≢ b'\n') × (c ≢ b'\r')

-- The names of the called functions are of plain characters.
abbrev pub HasPlainNames : Ir → Type 0
HasPlainNames ir = (value : ℕ) (name : Bytes) → ir.view value ≡ call (some name) → All IsPlain name

abbrev IsPlainText : Option Bytes → Type 0
IsPlainText none = Unit
IsPlainText (some t) = All IsPlain t

IsPlain-append : (s t : Bytes) → All IsPlain s → All IsPlain t → All IsPlain (s ++ t)
IsPlain-append = All-append IsPlain

pub digits-IsPlain : (s : Bytes) → All IsDigit s → All IsPlain s
digits-IsPlain [] h = tt
digits-IsPlain (c ∷ s) (h, hs) =
    ((omega arith, omega arith, omega arith, omega arith), digits-IsPlain s hs)

pub decimal-IsPlain : (n : ℕ) → All IsPlain (decimal n)
decimal-IsPlain n = digits-IsPlain (decimal n) (decimal-IsDigit n)

join-IsPlain :
    (left right : Option Bytes) (joint : Bytes)
    → All IsPlain joint
    → IsPlainText left
    → IsPlainText right
    → IsPlainText (join left joint right)
unfolding join
join-IsPlain none right joint j l r = tt
join-IsPlain (some s) none joint j l r = tt
join-IsPlain (some s) (some t) joint j l r =
    IsPlain-append s (joint ++ t) l (IsPlain-append joint t j r)

width_text-IsPlain :
    (width : Option ℕ) → All IsPlain (elim width [ none ↦ [] | some w ↦ codes "_i" ++ decimal w ])
width_text-IsPlain none = tt
width_text-IsPlain (some w) =
    IsPlain-append (codes "_i") (decimal w) (omega arith) (decimal-IsPlain w)

icmp_text-IsPlain : (ir : Ir) (pred a : ℕ) → All IsPlain (icmp_text ir pred a)
unfolding icmp_text
icmp_text-IsPlain ir pred a =
    IsPlain-append (codes "icmp_pred@") _ (omega arith)
      (IsPlain-append (decimal pred) _ (decimal-IsPlain pred) (width_text-IsPlain (ir.bit_width a)))

if-IsPlain :
    (b : Bool) (x y : Option Bytes)
    → IsPlainText x
    → IsPlainText y
    → IsPlainText (if b then x else y)
if-IsPlain true x y hx hy = hx
if-IsPlain false x y hx hy = hy

prefixed-IsPlain :
    (p : Bytes) (o : Option Bytes)
    → All IsPlain p
    → IsPlainText o
    → IsPlainText (o >>= λ t. some (p ++ t))
prefixed-IsPlain p none hp h = tt
prefixed-IsPlain p (some t) hp h = IsPlain-append p t hp h

-- One edge of a phi node, in front of the others.
edge-IsPlain :
    (loc : ℕ) (text rest : Option Bytes)
    → IsPlainText text
    → IsPlainText rest
    → IsPlainText (do
      v ← text
      tail ← rest
      some (codes "(" ++ (decimal loc ++ (codes "," ++ (v ++ (codes ")" ++ tail))))))
edge-IsPlain loc none rest h hr = tt
edge-IsPlain loc (some v) none h hr = tt
edge-IsPlain loc (some v) (some tail) h hr = IsPlain-append (codes "(") _ (omega arith) (
    IsPlain-append (decimal loc) _ (decimal-IsPlain loc) (
      IsPlain-append (codes ",") _ (omega arith)
        (IsPlain-append v _ h (IsPlain-append (codes ")") tail (omega arith) hr))))

module _ (ir : Ir) (m : BlockMap) (text : ℕ → Option Bytes)
    (plain : (operand : ℕ) → IsPlainText (text operand)) where
  phi_text-IsPlain : (all edges : List (ℕ × ℕ)) → IsPlainText (phi_text m text all edges)
  unfolding phi_text
  phi_text-IsPlain all [] = tt
  phi_text-IsPlain all ((block, v) ∷ edges) =
      let rest = phi_text-IsPlain all edges in
      elim (Option-cases (find m block)) [
        | inl unknown ↦ subst IsPlainText (sym (skip unknown)) rest
        | inr (loc, known) ↦ elim (Option-cases (incoming_value all block)) [
          | inl missing ↦ subst IsPlainText (sym (stop loc known missing)) tt
          | inr (value, found) ↦
              subst IsPlainText (sym (take_edge loc value known found))
                (edge-IsPlain loc (text value) _ (plain value) rest)
        ]
      ]
    where
      skip :
          find m block ≡ none → phi_text m text all ((block, v) ∷ edges) ≡ phi_text m text all edges
      skip e = ground arith

      stop :
          (loc : ℕ)
          → find m block ≡ some loc
          → incoming_value all block ≡ none
          → phi_text m text all ((block, v) ∷ edges) ≡ none
      stop loc e i = ground arith

      take_edge :
          (loc value : ℕ)
          → find m block ≡ some loc
          → incoming_value all block ≡ some value
          → phi_text m text all ((block, v) ∷ edges) ≡ (do
            t ← text value
            tail ← phi_text m text all edges
            some (codes "(" ++ (decimal loc ++ (codes "," ++ (t ++ (codes ")" ++ tail))))))
      take_edge loc value e i = ground arith

  describe-IsPlain :
      (w : View)
      → ((name : Bytes) → w ≡ call (some name) → All IsPlain name)
      → IsPlainText (describe ir m text w)
  unfolding describe
  describe-IsPlain (icmp pred a b) names =
      if-IsPlain (is_strcmp (ir.view a) || is_strcmp (ir.view b)) _ (some (icmp_text ir pred a))
        (prefixed-IsPlain (codes "icmp_") _ (omega arith)
          (join-IsPlain (text a) (text b) (codes "_") (omega arith) (plain a) (plain b)))
        (icmp_text-IsPlain ir pred a)
  describe-IsPlain (fcmp pred) names =
      IsPlain-append (codes "fcmp_pred@") _ (omega arith) (decimal-IsPlain pred)
  describe-IsPlain (phi edges) names =
      prefixed-IsPlain (codes "phi@") _ (omega arith) (phi_text-IsPlain edges edges)
  describe-IsPlain (call none) names = omega arith
  describe-IsPlain (call (some name)) names =
      IsPlain-append (codes "call@") name (omega arith) (names name refl)
  describe-IsPlain (or_inst a b) names =
      join-IsPlain (text a) (text b) (codes " || ") (omega arith) (plain a) (plain b)
  describe-IsPlain (and_inst a b) names =
      join-IsPlain (text a) (text b) (codes " && ") (omega arith) (plain a) (plain b)
  describe-IsPlain (xor_inst a b) names =
      join-IsPlain (text a) (text b) (codes " ^ ") (omega arith) (plain a) (plain b)
  describe-IsPlain other_inst names = omega arith
  describe-IsPlain (constant true) names = omega arith
  describe-IsPlain (constant false) names = omega arith
  describe-IsPlain unidentified names = omega arith

br_cond-IsPlainText :
    (ir : Ir) (m : BlockMap)
    → HasPlainNames ir
    → (depth value : ℕ) → IsPlainText (br_cond ir m depth value)
unfolding br_cond
br_cond-IsPlainText ir m names zero value = tt
br_cond-IsPlainText ir m names (suc depth) value =
    describe-IsPlain ir m (br_cond ir m depth) (br_cond-IsPlainText ir m names depth)
      (ir.view value) (names value)

-- The text that getBrCond returns is plain ASCII, with no end of line, if the names of the called
-- functions are.
pub br_cond-IsPlain :
    (ir : Ir) (m : BlockMap) (depth value : ℕ) {text : Bytes}
    → HasPlainNames ir
    → br_cond ir m depth value ≡ some text
    → All IsPlain text
br_cond-IsPlain ir m depth value {text} names e =
    rw e at (br_cond-IsPlainText ir m names depth value)

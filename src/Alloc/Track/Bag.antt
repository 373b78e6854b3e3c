-- ===== src/Alloc/Track/Bag.antt =====
-- How often a pointer stands in an array of trace/include/alloc-inl.h's table TRK.
use co_fuzz.Prelude.{
  ℕ, ◌+◌, ◌≡◌, ◌≢◌, refl, Bool, List, [], ◌∷◌, ◌++◌, none, some, ◌==◌, length, if◌then◌else◌, arith,
  Option-cases, inl, inr,
}
use co_fuzz.Alloc.Heap.{null}
use co_fuzz.Alloc.Track.{Slot, fill, clear}

abbrev pub one_if : Bool → ℕ
one_if b = if b then 1 else 0

abbrev pub occurs : ℕ → List Slot → ℕ
occurs q [] = 0
occurs q (s ∷ ss) = one_if (s.ptr == q) + occurs q ss

pub occurs-append : (q : ℕ) (xs ys : List Slot) → occurs q (xs ++ ys) ≡ occurs q xs + occurs q ys
occurs-append q [] ys = omega arith
occurs-append q (s ∷ xs) ys = omega (arith, occurs-append q xs ys)

-- Filling an entry adds the pointer once.
pub occurs-fill :
    (q : ℕ) (new : Slot) (ss ss' : List Slot)
    → q ≢ null
    → fill new ss ≡ some ss'
    → occurs q ss' ≡ one_if (new.ptr == q) + occurs q ss
unfolding fill
occurs-fill q new [] ss' ne e = absurd (cc)
occurs-fill q new (s ∷ ss) ss' ne e = elim (Option-cases (fill new ss)) [
  | inl full ↦ ground arith
  | inr (later, some_later) ↦ ground (arith, occurs-fill q new ss later ne some_later)
]

pub length-fill :
    (new : Slot) (ss ss' : List Slot) → fill new ss ≡ some ss' → length ss' ≡ length ss
unfolding fill
length-fill new [] ss' e = absurd (cc)
length-fill new (s ∷ ss) ss' e = elim (Option-cases (fill new ss)) [
  | inl full ↦ ground arith
  | inr (later, some_later) ↦ ground (arith, length-fill new ss later some_later)
]

-- Clearing an entry takes the pointer away once.
pub occurs-clear :
    (q p : ℕ) (ss ss' : List Slot)
    → q ≢ null
    → clear p ss ≡ some ss'
    → occurs q ss' + one_if (p == q) ≡ occurs q ss
unfolding clear
occurs-clear q p [] ss' ne e = absurd (cc)
occurs-clear q p (s ∷ ss) ss' ne e = elim (Option-cases (clear p ss)) [
  | inl missing ↦ ground arith
  | inr (later, some_later) ↦ ground (arith, occurs-clear q p ss later ne some_later)
]

pub length-clear : (p : ℕ) (ss ss' : List Slot) → clear p ss ≡ some ss' → length ss' ≡ length ss
unfolding clear
length-clear p [] ss' e = absurd (cc)
length-clear p (s ∷ ss) ss' e = elim (Option-cases (clear p ss)) [
  | inl missing ↦ ground arith
  | inr (later, some_later) ↦ ground (arith, length-clear p ss later some_later)
]

-- Where no entry is cleared, the pointer does not stand in the array.
pub occurs-clear-none : (p : ℕ) (ss : List Slot) → clear p ss ≡ none → occurs p ss ≡ 0
unfolding clear
occurs-clear-none p [] e = refl
occurs-clear-none p (s ∷ ss) e = elim (Option-cases (clear p ss)) [
  | inl missing ↦ ground (arith, occurs-clear-none p ss missing)
  | inr (later, some_later) ↦ ground arith
]

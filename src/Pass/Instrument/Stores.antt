-- ===== src/Pass/Instrument/Stores.antt =====
-- The stores that trace/trace-pass.so.cc inserts at a switch, and what they leave in the arrays.
use co_fuzz.Prelude.{
  ℕ, suc, ◌+◌, ◌<◌, ◌≡◌, refl, ◌++◌, List, [], ◌∷◌, Option, none, some, length, set, arith,
  length-append, set-append_length, append_assoc, Option-cases, inl, inr, ap,
}
use co_fuzz.Prelude.Text.{Bytes, All}
use co_fuzz.Pass.BlockIds.{BlockMap, index}
use co_fuzz.Pass.BlockIds.Init.{Has, index-Has}
use co_fuzz.Pass.Instrument.{Inst, store_loc, store_taken, visit_cases}
use co_fuzz.Pass.Instrument.Machine.{Frame, frame, step, execute, switch_dest, taken_bit}
use co_fuzz.Runtime.{or_default}
use co_fuzz.Runtime.Switch.{first_covered}

-- The id of a block.
abbrev pub id : BlockMap → ℕ → ℕ
id m block = (index m block).0

-- Every case's successor has an id.
abbrev pub AllHas : BlockMap → List (ℕ × ℕ) → Type 0
AllHas m = All (λ c. Has m c.1)

-- The inserted stores, for a map that knows every successor.
pub case_stores : BlockMap → (condition idx : ℕ) → List (ℕ × ℕ) → List Inst
case_stores m condition idx [] = []
case_stores m condition idx ((case_value, succ) ∷ cases) =
    store_loc idx (id m succ)
    ∷ store_taken idx condition case_value
    ∷ case_stores m condition (idx + 1) cases

pub visit_cases-case_stores :
    (m : BlockMap) (condition idx : ℕ) (cases : List (ℕ × ℕ))
    → AllHas m cases
    → visit_cases m condition idx cases ≡ (case_stores m condition idx cases, m)
unfolding visit_cases case_stores
visit_cases-case_stores m condition idx [] h = refl
visit_cases-case_stores m condition idx ((case_value, succ) ∷ cases) (h, hs) =
    ground (arith, index-Has m succ h, visit_cases-case_stores m condition (idx + 1) cases hs)

-- What the two arrays hold behind the stores.
pub covered : ℕ → List (ℕ × ℕ) → Bytes
covered value [] = []
covered value ((case_value, succ) ∷ cases) = taken_bit value case_value ∷ covered value cases

pub case_ids : BlockMap → List (ℕ × ℕ) → List ℕ
case_ids m [] = []
case_ids m ((case_value, succ) ∷ cases) = id m succ ∷ case_ids m cases

pub length-covered :
    (value : ℕ) (cases : List (ℕ × ℕ)) → length (covered value cases) ≡ length cases
unfolding covered
length-covered value [] = refl
length-covered value (c ∷ cases) = ap suc (length-covered value cases)

pub length-case_ids :
    (m : BlockMap) (cases : List (ℕ × ℕ)) → length (case_ids m cases) ≡ length cases
unfolding case_ids
length-case_ids m [] = refl
length-case_ids m (c ∷ cases) = ap suc (length-case_ids m cases)

-- The reported id is that of the destination, or the default's if that is 0.
pub or_default-first_covered :
    (m : BlockMap) (value default_dest : ℕ) (cases : List (ℕ × ℕ))
    → or_default (first_covered (covered value cases) (case_ids m cases)) (id m default_dest)
      ≡ or_default (id m (switch_dest value default_dest cases)) (id m default_dest)
unfolding covered case_ids
or_default-first_covered m value default_dest [] = ground arith
or_default-first_covered m value default_dest ((case_value, succ) ∷ cases) =
    ground (arith, or_default-first_covered m value default_dest cases)

set-append_at :
    {n : ℕ} (xs : List ℕ) (y v : ℕ) (ys : List ℕ)
    → length xs ≡ n
    → set (xs ++ y ∷ ys) n v ≡ xs ++ v ∷ ys
set-append_at xs y v ys e = rw (← e) (set-append_length xs y v ys)

lt-length_at :
    {n : ℕ} (xs : List ℕ) (y : ℕ) (ys : List ℕ) → length xs ≡ n → n < length (xs ++ y ∷ ys)
lt-length_at xs y ys e = omega (arith, length-append xs (y ∷ ys))

module _ (values : ℕ → ℕ) (garbage : ℕ → ℕ) where
  -- Running on behind a run that may have failed.
  abbrev resume : List Inst → Option Frame → Option Frame
  resume ys none = none
  resume ys (some t) = execute values garbage ys t

  pub execute-append :
      (xs ys : List Inst) (s : Frame)
      → execute values garbage (xs ++ ys) s ≡ resume ys (execute values garbage xs s)
  unfolding execute
  execute-append [] ys s = refl
  execute-append (i ∷ xs) ys s = elim (Option-cases (step values garbage i s)) [
    | inl e ↦ ground arith
    | inr (s', e) ↦ ground (arith, execute-append xs ys s')
  ]

  step-store_loc :
      (n loc k : ℕ) (cov : Bytes) (pl gl : List ℕ) (err : Bytes)
      → length pl ≡ n
      → step values garbage (store_loc n loc) (frame cov (pl ++ k ∷ gl) err)
        ≡ some (frame cov (pl ++ loc ∷ gl) err)
  unfolding step
  step-store_loc n loc k cov pl gl err e =
      ground (arith, lt-length_at pl k gl e, set-append_at pl k loc gl e)

  step-store_taken :
      (n condition case_value g : ℕ) (pc gc : Bytes) (loc : List ℕ) (err : Bytes)
      → length pc ≡ n
      → step values garbage (store_taken n condition case_value) (frame (pc ++ g ∷ gc) loc err)
        ≡ some (frame (pc ++ taken_bit (values condition) case_value ∷ gc) loc err)
  unfolding step
  step-store_taken n condition case_value g pc gc loc err e =
      let bit = taken_bit (values condition) case_value in
      ground (arith, lt-length_at pc g gc e, set-append_at pc g bit gc e)

  pub execute-case_stores :
      (m : BlockMap) (condition n : ℕ) (cases : List (ℕ × ℕ)) (pc gc : Bytes) (pl gl : List ℕ)
      (err : Bytes)
      → length pc ≡ n
      → length pl ≡ n
      → length gc ≡ length cases
      → length gl ≡ length cases
      → execute values garbage (case_stores m condition n cases) (frame (pc ++ gc) (pl ++ gl) err)
        ≡ some (frame (pc ++ covered (values condition) cases) (pl ++ case_ids m cases) err)
  unfolding execute case_stores covered case_ids
  execute-case_stores m condition n [] pc [] pl [] err ec el ecg elg = refl
  execute-case_stores m condition n [] pc (g ∷ gc) pl gl err ec el ecg elg = absurd (omega arith)
  execute-case_stores m condition n [] pc [] pl (g ∷ gl) err ec el ecg elg = absurd (omega arith)
  execute-case_stores m condition n (c ∷ cases) pc [] pl gl err ec el ecg elg = absurd (omega arith)
  execute-case_stores m condition n (c ∷ cases) pc (g ∷ gc) pl [] err ec el ecg elg =
      absurd (omega arith)
  execute-case_stores m condition n ((case_value, succ) ∷ cases) pc (g ∷ gc) pl (k ∷ gl) err ec el
        ecg elg =
      let bit = taken_bit (values condition) case_value in
      let loc = id m succ in
      let later =
        execute-case_stores m condition (n + 1) cases (pc ++ bit ∷ []) gc (pl ++ loc ∷ []) gl err
          (omega (arith, length-append pc (bit ∷ []))) (omega (arith, length-append pl (loc ∷ [])))
          (omega arith) (omega arith) in
      ground (
        arith,
        step-store_loc n loc k (pc ++ g ∷ gc) pl gl err el,
        step-store_taken n condition case_value g pc gc (pl ++ loc ∷ gl) err ec,
        rw
            (
              append_assoc pc (bit ∷ []) gc,
              append_assoc pl (loc ∷ []) gl,
              append_assoc pc (bit ∷ []) (covered (values condition) cases),
              append_assoc pl (loc ∷ []) (case_ids m cases),
            )
            at later,
      )

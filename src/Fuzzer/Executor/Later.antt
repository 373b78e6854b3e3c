-- ===== src/Fuzzer/Executor/Later.antt =====
-- The states that an executor comes to by __solve_seed and __crack_seed of src/fuzz/executor.py.
use co_fuzz.Prelude.{
  ℕ, ◌+◌, ◌≡◌, refl, true, List, [], ◌∷◌, Option, none, some, ◌==◌, arith, Bool-cases, inl, inr,
}
use co_fuzz.Prelude.Text.{Bytes, codes}
use co_fuzz.Tracer.Python.{Unicode}
use co_fuzz.Fuzzer.Bitmap.{is_interesting, update_bitmap}
use co_fuzz.Fuzzer.Bitmap.Learns.{Grows, start, merged, updated}
use co_fuzz.Fuzzer.Names.{identify_id}
use co_fuzz.Fuzzer.Constraints.{dump_constraint}
use co_fuzz.Fuzzer.Executor.{
  Exit, exited, killed, Testcase, Executor, save_interesting, save_hang, save_crash, save_covering,
  sync_exited, sync_seed, ◌>>=◌, sync_all, is_solved, solve_seed,
}
use co_fuzz.Fuzzer.Cracking.{
  Counts, add_count, in_order, crack_testcases, crack_constraints, crack_seed,
}

-- The states that any number of calls, for any seeds and test cases, lead to without an exception.
pub data Reaches (u : Unicode) (e : Executor) : Executor → Type 0 where
  here : Reaches u e e
  solving :
      {f g : Executor} (before : Reaches u e f) (name : Bytes) (file : Option Bytes)
      (ts : List Testcase)
      → solve_seed u name file ts f ≡ some g
      → Reaches u e g
  cracking :
      {f g : Executor} (before : Reaches u e f) (sampler : ℕ → Bytes → List Testcase)
      (name constraint_info : Bytes) (file : Option Bytes) (counts : Counts)
      → crack_seed u sampler name constraint_info file f ≡ some (counts, g)
      → Reaches u e g

pub Grows_trans : {bs cs ds : List ℕ} → Grows bs cs → Grows cs ds → Grows bs ds
Grows_trans first (start bs) = first
Grows_trans first (merged before ts count e) = merged (Grows_trans first before) ts count e
Grows_trans first (updated before file e) = updated (Grows_trans first before) file e

-- The map only grows, and the solved seeds stay.
pub record Follows (e f : Executor) : Type 0 where
  pub grows : Grows e.afl_map f.afl_map
  pub solved : (n : Bytes) → is_solved n e.solved_seeds ≡ true → is_solved n f.solved_seeds ≡ true

Follows-self : (e : Executor) → Follows e e
Follows-self e = record { grows = start e.afl_map; solved = λ n h. h }

Follows-trans : (e f g : Executor) → Follows e f → Follows f g → Follows e g
Follows-trans e f g a b = record {
  grows = Grows_trans a.grows b.grows;
  solved = λ n h. b.solved n (a.solved n h);
}

-- The result has the property, if there is one.
abbrev OnSome : {A : Type 0} → (A → Type 0) → Option A → Type 0
OnSome P none = Unit {0}
OnSome P (some a) = P a

OnSome-bind :
    {A B : Type 0} (P : A → Type 0) (Q : B → Type 0) (r : Option A) (k : A → Option B)
    → OnSome P r
    → ((a : A) → P a → OnSome Q (k a))
    → OnSome Q (r >>= k)
OnSome-bind P Q none k p next = tt
OnSome-bind P Q (some a) k p next = next a p

OnSome-some : {A : Type 0} (P : A → Type 0) (r : Option A) (a : A) → r ≡ some a → OnSome P r → P a
OnSome-some P r a e p = rw e at p

update_bitmap-Grows :
    (bs : List ℕ) (file : Option Bytes) (r : Option (List ℕ))
    → update_bitmap bs file ≡ r
    → OnSome (λ cs. Grows bs cs) r
update_bitmap-Grows bs file none e = tt
update_bitmap-Grows bs file (some cs) e = updated (start bs) file e

module _ (t : Testcase) (src op : Bytes) (e : Executor) where
  save_covering-Follows :
      (r : Option (ℕ × List ℕ))
      → is_interesting e.afl_map t.bitmap ≡ r
      → OnSome (λ p. Follows e p.1) (save_covering r t src op e)
  unfolding save_covering save_interesting
  save_covering-Follows none at = tt
  save_covering-Follows (some (count, bitmap)) at =
      let grown : Grows e.afl_map bitmap = merged (start e.afl_map) t.bitmap count at in
      elim (Bool-cases (count == 0)) [
        | inl known ↦ rw known (record { grows = grown; solved = λ n h. h })
        | inr new ↦ rw new (record { grows = grown; solved = λ n h. h })
      ]

  sync_exited-Follows : (ret : ℕ) → OnSome (λ p. Follows e p.1) (sync_exited ret t src op e)
  unfolding sync_exited save_hang save_crash
  sync_exited-Follows ret = elim (Bool-cases (ret == 0)) [
    | inl normal ↦ rw normal (save_covering-Follows (is_interesting e.afl_map t.bitmap) refl)
    | inr abnormal ↦ elim (Bool-cases (ret == 1)) [
      | inl hung ↦ rw (abnormal, hung) (record { grows = start e.afl_map; solved = λ n h. h })
      | inr not_hung ↦ elim (Bool-cases (ret == 2)) [
        | inl crashed ↦
            rw (abnormal, not_hung, crashed) (record { grows = start e.afl_map; solved = λ n h. h })
        | inr unknown ↦ rw (abnormal, not_hung, unknown) (Follows-self e)
      ]
    ]
  ]

  sync_seed-Follows : OnSome (λ p. Follows e p.1) (sync_seed t src op e)
  unfolding sync_seed
  sync_seed-Follows = by_exit t.ret
    where
      by_exit :
          (ret : Exit)
          → OnSome
              (λ p. Follows e p.1)
              (elim ret [ exited r ↦ sync_exited r t src op e | killed ↦ some (0, e) ])
      by_exit (exited r) = sync_exited-Follows r
      by_exit killed = Follows-self e

-- From a state that follows `e`.
sync_all-Follows :
    (src : Bytes) (ts : List Testcase) (e f : Executor)
    → Follows e f
    → OnSome (Follows e) (sync_all src ts f)
unfolding sync_all
sync_all-Follows src [] e f before = before
sync_all-Follows src (t ∷ ts) e f before =
    OnSome-bind (λ p. Follows f p.1) (Follows e) (sync_seed t src (codes "concolic") f) _
      (sync_seed-Follows t src (codes "concolic") f)
      (λ (count, g) step. sync_all-Follows src ts e g (Follows-trans e f g before step))

crack_testcases-Follows :
    (addr : ℕ) (src : Bytes) (ts : List Testcase) (counts : Counts) (e f : Executor)
    → Follows e f
    → OnSome (λ p. Follows e p.1) (crack_testcases addr src ts counts f)
unfolding crack_testcases
crack_testcases-Follows addr src [] counts e f before = before
crack_testcases-Follows addr src (t ∷ ts) counts e f before =
    OnSome-bind (λ p. Follows f p.1) (λ p. Follows e p.1) (sync_seed t src (codes "crack") f) _
      (sync_seed-Follows t src (codes "crack") f)
      (λ (count, g) step.
        crack_testcases-Follows addr src ts (add_count addr count counts) e g
          (Follows-trans e f g before step))

crack_constraints-Follows :
    (sampler : ℕ → Bytes → List Testcase) (k : ℕ) (src : Bytes) (cs : List (ℕ × Bytes))
    (counts : Counts) (e f : Executor)
    → Follows e f
    → OnSome (λ p. Follows e p.1) (crack_constraints sampler k src cs counts f)
unfolding crack_constraints
crack_constraints-Follows sampler k src [] counts e f before = before
crack_constraints-Follows sampler k src ((addr, c) ∷ cs) counts e f before =
    OnSome-bind (λ p. Follows e p.1) (λ p. Follows e p.1)
      (crack_testcases addr src (sampler k c) counts f) _
      (crack_testcases-Follows addr src (sampler k c) counts e f before)
      (λ (counts', g) step. crack_constraints-Follows sampler (k + 1) src cs counts' e g step)

with_map :
    (e : Executor) (bitmap : List ℕ)
    → Grows e.afl_map bitmap
    → Follows e (record e { afl_map = bitmap })
with_map e bitmap grows = record { grows = grows; solved = λ n h. h }

solve_seed-Follows :
    (u : Unicode) (name : Bytes) (file : Option Bytes) (ts : List Testcase) (e : Executor)
    → OnSome (Follows e) (solve_seed u name file ts e)
unfolding solve_seed is_solved
solve_seed-Follows u name file ts e = elim (Bool-cases (is_solved name e.solved_seeds)) [
  | inl solved ↦ rw solved (Follows-self e)
  | inr unsolved ↦ rw unsolved (
      OnSome-bind (Grows e.afl_map) (Follows e) (update_bitmap e.afl_map file) _
        (update_bitmap-Grows e.afl_map file (update_bitmap e.afl_map file) refl)
        λ bitmap grows.
          OnSome-bind (Follows e) (Follows e)
            (sync_all (identify_id u name) ts (record e { afl_map = bitmap })) _
            (sync_all-Follows (identify_id u name) ts e (record e { afl_map = bitmap })
              (with_map e bitmap grows))
            (λ f step. record {
              grows = step.grows;
              solved = λ n h. ground (arith, step.solved n h);
            }))
]

crack_seed-Follows :
    (u : Unicode) (sampler : ℕ → Bytes → List Testcase) (name info : Bytes) (file : Option Bytes)
    (e : Executor)
    → OnSome (λ p. Follows e p.1) (crack_seed u sampler name info file e)
unfolding crack_seed
crack_seed-Follows u sampler name info file e =
    OnSome-bind (Grows e.afl_map) (λ p. Follows e p.1) (update_bitmap e.afl_map file) _
      (update_bitmap-Grows e.afl_map file (update_bitmap e.afl_map file) refl)
      λ bitmap grows.
        crack_constraints-Follows sampler 0 (identify_id u name) (in_order (dump_constraint u info))
          [] e (record e { afl_map = bitmap }) (with_map e bitmap grows)

pub Reaches-Follows : (u : Unicode) {e f : Executor} → Reaches u e f → Follows e f
Reaches-Follows u {e} here = Follows-self e
Reaches-Follows u {e} (solving {f} {g} before name file ts run) =
    Follows-trans e f g (Reaches-Follows u before) (
      OnSome-some (Follows f) (solve_seed u name file ts f) g run
        (solve_seed-Follows u name file ts f))
Reaches-Follows u {e} (cracking {f} {g} before sampler name info file counts run) =
    Follows-trans e f g (Reaches-Follows u before) (
      OnSome-some (λ p. Follows f p.1) (crack_seed u sampler name info file f) (counts, g) run
        (crack_seed-Follows u sampler name info file f))

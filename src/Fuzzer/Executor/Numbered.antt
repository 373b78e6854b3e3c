-- ===== src/Fuzzer/Executor/Numbered.antt =====
-- The names of the files that src/fuzz/executor.py saves.
use co_fuzz.Prelude.{
  ℕ, ◌+◌, ◌≤◌, ◌≡◌, refl, sym, ◌∙◌, false, [], ◌∷◌, ◌++◌, arith, Bool-cases, inl, inr,
}
use co_fuzz.Prelude.Text.{Bytes, text_eq, text_eq→eq}
use co_fuzz.Tracer.Python.{Unicode}
use co_fuzz.Fuzzer.Names.{seed_name, seed_name-idx}
use co_fuzz.Fuzzer.Executor.{Files, has_file, save, Executor}

-- The files of a directory are numbered from 0 on, and there are `n`.
abbrev pub Numbered : Files → ℕ → Type 0
Numbered [] n = n ≡ 0
Numbered ((name, content) ∷ files) n =
    (m : ℕ) × (src : Bytes) × (op : Bytes) × (n ≡ m + 1)
    × (name ≡ seed_name m src op)
    × Numbered files m

-- The counters are the numbers of the files.
pub record Counted (e : Executor) : Type 0 where
  pub queue : Numbered e.concolic_queue e.interesting_cnt
  pub hangs : Numbered e.concolic_hangs e.hang_cnt
  pub crashes : Numbered e.concolic_crash e.crash_cnt

has_file-Numbered :
    (u : Unicode) (files : Files) (n k : ℕ) (src op : Bytes)
    → Numbered files n
    → n ≤ k
    → has_file (seed_name k src op) files ≡ false
unfolding has_file
has_file-Numbered u [] n k src op h le = refl
has_file-Numbered u ((name, content) ∷ files) n k src op (m, src', op', e, named, rest) le =
    elim (Bool-cases (text_eq name (seed_name k src op))) [
      | inl same ↦
          let eq : name ≡ seed_name k src op = text_eq→eq name (seed_name k src op) same in
          let idx : m ≡ k = seed_name-idx u m k src' op' src op (sym named ∙ eq) in
          absurd (omega arith)
      | inr differ ↦ rw (differ, has_file-Numbered u files m k src op rest (omega arith)) refl
    ]

-- A seed under the next number is a new file.
pub save-Numbered :
    (u : Unicode) (files : Files) (n : ℕ) (src op content : Bytes)
    → Numbered files n
    → save (seed_name n src op) content files ≡ (seed_name n src op, content) ∷ files
unfolding save
save-Numbered u files n src op content h =
    rw (has_file-Numbered u files n n src op h (omega arith)) refl

-- The files that are added to a directory.
abbrev pub Extends : Files → Files → Type 0
Extends old files = (added : Files) × (files ≡ added ++ old)

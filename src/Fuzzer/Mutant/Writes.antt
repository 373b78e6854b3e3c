-- ===== src/Fuzzer/Mutant/Writes.antt =====
-- Which bytes __save_seed of src/fuzz/sync.py changes.
use co_fuzz.Prelude.{
  ℕ, ◌<◌, ◌≡◌, refl, sym, ap, subst, ◌∙◌, List, [], ◌∷◌, Option, none, some, ◌==◌, length, set,
  length-set, get_elem?, if◌then◌else◌, arith, Option-cases, inl, inr,
}
use co_fuzz.Prelude.Text.{Bytes, All}
use co_fuzz.Tracer.Python.{Unicode}
use co_fuzz.Fuzzer.CrackMap.Marks.{get_elem?-set}
use co_fuzz.Fuzzer.Mutant.{match_index, assign, save_seed}

-- A variable of another name, or a byte at an offset inside the seed.
abbrev pub IsWritable : Unicode → (size : ℕ) → Bytes × ℕ → Type 0
IsWritable u size (k_name, value) = elim (match_index u k_name) [
  | none ↦ Unit {0}
  | some offset ↦ (offset < size) × (value < 256)
]

-- The last value for a place, or what it held.
abbrev pub value_at : Unicode → List (Bytes × ℕ) → (place : ℕ) → Option ℕ → Option ℕ
value_at u [] place old = old
value_at u ((k_name, value) ∷ offsets) place old =
    value_at u offsets place (elim (match_index u k_name) [
      | none ↦ old
      | some offset ↦ if offset == place then some value else old
    ])

pub record Writes (u : Unicode) (offsets : List (Bytes × ℕ)) (arr : Bytes) (r : Option Bytes)
    : Type 0 where
  pub mutant : Bytes
  pub run : r ≡ some mutant
  pub size : length mutant ≡ length arr
  pub bytes : (place : ℕ) → get_elem? mutant place ≡ value_at u offsets place (get_elem? arr place)

assign-some :
    (arr : Bytes) (offset value : ℕ)
    → offset < length arr
    → value < 256
    → assign arr offset value ≡ some (set arr offset value)
unfolding assign
assign-some arr offset value inside byte = ground arith

module _ (u : Unicode) (k_name : Bytes) (value : ℕ) (offsets : List (Bytes × ℕ)) (arr : Bytes) where
  save_seed-skips :
      match_index u k_name ≡ none
      → save_seed u ((k_name, value) ∷ offsets) arr ≡ save_seed u offsets arr
  unfolding save_seed
  save_seed-skips other = rw other refl

  save_seed-assigns :
      (offset : ℕ) (arr' : Bytes)
      → match_index u k_name ≡ some offset
      → assign arr offset value ≡ some arr'
      → save_seed u ((k_name, value) ∷ offsets) arr ≡ save_seed u offsets arr'
  unfolding save_seed
  save_seed-assigns offset arr' found run = rw (found, run) refl

-- The mutant has the seed's length, each place holds the last value that a variable of its offset
-- has, and the other places stay, for bytes at offsets inside the seed.
pub save_seed-Writes :
    (u : Unicode) (offsets : List (Bytes × ℕ)) (arr : Bytes)
    → All (IsWritable u (length arr)) offsets
    → Writes u offsets arr (save_seed u offsets arr)
unfolding save_seed
save_seed-Writes u [] arr h = record {
  mutant = arr;
  run = refl;
  size = refl;
  bytes = λ place. refl;
}
save_seed-Writes u ((k_name, value) ∷ offsets) arr (h, hs) =
    elim (Option-cases (match_index u k_name)) [
      | inl other ↦
          let rest = save_seed-Writes u offsets arr hs in
          rw (save_seed-skips u k_name value offsets arr other) (record {
            mutant = rest.mutant;
            run = rest.run;
            size = rest.size;
            bytes = λ place. rw other (rest.bytes place);
          })
      | inr (offset, found) ↦
          let (inside, byte) = writable offset found in
          let same = length-set arr offset value in
          let rest =
            save_seed-Writes u offsets (set arr offset value)
              (subst (λ n. All (IsWritable u n) offsets) (sym same) hs) in
          rw
            (save_seed-assigns u k_name value offsets arr offset (set arr offset value) found
              (assign-some arr offset value inside byte))
            (record {
              mutant = rest.mutant;
              run = rest.run;
              size = rest.size ∙ same;
              bytes = λ place. rw found (
                  rest.bytes place
                  ∙ ap (value_at u offsets place) (get_elem?-set arr offset place value inside));
            })
    ]
  where
    writable :
        (offset : ℕ) → match_index u k_name ≡ some offset → (offset < length arr) × (value < 256)
    writable offset found =
        subst (λ m. elim m [ none ↦ Unit {0} | some o ↦ (o < length arr) × (value < 256) ]) found h

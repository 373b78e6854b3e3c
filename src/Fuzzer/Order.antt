-- ===== src/Fuzzer/Order.antt =====
-- The order in which __solve_random of src/fuzz/executor.py takes the seeds: testcase_core of
-- src/fuzz/common.py as the key of a stable sort.
pub mod Sorts
use co_fuzz.Prelude.{ℕ, Bool, true, false, ◌&&◌, ◌||◌, not, List, [], ◌∷◌, ◌==◌, ltb, if◌then◌else◌}
use co_fuzz.Prelude.Text.{Bytes, codes, text_eq, contains}

-- `s.endswith(t)`
unfoldable pub ends_with : (s t : Bytes) → Bool
ends_with [] t = text_eq [] t
ends_with (c ∷ s) t = text_eq (c ∷ s) t || ends_with s t

-- `s < t`, on texts
unfoldable pub text_less : (s t : Bytes) → Bool
text_less s [] = false
text_less [] (b ∷ t) = true
text_less (a ∷ s) (b ∷ t) = ltb a b || ((a == b) && text_less s t)

-- testcase_core; the size of the file is kept without its sign.
pub record Core : Type 0 where
  pub new_cover : Bool
  pub from_seed : Bool
  pub file_size : ℕ
  pub base_name : Bytes

unfoldable pub testcase_core : (name : Bytes) → (st_size : ℕ) → Core
unfolding ends_with contains
testcase_core name st_size = record {
  new_cover = ends_with name (codes "+cov");
  from_seed = contains name (codes "orig:");
  file_size = st_size;
  base_name = name;
}

-- False is less than True.
abbrev pub flag_eq : Bool → Bool → Bool
flag_eq true q = q
flag_eq false q = not q

-- `a < b`, on the tuples; the greater file has the lesser size.
unfoldable pub core_less : Core → Core → Bool
unfolding text_less
core_less a b =
    (not a.new_cover && b.new_cover)
    || (flag_eq a.new_cover b.new_cover
        && ((not a.from_seed && b.from_seed)
            || (flag_eq a.from_seed b.from_seed
                && (ltb b.file_size a.file_size
                    || ((a.file_size == b.file_size) && text_less a.base_name b.base_name)))))

-- A seed's place among the sorted ones, behind those with a greater key.
unfoldable pub insert_seed : (core : Bytes → Core) → Bytes → List Bytes → List Bytes
unfolding core_less
insert_seed core seed [] = seed ∷ []
insert_seed core seed (s ∷ sorted) =
    let later = insert_seed core seed sorted in
    if core_less (core seed) (core s) then s ∷ later else seed ∷ s ∷ sorted

-- `seeds.sort(key=core, reverse=True)`: the greatest first, equal ones in their order.
unfoldable pub sort_seeds : (core : Bytes → Core) → List Bytes → List Bytes
unfolding insert_seed
sort_seeds core [] = []
sort_seeds core (seed ∷ seeds) = insert_seed core seed (sort_seeds core seeds)

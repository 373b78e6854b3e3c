-- ===== src/Fuzzer/CrackMap/Marks.antt =====
-- Which bytes of the crack map of src/fuzz/conolic.py are zero.
use co_fuzz.Prelude.{
  Bool, ◌⊎◌, ==_self, ltb→lt, ltb-le, false, ℕ, zero, suc, ◌<◌, ◌≤◌, ◌≡◌, refl, ◌∙◌, true, List, [],
  ◌∷◌, Option, none, some, ◌==◌, ltb, length, replicate, set, get_elem?, if◌then◌else◌, arith,
  length-set, length-replicate, Bool-cases, inl, inr,
}
use co_fuzz.Prelude.Text.{Bytes, All, All-map}
use co_fuzz.Tracer.State.{has_child}
use co_fuzz.Fuzzer.Depot.{all}
use co_fuzz.Fuzzer.CrackMap.{mark_all, dump_crack_map}

pub get_elem?-set :
    (bs : List ℕ) (i j v : ℕ)
    → i < length bs
    → get_elem? (set bs i v) j ≡ (if i == j then some v else get_elem? bs j)
get_elem?-set [] i j v h = absurd (omega arith)
get_elem?-set (b ∷ bs) zero zero v h = refl
get_elem?-set (b ∷ bs) zero (suc j) v h = ground arith
get_elem?-set (b ∷ bs) (suc i) zero v h = ground arith
get_elem?-set (b ∷ bs) (suc i) (suc j) v h = ground (arith, get_elem?-set bs i j v (omega arith))

pub length_bytes : (n b : ℕ) → length (replicate n b) ≡ n
length_bytes n b = length-replicate n b

get_elem?-replicate : (n i v : ℕ) → get_elem? (replicate n v) i ≡ (if ltb i n then some v else none)
get_elem?-replicate zero i v = ground arith
get_elem?-replicate (suc n) zero v = ground arith
get_elem?-replicate (suc n) (suc i) v = ground (arith, get_elem?-replicate n i v)

-- The zero bytes are those of the list, the others stay, and the map keeps its length.
record Marks (crack_list bs : List ℕ) (r : Option Bytes) : Type 0 where
  crack_map : Bytes
  run : r ≡ some crack_map
  size : length crack_map ≡ length bs
  marked :
      (a : ℕ)
      → a < length bs
      → get_elem? crack_map a ≡ (if has_child crack_list a then some 0 else get_elem? bs a)

mark_all-Marks :
    (crack_list bs : List ℕ)
    → All (λ a. a < length bs) crack_list
    → Marks crack_list bs (mark_all crack_list bs)
unfolding mark_all has_child
mark_all-Marks [] bs h = record { crack_map = bs; run = refl; size = refl; marked = λ a less. refl }
mark_all-Marks (c ∷ cs) bs (h, hs) =
    let rest = mark_all-Marks cs (set bs c 0) (
      All-map _ (λ a. a < length (set bs c 0)) cs (λ a l. omega (arith, l, length-set bs c 0))
        hs) in
    let inside : ltb c (length bs) ≡ true = ground arith in
    rw inside (record {
      crack_map = rest.crack_map;
      run = rest.run;
      size = rest.size ∙ length-set bs c 0;
      marked = λ a less.
          ground
            (arith, rest.marked a (omega (arith, length-set bs c 0)), get_elem?-set bs c a 0 h);
    })

mark_all-none :
    (crack_list bs : List ℕ) (a : ℕ)
    → has_child crack_list a ≡ true
    → length bs ≤ a
    → mark_all crack_list bs ≡ none
unfolding mark_all has_child
mark_all-none [] bs a h far = ground arith
mark_all-none (c ∷ cs) bs a h far = elim (Bool-cases (c == a)) [
  | inl same ↦ ground arith
  | inr differ ↦
      let rest : mark_all cs (set bs c 0) ≡ none =
        mark_all-none cs (set bs c 0) a (ground arith) (omega (arith, length-set bs c 0)) in
      ground arith
]

-- Both cases, as its users need them.
pub dump_crack_map-marks :
    (map_size : ℕ) (crack_list : List ℕ)
    → ((a : ℕ)
        → has_child crack_list a ≡ true
        → map_size ≤ a
        → dump_crack_map map_size crack_list ≡ none)
      × (All (λ a. a < map_size) crack_list
          → (crack_map : Bytes) × (dump_crack_map map_size crack_list ≡ some crack_map)
            × (length crack_map ≡ map_size)
            × ((a : ℕ)
                → a < map_size
                → get_elem? crack_map a ≡ some (if has_child crack_list a then 0 else 255)))
unfolding dump_crack_map
dump_crack_map-marks map_size crack_list = (
  λ a member far.
      mark_all-none crack_list (replicate map_size 255) a member
        (omega (arith, length_bytes map_size 255)),
  λ inside.
      let size = length_bytes map_size 255 in
      let m = mark_all-Marks crack_list (replicate map_size 255) (
        All-map _ (λ a. a < length (replicate map_size 255)) crack_list
          (λ a l. omega (arith, l, size)) inside) in
      (
        m.crack_map,
        m.run,
        m.size ∙ size,
        λ a less.
            ground (arith, m.marked a (omega (arith, size)), get_elem?-replicate map_size a 255),
      ),
)

all-ltb : (n : ℕ) (addrs : List ℕ) → all (λ a. ltb a n) addrs ≡ true → All (λ a. a < n) addrs
all-ltb n [] h = tt
all-ltb n (a ∷ rest) h = (ground arith, all-ltb n rest (ground arith))

far_one :
    (n : ℕ) (addrs : List ℕ)
    → all (λ a. ltb a n) addrs ≡ false
    → (a : ℕ) × (has_child addrs a ≡ true) × (n ≤ a)
unfolding has_child
far_one n [] h = ground arith
far_one n (a ∷ rest) h = elim (Bool-cases (ltb a n)) [
  | inl near ↦ let (b, member, far) = far_one n rest (ground arith) in (b, ground arith, far)
  | inr far ↦ (a, ground (arith, ==_self a), ltb-le a n far)
]

get_elem?-none : (bs : Bytes) (a : ℕ) → length bs ≤ a → get_elem? bs a ≡ none
get_elem?-none [] a h = refl
get_elem?-none (b ∷ bs) zero h = absurd (omega arith)
get_elem?-none (b ∷ bs) (suc a) h = get_elem?-none bs a (omega arith)

-- The crack map of a list of addresses: either one of them is past the end of the map and the call
-- raises an exception, or the file has map_size bytes, zero at the addresses of the list and 255
-- elsewhere.
pub dump_crack_map-outcome :
    (map_size : ℕ) (crack_list : List ℕ)
    → ((all (λ a. ltb a map_size) crack_list ≡ false) × (dump_crack_map map_size crack_list ≡ none))
      ⊎ ((all (λ a. ltb a map_size) crack_list ≡ true)
          × (crack_map : Bytes) × (dump_crack_map map_size crack_list ≡ some crack_map)
          × ((a : ℕ)
              → get_elem? crack_map a ≡ (
                  if ltb a map_size
                  then some (if has_child crack_list a then 0 else 255)
                  else none)))
dump_crack_map-outcome map_size crack_list =
    let (fails, marks) = dump_crack_map-marks map_size crack_list in
    elim (Bool-cases (all (λ a. ltb a map_size) crack_list)) [
      | inl inside ↦
          let (crack_map, run, size, marked) = marks (all-ltb map_size crack_list inside) in
          inr (
            inside,
            crack_map,
            run,
            λ a. by_place a (ltb a map_size) refl crack_map size (marked a),
          )
      | inr outside ↦
          let (a, member, far) = far_one map_size crack_list outside in
          inl (outside, fails a member far)
    ]
  where
    by_place :
        (a : ℕ) (near : Bool)
        → ltb a map_size ≡ near
        → (crack_map : Bytes) → length crack_map ≡ map_size
        → (a < map_size → get_elem? crack_map a ≡ some (if has_child crack_list a then 0 else 255))
        → get_elem? crack_map a
          ≡ (if near then some (if has_child crack_list a then 0 else 255) else none)
    by_place a true at crack_map size marked = marked (ltb→lt a map_size at)
    by_place a false at crack_map size marked =
        get_elem?-none crack_map a (omega (arith, size, ltb-le a map_size at))

-- ===== src/Fuzzer/Bitmap/Learns.antt =====
-- What AFLMap of src/fuzz/afl.py learns of a test case.
use Prim.Native.Nat.{bit_or, bit_xor}
use co_fuzz.Prelude.{
  ℕ, ◌+◌, ◌≤◌, ◌≡◌, ◌↔◌, refl, sym, inl, inr, List, [], ◌∷◌, Option, none, some, ◌==◌, length,
  arith, Bool-cases, ==_iff, if◌then◌else◌,
}
use co_fuzz.Prelude.Text.{Bytes}
use co_fuzz.Fuzzer.Bitmap.{cons, update_bytes, update_bitmap, merge_byte, is_interesting}
use co_fuzz.Fuzzer.Bitmap.Bits.{Covers, bit_or-Covers, Covers-bit_or}

-- Byte by byte, every bit of the test case is one of the map.
abbrev pub AllCovered : List ℕ → Bytes → Type 0
AllCovered [] ts = Unit
AllCovered (b ∷ bs) [] = ⊥
AllCovered (b ∷ bs) (t ∷ ts) = Covers b t × AllCovered bs ts

-- The bytes in which the test case has a bit that the map has not.
abbrev pub new_bytes : List ℕ → Bytes → ℕ
new_bytes [] ts = 0
new_bytes (b ∷ bs) [] = 0
new_bytes (b ∷ bs) (t ∷ ts) = (if b == bit_or b t then 0 else 1) + new_bytes bs ts

-- The map with the bits of the test case.
abbrev pub joined : List ℕ → Bytes → List ℕ
joined [] ts = []
joined (b ∷ bs) [] = []
joined (b ∷ bs) (t ∷ ts) = bit_or b t ∷ joined bs ts

is_interesting-joined :
    (bs ts : List ℕ)
    → length bs ≤ length ts
    → is_interesting bs ts ≡ some (new_bytes bs ts, joined bs ts)
unfolding is_interesting
is_interesting-joined [] ts fits = refl
is_interesting-joined (b ∷ bs) [] fits = absurd (omega arith)
is_interesting-joined (b ∷ bs) (t ∷ ts) fits =
    ground (arith, is_interesting-joined bs ts (omega arith))

pub AllCovered-joined : (bs ts : List ℕ) → length bs ≤ length ts → AllCovered (joined bs ts) ts
AllCovered-joined [] ts fits = tt
AllCovered-joined (b ∷ bs) [] fits = absurd (omega arith)
AllCovered-joined (b ∷ bs) (t ∷ ts) fits =
    (bit_or-Covers b t, AllCovered-joined bs ts (omega arith))

AllCovered-more :
    (bs ts us : List ℕ) → length bs ≤ length ts → AllCovered bs us → AllCovered (joined bs ts) us
AllCovered-more [] ts us fits c = tt
AllCovered-more (b ∷ bs) [] us fits c = absurd (omega arith)
AllCovered-more (b ∷ bs) (t ∷ ts) [] fits c = c
AllCovered-more (b ∷ bs) (t ∷ ts) (u ∷ us) fits (c, cs) =
    (Covers-bit_or b t u c, AllCovered-more bs ts us (omega arith) cs)

-- Nothing is new exactly where every bit is covered, and then the map stays as it is.
AllCovered-new_bytes : (bs ts : List ℕ) → AllCovered bs ts → new_bytes bs ts ≡ 0
AllCovered-new_bytes [] ts c = refl
AllCovered-new_bytes (b ∷ bs) [] c = refl
AllCovered-new_bytes (b ∷ bs) (t ∷ ts) (c, cs) = ground (arith, AllCovered-new_bytes bs ts cs)

new_bytes-AllCovered :
    (bs ts : List ℕ) → length bs ≤ length ts → new_bytes bs ts ≡ 0 → AllCovered bs ts
new_bytes-AllCovered [] ts fits e = tt
new_bytes-AllCovered (b ∷ bs) [] fits e = absurd (omega arith)
new_bytes-AllCovered (b ∷ bs) (t ∷ ts) fits e = elim (Bool-cases (b == bit_or b t)) [
  | inl same ↦ (
    sym ((==_iff b (bit_or b t)).0 same),
    new_bytes-AllCovered bs ts (omega arith) (ground arith),
  )
  | inr differ ↦ absurd (ground arith)
]

joined-AllCovered : (bs ts : List ℕ) → AllCovered bs ts → joined bs ts ≡ bs
joined-AllCovered [] ts c = refl
joined-AllCovered (b ∷ bs) [] c = absurd c
joined-AllCovered (b ∷ bs) (t ∷ ts) (c, cs) = rw (c, joined-AllCovered bs ts cs) refl

AllCovered-fits : (bs ts : List ℕ) → AllCovered bs ts → length bs ≤ length ts
AllCovered-fits [] ts c = omega arith
AllCovered-fits (b ∷ bs) [] c = absurd c
AllCovered-fits (b ∷ bs) (t ∷ ts) (c, cs) = omega (arith, AllCovered-fits bs ts cs)

-- A test case with no new edge: nothing is counted and the map stays as it is.
abbrev pub IsKnown : List ℕ → Bytes → Type 0
IsKnown bs ts = is_interesting bs ts ≡ some (0, bs)

pub AllCovered-IsKnown : (bs ts : List ℕ) → AllCovered bs ts → IsKnown bs ts
AllCovered-IsKnown bs ts c =
    rw
      (
        is_interesting-joined bs ts (AllCovered-fits bs ts c),
        AllCovered-new_bytes bs ts c,
        joined-AllCovered bs ts c,
      )
      refl

merge_byte-cases :
    (b t : ℕ) (r : Option (ℕ × List ℕ)) (q : ℕ × List ℕ)
    → merge_byte b t r ≡ some q
    → (p : ℕ × List ℕ) × (r ≡ some p)
unfolding merge_byte
merge_byte-cases b t none q e = absurd (cc)
merge_byte-cases b t (some p) q e = (p, refl)

-- Without an IndexError, the test case's map is long enough.
is_interesting-fits :
    (bs ts : List ℕ) (r : ℕ × List ℕ) → is_interesting bs ts ≡ some r → length bs ≤ length ts
unfolding is_interesting
is_interesting-fits [] ts r e = omega arith
is_interesting-fits (b ∷ bs) [] r e = absurd (cc)
is_interesting-fits (b ∷ bs) (t ∷ ts) r e =
    let (p, some_p) = merge_byte-cases b t (is_interesting bs ts) r e in
    omega (arith, is_interesting-fits bs ts p some_p)

IsKnown-AllCovered : (bs ts : List ℕ) → IsKnown bs ts → AllCovered bs ts
IsKnown-AllCovered bs ts known =
    let fits = is_interesting-fits bs ts (0, bs) known in
    new_bytes-AllCovered bs ts fits (ground (arith, is_interesting-joined bs ts fits))

cons-cases :
    (b : ℕ) (o : Option (List ℕ)) (xs : List ℕ)
    → cons b o ≡ some xs
    → (ys : List ℕ) × (o ≡ some ys) × (b ∷ ys ≡ xs)
cons-cases b none xs e = absurd (cc)
cons-cases b (some ys) xs e = (ys, refl, ground arith)

AllCovered-update :
    (bs afl us bs' : List ℕ) → update_bytes bs afl ≡ some bs' → AllCovered bs us → AllCovered bs' us
unfolding update_bytes
AllCovered-update bs [] us bs' e c = let same : bs ≡ bs' = ground arith in rw (← same) c
AllCovered-update [] (a ∷ afl) us bs' e c = absurd (cc)
AllCovered-update (b ∷ bs) (a ∷ afl) [] bs' e c = absurd c
AllCovered-update (b ∷ bs) (a ∷ afl) (u ∷ us) bs' e (c, cs) =
    let (ys, some_ys, at) = cons-cases (bit_or b (bit_xor a 255)) (update_bytes bs afl) bs' e in
    rw (← at) (Covers-bit_or b (bit_xor a 255) u c, AllCovered-update bs afl us ys some_ys cs)

-- The map through later calls.
pub data Grows : List ℕ → List ℕ → Type 0 where
  start : (bs : List ℕ) → Grows bs bs
  merged :
      {bs cs ds : List ℕ} (before : Grows bs cs) (ts : Bytes) (count : ℕ)
      → is_interesting cs ts ≡ some (count, ds)
      → Grows bs ds
  updated :
      {bs cs ds : List ℕ} (before : Grows bs cs) (file : Option Bytes)
      → update_bitmap cs file ≡ some ds
      → Grows bs ds

pub AllCovered-Grows :
    {bs cs : List ℕ} (us : Bytes) → Grows bs cs → AllCovered bs us → AllCovered cs us
unfolding update_bitmap
AllCovered-Grows us (start bs) c = c
AllCovered-Grows us (merged {cs} {ds} before ts count e) c =
    let fits = is_interesting-fits cs ts (count, ds) e in
    let same : joined cs ts ≡ ds = ground (arith, is_interesting-joined cs ts fits) in
    rw (← same) (AllCovered-more cs ts us fits (AllCovered-Grows us before c))
AllCovered-Grows us (updated {cs} {ds} before none e) c =
    let same : cs ≡ ds = ground arith in rw (← same) (AllCovered-Grows us before c)
AllCovered-Grows us (updated {cs} {ds} before (some afl) e) c =
    AllCovered-update cs afl us ds e (AllCovered-Grows us before c)

-- What is_interesting gives, and what holds of the map from then on.
pub record Learns (bs : List ℕ) (ts : Bytes) (r : Option (ℕ × List ℕ)) : Type 0 where
  pub run : r ≡ some (new_bytes bs ts, joined bs ts)
  pub uninteresting : (new_bytes bs ts ≡ 0) ↔ AllCovered bs ts
  pub again : (later : List ℕ) → Grows (joined bs ts) later → IsKnown later ts
  pub others : (us : Bytes) → IsKnown bs us → IsKnown (joined bs ts) us

-- For a test case with a byte for each byte of the map, is_interesting counts the bytes in which the
-- test case has a bit that the map has not, and joins its bits to the map. The count is 0 exactly
-- where the map has every bit. The test case counts 0, with no change of the map, ever after: through
-- all later calls of is_interesting and update_bitmap that raise no exception. Every other test case
-- that counted 0 before still does.
pub is_interesting-Learns :
    (bs : List ℕ) (ts : Bytes) → length bs ≤ length ts → Learns bs ts (is_interesting bs ts)
is_interesting-Learns bs ts fits = record {
  run = is_interesting-joined bs ts fits;
  uninteresting = (new_bytes-AllCovered bs ts fits, AllCovered-new_bytes bs ts);
  again = λ later grows.
      AllCovered-IsKnown later ts (AllCovered-Grows ts grows (AllCovered-joined bs ts fits));
  others = λ us known.
      AllCovered-IsKnown (joined bs ts) us
        (AllCovered-more bs ts us fits (IsKnown-AllCovered bs us known));
}

-- ===== src/Fuzzer/Names.antt =====
-- The names of saved seeds: 'id:%06d,src:%s,op:%s' of src/fuzz/executor.py, and identify_id of
-- src/fuzz/common.py, which reads the number back.
use co_fuzz.Prelude.{
  ℕ, zero, suc, ◌-◌, ◌≡◌, ◌≢◌, refl, ap, ◌∙◌, sym, [], ◌∷◌, ◌++◌, none, some, ◌==◌, if◌then◌else◌,
  length, replicate, arith,
}
use co_fuzz.Prelude.Text.{Bytes, codes, All, All-append}
use co_fuzz.Prelude.Decimal.{
  decimal, decimal-ne-nil, decimal-IsDigit, value-decimal, value, IsDigit,
}
use co_fuzz.Tracer.Python.{Unicode}
use co_fuzz.Tracer.Line.{strip_prefix}

-- '%06d' of a number that is not negative
unfoldable pub pad6 : ℕ → Bytes
pad6 n = replicate (6 - length (decimal n)) b'0' ++ decimal n

-- The name of a saved seed.
unfoldable pub seed_name : (idx : ℕ) → (src_id op : Bytes) → Bytes
seed_name idx src_id op =
    codes "id:" ++ (pad6 idx ++ (codes ",src:" ++ (src_id ++ (codes ",op:" ++ op))))

-- `\d+` greedily: what it matches, and the text behind.
unfoldable pub digit_run : Unicode → Bytes → Bytes × Bytes
digit_run u [] = ([], [])
digit_run u (c ∷ s) =
    let (ds, rest) = digit_run u s in
    elim (u.digit_value c) [ none ↦ ([], c ∷ s) | some d ↦ (c ∷ ds, rest) ]

-- `(?P<id>\d+),.*$` with re.DOTALL
unfoldable pub id_of : (run : Bytes) → (rest : Bytes) → Bytes
id_of [] rest = codes "-1"
id_of (c ∷ s) [] = codes "-1"
id_of (c ∷ s) (d ∷ rest) = if d == b',' then c ∷ s else codes "-1"

unfoldable pub identify_id : Unicode → (seed : Bytes) → Bytes
unfolding strip_prefix digit_run id_of
identify_id u seed = elim (strip_prefix (codes "id:") seed) [
  | none ↦ codes "-1"
  | some s ↦ let (run, rest) = digit_run u s in id_of run rest
]

digit_run-append :
    (u : Unicode) (s rest : Bytes)
    → All IsDigit s
    → digit_run u (s ++ b',' ∷ rest) ≡ (s, b',' ∷ rest)
unfolding digit_run
digit_run-append u [] rest h = ground (arith, u.digit_ascii b',' (omega arith))
digit_run-append u (c ∷ s) rest (h, hs) =
    ground (arith, u.digit_ascii c (omega arith), digit_run-append u s rest hs)

zeros-IsDigit : (n : ℕ) → All IsDigit (replicate n b'0')
zeros-IsDigit zero = tt
zeros-IsDigit (suc n) = ((omega arith, omega arith), zeros-IsDigit n)

pad6-IsDigit : (n : ℕ) → All IsDigit (pad6 n)
unfolding pad6
pad6-IsDigit n =
    All-append IsDigit (replicate (6 - length (decimal n)) b'0') (decimal n)
      (zeros-IsDigit (6 - length (decimal n))) (decimal-IsDigit n)

value-zeros : (n : ℕ) (s : Bytes) → value 0 (replicate n b'0' ++ s) ≡ value 0 s
value-zeros zero s = refl
value-zeros (suc n) s = value-zeros n s

value-pad6 : (n : ℕ) → value 0 (pad6 n) ≡ n
unfolding pad6
value-pad6 n = value-zeros (6 - length (decimal n)) (decimal n) ∙ value-decimal n

append-ne-nil : (xs ys : Bytes) → ys ≢ [] → xs ++ ys ≢ []
append-ne-nil [] ys ne = ne
append-ne-nil (x ∷ xs) ys ne = cc

pad6-ne-nil : (n : ℕ) → pad6 n ≢ []
unfolding pad6
pad6-ne-nil n =
    append-ne-nil (replicate (6 - length (decimal n)) b'0') (decimal n) (decimal-ne-nil n)

id_of-run : (run rest : Bytes) → run ≢ [] → id_of run (b',' ∷ rest) ≡ run
unfolding id_of
id_of-run [] rest ne = absurd (ne refl)
id_of-run (c ∷ s) rest ne = refl

-- identify_id gives the number of a saved seed, with its leading zeros.
pub identify_id-seed_name :
    (u : Unicode) (idx : ℕ) (src_id op : Bytes) → identify_id u (seed_name idx src_id op) ≡ pad6 idx
unfolding identify_id seed_name
identify_id-seed_name u idx src_id op =
    let rest = codes "src:" ++ (src_id ++ (codes ",op:" ++ op)) in
    ground (
      arith,
      digit_run-append u (pad6 idx) rest (pad6-IsDigit idx),
      id_of-run (pad6 idx) rest (pad6-ne-nil idx),
    )

-- Names of different numbers differ.
pub seed_name-idx :
    (u : Unicode) (m n : ℕ) (src op src' op' : Bytes)
    → seed_name m src op ≡ seed_name n src' op'
    → m ≡ n
seed_name-idx u m n src op src' op' e =
    let same : pad6 m ≡ pad6 n =
      sym (identify_id-seed_name u m src op)
      ∙ ap (identify_id u) e
      ∙ identify_id-seed_name u n src' op' in
    sym (value-pad6 m) ∙ ap (value 0) same ∙ value-pad6 n

-- ===== src/Fuzzer/Hits/Logs.antt =====
-- What __parse_bitmap of src/fuzz/depot.py reads from a file of four bytes for each block.
use co_fuzz.Prelude.{
  ℕ, zero, suc, ◌*◌, ◌/◌, ◌%◌, ◌^◌, ◌<◌, ◌≤◌, ◌≡◌, ◌⊎◌, inl, inr, refl, sym, ap, subst, false, List,
  [], ◌∷◌, ltb, length, if◌then◌else◌, arith,
}
use co_fuzz.Prelude.Text.{Bytes, All}
use co_fuzz.Fuzzer.Hits.{from_bytes, log2, bb_hit, parse_bitmap}

-- A file of four bytes for each item has that many items.
pub length-parse_bitmap :
    (n : ℕ) (bit_arr : Bytes) → length bit_arr ≡ 4 * n → length (parse_bitmap bit_arr) ≡ n
unfolding parse_bitmap
length-parse_bitmap zero [] h = refl
length-parse_bitmap (suc n) [] h = absurd (omega (arith, h))
length-parse_bitmap n (a ∷ []) h = absurd (omega (arith, h))
length-parse_bitmap n (a ∷ b ∷ []) h = absurd (omega (arith, h))
length-parse_bitmap n (a ∷ b ∷ c ∷ []) h = absurd (omega (arith, h))
length-parse_bitmap zero (a ∷ b ∷ c ∷ d ∷ rest) h = absurd (omega (arith, h))
length-parse_bitmap (suc n) (a ∷ b ∷ c ∷ d ∷ rest) h =
    ap suc (length-parse_bitmap n rest (omega (arith, h)))

-- The file of the fuzzer: each number in four bytes, the least first.
abbrev pub file_of : List ℕ → Bytes
file_of [] = []
file_of (n ∷ ns) = n % 256 ∷ n / 256 % 256 ∷ n / 256 / 256 % 256 ∷ n / 256 / 256 / 256 ∷ file_of ns

-- `k` is the whole logarithm of `n`, and 0 is that of 0.
abbrev pub IsLog2 : (k n : ℕ) → Type 0
IsLog2 k n = ((n ≡ 0) × (k ≡ 0)) ⊎ ((2 ^ k ≤ n) × (n < 2 ^ suc k))

log2-IsLog2 : (fuel n : ℕ) → n < 2 ^ fuel → IsLog2 (log2 fuel n) n
unfolding log2
log2-IsLog2 zero n h = inl (omega (arith, h), refl)
log2-IsLog2 (suc fuel) n h = by_size n h (log2-IsLog2 fuel (n / 2) (omega (arith, h)))
  where
    by_size :
        (n : ℕ)
        → n < 2 ^ suc fuel
        → IsLog2 (log2 fuel (n / 2)) (n / 2)
        → IsLog2 (let rest = log2 fuel (n / 2) in if ltb n 2 then 0 else suc rest) n
    by_size zero h rest = inl (refl, refl)
    by_size (suc zero) h rest = inr (omega arith, omega arith)
    by_size (suc (suc n)) h (inl (none, z)) = absurd (omega (arith, none))
    by_size (suc (suc n)) h (inr (low, high)) =
        let large : ltb (suc (suc n)) 2 ≡ false = ground arith in
        let next : IsLog2 (suc (log2 fuel (suc (suc n) / 2))) (suc (suc n)) =
          inr (omega (arith, low), omega (arith, high)) in
        rw large next

-- Each item belongs to its number.
abbrev pub AllLog2 : (ks ns : List ℕ) → Type 0
AllLog2 [] [] = Unit
AllLog2 (k ∷ ks) (n ∷ ns) = IsLog2 k n × AllLog2 ks ns
AllLog2 ks ns = ⊥

from_bytes-file_of :
    (n : ℕ)
    → n < 2 ^ 32
    → from_bytes (n % 256 ∷ n / 256 % 256 ∷ n / 256 / 256 % 256 ∷ n / 256 / 256 / 256 ∷ []) ≡ n
unfolding from_bytes
from_bytes-file_of n h = omega arith

-- The items are the whole logarithms of the numbers in the file, for numbers of 32 bits.
pub parse_bitmap-IsLog2 :
    (ns : List ℕ) → All (λ n. n < 2 ^ 32) ns → AllLog2 (parse_bitmap (file_of ns)) ns
unfolding parse_bitmap bb_hit
parse_bitmap-IsLog2 [] h = tt
parse_bitmap-IsLog2 (n ∷ ns) (h, hs) = (
  subst (λ m. IsLog2 (log2 32 m) n) (sym (from_bytes-file_of n h)) (log2-IsLog2 32 n h),
  parse_bitmap-IsLog2 ns hs,
)

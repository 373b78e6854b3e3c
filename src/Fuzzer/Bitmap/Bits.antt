-- ===== src/Fuzzer/Bitmap/Bits.antt =====
-- `|` on natural numbers, digit by digit.
use Prim.Native.Nat.{ℕ, zero, suc, ◌+◌, ◌*◌, ◌/◌, ◌%◌, ◌≤◌, max, bit_or, digits, bit_or-bitwise}
use mathlib.Core.Path.{◌≡◌, refl}
use native.Mathlib.Omega.{arith}

-- What the operation computes, with the number of digits as fuel.
abbrev or_digits : ℕ → ℕ → ℕ → ℕ
or_digits n a b = digits (λ b. b) max n a b

or_digits_enough : (n m a b : ℕ) → a ≤ n → a ≤ m → or_digits n a b ≡ or_digits m a b
or_digits_enough zero zero a b p q = refl
or_digits_enough zero (suc m) zero b p q = refl
or_digits_enough zero (suc m) (suc a) b p q = absurd (omega arith)
or_digits_enough (suc n) zero zero b p q = refl
or_digits_enough (suc n) zero (suc a) b p q = absurd (omega arith)
or_digits_enough (suc n) (suc m) zero b p q = refl
or_digits_enough (suc n) (suc m) (suc a) b p q =
    omega (arith, or_digits_enough n m (suc a / 2) (b / 2) (omega arith) (omega arith))

zero-bit_or : (b : ℕ) → bit_or 0 b ≡ b
zero-bit_or b = bit_or-bitwise 0 b

bit_or_step : (a b : ℕ) → bit_or a b ≡ bit_or (a / 2) (b / 2) * 2 + max (a % 2) (b % 2)
bit_or_step zero b = omega (arith, zero-bit_or b, zero-bit_or (b / 2))
bit_or_step (suc a) b = omega (
  arith,
  bit_or-bitwise (suc a) b,
  bit_or-bitwise (suc a / 2) (b / 2),
  or_digits_enough a (suc a / 2) (suc a / 2) (b / 2) (omega arith) (omega arith),
)

or_halves : (a b : ℕ) → bit_or a b / 2 ≡ bit_or (a / 2) (b / 2)
or_halves a b = omega (arith, bit_or_step a b)

or_lowest : (a b : ℕ) → bit_or a b % 2 ≡ max (a % 2) (b % 2)
or_lowest a b = omega (arith, bit_or_step a b)

-- Every bit of `u` is one of `b`.
abbrev pub Covers : ℕ → ℕ → Type 0
Covers b u = bit_or b u ≡ b

-- A number is its half and its lowest digit, so the digits above and the lowest decide.
Covers-of_digits : (b u : ℕ) → Covers (b / 2) (u / 2) → max (b % 2) (u % 2) ≡ b % 2 → Covers b u
Covers-of_digits b u high low = omega (arith, bit_or_step b u, high, low)

Covers-fuel : (n a u : ℕ) → a ≤ n → u ≤ n → Covers (bit_or a u) u
Covers-fuel zero zero zero p q = refl
Covers-fuel zero zero (suc u) p q = absurd (omega arith)
Covers-fuel zero (suc a) u p q = absurd (omega arith)
Covers-fuel (suc n) a u p q =
    let half = Covers-fuel n (a / 2) (u / 2) (omega arith) (omega arith) in
    Covers-of_digits (bit_or a u) u (rw (or_halves a u) half) (omega (arith, or_lowest a u))

pub bit_or-Covers : (a u : ℕ) → Covers (bit_or a u) u
bit_or-Covers a u = Covers-fuel (a + u) a u (omega arith) (omega arith)

Covers-more_fuel : (n a t u : ℕ) → a ≤ n → t ≤ n → u ≤ n → Covers a u → Covers (bit_or a t) u
Covers-more_fuel zero zero zero zero p r q c = refl
Covers-more_fuel zero zero (suc t) zero p r q c = absurd (omega arith)
Covers-more_fuel zero zero t (suc u) p r q c = absurd (omega arith)
Covers-more_fuel zero (suc a) t u p r q c = absurd (omega arith)
Covers-more_fuel (suc n) a t u p r q c =
    let step = bit_or_step a u in
    let high : Covers (a / 2) (u / 2) = omega (arith, step, or_halves a u) in
    let low : max (a % 2) (u % 2) ≡ a % 2 = omega (arith, step, or_lowest a u) in
    let half =
      Covers-more_fuel n (a / 2) (t / 2) (u / 2) (omega arith) (omega arith) (omega arith) high in
    Covers-of_digits (bit_or a t) u (rw (or_halves a t) half) (omega (arith, or_lowest a t, low))

pub Covers-bit_or : (a t u : ℕ) → Covers a u → Covers (bit_or a t) u
Covers-bit_or a t u c =
    Covers-more_fuel (a + t + u) a t u (omega arith) (omega arith) (omega arith) c

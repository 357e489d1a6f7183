-- ===== src/Base/Bits.antt =====
-- The binary operations of a constant-time comparison: which results are 0.
use Prim.Native.Nat.{
  ℕ, zero, suc, ◌/◌, ◌%◌, ◌≤◌, bit_or, bit_xor, bit_or-bitwise, bit_xor-bitwise, digits, differ,
  max,
}
use mathlib.Core.Path.{◌≡◌, refl, sym, ◌∙◌}
use native.Mathlib.Omega.{arith}

differ_eq : (x y : ℕ) → differ x y ≡ 0 → x ≡ y
differ_eq zero y h = omega (arith, h)
differ_eq (suc x) zero h = omega (arith, h)
differ_eq (suc x) (suc y) h = omega (arith, differ_eq x y h)

differ_same : (x : ℕ) → differ x x ≡ 0
differ_same zero = refl
differ_same (suc x) = differ_same x

xor_digits_eq : (n a b : ℕ) → a ≤ n → digits (λ b. b) differ n a b ≡ 0 → a ≡ b
xor_digits_eq zero a b fits h = omega (arith, fits, h)
xor_digits_eq (suc n) zero b fits h = omega (arith, h)
xor_digits_eq (suc n) (suc a) b fits h =
    let low : differ (suc a % 2) (b % 2) ≡ 0 = omega (arith, h) in
    let high : digits (λ b. b) differ n (suc a / 2) (b / 2) ≡ 0 = omega (arith, h) in
    let half : suc a / 2 ≤ n = omega (arith, fits) in
    omega (arith, differ_eq (suc a % 2) (b % 2) low, xor_digits_eq n (suc a / 2) (b / 2) half high)

pub bit_xor_eq : (a b : ℕ) → bit_xor a b ≡ 0 → a ≡ b
bit_xor_eq a b h = xor_digits_eq a a b (omega arith) (sym (bit_xor-bitwise a b) ∙ h)

xor_digits_same : (n a : ℕ) → a ≤ n → digits (λ b. b) differ n a a ≡ 0
xor_digits_same zero a fits = omega (arith, fits)
xor_digits_same (suc n) zero fits = refl
xor_digits_same (suc n) (suc a) fits =
    let half : suc a / 2 ≤ n = omega (arith, fits) in
    omega (arith, differ_same (suc a % 2), xor_digits_same n (suc a / 2) half)

pub bit_xor_same : (a : ℕ) → bit_xor a a ≡ 0
bit_xor_same a = bit_xor-bitwise a a ∙ xor_digits_same a a (omega arith)

or_digits_zero : (n a b : ℕ) → a ≤ n → digits (λ b. b) max n a b ≡ 0 → (a ≡ 0) × (b ≡ 0)
or_digits_zero zero a b fits h = (omega (arith, fits), omega (arith, h))
or_digits_zero (suc n) zero b fits h = (refl, omega (arith, h))
or_digits_zero (suc n) (suc a) b fits h =
    let low : max (suc a % 2) (b % 2) ≡ 0 = omega (arith, h) in
    let high : digits (λ b. b) max n (suc a / 2) (b / 2) ≡ 0 = omega (arith, h) in
    let half : suc a / 2 ≤ n = omega (arith, fits) in
    let (top, rest) = or_digits_zero n (suc a / 2) (b / 2) half high in
    (omega (arith, top, low), omega (arith, rest, low))

pub bit_or_zero : (a b : ℕ) → bit_or a b ≡ 0 → (a ≡ 0) × (b ≡ 0)
bit_or_zero a b h = or_digits_zero a a b (omega arith) (sym (bit_or-bitwise a b) ∙ h)

pub bit_or_zeros : bit_or 0 0 ≡ 0
bit_or_zeros = bit_or-bitwise 0 0

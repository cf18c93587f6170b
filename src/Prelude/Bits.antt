-- ===== src/Prelude/Bits.antt =====
-- The bitwise or on the native numbers: its digit law, and the law where the left operand has
-- five free low bits.
use Prim.Native.Nat.{ℕ, zero, suc, ◌+◌, ◌*◌, ◌/◌, ◌%◌, ◌≤◌, ◌<◌}
use Prim.Native.Nat.{max, bit_or, digits, bit_or-bitwise}
use mathlib.Core.Path.{◌≡◌, refl, ap}
use native.Mathlib.Omega.{arith}

-- The definition that the native operation stands for, on any fuel.
abbrev or_digits : ℕ → ℕ → ℕ → ℕ
or_digits n a b = digits (λ b. b) max n a b

or_digits-fuel : (n m a b : ℕ) → a ≤ n → a ≤ m → or_digits n a b ≡ or_digits m a b
or_digits-fuel zero zero a b p q = refl
or_digits-fuel (suc n) (suc m) (suc a) b p q =
    omega (arith, or_digits-fuel n m (suc a / 2) (b / 2) (omega arith) (omega arith))
or_digits-fuel zero (suc m) zero b p q = refl
or_digits-fuel (suc n) zero zero b p q = refl
or_digits-fuel (suc n) (suc m) zero b p q = refl
or_digits-fuel zero (suc m) (suc a) b p q = absurd (omega arith)
or_digits-fuel (suc n) zero (suc a) b p q = absurd (omega arith)

zero-bit_or : (b : ℕ) → bit_or 0 b ≡ b
zero-bit_or b = bit_or-bitwise 0 b

bit_or_halves : (a b : ℕ) → bit_or a b ≡ bit_or (a / 2) (b / 2) * 2 + max (a % 2) (b % 2)
bit_or_halves zero b = omega (arith, zero-bit_or b, zero-bit_or (b / 2))
bit_or_halves (suc a) b = omega (
  arith,
  bit_or-bitwise (suc a) b,
  bit_or-bitwise (suc a / 2) (b / 2),
  or_digits-fuel a (suc a / 2) (suc a / 2) (b / 2) (omega arith) (omega arith),
)

bit_or-zero_fuel : (n a : ℕ) → a ≤ n → bit_or a 0 ≡ a
bit_or-zero_fuel n zero h = refl
bit_or-zero_fuel zero (suc a) h = absurd (omega arith)
bit_or-zero_fuel (suc n) (suc a) h =
    omega (arith, bit_or_halves (suc a) 0, bit_or-zero_fuel n (suc a / 2) (omega arith))

-- One doubled operand: its free bit takes the other operand's.
bit_or_double : (a x : ℕ) → bit_or a (x / 2) ≡ a + x / 2 → bit_or (a * 2) x ≡ a * 2 + x
bit_or_double a x h =
    let half : a * 2 / 2 ≡ a = omega arith in
    omega (arith, bit_or_halves (a * 2) x, ap (λ t. bit_or t (x / 2)) half, h)

bit_or_none : (a x : ℕ) → x ≡ 0 → bit_or a x ≡ a + x
bit_or_none a x e = rw e (omega (arith, bit_or-zero_fuel a a (omega arith)))

pub bit_or-add_5 : (a x : ℕ) → x < 32 → bit_or (a * 32) x ≡ a * 32 + x
bit_or-add_5 a x h =
    let e0 = bit_or_none a (x / 2 / 2 / 2 / 2 / 2) (omega arith) in
    let e1 = bit_or_double a (x / 2 / 2 / 2 / 2) e0 in
    let e2 = bit_or_double (a * 2) (x / 2 / 2 / 2) e1 in
    let e3 = bit_or_double (a * 2 * 2) (x / 2 / 2) e2 in
    let e4 = bit_or_double (a * 2 * 2 * 2) (x / 2) e3 in
    let e5 = bit_or_double (a * 2 * 2 * 2 * 2) x e4 in
    let shift : a * 32 ≡ a * 2 * 2 * 2 * 2 * 2 = omega arith in rw shift e5

-- ===== src/Prelude/Xor.antt =====
-- Laws of `bit_xor` at variables, from the digit recursion that the native operation stands for.
use Prim.Native.Nat.{
  bit_xor, differ, digits, bit_xor-bitwise, ℕ, ◌^◌, ◌+◌, ◌*◌, ◌/◌, ◌%◌, ◌<◌, ◌≤◌, suc, zero,
}
use mathlib.Core.Path.{◌≡◌, refl, ap}
use native.Mathlib.Nat.{pow-suc}
use native.Mathlib.Omega.{arith}

abbrev xor_digits : ℕ → ℕ → ℕ → ℕ
xor_digits fuel a b = digits (λ c. c) differ fuel a b

xor_digits_zero : (n b : ℕ) → xor_digits n 0 b ≡ b
xor_digits_zero zero b = refl
xor_digits_zero (suc n) b = refl

xor_digits_fuel : (n m a b : ℕ) → a ≤ n → a ≤ m → xor_digits n a b ≡ xor_digits m a b
xor_digits_fuel n m zero b p q = omega (arith, xor_digits_zero n b, xor_digits_zero m b)
xor_digits_fuel zero m (suc a) b p q = absurd (omega arith)
xor_digits_fuel (suc n) zero (suc a) b p q = absurd (omega arith)
xor_digits_fuel (suc n) (suc m) (suc a) b p q =
    omega (arith, xor_digits_fuel n m (suc a / 2) (b / 2) (omega arith) (omega arith))

pub zero_bit_xor : (b : ℕ) → bit_xor 0 b ≡ b
zero_bit_xor b = bit_xor-bitwise 0 b

differ_bound : (x y : ℕ) → x < 2 → y < 2 → differ x y < 2
differ_bound zero y p q = q
differ_bound (suc x) zero p q = p
differ_bound (suc zero) (suc zero) p q = omega arith
differ_bound (suc (suc x)) (suc y) p q = absurd (omega arith)
differ_bound (suc zero) (suc (suc y)) p q = absurd (omega arith)

differ_self : (x y : ℕ) → x < 2 → y < 2 → differ (differ x y) y ≡ x
differ_self zero zero p q = refl
differ_self zero (suc zero) p q = refl
differ_self zero (suc (suc y)) p q = absurd (omega arith)
differ_self (suc zero) zero p q = refl
differ_self (suc zero) (suc zero) p q = refl
differ_self (suc zero) (suc (suc y)) p q = absurd (omega arith)
differ_self (suc (suc x)) y p q = absurd (omega arith)

differ_comm : (x y : ℕ) → x < 2 → y < 2 → differ x y ≡ differ y x
differ_comm zero zero p q = refl
differ_comm zero (suc y) p q = refl
differ_comm (suc x) zero p q = refl
differ_comm (suc zero) (suc zero) p q = refl
differ_comm (suc zero) (suc (suc y)) p q = absurd (omega arith)
differ_comm (suc (suc x)) (suc y) p q = absurd (omega arith)

xor_step : (a b : ℕ) → bit_xor a b ≡ bit_xor (a / 2) (b / 2) * 2 + differ (a % 2) (b % 2)
xor_step zero b = omega (arith, zero_bit_xor b, zero_bit_xor (b / 2))
xor_step (suc a) b = omega (arith, whole, half, same)
  where
    half : bit_xor (suc a / 2) (b / 2) ≡ xor_digits (suc a / 2) (suc a / 2) (b / 2)
    half = bit_xor-bitwise (suc a / 2) (b / 2)

    whole : bit_xor (suc a) b ≡ xor_digits (suc a) (suc a) b
    whole = bit_xor-bitwise (suc a) b

    same : xor_digits a (suc a / 2) (b / 2) ≡ xor_digits (suc a / 2) (suc a / 2) (b / 2)
    same = xor_digits_fuel a (suc a / 2) (suc a / 2) (b / 2) (omega arith) (omega arith)

-- The halves and the lowest digit of an exclusive or.
pub bit_xor_half : (a b : ℕ) → bit_xor a b / 2 ≡ bit_xor (a / 2) (b / 2)
bit_xor_half a b =
    omega (arith, xor_step a b, differ_bound (a % 2) (b % 2) (omega arith) (omega arith))

bit_xor_parity : (a b : ℕ) → bit_xor a b % 2 ≡ differ (a % 2) (b % 2)
bit_xor_parity a b =
    omega (arith, xor_step a b, differ_bound (a % 2) (b % 2) (omega arith) (omega arith))

pub bit_xor-lt : (k a b : ℕ) → a < 2 ^ k → b < 2 ^ k → bit_xor a b < 2 ^ k
bit_xor-lt zero zero b p q = omega (arith, zero_bit_xor b)
bit_xor-lt zero (suc a) b p q = absurd (omega arith)
bit_xor-lt (suc k) a b p q = omega (
  arith,
  pow-suc 2 k,
  bit_xor_half a b,
  bit_xor-lt k (a / 2) (b / 2) (omega (arith, pow-suc 2 k)) (omega (arith, pow-suc 2 k)),
)

-- Both laws go by the width `n`.
pub bit_xor_cancel : (n a b : ℕ) → a < 2 ^ n → b < 2 ^ n → bit_xor (bit_xor a b) b ≡ a
bit_xor_cancel zero zero zero p q = refl
bit_xor_cancel zero zero (suc b) p q = absurd (omega arith)
bit_xor_cancel zero (suc a) b p q = absurd (omega arith)
bit_xor_cancel (suc n) a b p q = omega (
  arith,
  xor_step (bit_xor a b) b,
  ap (λ t. bit_xor t (b / 2)) (bit_xor_half a b),
  ap (λ t. differ t (b % 2)) (bit_xor_parity a b),
  differ_self (a % 2) (b % 2) (omega arith) (omega arith),
  bit_xor_cancel n (a / 2) (b / 2) (omega (arith, pow-suc 2 n)) (omega (arith, pow-suc 2 n)),
)

pub bit_xor_comm : (n a b : ℕ) → a < 2 ^ n → b < 2 ^ n → bit_xor a b ≡ bit_xor b a
bit_xor_comm zero zero zero p q = refl
bit_xor_comm zero zero (suc b) p q = absurd (omega arith)
bit_xor_comm zero (suc a) b p q = absurd (omega arith)
bit_xor_comm (suc n) a b p q = omega (
  arith,
  xor_step a b,
  xor_step b a,
  differ_comm (a % 2) (b % 2) (omega arith) (omega arith),
  bit_xor_comm n (a / 2) (b / 2) (omega (arith, pow-suc 2 n)) (omega (arith, pow-suc 2 n)),
)

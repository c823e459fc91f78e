-- ===== src/Prelude/Bits.antt =====
-- A bound of exclusive or. The native operation stands for a recursion on binary digits.
use Prim.Native.Nat.{
  ℕ, zero, suc, ◌/◌, ◌%◌, ◌^◌, ◌≤◌, ◌<◌, bit_xor, bit_xor-bitwise, digits, differ,
}
use native.Mathlib.Omega.{arith}
use native.Mathlib.Nat.{pow-suc}

abbrev xor_digits : ℕ → ℕ → ℕ → ℕ
xor_digits n a b = digits (λ y. y) differ n a b

differ-le : (a b : ℕ) → a ≤ 1 → b ≤ 1 → differ a b ≤ 1
differ-le zero b p q = q
differ-le (suc a) zero p q = p
differ-le (suc zero) (suc zero) p q = omega arith
differ-le (suc (suc a)) (suc zero) p q = absurd (omega arith)
differ-le (suc a) (suc (suc b)) p q = absurd (omega arith)

xor_digits-lt : (k n a b : ℕ) → a < 2 ^ k → b < 2 ^ k → xor_digits n a b < 2 ^ k
xor_digits-lt k zero a b p q = q
xor_digits-lt k (suc n) zero b p q = q
xor_digits-lt zero (suc n) (suc a) b p q = absurd (omega arith)
xor_digits-lt (suc k) (suc n) (suc a) b p q = omega (
  arith,
  pow-suc 2 k,
  xor_digits-lt k n (suc a / 2) (b / 2) (omega (arith, pow-suc 2 k)) (omega (arith, pow-suc 2 k)),
  differ-le (suc a % 2) (b % 2) (omega arith) (omega arith),
)

-- Numbers of `k` bits stay numbers of `k` bits.
pub bit_xor-lt : (k a b : ℕ) → a < 2 ^ k → b < 2 ^ k → bit_xor a b < 2 ^ k
bit_xor-lt k a b p q = simp bit_xor-bitwise (xor_digits-lt k a a b p q)

-- ===== src/Base/Bits.antt =====
-- `|` where it joins fields that do not overlap, as arithmetic.
use Prim.Native.Nat.{ℕ, zero, suc, ◌+◌, ◌*◌, ◌/◌, ◌^◌, ◌≤◌, ◌<◌, max, bit_or, digits}
use Prim.Native.Nat.{bit_or-bitwise}
use mathlib.Core.Path.{◌≡◌, refl, ◌∙◌}
use native.Mathlib.Nat.{le_refl, pow-suc}
use native.Mathlib.Omega.{arith}

-- the recursion that `bit_or` stands for, with `n` digits to go
abbrev or_within : ℕ → ℕ → ℕ → ℕ
or_within n a b = digits (λ y. y) max n a b

or_within-zero : (n a : ℕ) → a ≤ n → or_within n a 0 ≡ a
or_within-zero zero a h = omega arith
or_within-zero (suc n) zero h = refl
or_within-zero (suc n) (suc a) h = omega (arith, or_within-zero n (suc a / 2) (omega arith))

double_pow : (q k : ℕ) → q * 2 ^ suc k ≡ q * 2 ^ k * 2
double_pow q k = rw (pow-suc 2 k) (omega arith)

or_within_fields : (k n a q r : ℕ) → a ≡ q * 2 ^ k → r < 2 ^ k → a ≤ n → or_within n a r ≡ a + r
or_within_fields zero n a q r e fits le =
    let none_left : r ≡ 0 = omega arith in rw none_left (or_within-zero n a le ∙ omega arith)
or_within_fields (suc k) zero a q r e fits le = omega arith
or_within_fields (suc k) (suc n) zero q r e fits le = omega arith
or_within_fields (suc k) (suc n) (suc a) q r e fits le = omega (
  arith,
  double_pow q k,
  pow-suc 2 k,
  or_within_fields k n (suc a / 2) q (r / 2) (omega (arith, double_pow q k))
      (omega (arith, pow-suc 2 k)) (omega arith),
)

-- Bits below position `k` joined to a multiple of `2 ^ k` add up.
pub bit_or-add : (k q r : ℕ) → r < 2 ^ k → bit_or (q * 2 ^ k) r ≡ q * 2 ^ k + r
bit_or-add k q r fits =
    bit_or-bitwise (q * 2 ^ k) r
    ∙ or_within_fields k (q * 2 ^ k) (q * 2 ^ k) q r refl fits (le_refl _)

or_within-one : (n a : ℕ) → a ≤ n → or_within n a 1 ≡ a / 2 * 2 + 1
or_within-one zero a h = omega arith
or_within-one (suc n) zero h = refl
or_within-one (suc n) (suc a) h = omega (arith, or_within-zero n (suc a / 2) (omega arith))

-- Joining the lowest bit.
pub bit_or-one : (a : ℕ) → bit_or a 1 ≡ a / 2 * 2 + 1
bit_or-one a = bit_or-bitwise a 1 ∙ or_within-one a a (le_refl _)

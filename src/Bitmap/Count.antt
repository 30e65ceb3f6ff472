-- ===== src/Bitmap/Count.antt =====
-- How many numbers below a bound pass a test, and how the count moves when one number's test does.
use hal_os.Base.{ℕ, zero, suc, ◌≤◌, ◌<◌, ◌==◌, Bool, true, false, not, ◌&&◌, ◌||◌}
use native.Mathlib.Decide.{dec_lt}
use hal_os.Base.{Bool-cases, ◌≡◌, ◌⊎◌, inl, inr, refl, arith, ltb, if◌then◌else◌}

unfoldable pub count : (ℕ → Bool) → ℕ → ℕ
count p zero = 0
count p (suc n) = if p n then suc (count p n) else count p n

pub count-le : (p : ℕ → Bool) (n : ℕ) → count p n ≤ n
unfolding count
count-le p zero = omega arith
count-le p (suc n) = ground (arith, count-le p n)

pub count_ext : (p q : ℕ → Bool) (n : ℕ) → ((c : ℕ) → c < n → q c ≡ p c) → count q n ≡ count p n
unfolding count
count_ext p q zero h = refl
count_ext p q (suc n) h = ground (arith, h n, count_ext p q n (λ c lt. h c (omega arith)))

-- A number below the bound that fails the test keeps the count below the bound.
eq_or_lt : (c n : ℕ) → c < suc n → (c ≡ n) ⊎ (c < n)
eq_or_lt c n h = elim (dec_lt c n) [ yes p ↦ inr p | no p ↦ inl (omega arith) ]

pub count-lt : (p : ℕ → Bool) (n c : ℕ) → c < n → p c ≡ false → count p n < n
unfolding count
count-lt p zero c h e = absurd (omega arith)
count-lt p (suc n) c h e = elim (eq_or_lt c n h) [
  | inl same ↦ ground (arith, count-le p n)
  | inr lt ↦ ground (arith, count-lt p n c lt e)
]

pub count-add :
    (p q : ℕ → Bool) (b n : ℕ)
    → ((c : ℕ) → q c ≡ (b == c || p c))
    → p b ≡ false
    → count q n ≡ (if ltb b n then suc (count p n) else count p n)
unfolding count
count-add p q b zero h e = ground arith
count-add p q b (suc n) h e = ground (arith, h n, count-add p q b n h e)

pub count-remove :
    (p q : ℕ → Bool) (b n : ℕ)
    → ((c : ℕ) → q c ≡ (not (b == c) && p c))
    → p b ≡ true
    → count p n ≡ (if ltb b n then suc (count q n) else count q n)
unfolding count
count-remove p q b zero h e = ground arith
count-remove p q b (suc n) h e = ground (arith, h n, count-remove p q b n h e)

pub count-none : (p : ℕ → Bool) (n : ℕ) → ((c : ℕ) → c < n → p c ≡ false) → count p n ≡ 0
unfolding count
count-none p zero h = refl
count-none p (suc n) h = ground (arith, h n, count-none p n (λ c lt. h c (omega arith)))

-- A count that reaches the bound leaves no number out.
pub count-full : (p : ℕ → Bool) (n c : ℕ) → n ≤ count p n → c < n → p c ≡ true
count-full p n c full h = elim (Bool-cases (p c)) [
  | inl t ↦ t
  | inr f ↦ absurd (omega (arith, count-lt p n c h f))
]

-- ===== src/Str/Text.antt =====
-- The string functions of src/libs/string.c: the text at an address runs up to its first 0.

use native.Mathlib.Decide.{ℕ_discrete}
use hal_os.Base.{ℕ, zero, suc, ◌+◌, ◌<◌}
use hal_os.Base.{◌≡◌, ◌≢◌, ◌⊎◌, ◌↔◌, inl, inr, refl, arith, ◌∙◌, ap, sym, Option, some}
use hal_os.Str.{Memory, strlen, strcmp}

-- a text of `n` bytes at `s`, with its final 0
pub record IsText (mem : Memory) (s n : ℕ) : Type 0 where
  pub body : (i : ℕ) → i < n → mem (s + i) ≢ 0
  pub last : mem (s + n) ≡ 0

pub IsText-zero : (mem : Memory) (s : ℕ) → IsText mem s 0 → mem s ≡ 0
IsText-zero mem s t = ap mem (omega arith) ∙ t.last

pub IsText-head : (mem : Memory) (s n : ℕ) → IsText mem s (suc n) → mem s ≢ 0
IsText-head mem s n t e = t.body 0 (omega arith) (ap mem (omega arith) ∙ e)

pub IsText-tail : (mem : Memory) (s n : ℕ) → IsText mem s (suc n) → IsText mem (s + 1) n
IsText-tail mem s n t = record {
  body = λ i lt e. t.body (suc i) (omega arith) (ap mem (omega arith) ∙ e);
  last = ap mem (omega arith) ∙ t.last;
}

-- With more fuel than the text has bytes, `strlen` stops, and returns the number of bytes in front of the final 0.
pub strlen-IsText :
    (fuel n s : ℕ) (mem : Memory) → IsText mem s n → n < fuel → strlen fuel s mem ≡ some n
unfolding strlen
strlen-IsText zero n s mem t h = absurd (omega arith)
strlen-IsText (suc fuel) zero s mem t h = ground (arith, IsText-zero mem s t)
strlen-IsText (suc fuel) (suc n) s mem t h = ground (
  arith,
  IsText-head mem s n t,
  strlen-IsText fuel n (s + 1) mem (IsText-tail mem s n t) (omega arith),
)

-- the same text at two addresses
abbrev pub SameText : Memory → ℕ → ℕ → ℕ → ℕ → Type 0
SameText mem s1 n1 s2 n2 = (n1 ≡ n2) × ((i : ℕ) → i < n1 → mem (s1 + i) ≡ mem (s2 + i))

SameText-head : (mem : Memory) (s1 n1 s2 n2 : ℕ) → SameText mem s1 (suc n1) s2 n2 → mem s1 ≡ mem s2
SameText-head mem s1 n1 s2 n2 t = ap mem (omega arith) ∙ t.1 0 (omega arith) ∙ ap mem (omega arith)

SameText-suc :
    (mem : Memory) (s1 n1 s2 n2 : ℕ)
    → mem s1 ≡ mem s2
    → SameText mem (s1 + 1) n1 (s2 + 1) n2 ↔ SameText mem s1 (suc n1) s2 (suc n2)
SameText-suc mem s1 n1 s2 n2 e = (
  λ t. (omega arith, into t),
  λ t. (
    omega arith,
    λ i lt. ap mem (omega arith) ∙ t.1 (suc i) (omega arith) ∙ ap mem (omega arith),
  ),
)
  where
    into : SameText mem (s1 + 1) n1 (s2 + 1) n2 → (i : ℕ) → i < suc n1 → mem (s1 + i) ≡ mem (s2 + i)
    into t zero lt = ap mem (omega arith) ∙ e ∙ ap mem (omega arith)
    into t (suc i) lt = ap mem (omega arith) ∙ t.1 i (omega arith) ∙ ap mem (omega arith)

-- how a comparison ends: with 0 for the same text, and with 1 for another
abbrev pub Compares : Memory → ℕ → ℕ → ℕ → ℕ → Option ℕ → Type 0
Compares mem s1 n1 s2 n2 r =
    ((r ≡ some 0) × SameText mem s1 n1 s2 n2) ⊎ ((r ≡ some 1) × (¬ SameText mem s1 n1 s2 n2))

differs : (fuel s1 s2 : ℕ) (mem : Memory) → mem s1 ≢ mem s2 → strcmp (suc fuel) s1 s2 mem ≡ some 1
unfolding strcmp
differs fuel s1 s2 mem ne = ground arith

ends :
    (fuel s1 s2 : ℕ) (mem : Memory) → mem s1 ≡ 0 → mem s2 ≡ 0 → strcmp (suc fuel) s1 s2 mem ≡ some 0
unfolding strcmp
ends fuel s1 s2 mem a b = ground arith

goes_on :
    (fuel s1 s2 : ℕ) (mem : Memory)
    → mem s1 ≡ mem s2
    → mem s2 ≢ 0
    → strcmp (suc fuel) s1 s2 mem ≡ strcmp fuel (s1 + 1) (s2 + 1) mem
unfolding strcmp
goes_on fuel s1 s2 mem e ne = ground arith

-- With more fuel than the first text has bytes, `strcmp` on two texts stops, with 0 exactly if they are the same and with 1 otherwise.
strcmp-Compares :
    (fuel n1 n2 s1 s2 : ℕ) (mem : Memory)
    → IsText mem s1 n1
    → IsText mem s2 n2
    → n1 < fuel
    → Compares mem s1 n1 s2 n2 (strcmp fuel s1 s2 mem)
strcmp-Compares zero n1 n2 s1 s2 mem a b h = absurd (omega arith)
strcmp-Compares (suc fuel) zero zero s1 s2 mem a b h = inl (
  ends fuel s1 s2 mem (IsText-zero mem s1 a) (IsText-zero mem s2 b),
  (refl, λ i lt. absurd (omega arith)),
)
strcmp-Compares (suc fuel) zero (suc n2) s1 s2 mem a b h = inr (
  differs fuel s1 s2 mem (λ e. IsText-head mem s2 n2 b (sym e ∙ IsText-zero mem s1 a)),
  λ t. omega (arith, t.0),
)
strcmp-Compares (suc fuel) (suc n1) zero s1 s2 mem a b h = inr (
  differs fuel s1 s2 mem (λ e. IsText-head mem s1 n1 a (e ∙ IsText-zero mem s2 b)),
  λ t. omega (arith, t.0),
)
strcmp-Compares (suc fuel) (suc n1) (suc n2) s1 s2 mem a b h = elim (ℕ_discrete (mem s1) (mem s2)) [
  | no ne ↦ inr (differs fuel s1 s2 mem ne, λ t. ne (SameText-head mem s1 n1 s2 (suc n2) t))
  | yes e ↦ rw (goes_on fuel s1 s2 mem e (IsText-head mem s2 n2 b)) (
      wider e (
        strcmp-Compares fuel n1 n2 (s1 + 1) (s2 + 1) mem (IsText-tail mem s1 n1 a)
          (IsText-tail mem s2 n2 b) (omega arith)))
]
  where
    wider :
        mem s1 ≡ mem s2
        → {r : Option ℕ} → Compares mem (s1 + 1) n1 (s2 + 1) n2 r
        → Compares mem s1 (suc n1) s2 (suc n2) r
    wider e (inl (z, t)) = inl (z, (SameText-suc mem s1 n1 s2 n2 e).0 t)
    wider e (inr (o, t)) = inr (o, λ u. t ((SameText-suc mem s1 n1 s2 n2 e).1 u))

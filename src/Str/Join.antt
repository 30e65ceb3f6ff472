-- ===== src/Str/Join.antt =====
-- `strcpy` and `strcat` of src/libs/string.c.
use native.Mathlib.Decide.{dec_lt}
use hal_os.Base.{ℕ, zero, suc, ◌+◌, ◌-◌, ◌<◌, Option, some}
use hal_os.Base.{update, ◌≡◌, ◌≢◌, inl, refl, arith, ◌∙◌, ap, sym}
use hal_os.Str.{Memory, strcpy, strcat, end_of}
use hal_os.Str.Memory.{IsWritten, IsWritten-first}
use hal_os.Str.Text.{IsText, IsText-zero, IsText-head, IsText-tail}
use hal_os.Str.Copy.{Disjoint, IsText-update}

-- a copy of `n` bytes from `src` to `dst` that came to an end
abbrev pub Copies : ℕ → ℕ → ℕ → Memory → Option Memory → Type 0
Copies dst src n mem r =
    (after : Memory) × (r ≡ some after) × IsWritten dst n (λ i. mem (src + i)) mem after

Copies-first :
    (dst src len : ℕ) (mem : Memory) (r : Option Memory)
    → Disjoint dst (suc len + 1) src (suc len + 1)
    → Copies (dst + 1) (src + 1) (suc len) (update mem dst (mem src)) r
    → Copies dst src (suc (suc len)) mem r
Copies-first dst src len mem r d (after, e, w) =
    (after, e, IsWritten-first dst src (suc len) mem after (λ k lt. ground arith) w (λ k. refl))

strcpy-goes_on :
    (fuel dst src : ℕ) (mem : Memory)
    → mem src ≢ 0
    → strcpy (suc fuel) dst src mem ≡ strcpy fuel (dst + 1) (src + 1) (update mem dst (mem src))
unfolding strcpy
strcpy-goes_on fuel dst src mem ne = ground arith

strcpy-ends :
    (fuel dst src : ℕ) (mem : Memory)
    → mem src ≡ 0
    → strcpy (suc fuel) dst src mem ≡ some (update mem dst (mem src))
unfolding strcpy
strcpy-ends fuel dst src mem e = ground arith

pub strcpy-Copies :
    (fuel len dst src : ℕ) (mem : Memory)
    → IsText mem src len
    → Disjoint dst (len + 1) src (len + 1)
    → len < fuel
    → Copies dst src (suc len) mem (strcpy fuel dst src mem)
strcpy-Copies zero len dst src mem t d h = absurd (omega arith)
strcpy-Copies (suc fuel) zero dst src mem t d h = (
  update mem dst (mem src),
  strcpy-ends fuel dst src mem (IsText-zero mem src t),
  IsWritten-first dst src 0 mem _ (λ k lt. absurd (omega arith))
      (record { inside = λ i lt. absurd (omega arith); outside = λ a o. refl }) (λ k. refl),
)
strcpy-Copies (suc fuel) (suc len) dst src mem t d h =
    rw (strcpy-goes_on fuel dst src mem (IsText-head mem src len t)) (
      Copies-first dst src len mem _ d (
        strcpy-Copies fuel len (dst + 1) (src + 1) (update mem dst (mem src))
          (IsText-update mem (src + 1) len dst (mem src) (IsText-tail mem src len t) (ground arith))
          (ground arith) (omega arith)))

end_of-IsText :
    (fuel n s : ℕ) (mem : Memory) → IsText mem s n → n < fuel → end_of fuel s mem ≡ some (s + n)
unfolding end_of
end_of-IsText zero n s mem t h = absurd (omega arith)
end_of-IsText (suc fuel) zero s mem t h = ground (arith, IsText-zero mem s t)
end_of-IsText (suc fuel) (suc n) s mem t h = ground (
  arith,
  IsText-head mem s n t,
  end_of-IsText fuel n (s + 1) mem (IsText-tail mem s n t) (omega arith),
)

-- the second text, with its final 0, behind the first one
abbrev pub Joins : ℕ → ℕ → ℕ → ℕ → Memory → Option Memory → Type 0
Joins dest n src k mem r =
    (after : Memory) × (r ≡ some after)
    × IsWritten (dest + n) (suc k) (λ i. mem (src + i)) mem after
    × IsText after dest (n + k)

-- With more fuel than either text has bytes, `strcat` of a text that does not overlap the
-- destination stops. It writes the second text with its final 0 over the end of the first one and
-- changes nothing else, and the destination holds a text as long as both together.
pub strcat-Joins :
    (fuel dest n src k : ℕ) (mem : Memory)
    → IsText mem dest n
    → IsText mem src k
    → Disjoint dest (n + k + 1) src (k + 1)
    → n < fuel
    → k < fuel
    → Joins dest n src k mem (strcat fuel dest src mem)
unfolding strcat
strcat-Joins fuel dest n src k mem a b d hn hk =
    rw (end_of-IsText fuel n dest mem a hn, strcat)
      (go (strcpy-Copies fuel k (dest + n) src mem b (ground arith) hk))
  where
    go : {r : Option Memory} → Copies (dest + n) src (suc k) mem r → Joins dest n src k mem r
    go (after, e, w) = (after, e, w, record { body = body; last = last })
      where
        body : (i : ℕ) → i < n + k → after (dest + i) ≢ 0
        body i lt z = elim (dec_lt i n) [
          | yes y ↦ a.body i y (sym (w.outside (dest + i) (inl (omega arith))) ∙ z)
          | no q ↦
              b.body (i - n) (omega arith)
                (sym (w.inside (i - n) (omega arith)) ∙ ap after (omega arith) ∙ z)
        ]

        last : after (dest + (n + k)) ≡ 0
        last = ap after (omega arith) ∙ w.inside k (omega arith) ∙ b.last

-- ===== src/Str/Memory.antt =====
-- The block functions of src/libs/string.c.
use mathlib.Core.Path.{subst}
use native.Mathlib.Decide.{ℕ_discrete}
use hal_os.Base.{ℕ, zero, suc, ◌+◌, ◌≤◌, ◌<◌, ltb}
use hal_os.Base.{
  u8, update, update_self, update_ne, ◌≡◌, ◌⊎◌, inl, inr, refl, arith, ◌∙◌, ap, Bool-cases,
}
use hal_os.Base.{◌≢◌}
use hal_os.Str.{Memory, memset, memcpy, memmove, copy_up, copy_down}

-- `after` is `before` with the `n` bytes from `dst` on replaced.
pub record IsWritten (dst n : ℕ) (value : ℕ → ℕ) (before after : Memory) : Type 0 where
  pub inside : (i : ℕ) → i < n → after (dst + i) ≡ value i
  pub outside : (a : ℕ) → (a < dst) ⊎ (dst + n ≤ a) → after a ≡ before a

copy_down-IsWritten :
    (dst src n : ℕ) (mem : Memory)
    → src ≤ dst
    → IsWritten dst n (λ i. mem (src + i)) mem (copy_down dst src n mem)
unfolding copy_down
copy_down-IsWritten dst src zero mem h = record {
  inside = λ i lt. absurd (omega arith);
  outside = λ a o. refl;
}
copy_down-IsWritten dst src (suc n) mem h =
    let rest = copy_down-IsWritten dst src n (update mem (dst + n) (mem (src + n))) h in
    record {
      inside = λ i lt. elim (ℕ_discrete i n) [
        | yes e ↦
            rw e (
              rest.outside (dst + n) (inr (omega arith))
              ∙ update_self mem (dst + n) (mem (src + n)))
        | no ne ↦
            rest.inside i (omega arith)
            ∙ update_ne mem (dst + n) (src + i) (mem (src + n)) (omega arith)
      ];
      outside = λ a o.
          rest.outside a (ground arith) ∙ update_ne mem (dst + n) a (mem (src + n)) (ground arith);
    }

-- One byte copied up, and then the rest from the memory that this leaves.
pub IsWritten-first :
    (d s left : ℕ) (mem after : Memory) {value : ℕ → ℕ}
    → ((k : ℕ) → k < left → d ≢ s + 1 + k)
    → IsWritten (d + 1) left value (update mem d (mem s)) after
    → ((k : ℕ) → value k ≡ update mem d (mem s) (s + 1 + k))
    → IsWritten d (suc left) (λ k. mem (s + k)) mem after
IsWritten-first d s left mem after h rest values = record {
  inside = at;
  outside = λ a o. rest.outside a (ground arith) ∙ update_ne mem d a (mem s) (ground arith);
}
  where
    at : (k : ℕ) → k < suc left → after (d + k) ≡ mem (s + k)
    at zero lt =
        ap after (omega arith)
        ∙ rest.outside d (inl (omega arith))
        ∙ update_self mem d (mem s)
        ∙ ap mem (omega arith)
    at (suc k) lt =
        ap after (omega arith)
        ∙ rest.inside k (omega arith)
        ∙ values k
        ∙ update_ne mem d (s + 1 + k) (mem s) (h k (omega arith))
        ∙ ap mem (omega arith)

copy_up-IsWritten :
    (dst src left i : ℕ) (mem : Memory)
    → dst < src
    → IsWritten (dst + i) left (λ k. mem (src + i + k)) mem (copy_up dst src left i mem)
unfolding copy_up
copy_up-IsWritten dst src zero i mem h = record {
  inside = λ k lt. absurd (omega arith);
  outside = λ a o. refl;
}
copy_up-IsWritten dst src (suc left) i mem h =
    IsWritten-first (dst + i) (src + i) left mem _ (λ k lt. omega arith)
      (subst
        (λ n.
          IsWritten n left (λ k. update mem (dst + i) (mem (src + i)) (src + (i + 1) + k))
            (update mem (dst + i) (mem (src + i))) (copy_up dst src (suc left) i mem))
        (omega arith)
        (copy_up-IsWritten dst src left (i + 1) (update mem (dst + i) (mem (src + i))) h))
      (λ k. ap (update mem (dst + i) (mem (src + i))) (omega arith))

memcpy-copy_up :
    (n dst src i : ℕ) (mem : Memory) → memcpy (dst + i) (src + i) n mem ≡ copy_up dst src n i mem
unfolding memcpy copy_up
memcpy-copy_up zero dst src i mem = refl
memcpy-copy_up (suc n) dst src i mem =
    let d : dst + i + 1 ≡ dst + (i + 1) = omega arith in
    let s : src + i + 1 ≡ src + (i + 1) = omega arith in
    rw (d, s) (memcpy-copy_up n dst src (i + 1) (update mem (dst + i) (mem (src + i))))

-- `memmove` copies the bytes as they were before the call, whether or not the two blocks overlap,
-- and changes nothing else.
pub memmove-IsWritten :
    (dst src n : ℕ) (mem : Memory)
    → IsWritten dst n (λ i. mem (src + i)) mem (memmove dst src n mem)
unfolding memmove
memmove-IsWritten dst src n mem = elim (Bool-cases (ltb dst src)) [
  | inr ge ↦ rw ge (copy_down-IsWritten dst src n mem (ground arith))
  | inl lt ↦ rw lt (up (copy_up-IsWritten dst src n 0 mem (ground arith)))
]
  where
    up :
        IsWritten (dst + 0) n (λ k. mem (src + 0 + k)) mem (copy_up dst src n 0 mem)
        → IsWritten dst n (λ k. mem (src + k)) mem (copy_up dst src n 0 mem)
    up w = record {
      inside =
          λ k lt. ap (copy_up dst src n 0 mem) (omega arith) ∙ w.inside k lt ∙ ap mem (omega arith);
      outside = λ a o. w.outside a (ground arith);
    }

IsWritten-set :
    (d left v : ℕ) (mem after : Memory)
    → IsWritten (d + 1) left (λ _. v) (update mem d v) after
    → IsWritten d (suc left) (λ _. v) mem after
IsWritten-set d left v mem after rest = record {
  inside = at;
  outside = λ a o. rest.outside a (ground arith) ∙ update_ne mem d a v (ground arith);
}
  where
    at : (k : ℕ) → k < suc left → after (d + k) ≡ v
    at zero lt = ap after (omega arith) ∙ rest.outside d (inl (omega arith)) ∙ update_self mem d v
    at (suc k) lt = ap after (omega arith) ∙ rest.inside k (omega arith)

-- `memset` writes the low byte of the value to each byte of the block and to no other.
pub memset-IsWritten :
    (dst c n : ℕ) (mem : Memory) → IsWritten dst n (λ _. u8 c) mem (memset dst c n mem)
unfolding memset
memset-IsWritten dst c zero mem = record {
  inside = λ i lt. absurd (omega arith);
  outside = λ a o. refl;
}
memset-IsWritten dst c (suc n) mem =
    IsWritten-set dst n (u8 c) mem _ (memset-IsWritten (dst + 1) c n (update mem dst (u8 c)))

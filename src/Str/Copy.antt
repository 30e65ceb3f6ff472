-- ===== src/Str/Copy.antt =====
-- `strncpy` and `memcmp` of src/libs/string.c.
use native.Mathlib.Decide.{ℕ_discrete, dec_lt}
use hal_os.Base.{ℕ, zero, suc, ◌+◌, ◌-◌, ◌≤◌, ◌<◌, ltb, if◌then◌else◌, min}
use hal_os.Base.{update, update_self, update_ne, ◌≡◌, ◌≢◌, ◌⊎◌, ◌↔◌, inl, refl, arith, ◌∙◌, ap, sym}
use hal_os.Str.{Memory, strncpy, copy_text, memset, memcmp, equal}
use hal_os.Str.Memory.{IsWritten, memset-IsWritten}
use hal_os.Str.Text.{IsText}

-- the blocks from `a` of `n` bytes and from `b` of `k` bytes have no byte in common
abbrev pub Disjoint : ℕ → ℕ → ℕ → ℕ → Type 0
Disjoint a n b k = (a + n ≤ b) ⊎ (b + k ≤ a)

-- what the first loop leaves, from index `i` with `left` rounds to go
record IsCopied (dest src left i len : ℕ) (mem : Memory) (r : ℕ × Memory) : Type 0 where
  stop : r.0 ≡ i + min left (len - i)
  at : (k : ℕ) → i ≤ k → k < r.0 → r.1 (dest + k) ≡ mem (src + k)
  off : (a : ℕ) → (a < dest + i) ⊎ (dest + r.0 ≤ a) → r.1 a ≡ mem a

pub IsText-update :
    (mem : Memory) (src len a v : ℕ)
    → IsText mem src len
    → (a < src) ⊎ (src + len < a)
    → IsText (update mem a v) src len
IsText-update mem src len a v t o = record {
  body = λ i lt e. t.body i lt (sym (update_ne mem a (src + i) v (ground arith)) ∙ e);
  last = update_ne mem a (src + len) v (ground arith) ∙ t.last;
}

IsCopied-step :
    (dest src n len left i : ℕ) (mem : Memory) (r : ℕ × Memory)
    → Disjoint dest n src (len + 1)
    → i < len
    → i + suc left ≤ n
    → IsCopied dest src left (i + 1) len (update mem (dest + i) (mem (src + i))) r
    → IsCopied dest src (suc left) i len mem r
IsCopied-step dest src n len left i mem r d h k w = record {
  stop = omega (arith, w.stop);
  at = copied;
  off = λ a o.
      w.off a (ground (arith, w.stop))
      ∙ update_ne mem (dest + i) a (mem (src + i)) (ground (arith, w.stop));
}
  where
    copied : (j : ℕ) → i ≤ j → j < r.0 → r.1 (dest + j) ≡ mem (src + j)
    copied j lo hi = elim (ℕ_discrete j i) [
      | yes e ↦
          rw e (w.off (dest + i) (inl (omega arith)) ∙ update_self mem (dest + i) (mem (src + i)))
      | no ne ↦
          w.at j (omega arith) hi
          ∙ update_ne mem (dest + i) (src + j) (mem (src + i)) (ground (arith, w.stop))
    ]

copy_text-IsCopied :
    (dest src n len left i : ℕ) (mem : Memory)
    → IsText mem src len
    → Disjoint dest n src (len + 1)
    → i ≤ len
    → i + left ≤ n
    → IsCopied dest src left i len mem (copy_text dest src left i mem)
copy_text-IsCopied dest src n len zero i mem t d h k = record {
  stop = unfold copy_text in omega arith;
  at = unfold copy_text in λ j lo hi. absurd (omega arith);
  off = unfold copy_text in λ a o. refl;
}
copy_text-IsCopied dest src n len (suc left) i mem t d h k = elim (ℕ_discrete i len) [
  | yes e ↦
      let at_end : mem (src + i) ≡ 0 = ap mem (omega arith) ∙ t.last in
      rw (stops at_end)
        (record { stop = omega arith; at = λ j lo hi. absurd (omega arith); off = λ a o. refl })
  | no ne ↦ rw (steps (t.body i (omega arith))) (
      IsCopied-step dest src n len left i mem _ d (omega arith) k (
        copy_text-IsCopied dest src n len left (i + 1) (update mem (dest + i) (mem (src + i)))
          (IsText-update mem src len (dest + i) (mem (src + i)) t (ground arith)) d (omega arith)
          (omega arith)))
]
  where
    stops : mem (src + i) ≡ 0 → copy_text dest src (suc left) i mem ≡ (i, mem)
    stops z = unfold copy_text in ground arith

    steps :
        mem (src + i) ≢ 0
        → copy_text dest src (suc left) i mem
          ≡ copy_text dest src left (i + 1) (update mem (dest + i) (mem (src + i)))
    steps nz = unfold copy_text in ground arith

-- `strncpy` from a text that does not overlap the destination writes exactly `n` bytes: those of
-- the text as far as they fit, and zeros for the rest. A text of `n` bytes or more is cut without
-- a final 0.
pub strncpy-IsWritten :
    (dest src n len : ℕ) (mem : Memory)
    → IsText mem src len
    → Disjoint dest n src (len + 1)
    → IsWritten dest n (λ i. if ltb i len then mem (src + i) else 0) mem (strncpy dest src n mem)
unfolding strncpy
strncpy-IsWritten dest src n len mem t d =
    go (copy_text dest src n 0 mem)
      (copy_text-IsCopied dest src n len n 0 mem t d (omega arith) (omega arith))
  where
    go :
        (r : ℕ × Memory)
        → IsCopied dest src n 0 len mem r
        → IsWritten dest n
            (λ i. if ltb i len then mem (src + i) else 0)
            mem
            (memset (dest + r.0) 0 (n - r.0) r.1)
    go r w = record { inside = value; outside = kept }
      where
        pad : IsWritten (dest + r.0) (n - r.0) (λ _. 0) r.1 (memset (dest + r.0) 0 (n - r.0) r.1)
        pad = memset-IsWritten (dest + r.0) 0 (n - r.0) r.1

        value :
            (i : ℕ)
            → i < n
            → memset (dest + r.0) 0 (n - r.0) r.1 (dest + i)
              ≡ (if ltb i len then mem (src + i) else 0)
        value i lt = elim (dec_lt i r.0) [
          | yes y ↦
              pad.outside (dest + i) (inl (omega arith))
              ∙ w.at i (omega arith) y
              ∙ ground (arith, w.stop)
          | no q ↦
              ap (memset (dest + r.0) 0 (n - r.0) r.1) (omega arith)
              ∙ pad.inside (i - r.0) (omega arith)
              ∙ ground (arith, w.stop)
        ]

        kept : (a : ℕ) → (a < dest) ⊎ (dest + n ≤ a) → memset (dest + r.0) 0 (n - r.0) r.1 a ≡ mem a
        kept a o = pad.outside a (ground (arith, w.stop)) ∙ w.off a (ground (arith, w.stop))

memcmp-same :
    (n s1 s2 : ℕ) (mem : Memory)
    → mem s1 ≡ mem s2
    → memcmp s1 s2 (suc n) mem ≡ memcmp (s1 + 1) (s2 + 1) n mem
unfolding memcmp
memcmp-same n s1 s2 mem e = ground arith

memcmp-differs : (n s1 s2 : ℕ) (mem : Memory) → mem s1 ≢ mem s2 → memcmp s1 s2 (suc n) mem ≢ equal
unfolding memcmp
memcmp-differs n s1 s2 mem ne = ground arith

same_of_memcmp :
    (n s1 s2 : ℕ) (mem : Memory)
    → memcmp s1 s2 n mem ≡ equal
    → (i : ℕ) → i < n
    → mem (s1 + i) ≡ mem (s2 + i)
same_of_memcmp zero s1 s2 mem h i lt = absurd (omega arith)
same_of_memcmp (suc n) s1 s2 mem h i lt = elim (ℕ_discrete (mem s1) (mem s2)) [
  | no ne ↦ absurd (memcmp-differs n s1 s2 mem ne h)
  | yes e ↦ at i lt e (same_of_memcmp n (s1 + 1) (s2 + 1) mem (sym (memcmp-same n s1 s2 mem e) ∙ h))
]
  where
    at :
        (i : ℕ)
        → i < suc n
        → mem s1 ≡ mem s2
        → ((k : ℕ) → k < n → mem (s1 + 1 + k) ≡ mem (s2 + 1 + k))
        → mem (s1 + i) ≡ mem (s2 + i)
    at zero lt e rest = ap mem (omega arith) ∙ e ∙ ap mem (omega arith)
    at (suc i) lt e rest = ap mem (omega arith) ∙ rest i (omega arith) ∙ ap mem (omega arith)

memcmp_of_same :
    (n s1 s2 : ℕ) (mem : Memory)
    → ((i : ℕ) → i < n → mem (s1 + i) ≡ mem (s2 + i))
    → memcmp s1 s2 n mem ≡ equal
memcmp_of_same zero s1 s2 mem h = unfold memcmp in refl
memcmp_of_same (suc n) s1 s2 mem h =
    memcmp-same n s1 s2 mem (ap mem (omega arith) ∙ h 0 (omega arith) ∙ ap mem (omega arith))
    ∙ memcmp_of_same n (s1 + 1) (s2 + 1) mem
        (λ i lt. ap mem (omega arith) ∙ h (suc i) (omega arith) ∙ ap mem (omega arith))

-- `memcmp` returns 0 exactly if the two blocks hold the same bytes.
pub memcmp-equal_iff :
    (n s1 s2 : ℕ) (mem : Memory)
    → (memcmp s1 s2 n mem ≡ equal) ↔ ((i : ℕ) → i < n → mem (s1 + i) ≡ mem (s2 + i))
memcmp-equal_iff n s1 s2 mem = (same_of_memcmp n s1 s2 mem, memcmp_of_same n s1 s2 mem)

-- ===== src/Fat/Names/Order.antt =====
-- The order in which src/drivers/fat.c puts the parts of a long name together.
use native.Mathlib.Decide.{ℕ_discrete}
use hal_os.Base.{ℕ, zero, suc, ◌+◌, ◌-◌, ◌*◌, ◌≤◌, ◌<◌, ◌==◌, false}
use hal_os.Base.{update, update_self, update_ne, ◌≡◌, ◌≢◌, ◌⊎◌, inl, refl, arith, ◌∙◌, ap, sym}
use hal_os.Str.{Memory, strncpy, copy_text, memset}
use hal_os.Str.Memory.{IsWritten}
use hal_os.Str.Copy.{Disjoint}
use hal_os.Fat.Names.{join_parts}

-- what the first loop of `strncpy` leaves of `left` bytes of which none is 0
record IsWhole (dest src left i : ℕ) (mem : Memory) (r : ℕ × Memory) : Type 0 where
  stop : r.0 ≡ i + left
  at : (k : ℕ) → i ≤ k → k < i + left → r.1 (dest + k) ≡ mem (src + k)
  off : (a : ℕ) → (a < dest + i) ⊎ (dest + i + left ≤ a) → r.1 a ≡ mem a

copy_text-IsWhole :
    (dest src n left i : ℕ) (mem : Memory)
    → Disjoint dest n src n
    → i + left ≡ n
    → ((k : ℕ) → i ≤ k → k < n → mem (src + k) ≢ 0)
    → IsWhole dest src left i mem (copy_text dest src left i mem)
unfolding copy_text
copy_text-IsWhole dest src n zero i mem d e body = record {
  stop = omega arith;
  at = λ k lo hi. absurd (omega arith);
  off = λ a o. refl;
}
copy_text-IsWhole dest src n (suc left) i mem d e body =
    let more : (mem (src + i) == 0) ≡ false = ground (arith, body i (omega arith) (omega arith)) in
    let next = update mem (dest + i) (mem (src + i)) in
    let kept : (k : ℕ) → k < n → next (src + k) ≡ mem (src + k) =
      λ k lt. update_ne mem (dest + i) (src + k) (mem (src + i)) (ground (arith, d, e)) in
    let w =
      copy_text-IsWhole dest src n left (i + 1) next d (omega arith)
        (λ k lo hi z. body k (omega arith) hi (sym (kept k hi) ∙ z)) in
    rw (copy_text, more)
      (record {
        stop = omega (arith, w.stop);
        at = λ k lo hi. elim (ℕ_discrete k i) [
          | yes same ↦
              rw same
                (w.off (dest + i) (inl (omega arith)) ∙ update_self mem (dest + i) (mem (src + i)))
          | no other ↦ w.at k (omega arith) (omega arith) ∙ kept k (omega arith)
        ];
        off = λ a o.
            w.off a (ground (arith, o))
            ∙ update_ne mem (dest + i) a (mem (src + i)) (ground (arith, o));
      })

-- `strncpy` of `n` bytes of which none is 0
strncpy-whole :
    (dest src n : ℕ) (mem : Memory)
    → Disjoint dest n src n
    → ((k : ℕ) → k < n → mem (src + k) ≢ 0)
    → IsWritten dest n (λ k. mem (src + k)) mem (strncpy dest src n mem)
unfolding strncpy memset
strncpy-whole dest src n mem d body =
    let w = copy_text-IsWhole dest src n n 0 mem d (omega arith) (λ k lo hi. body k hi) in
    let none_left : n - (copy_text dest src n 0 mem).0 ≡ 0 = omega (arith, w.stop) in
    rw none_left (record {
      inside = λ k lt. w.at k (omega arith) (omega arith);
      outside = λ a o. w.off a (ground (arith, o));
    })

-- the parts from `i` on, in the places where the loop puts them
pub record IsTurned (temp lfn_buffer parts i : ℕ) (mem after : Memory) : Type 0 where
  pub inside :
      (j k : ℕ)
      → i ≤ j
      → j < parts
      → k < 13
      → after (temp + (j * 13 + k)) ≡ mem (lfn_buffer + ((parts - j - 1) * 13 + k))
  pub outside : (a : ℕ) → (a < temp + i * 13) ⊎ (temp + parts * 13 ≤ a) → after a ≡ mem a

-- a round of the loop
module _ (i parts temp lfn_buffer : ℕ) (mem : Memory) (more : i < parts)
    (d : Disjoint temp (parts * 13) lfn_buffer (parts * 13))
    (body : (k : ℕ) → k < parts * 13 → mem (lfn_buffer + k) ≢ 0) where
  abbrev joined : Memory
  joined = strncpy (temp + i * 13) (lfn_buffer + (parts - i - 1) * 13) 13 mem

  part-IsWritten :
      IsWritten (temp + i * 13) 13 (λ k. mem (lfn_buffer + (parts - i - 1) * 13 + k)) mem joined
  part-IsWritten =
      strncpy-whole (temp + i * 13) (lfn_buffer + (parts - i - 1) * 13) 13 mem (ground (arith, d))
        (λ k lt z. body ((parts - i - 1) * 13 + k) (omega arith) (ap mem (omega arith) ∙ z))

  joined-kept : (k : ℕ) → k < parts * 13 → joined (lfn_buffer + k) ≡ mem (lfn_buffer + k)
  joined-kept k lt = part-IsWritten.outside (lfn_buffer + k) (ground (arith, d))

  IsTurned-step :
      (after : Memory)
      → IsTurned temp lfn_buffer parts (i + 1) joined after
      → IsTurned temp lfn_buffer parts i mem after
  IsTurned-step after w = record {
    inside = λ j k lo hi lt. elim (ℕ_discrete j i) [
      | yes same ↦ rw same (
          w.outside (temp + (i * 13 + k)) (inl (omega arith))
          ∙ ap joined (omega arith)
          ∙ part-IsWritten.inside k lt
          ∙ ap mem (omega arith))
      | no other ↦
          w.inside j k (omega arith) hi lt ∙ joined-kept ((parts - j - 1) * 13 + k) (omega arith)
    ];
    outside = λ a o. w.outside a (ground (arith, o)) ∙ part-IsWritten.outside a (ground (arith, o));
  }

pub join_parts-IsTurned :
    (n i parts temp lfn_buffer : ℕ) (mem : Memory)
    → i + n ≡ parts
    → Disjoint temp (parts * 13) lfn_buffer (parts * 13)
    → ((k : ℕ) → k < parts * 13 → mem (lfn_buffer + k) ≢ 0)
    → IsTurned temp lfn_buffer parts i mem (join_parts n i parts temp lfn_buffer mem)
unfolding join_parts
join_parts-IsTurned zero i parts temp lfn_buffer mem e d body = record {
  inside = λ j k lo hi lt. absurd (omega arith);
  outside = λ a o. refl;
}
join_parts-IsTurned (suc n) i parts temp lfn_buffer mem e d body =
    let next = joined i parts temp lfn_buffer mem (omega arith) d body in
    let kept = joined-kept i parts temp lfn_buffer mem (omega arith) d body in
    IsTurned-step i parts temp lfn_buffer mem (omega arith) d body
      (join_parts n (i + 1) parts temp lfn_buffer next)
      (join_parts-IsTurned n (i + 1) parts temp lfn_buffer next (omega arith) d
        (λ k lt z. body k lt (sym (kept k lt) ∙ z)))

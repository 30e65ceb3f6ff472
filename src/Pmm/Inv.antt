-- ===== src/Pmm/Inv.antt =====
-- The invariant of the state of src/mm/pmm.c, and how the loops that set and clear bits move it.

use hal_os.Base.{ℕ, zero, suc, ◌+◌, ◌≤◌, ◌<◌, ◌^◌, ◌==◌, Bool, not, ◌&&◌, ◌||◌}
use hal_os.Base.{◌≡◌, arith, ltb, leb, min, inl, inr, Bool-cases}
use hal_os.Bitmap.{IsByteMap, is_used, set_used, set_free}
use hal_os.Bitmap.Bits.{is_used-set_used, is_used-set_free, set_used-IsByteMap, set_free-IsByteMap}
use hal_os.Bitmap.Count.{count, count-lt, count-le, count-add, count-remove}
use hal_os.Pmm.{Pmm, claim, release, mark_used_from, mark_unused_from}

-- `pmm_used_blocks` counts the set bits below `pmm_max_blocks`.
pub record IsValid (s : Pmm) : Type 0 where
  pub bytes : IsByteMap s.memory_map
  pub counted : s.used_blocks ≡ count (is_used s.memory_map) s.max_blocks
  pub small : s.max_blocks ≤ 2 ^ 20

-- What no change of a bit touches.
pub record IsSameSetup (s t : Pmm) : Type 0 where
  pub memory_size : t.memory_size ≡ s.memory_size
  pub max_blocks : t.max_blocks ≡ s.max_blocks
  pub initialized : t.initialized ≡ s.initialized
  pub last_alloc : t.last_alloc ≡ s.last_alloc

abbrev pub within : ℕ → ℕ → ℕ → Bool
within lo hi c = leb lo c && ltb c hi

-- `t` is `s` with the blocks from `lo` up to `hi` in use as well.
pub record Claimed (lo hi : ℕ) (s t : Pmm) : Type 0 where
  pub valid : IsValid t
  pub setup : IsSameSetup s t
  pub bits : (c : ℕ) → is_used t.memory_map c ≡ (within lo hi c || is_used s.memory_map c)

-- `t` is `s` with the blocks from `lo` up to `hi` free.
pub record Released (lo hi : ℕ) (s t : Pmm) : Type 0 where
  pub valid : IsValid t
  pub setup : IsSameSetup s t
  pub bits : (c : ℕ) → is_used t.memory_map c ≡ (not (within lo hi c) && is_used s.memory_map c)

pub claim-IsValid : (s : Pmm) (b : ℕ) → IsValid s → b < s.max_blocks → IsValid (claim s b)
unfolding claim
claim-IsValid s b v h = elim (Bool-cases (is_used s.memory_map b)) [
  | inl used ↦ rw used v
  | inr free ↦ rw free (record {
    bytes = set_used-IsByteMap s.memory_map v.bytes b;
    counted = ground (
      arith,
      v.counted,
      v.small,
      count-lt (is_used s.memory_map) s.max_blocks b h free,
      count-add (is_used s.memory_map) (is_used (set_used s.memory_map b)) b s.max_blocks
          (is_used-set_used s.memory_map v.bytes b) free,
    );
    small = v.small;
  })
]

pub claim-bits :
    (s : Pmm) (b : ℕ)
    → IsValid s
    → (c : ℕ) → is_used (claim s b).memory_map c ≡ (b == c || is_used s.memory_map c)
unfolding claim
claim-bits s b v c = ground (arith, is_used-set_used s.memory_map v.bytes b c)

pub claim-setup : (s : Pmm) (b : ℕ) → IsSameSetup s (claim s b)
unfolding claim
claim-setup s b = ground arith

pub release-IsValid : (s : Pmm) (b : ℕ) → IsValid s → b < s.max_blocks → IsValid (release s b)
unfolding release
release-IsValid s b v h = elim (Bool-cases (is_used s.memory_map b)) [
  | inr free ↦ rw free v
  | inl used ↦ rw used (record {
    bytes = set_free-IsByteMap s.memory_map v.bytes b;
    counted = ground (
      arith,
      v.counted,
      v.small,
      count-le (is_used s.memory_map) s.max_blocks,
      count-remove (is_used s.memory_map) (is_used (set_free s.memory_map b)) b s.max_blocks
          (is_used-set_free s.memory_map v.bytes b) used,
    );
    small = v.small;
  })
]

pub release-bits :
    (s : Pmm) (b : ℕ)
    → IsValid s
    → (c : ℕ) → is_used (release s b).memory_map c ≡ (not (b == c) && is_used s.memory_map c)
unfolding release
release-bits s b v c = ground (arith, is_used-set_free s.memory_map v.bytes b c)

pub release-setup : (s : Pmm) (b : ℕ) → IsSameSetup s (release s b)
unfolding release
release-setup s b = ground arith

pub Claimed-none : (s : Pmm) (lo hi : ℕ) → hi ≤ lo → IsValid s → Claimed lo hi s s
Claimed-none s lo hi h v = record { valid = v; setup = ground arith; bits = λ c. ground arith }

pub Claimed-step :
    (s t : Pmm) (b hi : ℕ)
    → IsValid s
    → b < hi
    → Claimed (b + 1) hi (claim s b) t
    → Claimed b hi s t
Claimed-step s t b hi v h r = record {
  valid = r.valid;
  setup = ground (arith, r.setup, claim-setup s b);
  bits = λ c. ground (arith, r.bits c, claim-bits s b v c);
}

pub Released-none : (s : Pmm) (lo hi : ℕ) → hi ≤ lo → IsValid s → Released lo hi s s
Released-none s lo hi h v = record { valid = v; setup = ground arith; bits = λ c. ground arith }

pub Released-step :
    (s t : Pmm) (b hi : ℕ)
    → IsValid s
    → b < hi
    → Released (b + 1) hi (release s b) t
    → Released b hi s t
Released-step s t b hi v h r = record {
  valid = r.valid;
  setup = ground (arith, r.setup, release-setup s b);
  bits = λ c. ground (arith, r.bits c, release-bits s b v c);
}

pub mark_used_from-Claimed :
    (left b hi : ℕ) (s : Pmm)
    → IsValid s
    → hi ≡ min (b + left) s.max_blocks
    → Claimed b hi s (mark_used_from left b s)
unfolding mark_used_from
mark_used_from-Claimed zero b hi s v e = Claimed-none s b hi (omega arith) v
mark_used_from-Claimed (suc left) b hi s v e = elim (Bool-cases (leb s.max_blocks b)) [
  | inl out ↦ rw (out, mark_used_from) (Claimed-none s b hi (ground arith) v)
  | inr ok ↦
      rw (ok, mark_used_from)
        (Claimed-step s _ b hi v (ground arith) (
          mark_used_from-Claimed left (b + 1) hi (claim s b) (claim-IsValid s b v (ground arith))
            (ground (arith, claim-setup s b))))
]

pub mark_unused_from-Released :
    (left b hi : ℕ) (s : Pmm)
    → IsValid s
    → hi ≡ min (b + left) s.max_blocks
    → Released b hi s (mark_unused_from left b s)
unfolding mark_unused_from
mark_unused_from-Released zero b hi s v e = Released-none s b hi (omega arith) v
mark_unused_from-Released (suc left) b hi s v e = elim (Bool-cases (leb s.max_blocks b)) [
  | inl out ↦ rw (out, mark_unused_from) (Released-none s b hi (ground arith) v)
  | inr ok ↦
      rw (ok, mark_unused_from)
        (Released-step s _ b hi v (ground arith) (
          mark_unused_from-Released left (b + 1) hi (release s b)
            (release-IsValid s b v (ground arith)) (ground (arith, release-setup s b))))
]

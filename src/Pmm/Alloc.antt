-- ===== src/Pmm/Alloc.antt =====
-- `pmm_alloc_block`, `pmm_alloc_contiguous` and `pmm_free_contiguous` of src/mm/pmm.c.

use hal_os.Base.{ℕ, zero, suc, ◌+◌, ◌*◌, ◌/◌, ◌≤◌, ◌<◌, true, false}
use hal_os.Base.{◌≡◌, ◌⊎◌, refl, arith, leb, u32, inl, inr, Bool-cases}
use hal_os.Base.{Option, none, some}
use hal_os.Bitmap.{is_used}
use hal_os.Bitmap.Count.{count-full}
use hal_os.Pmm.{Pmm, block_size, scan_bytes, claim, mark_block_used, mark_run, alloc_block}
use hal_os.Pmm.{mark_block_free}
use hal_os.Pmm.{free_run, release}
use hal_os.Pmm.Inv.{IsValid, Claimed, Released, claim-IsValid, claim-bits}
use hal_os.Pmm.Inv.{claim-setup, Claimed-none, Claimed-step, release-IsValid, release-bits}
use hal_os.Pmm.Inv.{release-setup, Released-none, Released-step}
use hal_os.Pmm.First.{IsFirstFree, AllUsed, Finds, scan_bytes-Finds}

-- On a free block the unconditional marking is the loop body of `pmm_mark_used_region`.
mark_block_used-eq-claim :
    (s : Pmm) (b : ℕ) → is_used s.memory_map b ≡ false → mark_block_used s b ≡ claim s b
unfolding mark_block_used claim
mark_block_used-eq-claim s b h = rw h refl

mark_block_free-eq-release :
    (s : Pmm) (b : ℕ) → is_used s.memory_map b ≡ true → mark_block_free s b ≡ release s b
unfolding mark_block_free release
mark_block_free-eq-release s b h = rw h refl

-- Marking a run of free blocks below the end takes exactly those blocks.
pub mark_run-Claimed :
    (left b hi : ℕ) (s : Pmm)
    → IsValid s
    → hi ≡ b + left
    → ((c : ℕ) → b ≤ c → c < hi → (c < s.max_blocks) × (is_used s.memory_map c ≡ false))
    → Claimed b hi s (mark_run left b s)
unfolding mark_run
mark_run-Claimed zero b hi s v e free = Claimed-none s b hi (omega arith) v
mark_run-Claimed (suc left) b hi s v e free =
    let (inside, here) = free b (omega arith) (omega arith) in
    rw (mark_block_used-eq-claim s b here) (
      Claimed-step s _ b hi v (omega arith) (
        mark_run-Claimed left (b + 1) hi (claim s b) (claim-IsValid s b v inside) (omega arith)
          (λ c lo up. ground (arith, free c, claim-setup s b, claim-bits s b v c))))

pub free_run-Released :
    (left b hi : ℕ) (s : Pmm)
    → IsValid s
    → hi ≡ b + left
    → ((c : ℕ) → b ≤ c → c < hi → (c < s.max_blocks) × (is_used s.memory_map c ≡ true))
    → Released b hi s (free_run left b s)
unfolding free_run
free_run-Released zero b hi s v e used = Released-none s b hi (omega arith) v
free_run-Released (suc left) b hi s v e used =
    let (inside, here) = used b (omega arith) (omega arith) in
    rw (mark_block_free-eq-release s b here) (
      Released-step s _ b hi v (omega arith) (
        free_run-Released left (b + 1) hi (release s b) (release-IsValid s b v inside) (omega arith)
          (λ c lo up. ground (arith, used c, release-setup s b, release-bits s b v c))))

-- a successful `pmm_alloc_block`
pub record IsAllocated (s t : Pmm) (p block : ℕ) : Type 0 where
  pub address : p ≡ block * block_size
  pub is_first : IsFirstFree s.memory_map s.max_blocks 0 (s.max_blocks / 8 * 8) block
  pub taken : Claimed block (block + 1) s t

-- the two ways in which `pmm_alloc_block` ends
abbrev pub AllocEnds : Pmm → ℕ × Pmm → Type 0
AllocEnds s r =
    ((block : ℕ) × IsAllocated s r.1 r.0 block)
    ⊎ ((r.0 ≡ 0) × (r.1 ≡ s) × AllUsed s.memory_map s.max_blocks 0 (s.max_blocks / 8 * 8))

alloc_block-full : (s : Pmm) → leb s.max_blocks s.used_blocks ≡ true → alloc_block s ≡ (0, s)
unfolding alloc_block
alloc_block-full s h = rw h refl

alloc_block-scan :
    (s : Pmm)
    → leb s.max_blocks s.used_blocks ≡ false
    → alloc_block s ≡ elim (scan_bytes s.memory_map s.max_blocks (s.max_blocks / 8) 0) [
      | none ↦ (0, s)
      | some block ↦ (u32 (block * block_size), mark_block_used s block)
    ]
unfolding alloc_block
alloc_block-scan s h = rw h refl

taken-Claimed :
    (s : Pmm) (b : ℕ)
    → IsValid s
    → b < s.max_blocks
    → is_used s.memory_map b ≡ false
    → Claimed b (b + 1) s (mark_block_used s b)
taken-Claimed s b v h f = rw (mark_block_used-eq-claim s b f) (
    Claimed-step s _ b (b + 1) v (omega arith)
      (Claimed-none (claim s b) (b + 1) (b + 1) (omega arith) (claim-IsValid s b v h)))

-- In a valid state, `pmm_alloc_block` returns the address of the first free block and marks that block alone as
-- used; it returns NULL and changes nothing only if every block that its search covers, those of
-- the `max_blocks / 8` full bytes of the map, is in use.
pub alloc_block_lem : (s : Pmm) → IsValid s → AllocEnds s (alloc_block s)
alloc_block_lem s v = elim (Bool-cases (leb s.max_blocks s.used_blocks)) [
  | inl full ↦ rw (alloc_block-full s full) (
      inr (
        refl,
        refl,
        λ c lo hi k. count-full (is_used s.memory_map) s.max_blocks c (ground (arith, v.counted)) k,
      ))
  | inr room ↦ rw (alloc_block-scan s room) (
      after (scan_bytes s.memory_map s.max_blocks (s.max_blocks / 8) 0)
        (scan_bytes-Finds s.memory_map s.max_blocks (s.max_blocks / 8) 0 _ (omega arith)))
]
  where
    after :
        (o : Option ℕ)
        → Finds s.memory_map s.max_blocks 0 (s.max_blocks / 8 * 8) o
        → AllocEnds s (elim o [
          | none ↦ (0, s)
          | some block ↦ (u32 (block * block_size), mark_block_used s block)
        ])
    after none u = inr (refl, refl, u)
    after (some b) f = inl (
      b,
      record {
        address = omega (arith, f.in_range, v.small);
        is_first = f;
        taken = taken-Claimed s b v f.in_range f.is_free;
      },
    )

-- ===== src/Pmm/Range.antt =====
-- `pmm_alloc_blocks_in_range` of src/mm/pmm.c, which sets the bits first and then adds the count.
use mathlib.Core.Path.{subst}
use native.Mathlib.Decide.{dec_lt}
use hal_os.Base.{ℕ, zero, suc, ◌+◌, ◌-◌, ◌*◌, ◌/◌, ◌≤◌, ◌<◌, ◌^◌, ◌==◌, Bool, false}
use hal_os.Base.{◌≡◌, ◌⊎◌, refl, arith, leb, u32, inl, inr, Bool-cases}
use hal_os.Base.{◌||◌}
use hal_os.Bitmap.{is_used}
use hal_os.Bitmap.Count.{count-le}
use hal_os.Bitmap.Scan.{Pass, found, missed, scan, IsRun-zero, IsRunFound, scan-found}
use hal_os.Pmm.{Pmm, block_size, align_down, mark_run, mark_block_used}
use hal_os.Pmm.{alloc_blocks_in_range, set_run, is_block_free}
use hal_os.Pmm.Inv.{IsValid, Claimed}
use hal_os.Pmm.Alloc.{mark_run-Claimed}
use hal_os.Pmm.Contiguous.{is_block_free_iff}

-- the bits of a run set first and the count added afterwards
abbrev set_then_count : ℕ → ℕ → Pmm → Pmm
set_then_count num first s = record s {
  memory_map = set_run num first s.memory_map;
  used_blocks = u32 (s.used_blocks + num);
}

-- Setting the bits and adding the count at the end is the same as block after block.
mark_run-eq-set_then_count :
    (num first : ℕ) (s : Pmm)
    → s.used_blocks < 2 ^ 32
    → mark_run num first s ≡ set_then_count num first s
unfolding mark_run set_run mark_block_used
mark_run-eq-set_then_count zero first s h = ground arith
mark_run-eq-set_then_count (suc num) first s h =
    ground (arith, mark_run-eq-set_then_count num (first + 1) (mark_block_used s first))

used_blocks-lt : (s : Pmm) → IsValid s → s.used_blocks < 2 ^ 32
used_blocks-lt s v = omega (arith, v.counted, v.small, count-le (is_used s.memory_map) s.max_blocks)

-- where the search starts and ends, as the code computes it
abbrev pub first_block : ℕ → ℕ
first_block start_addr = align_down (u32 (start_addr + 4095)) / block_size

abbrev pub end_block : ℕ → ℕ
end_block end_addr = align_down end_addr / block_size

-- a successful `pmm_alloc_blocks_in_range`: all bytes of the blocks lie between the two addresses
pub record IsAllocatedIn (num start_addr end_addr : ℕ) (s t : Pmm) (p first : ℕ) : Type 0 where
  pub address : p ≡ first * block_size
  pub above : start_addr ≤ first * block_size
  pub below : (first + num) * block_size ≤ end_addr
  pub taken : Claimed first (first + num) s t
  pub was_free : (c : ℕ) → first ≤ c → c < first + num → is_used s.memory_map c ≡ false

abbrev pub RangeEnds : ℕ → ℕ → ℕ → Pmm → ℕ × Pmm → Type 0
RangeEnds num start_addr end_addr s r =
    ((first : ℕ) × IsAllocatedIn num start_addr end_addr s r.1 r.0 first) ⊎ ((r.0 ≡ 0) × (r.1 ≡ s))

-- A hit lies at or above the block at which the pass starts, if its counters do.
scan_above :
    (free : ℕ → Bool) (num lo left block consecutive first k : ℕ)
    → lo ≤ block
    → (consecutive ≡ 0) ⊎ (lo ≤ first)
    → scan free num left block consecutive first ≡ found k
    → lo ≤ k
unfolding scan
scan_above free num lo zero block consecutive first k a b h = cc
scan_above free num lo (suc left) block consecutive first k a b h = ground (
  arith,
  scan_above free num lo left (block + 1) 0 first k (omega arith) (inl refl),
  scan_above free num lo left (block + 1) (consecutive + 1) first k (omega arith),
  scan_above free num lo left (block + 1) (consecutive + 1) block k (omega arith) (inr a),
)

-- Only a range that is not empty has a hit.
hit_in_order :
    (free : ℕ → Bool) (num lo hi k : ℕ) → scan free num (hi - lo) lo 0 0 ≡ found k → lo ≤ hi
unfolding scan
hit_in_order free num lo hi k h = elim (dec_lt hi lo) [
  | no p ↦ omega arith
  | yes p ↦
      let e : hi - lo ≡ 0 = omega arith in
      let h' : scan free num 0 lo 0 0 ≡ found k =
        subst (λ n. scan free num n lo 0 0 ≡ found k) e h in
      cc
]

alloc_in_range-Claimed :
    (num start_addr end_addr first : ℕ) (s : Pmm)
    → IsValid s
    → start_addr + 4095 < 2 ^ 32
    → 0 < num
    → first_block start_addr ≤ end_block end_addr
    → scan
        (is_block_free s)
        num
        (end_block end_addr - first_block start_addr)
        (first_block start_addr)
        0
        0
      ≡ found first
    → IsAllocatedIn num start_addr end_addr s
        (set_then_count num first s)
        (u32 (first * block_size))
        first
alloc_in_range-Claimed num start_addr end_addr first s v room pos le h = record {
  address = omega (arith, free (first + num - 1) (omega arith) (omega arith), v.small);
  above =
      let lowest : first_block start_addr ≤ first =
        scan_above (is_block_free s) num _ _ _ 0 0 first (omega arith) (inl refl) h in
      omega (arith, room);
  below = omega (arith, f.upper);
  taken =
      subst (Claimed first (first + num) s)
        (mark_run-eq-set_then_count num first s (used_blocks-lt s v))
        (mark_run-Claimed num first (first + num) s v refl free);
  was_free = λ c lo hi. (free c lo hi).1;
}
  where
    f :
        IsRunFound
          (is_block_free s)
          num
          (first_block start_addr + (end_block end_addr - first_block start_addr))
          first
    f = scan-found (is_block_free s) num _ _ 0 0 first (IsRun-zero _ _ _ _) h

    free :
        (c : ℕ)
        → first ≤ c
        → c < first + num
        → (c < s.max_blocks) × (is_used s.memory_map c ≡ false)
    free c lo hi = (is_block_free_iff s c).0 (f.run_free c lo hi)

-- In a valid state and with a lower address of at most 2 ^ 32 - 4096, `pmm_alloc_blocks_in_range` either
-- returns NULL and changes nothing, or returns the start of a run of free blocks whose bytes lie
-- between the two addresses, takes exactly those blocks, and keeps the count of used blocks equal
-- to the number of set bits.
pub alloc_blocks_in_range_lem :
    (num start_addr end_addr : ℕ) (s : Pmm)
    → IsValid s
    → start_addr ≤ 2 ^ 32 - 4096
    → RangeEnds num start_addr end_addr s (alloc_blocks_in_range num start_addr end_addr s)
unfolding alloc_blocks_in_range
alloc_blocks_in_range_lem num start_addr end_addr s v room =
    elim (Bool-cases (num == 0 || leb end_addr start_addr)) [
      | inl bad ↦ rw bad (inr (refl, refl))
      | inr good ↦ rw good (
          after
            (scan (is_block_free s) num (end_block end_addr - first_block start_addr)
              (first_block start_addr) 0 0)
            refl (ground arith))
    ]
  where
    after :
        (o : Pass)
        → scan
            (is_block_free s)
            num
            (end_block end_addr - first_block start_addr)
            (first_block start_addr)
            0
            0
          ≡ o
        → 0 < num
        → RangeEnds num start_addr end_addr s (elim o [
          | missed _ _ ↦ (0, s)
          | found first ↦ (u32 (first * block_size), set_then_count num first s)
        ])
    after (missed _ _) h pos = inr (refl, refl)
    after (found first) h pos = inl (
      first,
      alloc_in_range-Claimed num start_addr end_addr first s v (omega arith) pos
          (hit_in_order (is_block_free s) num _ _ first h) h,
    )

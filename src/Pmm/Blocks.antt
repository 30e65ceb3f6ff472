-- ===== src/Pmm/Blocks.antt =====
-- `pmm_alloc_blocks` and `pmm_alloc_blocks_in_range` of src/mm/pmm.c.
use mathlib.Core.Path.{subst}
use hal_os.Base.{ℕ, zero, suc, ◌+◌, ◌-◌, ◌*◌, ◌%◌, ◌≤◌, ◌<◌, Bool, true, not}
use hal_os.Base.{◌≡◌, ◌⊎◌, refl, arith, u32, inl, inr, Bool-cases}
use hal_os.Base.{◌||◌}
use hal_os.Bitmap.{is_used}
use hal_os.Bitmap.Scan.{Pass, found, missed, scan, IsRun, IsRun-zero, IsRunFound, scan-found}
use hal_os.Bitmap.Scan.{scan-missed_used}
use hal_os.Pmm.{Pmm, block_size, mark_run, alloc_blocks, find_from_last}
use hal_os.Pmm.{validate_allocation_request}
use hal_os.Pmm.Inv.{IsValid, Claimed, within}
use hal_os.Pmm.Alloc.{mark_run-Claimed}

abbrev pub map_free : Pmm → ℕ → Bool
map_free s block = not (is_used s.memory_map block)

-- where a search of the blocks below the end stops, once found
abbrev FindsRun : ℕ → Pmm → Pass → Type 0
FindsRun num s (found start) = IsRunFound (map_free s) num s.max_blocks start
FindsRun num s (missed _ _) = Unit {0}

scan-FindsRun :
    (num left block consecutive first : ℕ) (s : Pmm)
    → block + left ≡ s.max_blocks
    → IsRun (map_free s) num block consecutive first
    → FindsRun num s (scan (map_free s) num left block consecutive first)
scan-FindsRun num left block consecutive first s e r =
    go (scan (map_free s) num left block consecutive first) refl
  where
    go : (o : Pass) → scan (map_free s) num left block consecutive first ≡ o → FindsRun num s o
    go (missed _ _) h = tt
    go (found k) h =
        subst (λ n. IsRunFound (map_free s) num n k) e
          (scan-found (map_free s) num left block consecutive first k r h)

-- With the last block in use, the second pass starts with the count at 0.
first_pass_ends :
    (num : ℕ) (s : Pmm) (consecutive first : ℕ)
    → is_used s.memory_map (s.max_blocks - 1) ≡ true
    → scan (map_free s) num (s.max_blocks - s.last_alloc) s.last_alloc 0 0
      ≡ missed consecutive first
    → consecutive ≡ 0
first_pass_ends num s consecutive first u h = go (s.max_blocks - s.last_alloc) refl h
  where
    go :
        (left : ℕ)
        → s.max_blocks - s.last_alloc ≡ left
        → scan (map_free s) num left s.last_alloc 0 0 ≡ missed consecutive first
        → consecutive ≡ 0
    go zero e h = unfold scan in ground arith
    go (suc left) e h =
        scan-missed_used (map_free s) num left s.last_alloc (s.max_blocks - 1) 0 0 consecutive first
          (omega arith) (rw u refl) h

find_from_last-FindsRun :
    (num : ℕ) (s : Pmm)
    → s.last_alloc ≤ s.max_blocks
    → is_used s.memory_map (s.max_blocks - 1) ≡ true
    → FindsRun num s (find_from_last num s)
unfolding find_from_last
find_from_last-FindsRun num s le u =
    go (scan (map_free s) num (s.max_blocks - s.last_alloc) s.last_alloc 0 0) refl (
      scan-FindsRun num (s.max_blocks - s.last_alloc) s.last_alloc 0 0 s (omega arith)
        (IsRun-zero _ _ _ _))
  where
    go :
        (o : Pass)
        → scan (map_free s) num (s.max_blocks - s.last_alloc) s.last_alloc 0 0 ≡ o
        → FindsRun num s o
        → FindsRun num s (elim o [
          | found start ↦ found start
          | missed consecutive start ↦ scan (map_free s) num s.max_blocks 0 consecutive start
        ])
    go (found k) e f = f
    go (missed consecutive first) e f =
        scan-FindsRun num s.max_blocks 0 consecutive first s (omega arith)
          (rw (first_pass_ends num s consecutive first u e) (IsRun-zero _ _ _ _))

-- a successful `pmm_alloc_blocks`
pub record IsBlocksAllocated (num : ℕ) (s t : Pmm) (p start : ℕ) : Type 0 where
  pub address : p ≡ start * block_size
  pub was_free : IsRunFound (map_free s) num s.max_blocks start
  pub valid : IsValid t
  pub bits :
      (c : ℕ) → is_used t.memory_map c ≡ (within start (start + num) c || is_used s.memory_map c)
  pub next_search : t.last_alloc ≡ (start + num) % s.max_blocks

abbrev pub BlocksEnds : ℕ → Pmm → ℕ × Pmm → Type 0
BlocksEnds num s r = ((start : ℕ) × IsBlocksAllocated num s r.1 r.0 start) ⊎ ((r.0 ≡ 0) × (r.1 ≡ s))

run-Claimed :
    (num start : ℕ) (s : Pmm)
    → IsValid s
    → IsRunFound (map_free s) num s.max_blocks start
    → Claimed start (start + num) s (mark_run num start s)
run-Claimed num start s v f =
    mark_run-Claimed num start (start + num) s v refl
      (λ c lo hi. (omega (arith, f.upper), ground (arith, f.run_free c)))

validated : (num : ℕ) (s : Pmm) → validate_allocation_request num s ≡ true → 0 < num
unfolding validate_allocation_request
validated num s h = ground arith

-- In a valid state, if the last block is in use and the next search starts at `max_blocks` or
-- below, `pmm_alloc_blocks` either returns NULL and changes nothing, or
-- returns the start of a run of free blocks that lies below `max_blocks` and takes exactly those.
pub alloc_blocks_lem :
    (num : ℕ) (s : Pmm)
    → IsValid s
    → s.last_alloc ≤ s.max_blocks
    → is_used s.memory_map (s.max_blocks - 1) ≡ true
    → BlocksEnds num s (alloc_blocks num s)
unfolding alloc_blocks
alloc_blocks_lem num s v le u = elim (Bool-cases (validate_allocation_request num s)) [
  | inr bad ↦ rw bad (inr (refl, refl))
  | inl good ↦ rw good (after (find_from_last num s) (find_from_last-FindsRun num s le u) good)
]
  where
    after :
        (o : Pass)
        → FindsRun num s o
        → validate_allocation_request num s ≡ true
        → BlocksEnds num s (elim o [
          | missed _ _ ↦ (0, s)
          | found start ↦
              let marked = mark_run num start s in
              (
                u32 (start * block_size),
                record marked { last_alloc = (start + num) % s.max_blocks },
              )
        ])
    after (missed _ _) f good = inr (refl, refl)
    after (found start) f good =
        let c = run-Claimed num start s v f in
        inl (
          start,
          record {
            address = omega (arith, f.upper, v.small, validated num s good);
            was_free = f;
            valid = record {
              bytes = c.valid.bytes;
              counted = c.valid.counted;
              small = c.valid.small;
            };
            bits = c.bits;
            next_search = refl;
          },
        )

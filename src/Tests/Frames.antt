-- ===== src/Tests/Frames.antt =====
-- The physical memory manager of src/mm/pmm.c at concrete inputs.
use mathlib.Core.Path.{subst}
use hal_os.Base.{ℕ, ◌+◌, ◌/◌, ◌≤◌, ◌<◌, ◌==◌, true, if◌then◌else◌}
use hal_os.Base.{◌≡◌, ◌≢◌, refl, arith, [], ◌∷◌}
use hal_os.Bitmap.{ByteMap, IsByteMap, is_used, test_bit}
use hal_os.Bitmap.Count.{count}
use hal_os.Bitmap.Search.{search_from, run_length}
use hal_os.Pmm
use hal_os.Pmm.{Pmm, block_size, blocks_of}
use hal_os.Pmm.Inv.{IsValid}
use hal_os.Pmm.Region.{init-IsValid, reserved}
use hal_os.Pmm.Alloc.{AllocEnds, alloc_block_lem}
use hal_os.Pmm.Contiguous.{ContiguousEnds, IsSameUse, alloc_contiguous_lem, free-alloc_contiguous}
use hal_os.Pmm.Blocks.{BlocksEnds, alloc_blocks_lem}
use hal_os.Pmm.Range.{RangeEnds, alloc_blocks_in_range_lem}
use hal_os.Pmm.Faults.{IsWrapped, alloc_blocks_wraps, one, many, run_frees, free-alloc_block_leaks}

-- blocks 0 and 1 and the last of sixteen
abbrev three_used : ByteMap
three_used i = if i == 0 then 3 else if i == 1 then 0x80 else 0

abbrev small : Pmm
small = record {
  memory_size = 65536;
  used_blocks = 3;
  max_blocks = 16;
  memory_map = three_used;
  initialized = true;
  last_alloc = 0;
}

three_used-IsByteMap : IsByteMap three_used
three_used-IsByteMap i = ground arith

small-IsValid : IsValid small
unfolding count is_used test_bit
small-IsValid = record { bytes = three_used-IsByteMap; counted = refl; small = omega arith }

-- blocks 1 and 2 of four in use, and the search at block 3
abbrev ring : Pmm
ring = record {
  memory_size = 16384;
  used_blocks = 2;
  max_blocks = 4;
  memory_map = λ i. if i == 0 then 6 else 0;
  initialized = true;
  last_alloc = 3;
}

ring-IsValid : IsValid ring
unfolding count is_used test_bit
ring-IsValid = record { bytes = λ i. ground arith; counted = refl; small = omega arith }

alloc_block_runs : (Pmm.alloc_block small).0 ≡ 0x2000
unfolding Pmm.alloc_block Pmm.scan_bytes Pmm.scan_bits test_bit
alloc_block_runs = refl

alloc_contiguous_runs : (Pmm.alloc_contiguous 3 small).0 ≡ 0x2000
unfolding Pmm.alloc_contiguous Pmm.find_contiguous_free_blocks search_from run_length
    Pmm.is_block_free is_used test_bit
alloc_contiguous_runs = refl

abbrev booted : Pmm
booted = Pmm.init 0x100000 0x108000 0x110000 three_used 0x1000000 small

init-IsValid_example :
    IsValid booted
    × (booted.max_blocks ≡ (0x1000000 + 4095) / 4096)
    × (booted.initialized ≡ true)
    × ((c : ℕ)
        → c < booted.max_blocks
        → is_used booted.memory_map c ≡ reserved 0x100000 0x108000 0x110000 booted.max_blocks c)
init-IsValid_example =
    init-IsValid 0x100000 0x108000 0x110000 three_used 0x1000000 small three_used-IsByteMap
      (record {
        kernel_start_aligned = refl;
        bitmap_aligned = refl;
        in_order = omega arith;
        small = omega arith;
        some_memory = omega arith;
        some_bitmap = omega arith;
        memory_small = omega arith;
      })

alloc_block_lem_example : AllocEnds small (Pmm.alloc_block small)
alloc_block_lem_example = alloc_block_lem small small-IsValid

alloc_contiguous_lem_example : ContiguousEnds 3 small (Pmm.alloc_contiguous 3 small)
alloc_contiguous_lem_example = alloc_contiguous_lem 3 small small-IsValid (omega arith)

alloc_contiguous_some : (Pmm.alloc_contiguous 3 small).0 ≢ 0
alloc_contiguous_some = omega (arith, alloc_contiguous_runs)

free-alloc_contiguous_example :
    IsSameUse small
      (Pmm.free_contiguous (Pmm.alloc_contiguous 3 small).0 3 (Pmm.alloc_contiguous 3 small).1)
free-alloc_contiguous_example =
    free-alloc_contiguous 3 small small-IsValid (omega arith) alloc_contiguous_some

low_two_used : (c : ℕ) → 1 ≤ c → c < 2 → is_used three_used c ≡ true
low_two_used c lo hi =
    let e : 1 ≡ c = omega arith in
    subst (λ n. is_used three_used n ≡ true) e (unfold is_used test_bit in refl)

alloc_blocks_lem_example : BlocksEnds 2 small (Pmm.alloc_blocks 2 small)
alloc_blocks_lem_example =
    alloc_blocks_lem 2 small small-IsValid (omega arith) (unfold is_used test_bit in refl)

alloc_blocks_in_range_lem_example :
    RangeEnds 2 0x1800 0x8000 small (Pmm.alloc_blocks_in_range 2 0x1800 0x8000 small)
alloc_blocks_in_range_lem_example =
    alloc_blocks_in_range_lem 2 0x1800 0x8000 small small-IsValid (omega arith)

alloc_blocks_wraps_example : IsWrapped ring (Pmm.alloc_blocks 2 ring).1 (Pmm.alloc_blocks 2 ring).0
alloc_blocks_wraps_example =
    alloc_blocks_wraps ring ring-IsValid refl (omega arith) (omega arith) (omega arith)
      (unfold is_used test_bit in refl) (unfold is_used test_bit in refl)

free-alloc_block_leaks_example :
    (is_used
        (run_frees (one 0x2000 ∷ many 0x2000 1 ∷ []) (Pmm.alloc_block small).1).memory_map
        ((Pmm.alloc_block small).0 / block_size)
      ≡ true)
    × ((run_frees (one 0x2000 ∷ many 0x2000 1 ∷ []) (Pmm.alloc_block small).1).used_blocks ≡ 4)
free-alloc_block_leaks_example =
    free-alloc_block_leaks (one 0x2000 ∷ many 0x2000 1 ∷ []) small small-IsValid
      (omega (arith, alloc_block_runs))

-- ===== src/Heap.antt =====
-- src/mm/liballoc_hook.c: the pages that the heap of src/mm/liballoc.c asks for. `num_blocks` is an
-- `int`: a pattern from 2 ^ 31 on is negative. The lock, which turns interrupts off, is not
-- modelled.
pub mod Pages
use hal_os.Base.{
  ℕ, zero, suc, ◌+◌, ◌*◌, ◌^◌, ◌==◌, leb, Bool, true, false, ◌||◌, if◌then◌else◌, u32,
}
use hal_os.Paging.{page_size}
use hal_os.Vmm.{Vmm, alloc_page, free_page}

-- a loop of `vmm_free_page` over the pages from `ptr` on, from the `i`th
unfoldable pub free_from : ℕ → ℕ → ℕ → Vmm → Vmm
free_from zero i ptr s = s
free_from (suc left) i ptr s = free_from left (i + 1) ptr (free_page (u32 (ptr + i * page_size)) s)

-- the loop of `liballoc_alloc` from round `i`; `virt_addr` is the first round's page
unfoldable pub alloc_from : ℕ → ℕ → ℕ → Vmm → ℕ × Vmm
alloc_from zero i virt_addr s = (virt_addr, s)
alloc_from (suc left) i virt_addr s =
    let (page, s') = alloc_page s in
    elim (page == 0) [
      | true ↦ (0, free_from i 0 virt_addr s')
      | false ↦ alloc_from left (i + 1) (if i == 0 then page else virt_addr) s'
    ]

unfoldable pub liballoc_alloc : ℕ → Vmm → ℕ × Vmm
liballoc_alloc num_blocks s =
    if num_blocks == 0 || leb (2 ^ 31) num_blocks then (0, s) else alloc_from num_blocks 0 0 s

-- The -1 of a failure is `false`.
unfoldable pub liballoc_free : ℕ → ℕ → Vmm → Bool × Vmm
liballoc_free ptr num_blocks s =
    if ptr == 0
    then (false, s)
    else (true, if leb (2 ^ 31) num_blocks then s else free_from num_blocks 0 ptr s)

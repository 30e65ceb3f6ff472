-- ===== src/Vmm.antt =====
-- src/mm/vmm.c: pages of the kernel's address space, a bit each, with the frames behind them.
-- `bitmap` holds the bytes that `vmm_bitmap` points to. An operation returns the address, 0 for
-- `NULL`, beside the new state. Messages are not modelled, nor is `list_available_pages`, which
-- only writes them. Page numbers stay below 2 ^ 20.
pub mod Page
pub mod Release
use hal_os.Base.{ℕ, zero, suc, ◌+◌, ◌-◌, ◌*◌, ◌/◌, ◌%◌, ◌^◌, ◌==◌, ltb, leb, Bool, true, false, not}
use hal_os.Base.{◌&&◌, ◌||◌, if◌then◌else◌, Option, none, some, u32, sub32, bit_or}
use hal_os.Bitmap.{ByteMap, is_used, set_used, set_free}
use hal_os.Bitmap.Search.{search_from}
use hal_os.Pmm
use hal_os.Pmm.{Pmm, zeroed}
use hal_os.Paging
use hal_os.Paging.{
  Paging, kernel_base, page_size, uint32_max, page_present, page_writable, page_user,
}
use hal_os.Paging.{map_page, unmap_page, virt_to_phys}

pub record Vmm : Type 0 where
  pub paging : Paging
  pub bitmap : ByteMap
  pub max_pages : ℕ

-- `USER_SPACE_END`
abbrev pub user_space_end : ℕ
user_space_end = 0xBFFFFFFF

-- `(size + PAGE_SIZE - 1) / PAGE_SIZE` on `uint32_t`
abbrev pub pages_of : ℕ → ℕ
pages_of size = u32 (size + 4095) / 4096

abbrev pub rw_flags : ℕ
rw_flags = bit_or page_present page_writable

abbrev pub with_pmm : Vmm → Pmm → Vmm
with_pmm s pmm' = record s { paging = record (s.paging) { pmm = pmm' } }

unfoldable pub is_page_free : Vmm → ℕ → Bool
is_page_free s page = not (is_used s.bitmap page)

-- the loop of `find_free_page` from page `i`; `none` is the -1
unfoldable pub find_free_from : Vmm → ℕ → ℕ → Option ℕ
find_free_from s zero i = none
find_free_from s (suc left) i = elim (is_used s.bitmap i) [
  | false ↦ some i
  | true ↦ find_free_from s left (i + 1)
]

unfoldable pub find_free_page : Vmm → Option ℕ
find_free_page s = find_free_from s s.max_pages 0

unfoldable pub find_contiguous_free_pages : Vmm → ℕ → Option ℕ
find_contiguous_free_pages s pages = search_from (is_page_free s) s.max_pages pages s.max_pages 0

unfoldable pub mark_page : ℕ → Bool → Vmm → Vmm
mark_page page used s = record s {
  bitmap = if used then set_used s.bitmap page else set_free s.bitmap page;
}

-- a loop of `mark_page` over consecutive pages
unfoldable pub mark_pages : ℕ → ℕ → Bool → Vmm → Vmm
mark_pages zero page used s = s
mark_pages (suc left) page used s = mark_pages left (page + 1) used (mark_page page used s)

unfoldable pub map : ℕ → ℕ → ℕ → Vmm → Bool × Vmm
map phys virt flags s =
    let (ok, paging') = map_page phys virt flags s.paging in (ok, record s { paging = paging' })

unfoldable pub phys_to_virt : ℕ → ℕ
phys_to_virt phys = u32 (phys + kernel_base)

-- `vmm_alloc_page` with the page that was found
unfoldable pub alloc_page_at : ℕ → Vmm → ℕ × Vmm
alloc_page_at page s =
    let marked = mark_page page true s in
    let virt = u32 (kernel_base + page * page_size) in
    let (phys, pmm') = Pmm.alloc_block (marked.paging).pmm in
    let taken = with_pmm marked pmm' in
    if phys == 0
    then (0, mark_page page false taken)
    else let (ok, mapped) = map phys virt rw_flags taken in
      if ok
      then (virt, mapped)
      else (0, mark_page page false (with_pmm mapped (Pmm.free_block phys (mapped.paging).pmm)))

unfoldable pub alloc_page : Vmm → ℕ × Vmm
alloc_page s = elim (find_free_page s) [ none ↦ (0, s) | some page ↦ alloc_page_at page s ]

unfoldable pub free_page : ℕ → Vmm → Vmm
free_page addr s =
    let page_index = (addr - kernel_base) / page_size in
    let phys = virt_to_phys addr s.paging in
    if addr == 0
      || not (addr % page_size == 0)
      || ltb addr kernel_base
      || leb s.max_pages page_index
    then s
    else if phys == uint32_max
    then s
    else let freed = record (s.paging) { pmm = Pmm.free_block phys (s.paging).pmm } in
      mark_page page_index false (record s { paging = unmap_page addr freed })

-- the mapping loop of `vmm_map_mmio`: the pages from the `i`th on, until one fails
unfoldable pub map_from : ℕ → ℕ → ℕ → ℕ → ℕ → Vmm → Bool × Vmm
map_from zero i phys virt flags s = (true, s)
map_from (suc left) i phys virt flags s =
    let (ok, s') = map (u32 (phys + i * page_size)) (u32 (virt + i * page_size)) flags s in
    elim ok [ false ↦ (false, s') | true ↦ map_from left (i + 1) phys virt flags s' ]

-- `size` is rounded up to whole pages twice.
unfoldable pub map_mmio : ℕ → ℕ → ℕ → Vmm → ℕ × Vmm
map_mmio phys size flags s =
    let pages = pages_of (pages_of size * page_size) in
    elim (find_contiguous_free_pages s pages) [
      | none ↦ (0, s)
      | some start ↦
          let virt = u32 (kernel_base + start * page_size) in
          let (ok, s') =
            map_from pages 0 phys virt (bit_or (bit_or flags page_present) page_writable)
              (mark_pages pages start true s) in
          if ok then (virt, s') else (0, s')
    ]

-- the loop of `vmm_free_contiguous`
unfoldable pub unmap_from : ℕ → ℕ → ℕ → ℕ → ℕ → Vmm → Vmm
unmap_from zero i virt phys start s = s
unmap_from (suc left) i virt phys start s =
    let unmapped = unmap_page (u32 (virt + i * page_size)) s.paging in
    let pmm' = Pmm.mark_unused_region (u32 (phys + i * page_size)) page_size unmapped.pmm in
    unmap_from left (i + 1) virt phys start
      (mark_page (start + i) false (record s { paging = record unmapped { pmm = pmm' } }))

unfoldable pub free_contiguous : ℕ → ℕ → Vmm → Vmm
free_contiguous virt pages s =
    let phys = virt_to_phys virt s.paging in
    if virt == 0 || pages == 0
    then s
    else if phys == uint32_max
    then s
    else unmap_from pages 0 virt phys (sub32 virt kernel_base / page_size)
        (with_pmm s (Pmm.free_blocks phys pages (s.paging).pmm))

-- The mapping loop of `vmm_alloc_contiguous`: where a page fails, the ones before it are freed.
unfoldable pub map_or_undo : ℕ → ℕ → ℕ → ℕ → Vmm → ℕ × Vmm
map_or_undo zero i phys virt s = (virt, s)
map_or_undo (suc left) i phys virt s =
    let (ok, s') = map (u32 (phys + i * page_size)) (u32 (virt + i * page_size)) rw_flags s in
    elim ok [
      | false ↦ (0, free_contiguous virt i s')
      | true ↦ map_or_undo left (i + 1) phys virt s'
    ]

unfoldable pub alloc_contiguous : ℕ → Vmm → ℕ × Vmm
alloc_contiguous pages s =
    if pages == 0 || ltb s.max_pages pages
    then (0, s)
    else elim (find_contiguous_free_pages s pages) [
      | none ↦ (0, s)
      | some start ↦
          let marked = mark_pages pages start true s in
          let (phys, pmm') = Pmm.alloc_contiguous pages (marked.paging).pmm in
          if phys == 0
          then (0, mark_pages pages start false (with_pmm marked pmm'))
          else map_or_undo pages 0 phys (u32 (kernel_base + start * page_size))
              (with_pmm marked pmm')
    ]

-- The mapping loop of `dma_alloc` looks at no result.
unfoldable pub map_all : ℕ → ℕ → ℕ → ℕ → ℕ → Vmm → Vmm
map_all zero i phys virt flags s = s
map_all (suc left) i phys virt flags s =
    map_all left (i + 1) phys virt flags
      (map (u32 (phys + i * page_size)) (u32 (virt + i * page_size)) flags s).1

unfoldable pub dma_alloc : ℕ → Vmm → ℕ × Vmm
dma_alloc size s =
    let pages = pages_of size in
    let (phys, pmm') = Pmm.alloc_blocks_in_range pages 0x100000 0x1000000 (s.paging).pmm in
    if phys == 0
    then (0, with_pmm s pmm')
    else let (virt, s') = alloc_contiguous pages (with_pmm s pmm') in
      (virt, map_all pages 0 phys virt (bit_or rw_flags 16) s')

unfoldable pub dma_free : ℕ → ℕ → Vmm → Vmm
dma_free addr size s =
    if addr == 0 || size == 0
    then s
    else if not (addr % page_size == 0)
    then s
    else if ltb s.max_pages (pages_of size)
    then s
    else free_contiguous addr (pages_of size) s

unfoldable pub map_userspace : ℕ → ℕ → ℕ → Vmm → Bool × Vmm
map_userspace virt phys flags s =
    if leb kernel_base virt
    then (false, s)
    else map phys virt (bit_or (bit_or flags page_present) page_user) s

unfoldable pub unmap_all : ℕ → ℕ → ℕ → Paging → Paging
unmap_all zero j virt m = m
unmap_all (suc left) j virt m =
    unmap_all left (j + 1) virt (unmap_page (u32 (virt + j * page_size)) m)

-- the loop of `vmm_alloc_userspace_pages`, with the way back where a page fails
unfoldable pub map_user_from : ℕ → ℕ → ℕ → ℕ → ℕ → Vmm → ℕ × Vmm
map_user_from zero i pages phys virt s = (virt, s)
map_user_from (suc left) i pages phys virt s =
    let (ok, s') =
      map (u32 (phys + i * page_size)) (u32 (virt + i * page_size)) (bit_or rw_flags page_user) s in
    elim ok [
      | true ↦ map_user_from left (i + 1) pages phys virt s'
      | false ↦
          let undone = unmap_all i 0 virt s'.paging in
          (0, record s' { paging = record undone { pmm = Pmm.free_blocks phys pages undone.pmm } })
    ]

unfoldable pub alloc_userspace_pages : ℕ → Vmm → ℕ × Vmm
alloc_userspace_pages pages s =
    let virt = sub32 user_space_end (u32 (pages * page_size)) in
    let (phys, pmm') = Pmm.alloc_blocks pages (s.paging).pmm in
    if phys == 0
    then (0, with_pmm s pmm')
    else map_user_from pages 0 pages phys virt (with_pmm s pmm')

-- `vmm_bitmap` is still NULL when `vmm_map_mmio` searches and marks it: that works on the bytes at
-- address 0, which `bitmap` holds at the start. `raw` are the bytes at the address that it is
-- then pointed to.
unfoldable pub bitmap_init : ByteMap → Vmm → Vmm
bitmap_init raw s =
    let total = Pmm.get_total_memory (s.paging).pmm in
    if total == 0
    then s
    else let max = total / page_size in
      let size = (max + 7) / 8 in
      let pages = (size + page_size - 1) / page_size in
      let (phys, pmm') = Pmm.alloc_blocks pages (s.paging).pmm in
      let taken = record (with_pmm s pmm') { max_pages = max } in
      if phys == 0
      then taken
      else let (virt, s') = map_mmio phys (pages * page_size) rw_flags taken in
        if virt == 0
        then with_pmm s' (Pmm.free_blocks phys pages (s'.paging).pmm)
        else record s' { bitmap = zeroed size raw }

-- the loop of `vmm_init` over the kernel's pages: each one at its own address and at the base
unfoldable pub map_kernel : ℕ → ℕ → ℕ → Vmm → Vmm
map_kernel zero i kernel_start s = s
map_kernel (suc left) i kernel_start s =
    let phys = u32 (kernel_start + i * page_size) in
    let low = (map phys phys rw_flags s).1 in
    let high = (map phys (u32 (kernel_base + i * page_size)) rw_flags low).1 in
    map_kernel left (i + 1) kernel_start high

unfoldable pub init : ℕ → ℕ → ByteMap → Vmm → Vmm
init kernel_start kernel_end raw s =
    let tables = record s { paging = Paging.init s.paging } in
    let ready = bitmap_init raw tables in
    if (ready.paging).page_directory == 0
    then ready
    else let mapped = map_kernel (pages_of (sub32 kernel_end kernel_start)) 0 kernel_start ready in
      record mapped { paging = Paging.enable (ready.paging).page_directory mapped.paging }

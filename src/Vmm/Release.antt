-- ===== src/Vmm/Release.antt =====
-- `vmm_free_page` of src/mm/vmm.c: what it gives back, and what it does not.
use hal_os.Base.{ℕ, ◌+◌, ◌-◌, ◌*◌, ◌/◌, ◌%◌, ◌^◌, ◌≤◌, ◌<◌, ◌==◌, ltb, leb, false, not}
use hal_os.Base.{◌&&◌, ◌||◌, ◌≡◌, ◌≢◌, ◌⊎◌, refl, arith}
use hal_os.Bitmap.{IsByteMap, is_used, set_free}
use hal_os.Bitmap.Bits.{is_used-set_free}
use hal_os.Pmm.{free_block}
use hal_os.Paging.{Paging, kernel_base, page_size, uint32_max, unmap_page, virt_to_phys, store}
use hal_os.Paging.Ready.{IsReady}
use hal_os.Paging.Unmap.{IsUnmapped, unmap_page-IsUnmapped}
use hal_os.Vmm.{Vmm, mark_page, free_page}

pub unmap_page-pmm : (virt : ℕ) (m : Paging) → (unmap_page virt m).pmm ≡ m.pmm
unfolding unmap_page store
unmap_page-pmm virt m = ground arith

-- what `vmm_free_page` leaves when it gets past its checks
pub record IsPageFreed (s t : Vmm) (dir page : ℕ) : Type 0 where
  pub bits : (c : ℕ) → is_used t.bitmap c ≡ (not (page == c) && is_used s.bitmap c)
  pub unmapped : IsUnmapped (kernel_base + page * page_size) dir t.paging
  pub same_frames : (t.paging).pmm ≡ (s.paging).pmm

freed_state : Vmm → ℕ → ℕ → Vmm
freed_state s addr page = record s {
  paging = unmap_page addr s.paging;
  bitmap = set_free s.bitmap page;
}

free_page-enters :
    (s : Vmm) (addr page : ℕ)
    → addr ≡ kernel_base + page * page_size
    → page < s.max_pages
    → virt_to_phys addr s.paging ≢ uint32_max
    → free_page addr s ≡ freed_state s addr page
unfolding free_page mark_page free_block freed_state
free_page-enters s addr page e lt ne =
    let index : (addr - kernel_base) / page_size ≡ page = omega arith in
    let checks : (addr == 0
          || not (addr % page_size == 0)
          || ltb addr kernel_base
          || leb s.max_pages page)
        ≡ false =
      ground arith in
    let found : (virt_to_phys addr s.paging == uint32_max) ≡ false = ground arith in
    rw (index, checks, found) refl

-- With well-formed page tables and at most 2 ^ 18 pages, freeing a mapped page clears the page's bit alone and makes its address translate to nothing,
-- but the frame behind it stays in use: the physical manager's state is the same as before.
free_page-IsPageFreed :
    (s : Vmm) (dir page : ℕ)
    → IsByteMap s.bitmap
    → IsReady s.paging dir
    → s.max_pages ≤ 2 ^ 18
    → page < s.max_pages
    → virt_to_phys (kernel_base + page * page_size) s.paging ≢ uint32_max
    → IsPageFreed s (free_page (kernel_base + page * page_size) s) dir page
unfolding freed_state
free_page-IsPageFreed s dir page bytes r small lt ne =
    rw (free_page-enters s (kernel_base + page * page_size) page refl lt ne) (record {
      bits = is_used-set_free s.bitmap bytes page;
      unmapped = unmap_page-IsUnmapped _ dir s.paging r (omega arith);
      same_frames = unmap_page-pmm _ s.paging;
    })

-- An address that is NULL, not on a page boundary, below the kernel's space or past the last page
-- is refused, and so is one that nothing is mapped at.
pub free_page_refused :
    (s : Vmm) (addr : ℕ)
    → (addr ≡ 0)
      ⊎ ((addr % page_size ≢ 0)
          ⊎ ((addr < kernel_base)
              ⊎ ((s.max_pages ≤ (addr - kernel_base) / page_size)
                  ⊎ (virt_to_phys addr s.paging ≡ uint32_max))))
    → free_page addr s ≡ s
unfolding free_page
free_page_refused s addr h = ground arith

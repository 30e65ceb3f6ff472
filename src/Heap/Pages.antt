-- ===== src/Heap/Pages.antt =====
-- Which pages `liballoc_alloc` of src/mm/liballoc_hook.c takes, and what `liballoc_free` gives back.

use hal_os.Base.{ℕ, zero, suc, ◌+◌, ◌*◌, ◌^◌, ◌≤◌, ◌<◌, ◌==◌, ltb, leb, true, false}
use hal_os.Base.{
  ◌&&◌, ◌||◌, if◌then◌else◌, u32, ◌≡◌, ◌⊎◌, inl, inr, refl, arith, ◌∙◌, Bool-cases, sym,
}
use hal_os.Bitmap.{IsByteMap, is_used}
use hal_os.Pmm.{free_block}
use hal_os.Paging.{kernel_base, page_size}
use hal_os.Paging.Ready.{IsReady}
use hal_os.Vmm.{Vmm, alloc_page, free_page, mark_page}
use hal_os.Vmm.Page.{IsFreePage, PageEnds, alloc_page_lem, alloc_page-keeps}
use hal_os.Vmm.Release.{unmap_page-pmm}
use hal_os.Heap.{alloc_from, free_from, liballoc_alloc, liballoc_free}

free_page-pmm : (addr : ℕ) (s : Vmm) → ((free_page addr s).paging).pmm ≡ (s.paging).pmm
unfolding free_page mark_page free_block
free_page-pmm addr s = ground (arith, unmap_page-pmm addr s.paging)

free_from-pmm : (left i ptr : ℕ) (s : Vmm) → ((free_from left i ptr s).paging).pmm ≡ (s.paging).pmm
unfolding free_from
free_from-pmm zero i ptr s = refl
free_from-pmm (suc left) i ptr s =
    free_from-pmm left (i + 1) ptr (free_page (u32 (ptr + i * page_size)) s)
    ∙ free_page-pmm (u32 (ptr + i * page_size)) s

-- `liballoc_free` gives no frame back: the physical manager's state stays as it is, whatever is
-- freed.
pub liballoc_free-keeps_frames :
    (ptr num_blocks : ℕ) (s : Vmm)
    → (((liballoc_free ptr num_blocks s).1).paging).pmm ≡ (s.paging).pmm
unfolding liballoc_free
liballoc_free-keeps_frames ptr num_blocks s = ground (arith, free_from-pmm num_blocks 0 ptr s)

-- the state in front of a run of `n` free pages from `page` on, with none free below: the page
-- tables are well-formed, and there are at most 2 ^ 18 pages
pub record IsRunAhead (s : Vmm) (dir page n : ℕ) : Type 0 where
  pub bytes : IsByteMap s.bitmap
  pub ready : IsReady s.paging dir
  pub small : s.max_pages ≤ 2 ^ 18
  pub inside : page + n ≤ s.max_pages
  pub below : (c : ℕ) → c < page → is_used s.bitmap c ≡ true
  pub free : (c : ℕ) → page ≤ c → c < page + n → is_used s.bitmap c ≡ false

-- one page taken from the run
abbrev Steps : Vmm → ℕ → ℕ → ℕ → ℕ × Vmm → Type 0
Steps s dir page n r =
    (r.0 ≡ 0)
    ⊎ ((r.0 ≡ kernel_base + page * page_size)
        × ((c : ℕ) → is_used (r.1).bitmap c ≡ (page == c || is_used s.bitmap c))
        × IsRunAhead r.1 dir (page + 1) n)

alloc_page-Steps :
    (s : Vmm) (dir page n : ℕ) → IsRunAhead s dir page (suc n) → Steps s dir page n (alloc_page s)
alloc_page-Steps s dir page n h =
    go (alloc_page s) (alloc_page-keeps s h.bytes) (alloc_page_lem s dir h.bytes h.ready h.small)
  where
    found : (p : ℕ) → IsFreePage s p → p ≡ page
    found p f = elim (Bool-cases (ltb p page)) [
      | inl lt ↦ ground (arith, h.below p, f.is_free)
      | inr ge ↦ elim (Bool-cases (ltb page p)) [
        | inl lt ↦ ground (arith, f.first page, h.free page)
        | inr le ↦ ground arith
      ]
    ]

    go :
        (r : ℕ × Vmm)
        → IsByteMap (r.1).bitmap × ((r.1).max_pages ≡ s.max_pages)
        → PageEnds s dir r
        → Steps s dir page n r
    go r k (inr (z, _)) = inl z
    go r k (inl (p, block, a)) =
        let e : p ≡ page = found p a.is_first in
        inr (
          omega (arith, a.address, e),
          (λ c. rw (sym e) (a.bits c)),
          record {
            bytes = k.0;
            ready = a.ready;
            small = omega (arith, h.small, k.1);
            inside = omega (arith, h.inside, k.1);
            below = λ c lt. ground (arith, a.bits c, h.below c, e);
            free = λ c lo hi. ground (arith, a.bits c, h.free c, e);
          },
        )

-- how a request for `n` pages ends
abbrev pub Ends : Vmm → ℕ → ℕ → ℕ → ℕ → ℕ × Vmm → Type 0
Ends s dir virt page n r =
    (r.0 ≡ 0)
    ⊎ ((r.0 ≡ virt)
        × ((c : ℕ)
            → is_used (r.1).bitmap c ≡ (leb page c && ltb c (page + n) || is_used s.bitmap c))
        × IsReady (r.1).paging dir)

Ends-step :
    (s t : Vmm) (dir virt page n : ℕ) (r : ℕ × Vmm)
    → ((c : ℕ) → is_used t.bitmap c ≡ (page == c || is_used s.bitmap c))
    → Ends t dir virt (page + 1) n r
    → Ends s dir virt page (suc n) r
Ends-step s t dir virt page n r h (inl z) = inl z
Ends-step s t dir virt page n r h (inr (a, b, w)) = inr (a, (λ c. ground (arith, b c, h c)), w)

-- one round, given what the rounds behind it do
round-Ends :
    (s : Vmm) (left i virt first dir page : ℕ) (r : ℕ × Vmm)
    → Steps s dir page left r
    → (r.0 ≡ kernel_base + page * page_size
        → IsRunAhead r.1 dir (page + 1) left
        → Ends r.1 dir first
            (page + 1)
            left
            (alloc_from left (i + 1) (if i == 0 then r.0 else virt) r.1))
    → Ends s dir first page (suc left) (elim (r.0 == 0) [
      | true ↦ (0, free_from i 0 virt r.1)
      | false ↦ alloc_from left (i + 1) (if i == 0 then r.0 else virt) r.1
    ])
round-Ends s left i virt first dir page r (inl z) rest = rw z (inl refl)
round-Ends s left i virt first dir page r (inr (a, bits, ahead)) rest =
    let taken : (r.0 == 0) ≡ false = ground (arith, a) in
    rw taken (
      Ends-step s r.1 dir first page left
        (alloc_from left (i + 1) (if i == 0 then r.0 else virt) r.1) bits (rest a ahead))

-- the rounds after the first one
alloc_from-Ends :
    (left i virt page dir : ℕ) (s : Vmm)
    → 0 < i
    → IsRunAhead s dir page left
    → Ends s dir virt page left (alloc_from left i virt s)
unfolding alloc_from
alloc_from-Ends zero i virt page dir s pos h = inr (refl, (λ c. ground arith), h.ready)
alloc_from-Ends (suc left) i virt page dir s pos h =
    let later : (i == 0) ≡ false = ground arith in
    round-Ends s left i virt virt dir page (alloc_page s) (alloc_page-Steps s dir page left h)
      (λ a ahead.
        rw later
          (alloc_from-Ends left (i + 1) virt (page + 1) dir (alloc_page s).1 (omega arith) ahead))

-- Before paging is turned on, where all the pages below `page` are in use and the `num_blocks` pages from it on are free, with
-- well-formed page tables, `liballoc_alloc` either returns NULL, or returns the address of `page`,
-- takes exactly those pages and leaves the page tables well-formed.
pub liballoc_alloc-Ends :
    (num_blocks page dir : ℕ) (s : Vmm)
    → 0 < num_blocks
    → IsRunAhead s dir page num_blocks
    → Ends s dir (kernel_base + page * page_size) page num_blocks (liballoc_alloc num_blocks s)
unfolding liballoc_alloc alloc_from
liballoc_alloc-Ends zero page dir s pos h = absurd (omega arith)
liballoc_alloc-Ends (suc left) page dir s pos h =
    let int : (suc left == 0 || leb (2 ^ 31) (suc left)) ≡ false =
      ground (arith, h.inside, h.small) in
    rw int (
      round-Ends s left 0 0 (kernel_base + page * page_size) dir page (alloc_page s)
        (alloc_page-Steps s dir page left h)
        (λ a ahead. rw a (
          alloc_from-Ends left 1 (kernel_base + page * page_size) (page + 1) dir (alloc_page s).1
            (omega arith) ahead)))

-- how a request for two pages ends where the page behind `page` is not free
abbrev pub GapEnds : Vmm → ℕ → ℕ × Vmm → Type 0
GapEnds s page r =
    (r.0 ≡ 0)
    ⊎ ((r.0 ≡ kernel_base + page * page_size)
        × ((q : ℕ) × (page + 1 < q)
            × (is_used s.bitmap q ≡ false)
            × ((c : ℕ) → is_used (r.1).bitmap c ≡ (page == c || q == c || is_used s.bitmap c))))

-- A hole in the address space: where page `page` is the first free one and the page behind it is
-- in use, with well-formed page tables, a request for two pages either fails, or returns the
-- address of `page` while the second page that it takes lies past the next one, which stays as it
-- was.
liballoc_alloc-gap :
    (page dir : ℕ) (s : Vmm)
    → IsRunAhead s dir page 1
    → is_used s.bitmap (page + 1) ≡ true
    → GapEnds s page (liballoc_alloc 2 s)
unfolding liballoc_alloc alloc_from
liballoc_alloc-gap page dir s h gap = first (alloc_page s) (alloc_page-Steps s dir page 0 h)
  where
    second :
        (t : Vmm) (virt : ℕ)
        → virt ≡ kernel_base + page * page_size
        → ((c : ℕ) → is_used t.bitmap c ≡ (page == c || is_used s.bitmap c))
        → (r : ℕ × Vmm) → PageEnds t dir r
        → GapEnds s page
            (elim (r.0 == 0) [ true ↦ (0, free_from 1 0 virt r.1) | false ↦ (virt, r.1) ])
    second t virt a bits r (inr (z, _)) = rw z (inl refl)
    second t virt a bits r (inl (q, block, w)) =
        let taken : (r.0 == 0) ≡ false = ground (arith, w.address) in
        rw taken (
          inr (
            a,
            (
              q,
              ground (arith, w.is_first.is_free, bits q, gap, h.below q),
              ground (arith, w.is_first.is_free, bits q),
              λ c. ground (arith, w.bits c, bits c),
            ),
          ))

    first :
        (r : ℕ × Vmm)
        → Steps s dir page 0 r
        → GapEnds s page (elim (r.0 == 0) [
          | true ↦ (0, free_from 0 0 0 r.1)
          | false ↦ elim ((alloc_page r.1).0 == 0) [
            | true ↦ (0, free_from 1 0 r.0 (alloc_page r.1).1)
            | false ↦ (r.0, (alloc_page r.1).1)
          ]
        ])
    first r (inl z) = rw z (inl refl)
    first r (inr (a, bits, ahead)) =
        let taken : (r.0 == 0) ≡ false = ground (arith, a) in
        rw taken (
          second r.1 r.0 a bits (alloc_page r.1)
            (alloc_page_lem r.1 dir ahead.bytes ahead.ready ahead.small))

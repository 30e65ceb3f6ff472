-- ===== src/Vmm/Page.antt =====
-- `vmm_alloc_page` and `vmm_free_page` of src/mm/vmm.c.
use mathlib.Core.Path.{subst}
use native.Mathlib.Decide.{ℕ_discrete}
use hal_os.Base.{ℕ, zero, suc, ◌+◌, ◌*◌, ◌/◌, ◌^◌, ◌≤◌, ◌<◌, ◌==◌, Bool, true, false}
use hal_os.Base.{◌||◌, if◌then◌else◌, u32, ◌≡◌, ◌⊎◌, inl, inr, refl, arith}
use hal_os.Base.{Bool-cases, Option, none, some, ◌∙◌}
use hal_os.Bitmap.{IsByteMap, is_used, set_used, set_free}
use hal_os.Bitmap.Bits.{is_used-set_used, is_used-set_free, set_used-IsByteMap, set_free-IsByteMap}
use hal_os.Pmm
use hal_os.Pmm.{Pmm, free_block}
use hal_os.Pmm.Alloc.{IsAllocated, alloc_block_lem, AllocEnds}
use hal_os.Paging.{Paging, kernel_base, page_size, map_page, virt_to_phys}
use hal_os.Paging.Ready.{IsReady}
use hal_os.Paging.Translate.{IsMapped, map_page-IsMapped}
use hal_os.Vmm.{Vmm, find_free_page, find_free_from, mark_page, alloc_page, alloc_page_at, map}
use hal_os.Vmm.{with_pmm, rw_flags}

-- the first free page of the address space
pub record IsFreePage (s : Vmm) (page : ℕ) : Type 0 where
  pub inside : page < s.max_pages
  pub is_free : is_used s.bitmap page ≡ false
  pub first : (c : ℕ) → c < page → is_used s.bitmap c ≡ true

find_free_from-IsFreePage :
    (s : Vmm) (left i page : ℕ)
    → i + left ≡ s.max_pages
    → ((c : ℕ) → c < i → is_used s.bitmap c ≡ true)
    → find_free_from s left i ≡ some page
    → IsFreePage s page
unfolding find_free_from
find_free_from-IsFreePage s zero i page e below h = cc
find_free_from-IsFreePage s (suc left) i page e below h = elim (Bool-cases (is_used s.bitmap i)) [
  | inr free ↦
      let here : i ≡ page = ground arith in
      subst (IsFreePage s) here (record { inside = omega arith; is_free = free; first = below })
  | inl used ↦
      find_free_from-IsFreePage s left (i + 1) page (omega arith)
        (λ c lt. elim (ℕ_discrete c i) [ yes q ↦ rw q used | no q ↦ below c (omega arith) ])
        (ground arith)
]

-- A frame that `pmm_alloc_block` takes leaves the page tables well-formed.
IsReady-alloc :
    (m : Paging) (pmm' : Pmm) (dir p block : ℕ)
    → IsReady m dir
    → IsAllocated m.pmm pmm' p block
    → IsReady (record m { pmm = pmm' }) dir
IsReady-alloc m pmm' dir p block r a = record {
  valid = a.taken.valid;
  off = r.off;
  directory = r.directory;
  dir_inside = ground (arith, a.taken.setup, r.dir_inside);
  dir_used = ground (arith, a.taken.bits dir, r.dir_used);
  tables = λ i lt present.
      let old = r.tables i lt present in
      (
        ground (arith, a.taken.setup, old.0),
        ground (arith, a.taken.bits (m.mem (dir * 4096 + 4 * i) / 4096), old.1),
        old.2,
      );
}

-- a successful `vmm_alloc_page`
pub record IsPageAllocated (s t : Vmm) (dir virt page block : ℕ) : Type 0 where
  pub is_first : IsFreePage s page
  pub address : virt ≡ kernel_base + page * page_size
  pub bits : (c : ℕ) → is_used t.bitmap c ≡ (page == c || is_used s.bitmap c)
  pub frame_free : is_used ((s.paging).pmm).memory_map block ≡ false
  pub frame_used : is_used ((t.paging).pmm).memory_map block ≡ true
  pub frame : virt_to_phys virt t.paging ≡ block * page_size
  pub ready : IsReady t.paging dir

-- how `vmm_alloc_page` ends
abbrev pub PageEnds : Vmm → ℕ → ℕ × Vmm → Type 0
PageEnds s dir r =
    ((page : ℕ) × (block : ℕ) × IsPageAllocated s r.1 dir r.0 page block)
    ⊎ ((r.0 ≡ 0) × ((c : ℕ) → is_used (r.1).bitmap c ≡ is_used s.bitmap c))

module _ (s : Vmm) (bytes : IsByteMap s.bitmap) (page : ℕ) where
  marked_bits : (c : ℕ) → is_used (set_used s.bitmap page) c ≡ (page == c || is_used s.bitmap c)
  marked_bits = is_used-set_used s.bitmap bytes page

  undone_bits :
      is_used s.bitmap page ≡ false
      → (c : ℕ) → is_used (set_free (set_used s.bitmap page) page) c ≡ is_used s.bitmap c
  undone_bits f c = ground (
    arith,
    marked_bits c,
    is_used-set_free (set_used s.bitmap page) (set_used-IsByteMap s.bitmap bytes page) page c,
  )

-- `vmm_alloc_page` from the call of `paging_map_page` on
after_map : ℕ → ℕ → ℕ → Vmm → Bool × Paging → ℕ × Vmm
after_map page virt phys taken (ok, paging') =
    let mapped = record taken { paging = paging' } in
    if ok
    then (virt, mapped)
    else (0, mark_page page false (with_pmm mapped (free_block phys paging'.pmm)))

-- and from the call of `pmm_alloc_block` on
after_frame : ℕ → Vmm → ℕ × Pmm → ℕ × Vmm
after_frame page s (phys, pmm') =
    let taken = with_pmm (mark_page page true s) pmm' in
    if phys == 0
    then (0, mark_page page false taken)
    else after_map page (u32 (kernel_base + page * page_size)) phys taken
        (map_page phys (u32 (kernel_base + page * page_size)) rw_flags taken.paging)

alloc_page_at-stages :
    (page : ℕ) (s : Vmm)
    → alloc_page_at page s ≡ after_frame page s (Pmm.alloc_block (s.paging).pmm)
unfolding alloc_page_at after_frame after_map map mark_page
alloc_page_at-stages page s = refl

module _ (s : Vmm) (dir page : ℕ) (bytes : IsByteMap s.bitmap) (r : IsReady s.paging dir)
    (small : s.max_pages ≤ 2 ^ 18) (p : IsFreePage s page) where
  after_map-PageEnds :
      (pmm' : Pmm) (phys block : ℕ)
      → IsAllocated (s.paging).pmm pmm' phys block
      → (virt : ℕ) → virt ≡ kernel_base + page * page_size
      → (q : Bool × Paging)
      → (q.0 ≡ true → IsMapped phys virt dir (record (s.paging) { pmm = pmm' }) q.1)
      → PageEnds s dir (after_map page virt phys (with_pmm (mark_page page true s) pmm') q)
  unfolding after_map mark_page
  after_map-PageEnds pmm' phys block a virt e (false, t) h =
      inr (refl, undone_bits s bytes page p.is_free)
  after_map-PageEnds pmm' phys block a virt e (true, t) h =
      let w = h refl in
      inl (
        page,
        block,
        record {
          is_first = p;
          address = e;
          bits = marked_bits s bytes page;
          frame_free = a.is_first.is_free;
          frame_used = w.used_kept block (ground (arith, a.taken.bits block));
          frame = w.reads ∙ omega (arith, a.address, e);
          ready = w.ready;
        },
      )

  after_frame-PageEnds :
      (q : ℕ × Pmm) → AllocEnds (s.paging).pmm q → PageEnds s dir (after_frame page s q)
  unfolding after_frame mark_page
  after_frame-PageEnds (phys, pmm') (inr (null, _, _)) =
      rw null (inr (refl, undone_bits s bytes page p.is_free))
  after_frame-PageEnds (phys, pmm') (inl (block, a)) = elim (Bool-cases (phys == 0)) [
    | inl null ↦ rw null (inr (refl, undone_bits s bytes page p.is_free))
    | inr some_frame ↦ rw some_frame (
        after_map-PageEnds pmm' phys block a _ (omega (arith, p.inside)) _ (
          map_page-IsMapped phys _ rw_flags dir _ (IsReady-alloc s.paging pmm' dir phys block r a)
            (omega arith) (omega arith)))
  ]

pub alloc_page_lem :
    (s : Vmm) (dir : ℕ)
    → IsByteMap s.bitmap
    → IsReady s.paging dir
    → s.max_pages ≤ 2 ^ 18
    → PageEnds s dir (alloc_page s)
unfolding alloc_page
alloc_page_lem s dir bytes r small = go (find_free_page s) refl
  where
    go :
        (o : Option ℕ)
        → find_free_page s ≡ o
        → PageEnds s dir (elim o [ none ↦ (0, s) | some page ↦ alloc_page_at page s ])
    go none e = inr (refl, λ c. refl)
    go (some page) e = rw (alloc_page_at-stages page s) (
        after_frame-PageEnds s dir page bytes r small
          (find_free_from-IsFreePage s s.max_pages 0 page (omega arith)
            (λ c lt. absurd (omega arith)) (unfold find_free_page in e))
          _ (alloc_block_lem (s.paging).pmm r.valid))

after_map-keeps :
    (page virt phys : ℕ) (taken : Vmm) (q : Bool × Paging)
    → IsByteMap taken.bitmap
    → IsByteMap ((after_map page virt phys taken q).1).bitmap
      × (((after_map page virt phys taken q).1).max_pages ≡ taken.max_pages)
unfolding after_map mark_page
after_map-keeps page virt phys taken (true, m) h = (h, refl)
after_map-keeps page virt phys taken (false, m) h = (set_free-IsByteMap taken.bitmap h page, refl)

after_frame-keeps :
    (page : ℕ) (s : Vmm) (q : ℕ × Pmm)
    → IsByteMap s.bitmap
    → IsByteMap ((after_frame page s q).1).bitmap
      × (((after_frame page s q).1).max_pages ≡ s.max_pages)
unfolding after_frame mark_page
after_frame-keeps page s (phys, pmm') h = elim (Bool-cases (phys == 0)) [
  | inl null ↦
      rw null (
        set_free-IsByteMap (set_used s.bitmap page) (set_used-IsByteMap s.bitmap h page) page,
        refl,
      )
  | inr frame ↦ rw frame (after_map-keeps page _ phys _ _ (set_used-IsByteMap s.bitmap h page))
]

-- `vmm_alloc_page` leaves the map's bytes bytes, and the number of pages as it is.
pub alloc_page-keeps :
    (s : Vmm)
    → IsByteMap s.bitmap
    → IsByteMap ((alloc_page s).1).bitmap × (((alloc_page s).1).max_pages ≡ s.max_pages)
unfolding alloc_page
alloc_page-keeps s h = go (find_free_page s)
  where
    go :
        (o : Option ℕ)
        → let r : ℕ × Vmm = elim o [ none ↦ (0, s) | some page ↦ alloc_page_at page s ] in
          IsByteMap (r.1).bitmap × ((r.1).max_pages ≡ s.max_pages)
    go none = (h, refl)
    go (some page) = rw (alloc_page_at-stages page s) (after_frame-keeps page s _ h)

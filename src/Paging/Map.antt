-- ===== src/Paging/Map.antt =====
-- `paging_map_page` and `paging_unmap_page` of src/mm/paging.c, seen through `virt_to_phys` of
-- src/mm/vmm.c.
use mathlib.Core.Path.{subst}
use native.Mathlib.Decide.{ℕ_discrete}
use hal_os.Base.{ℕ, ◌+◌, ◌*◌, ◌/◌, ◌^◌, ◌<◌, ◌==◌, ltb, leb, Bool, true, false}
use hal_os.Base.{
  ◌&&◌, if◌then◌else◌, update, bit_or, ◌≡◌, ◌≢◌, ◌⊎◌, inl, inr, refl, arith, bit_or-add,
}
use hal_os.Base.{Bool-cases, sym, ap}
use hal_os.Bitmap.{is_used}
use hal_os.Pmm
use hal_os.Pmm.{Pmm, align_down}
use hal_os.Pmm.Alloc.{IsAllocated, alloc_block_lem, AllocEnds}
use hal_os.Paging.{Paging, phys_of, table_ptr, store, zero_page, is_present}
use hal_os.Paging.{pd_index, pde, ensure_table}
use hal_os.Paging.{page_size}
use hal_os.Paging.Ready.{IsReady, dir_word, pde-eq-dir_word}
use hal_os.Paging.Ready.{phys_of-table_start, phys_of-off}

-- What making sure of a page table leaves: a present entry, and all used memory as it was.
pub record IsTable (m t : Paging) (dir virt : ℕ) : Type 0 where
  pub ready : IsReady t dir
  pub same_active : t.active ≡ m.active
  pub present : is_present (dir_word t dir virt) ≡ true
  pub others :
      (a : ℕ)
      → is_used m.pmm.memory_map (a / 4096) ≡ true
      → a ≢ dir * 4096 + 4 * pd_index virt
      → t.mem a ≡ m.mem a
  pub used_kept : (c : ℕ) → is_used m.pmm.memory_map c ≡ true → is_used t.pmm.memory_map c ≡ true
  pub kept : is_present (dir_word m dir virt) ≡ true → t ≡ m
  pub fresh :
      is_present (dir_word m dir virt) ≡ false
      → is_used m.pmm.memory_map (dir_word t dir virt / 4096) ≡ false

IsTable-old :
    (m : Paging) (dir virt : ℕ)
    → IsReady m dir
    → is_present (dir_word m dir virt) ≡ true
    → IsTable m m dir virt
IsTable-old m dir virt r p = record {
  ready = r;
  same_active = refl;
  present = p;
  others = λ a u ne. refl;
  used_kept = λ c u. u;
  kept = λ p. refl;
  fresh = λ q. absurd (cc);
}

-- the memory after a fresh table in `block`
fresh_mem : Paging → ℕ → ℕ → ℕ → ℕ → ℕ
fresh_mem m dir virt block =
    update (λ a. if leb (block * 4096) a && ltb a (block * 4096 + page_size) then 0 else m.mem a)
      (dir * 4096 + 4 * pd_index virt) (block * 4096 + 3)

-- the state with the table's page cleared
abbrev zeroed_table : Paging → Pmm → ℕ → Paging
zeroed_table m pmm' block = record m {
  pmm = pmm';
  mem = λ a. if leb (block * 4096) a && ltb a (block * 4096 + page_size) then 0 else m.mem a;
}

fresh_table : Paging → Pmm → ℕ → ℕ → ℕ → Paging
fresh_table m pmm' dir virt block = record m { pmm = pmm'; mem = fresh_mem m dir virt block }

module _ (m : Paging) (dir virt block : ℕ) where
  fresh_mem-entry : fresh_mem m dir virt block (dir * 4096 + 4 * pd_index virt) ≡ block * 4096 + 3
  unfolding fresh_mem update
  fresh_mem-entry = ground arith

  fresh_mem-other :
      (a : ℕ)
      → a ≢ dir * 4096 + 4 * pd_index virt
      → a / 4096 ≢ block
      → fresh_mem m dir virt block a ≡ m.mem a
  unfolding fresh_mem update
  fresh_mem-other a e n = ground arith

IsTable-fresh :
    (m : Paging) (pmm' : Pmm) (p dir virt block : ℕ)
    → IsReady m dir
    → virt < 2 ^ 32
    → is_present (dir_word m dir virt) ≡ false
    → IsAllocated m.pmm pmm' p block
    → IsTable m (fresh_table m pmm' dir virt block) dir virt
unfolding fresh_table
IsTable-fresh m pmm' p dir virt block r h absent a = record {
  ready = record {
    valid = a.taken.valid;
    off = r.off;
    directory = r.directory;
    dir_inside = ground (arith, a.taken.setup, r.dir_inside);
    dir_used = ground (arith, a.taken.bits dir, r.dir_used);
    tables = entries;
  };
  same_active = refl;
  present = ground (arith, fresh_mem-entry m dir virt block);
  others = λ w used ne. fresh_mem-other m dir virt block w ne (λ e.
      let u : is_used m.pmm.memory_map block ≡ true =
        subst (λ n. is_used m.pmm.memory_map n ≡ true) e used in
      cc (a.is_first.is_free));
  used_kept = λ c u. ground (arith, a.taken.bits c);
  kept = λ p. absurd (cc);
  fresh = λ q.
      let its_block : fresh_mem m dir virt block (dir * 4096 + 4 * pd_index virt) / 4096 ≡ block =
        omega (arith, fresh_mem-entry m dir virt block) in
      rw its_block a.is_first.is_free;
}
  where
    apart : dir ≢ block
    apart e =
        let u : is_used m.pmm.memory_map block ≡ true =
          subst (λ n. is_used m.pmm.memory_map n ≡ true) e r.dir_used in
        cc (a.is_first.is_free)

    entries :
        (i : ℕ)
        → i < 1024
        → is_present (fresh_mem m dir virt block (dir * 4096 + 4 * i)) ≡ true
        → (fresh_mem m dir virt block (dir * 4096 + 4 * i) / 4096 < pmm'.max_blocks)
          × (is_used pmm'.memory_map (fresh_mem m dir virt block (dir * 4096 + 4 * i) / 4096)
              ≡ true)
          × (fresh_mem m dir virt block (dir * 4096 + 4 * i) / 4096 ≢ dir)
    entries i lt present = elim (ℕ_discrete i (pd_index virt)) [
      | yes e ↦
          let at_entry : fresh_mem m dir virt block (dir * 4096 + 4 * i) ≡ block * 4096 + 3 =
            rw e (fresh_mem-entry m dir virt block) in
          let its_block : fresh_mem m dir virt block (dir * 4096 + 4 * i) / 4096 ≡ block =
            omega arith in
          rw its_block (
            ground (arith, a.taken.setup, a.is_first.in_range),
            ground (arith, a.taken.bits block),
            λ q. apart (sym q),
          )
      | no ne ↦
          let same : fresh_mem m dir virt block (dir * 4096 + 4 * i) ≡ m.mem (dir * 4096 + 4 * i) =
            fresh_mem-other m dir virt block _ (λ q. ne (omega arith)) (λ q. apart (omega arith)) in
          let old = r.tables i lt (rw same at present) in
          rw same (
            ground (arith, a.taken.setup, old.0),
            ground (arith, a.taken.bits (m.mem (dir * 4096 + 4 * i) / 4096), old.1),
            old.2,
          )
    ]

-- how making sure of a page table ends
abbrev pub EnsureEnds : Paging → ℕ → ℕ → Bool × Paging → Type 0
EnsureEnds m dir virt r = ((r.0 ≡ true) × IsTable m r.1 dir virt) ⊎ (r.0 ≡ false)

-- the branch that installs a new table
install : Paging → ℕ → ℕ × Pmm → Bool × Paging
install m virt (phys_table, pmm') =
    let taken : Paging = record m { pmm = pmm' } in
    if phys_table == 0
    then (false, taken)
    else let cleared = zero_page taken (table_ptr m.active phys_table) in
      (true, store cleared (m.page_directory + 4 * pd_index virt) (bit_or phys_table (bit_or 1 2)))

ensure_table-absent :
    (m : Paging) (virt : ℕ)
    → is_present (pde m virt) ≡ false
    → ensure_table virt m ≡ install m virt (Pmm.alloc_block m.pmm)
unfolding ensure_table install
ensure_table-absent m virt h = rw h refl

pub ensure_table-present :
    (m : Paging) (virt : ℕ) → is_present (pde m virt) ≡ true → ensure_table virt m ≡ (true, m)
unfolding ensure_table
ensure_table-present m virt h = rw h refl

zero_page-at :
    (m : Paging) (p base : ℕ)
    → phys_of m p ≡ base
    → zero_page m p
      ≡ record m { mem = λ a. if leb base a && ltb a (base + page_size) then 0 else m.mem a }
unfolding zero_page
zero_page-at m p base e =
    ap (λ b. record m { mem = λ a. if leb b a && ltb a (b + page_size) then 0 else m.mem a }) e

install-eq-fresh_table :
    (m : Paging) (pmm' : Pmm) (dir virt block : ℕ)
    → IsReady m dir
    → virt < 2 ^ 32
    → block ≢ 0
    → install m virt (block * 4096, pmm') ≡ (true, fresh_table m pmm' dir virt block)
unfolding install fresh_table fresh_mem store zero_page update
install-eq-fresh_table m pmm' dir virt block r h ne =
    let some_ptr : (block * 4096 == 0) ≡ false = ground arith in
    let word : bit_or (block * 4096) (bit_or 1 2) ≡ block * 4096 + 3 =
      bit_or-add 12 block 3 (omega arith) in
    rw
      (
        some_ptr,
        zero_page-at (record m { pmm = pmm' }) _ _
            (phys_of-table_start (record m { pmm = pmm' }) block r.off),
        phys_of-off (zeroed_table m pmm' block) (m.page_directory + 4 * pd_index virt) r.off,
        r.directory,
        word,
      )
      refl

pub ensure_table-EnsureEnds :
    (m : Paging) (dir virt : ℕ)
    → IsReady m dir
    → virt < 2 ^ 32
    → EnsureEnds m dir virt (ensure_table virt m)
ensure_table-EnsureEnds m dir virt r h = elim (Bool-cases (is_present (dir_word m dir virt))) [
  | inl old ↦
      rw (ensure_table-present m virt (rw (pde-eq-dir_word m dir virt r h) old))
        (inl (refl, IsTable-old m dir virt r old))
  | inr absent ↦
      rw (ensure_table-absent m virt (rw (pde-eq-dir_word m dir virt r h) absent))
        (after absent (Pmm.alloc_block m.pmm) (alloc_block_lem m.pmm r.valid))
]
  where
    after :
        is_present (dir_word m dir virt) ≡ false
        → (q : ℕ × Pmm) → AllocEnds m.pmm q
        → EnsureEnds m dir virt (install m virt q)
    after absent (p, pmm') (inr (null, _, _)) = inr (unfold install in ground arith)
    after absent (p, pmm') (inl (block, a)) = elim (ℕ_discrete block 0) [
      | yes e ↦ inr (unfold install in ground (arith, a.address))
      | no ne ↦
          rw (a.address, install-eq-fresh_table m pmm' dir virt block r h ne)
            (inl (refl, IsTable-fresh m pmm' p dir virt block r h absent a))
    ]

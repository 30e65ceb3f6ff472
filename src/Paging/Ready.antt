-- ===== src/Paging/Ready.antt =====
-- The invariant of the page tables that src/mm/paging.c keeps, and where its pointers lead.
use hal_os.Base.{ℕ, ◌+◌, ◌*◌, ◌/◌, ◌^◌, ◌<◌, true, false}
use hal_os.Base.{bit_or, ◌≡◌, ◌≢◌, refl, ap, arith, bit_or-add, bit_or-one}
use hal_os.Bitmap.{is_used}
use hal_os.Pmm.{align_down}
use hal_os.Pmm.Inv.{IsValid}
use hal_os.Paging.{Paging, phys_of, table_ptr, load, is_present, pd_index, pt_index, pde}
use hal_os.Paging.{pte_ptr, entry}

-- The directory lies in block `dir`, and each present entry of it points to another block in use.
-- Paging is off, so that pointers are physical addresses.
pub record IsReady (m : Paging) (dir : ℕ) : Type 0 where
  pub valid : IsValid m.pmm
  pub off : m.active ≡ false
  pub directory : m.page_directory ≡ dir * 4096
  pub dir_inside : dir < m.pmm.max_blocks
  pub dir_used : is_used m.pmm.memory_map dir ≡ true
  pub tables :
      (i : ℕ)
      → i < 1024
      → is_present (m.mem (dir * 4096 + 4 * i)) ≡ true
      → (m.mem (dir * 4096 + 4 * i) / 4096 < m.pmm.max_blocks)
        × (is_used m.pmm.memory_map (m.mem (dir * 4096 + 4 * i) / 4096) ≡ true)
        × (m.mem (dir * 4096 + 4 * i) / 4096 ≢ dir)

-- the word of the directory for an address, and its page table's block
abbrev pub dir_word : Paging → ℕ → ℕ → ℕ
dir_word m dir virt = m.mem (dir * 4096 + 4 * pd_index virt)

pub phys_of-off : (m : Paging) (p : ℕ) → m.active ≡ false → phys_of m p ≡ p
unfolding phys_of
phys_of-off m p off = rw off refl

pub phys_of-directory :
    (m : Paging) (dir x : ℕ)
    → IsReady m dir
    → x < 4096
    → phys_of m (m.page_directory + x) ≡ dir * 4096 + x
phys_of-directory m dir x r h =
    omega (arith, phys_of-off m (m.page_directory + x) r.off, r.directory)

pub phys_of-table :
    (m : Paging) (block x : ℕ)
    → m.active ≡ false
    → phys_of m (table_ptr m.active (block * 4096) + x) ≡ block * 4096 + x
unfolding phys_of table_ptr
phys_of-table m block x off = rw off refl

pub pd_index-lt : (virt : ℕ) → virt < 2 ^ 32 → pd_index virt < 1024
pd_index-lt virt h = omega arith

pub pde-eq-dir_word :
    (m : Paging) (dir virt : ℕ) → IsReady m dir → virt < 2 ^ 32 → pde m virt ≡ dir_word m dir virt
unfolding load
pde-eq-dir_word m dir virt r h =
    ap m.mem (phys_of-directory m dir (4 * pd_index virt) r (omega arith))

pub phys_of-pte :
    (m : Paging) (dir virt : ℕ)
    → IsReady m dir
    → virt < 2 ^ 32
    → is_present (dir_word m dir virt) ≡ true
    → phys_of m (pte_ptr m virt) ≡ dir_word m dir virt / 4096 * 4096 + 4 * pt_index virt
phys_of-pte m dir virt r h present =
    rw (pde-eq-dir_word m dir virt r h)
      (phys_of-table m (dir_word m dir virt / 4096) (4 * pt_index virt) r.off)

-- An entry made from flags below a page is present and holds the page's address.
pub entry_parts :
    (phys flags : ℕ)
    → flags < 4096
    → (is_present (entry phys flags) ≡ true) × (align_down (entry phys flags) ≡ align_down phys)
unfolding entry
entry_parts phys flags h =
    let joined : bit_or (align_down phys) flags ≡ align_down phys + flags =
      bit_or-add 12 (phys / 4096) flags h in
    let whole : bit_or (bit_or (align_down phys) flags) 1 ≡ (align_down phys + flags) / 2 * 2 + 1 =
      rw joined (bit_or-one (align_down phys + flags)) in
    (ground arith, omega arith)

pub phys_of-table_start :
    (m : Paging) (block : ℕ)
    → m.active ≡ false
    → phys_of m (table_ptr m.active (block * 4096)) ≡ block * 4096
unfolding phys_of table_ptr
phys_of-table_start m block off = rw off refl

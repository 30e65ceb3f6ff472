-- ===== src/Paging.antt =====
-- src/mm/paging.c: the two-level page tables. Memory is a 32-bit word at each physical address.
-- With paging off a pointer is a physical address. With paging on the processor translates each
-- pointer by the tables as they stand in memory, through the directory in `cr3`. `& ~0xFFF` is
-- written as a rounding down and `& PAGE_PRESENT` as a remainder. The bits for writing and for the
-- user are not checked, and translations are not cached, so that `invlpg` does nothing.
pub mod Ready
pub mod Map
pub mod Translate
pub mod Others
pub mod Unmap
pub mod Faults
use hal_os.Base.{ℕ, zero, suc, ◌+◌, ◌-◌, ◌*◌, ◌/◌, ◌%◌, ◌^◌, ◌==◌, ltb, leb, Bool, true, false, not}
use hal_os.Base.{◌&&◌, ◌||◌, if◌then◌else◌, Option, none, some, u32, update, bit_or}
use hal_os.Pmm
use hal_os.Pmm.{Pmm, align_down}

pub record Paging : Type 0 where
  pub pmm : Pmm
  pub page_directory : ℕ
  pub active : Bool
  pub cr3 : ℕ
  pub mem : ℕ → ℕ

abbrev pub page_size : ℕ
page_size = 4096

abbrev pub kernel_base : ℕ
kernel_base = 0xC0000000

abbrev pub uint32_max : ℕ
uint32_max = 0xFFFFFFFF

abbrev pub page_present : ℕ
page_present = 1

abbrev pub page_writable : ℕ
page_writable = 2

abbrev pub page_user : ℕ
page_user = 4

abbrev pub is_present : ℕ → Bool
is_present entry = entry % 2 == 1

abbrev pub pd_index : ℕ → ℕ
pd_index virt = virt / 2 ^ 22

abbrev pub pt_index : ℕ → ℕ
pt_index virt = virt / 2 ^ 12 % 1024

-- The physical address behind a pointer. A page fault, where an entry is not present, is an address
-- behind all of memory: from there on the state stands for nothing.
unfoldable pub phys_of : Paging → ℕ → ℕ
phys_of m p =
    let table = m.mem (align_down m.cr3 + 4 * pd_index p) in
    let page = m.mem (align_down table + 4 * pt_index p) in
    if not m.active
    then p
    else if is_present table && is_present page
    then align_down page + p % 4096
    else 2 ^ 32 + p

-- the pointer through which the code reaches a page table
unfoldable pub table_ptr : Bool → ℕ → ℕ
table_ptr active phys = if active then u32 (kernel_base + phys) else phys

unfoldable pub load : Paging → ℕ → ℕ
load m p = m.mem (phys_of m p)

unfoldable pub store : Paging → ℕ → ℕ → Paging
store m p v = record m { mem = update m.mem (phys_of m p) v }

-- `memset(p, 0, PAGE_SIZE)`
unfoldable pub zero_page : Paging → ℕ → Paging
zero_page m p =
    let base = phys_of m p in
    record m { mem = λ a. if leb base a && ltb a (base + page_size) then 0 else m.mem a }

-- `page_directory[pd_index]`
abbrev pub pde : Paging → ℕ → ℕ
pde m virt = load m (m.page_directory + 4 * pd_index virt)

-- the pointer `&page_table[pt_index]`, from the directory's entry
abbrev pub pte_ptr : Paging → ℕ → ℕ
pte_ptr m virt = table_ptr m.active (align_down (pde m virt)) + 4 * pt_index virt

-- the first half of `paging_map_page`: a page table for the address, a new one if there is none
unfoldable pub ensure_table : ℕ → Paging → Bool × Paging
ensure_table virt m =
    if is_present (pde m virt)
    then (true, m)
    else let (phys_table, pmm') = Pmm.alloc_block m.pmm in
      let taken : Paging = record m { pmm = pmm' } in
      if phys_table == 0
      then (false, taken)
      else let cleared = zero_page taken (table_ptr m.active phys_table) in
        (
          true,
          store cleared (m.page_directory + 4 * pd_index virt)
              (bit_or phys_table (bit_or page_present page_writable)),
        )

unfoldable pub entry : ℕ → ℕ → ℕ
entry phys flags = bit_or (bit_or (align_down phys) flags) page_present

unfoldable pub map_page : ℕ → ℕ → ℕ → Paging → Bool × Paging
map_page phys virt flags m =
    let (ready, m') = ensure_table virt m in
    if ready then (true, store m' (pte_ptr m' virt) (entry phys flags)) else (false, m')

-- The table is reached through its physical address, whether or not paging is on.
unfoldable pub unmap_page : ℕ → Paging → Paging
unmap_page virt m =
    let pte = align_down (pde m virt) + 4 * pt_index virt in
    if not (is_present (pde m virt))
    then m
    else if not (is_present (load m pte))
    then m
    else store m pte 0

-- the loop of `paging_init`
unfoldable pub fill_table : ℕ → ℕ → ℕ → Paging → Paging
fill_table zero i table m = m
fill_table (suc left) i table m =
    fill_table left (i + 1) table
      (store m (table + 4 * i) (bit_or (bit_or (i * page_size) page_present) page_writable))

unfoldable pub init : Paging → Paging
init m =
    let (directory, pmm') = Pmm.alloc_block m.pmm in
    let got : Paging = record m { pmm = pmm'; page_directory = directory } in
    if directory == 0
    then got
    else let blank = zero_page got directory in
      let (first, pmm'') = Pmm.alloc_block blank.pmm in
      let taken : Paging = record blank { pmm = pmm'' } in
      if first == 0
      then taken
      else let filled = fill_table 2048 0 first (zero_page taken first) in
        let low =
          store filled directory (bit_or (bit_or (align_down first) page_present) page_writable) in
        store low (directory + 4 * 768) (bit_or (bit_or first page_present) page_writable)

unfoldable pub enable : ℕ → Paging → Paging
enable directory_addr m = if directory_addr == 0 then m else record m {
  active = true;
  cr3 = directory_addr;
  page_directory = u32 (kernel_base + m.page_directory);
}

unfoldable pub virt_to_phys : ℕ → Paging → ℕ
virt_to_phys virt m =
    if not (is_present (pde m virt))
    then uint32_max
    else let page = load m (pte_ptr m virt) in
      if not (is_present page) then uint32_max else bit_or (align_down page) (virt % 4096)

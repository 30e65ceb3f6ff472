-- ===== src/Tests/Pages.antt =====
-- Page tables and pages of src/mm/paging.c and src/mm/vmm.c at concrete inputs.
use native.Mathlib.Decide.{ℕ_discrete}
use hal_os.Base.{ℕ, ◌+◌, ◌*◌, ◌==◌, true, false, if◌then◌else◌}
use hal_os.Base.{◌≡◌, ◌≢◌, refl, arith}
use hal_os.Bitmap.{is_used, test_bit}
use hal_os.Bitmap.Count.{count}
use hal_os.Pmm.{Pmm}
use hal_os.Pmm.Inv.{IsValid}
use hal_os.Paging.{Paging, kernel_base, page_size, uint32_max, virt_to_phys, map_page}
use hal_os.Paging.{ensure_table, load, phys_of, table_ptr}
use hal_os.Paging.Ready.{IsReady}
use hal_os.Paging.Faults.{IsWindow, map_page-loses_directory}
use hal_os.Paging.Translate.{IsMapped, map_page-IsMapped}
use hal_os.Paging.Others.{virt_to_phys-map_page}
use hal_os.Vmm
use hal_os.Vmm.{Vmm}

abbrev frames : Pmm
frames = record {
  memory_size = 65536;
  used_blocks = 4;
  max_blocks = 16;
  memory_map = λ i. if i == 0 then 15 else 0;
  initialized = true;
  last_alloc = 0;
}

frames-IsValid : IsValid frames
unfolding count is_used test_bit
frames-IsValid = record { bytes = λ i. ground arith; counted = refl; small = omega arith }

-- The directory lies in block 1; its entry 768 points to block 2, whose first entry maps block 3.
abbrev words : ℕ → ℕ
words a = if a == 0x1c00 then 0x2003 else if a == 0x2000 then 0x3003 else 0

abbrev tables : Paging
tables = record { pmm = frames; page_directory = 0x1000; active = false; cr3 = 0; mem = words }

tables-IsReady : IsReady tables 1
unfolding is_used test_bit
tables-IsReady = record {
  valid = frames-IsValid;
  off = refl;
  directory = refl;
  dir_inside = omega arith;
  dir_used = refl;
  tables = λ i lt present. elim (ℕ_discrete i 768) [
    | yes e ↦ rw e (omega arith, refl, omega arith)
    | no ne ↦ absurd (ground arith)
  ];
}

map_page_runs : (map_page 0x5000 0xC0001000 3 tables).0 ≡ true
unfolding map_page ensure_table load phys_of
map_page_runs = refl

translates : virt_to_phys 0xC0000123 tables ≡ 0x3123
unfolding virt_to_phys load phys_of table_ptr
translates = refl

map_page-IsMapped_example :
    IsMapped 0x5000 0xC0001000 1 tables (map_page 0x5000 0xC0001000 3 tables).1
map_page-IsMapped_example =
    map_page-IsMapped 0x5000 0xC0001000 3 1 tables tables-IsReady (omega arith) (omega arith)
      map_page_runs

virt_to_phys-map_page_example :
    virt_to_phys 0xC0000123 (map_page 0x5000 0xC0001000 3 tables).1 ≡ virt_to_phys 0xC0000123 tables
virt_to_phys-map_page_example =
    virt_to_phys-map_page 0x5000 0xC0001000 3 1 0xC0000123 tables tables-IsReady (omega arith)
      (omega arith) (omega arith) (refl, (λ e. omega arith), (λ ne p. absurd (omega arith)))
      map_page_runs

-- page 0 of 16 in use
abbrev pages : Vmm
pages = record { paging = tables; bitmap = λ i. if i == 0 then 1 else 0; max_pages = 16 }

page_mapped : virt_to_phys (kernel_base + 0 * page_size) tables ≢ uint32_max
unfolding virt_to_phys load phys_of table_ptr
page_mapped = omega arith

-- With paging on: the directory's entry 768 points to the table in block 2, which maps the page behind
-- 0xC0001000 to the directory in block 1 and the next one to itself.
abbrev window_words : ℕ → ℕ
window_words a =
    if a == 0x1c00
    then 0x2003
    else if a == 0x2004
    then 0x1003
    else if a == 0x2008
    then 0x2003
    else 0

abbrev running : Paging
running = record tables {
  page_directory = 0xC0001000;
  active = true;
  cr3 = 0x1000;
  mem = window_words;
}

running-IsWindow : IsWindow running
unfolding phys_of table_ptr
running-IsWindow = record {
  on = refl;
  aligned = refl;
  table = refl;
  page = refl;
  directory = refl;
  apart = omega arith;
  reached = refl;
}

map_page-loses_directory_example :
    ((map_page 0x5000 0xC0001000 3 running).0 ≡ true)
    × (phys_of running (0xC0001000 + 8) ≡ 0x1008)
    × (phys_of
          (map_page 0x5000 0xC0001000 3 running).1
          ((map_page 0x5000 0xC0001000 3 running).1.page_directory + 8)
        ≡ 0x5008)
    × ((map_page 0x5000 0xC0001000 3 running).1.cr3 ≡ 0x1000)
map_page-loses_directory_example =
    map_page-loses_directory 0x5000 3 8 running running-IsWindow (omega arith) (omega arith)
      (omega arith)

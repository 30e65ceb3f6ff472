-- ===== src/Paging/Faults.antt =====
-- How `paging_map_page` of src/mm/paging.c takes the page directory away from the code.
use hal_os.Base.{ℕ, ◌+◌, ◌*◌, ◌%◌, ◌^◌, ◌<◌, true}
use hal_os.Base.{◌≡◌, ◌≢◌, refl, arith, ap, ◌∙◌, update, update_self, update_ne}
use hal_os.Pmm.{align_down}
use hal_os.Paging.{Paging, phys_of, table_ptr, load, store, is_present, pd_index, pt_index, pde}
use hal_os.Paging.{pte_ptr, entry, map_page}
use hal_os.Paging.Ready.{entry_parts}
use hal_os.Paging.Map.{ensure_table-present}
use hal_os.Paging.Translate.{finish}

-- the two words by which the processor translates the page of the directory's pointer
abbrev pub dir_entry : Paging → ℕ
dir_entry m = align_down m.cr3 + 4 * pd_index m.page_directory

abbrev pub page_entry : Paging → ℕ
page_entry m = align_down (m.mem (dir_entry m)) + 4 * pt_index m.page_directory

-- Paging is on, and the pointer to the directory leads to the directory of the processor, through a
-- page table in another block that the code can reach too.
pub record IsWindow (m : Paging) : Type 0 where
  pub on : m.active ≡ true
  pub aligned : m.page_directory % 4096 ≡ 0
  pub table : is_present (m.mem (dir_entry m)) ≡ true
  pub page : is_present (m.mem (page_entry m)) ≡ true
  pub directory : align_down (m.mem (page_entry m)) ≡ align_down m.cr3
  pub apart : align_down (m.mem (dir_entry m)) ≢ align_down m.cr3
  pub reached :
      phys_of m (table_ptr true (align_down (m.mem (dir_entry m))) + 4 * pt_index m.page_directory)
      ≡ page_entry m

-- a pointer into the directory, by the two words
phys_of-page :
    (m : Paging) (x : ℕ)
    → m.active ≡ true
    → m.page_directory % 4096 ≡ 0
    → is_present (m.mem (dir_entry m)) ≡ true
    → is_present (m.mem (page_entry m)) ≡ true
    → x < 4096
    → phys_of m (m.page_directory + x) ≡ align_down (m.mem (page_entry m)) + x
unfolding phys_of
phys_of-page m x on aligned table page lt =
    let outer : pd_index (m.page_directory + x) ≡ pd_index m.page_directory = omega arith in
    let inner : pt_index (m.page_directory + x) ≡ pt_index m.page_directory = omega arith in
    let rest : (m.page_directory + x) % 4096 ≡ x = omega arith in
    rw (outer, inner, rest, on, table, page) refl

module _ (m : Paging) (w : IsWindow m) (small : m.page_directory < 2 ^ 32) where
  pde-window : pde m m.page_directory ≡ m.mem (dir_entry m)
  unfolding load
  pde-window = ap m.mem (
      phys_of-page m (4 * pd_index m.page_directory) w.on w.aligned w.table w.page (omega arith)
      ∙ ap (λ d. d + 4 * pd_index m.page_directory) w.directory)

  -- the state with a word for the page
  with_entry : ℕ → Paging
  with_entry v = record m { mem = update m.mem (page_entry m) v }

  pte-window : phys_of m (pte_ptr m m.page_directory) ≡ page_entry m
  pte-window =
      ap (λ e. phys_of m (table_ptr m.active (align_down e) + 4 * pt_index m.page_directory))
        pde-window
      ∙ ap
          (λ b.
            phys_of m
              (table_ptr b (align_down (m.mem (dir_entry m))) + 4 * pt_index m.page_directory))
          w.on
      ∙ w.reached

  store-window : (v : ℕ) → store m (pte_ptr m m.page_directory) v ≡ with_entry v
  unfolding store with_entry
  store-window v = ap (λ a. record m { mem = update m.mem a v }) pte-window

  map_page-window :
      (phys flags : ℕ)
      → map_page phys m.page_directory flags m ≡ (true, with_entry (entry phys flags))
  unfolding map_page
  map_page-window phys flags =
      ap (finish phys m.page_directory flags)
        (ensure_table-present m m.page_directory (rw pde-window w.table))
      ∙ ap (λ t. (true, t)) (store-window (entry phys flags))

  dir_entry-kept : (v : ℕ) → (with_entry v).mem (dir_entry m) ≡ m.mem (dir_entry m)
  unfolding with_entry
  dir_entry-kept v = update_ne m.mem _ _ v (λ e. w.apart (omega (arith, e)))

  page_entry-written : (v : ℕ) → (with_entry v).mem (page_entry m) ≡ v
  unfolding with_entry
  page_entry-written v = update_self m.mem (page_entry m) v

  with_entry-phys_of :
      (v x : ℕ)
      → is_present v ≡ true
      → x < 4096
      → phys_of (with_entry v) (m.page_directory + x) ≡ align_down v + x
  unfolding with_entry
  with_entry-phys_of v x p lt =
      let kept : update m.mem (page_entry m) v (dir_entry m) ≡ m.mem (dir_entry m) =
        dir_entry-kept v in
      let same : page_entry (with_entry v) ≡ page_entry m =
        ap (λ e. align_down e + 4 * pt_index m.page_directory) kept in
      let word : (with_entry v).mem (page_entry (with_entry v)) ≡ v =
        ap (with_entry v).mem same ∙ page_entry-written v in
      phys_of-page (with_entry v) x w.on w.aligned (rw kept w.table) (rw word p) lt
      ∙ ap (λ e. align_down e + x) word

-- With paging on, where the 32-bit pointer `page_directory` leads through the tables to the processor's
-- directory, and the code reaches the page table of that pointer, in another block: mapping the
-- pointer's own page to a frame, with flags below 4096, succeeds and leaves `cr3` as it was, and from
-- then on `page_directory` leads to that frame.
pub map_page-loses_directory :
    (phys flags x : ℕ) (m : Paging)
    → IsWindow m
    → m.page_directory < 2 ^ 32
    → flags < 4096
    → x < 4096
    → let (ok, t) = map_page phys m.page_directory flags m in
      (ok ≡ true)
      × (phys_of m (m.page_directory + x) ≡ align_down m.cr3 + x)
      × (phys_of t (t.page_directory + x) ≡ align_down phys + x)
      × (t.cr3 ≡ m.cr3)
unfolding with_entry
map_page-loses_directory phys flags x m w small f lt =
    let (present, frame) = entry_parts phys flags f in
    rw (map_page-window m w small phys flags) (
      refl,
      phys_of-page m x w.on w.aligned w.table w.page lt ∙ ap (λ d. d + x) w.directory,
      with_entry-phys_of m w small (entry phys flags) x present lt ∙ ap (λ d. d + x) frame,
      refl,
    )

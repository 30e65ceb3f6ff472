-- ===== src/Paging/Unmap.antt =====
-- `paging_unmap_page` of src/mm/paging.c and the translation of `virt_to_phys` of src/mm/vmm.c.

use hal_os.Base.{ℕ, ◌^◌, ◌<◌, true, false, not}
use hal_os.Base.{if◌then◌else◌, ◌≡◌, inl, inr, refl, arith}
use hal_os.Base.{Bool-cases, ◌∙◌}
use hal_os.Paging.{Paging, load, store, is_present}
use hal_os.Paging.{unmap_page}
use hal_os.Paging.{virt_to_phys, uint32_max}
use hal_os.Paging.Ready.{IsReady, phys_of-off, dir_word, pde-eq-dir_word}
use hal_os.Paging.Translate.{
  pte_addr, stored, virt_to_phys-translation, stored-IsReady, translation-stored,
}

-- what `paging_unmap_page` does, in terms of the words of memory
unmap_page-by_words :
    (virt dir : ℕ) (m : Paging)
    → IsReady m dir
    → virt < 2 ^ 32
    → is_present (dir_word m dir virt) ≡ true
    → unmap_page virt m
      ≡ (if not (is_present (m.mem (pte_addr m dir virt))) then m else stored m dir virt 0)
unfolding unmap_page load store stored
unmap_page-by_words virt dir m r h p =
    ground (arith, pde-eq-dir_word m dir virt r h, phys_of-off m (pte_addr m dir virt) r.off)

unmap_page-absent :
    (virt dir : ℕ) (m : Paging)
    → IsReady m dir
    → virt < 2 ^ 32
    → is_present (dir_word m dir virt) ≡ false
    → unmap_page virt m ≡ m
unfolding unmap_page
unmap_page-absent virt dir m r h p = ground (arith, pde-eq-dir_word m dir virt r h)

-- the outcome of unmapping
pub record IsUnmapped (virt dir : ℕ) (t : Paging) : Type 0 where
  pub ready : IsReady t dir
  pub fails : virt_to_phys virt t ≡ uint32_max

pub unmap_page-IsUnmapped :
    (virt dir : ℕ) (m : Paging)
    → IsReady m dir
    → virt < 2 ^ 32
    → IsUnmapped virt dir (unmap_page virt m)
unmap_page-IsUnmapped virt dir m r h = elim (Bool-cases (is_present (dir_word m dir virt))) [
  | inr absent ↦
      rw (unmap_page-absent virt dir m r h absent)
        (record { ready = r; fails = virt_to_phys-translation m dir virt r h ∙ rw absent refl })
  | inl p ↦ elim (Bool-cases (is_present (m.mem (pte_addr m dir virt)))) [
    | inr unmapped ↦
        rw (unmap_page-by_words virt dir m r h p, unmapped)
          (record {
            ready = r;
            fails = virt_to_phys-translation m dir virt r h ∙ rw (p, unmapped) refl;
          })
    | inl mapped ↦
        rw (unmap_page-by_words virt dir m r h p, mapped)
          (record {
            ready = stored-IsReady m dir virt 0 r h p;
            fails =
                virt_to_phys-translation _ dir virt (stored-IsReady m dir virt 0 r h p) h
                ∙ translation-stored m dir virt 0 r h p;
          })
  ]
]

-- ===== src/Paging/Translate.antt =====
-- What `paging_map_page` and `paging_unmap_page` of src/mm/paging.c do to the translation that
-- `virt_to_phys` of src/mm/vmm.c reads from the tables.

use hal_os.Base.{ℕ, ◌+◌, ◌*◌, ◌/◌, ◌%◌, ◌^◌, ◌<◌, Bool, true, false, not}
use hal_os.Base.{if◌then◌else◌, update, bit_or, ◌≡◌, ◌≢◌, inl, inr, refl, arith, bit_or-add}
use hal_os.Base.{Bool-cases, ◌∙◌, ap, update_self, update_ne}
use hal_os.Bitmap.{is_used}
use hal_os.Pmm.{align_down}
use hal_os.Paging.{Paging, load, store, is_present}
use hal_os.Paging.{pd_index, pt_index, pte_ptr, entry, ensure_table, map_page}
use hal_os.Paging.{virt_to_phys, uint32_max}
use hal_os.Paging.Ready.{IsReady, dir_word, pde-eq-dir_word}
use hal_os.Paging.Ready.{phys_of-pte, entry_parts}
use hal_os.Paging.Map.{IsTable, EnsureEnds, ensure_table-EnsureEnds}

-- the physical address of an address's page table entry, for a present directory entry
abbrev pub pte_addr : Paging → ℕ → ℕ → ℕ
pte_addr m dir virt = dir_word m dir virt / 4096 * 4096 + 4 * pt_index virt

-- what `virt_to_phys` reads, in terms of the words of memory
abbrev pub translation : Paging → ℕ → ℕ → ℕ
translation m dir virt =
    if not (is_present (dir_word m dir virt))
    then uint32_max
    else if not (is_present (m.mem (pte_addr m dir virt)))
    then uint32_max
    else bit_or (align_down (m.mem (pte_addr m dir virt))) (virt % 4096)

pub virt_to_phys-translation :
    (m : Paging) (dir virt : ℕ)
    → IsReady m dir
    → virt < 2 ^ 32
    → virt_to_phys virt m ≡ translation m dir virt
unfolding virt_to_phys load
virt_to_phys-translation m dir virt r h = elim (Bool-cases (is_present (dir_word m dir virt))) [
  | inr absent ↦ ground (arith, pde-eq-dir_word m dir virt r h)
  | inl present ↦ ground (arith, pde-eq-dir_word m dir virt r h, phys_of-pte m dir virt r h present)
]

-- the table's block differs from the directory's, so an entry of it is no word of the directory
pub pte_addr-ne :
    (m : Paging) (dir virt i : ℕ)
    → IsReady m dir
    → virt < 2 ^ 32
    → i < 1024
    → is_present (dir_word m dir virt) ≡ true
    → pte_addr m dir virt ≢ dir * 4096 + 4 * i
pte_addr-ne m dir virt i r h lt p e = (r.tables (pd_index virt) (omega arith) p).2 (omega arith)

-- the state after a store to the page table
unfoldable pub stored : Paging → ℕ → ℕ → ℕ → Paging
stored m dir virt v = record m { mem = update m.mem (pte_addr m dir virt) v }

pub stored-IsReady :
    (m : Paging) (dir virt v : ℕ)
    → IsReady m dir
    → virt < 2 ^ 32
    → is_present (dir_word m dir virt) ≡ true
    → IsReady (stored m dir virt v) dir
unfolding stored
stored-IsReady m dir virt v r h p = record {
  valid = r.valid;
  off = r.off;
  directory = r.directory;
  dir_inside = r.dir_inside;
  dir_used = r.dir_used;
  tables = λ i lt q.
      let same : update m.mem (pte_addr m dir virt) v (dir * 4096 + 4 * i)
          ≡ m.mem (dir * 4096 + 4 * i) =
        update_ne m.mem _ _ v (pte_addr-ne m dir virt i r h lt p) in
      rw same (r.tables i lt (rw same at q));
}

pub store-eq-stored :
    (m : Paging) (dir virt v : ℕ)
    → IsReady m dir
    → virt < 2 ^ 32
    → is_present (dir_word m dir virt) ≡ true
    → store m (pte_ptr m virt) v ≡ stored m dir virt v
unfolding store stored
store-eq-stored m dir virt v r h p =
    ap (λ a. record m { mem = update m.mem a v }) (phys_of-pte m dir virt r h p)

pub translation-stored :
    (m : Paging) (dir virt v : ℕ)
    → IsReady m dir
    → virt < 2 ^ 32
    → is_present (dir_word m dir virt) ≡ true
    → translation (stored m dir virt v) dir virt
      ≡ (if not (is_present v) then uint32_max else bit_or (align_down v) (virt % 4096))
unfolding stored
translation-stored m dir virt v r h p =
    let same : update m.mem (pte_addr m dir virt) v (dir * 4096 + 4 * pd_index virt)
        ≡ dir_word m dir virt =
      update_ne m.mem _ _ v (pte_addr-ne m dir virt _ r h (omega arith) p) in
    rw (same, p, update_self) refl

-- a mapping that succeeds
pub record IsMapped (phys virt dir : ℕ) (m t : Paging) : Type 0 where
  pub ready : IsReady t dir
  pub used_kept : (c : ℕ) → is_used m.pmm.memory_map c ≡ true → is_used t.pmm.memory_map c ≡ true
  pub reads : virt_to_phys virt t ≡ align_down phys + virt % 4096

pub entry_reads :
    (phys flags virt : ℕ)
    → flags < 4096
    → (if not (is_present (entry phys flags))
        then uint32_max
        else bit_or (align_down (entry phys flags)) (virt % 4096))
      ≡ align_down phys + virt % 4096
entry_reads phys flags virt h =
    let (p, a) = entry_parts phys flags h in
    rw (p, a) (bit_or-add 12 (phys / 4096) (virt % 4096) (omega arith))

-- the second half of `paging_map_page`
abbrev pub finish : ℕ → ℕ → ℕ → Bool × Paging → Bool × Paging
finish phys virt flags q =
    if q.0 then (true, store q.1 (pte_ptr q.1 virt) (entry phys flags)) else (false, q.1)

finish-IsMapped :
    (phys virt flags dir : ℕ) (m t : Paging)
    → virt < 2 ^ 32
    → flags < 4096
    → IsTable m t dir virt
    → IsMapped phys virt dir m (store t (pte_ptr t virt) (entry phys flags))
finish-IsMapped phys virt flags dir m t h f q =
    let r' = stored-IsReady t dir virt (entry phys flags) q.ready h q.present in
    rw (store-eq-stored t dir virt (entry phys flags) q.ready h q.present) (record {
      ready = r';
      used_kept = λ c u. unfold stored in q.used_kept c u;
      reads =
          virt_to_phys-translation _ dir virt r' h
          ∙ translation-stored t dir virt (entry phys flags) q.ready h q.present
          ∙ entry_reads phys flags virt f;
    })

-- Before paging is turned on, with well-formed tables, a 32-bit address and flags below 4096, after a
-- call of `paging_map_page` that succeeds the address translates to the given frame with
-- the offset in the page, the tables stay well-formed, and no block in use is given back.
pub map_page-IsMapped :
    (phys virt flags dir : ℕ) (m : Paging)
    → IsReady m dir
    → virt < 2 ^ 32
    → flags < 4096
    → (map_page phys virt flags m).0 ≡ true
    → IsMapped phys virt dir m (map_page phys virt flags m).1
unfolding map_page
map_page-IsMapped phys virt flags dir m r h f ok =
    go (ensure_table virt m) (ensure_table-EnsureEnds m dir virt r h) ok
  where
    go :
        (q : Bool × Paging)
        → EnsureEnds m dir virt q
        → (finish phys virt flags q).0 ≡ true
        → IsMapped phys virt dir m (finish phys virt flags q).1
    go (true, t) (inl (_, q)) e = finish-IsMapped phys virt flags dir m t h f q
    go (true, t) (inr no_table) e = absurd (cc)
    go (false, t) q e = cc

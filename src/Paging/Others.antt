-- ===== src/Paging/Others.antt =====
-- What `paging_map_page` of src/mm/paging.c leaves of the translations of other addresses.
use mathlib.Core.Path.{subst}
use native.Mathlib.Decide.{ℕ_discrete}
use hal_os.Base.{ℕ, ◌+◌, ◌*◌, ◌/◌, ◌^◌, ◌<◌, Bool, true, false}
use hal_os.Base.{update, ◌≡◌, ◌≢◌, inl, inr, refl, arith}
use hal_os.Base.{Bool-cases, sym, ◌∙◌, ap, update_ne}
use hal_os.Bitmap.{is_used}
use hal_os.Paging.{Paging, is_present}
use hal_os.Paging.{pd_index, pt_index, entry, ensure_table, map_page}
use hal_os.Paging.{virt_to_phys}
use hal_os.Paging.Ready.{IsReady, dir_word}
use hal_os.Paging.Map.{IsTable, EnsureEnds, ensure_table-EnsureEnds}
use hal_os.Paging.Translate.{
  pte_addr, translation, stored, pte_addr-ne, virt_to_phys-translation, stored-IsReady,
  store-eq-stored, finish,
}

-- Two addresses whose page table entries are different words, both tables being present.
abbrev pub IsApart : Paging → ℕ → ℕ → ℕ → Type 0
IsApart m dir virt other =
    (is_present (dir_word m dir other) ≡ true)
    × (pd_index other ≡ pd_index virt → pt_index other ≢ pt_index virt)
    × (pd_index other ≢ pd_index virt
        → is_present (dir_word m dir virt) ≡ true
        → dir_word m dir other / 4096 ≢ dir_word m dir virt / 4096)

translation-stored_ne :
    (m : Paging) (dir virt other v : ℕ)
    → IsReady m dir
    → virt < 2 ^ 32
    → other < 2 ^ 32
    → is_present (dir_word m dir virt) ≡ true
    → pte_addr m dir virt ≢ pte_addr m dir other
    → translation (stored m dir virt v) dir other ≡ translation m dir other
unfolding stored
translation-stored_ne m dir virt other v r h k p ne =
    let same : update m.mem (pte_addr m dir virt) v (dir * 4096 + 4 * pd_index other)
        ≡ dir_word m dir other =
      update_ne m.mem _ _ v (pte_addr-ne m dir virt _ r h (omega arith) p) in
    let same_pte : update m.mem (pte_addr m dir virt) v (pte_addr m dir other)
        ≡ m.mem (pte_addr m dir other) =
      update_ne m.mem _ _ v ne in
    rw (same, same_pte) refl

-- the two words that a translation reads, unchanged by making sure of another table
record IsKept (m t : Paging) (dir virt other : ℕ) : Type 0 where
  dir_same : dir_word t dir other ≡ dir_word m dir other
  pte_same : t.mem (pte_addr m dir other) ≡ m.mem (pte_addr m dir other)
  apart : pte_addr t dir virt ≢ pte_addr t dir other

IsKept-old :
    (m : Paging) (dir virt other : ℕ)
    → IsApart m dir virt other
    → is_present (dir_word m dir virt) ≡ true
    → IsKept m m dir virt other
IsKept-old m dir virt other a p = record {
  dir_same = refl;
  pte_same = refl;
  apart = λ e. elim (ℕ_discrete (pd_index other) (pd_index virt)) [
    | yes s ↦ a.1 s (omega (arith, ap (λ (i : ℕ). m.mem (dir * 4096 + 4 * i)) s))
    | no d ↦ a.2 d p (omega arith)
  ];
}

IsKept-fresh :
    (m t : Paging) (dir virt other : ℕ)
    → IsReady m dir
    → virt < 2 ^ 32
    → other < 2 ^ 32
    → IsApart m dir virt other
    → IsTable m t dir virt
    → is_present (dir_word m dir virt) ≡ false
    → IsKept m t dir virt other
IsKept-fresh m t dir virt other r h k a q absent = record {
  dir_same = words;
  pte_same = q.others _ (rw block_of_pte its.1) (pte_addr-ne m dir other _ r k (omega arith) a.0);
  apart = λ e.
      let one_block : dir_word t dir virt / 4096 ≡ dir_word m dir other / 4096 =
        omega (arith, words) in
      let used : is_used m.pmm.memory_map (dir_word t dir virt / 4096) ≡ true =
        rw one_block its.1 in
      cc (q.fresh absent);
}
  where
    its :
        (dir_word m dir other / 4096 < m.pmm.max_blocks)
        × (is_used m.pmm.memory_map (dir_word m dir other / 4096) ≡ true)
        × (dir_word m dir other / 4096 ≢ dir)
    its = r.tables (pd_index other) (omega arith) a.0

    block_of_pte : pte_addr m dir other / 4096 ≡ dir_word m dir other / 4096
    block_of_pte = omega arith

    differ : pd_index other ≢ pd_index virt
    differ e =
        let present : is_present (dir_word m dir virt) ≡ true =
          subst (λ i. is_present (m.mem (dir * 4096 + 4 * i)) ≡ true) e a.0 in
        cc

    words : dir_word t dir other ≡ dir_word m dir other
    words =
        let block : (dir * 4096 + 4 * pd_index other) / 4096 ≡ dir = omega arith in
        q.others _ (rw block r.dir_used) (λ e. differ (omega arith))

kept_translation :
    (m t : Paging) (dir virt other : ℕ)
    → IsKept m t dir virt other
    → translation t dir other ≡ translation m dir other
kept_translation m t dir virt other w = rw (w.dir_same, w.pte_same) refl

table-IsKept :
    (m t : Paging) (dir virt other : ℕ)
    → IsReady m dir
    → virt < 2 ^ 32
    → other < 2 ^ 32
    → IsApart m dir virt other
    → IsTable m t dir virt
    → IsKept m t dir virt other
table-IsKept m t dir virt other r h k a q = elim (Bool-cases (is_present (dir_word m dir virt))) [
  | inl p ↦
      subst (λ u. IsKept m u dir virt other) (sym (q.kept p)) (IsKept-old m dir virt other a p)
  | inr absent ↦ IsKept-fresh m t dir virt other r h k a q absent
]

-- Before paging is turned on, with well-formed tables, 32-bit addresses and flags below 4096, a call of
-- `paging_map_page` that succeeds leaves the translation of any address in another page as it was,
-- if that address has a page table and another entry of the directory, the mapped address's, does
-- not lead to that same table.
pub virt_to_phys-map_page :
    (phys virt flags dir other : ℕ) (m : Paging)
    → IsReady m dir
    → virt < 2 ^ 32
    → other < 2 ^ 32
    → flags < 4096
    → IsApart m dir virt other
    → (map_page phys virt flags m).0 ≡ true
    → virt_to_phys other (map_page phys virt flags m).1 ≡ virt_to_phys other m
unfolding map_page
virt_to_phys-map_page phys virt flags dir other m r h k f a ok =
    go (ensure_table virt m) (ensure_table-EnsureEnds m dir virt r h) ok
  where
    go :
        (q : Bool × Paging)
        → EnsureEnds m dir virt q
        → (finish phys virt flags q).0 ≡ true
        → virt_to_phys other (finish phys virt flags q).1 ≡ virt_to_phys other m
    go (true, t) (inl (_, q)) e =
        let w = table-IsKept m t dir virt other r h k a q in
        let v = entry phys flags in
        rw (store-eq-stored t dir virt v q.ready h q.present) (
          virt_to_phys-translation _ dir other (stored-IsReady t dir virt v q.ready h q.present) k
          ∙ translation-stored_ne t dir virt other v q.ready h k q.present w.apart
          ∙ kept_translation m t dir virt other w
          ∙ sym (virt_to_phys-translation m dir other r k))
    go (true, t) (inr no_table) e = absurd (cc)
    go (false, t) q e = cc

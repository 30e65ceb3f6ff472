-- ===== src/Pmm/Faults.antt =====
-- Where src/mm/pmm.c does not do what it means to: `pmm_free_block` and the second pass of
-- `pmm_alloc_blocks`.
use mathlib.Core.Path.{subst}
use hal_os.Base.{ℕ, zero, suc, ◌+◌, ◌-◌, ◌*◌, ◌/◌, ◌%◌, ◌≤◌, ◌==◌, Bool, true, false, not}
use hal_os.Base.{◌≡◌, ◌≢◌, refl, sym, arith, u32, inl, inr}
use hal_os.Base.{◌||◌, List, [], ◌∷◌}
use hal_os.Bitmap.{ByteMap, is_used, set_used}
use hal_os.Bitmap.Bits.{is_used-set_used, set_used-IsByteMap}
use hal_os.Bitmap.Count.{count, count-add, count_ext}
use hal_os.Bitmap.Scan.{found, missed, scan}
use hal_os.Pmm.{
  Pmm, block_size, mark_run, mark_block_used, alloc_block, alloc_blocks, find_from_last,
}
use hal_os.Pmm.{validate_allocation_request, free_block, free_blocks, free_blocks_from}
use hal_os.Pmm.Inv.{IsValid}
use hal_os.Pmm.Alloc.{IsAllocated, alloc_block_lem}

free_blocks_from-same : (left p : ℕ) (s : Pmm) → free_blocks_from left p s ≡ s
unfolding free_blocks_from free_block
free_blocks_from-same zero p s = refl
free_blocks_from-same (suc left) p s = free_blocks_from-same left (u32 (p + block_size)) s

free_blocks-same : (p num : ℕ) (s : Pmm) → free_blocks p num s ≡ s
unfolding free_blocks
free_blocks-same p num s = ground (arith, free_blocks_from-same num p s)

-- a caller's calls of the two functions that take blocks back
pub data FreeCall : Type 0 where
  one : ℕ → FreeCall
  many : ℕ → ℕ → FreeCall

unfoldable pub run_frees : List FreeCall → Pmm → Pmm
run_frees [] s = s
run_frees (one p ∷ calls) s = run_frees calls (free_block p s)
run_frees (many p num ∷ calls) s = run_frees calls (free_blocks p num s)

run_frees-same : (calls : List FreeCall) (s : Pmm) → run_frees calls s ≡ s
unfolding run_frees free_block
run_frees-same [] s = refl
run_frees-same (one p ∷ calls) s = run_frees-same calls s
run_frees-same (many p num ∷ calls) s = rw (free_blocks-same p num s) (run_frees-same calls s)

leaks_at :
    (calls : List FreeCall) (s t : Pmm) (p block : ℕ)
    → IsValid s
    → IsAllocated s t p block
    → (is_used (run_frees calls t).memory_map block ≡ true)
      × ((run_frees calls t).used_blocks ≡ s.used_blocks + 1)
leaks_at calls s t p block v a = rw (run_frees-same calls t) (
  ground (arith, a.taken.bits block),
  ground (
    arith,
    v.counted,
    a.taken.valid.counted,
    a.taken.setup,
    a.is_first.in_range,
    a.is_first.is_free,
    count-add (is_used s.memory_map) (is_used t.memory_map) block s.max_blocks
        (λ c. ground (arith, a.taken.bits c)) a.is_first.is_free,
  ),
)

-- The block of a successful `pmm_alloc_block` stays in use, and the count of used blocks stays one
-- higher, whatever `pmm_free_block` and `pmm_free_blocks` are called with afterwards.
pub free-alloc_block_leaks :
    (calls : List FreeCall) (s : Pmm)
    → IsValid s
    → (alloc_block s).0 ≢ 0
    → (is_used (run_frees calls (alloc_block s).1).memory_map ((alloc_block s).0 / block_size)
        ≡ true)
      × ((run_frees calls (alloc_block s).1).used_blocks ≡ s.used_blocks + 1)
free-alloc_block_leaks calls s v ne = elim (alloc_block_lem s v) [
  | inr (null, _, _) ↦ absurd (ne null)
  | inl (block, a) ↦
      let its_block : (alloc_block s).0 / block_size ≡ block = omega (arith, a.address) in
      rw its_block (leaks_at calls s _ _ block v a)
]

first_pass : (free : ℕ → Bool) (top : ℕ) → free top ≡ true → scan free 2 1 top 0 0 ≡ missed 1 top
unfolding scan
first_pass free top f = ground arith

second_pass :
    (free : ℕ → Bool) (left first : ℕ)
    → free 0 ≡ true
    → scan free 2 (suc left) 0 1 first ≡ found first
unfolding scan
second_pass free left first f = ground arith

-- The second pass takes block 0 for the successor of the last block.
wrapped_search :
    (s : Pmm)
    → 2 ≤ s.max_blocks
    → s.last_alloc ≡ s.max_blocks - 1
    → is_used s.memory_map (s.max_blocks - 1) ≡ false
    → is_used s.memory_map 0 ≡ false
    → find_from_last 2 s ≡ found (s.max_blocks - 1)
unfolding find_from_last
wrapped_search s h last top bottom =
    let one_left : s.max_blocks - s.last_alloc ≡ 1 = omega arith in
    let many_left : s.max_blocks ≡ suc (s.max_blocks - 1) = omega arith in
    let free : ℕ → Bool = λ block. not (is_used s.memory_map block) in
    rw (one_left, last, first_pass free (s.max_blocks - 1) (rw top refl), find_from_last)
      (subst (λ n. scan free 2 n 0 1 (s.max_blocks - 1) ≡ found (s.max_blocks - 1)) (sym many_left)
        (second_pass free (s.max_blocks - 1) (s.max_blocks - 1) (rw bottom refl)))

-- what a request for two blocks does to such a state
pub record IsWrapped (s t : Pmm) (p : ℕ) : Type 0 where
  pub address : p ≡ (s.max_blocks - 1) * block_size
  pub outside : is_used t.memory_map s.max_blocks ≡ true
  pub low_free : is_used t.memory_map 0 ≡ false
  pub miscounted : ¬ IsValid t

run_of_two : (s : Pmm) (b : ℕ) → mark_run 2 b s ≡ mark_block_used (mark_block_used s b) (b + 1)
unfolding mark_run
run_of_two s b = refl

module _ (s : Pmm) (v : IsValid s) (enough : 2 ≤ s.max_blocks)
    (room : s.used_blocks + 2 ≤ s.max_blocks)
    (top_free : is_used s.memory_map (s.max_blocks - 1) ≡ false)
    (bottom_free : is_used s.memory_map 0 ≡ false) where
  abbrev top : ℕ
  top = s.max_blocks - 1

  abbrev once : ByteMap
  once = set_used s.memory_map top

  once_bits : (c : ℕ) → is_used once c ≡ (top == c || is_used s.memory_map c)
  once_bits = is_used-set_used s.memory_map v.bytes top

  twice_bits : (c : ℕ) → is_used (set_used once (top + 1)) c ≡ (top + 1 == c || is_used once c)
  twice_bits = is_used-set_used once (set_used-IsByteMap s.memory_map v.bytes top) (top + 1)

  twice_count :
      count (is_used (set_used once (top + 1))) s.max_blocks
      ≡ suc (count (is_used s.memory_map) s.max_blocks)
  twice_count = ground (
    arith,
    count_ext (is_used once) (is_used (set_used once (top + 1))) s.max_blocks
        (λ c lt. ground (arith, twice_bits c)),
    count-add (is_used s.memory_map) (is_used once) top s.max_blocks once_bits top_free,
  )

  abbrev marked : Pmm
  marked = record (mark_run 2 top s) { last_alloc = (top + 2) % s.max_blocks }

  marked-IsWrapped : IsWrapped s marked (u32 (top * block_size))
  unfolding mark_block_used
  marked-IsWrapped = rw (run_of_two s top) (record {
    address = omega (arith, v.small);
    outside = ground (arith, twice_bits s.max_blocks);
    low_free = ground (arith, twice_bits 0, once_bits 0);
    miscounted = λ w. omega (arith, w.counted, v.counted, twice_count, v.small);
  })

-- In every valid state whose next search starts at the last block, with that block and block 0
-- free, `pmm_alloc_blocks` for two blocks returns the address of the last block alone: it sets the
-- bit past the end of the memory, leaves block 0 free, and the count of used blocks is wrong from
-- then on.
pub alloc_blocks_wraps :
    (s : Pmm)
    → IsValid s
    → s.initialized ≡ true
    → 2 ≤ s.max_blocks
    → s.used_blocks + 2 ≤ s.max_blocks
    → s.last_alloc ≡ s.max_blocks - 1
    → is_used s.memory_map (s.max_blocks - 1) ≡ false
    → is_used s.memory_map 0 ≡ false
    → IsWrapped s (alloc_blocks 2 s).1 (alloc_blocks 2 s).0
alloc_blocks_wraps s v ready enough room last top_free bottom_free =
    rw enters (marked-IsWrapped s v enough room top_free bottom_free)
  where
    enters : alloc_blocks 2 s ≡ (
      u32 ((s.max_blocks - 1) * block_size),
      record (mark_run 2 (s.max_blocks - 1) s) {
        last_alloc = (s.max_blocks - 1 + 2) % s.max_blocks;
      },
    )
    enters =
        unfold alloc_blocks validate_allocation_request in
        ground (arith, v.small, wrapped_search s enough last top_free bottom_free)

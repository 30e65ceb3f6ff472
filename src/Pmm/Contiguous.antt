-- ===== src/Pmm/Contiguous.antt =====
-- `pmm_alloc_contiguous` and `pmm_free_contiguous` of src/mm/pmm.c.
use mathlib.Core.Path.{subst}
use native.Mathlib.Decide.{dec_lt}
use hal_os.Base.{ℕ, zero, suc, ◌+◌, ◌-◌, ◌*◌, ◌/◌, ◌≤◌, ◌<◌, Bool, true, false}
use hal_os.Base.{◌≡◌, ◌≢◌, ◌⊎◌, ◌↔◌, refl, arith, u32, inl, inr}
use hal_os.Base.{Option, none, some}
use hal_os.Bitmap.{is_used}
use hal_os.Bitmap.Count.{count_ext}
use hal_os.Bitmap.Search.{IsFreeRun, IsHit, search_from-some, search_from-none}
use hal_os.Pmm.{Pmm, block_size, mark_run, alloc_contiguous, find_contiguous_free_blocks}
use hal_os.Pmm.{is_block_free, free_run, free_contiguous, any_free}
use hal_os.Pmm.Inv.{IsValid, Claimed, Released}
use hal_os.Pmm.Alloc.{mark_run-Claimed, free_run-Released}

pub is_block_free_iff :
    (s : Pmm) (c : ℕ)
    → (is_block_free s c ≡ true) ↔ ((c < s.max_blocks) × (is_used s.memory_map c ≡ false))
unfolding is_block_free
is_block_free_iff s c = ground arith

-- a successful `pmm_alloc_contiguous`: the first run of free blocks that is long enough
pub record IsRunAllocated (num : ℕ) (s t : Pmm) (p start : ℕ) : Type 0 where
  pub address : p ≡ start * block_size
  pub is_first : IsHit (is_block_free s) s.max_blocks num 0 s.max_blocks start
  pub taken : Claimed start (start + num) s t

abbrev pub ContiguousEnds : ℕ → Pmm → ℕ × Pmm → Type 0
ContiguousEnds num s r =
    ((start : ℕ) × IsRunAllocated num s r.1 r.0 start)
    ⊎ ((r.0 ≡ 0) × (r.1 ≡ s) × ((c : ℕ) → ¬ IsFreeRun (is_block_free s) s.max_blocks num c))

alloc_contiguous-search :
    (num : ℕ) (s : Pmm)
    → 0 < num
    → num ≤ s.max_blocks
    → alloc_contiguous num s ≡ elim (find_contiguous_free_blocks s num) [
      | none ↦ (0, s)
      | some start ↦ (u32 (start * block_size), mark_run num start s)
    ]
unfolding alloc_contiguous
alloc_contiguous-search num s pos le = ground arith

alloc_contiguous-big : (num : ℕ) (s : Pmm) → s.max_blocks < num → alloc_contiguous num s ≡ (0, s)
unfolding alloc_contiguous
alloc_contiguous-big num s lt = ground arith

no_run_past_end :
    (free : ℕ → Bool) (max num c : ℕ) → 0 < num → max < c + num → ¬ IsFreeRun free max num c
no_run_past_end free max num c pos h run =
    omega (arith, run (c + num - 1) (omega arith) (omega arith))

hit-Claimed :
    (num : ℕ) (s : Pmm) (start : ℕ)
    → IsValid s
    → IsHit (is_block_free s) s.max_blocks num 0 s.max_blocks start
    → Claimed start (start + num) s (mark_run num start s)
hit-Claimed num s start v h =
    mark_run-Claimed num start (start + num) s v refl
      (λ c lo hi. (is_block_free_iff s c).0 ((h.run c lo hi).1))

-- In a valid state, `pmm_alloc_contiguous` for at least one block returns the start of the first run of that many
-- free blocks and takes exactly those; it returns NULL and changes nothing only if no such run
-- lies anywhere below `max_blocks`.
pub alloc_contiguous_lem :
    (num : ℕ) (s : Pmm) → IsValid s → 0 < num → ContiguousEnds num s (alloc_contiguous num s)
unfolding find_contiguous_free_blocks
alloc_contiguous_lem num s v pos = elim (dec_lt s.max_blocks num) [
  | yes big ↦
      rw (alloc_contiguous-big num s big)
        (inr (refl, refl, λ c. no_run_past_end _ s.max_blocks num c pos (omega arith)))
  | no fits ↦
      rw (alloc_contiguous-search num s pos (omega arith))
        (after (find_contiguous_free_blocks s num) refl)
]
  where
    after :
        (o : Option ℕ)
        → find_contiguous_free_blocks s num ≡ o
        → ContiguousEnds num s (elim o [
          | none ↦ (0, s)
          | some start ↦ (u32 (start * block_size), mark_run num start s)
        ])
    after none e = inr (
      refl,
      refl,
      λ c. elim (dec_lt c s.max_blocks) [
        | yes lt ↦
            search_from-none _ s.max_blocks num s.max_blocks 0 e pos c (omega arith) (omega arith)
        | no ge ↦ no_run_past_end _ s.max_blocks num c pos (omega arith)
      ],
    )
    after (some start) e =
        let h = search_from-some _ s.max_blocks num s.max_blocks 0 start e in
        inl (
          start,
          record {
            address = omega (arith, h.upper, v.small);
            is_first = h;
            taken = hit-Claimed num s start v h;
          },
        )

any_free-false :
    (left block : ℕ) (s : Pmm)
    → ((c : ℕ) → block ≤ c → c < block + left → is_used s.memory_map c ≡ true)
    → any_free s left block ≡ false
unfolding any_free is_block_free
any_free-false zero block s h = refl
any_free-false (suc left) block s h = ground (
  arith,
  h block (omega arith) (omega arith),
  any_free-false left (block + 1) s (λ c lo hi. h c (omega arith) (omega arith)),
)

any_free-true :
    (left block c : ℕ) (s : Pmm)
    → block ≤ c
    → c < block + left
    → is_block_free s c ≡ true
    → any_free s left block ≡ true
unfolding any_free
any_free-true zero block c s lo hi f = absurd (omega arith)
any_free-true (suc left) block c s lo hi f = elim (dec_lt block c) [
  | yes lt ↦ ground (arith, any_free-true left (block + 1) c s (omega arith) (omega arith) f)
  | no ge ↦ let e : c ≡ block = omega arith in ground arith
]

-- In a valid state, `pmm_free_contiguous` on a run that lies below `max_blocks`, is in use as a whole and is not
-- the run at address 0 frees exactly those blocks.
pub free_contiguous-Released :
    (ptr num : ℕ) (s : Pmm)
    → IsValid s
    → ptr ≢ 0
    → num ≢ 0
    → ptr / block_size + num ≤ s.max_blocks
    → ((c : ℕ) → ptr / block_size ≤ c → c < ptr / block_size + num → is_used s.memory_map c ≡ true)
    → Released (ptr / block_size) (ptr / block_size + num) s (free_contiguous ptr num s)
free_contiguous-Released ptr num s v p n fits used =
    rw enters (free_run-Released num _ _ s v refl (λ c lo hi. (omega arith, used c lo hi)))
  where
    enters : free_contiguous ptr num s ≡ free_run num (ptr / block_size) s
    enters =
        unfold free_contiguous in
        ground (arith, v.small, any_free-false num (ptr / block_size) s used)

-- A double free is refused: if one block of the run is free, nothing changes.
pub free_contiguous_refused :
    (ptr num c : ℕ) (s : Pmm)
    → ptr / block_size ≤ c
    → c < ptr / block_size + num
    → is_block_free s c ≡ true
    → free_contiguous ptr num s ≡ s
unfolding free_contiguous
free_contiguous_refused ptr num c s lo hi f =
    ground (arith, any_free-true num (ptr / block_size) c s lo hi f)

-- `u` has the bits and the count of `s`.
pub record IsSameUse (s u : Pmm) : Type 0 where
  pub bits : (c : ℕ) → is_used u.memory_map c ≡ is_used s.memory_map c
  pub count_same : u.used_blocks ≡ s.used_blocks

Released-after-Claimed :
    (lo hi : ℕ) (s t u : Pmm)
    → IsValid s
    → ((c : ℕ) → lo ≤ c → c < hi → is_used s.memory_map c ≡ false)
    → Claimed lo hi s t
    → Released lo hi t u
    → IsSameUse s u
Released-after-Claimed lo hi s t u v free a b = record { bits = same; count_same = counts }
  where
    same : (c : ℕ) → is_used u.memory_map c ≡ is_used s.memory_map c
    same c = ground (arith, a.bits c, b.bits c, free c)

    counts : u.used_blocks ≡ s.used_blocks
    counts = ground (
      arith,
      v.counted,
      b.valid.counted,
      a.setup,
      b.setup,
      count_ext (is_used s.memory_map) (is_used u.memory_map) s.max_blocks (λ c lt. same c),
    )

free-alloc_run :
    (num : ℕ) (s t : Pmm) (p start : ℕ)
    → IsValid s
    → 0 < num
    → p ≢ 0
    → IsRunAllocated num s t p start
    → IsSameUse s (free_contiguous p num t)
free-alloc_run num s t p start v pos ne r =
    Released-after-Claimed start (start + num) s t _ v free r.taken (
      subst (λ b. Released b (b + num) t (free_contiguous p num t)) at_start
        (free_contiguous-Released p num t r.taken.valid ne (omega arith) (rw at_start inside)
          (rw at_start (λ c lo hi. ground (arith, r.taken.bits c)))))
  where
    at_start : p / block_size ≡ start
    at_start = omega (arith, r.address)

    free : (c : ℕ) → start ≤ c → c < start + num → is_used s.memory_map c ≡ false
    free c lo hi = ((is_block_free_iff s c).0 ((r.is_first.run c lo hi).1)).1

    inside : start + num ≤ t.max_blocks
    inside = omega (
      arith,
      r.taken.setup.max_blocks,
      r.is_first.run (start + num - 1) (omega arith) (omega arith),
    )

-- In a valid state, freeing what `pmm_alloc_contiguous` returned for at least one block, if it is
-- not NULL, with its own block count, puts every bit of the
-- map and the count of used blocks back to what they were.
pub free-alloc_contiguous :
    (num : ℕ) (s : Pmm)
    → IsValid s
    → 0 < num
    → (alloc_contiguous num s).0 ≢ 0
    → IsSameUse s (free_contiguous (alloc_contiguous num s).0 num (alloc_contiguous num s).1)
free-alloc_contiguous num s v pos ne = elim (alloc_contiguous_lem num s v pos) [
  | inl (start, r) ↦ free-alloc_run num s _ _ start v pos ne r
  | inr (null, _, _) ↦ absurd (ne null)
]

-- ===== src/Bitmap/Scan.antt =====
-- The counting loop of `pmm_alloc_blocks` and `pmm_alloc_blocks_in_range` in src/mm/pmm.c, which
-- walks the blocks once and keeps the length of the free run that ends at the present one.
use mathlib.Core.Path.{subst}
use hal_os.Base.{ℕ, zero, suc, ◌+◌, ◌≤◌, ◌<◌, ◌==◌, Bool, true, false, if◌then◌else◌, ◌⊎◌, inl, inr}
use hal_os.Base.{◌≡◌, arith, Bool-cases}

-- How a pass ends: at a run's first block, or with the counters as the loop leaves them.
pub data Pass : Type 0 where
  found : ℕ → Pass
  missed : ℕ → ℕ → Pass

module _ (free : ℕ → Bool) (num : ℕ) where
  -- from `block`, with `left` blocks to go
  unfoldable pub scan : ℕ → ℕ → ℕ → ℕ → Pass
  scan zero block consecutive first = missed consecutive first
  scan (suc left) block consecutive first = elim (free block) [
    | true ↦
        let first' = if consecutive == 0 then block else first in
        elim (consecutive + 1 == num) [
          | true ↦ found first'
          | false ↦ scan left (block + 1) (consecutive + 1) first'
        ]
    | false ↦ scan left (block + 1) 0 first
  ]

  -- The counters describe a free run that ends just before `block`.
  pub record IsRun (block consecutive first : ℕ) : Type 0 where
    pub ends : (consecutive ≡ 0) ⊎ (first + consecutive ≡ block)
    pub all_free : (c : ℕ) → first ≤ c → c < first + consecutive → free c ≡ true

  pub IsRun-zero : (block first : ℕ) → IsRun block 0 first
  IsRun-zero block first = record {
    ends = inl (omega arith);
    all_free = λ c lo hi. absurd (omega arith);
  }

  next_first : ℕ → ℕ → ℕ → ℕ
  next_first block consecutive first = if consecutive == 0 then block else first

  IsRun-suc :
      (block consecutive first : ℕ)
      → IsRun block consecutive first
      → free block ≡ true
      → IsRun (block + 1) (consecutive + 1) (next_first block consecutive first)
  unfolding next_first
  IsRun-suc block zero first r f = record {
    ends = inr (omega arith);
    all_free = λ c lo hi. let e : c ≡ block = omega arith in ground arith;
  }
  IsRun-suc block (suc k) first r f = record {
    ends = inr (ground (arith, r.ends));
    all_free = λ c lo hi. ground (arith, r.ends, r.all_free c);
  }

  -- A hit is a free run of `num` blocks inside the blocks that the pass covers.
  pub record IsRunFound (stop k : ℕ) : Type 0 where
    pub upper : k + num ≤ stop
    pub run_free : (c : ℕ) → k ≤ c → c < k + num → free c ≡ true

  IsRun-found :
      (block consecutive first : ℕ)
      → IsRun (block + 1) (consecutive + 1) first
      → consecutive + 1 ≡ num
      → (stop : ℕ) → block < stop
      → IsRunFound stop first
  IsRun-found block consecutive first r e stop h = record {
    upper = ground (arith, r.ends);
    run_free = λ c lo hi. ground (arith, r.all_free c);
  }

  -- A pass that starts with true counters finds a free run among the blocks that it covers.
  pub scan-found :
      (left block consecutive first k : ℕ)
      → IsRun block consecutive first
      → scan left block consecutive first ≡ found k
      → IsRunFound (block + left) k
  unfolding scan next_first
  scan-found zero block consecutive first k r h = cc
  scan-found (suc left) block consecutive first k r h = elim (Bool-cases (free block)) [
    | inr used ↦
        subst (λ n. IsRunFound n k) (omega arith)
          (scan-found left (block + 1) 0 first k (IsRun-zero _ _) (ground arith))
    | inl f ↦ elim (Bool-cases (consecutive + 1 == num)) [
      | inl last ↦
          let e : next_first block consecutive first ≡ k = ground arith in
          subst (IsRunFound (block + suc left)) e (
            IsRun-found block consecutive _ (IsRun-suc block consecutive first r f) (ground arith) _
              (omega arith))
      | inr more ↦
          subst (λ n. IsRunFound n k) (omega arith)
            (scan-found left (block + 1) (consecutive + 1) (next_first block consecutive first) k
              (IsRun-suc block consecutive first r f) (ground arith))
    ]
  ]

  -- A pass that finds nothing and ends with a used block ends with the count at 0.
  pub scan-missed_used :
      (left block last consecutive first consecutive' first' : ℕ)
      → block + left ≡ last
      → free last ≡ false
      → scan (suc left) block consecutive first ≡ missed consecutive' first'
      → consecutive' ≡ 0
  unfolding scan
  scan-missed_used zero block last consecutive first c' f' e u h =
      let same : last ≡ block = omega arith in
      let u' : free block ≡ false = subst (λ n. free n ≡ false) same u in ground arith
  scan-missed_used (suc left) block last consecutive first c' f' e u h = ground (
    arith,
    scan-missed_used left (block + 1) last 0 first c' f' (omega arith) u,
    scan-missed_used left (block + 1) last (consecutive + 1) first c' f' (omega arith) u,
    scan-missed_used left (block + 1) last (consecutive + 1) block c' f' (omega arith) u,
  )

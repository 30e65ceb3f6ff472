-- ===== src/Bitmap/Search.antt =====
-- The two nested loops that look for consecutive free blocks in src/mm/pmm.c and src/mm/vmm.c.
use hal_os.Base.{ℕ, zero, suc, ◌+◌, ◌≤◌, ◌<◌, ◌==◌, Bool, true, false, not, ◌&&◌, ◌||◌}
use hal_os.Base.{Option, none, some, inl, inr}
use native.Mathlib.Decide.{dec_lt}
use mathlib.Core.Path.{subst}
use hal_os.Base.{◌≡◌, ◌↔◌, arith, leb, Bool-cases}

module _ (free : ℕ → Bool) (max num : ℕ) where
  -- `for (j = 0; j < num; j++) if (i + j >= max || !free(i + j)) break;` from `j` with `left`
  -- rounds to go: the value of `j` after the loop.
  unfoldable pub run_length : ℕ → ℕ → ℕ → ℕ
  run_length zero i j = j
  run_length (suc left) i j = elim (leb max (i + j) || not (free (i + j))) [
    | true ↦ j
    | false ↦ run_length left i (j + 1)
  ]

  -- `for (i = 0; i < max; i++) if (free(i)) { …; if (j == num) return i; } return -1;` from `i`
  -- with `left` rounds to go; `none` is the -1.
  unfoldable pub search_from : ℕ → ℕ → Option ℕ
  search_from zero i = none
  search_from (suc left) i = elim (free i && run_length num i 0 == num) [
    | true ↦ some i
    | false ↦ search_from left (i + 1)
  ]

  -- `num` numbers from `k` on, all free and below `max`
  abbrev pub IsFreeRun : ℕ → Type 0
  IsFreeRun k = (c : ℕ) → k ≤ c → c < k + num → (c < max) × (free c ≡ true)

  run_length-eq_of_run :
      (left i j : ℕ)
      → j + left ≡ num
      → ((c : ℕ) → i ≤ c → c < i + num → (c < max) × (free c ≡ true))
      → run_length left i j ≡ num
  unfolding run_length
  run_length-eq_of_run zero i j e h = omega arith
  run_length-eq_of_run (suc left) i j e h =
      ground (arith, h (i + j), run_length-eq_of_run left i (j + 1) (omega arith) h)

  run_of_run_length :
      (left i j : ℕ)
      → j + left ≡ num
      → run_length left i j ≡ num
      → (c : ℕ) → i + j ≤ c
      → c < i + num
      → (c < max) × (free c ≡ true)
  unfolding run_length
  run_of_run_length zero i j e r c lo hi = absurd (omega arith)
  run_of_run_length (suc left) i j e r c lo hi =
      elim (Bool-cases (leb max (i + j) || not (free (i + j)))) [
        | inl stop ↦ absurd (omega (arith, stopped stop))
        | inr go ↦ elim (dec_lt (i + j) c) [
          | yes lt ↦
              run_of_run_length left i (j + 1) (omega arith) (continued go) c (omega arith) hi
          | no ge ↦ at_start go c (omega arith)
        ]
      ]
    where
      stopped : (leb max (i + j) || not (free (i + j))) ≡ true → j ≡ num
      stopped t = ground arith

      continued : (leb max (i + j) || not (free (i + j))) ≡ false → run_length left i (j + 1) ≡ num
      continued t = ground arith

      at_start :
          (leb max (i + j) || not (free (i + j))) ≡ false
          → (c : ℕ) → c ≡ i + j
          → (c < max) × (free c ≡ true)
      at_start t c eq = ground arith

  -- The inner loop counts to `num` exactly where a free run starts.
  run_length_iff : (i : ℕ) → (run_length num i 0 ≡ num) ↔ IsFreeRun i
  run_length_iff i = (
    λ e c lo hi. run_of_run_length num i 0 (omega arith) e c (omega arith) hi,
    λ h. run_length-eq_of_run num i 0 (omega arith) h,
  )

  abbrev starts : ℕ → Bool
  starts i = free i && run_length num i 0 == num

  starts→IsFreeRun : (i : ℕ) → starts i ≡ true → IsFreeRun i
  starts→IsFreeRun i t = (run_length_iff i).0 (ground arith)

  IsFreeRun→starts : (i : ℕ) → 0 < num → IsFreeRun i → starts i ≡ true
  IsFreeRun→starts i pos h = ground (arith, (run_length_iff i).1 h, h i)

  -- What a hit is: a free run, and none starts before it.
  pub record IsHit (i left k : ℕ) : Type 0 where
    pub run : IsFreeRun k
    pub lower : i ≤ k
    pub upper : k < i + left
    pub free_first : free k ≡ true
    pub first : (c : ℕ) → i ≤ c → c < k → 0 < num → ¬ IsFreeRun c

  pub search_from-some : (left i k : ℕ) → search_from left i ≡ some k → IsHit i left k
  unfolding search_from
  search_from-some zero i k h = cc
  search_from-some (suc left) i k h = elim (Bool-cases (starts i)) [
    | inl t ↦ let same : i ≡ k = ground arith in subst (IsHit i (suc left)) same (here t)
    | inr f ↦ later f (search_from-some left (i + 1) k (ground arith))
  ]
    where
      here : starts i ≡ true → IsHit i (suc left) i
      here t = record {
        run = starts→IsFreeRun i t;
        lower = omega arith;
        upper = omega arith;
        free_first = ground arith;
        first = λ c lo hi. absurd (omega arith);
      }

      before :
          starts i ≡ false
          → IsHit (i + 1) left k
          → (c : ℕ) → i ≤ c
          → c < k
          → 0 < num
          → ¬ IsFreeRun c
      before f r c lo hi pos run = elim (dec_lt i c) [
        | yes lt ↦ r.first c (omega arith) hi pos run
        | no ge ↦
            let at_i : IsFreeRun i = subst IsFreeRun (omega arith) run in
            let t : starts i ≡ true = IsFreeRun→starts i pos at_i in cc
      ]

      later : starts i ≡ false → IsHit (i + 1) left k → IsHit i (suc left) k
      later f r = record {
        run = r.run;
        lower = omega arith;
        upper = omega arith;
        free_first = r.free_first;
        first = before f r;
      }

  -- What a miss means, for a request of at least one.
  pub search_from-none :
      (left i : ℕ)
      → search_from left i ≡ none
      → 0 < num
      → (c : ℕ) → i ≤ c
      → c < i + left
      → ¬ IsFreeRun c
  unfolding search_from
  search_from-none zero i h pos c lo hi run = absurd (omega arith)
  search_from-none (suc left) i h pos c lo hi run = elim (Bool-cases (starts i)) [
    | inl t ↦ ground arith
    | inr f ↦ elim (dec_lt i c) [
      | yes lt ↦ search_from-none left (i + 1) (ground arith) pos c (omega arith) (omega arith) run
      | no ge ↦
          let at_i : IsFreeRun i = subst IsFreeRun (omega arith) run in
          let t : starts i ≡ true = IsFreeRun→starts i pos at_i in cc
    ]
  ]

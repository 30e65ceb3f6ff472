-- ===== src/Fat/Chain.antt =====
-- What a chain of clusters of src/drivers/fat.c holds, and that leaving clusters keeps to it.
use hal_os.Base.{ℕ, zero, suc, ◌+◌, ◌-◌, ◌*◌, ◌^◌, ◌≤◌, ◌<◌}
use hal_os.Base.{◌≡◌, ◌≢◌, refl, arith, sym, ◌∙◌, ap, u32, sub32, length-append}
use hal_os.Base.{Option, some, List, [], ◌∷◌, ◌++◌, drop, length}
use hal_os.Fat.{Volume, cluster_to_sector, next_cluster, end_of_chain, advance_clusters}
use hal_os.Fat.Lists.{drop-append_ge}

-- the clusters that follow one another from `cluster` on, up to the one that ends the chain
abbrev pub IsChain : Volume → ℕ → List ℕ → Type 0
IsChain v cluster [] = cluster ≡ end_of_chain
IsChain v cluster (c ∷ cs) =
    (cluster ≡ c) × (cluster ≢ end_of_chain) × IsChain v (next_cluster v cluster) cs

-- `n` sectors from `base + i` on
abbrev pub sectors : (ℕ → List ℕ) → ℕ → ℕ → ℕ → List ℕ
sectors image zero base i = []
sectors image (suc n) base i = image (u32 (base + i)) ++ sectors image n base (suc i)

abbrev pub cluster_bytes : (ℕ → List ℕ) → Volume → ℕ → List ℕ
cluster_bytes image v c = sectors image v.sectors_per_cluster (cluster_to_sector v c) 0

abbrev pub content : (ℕ → List ℕ) → Volume → List ℕ → List ℕ
content image v [] = []
content image v (c ∷ cs) = cluster_bytes image v c ++ content image v cs

module _ (image : ℕ → List ℕ) (whole : (s : ℕ) → length (image s) ≡ 512) where
  pub length-sectors : (n base i : ℕ) → length (sectors image n base i) ≡ 512 * n
  length-sectors zero base i = refl
  length-sectors (suc n) base i = omega (
    arith,
    length-append (image (u32 (base + i))) (sectors image n base (suc i)),
    length-sectors n base (suc i),
    whole (u32 (base + i)),
  )

  pub drop-sectors :
      (k n base i : ℕ)
      → k ≤ n
      → drop (512 * k) (sectors image n base i) ≡ sectors image (n - k) base (i + k)
  drop-sectors zero n base i h =
      let e : i + 0 ≡ i = omega arith in let z : n - 0 ≡ n = omega arith in rw (e, z) refl
  drop-sectors (suc k) zero base i h = absurd (omega arith)
  drop-sectors (suc k) (suc n) base i h =
      let e : 512 * suc k ≡ length (image (u32 (base + i))) + 512 * k =
        omega (arith, whole (u32 (base + i))) in
      let f : suc i + k ≡ i + suc k = omega arith in
      let z : n - k ≡ suc n - suc k = omega arith in
      ap (λ m. drop m (image (u32 (base + i)) ++ sectors image n base (suc i))) e
      ∙ drop-append_ge (512 * k) (image (u32 (base + i))) (sectors image n base (suc i))
      ∙ drop-sectors k n base (suc i) (omega arith)
      ∙ ap (λ j. sectors image (n - k) base j) f
      ∙ ap (λ j. sectors image j base (i + suc k)) z

  -- a chain that has ended holds nothing
  pub ends :
      (v : Volume) (cluster : ℕ) (cs : List ℕ)
      → IsChain v cluster cs
      → cluster ≡ end_of_chain
      → 0 < length (content image v cs)
      → ⊥
  ends v cluster [] chain e lt = omega arith
  ends v cluster (c ∷ cs) chain e lt = chain.1 e

  step :
      (v : Volume) (n offset cluster : ℕ) {r : Option (ℕ × ℕ)}
      → next_cluster v cluster ≢ end_of_chain
      → sub32 offset v.cluster_size ≡ offset - v.cluster_size
      → advance_clusters v n (offset - v.cluster_size) (next_cluster v cluster) ≡ r
      → advance_clusters v (suc n) offset cluster ≡ r
  unfolding advance_clusters
  step v n offset cluster on lower h =
      ground (arith, on, ap (λ o. advance_clusters v n o (next_cluster v cluster)) lower ∙ h)

  -- Leaving `n` clusters of a chain leads to what the chain holds behind them.
  pub advance_clusters-content :
      (v : Volume) (n offset cluster : ℕ) (cs : List ℕ)
      → v.cluster_size ≡ 512 * v.sectors_per_cluster
      → IsChain v cluster cs
      → n * v.cluster_size ≤ offset
      → offset < length (content image v cs)
      → offset < 2 ^ 32
      → (c : ℕ) × (rest : List ℕ) × (advance_clusters v n offset cluster
          ≡ some (offset - n * v.cluster_size, c))
        × IsChain v c rest
        × (drop offset (content image v cs)
            ≡ drop (offset - n * v.cluster_size) (content image v rest))
        × (length (content image v rest) ≡ length (content image v cs) - n * v.cluster_size)
  unfolding advance_clusters
  advance_clusters-content v zero offset cluster cs size chain le lt small = (
    cluster,
    cs,
    ap (λ o. some (o, cluster)) (omega arith),
    chain,
    ap (λ o. drop o (content image v cs)) (omega arith),
    omega arith,
  )
  advance_clusters-content v (suc n) offset cluster [] size chain le lt small = absurd (omega arith)
  advance_clusters-content v (suc n) offset cluster (c ∷ cs) size chain le lt small =
      let first : length (cluster_bytes image v c) ≡ v.cluster_size =
        length-sectors v.sectors_per_cluster (cluster_to_sector v c) 0 ∙ sym size in
      let both = length-append (cluster_bytes image v c) (content image v cs) in
      let inner : v.cluster_size ≤ offset = omega arith in
      let lower : sub32 offset v.cluster_size ≡ offset - v.cluster_size = omega arith in
      let on : next_cluster v cluster ≢ end_of_chain =
        λ e. ends v (next_cluster v cluster) cs chain.2 e (omega (arith, first, both, lt, inner)) in
      let (d, rest, goes, linked, same, long) =
        advance_clusters-content v n (offset - v.cluster_size) (next_cluster v cluster) cs size
          chain.2 (omega arith) (omega (arith, first, both)) (omega arith) in
      (
        d,
        rest,
        step v n offset cluster on lower goes ∙ ap (λ o. some (o, d)) (omega arith),
        linked,
        ap (λ o. drop o (cluster_bytes image v c ++ content image v cs))
              (omega (arith, first, inner))
            ∙ drop-append_ge (offset - v.cluster_size) (cluster_bytes image v c)
                (content image v cs)
            ∙ same
            ∙ ap (λ o. drop o (content image v rest)) (omega arith),
        omega (arith, first, both, long),
      )

-- ===== src/Fat/Ends.antt =====
-- The loops of `fat32_read_file` of src/drivers/fat.c come to an end on any disk and any chain.
use mathlib.Core.Path.{subst}
use hal_os.Base.{ℕ, zero, suc, ◌+◌, ◌-◌, ◌*◌, ◌/◌, ◌%◌, ◌^◌, ◌≤◌, ◌<◌, ◌==◌, ltb, true, not, ◌&&◌}
use hal_os.Base.{◌≡◌, refl, arith, sym, ◌∙◌, ap, Bool-cases, Option-cases, inl, inr, u32, sub32}
use hal_os.Base.{Option, some, List}
use native.Mathlib.Nat.{div-mul-le_self, lt-div-mul-add}
use hal_os.Fat.{
  Volume, File, Progress, failed, complete, unfinished, bytes_to_read, cluster_to_sector,
  next_cluster, end_of_chain, advance_clusters, read_sectors, read_clusters, read_file, is_dir,
}

-- fewer bytes are left than `n`
abbrev pub LeavesBelow : ℕ → Progress → Type 0
LeavesBelow n failed = Unit {0}
LeavesBelow n complete = Unit {0}
LeavesBelow n (unfinished left) = left < n

LeavesBelow-mono : (n m : ℕ) (p : Progress) → n ≤ m → LeavesBelow n p → LeavesBelow m p
LeavesBelow-mono n m failed le h = tt
LeavesBelow-mono n m complete le h = tt
LeavesBelow-mono n m (unfinished left) le h = omega arith

-- all is done, or it is an error
abbrev pub IsEnded : Progress → Type 0
IsEnded failed = Unit {0}
IsEnded complete = Unit {0}
IsEnded (unfinished left) = ⊥

-- the offset behind the clusters that are left
advance_clusters-offset :
    (v : Volume) (n offset cluster offset' c : ℕ)
    → n * v.cluster_size ≤ offset
    → offset < 2 ^ 32
    → advance_clusters v n offset cluster ≡ some (offset', c)
    → offset' ≡ offset - n * v.cluster_size
unfolding advance_clusters
advance_clusters-offset v zero offset cluster offset' c le small h = ground (arith, h)
advance_clusters-offset v (suc n) offset cluster offset' c le small h =
    elim (Bool-cases (next_cluster v cluster == end_of_chain)) [
      | inl last ↦ absurd (ground (arith, last, h))
      | inr on ↦
          let lower : sub32 offset v.cluster_size ≡ offset - v.cluster_size = omega arith in
          omega (
            arith,
            advance_clusters-offset v n (offset - v.cluster_size) (next_cluster v cluster) offset' c
                (omega arith) (omega arith)
                (ap (λ o. advance_clusters v n o (next_cluster v cluster)) (sym lower)
                  ∙ ground (arith, on, h)),
          )
    ]

module _ (disk : ℕ → Option (List ℕ)) where
  -- A sector takes one byte at least, if what is behind it takes none back.
  read_sectors-step :
      (n base i offset left : ℕ)
      → left < 2 ^ 31
      → ((left' : ℕ)
          → left' < 2 ^ 31
          → LeavesBelow (suc left') (read_sectors disk n base (suc i) 0 left').1)
      → LeavesBelow left (read_sectors disk (suc n) base i offset left).1
  unfolding read_sectors
  read_sectors-step n base i offset left small more = elim (Option-cases (disk (u32 (base + i)))) [
    | inl bad ↦ rw (read_sectors, bad) tt
    | inr (sector, good) ↦ elim (Bool-cases (left - count == 0)) [
      | inl done ↦ rw (read_sectors, good, done) tt
      | inr on ↦
          rw (read_sectors, good, on)
            (LeavesBelow-mono (suc (left - count)) left _ (ground (arith, on))
              (more (left - count) (omega arith)))
    ]
  ]
    where
      count : ℕ
      count = bytes_to_read left (offset % 512)

  read_sectors-LeavesBelow :
      (n base i offset left : ℕ)
      → left < 2 ^ 31
      → LeavesBelow (suc left) (read_sectors disk n base i offset left).1
  unfolding read_sectors
  read_sectors-LeavesBelow zero base i offset left small = omega arith
  read_sectors-LeavesBelow (suc n) base i offset left small =
      LeavesBelow-mono left (suc left) _ (omega arith) (
        read_sectors-step n base i offset left small
          (λ left' lt. read_sectors-LeavesBelow n base (suc i) 0 left' lt))

  read_clusters-IsEnded :
      (fuel : ℕ) (v : Volume) (cluster offset left : ℕ)
      → offset / 512 < v.sectors_per_cluster
      → left < 2 ^ 31
      → left < fuel
      → IsEnded (read_clusters disk fuel v cluster offset left).1
  unfolding read_clusters
  read_clusters-IsEnded zero v cluster offset left inside small lt = absurd (omega arith)
  read_clusters-IsEnded (suc fuel) v cluster offset left inside small lt =
      go (read_sectors disk (v.sectors_per_cluster - offset / 512) base (offset / 512) offset left)
        refl
        (λ left' less.
          read_clusters-IsEnded fuel v (next_cluster v cluster) 0 left' (omega arith) (omega arith)
            (omega arith))
    where
      base : ℕ
      base = cluster_to_sector v cluster

      k : ℕ
      k = v.sectors_per_cluster - offset / 512 - 1

      below :
          LeavesBelow left
            (read_sectors disk
              (v.sectors_per_cluster - offset / 512)
              base
              (offset / 512)
              offset
              left).1
      below =
          let e : v.sectors_per_cluster - offset / 512 ≡ suc k = omega arith in
          rw e (
            read_sectors-step k base (offset / 512) offset left small
              (λ left' less. read_sectors-LeavesBelow k base (suc (offset / 512)) 0 left' less))

      go :
          (p : List ℕ × Progress)
          → read_sectors disk (v.sectors_per_cluster - offset / 512) base (offset / 512) offset left
            ≡ p
          → ((left' : ℕ)
              → left' < left
              → IsEnded (read_clusters disk fuel v (next_cluster v cluster) 0 left').1)
          → IsEnded (read_clusters disk (suc fuel) v cluster offset left).1
      go (bs, failed) e more = rw (read_clusters, e) tt
      go (bs, complete) e more = rw (read_clusters, e) tt
      go (bs, unfinished left') e more =
          let less : left' < left = subst (LeavesBelow left) (ap (λ p. p.1) e) below in
          elim (Bool-cases (next_cluster v cluster == end_of_chain)) [
            | inl last ↦ rw (read_clusters, e, last) tt
            | inr on ↦
                let test : ltb (offset / 512) v.sectors_per_cluster ≡ true =
                  ground (arith, inside) in
                rw (read_clusters, e, on, test) (more left' less)
          ]

  -- On any disk and any table, `fat32_read_file` comes to an end, and so never runs out of the fuel of
  -- the model: the sizes are below 2 ^ 31, and a cluster has one sector at least.
  pub read_file-IsEnded :
      (v : Volume) (file : File) (offset size : ℕ)
      → v.cluster_size ≡ 512 * v.sectors_per_cluster
      → 0 < v.sectors_per_cluster
      → size < 2 ^ 31
      → offset < 2 ^ 31
      → IsEnded (read_file disk v file offset size).1
  unfolding read_file
  read_file-IsEnded v file offset size clusters some_sectors small low =
      let less : offset < offset / v.cluster_size * v.cluster_size + v.cluster_size =
        lt-div-mul-add (omega (arith, clusters)) in
      elim (Bool-cases (ltb file.size (u32 (offset + size)) && not (is_dir file.attrib))) [
        | inl beyond ↦ rw beyond tt
        | inr inside ↦
            rw inside
              (elim (Option-cases
                (advance_clusters v (offset / v.cluster_size) offset file.cluster)) [
                  | inl broken ↦ rw broken tt
                  | inr ((offset', c), goes) ↦
                      let at : offset' ≡ offset - offset / v.cluster_size * v.cluster_size =
                        advance_clusters-offset v (offset / v.cluster_size) offset file.cluster
                          offset' c (div-mul-le_self offset v.cluster_size) (omega arith) goes in
                      rw goes (
                        read_clusters-IsEnded (suc size) v c offset' size
                          (omega (arith, at, less, clusters)) small (omega arith))
                ])
      ]

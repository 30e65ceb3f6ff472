-- ===== src/Fat/Content.antt =====
-- `fat32_read_file` of src/drivers/fat.c reads what the file's chain of clusters holds.
use native.Mathlib.Nat.{div-mul-le_self, lt-div-mul-add}
use hal_os.Base.{ℕ, zero, suc, ◌+◌, ◌-◌, ◌*◌, ◌/◌, ◌%◌, ◌^◌, ◌≤◌, ◌<◌, leb}
use hal_os.Base.{◌≡◌, ◌≢◌, arith, sym, ◌∙◌, ap, Bool-cases, inl, inr, u32, length-append}
use hal_os.Base.{Option, some, List, [], ◌∷◌, ◌++◌, take, drop, length}
use hal_os.Fat.{
  Volume, File, complete, unfinished, cluster_to_sector, next_cluster, end_of_chain,
  advance_clusters, read_sectors, read_clusters, read_file,
}
use hal_os.Fat.Lists.{
  drop-append_le, take-append_le, take-append_ge, take-all, length-drop, drop-drop,
}
use hal_os.Fat.Sectors.{outcome, Reads, read_sectors-Reads}
use hal_os.Fat.Chain.{
  IsChain, sectors, cluster_bytes, content, length-sectors, drop-sectors, advance_clusters-content,
  ends,
}

-- a disk that can be read
module _ (disk : ℕ → Option (List ℕ)) (image : ℕ → List ℕ)
    (reads : (s : ℕ) → disk s ≡ some (image s)) (whole : (s : ℕ) → length (image s) ≡ 512) where
  -- a cluster that the bytes end in, and one that is read to its end
  read_clusters-last :
      (fuel : ℕ) (v : Volume) (cluster offset left : ℕ) (bs : List ℕ)
      → read_sectors disk
          (v.sectors_per_cluster - offset / 512)
          (cluster_to_sector v cluster)
          (offset / 512)
          offset
          left
        ≡ (bs, complete)
      → read_clusters disk (suc fuel) v cluster offset left ≡ (bs, complete)
  unfolding read_clusters
  read_clusters-last fuel v cluster offset left bs e = ground (arith, e)

  read_clusters-more :
      (fuel : ℕ) (v : Volume) (cluster offset left left' : ℕ) (bs : List ℕ)
      → read_sectors disk
          (v.sectors_per_cluster - offset / 512)
          (cluster_to_sector v cluster)
          (offset / 512)
          offset
          left
        ≡ (bs, unfinished left')
      → next_cluster v cluster ≢ end_of_chain
      → offset / 512 < v.sectors_per_cluster
      → read_clusters disk (suc fuel) v cluster offset left ≡ (
        bs ++ (read_clusters disk fuel v (next_cluster v cluster) 0 left').0,
        (read_clusters disk fuel v (next_cluster v cluster) 0 left').1,
      )
  unfolding read_clusters
  read_clusters-more fuel v cluster offset left left' bs e on inside = ground (arith, e, on, inside)

  -- what the loop reads of a cluster
  cluster-Reads :
      (v : Volume) (c offset left : ℕ)
      → offset < 512 * v.sectors_per_cluster
      → 0 < left
      → left < 2 ^ 31
      → Reads (drop offset (cluster_bytes image v c)) left (
          read_sectors disk
            (v.sectors_per_cluster - offset / 512)
            (cluster_to_sector v c)
            (offset / 512)
            offset
            left)
  cluster-Reads v c offset left inside pos small =
      let base = cluster_to_sector v c in
      let k : offset / 512 ≤ v.sectors_per_cluster = omega arith in
      let whole_offset : 512 * (offset / 512) + offset % 512 ≡ offset = omega arith in
      let at_start : offset / 512 ≡ 0 + offset / 512 = omega arith in
      let same : drop (offset % 512)
            (sectors image (v.sectors_per_cluster - offset / 512) base (offset / 512))
          ≡ drop offset (cluster_bytes image v c) =
        ap (λ i. drop (offset % 512) (sectors image (v.sectors_per_cluster - offset / 512) base i))
          at_start
        ∙ ap (drop (offset % 512))
            (sym (drop-sectors image whole (offset / 512) v.sectors_per_cluster base 0 k))
        ∙ drop-drop (offset % 512) (512 * (offset / 512)) (cluster_bytes image v c)
        ∙ ap (λ n. drop n (cluster_bytes image v c)) whole_offset in
      read_sectors-Reads disk image reads whole (v.sectors_per_cluster - offset / 512) base
        (offset / 512) offset left pos small
      ∙ ap (λ bs. (take left bs, outcome left (length bs))) same

  read_clusters-content :
      (fuel : ℕ) (v : Volume) (cluster offset left : ℕ) (cs : List ℕ)
      → IsChain v cluster cs
      → offset < 512 * v.sectors_per_cluster
      → 0 < left
      → left < 2 ^ 31
      → left ≤ fuel
      → offset + left ≤ length (content image v cs)
      → read_clusters disk fuel v cluster offset left
        ≡ (take left (drop offset (content image v cs)), complete)
  read_clusters-content zero v cluster offset left cs chain inside pos small enough fits =
      absurd (omega arith)
  read_clusters-content (suc fuel) v cluster offset left [] chain inside pos small enough fits =
      absurd (omega arith)
  read_clusters-content (suc fuel) v cluster offset left (c ∷ cs) chain inside pos small enough
        fits =
      rw parts (elim (Bool-cases (leb left (length front))) [
        | inl ends_here ↦
            read_clusters-last fuel v cluster offset left (take left front)
              (read ∙ ap (λ p. (take left front, p)) (ground (arith, ends_here)))
            ∙ ap (λ bs. (bs, complete))
                (sym (take-append_le left front (content image v cs) (ground (arith, ends_here))))
        | inr goes_on ↦
            let longer : length front < left = ground (arith, goes_on) in
            let size : length front ≡ 512 * v.sectors_per_cluster - offset =
              length-drop offset (cluster_bytes image v c) ∙ ap (λ n. n - offset) full in
            let both = length-append (cluster_bytes image v c) (content image v cs) in
            let rest =
              read_clusters-content fuel v (next_cluster v cluster) 0 (left - length front) cs
                chain.2 (omega arith) (omega arith) (omega arith) (omega (arith, size))
                (omega (arith, size, both, full)) in
            read_clusters-more fuel v cluster offset left (left - length front) front
              (read
                ∙ ap (λ p. (take left front, p)) (ground (arith, goes_on))
                ∙ ap (λ bs. (bs, unfinished (left - length front)))
                    (take-all left front (omega arith)))
              (λ e.
                ends image whole v (next_cluster v cluster) cs chain.2 e
                  (omega (arith, size, both, full)))
              (omega arith)
            ∙ ap (λ r. (front ++ r.0, r.1)) rest
            ∙ ap (λ bs. (bs, complete))
                (sym (take-append_ge left front (content image v cs) (omega arith)))
      ])
    where
      front : List ℕ
      front = drop offset (cluster_bytes image v c)

      read :
          read_sectors disk
            (v.sectors_per_cluster - offset / 512)
            (cluster_to_sector v cluster)
            (offset / 512)
            offset
            left
          ≡ (take left front, outcome left (length front))
      read =
          ap
            (λ k.
              read_sectors disk (v.sectors_per_cluster - offset / 512) (cluster_to_sector v k)
                (offset / 512) offset left)
            chain.0
          ∙ cluster-Reads v c offset left inside pos small

      full : length (cluster_bytes image v c) ≡ 512 * v.sectors_per_cluster
      full = length-sectors image whole v.sectors_per_cluster (cluster_to_sector v c) 0

      parts :
          drop offset (cluster_bytes image v c ++ content image v cs) ≡ front ++ content image v cs
      parts =
          drop-append_le offset (cluster_bytes image v c) (content image v cs) (omega (arith, full))

  -- the clusters in front of the offset left behind
  read_file-clusters :
      (v : Volume) (file : File) (offset size offset' c : ℕ)
      → size < 2 ^ 31
      → offset < 2 ^ 31
      → offset + size ≤ file.size
      → advance_clusters v (offset / v.cluster_size) offset file.cluster ≡ some (offset', c)
      → read_file disk v file offset size ≡ read_clusters disk (suc size) v c offset' size
  unfolding read_file
  read_file-clusters v file offset size offset' c small low inside goes =
      let exact : u32 (offset + size) ≡ offset + size = omega arith in
      ground (arith, exact, inside, goes)

  -- On a disk that can be read, `fat32_read_file` copies the bytes from `offset` on that the chain of
  -- the file holds, as many as are asked for, and says that it has: the sizes are below 2 ^ 31, the
  -- bytes lie within the file and its chain, and one byte at least is asked for.
  pub read_file-content :
      (v : Volume) (file : File) (offset size : ℕ) (cs : List ℕ)
      → v.cluster_size ≡ 512 * v.sectors_per_cluster
      → 0 < v.sectors_per_cluster
      → IsChain v file.cluster cs
      → 0 < size
      → size < 2 ^ 31
      → offset < 2 ^ 31
      → offset + size ≤ file.size
      → offset + size ≤ length (content image v cs)
      → read_file disk v file offset size ≡ (take size (drop offset (content image v cs)), complete)
  read_file-content v file offset size cs clusters some_sectors chain pos small low inside fits =
      let (c, rest, goes, linked, same, long) =
        advance_clusters-content image whole v (offset / v.cluster_size) offset file.cluster cs
          clusters chain (div-mul-le_self offset v.cluster_size) (omega arith) (omega arith) in
      let less : offset < offset / v.cluster_size * v.cluster_size + v.cluster_size =
        lt-div-mul-add (omega (arith, clusters)) in
      let within = div-mul-le_self offset v.cluster_size in
      read_file-clusters v file offset size (offset - offset / v.cluster_size * v.cluster_size) c
        small low inside goes
      ∙ read_clusters-content (suc size) v c (offset - offset / v.cluster_size * v.cluster_size)
          size rest linked (omega (arith, less, clusters)) pos small (omega arith)
          (omega (arith, long, within))
      ∙ ap (λ bs. (take size bs, complete)) (sym same)

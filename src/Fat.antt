-- ===== src/Fat.antt =====
-- src/drivers/fat.c: reading files and directories of a FAT32 volume. `disk` is what a sector holds,
-- 512 bytes, or `none` where reading it fails; `fat` is the table in memory, by cluster.
pub mod Lists
pub mod Chain
pub mod Sectors
pub mod Content
pub mod Ends
pub mod Names
use Prim.Native.Nat.{bit_and}
use hal_os.Base.{
  ℕ, zero, suc, ◌+◌, ◌-◌, ◌*◌, ◌/◌, ◌%◌, ◌^◌, ◌==◌, ltb, leb, Bool, true, false, not, ◌&&◌, ◌||◌,
  if◌then◌else◌,
}
use hal_os.Base.{u32, sub32, Option, none, some, List, [], ◌∷◌, ◌++◌, take, drop, get_or}

-- `FAT32_File`, without `offset`, which no code uses
pub record File : Type 0 where
  pub attrib : ℕ
  pub cluster : ℕ
  pub size : ℕ

-- what the code reads of a `FAT32_Volume`
pub record Volume : Type 0 where
  pub sectors_per_cluster : ℕ
  pub root_cluster : ℕ
  pub data_start_sector : ℕ
  pub cluster_size : ℕ
  pub fat : ℕ → ℕ

-- `FAT32_DirList`
pub record DirList : Type 0 where
  pub cluster : ℕ
  pub entry : ℕ
  pub sector_buffer : List ℕ
  pub buffered_sector : ℕ

-- how far a loop over sectors came: an error, the last byte, or the bytes that are left
pub data Progress : Type 0 where
  failed complete : Progress
  unfinished : ℕ → Progress

-- `attrib & FAT32_IS_DIR`
abbrev pub is_dir : ℕ → Bool
is_dir attrib = not (bit_and attrib 0x10 == 0)

abbrev pub end_of_chain : ℕ
end_of_chain = 0xFFFFFF

unfoldable pub cluster_to_sector : Volume → ℕ → ℕ
cluster_to_sector v cluster =
    u32 (v.data_start_sector + u32 (sub32 cluster 2 * v.sectors_per_cluster))

-- `volume->fat[cluster] & 0xFFFFFF`
abbrev pub next_cluster : Volume → ℕ → ℕ
next_cluster v cluster = v.fat cluster % 2 ^ 24

-- the loop that leaves the clusters in front of `offset`
unfoldable pub advance_clusters : Volume → ℕ → ℕ → ℕ → Option (ℕ × ℕ)
advance_clusters v zero offset cluster = some (offset, cluster)
advance_clusters v (suc n) offset cluster = elim (next_cluster v cluster == end_of_chain) [
  | true ↦ none
  | false ↦ advance_clusters v n (sub32 offset v.cluster_size) (next_cluster v cluster)
]

-- `bytes_to_read`
abbrev pub bytes_to_read : ℕ → ℕ → ℕ
bytes_to_read left offset = if ltb 512 (u32 (left + offset)) then 512 - offset else left

module _ (disk : ℕ → Option (List ℕ)) where
  -- the `for` loop from the sector `base + i` on, with the bytes that it copies
  unfoldable pub read_sectors : ℕ → ℕ → ℕ → ℕ → ℕ → List ℕ × Progress
  read_sectors zero base i offset left = ([], unfinished left)
  read_sectors (suc n) base i offset left = elim (disk (u32 (base + i))) [
    | none ↦ ([], failed)
    | some sector ↦
        let count = bytes_to_read left (offset % 512) in
        let got = take count (drop (offset % 512) sector) in
        let more = read_sectors n base (suc i) 0 (left - count) in
        if left - count == 0 then (got, complete) else (got ++ more.0, more.1)
  ]

  -- The `while` loop, a cluster for each unit of fuel. A cluster from which nothing is read leaves
  -- the offset as it is.
  unfoldable pub read_clusters : ℕ → Volume → ℕ → ℕ → ℕ → List ℕ × Progress
  read_clusters zero v cluster offset left = ([], unfinished left)
  read_clusters (suc fuel) v cluster offset left =
      let r =
        read_sectors (v.sectors_per_cluster - offset / 512) (cluster_to_sector v cluster)
          (offset / 512) offset left in
      elim r.1 [
        | failed ↦ (r.0, failed)
        | complete ↦ (r.0, complete)
        | unfinished left' ↦
            let more =
              read_clusters fuel v (next_cluster v cluster)
                (if ltb (offset / 512) v.sectors_per_cluster then 0 else offset) left' in
            if next_cluster v cluster == end_of_chain
            then (r.0, failed)
            else (r.0 ++ more.0, more.1)
      ]

  -- The bytes that are put in the buffer, and how the call ends: `true` is `complete`. Each cluster
  -- gives one byte at least, so that one unit of fuel more than there are bytes is enough.
  unfoldable pub read_file : Volume → File → ℕ → ℕ → List ℕ × Progress
  read_file v file offset size =
      if ltb file.size (u32 (offset + size)) && not (is_dir file.attrib)
      then ([], failed)
      else elim (advance_clusters v (offset / v.cluster_size) offset file.cluster) [
        | none ↦ ([], failed)
        | some (offset', cluster) ↦ read_clusters (suc size) v cluster offset' size
      ]

  -- Listing something else than a directory leaves the list as it was.
  unfoldable pub list_dir : File → DirList → DirList
  list_dir dir list =
      if not (is_dir dir.attrib)
      then list
      else record list { cluster = dir.cluster; entry = 0; buffered_sector = 0 }

  -- the cluster that the next entry lies in: `false` at the end of the chain
  unfoldable pub enter_cluster : Volume → DirList → Bool × DirList
  enter_cluster v list =
      if not (leb (v.cluster_size / 32) list.entry)
      then (true, list)
      else if next_cluster v list.cluster == end_of_chain
      then (false, record list { cluster = end_of_chain })
      else (true, record list { cluster = next_cluster v list.cluster; entry = 0 })

  -- the sector of the next entry, from the buffer if it is there
  unfoldable pub buffer_sector : ℕ → DirList → Bool × DirList
  buffer_sector sector list =
      if list.buffered_sector == sector then (true, list) else elim (disk sector) [
        | none ↦ (false, list)
        | some bytes ↦ (true, record list { sector_buffer = bytes; buffered_sector = sector })
      ]

  -- the 32 bytes of the next entry
  abbrev pub entry_bytes : DirList → List ℕ
  entry_bytes list = take 32 (drop (list.entry % 16 * 32) list.sector_buffer)

  unfoldable pub read_next_entry : Volume → DirList → Option (List ℕ) × DirList
  read_next_entry v list =
      let (inside, entered) = enter_cluster v list in
      let (read, buffered) =
        buffer_sector (u32 (cluster_to_sector v entered.cluster + entered.entry / 16)) entered in
      if not inside then (none, entered) else if not read then (none, buffered) else (
        if get_or (entry_bytes buffered) 0 0 == 0 then none else some (entry_bytes buffered),
        record buffered { entry = u32 (buffered.entry + 1) },
      )

-- ===== src/Fat/Sectors.antt =====
-- The loop over the sectors of a cluster in `fat32_read_file` of src/drivers/fat.c.

use hal_os.Base.{ℕ, zero, suc, ◌+◌, ◌-◌, ◌%◌, ◌^◌, ◌≤◌, ◌<◌, ltb, leb, if◌then◌else◌}
use hal_os.Base.{◌≡◌, arith, sym, ◌∙◌, ap, Bool-cases, inl, inr, u32, length-append}
use hal_os.Base.{Option, some, List, [], ◌++◌, take, drop, length}
use hal_os.Fat.{Progress, complete, unfinished, read_sectors}
use hal_os.Fat.Lists.{
  drop-append_le, take-append_le, take-append_ge, take-all, length-drop, drop-nil,
}
use hal_os.Fat.Chain.{sectors}

-- how the loops end that read `left` bytes of what has `size` bytes
abbrev pub outcome : ℕ → ℕ → Progress
outcome left size = if leb left size then complete else unfinished (left - size)

-- `r` has read `left` bytes of the list, or all of it where it has fewer.
abbrev pub Reads : List ℕ → ℕ → List ℕ × Progress → Type 0
Reads bs left r = r ≡ (take left bs, outcome left (length bs))

pub fits-Reads :
    (xs ys : List ℕ) (left : ℕ) → left ≤ length xs → Reads (xs ++ ys) left (take left xs, complete)
fits-Reads xs ys left h =
    let t : take left (xs ++ ys) ≡ take left xs = take-append_le left xs ys h in
    rw t (ground (arith, h, length-append xs ys))

pub passes-Reads :
    (xs ys : List ℕ) (left : ℕ) (r : List ℕ × Progress)
    → length xs < left
    → Reads ys (left - length xs) r
    → Reads (xs ++ ys) left (xs ++ r.0, r.1)
passes-Reads xs ys left r h e =
    let t : take left (xs ++ ys) ≡ xs ++ take (left - length xs) ys =
      take-append_ge left xs ys (omega (arith, h)) in
    rw (t, e) (ground (arith, h, length-append xs ys))

-- a disk that can be read
module _ (disk : ℕ → Option (List ℕ)) (image : ℕ → List ℕ)
    (reads : (s : ℕ) → disk s ≡ some (image s)) (whole : (s : ℕ) → length (image s) ≡ 512) where
  -- the last sector, and one that is read to its end
  read_sectors-last :
      (n base i offset left : ℕ)
      → left < 2 ^ 31
      → left + offset % 512 ≤ 512
      → read_sectors disk (suc n) base i offset left
        ≡ (take left (drop (offset % 512) (image (u32 (base + i)))), complete)
  unfolding read_sectors
  read_sectors-last n base i offset left small short =
      let exact : u32 (left + offset % 512) ≡ left + offset % 512 = omega arith in
      ground (arith, reads (u32 (base + i)), exact, short)

  read_sectors-more :
      (n base i offset left : ℕ)
      → left < 2 ^ 31
      → 512 < left + offset % 512
      → read_sectors disk (suc n) base i offset left ≡ (
        take (512 - offset % 512) (drop (offset % 512) (image (u32 (base + i))))
            ++ (read_sectors disk n base (suc i) 0 (left - (512 - offset % 512))).0,
        (read_sectors disk n base (suc i) 0 (left - (512 - offset % 512))).1,
      )
  unfolding read_sectors
  read_sectors-more n base i offset left small long =
      let exact : u32 (left + offset % 512) ≡ left + offset % 512 = omega arith in
      ground (arith, reads (u32 (base + i)), exact, long)

  nothing : (bs : List ℕ) (left : ℕ) → bs ≡ [] → 0 < left → Reads bs left ([], unfinished left)
  nothing bs left e pos = rw e (ground (arith, pos, take-all left [] (omega arith)))

  pub read_sectors-Reads :
      (n base i offset left : ℕ)
      → 0 < left
      → left < 2 ^ 31
      → Reads
          (drop (offset % 512) (sectors image n base i))
          left
          (read_sectors disk n base i offset left)
  unfolding read_sectors
  read_sectors-Reads zero base i offset left pos small =
      nothing (drop (offset % 512) []) left (drop-nil (offset % 512)) pos
  read_sectors-Reads (suc n) base i offset left pos small =
      elim (Bool-cases (ltb 512 (left + offset % 512))) [
        | inl long ↦
            read_sectors-more n base i offset left small (ground (arith, long))
            ∙ ap (λ bs. (bs ++ more.0, more.1))
                (take-all (512 - o) (drop o sector) (omega (arith, front)))
            ∙ passes-Reads (drop o sector) (sectors image n base (suc i)) left more
                (ground (arith, long, front))
                (rw front (
                  read_sectors-Reads n base (suc i) 0 (left - (512 - o)) (ground (arith, long))
                    (omega arith)))
            ∙ ap (λ bs. (take left bs, outcome left (length bs))) (sym parts)
        | inr short ↦
            read_sectors-last n base i offset left small (ground (arith, short))
            ∙ fits-Reads (drop o sector) (sectors image n base (suc i)) left
                (ground (arith, short, front))
            ∙ ap (λ bs. (take left bs, outcome left (length bs))) (sym parts)
      ]
    where
      o : ℕ
      o = offset % 512

      more : List ℕ × Progress
      more = read_sectors disk n base (suc i) 0 (left - (512 - o))

      sector : List ℕ
      sector = image (u32 (base + i))

      parts :
          drop o (sector ++ sectors image n base (suc i))
          ≡ drop o sector ++ sectors image n base (suc i)
      parts =
          drop-append_le o sector (sectors image n base (suc i))
            (omega (arith, whole (u32 (base + i))))

      front : length (drop o sector) ≡ 512 - o
      front = length-drop o sector ∙ ap (λ n. n - o) (whole (u32 (base + i)))

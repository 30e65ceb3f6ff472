-- ===== src/Pmm/Region.antt =====
-- `pmm_mark_used_region`, `pmm_mark_unused_region` and `pmm_init` of src/mm/pmm.c.
use hal_os.Base.{ℕ, ◌+◌, ◌/◌, ◌%◌, ◌<◌, Bool, true, false, ◌||◌, ◌-◌, ◌*◌, ◌≤◌, ◌^◌, ◌&&◌, ltb}
use hal_os.Base.{◌≡◌, ◌≢◌, refl, arith, min, sub32, sym}
use hal_os.Bitmap.{ByteMap, IsByteMap, is_used}
use hal_os.Bitmap.Count.{count-none}
use hal_os.Bitmap.Bits.{test_bit-zero}
use hal_os.Pmm.{
  Pmm, mark_used_region, mark_unused_region, init, emptied, reserve, zeroed, block_size, blocks_of,
}
use hal_os.Pmm.Inv.{
  IsValid, Claimed, Released, within, mark_used_from-Claimed, mark_unused_from-Released,
}

-- In a valid state, marking the region of `size` bytes at `base` as used sets exactly the bits of the blocks from
-- `base / 4096` on, as many as `size` rounds up to and none past the end, and keeps the count of
-- used blocks equal to the number of set bits.
pub mark_used_region-Claimed :
    (base size : ℕ) (s : Pmm)
    → IsValid s
    → Claimed
        (base / block_size)
        (min (base / block_size + blocks_of size) s.max_blocks)
        s
        (mark_used_region base size s)
unfolding mark_used_region
mark_used_region-Claimed base size s v = mark_used_from-Claimed _ _ _ s v refl

-- In a valid state, marking a region as unused clears exactly the bits of its blocks, none past the end, and keeps
-- the count of used blocks equal to the number of set bits.
pub mark_unused_region-Released :
    (base size : ℕ) (s : Pmm)
    → IsValid s
    → Released
        (base / block_size)
        (min (base / block_size + blocks_of size) s.max_blocks)
        s
        (mark_unused_region base size s)
unfolding mark_unused_region
mark_unused_region-Released base size s v = mark_unused_from-Released _ _ _ s v refl

zeroed-free : (n c : ℕ) (raw : ByteMap) → c / 8 < n → is_used (zeroed n raw) c ≡ false
unfolding zeroed is_used
zeroed-free n c raw h = ground (arith, test_bit-zero (c % 8))

zeroed-IsByteMap : (n : ℕ) (raw : ByteMap) → IsByteMap raw → IsByteMap (zeroed n raw)
unfolding zeroed
zeroed-IsByteMap n raw h i = ground (arith, h i)

emptied-IsValid :
    (raw : ByteMap) (mem_size : ℕ) (s : Pmm) → IsByteMap raw → IsValid (emptied raw mem_size s)
unfolding emptied
emptied-IsValid raw mem_size s bytes = record {
  bytes = zeroed-IsByteMap _ raw bytes;
  counted = sym (count-none _ (blocks_of mem_size) (λ c lt. zeroed-free _ c raw (omega arith)));
  small = omega arith;
}

-- Does block `c` have one of the bytes from `first` up to `end`?
abbrev pub touches : ℕ → ℕ → ℕ → Bool
touches first end c = ltb (c * block_size) end && ltb first ((c + 1) * block_size)

-- From the start of a block on, the blocks that the code marks are those with a byte of the region.
within-eq-touches :
    (base size c : ℕ)
    → base % 4096 ≡ 0
    → size + 4095 < 2 ^ 32
    → within (base / block_size) (base / block_size + blocks_of size) c
      ≡ touches base (base + size) c
within-eq-touches base size c aligned small = ground arith

abbrev pub reserved : ℕ → ℕ → ℕ → ℕ → ℕ → Bool
reserved kernel_start kernel_end bitmap max c =
    touches bitmap (bitmap + max / 8) c
    || (touches kernel_start kernel_end c || touches 0 0x100000 c)

-- the blocks that the three calls of `pmm_mark_used_region` mark
abbrev marked : ℕ → ℕ → ℕ → ℕ → ℕ → Bool
marked kernel_start kernel_end bitmap max c =
    within (bitmap / block_size) (bitmap / block_size + blocks_of (max / 8)) c
    || (within (kernel_start / block_size)
          (kernel_start / block_size + blocks_of (sub32 kernel_end kernel_start)) c
        || within 0 256 c)

-- what the kernel starts with: a size and a bitmap, regions that start with a block, and addresses
-- that do not wrap
pub record IsBoot (kernel_start kernel_end bitmap mem_size : ℕ) : Type 0 where
  pub some_memory : mem_size ≢ 0
  pub some_bitmap : bitmap ≢ 0
  pub kernel_start_aligned : kernel_start % 4096 ≡ 0
  pub bitmap_aligned : bitmap % 4096 ≡ 0
  pub in_order : kernel_start ≤ kernel_end
  pub small : kernel_end + 4095 < 2 ^ 32
  pub memory_small : mem_size + 4095 < 2 ^ 32

marked-eq-reserved :
    (ks ke bitmap mem max c : ℕ)
    → IsBoot ks ke bitmap mem
    → max ≤ 2 ^ 20
    → marked ks ke bitmap max c ≡ reserved ks ke bitmap max c
marked-eq-reserved ks ke bitmap mem max c b lt =
    let size : sub32 ke ks ≡ ke - ks = omega (arith, b.in_order, b.small) in
    let end : ks + (ke - ks) ≡ ke = omega (arith, b.in_order) in
    rw
      (
        size,
        within-eq-touches bitmap (max / 8) c b.bitmap_aligned (omega arith),
        within-eq-touches ks (ke - ks) c b.kernel_start_aligned (omega (arith, b.small)),
        end,
        within-eq-touches 0 0x100000 c refl (omega arith),
      )
      refl

record IsReserved (ks ke bitmap : ℕ) (s t : Pmm) : Type 0 where
  valid : IsValid t
  same_max : t.max_blocks ≡ s.max_blocks
  bits :
      (c : ℕ)
      → c < t.max_blocks
      → is_used t.memory_map c ≡ (marked ks ke bitmap t.max_blocks c || is_used s.memory_map c)

reserve-IsReserved :
    (ks ke bitmap : ℕ) (s : Pmm) → IsValid s → IsReserved ks ke bitmap s (reserve ks ke bitmap s)
unfolding reserve
reserve-IsReserved ks ke bitmap s v =
    let a = mark_used_region-Claimed 0 0x100000 s v in
    let b = mark_used_region-Claimed ks (sub32 ke ks) _ a.valid in
    let c = mark_used_region-Claimed bitmap (s.max_blocks / 8) _ b.valid in
    record {
      valid = c.valid;
      same_max = ground (arith, a.setup, b.setup, c.setup);
      bits = λ n lt. ground (arith, a.setup, b.setup, c.setup, a.bits n, b.bits n, c.bits n);
    }

-- `pmm_init` with a size that is not 0 and a bitmap that is not NULL, over memory of bytes, where the
-- kernel's image and the bitmap start with a block, the image ends behind its start, and neither the
-- image's end nor the size is within 4095 of 2 ^ 32: it sets up a valid state with as many blocks as
-- the size rounds up to, in which of these exactly the blocks with a byte of the first megabyte, of
-- the kernel's image, or of the first `max_blocks / 8` bytes of the bitmap are in use.
pub init-IsValid :
    (kernel_start kernel_end bitmap : ℕ) (raw : ByteMap) (mem_size : ℕ) (s : Pmm)
    → IsByteMap raw
    → IsBoot kernel_start kernel_end bitmap mem_size
    → let t = init kernel_start kernel_end bitmap raw mem_size s in
      IsValid t
      × (t.max_blocks ≡ (mem_size + 4095) / 4096)
      × (t.initialized ≡ true)
      × ((c : ℕ)
          → c < t.max_blocks
          → is_used t.memory_map c ≡ reserved kernel_start kernel_end bitmap t.max_blocks c)
unfolding emptied
init-IsValid ks ke bitmap raw mem s bytes b = rw (enters) (
  record { bytes = r.valid.bytes; counted = r.valid.counted; small = r.valid.small },
  omega (arith, r.same_max, b.memory_small),
  refl,
  λ c lt. ground (
    arith,
    marked-eq-reserved ks ke bitmap mem (reserve ks ke bitmap (emptied raw mem s)).max_blocks c b
        (omega (arith, r.valid.small)),
    r.bits c lt,
    zeroed-free ((blocks_of mem + 7) / 8) c raw,
    r.same_max,
  ),
)
  where
    r : IsReserved ks ke bitmap (emptied raw mem s) (reserve ks ke bitmap (emptied raw mem s))
    r = reserve-IsReserved ks ke bitmap _ (emptied-IsValid raw mem s bytes)

    enters :
        init ks ke bitmap raw mem s
        ≡ record (reserve ks ke bitmap (emptied raw mem s)) { initialized = true }
    enters = unfold init in ground (arith, b.some_memory, b.some_bitmap)

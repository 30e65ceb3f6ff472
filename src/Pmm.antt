-- ===== src/Pmm.antt =====
-- src/mm/pmm.c: the physical memory manager. A bit per block of 4096 bytes, and a count of the
-- blocks in use. An operation returns the address, 0 for `NULL`, beside the new state; the
-- messages on the serial line are not modelled. Block numbers stay below 2 ^ 20, so of the sums
-- of block numbers only those that a caller's argument enters are cut to 32 bits.
pub mod Inv
pub mod Region
pub mod First
pub mod Alloc
pub mod Contiguous
pub mod Blocks
pub mod Range
pub mod Faults
use hal_os.Base.{ℕ, zero, suc, ◌+◌, ◌-◌, ◌*◌, ◌/◌, ◌%◌, ◌^◌, ◌==◌, ltb, leb, Bool, true, false, not}
use hal_os.Base.{◌||◌, if◌then◌else◌, Option, none, some, u32, sub32}
use hal_os.Bitmap.{ByteMap, test_bit, is_used, set_used, set_free}
use hal_os.Bitmap.Search.{search_from}
use hal_os.Bitmap.Scan.{Pass, found, missed, scan}

pub record Pmm : Type 0 where
  pub memory_size : ℕ
  pub used_blocks : ℕ
  pub max_blocks : ℕ
  pub memory_map : ByteMap
  pub initialized : Bool
  pub last_alloc : ℕ

abbrev pub block_size : ℕ
block_size = 4096

-- `(size + PMM_BLOCK_SIZE - 1) / PMM_BLOCK_SIZE` on `uint32_t`
abbrev pub blocks_of : ℕ → ℕ
blocks_of size = u32 (size + 4095) / 4096

-- `x & ~(PMM_BLOCK_SIZE - 1)`
abbrev pub align_down : ℕ → ℕ
align_down x = x / 4096 * 4096

-- the body of the loop of `pmm_mark_used_region`
unfoldable pub claim : Pmm → ℕ → Pmm
claim s block = if is_used s.memory_map block then s else record s {
  memory_map = set_used s.memory_map block;
  used_blocks = u32 (s.used_blocks + 1);
}

-- the body of the loop of `pmm_mark_unused_region`
unfoldable pub release : Pmm → ℕ → Pmm
release s block =
    if is_used s.memory_map block
    then record s { memory_map = set_free s.memory_map block; used_blocks = sub32 s.used_blocks 1 }
    else s

-- The loops run over consecutive blocks and break at the first one past the end.
unfoldable pub mark_used_from : ℕ → ℕ → Pmm → Pmm
mark_used_from zero block s = s
mark_used_from (suc left) block s = elim (leb s.max_blocks block) [
  | true ↦ s
  | false ↦ mark_used_from left (block + 1) (claim s block)
]

unfoldable pub mark_unused_from : ℕ → ℕ → Pmm → Pmm
mark_unused_from zero block s = s
mark_unused_from (suc left) block s = elim (leb s.max_blocks block) [
  | true ↦ s
  | false ↦ mark_unused_from left (block + 1) (release s block)
]

unfoldable pub mark_used_region : ℕ → ℕ → Pmm → Pmm
mark_used_region base size s = mark_used_from (blocks_of size) (base / block_size) s

unfoldable pub mark_unused_region : ℕ → ℕ → Pmm → Pmm
mark_unused_region base size s = mark_unused_from (blocks_of size) (base / block_size) s

-- `memset(map, 0, n)` over the bytes that lie at `map`
unfoldable pub zeroed : ℕ → ByteMap → ByteMap
zeroed n raw i = if ltb i n then 0 else raw i

-- the state of `pmm_init` after its `memset`; `raw` is what lies at `bitmap` before
unfoldable pub emptied : ByteMap → ℕ → Pmm → Pmm
emptied raw mem_size s =
    let max = blocks_of mem_size in
    record {
      memory_size = mem_size;
      used_blocks = 0;
      max_blocks = max;
      memory_map = zeroed ((max + 7) / 8) raw;
      initialized = s.initialized;
      last_alloc = s.last_alloc;
    }

-- the three regions that `pmm_init` takes out; the linker's symbols are arguments
unfoldable pub reserve : ℕ → ℕ → ℕ → Pmm → Pmm
reserve kernel_start kernel_end bitmap s =
    let low = mark_used_region 0 0x100000 s in
    let kernel = mark_used_region kernel_start (sub32 kernel_end kernel_start) low in
    mark_used_region bitmap (s.max_blocks / 8) kernel

unfoldable pub init : ℕ → ℕ → ℕ → ByteMap → ℕ → Pmm → Pmm
init kernel_start kernel_end bitmap raw mem_size s =
    if mem_size == 0 || bitmap == 0
    then s
    else record (reserve kernel_start kernel_end bitmap (emptied raw mem_size s)) {
      initialized = true;
    }

unfoldable pub get_total_memory : Pmm → ℕ
get_total_memory s = s.memory_size

unfoldable pub is_block_free : Pmm → ℕ → Bool
is_block_free s block = if leb s.max_blocks block then false else not (is_used s.memory_map block)

-- the inner loop of `pmm_alloc_block`, over the bits of one byte
unfoldable pub scan_bits : ByteMap → ℕ → ℕ → ℕ → ℕ → Option ℕ
scan_bits map max byte_idx zero bit = none
scan_bits map max byte_idx (suc left) bit = elim (leb max (byte_idx * 8 + bit)) [
  | true ↦ none
  | false ↦ elim (test_bit (map byte_idx) bit) [
    | true ↦ scan_bits map max byte_idx left (bit + 1)
    | false ↦ some (byte_idx * 8 + bit)
  ]
]

-- the outer loop, over the bytes
unfoldable pub scan_bytes : ByteMap → ℕ → ℕ → ℕ → Option ℕ
scan_bytes map max zero byte_idx = none
scan_bytes map max (suc left) byte_idx = elim (map byte_idx == 0xff) [
  | true ↦ scan_bytes map max left (byte_idx + 1)
  | false ↦ elim (scan_bits map max byte_idx 8 0) [
    | some block ↦ some block
    | none ↦ scan_bytes map max left (byte_idx + 1)
  ]
]

-- `|= (1 << bit)` and `pmm_used_blocks++`, whatever the bit was
unfoldable pub mark_block_used : Pmm → ℕ → Pmm
mark_block_used s block = record s {
  memory_map = set_used s.memory_map block;
  used_blocks = u32 (s.used_blocks + 1);
}

unfoldable pub alloc_block : Pmm → ℕ × Pmm
alloc_block s =
    if leb s.max_blocks s.used_blocks
    then (0, s)
    else elim (scan_bytes s.memory_map s.max_blocks (s.max_blocks / 8) 0) [
      | none ↦ (0, s)
      | some block ↦ (u32 (block * block_size), mark_block_used s block)
    ]

unfoldable pub find_contiguous_free_blocks : Pmm → ℕ → Option ℕ
find_contiguous_free_blocks s num = search_from (is_block_free s) s.max_blocks num s.max_blocks 0

unfoldable pub mark_run : ℕ → ℕ → Pmm → Pmm
mark_run zero block s = s
mark_run (suc left) block s = mark_run left (block + 1) (mark_block_used s block)

unfoldable pub alloc_contiguous : ℕ → Pmm → ℕ × Pmm
alloc_contiguous num s =
    if num == 0 || ltb s.max_blocks num then (0, s) else elim (find_contiguous_free_blocks s num) [
      | none ↦ (0, s)
      | some start ↦ (u32 (start * block_size), mark_run num start s)
    ]

-- the check of `pmm_free_contiguous`: is one of the blocks free already?
unfoldable pub any_free : Pmm → ℕ → ℕ → Bool
any_free s zero block = false
any_free s (suc left) block = elim (is_block_free s block) [
  | true ↦ true
  | false ↦ any_free s left (block + 1)
]

-- `&= ~(1 << bit)` and `pmm_used_blocks--`
unfoldable pub mark_block_free : Pmm → ℕ → Pmm
mark_block_free s block = record s {
  memory_map = set_free s.memory_map block;
  used_blocks = sub32 s.used_blocks 1;
}

unfoldable pub free_run : ℕ → ℕ → Pmm → Pmm
free_run zero block s = s
free_run (suc left) block s = free_run left (block + 1) (mark_block_free s block)

unfoldable pub free_contiguous : ℕ → ℕ → Pmm → Pmm
free_contiguous ptr num s =
    let block = ptr / block_size in
    if ptr == 0 || num == 0
    then s
    else if ltb s.max_blocks (u32 (block + num))
    then s
    else if any_free s num block
    then s
    else free_run num block s

unfoldable pub validate_allocation_request : ℕ → Pmm → Bool
validate_allocation_request blocks s =
    if not s.initialized
    then false
    else if blocks == 0 || ltb s.max_blocks blocks
    then false
    else if ltb s.max_blocks (u32 (s.used_blocks + blocks))
    then false
    else true

-- the two passes of the search: from `pmm_last_alloc`, and again from 0 with the counters kept
unfoldable pub find_from_last : ℕ → Pmm → Pass
find_from_last num s =
    let free = λ (block : ℕ). not (is_used s.memory_map block) in
    elim (scan free num (s.max_blocks - s.last_alloc) s.last_alloc 0 0) [
      | found start ↦ found start
      | missed consecutive start ↦ scan free num s.max_blocks 0 consecutive start
    ]

unfoldable pub alloc_blocks : ℕ → Pmm → ℕ × Pmm
alloc_blocks num s =
    if not (validate_allocation_request num s) then (0, s) else elim (find_from_last num s) [
      | missed _ _ ↦ (0, s)
      | found start ↦
          let marked = mark_run num start s in
          (u32 (start * block_size), record marked { last_alloc = (start + num) % s.max_blocks })
    ]

-- Only the message belongs to the `if`: the `return` behind it is taken on every call.
unfoldable pub free_block : ℕ → Pmm → Pmm
free_block p s = s

unfoldable pub free_blocks_from : ℕ → ℕ → Pmm → Pmm
free_blocks_from zero p s = s
free_blocks_from (suc left) p s = free_blocks_from left (u32 (p + block_size)) (free_block p s)

-- `num_blocks` is an `int`: a pattern from 2 ^ 31 on is negative.
unfoldable pub free_blocks : ℕ → ℕ → Pmm → Pmm
free_blocks p num s =
    if p == 0 || num == 0 || leb (2 ^ 31) num
    then s
    else if ltb s.max_blocks (u32 (p / block_size + num))
    then s
    else free_blocks_from num p s

-- sets the bits of a run, with the count left for later
unfoldable pub set_run : ℕ → ℕ → ByteMap → ByteMap
set_run zero block map = map
set_run (suc left) block map = set_run left (block + 1) (set_used map block)

unfoldable pub alloc_blocks_in_range : ℕ → ℕ → ℕ → Pmm → ℕ × Pmm
alloc_blocks_in_range num start_addr end_addr s =
    let start_block = align_down (u32 (start_addr + 4095)) / block_size in
    let end_block = align_down end_addr / block_size in
    if num == 0 || leb end_addr start_addr
    then (0, s)
    else elim (scan (is_block_free s) num (end_block - start_block) start_block 0 0) [
      | missed _ _ ↦ (0, s)
      | found first ↦ (
        u32 (first * block_size),
        record s {
          memory_map = set_run num first s.memory_map;
          used_blocks = u32 (s.used_blocks + num);
        },
      )
    ]

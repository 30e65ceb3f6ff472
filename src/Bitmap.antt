-- ===== src/Bitmap.antt =====
-- The bit per block that src/mm/pmm.c and src/mm/vmm.c keep: `map[n / 8]`, bit `n % 8`, read by
-- `map[n / 8] & (1 << n % 8)`, set by `|=` and cleared by `&= ~`.
pub mod Bits
pub mod Count
pub mod Search
pub mod Scan
use Prim.Native.Nat.{bit_and, bit_or}
use hal_os.Base.{ℕ, ◌-◌, ◌/◌, ◌%◌, ◌^◌, ◌<◌, ◌==◌, Bool, not, update}

-- the bytes of the map by their index
abbrev pub ByteMap : Type 0
ByteMap = ℕ → ℕ

abbrev pub IsByteMap : ByteMap → Type 0
IsByteMap m = (i : ℕ) → m i < 256

unfoldable pub test_bit : ℕ → ℕ → Bool
test_bit byte bit = not (bit_and byte (2 ^ bit) == 0)

unfoldable pub set_bit : ℕ → ℕ → ℕ
set_bit byte bit = bit_or byte (2 ^ bit)

-- `~(1 << bit)` stored to a byte leaves the low eight bits of the complement.
unfoldable pub clear_bit : ℕ → ℕ → ℕ
clear_bit byte bit = bit_and byte (255 - 2 ^ bit)

unfoldable pub is_used : ByteMap → ℕ → Bool
is_used m n = test_bit (m (n / 8)) (n % 8)

unfoldable pub set_used : ByteMap → ℕ → ByteMap
set_used m n = update m (n / 8) (set_bit (m (n / 8)) (n % 8))

unfoldable pub set_free : ByteMap → ℕ → ByteMap
set_free m n = update m (n / 8) (clear_bit (m (n / 8)) (n % 8))

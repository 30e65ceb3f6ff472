-- ===== src/Net/Bytes.antt =====
-- Bytes on the wire. The machine is little-endian: a load followed by `ntohs` or `ntohl` of
-- include/network.h reads the bytes in network order, and `htons` or `htonl` followed by a store
-- writes them in network order. The fields that the macros join do not overlap, so `|` is a sum.
use hal_os.Base.{ℕ, zero, suc, ◌+◌, ◌*◌, ◌/◌, ◌%◌, ◌^◌, ◌<◌, ◌≡◌, arith, List, [], ◌∷◌}

unfoldable pub htons : ℕ → ℕ
htons x = x / 2 ^ 8 % 256 + x % 256 * 2 ^ 8

unfoldable pub htonl : ℕ → ℕ
htonl x = x / 2 ^ 24 % 256 + x / 2 ^ 16 % 256 * 2 ^ 8 + x / 2 ^ 8 % 256 * 2 ^ 16 + x % 256 * 2 ^ 24

-- the bytes of memory from an address on, little-endian
abbrev pub load16 : (ℕ → ℕ) → ℕ → ℕ
load16 m i = m i + m (i + 1) * 2 ^ 8

abbrev pub load32 : (ℕ → ℕ) → ℕ → ℕ
load32 m i = m i + m (i + 1) * 2 ^ 8 + m (i + 2) * 2 ^ 16 + m (i + 3) * 2 ^ 24

abbrev pub store16 : ℕ → List ℕ
store16 x = x % 256 ∷ x / 2 ^ 8 % 256 ∷ []

abbrev pub store32 : ℕ → List ℕ
store32 x = x % 256 ∷ x / 2 ^ 8 % 256 ∷ x / 2 ^ 16 % 256 ∷ x / 2 ^ 24 % 256 ∷ []

-- `n` bytes from index `i` on
abbrev pub bytes : (ℕ → ℕ) → ℕ → ℕ → List ℕ
bytes m i zero = []
bytes m i (suc n) = m i ∷ bytes m (i + 1) n

-- Swapping the bytes of a 32-bit word twice gives it back.
pub htonl-htonl : (x : ℕ) → x < 2 ^ 32 → htonl (htonl x) ≡ x
unfolding htonl
htonl-htonl x h = omega arith

pub htons-htons : (x : ℕ) → x < 2 ^ 16 → htons (htons x) ≡ x
unfolding htons
htons-htons x h = omega arith

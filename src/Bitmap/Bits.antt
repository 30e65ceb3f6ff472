-- ===== src/Bitmap/Bits.antt =====
-- What setting or clearing one bit of the map does to every bit of it.
use Prim.Native.Nat.{bit_and-bitwise}
use hal_os.Base.{
  ℕ, zero, suc, ◌/◌, ◌%◌, ◌^◌, ◌<◌, ◌==◌, Bool, true, false, not, ◌&&◌, ◌||◌, if◌then◌else◌,
}
use hal_os.Base.{◌≡◌, refl, arith, ltb, update}
use hal_os.Bitmap.{ByteMap, IsByteMap, test_bit, set_bit, clear_bit, is_used, set_used, set_free}

-- the test at each number below a bound, and at none from there on
every : (ℕ → Bool) → ℕ → Bool
every test zero = true
every test (suc last) = every test last && test last

every-at : (test : ℕ → Bool) (bound k : ℕ) → k < bound → every test bound ≡ true → test k ≡ true
unfolding every
every-at test zero k lt all = absurd (omega arith)
every-at test (suc last) k lt all = ground (arith, every-at test last k)

-- equality of two tests, as a test
same : Bool → Bool → Bool
same a b = if a then b else not b

same_sound : (a b : Bool) → same a b ≡ true → a ≡ b
unfolding same
same_sound a b h = ground arith

-- a test of each byte with each two of its bits
all_bits : (ℕ → ℕ → ℕ → Bool) → Bool
all_bits p = every (λ x. every (λ i. every (p x i) 8) 8) 256

all_bits-at :
    (p : ℕ → ℕ → ℕ → Bool) (x i j : ℕ)
    → all_bits p ≡ true
    → x < 256
    → i < 8
    → j < 8
    → p x i j ≡ true
unfolding all_bits
all_bits-at p x i j h hx hi hj = every-at _ 8 j hj (every-at _ 8 i hi (every-at _ 256 x hx h))

test-set_table : all_bits (λ x i j. same (test_bit (set_bit x i) j) (i == j || test_bit x j)) ≡ true
unfolding all_bits every same test_bit set_bit
test-set_table = refl

test-clear_table :
    all_bits (λ x i j. same (test_bit (clear_bit x i) j) (not (i == j) && test_bit x j)) ≡ true
unfolding all_bits every same test_bit clear_bit
test-clear_table = refl

bytes_table : all_bits (λ x i j. ltb (set_bit x i) 256 && ltb (clear_bit x i) 256) ≡ true
unfolding all_bits every set_bit clear_bit
bytes_table = refl

module _ (m : ByteMap) (bytes : IsByteMap m) (b : ℕ) where
  pub is_used-set_used : (c : ℕ) → is_used (set_used m b) c ≡ (b == c || is_used m c)
  unfolding is_used set_used update
  is_used-set_used c =
      let fact = same_sound _ _ (
        all_bits-at _ (m (b / 8)) (b % 8) (c % 8) test-set_table (bytes (b / 8)) (omega arith)
          (omega arith)) in
      ground (arith, fact)

  pub is_used-set_free : (c : ℕ) → is_used (set_free m b) c ≡ (not (b == c) && is_used m c)
  unfolding is_used set_free update
  is_used-set_free c =
      let fact = same_sound _ _ (
        all_bits-at _ (m (b / 8)) (b % 8) (c % 8) test-clear_table (bytes (b / 8)) (omega arith)
          (omega arith)) in
      ground (arith, fact)

  fits : ltb (set_bit (m (b / 8)) (b % 8)) 256 && ltb (clear_bit (m (b / 8)) (b % 8)) 256 ≡ true
  fits = all_bits-at _ (m (b / 8)) (b % 8) 0 bytes_table (bytes (b / 8)) (omega arith) (omega arith)

  pub set_used-IsByteMap : IsByteMap (set_used m b)
  unfolding set_used update
  set_used-IsByteMap i = ground (arith, fits, bytes i)

  pub set_free-IsByteMap : IsByteMap (set_free m b)
  unfolding set_free update
  set_free-IsByteMap i = ground (arith, fits, bytes i)

pub test_bit-zero : (i : ℕ) → test_bit 0 i ≡ false
unfolding test_bit
test_bit-zero i = ground (arith, bit_and-bitwise 0 (2 ^ i))

full_table : every (test_bit 255) 8 ≡ true
unfolding every test_bit
full_table = refl

-- A byte of 0xFF has all its bits set.
pub test_bit-full : (i : ℕ) → i < 8 → test_bit 255 i ≡ true
test_bit-full i h = every-at _ 8 i h full_table

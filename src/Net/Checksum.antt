-- ===== src/Net/Checksum.antt =====
-- `ip_checksum` of src/drivers/net/ipv4.c. The length is below 2 ^ 16, so that the sum of 16-bit
-- words stays below 2 ^ 31 and does not wrap.
use hal_os.Base.{ℕ, zero, suc, ◌+◌, ◌-◌, ◌*◌, ◌/◌, ◌%◌, ◌^◌, ◌≤◌, ◌<◌, ◌≡◌, arith}
use hal_os.Base.{List, [], ◌∷◌, ◌++◌, length, u16}

-- the loop and the odd byte behind it
unfoldable pub word_sum : List ℕ → ℕ
word_sum [] = 0
word_sum (a ∷ []) = a
word_sum (a ∷ b ∷ rest) = a + b * 2 ^ 8 + word_sum rest

-- `(uint16_t)(~sum)` takes the low 16 bits from 0xFFFF.
unfoldable pub fold_complement : ℕ → ℕ
fold_complement sum =
    let once = sum / 2 ^ 16 + sum % 2 ^ 16 in let twice = once + once / 2 ^ 16 in 0xFFFF - u16 twice

unfoldable pub ip_checksum : List ℕ → ℕ
ip_checksum data' = fold_complement (word_sum data')

abbrev pub IsBytes : List ℕ → Type 0
IsBytes [] = Unit {0}
IsBytes (b ∷ rest) = (b < 256) × IsBytes rest

pub word_sum-le : (xs : List ℕ) → IsBytes xs → word_sum xs ≤ length xs * 0xFFFF
unfolding word_sum
word_sum-le [] h = omega arith
word_sum-le (a ∷ []) h = omega arith
word_sum-le (a ∷ b ∷ rest) h = omega (arith, word_sum-le rest h.1.1)

-- Two bytes at an even place count as a word of their own.
pub word_sum-insert :
    (front back : List ℕ) (k a b : ℕ)
    → length front ≡ 2 * k
    → word_sum (front ++ a ∷ b ∷ back) ≡ word_sum (front ++ 0 ∷ 0 ∷ back) + a + b * 2 ^ 8
unfolding word_sum
word_sum-insert [] back k a b e = omega arith
word_sum-insert (x ∷ []) back k a b e = absurd (omega arith)
word_sum-insert (x ∷ y ∷ rest) back zero a b e = absurd (omega arith)
word_sum-insert (x ∷ y ∷ rest) back (suc k) a b e =
    omega (arith, word_sum-insert rest back k a b (omega arith))

pub fold_complement-lt : (sum : ℕ) → fold_complement sum < 2 ^ 16
unfolding fold_complement
fold_complement-lt sum = omega arith

pub ip_checksum-lt : (xs : List ℕ) → ip_checksum xs < 2 ^ 16
unfolding ip_checksum
ip_checksum-lt xs = fold_complement-lt (word_sum xs)

-- A sum with its own complement added has complement 0.
pub fold_complement-add : (sum : ℕ) → sum < 2 ^ 31 → fold_complement (sum + fold_complement sum) ≡ 0
unfolding fold_complement
fold_complement-add sum h = omega arith

-- Storing the checksum of a packet, taken with the field at 0, into the field makes the checksum
-- of the whole packet 0: its bytes are below 256, the field stands at an even offset, and the packet is shorter than 2 ^ 15
-- bytes.
pub ip_checksum_verifies :
    (front back : List ℕ) (k : ℕ)
    → length front ≡ 2 * k
    → IsBytes (front ++ 0 ∷ 0 ∷ back)
    → length (front ++ 0 ∷ 0 ∷ back) < 2 ^ 15
    → let c = ip_checksum (front ++ 0 ∷ 0 ∷ back) in
      ip_checksum (front ++ c % 256 ∷ c / 2 ^ 8 ∷ back) ≡ 0
unfolding ip_checksum
ip_checksum_verifies front back k e h short =
    let sum : ℕ = word_sum (front ++ 0 ∷ 0 ∷ back) in
    let bounded : sum < 2 ^ 31 = omega (arith, word_sum-le _ h) in
    let whole : word_sum (front ++ fold_complement sum % 256 ∷ fold_complement sum / 2 ^ 8 ∷ back)
        ≡ sum + fold_complement sum =
      omega (
        arith,
        word_sum-insert front back k (fold_complement sum % 256) (fold_complement sum / 2 ^ 8) e,
      ) in
    rw whole (fold_complement-add sum bounded)

-- ===== src/Net/Segment/Sums.antt =====
-- What a receiver adds up of a segment of src/drivers/net/tcp.c, and what `tcp_checksum` does.
use hal_os.Base.{ℕ, zero, suc, ◌+◌, ◌*◌, ◌/◌, ◌%◌, ◌^◌, ◌<◌, ◌≡◌, ◌≢◌, refl, arith, ap}
use hal_os.Base.{List, [], ◌∷◌, ◌++◌, length, take, u16}
use hal_os.Net.Bytes.{store16, store32, htonl, htons}
use hal_os.Net.Checksum.{word_sum, fold_complement, fold_complement-lt, fold_complement-add}
use hal_os.Net.{Connection}
use hal_os.Net.Segment.{segment_sum, segment_with, syn_options, free_space, cut}

-- `tcp_checksum` adds the words as a receiver does, as long as the number of bytes is even.
segment_sum-even : (k : ℕ) (xs : List ℕ) → length xs ≡ 2 * k → segment_sum xs ≡ word_sum xs
unfolding segment_sum word_sum
segment_sum-even k [] e = refl
segment_sum-even k (a ∷ []) e = absurd (omega arith)
segment_sum-even zero (a ∷ b ∷ rest) e = absurd (omega arith)
segment_sum-even (suc k) (a ∷ b ∷ rest) e = omega (arith, segment_sum-even k rest (omega arith))

segment_sum-odd :
    (k b : ℕ) (xs : List ℕ)
    → length xs ≡ 2 * k
    → segment_sum (xs ++ b ∷ []) ≡ word_sum (xs ++ 0 ∷ b ∷ [])
unfolding segment_sum word_sum
segment_sum-odd k b [] e = omega arith
segment_sum-odd k b (a ∷ []) e = absurd (omega arith)
segment_sum-odd zero b (a ∷ c ∷ rest) e = absurd (omega arith)
segment_sum-odd (suc k) b (a ∷ c ∷ rest) e = omega (arith, segment_sum-odd k b rest (omega arith))

-- the bytes in front of the checksum, and those behind it
unfoldable pub front : Connection → ℕ → List ℕ
front c flags =
    store16 (htons c.local_port)
    ++ (store16 (htons c.remote_port)
        ++ (store32 (htonl c.next_seq)
            ++ (store32 (htonl c.expected_ack)
                ++ ((20 + length (syn_options flags)) / 4 * 16
                    ∷ flags
                    ∷ store16 (htons (free_space c))))))

unfoldable pub back : ℕ → List ℕ → List ℕ
back flags payload = 0 ∷ 0 ∷ (syn_options flags ++ payload)

pub segment_with-parts :
    (c : Connection) (flags : ℕ) (payload checksum : List ℕ)
    → segment_with c flags payload checksum ≡ front c flags ++ (checksum ++ back flags payload)
unfolding segment_with front back
segment_with-parts c flags payload checksum = refl

-- the complement that is stored where the sum counts `b` as a high byte, against `b` as a low one
fold_complement-shifted :
    (sum b : ℕ)
    → sum + b * 2 ^ 8 < 2 ^ 30
    → 0 < b
    → b < 256
    → fold_complement (sum + b + fold_complement (sum + b * 2 ^ 8)) ≢ 0
unfolding fold_complement
fold_complement-shifted sum b h pos lt e = omega arith

pub word_sum-append :
    (k : ℕ) (xs ys : List ℕ) → length xs ≡ 2 * k → word_sum (xs ++ ys) ≡ word_sum xs + word_sum ys
unfolding word_sum
word_sum-append k [] ys e = omega arith
word_sum-append k (a ∷ []) ys e = absurd (omega arith)
word_sum-append zero (a ∷ b ∷ rest) ys e = absurd (omega arith)
word_sum-append (suc k) (a ∷ b ∷ rest) ys e = omega (arith, word_sum-append k rest ys (omega arith))

segment_sum-append :
    (k : ℕ) (xs ys : List ℕ)
    → length xs ≡ 2 * k
    → segment_sum (xs ++ ys) ≡ word_sum xs + segment_sum ys
unfolding segment_sum word_sum
segment_sum-append k [] ys e = omega arith
segment_sum-append k (a ∷ []) ys e = absurd (omega arith)
segment_sum-append zero (a ∷ b ∷ rest) ys e = absurd (omega arith)
segment_sum-append (suc k) (a ∷ b ∷ rest) ys e =
    omega (arith, segment_sum-append k rest ys (omega arith))

take-length : (xs : List ℕ) → take (length xs) xs ≡ xs
take-length [] = refl
take-length (x ∷ xs) = ap (λ ys. x ∷ ys) (take-length xs)

pub cut-short : (xs : List ℕ) → length xs < 2 ^ 16 → cut xs ≡ xs
cut-short xs h = let whole : u16 (length xs) ≡ length xs = omega arith in rw whole (take-length xs)

-- what a receiver adds up, and what `tcp_checksum` does, for a header `head` with the pseudo header
-- in front
unfoldable pub received : (head front' back' : List ℕ) → ℕ → ℕ
received head front' back' c = word_sum (head ++ (front' ++ (c % 256 ∷ c / 2 ^ 8 % 256 ∷ back')))

unfoldable pub counted : (head front' back' : List ℕ) → ℕ
counted head front' back' = word_sum head + segment_sum (front' ++ (0 ∷ 0 ∷ back'))

received-sum :
    (k j : ℕ) (head front' back' : List ℕ) (c : ℕ)
    → length head ≡ 2 * k
    → length front' ≡ 2 * j
    → c < 2 ^ 16
    → received head front' back' c ≡ word_sum head + word_sum front' + c + word_sum back'
unfolding received word_sum
received-sum k j head front' back' c h f lt = omega (
  arith,
  word_sum-append k head (front' ++ (c % 256 ∷ c / 2 ^ 8 % 256 ∷ back')) h,
  word_sum-append j front' (c % 256 ∷ c / 2 ^ 8 % 256 ∷ back') f,
)

counted-sum :
    (j : ℕ) (head front' back' : List ℕ)
    → length front' ≡ 2 * j
    → counted head front' back' ≡ word_sum head + word_sum front' + segment_sum back'
unfolding counted segment_sum
counted-sum j head front' back' f = omega (arith, segment_sum-append j front' (0 ∷ 0 ∷ back') f)

-- An even rest: the receiver finds 0.
pub received-even :
    (k j i : ℕ) (head front' back' : List ℕ)
    → length head ≡ 2 * k
    → length front' ≡ 2 * j
    → length back' ≡ 2 * i
    → word_sum head + word_sum front' + word_sum back' < 2 ^ 30
    → fold_complement (received head front' back' (fold_complement (counted head front' back'))) ≡ 0
received-even k j i head front' back' h f b lt =
    let sum : ℕ = word_sum head + word_sum front' + word_sum back' in
    let own : counted head front' back' ≡ sum =
      omega (arith, counted-sum j head front' back' f, segment_sum-even i back' b) in
    let all : received head front' back' (fold_complement sum) ≡ sum + fold_complement sum = omega (
      arith,
      received-sum k j head front' back' (fold_complement sum) h f (fold_complement-lt sum),
    ) in
    rw (own, all) (fold_complement-add sum (omega arith))

-- An odd rest whose last byte is not 0: the receiver finds something else.
pub received-odd :
    (k j i : ℕ) (head front' back' : List ℕ) (b : ℕ)
    → length head ≡ 2 * k
    → length front' ≡ 2 * j
    → length back' ≡ 2 * i
    → word_sum head + word_sum front' + word_sum back' < 2 ^ 29
    → 0 < b
    → b < 256
    → fold_complement (
        received head front'
          (back' ++ b ∷ [])
          (fold_complement (counted head front' (back' ++ b ∷ []))))
      ≢ 0
unfolding word_sum segment_sum
received-odd k j i head front' back' b h f e lt pos small =
    let sum : ℕ = word_sum head + word_sum front' + word_sum back' in
    let own : counted head front' (back' ++ b ∷ []) ≡ sum + b * 2 ^ 8 = omega (
      arith,
      counted-sum j head front' (back' ++ b ∷ []) f,
      segment_sum-append i back' (b ∷ []) e,
    ) in
    let all : received head front' (back' ++ b ∷ []) (fold_complement (sum + b * 2 ^ 8))
        ≡ sum + b + fold_complement (sum + b * 2 ^ 8) =
      omega (
        arith,
        received-sum k j head front' (back' ++ b ∷ []) (fold_complement (sum + b * 2 ^ 8)) h f
            (fold_complement-lt (sum + b * 2 ^ 8)),
        word_sum-append i back' (b ∷ []) e,
      ) in
    rw (own, all) (fold_complement-shifted sum b (omega arith) pos small)

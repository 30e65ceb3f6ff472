-- ===== src/Net/Tcp/Options.antt =====
-- `process_tcp_options` of src/drivers/net/tcp.c reads the options that a peer wrote.
use hal_os.Base.{ℕ, zero, suc, ◌+◌, ◌-◌, ◌*◌, ◌/◌, ◌%◌, ◌^◌, ◌≤◌, ◌<◌}
use hal_os.Base.{◌≡◌, refl, arith, ◌∙◌, ap, min, List, [], ◌∷◌, ◌++◌, length, drop}
use hal_os.Net.{Connection}
use hal_os.Net.Tcp.{options_from, offered_mss, default_mss, process_options}

-- An option as a standard has it; the bytes of an unknown one stand behind its kind and length.
pub data TcpOption : Type 0 where
  nop : TcpOption
  max_segment : ℕ → TcpOption
  unknown : ℕ → List ℕ → TcpOption

abbrev pub IsOption : TcpOption → Type 0
IsOption nop = Unit {0}
IsOption (max_segment size) = size < 2 ^ 16
IsOption (unknown kind body) = (2 < kind) × (length body < 254)

abbrev pub AreOptions : List TcpOption → Type 0
AreOptions [] = Unit {0}
AreOptions (o ∷ rest) = IsOption o × AreOptions rest

abbrev pub encode : List TcpOption → List ℕ
encode [] = 0 ∷ []
encode (nop ∷ rest) = 1 ∷ encode rest
encode (max_segment size ∷ rest) = 2 ∷ 4 ∷ size / 2 ^ 8 ∷ size % 2 ^ 8 ∷ encode rest
encode (unknown kind body ∷ rest) = kind ∷ (length body + 2) ∷ (body ++ encode rest)

-- the size that the last offer leaves, and 1460 at most
abbrev pub meaning : List TcpOption → ℕ → ℕ
meaning [] mss = mss
meaning (nop ∷ rest) mss = meaning rest mss
meaning (max_segment size ∷ rest) mss = meaning rest (min size default_mss)
meaning (unknown kind body ∷ rest) mss = meaning rest mss

drop-append : (xs ys : List ℕ) → drop (length xs) (xs ++ ys) ≡ ys
drop-append [] ys = refl
drop-append (x ∷ xs) ys = drop-append xs ys

length-append_le : (xs ys : List ℕ) → length xs ≤ length (xs ++ ys)
length-append_le [] ys = omega arith
length-append_le (x ∷ xs) ys = omega (arith, length-append_le xs ys)

length-behind : (xs ys : List ℕ) → length ys ≤ length (xs ++ ys)
length-behind [] ys = omega arith
length-behind (x ∷ xs) ys = omega (arith, length-behind xs ys)

skips :
    (fuel kind mss : ℕ) (body rest : List ℕ)
    → 2 < kind
    → options_from (suc fuel) (kind ∷ (length body + 2) ∷ (body ++ rest)) mss
      ≡ options_from fuel rest mss
unfolding options_from
skips fuel kind mss body rest h =
    let back : length body + 2 - 2 ≡ length body = omega arith in
    ground (
      arith,
      ap (λ n. options_from fuel (drop n (body ++ rest)) mss) back,
      ap (λ os. options_from fuel os mss) (drop-append body rest),
      length-append_le body rest,
    )

reads :
    (fuel size mss : ℕ) (rest : List ℕ)
    → size < 2 ^ 16
    → options_from (suc fuel) (2 ∷ 4 ∷ size / 2 ^ 8 ∷ size % 2 ^ 8 ∷ rest) mss
      ≡ options_from fuel rest (min size default_mss)
unfolding options_from
reads fuel size mss rest h =
    let whole : size / 2 ^ 8 * 2 ^ 8 + size % 2 ^ 8 ≡ size = omega arith in
    ground (arith, ap (λ n. options_from fuel rest (min n default_mss)) whole)

passes :
    (fuel mss : ℕ) (os : List ℕ) → options_from (suc fuel) (1 ∷ os) mss ≡ options_from fuel os mss
unfolding options_from
passes zero mss [] = refl
passes (suc fuel) mss [] = refl
passes fuel mss (o ∷ os) = refl

options_from-encode :
    (fuel : ℕ) (options : List TcpOption) (mss : ℕ)
    → AreOptions options
    → length (encode options) ≤ fuel
    → options_from fuel (encode options) mss ≡ meaning options mss
options_from-encode zero [] mss h le = absurd (omega arith)
options_from-encode zero (nop ∷ rest) mss h le = absurd (omega arith)
options_from-encode zero (max_segment size ∷ rest) mss h le = absurd (omega arith)
options_from-encode zero (unknown kind body ∷ rest) mss h le = absurd (omega arith)
options_from-encode (suc fuel) [] mss h le = unfold options_from in refl
options_from-encode (suc fuel) (nop ∷ rest) mss h le =
    passes fuel mss (encode rest) ∙ options_from-encode fuel rest mss h.1 (omega arith)
options_from-encode (suc fuel) (max_segment size ∷ rest) mss h le =
    reads fuel size mss (encode rest) h.0
    ∙ options_from-encode fuel rest (min size default_mss) h.1 (omega arith)
options_from-encode (suc fuel) (unknown kind body ∷ rest) mss h le =
    skips fuel kind mss body (encode rest) h.0.0
    ∙ options_from-encode fuel rest mss h.1 (omega (arith, length-behind body (encode rest)))

-- Options as a peer writes them, with one that ends them, are read as they are meant: the last
-- segment size that is offered counts, if it is below 1460, and unknown options are passed over.
-- The fuel never runs out on them.
pub process_options-encode :
    (options : List TcpOption) (c : Connection)
    → AreOptions options
    → process_options (encode options) c ≡ record c { mss = meaning options c.mss }
unfolding process_options
process_options-encode options c h =
    ap (λ n. record c { mss = n })
      (options_from-encode (length (encode options)) options c.mss h (omega arith))

length-drop_le : (n : ℕ) (xs : List ℕ) → length (drop n xs) ≤ length xs
length-drop_le zero xs = omega arith
length-drop_le (suc n) [] = omega arith
length-drop_le (suc n) (x ∷ xs) = omega (arith, length-drop_le n xs)

-- For every sequence of bytes, any two amounts of fuel that are not below its length give the same
-- result: the loop has ended.
pub options_from-enough :
    (fuel more : ℕ) (options : List ℕ) (mss : ℕ)
    → length options ≤ fuel
    → length options ≤ more
    → options_from fuel options mss ≡ options_from more options mss
unfolding options_from
options_from-enough zero zero options mss h k = refl
options_from-enough zero (suc more) [] mss h k = refl
options_from-enough zero (suc more) (o ∷ os) mss h k = absurd (omega arith)
options_from-enough (suc fuel) zero [] mss h k = refl
options_from-enough (suc fuel) zero (o ∷ os) mss h k = absurd (omega arith)
options_from-enough (suc fuel) (suc more) [] mss h k = refl
options_from-enough (suc fuel) (suc more) (o ∷ []) mss h k = refl
options_from-enough (suc fuel) (suc more) (kind ∷ len ∷ rest) mss h k = ground (
  arith,
  options_from-enough fuel more (len ∷ rest) mss,
  options_from-enough fuel more (drop 2 rest) (offered_mss rest),
  options_from-enough fuel more (drop (len - 2) rest) mss,
  length-drop_le 2 rest,
  length-drop_le (len - 2) rest,
)

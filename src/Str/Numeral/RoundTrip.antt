-- ===== src/Str/Numeral/RoundTrip.antt =====
-- `atoi` reads what `itoa` of src/libs/string.c writes.
use hal_os.Base.{ℕ, zero, suc, ◌+◌, ◌-◌, ◌*◌, ◌^◌, ◌≤◌, ◌<◌, ◌==◌, leb, true, false, ◌&&◌, ◌||◌}
use hal_os.Base.{
  ◌≡◌, refl, arith, ◌∙◌, ap, Bool-cases, inl, inr, u32, sub32, List, [], ◌∷◌, length, some,
}
use hal_os.Str.{Memory}
use hal_os.Str.Numeral.{
  is_negative, put_remainders, put_unsigned, signed, itoa, digits_from, skip_spaces, atoi_from,
  atoi,
}
use hal_os.Str.Numeral.Digits.{
  Digits, value, all_digits, all_digits-length, put_unsigned-Leaves, remainders-Digits,
  value-all_digits,
}

-- what `atoi` reads of digits that are turned round
digits_from-turned :
    (digits : List ℕ) (fuel s val : ℕ) (buf turned : Memory)
    → Digits buf digits
    → ((k : ℕ) → k < length digits → turned (s + k) ≡ buf (length digits - 1 - k))
    → turned (s + length digits) ≡ 0
    → length digits < fuel
    → value val digits < 2 ^ 32
    → digits_from fuel s val turned ≡ some (value val digits)
unfolding digits_from Digits
digits_from-turned digits zero s val buf turned d t e h small = absurd (omega arith)
digits_from-turned [] (suc fuel) s val buf turned d t e h small =
    let here : turned s ≡ turned (s + 0) = ap turned (omega arith) in
    let end : (leb 48 (turned s) && leb (turned s) 57) ≡ false = ground (arith, here, e) in
    rw (digits_from, end) refl
digits_from-turned (r ∷ digits) (suc fuel) s val buf turned d t e h small =
    let first : turned s ≡ r + 48 =
      ap turned (omega arith) ∙ t 0 (omega arith) ∙ ap buf (omega arith) ∙ d.0 in
    let more : (leb 48 (turned s) && leb (turned s) 57) ≡ true = ground (arith, first, d.1) in
    let next : u32 (val * 10 + (turned s - 48)) ≡ val * 10 + r =
      omega (arith, first, small, value-le (val * 10 + r) digits) in
    rw (digits_from, more, next)
      (digits_from-turned digits fuel (s + 1) (val * 10 + r) buf turned d.2
        (λ k lt. ap turned (omega arith) ∙ t (suc k) (omega arith) ∙ ap buf (omega arith))
        (ap turned (omega arith) ∙ e) (omega arith) small)
  where
    value-le : (v : ℕ) (ds : List ℕ) → v ≤ value v ds
    value-le v [] = omega arith
    value-le v (q ∷ ds) = omega (arith, value-le (v * 10 + q) ds)

-- behind a sign or not
digits_from-unsigned :
    (ud s fuel : ℕ) (buf str : Memory)
    → ud < 2 ^ 32
    → 33 ≤ fuel
    → ((k : ℕ) → str (s + k) ≡ put_unsigned ud 10 buf k)
    → digits_from fuel s 0 str ≡ some ud
digits_from-unsigned ud s fuel buf str h f same =
    let l = put_unsigned-Leaves ud buf in
    let v = value-all_digits ud h in
    digits_from-turned (all_digits ud) fuel s 0 (put_remainders 32 ud 10 0 buf).1 str
      (remainders-Digits ud buf).1 (λ k lt. same k ∙ l.text k lt)
      (same (length (all_digits ud)) ∙ l.end) (omega (arith, f, (all_digits-length ud).1))
      (omega (arith, v, h))
    ∙ ap some v

itoa-unsigned :
    (d : ℕ) (buf : Memory) → is_negative d ≡ false → itoa b'd' d buf ≡ put_unsigned d 10 buf
unfolding itoa
itoa-unsigned d buf h = rw (itoa, h) refl

itoa-negative :
    (d : ℕ) (buf : Memory)
    → is_negative d ≡ true
    → itoa b'd' d buf ≡ signed b'-' (put_unsigned (sub32 0 d) 10 (λ i. buf (suc i)))
unfolding itoa
itoa-negative d buf h = rw (itoa, h) refl

Digits-first :
    (digits : List ℕ) (buf : Memory)
    → 0 < length digits
    → Digits buf digits
    → (48 ≤ buf (length digits - 1)) × (buf (length digits - 1) ≤ 57)
unfolding Digits
Digits-first [] buf h d = absurd (omega arith)
Digits-first (r ∷ digits) buf h d =
    let at : buf (suc (length digits) - 1) ≡ r + 48 = ap buf (omega arith) ∙ d.0 in
    (omega (arith, at), omega (arith, at, d.1))

-- The text of digits starts with no space and no sign.
put_unsigned-first :
    (ud : ℕ) (buf : Memory) → (48 ≤ put_unsigned ud 10 buf 0) × (put_unsigned ud 10 buf 0 ≤ 57)
put_unsigned-first ud buf =
    let (more, few) = all_digits-length ud in
    let first =
      (put_unsigned-Leaves ud buf).text 0 more
      ∙ ap (put_remainders 32 ud 10 0 buf).1 (last (length (all_digits ud))) in
    rw first (
      Digits-first (all_digits ud) (put_remainders 32 ud 10 0 buf).1 more
        (remainders-Digits ud buf).1)
  where
    last : (n : ℕ) → n - 1 - 0 ≡ n - 1
    last n = omega arith

atoi_from-start :
    (fuel : ℕ) (str : Memory)
    → (str 0 == 32 || str 0 == 9 || str 0 == 10) ≡ false
    → atoi (suc fuel) str ≡ atoi_from (suc fuel) 0 str
unfolding atoi skip_spaces
atoi_from-start fuel str h = rw (atoi, skip_spaces, h) refl

atoi_from-digits :
    (fuel : ℕ) (str : Memory)
    → 48 ≤ str 0
    → str 0 ≤ 57
    → atoi (suc fuel) str ≡ digits_from (suc fuel) 0 0 str
unfolding atoi_from
atoi_from-digits fuel str lo hi =
    let plus : (str 0 == b'+') ≡ false = ground arith in
    let minus : (str 0 == b'-') ≡ false = ground arith in
    atoi_from-start fuel str (ground arith) ∙ rw (atoi_from, minus, plus) refl

atoi_from-minus :
    (fuel n : ℕ) (rest : Memory)
    → digits_from (suc fuel) 1 0 (signed b'-' rest) ≡ some n
    → atoi (suc fuel) (signed b'-' rest) ≡ some (sub32 0 n)
unfolding atoi_from signed
atoi_from-minus fuel n rest e =
    atoi_from-start fuel (signed b'-' rest) refl ∙ rw (atoi_from, e) refl

signed-suc : (sign : ℕ) (rest : Memory) (k : ℕ) → signed sign rest (1 + k) ≡ rest k
unfolding signed
signed-suc sign rest k = let e : 1 + k ≡ suc k = omega arith in ap (signed sign rest) e

-- `atoi` reads every `int` back from the text that `itoa` writes of it in base `d`, with a minus for
-- a negative one; the smallest one it reads with the wrap-around of two's complement. The fuel is 33
-- at least.
pub atoi-itoa :
    (d fuel : ℕ) (buf : Memory) → d < 2 ^ 32 → 33 ≤ fuel → atoi fuel (itoa b'd' d buf) ≡ some d
atoi-itoa d zero buf h f = absurd (omega arith)
atoi-itoa d (suc fuel) buf h f = elim (Bool-cases (is_negative d)) [
  | inr plain ↦
      let first = put_unsigned-first d buf in
      ap (atoi (suc fuel)) (itoa-unsigned d buf plain)
      ∙ atoi_from-digits fuel (put_unsigned d 10 buf) first.0 first.1
      ∙ digits_from-unsigned d 0 (suc fuel) buf (put_unsigned d 10 buf) h f
          (λ k. ap (put_unsigned d 10 buf) (omega arith))
  | inl negative ↦
      let ud = sub32 0 d in
      let rest = put_unsigned ud 10 (λ i. buf (suc i)) in
      ap (atoi (suc fuel)) (itoa-negative d buf negative)
      ∙ atoi_from-minus fuel ud rest (
          digits_from-unsigned ud 1 (suc fuel) (λ i. buf (suc i)) (signed b'-' rest) (omega arith) f
            (signed-suc b'-' rest))
      ∙ ap some (ground (arith, h, negative))
]

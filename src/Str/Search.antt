-- ===== src/Str/Search.antt =====
-- `strncmp`, `strstr`, `strrchr` and `strtok` of src/libs/string.c. Where fuel runs out, the outer
-- option is `none`; an inner `none` is `NULL`.
use mathlib.Core.Path.{subst}
use hal_os.Base.{ℕ, zero, suc, ◌+◌, ◌-◌, ◌%◌, ◌^◌, ◌≤◌, ◌<◌, ◌==◌, Bool, true, false, if◌then◌else◌}
use hal_os.Base.{
  update, Option, none, some, ◌≡◌, ◌≢◌, inl, inr, refl, arith, ◌∙◌, ap, sym, Bool-cases,
}
use hal_os.Str.{Memory, Sign, equal, sign_of, strlen, strchr}
use hal_os.Str.Text.{IsText, IsText-zero, IsText-head, IsText-tail}

-- the value of a `char`, which has a sign, moved up by 128
abbrev pub char_order : ℕ → ℕ
char_order c = (c + 2 ^ 7) % 2 ^ 8

unfoldable pub strncmp : ℕ → ℕ → ℕ → Memory → Sign
strncmp s1 s2 zero mem = equal
strncmp s1 s2 (suc c) mem = elim (mem s1 == mem s2) [
  | false ↦ sign_of (char_order (mem s1)) (char_order (mem s2))
  | true ↦ elim (mem s1 == 0) [ true ↦ equal | false ↦ strncmp (s1 + 1) (s2 + 1) c mem ]
]

abbrev pub is_equal : Sign → Bool
is_equal equal = true
is_equal sign = false

-- the inner loop of `strstr`: the address behind the next `c`
unfoldable pub find_char : ℕ → ℕ → ℕ → Memory → Option (Option ℕ)
find_char zero from c mem = none
find_char (suc fuel) from c mem = elim (mem from == 0) [
  | true ↦ some none
  | false ↦ elim (mem from == c) [
    | true ↦ some (some (from + 1))
    | false ↦ find_char fuel (from + 1) c mem
  ]
]

-- the outer loop, for a text that starts with `c`, the `len` bytes behind that at `str`
unfoldable pub strstr_from : ℕ → ℕ → ℕ → ℕ → ℕ → Memory → Option (Option ℕ)
strstr_from zero from c str len mem = none
strstr_from (suc fuel) from c str len mem = elim (find_char (suc fuel) from c mem) [
  | none ↦ none
  | some none ↦ some none
  | some (some behind) ↦ elim (is_equal (strncmp behind str len mem)) [
    | true ↦ some (some (behind - 1))
    | false ↦ strstr_from fuel behind c str len mem
  ]
]

unfoldable pub strstr : ℕ → ℕ → ℕ → Memory → Option (Option ℕ)
strstr fuel from str mem =
    if mem str == 0 then some (some from) else elim (strlen fuel (str + 1) mem) [
      | none ↦ none
      | some len ↦ strstr_from fuel from (mem str) (str + 1) len mem
    ]

-- for a character `c` below 128
unfoldable pub strrchr_from : ℕ → ℕ → ℕ → Option ℕ → Memory → Option (Option ℕ)
strrchr_from zero s c last mem = none
strrchr_from (suc fuel) s c last mem = elim (mem s == 0) [
  | true ↦ some last
  | false ↦ strrchr_from fuel (s + 1) c (if mem s == c then some s else last) mem
]

unfoldable pub strrchr : ℕ → ℕ → ℕ → Memory → Option (Option ℕ)
strrchr fuel s c mem = strrchr_from fuel s c none mem

abbrev pub found : Option ℕ → Bool
found none = false
found (some a) = true

-- the loops of `strtok`: over delimiters if `wanted` is `true`, and otherwise over other characters
unfoldable pub span : Bool → ℕ → ℕ → ℕ → ℕ → Memory → Option ℕ
span wanted fuel zero last delim mem = none
span wanted fuel (suc n) last delim mem = elim (mem last == 0) [
  | true ↦ some last
  | false ↦ elim (strchr fuel delim (mem last) mem) [
    | none ↦ none
    | some place ↦ elim (found place) [
      | true ↦ if wanted then span wanted fuel n (last + 1) delim mem else some last
      | false ↦ if wanted then some last else span wanted fuel n (last + 1) delim mem
    ]
  ]
]

-- the token that starts at `start`, the new value of `last` and the memory
unfoldable pub cut_token : ℕ → ℕ → ℕ → Memory → Option (Option ℕ × Option ℕ × Memory)
cut_token fuel start delim mem = elim (span false fuel fuel start delim mem) [
  | none ↦ none
  | some end ↦ some (
      if mem end == 0
      then (some start, none, mem)
      else (some start, some (end + 1), update mem end 0))
]

-- `str` or, where that is `NULL`, the static variable `last`
unfoldable pub strtok : ℕ → Option ℕ → ℕ → Option ℕ → Memory → Option (Option ℕ × Option ℕ × Memory)
strtok fuel str delim last mem = elim (if found str then str else last) [
  | none ↦ some (none, none, mem)
  | some from ↦ elim (span true fuel fuel from delim mem) [
    | none ↦ none
    | some start ↦
        if mem start == 0 then some (none, some start, mem) else cut_token fuel start delim mem
  ]
]

-- where the last `c` of a text is
abbrev IsLast : Memory → ℕ → ℕ → ℕ → Option ℕ → Type 0
IsLast mem s n c none = (i : ℕ) → i < n → mem (s + i) ≢ c
IsLast mem s n c (some at) =
    (s ≤ at) × (at < s + n) × (mem at ≡ c) × ((i : ℕ) → at < i → i < s + n → mem i ≢ c)

-- one character more
IsLast-suc :
    (mem : Memory) (s k c : ℕ) (last : Option ℕ)
    → IsLast mem s k c last
    → IsLast mem s (suc k) c (if mem (s + k) == c then some (s + k) else last)
IsLast-suc mem s k c last h = elim (Bool-cases (mem (s + k) == c)) [
  | inl here ↦
      let e : mem (s + k) ≡ c = ground (arith, here) in
      rw here (omega arith, omega arith, e, λ i lt lt'. absurd (omega arith))
  | inr other ↦ let ne : mem (s + k) ≢ c = ground (arith, other) in rw other (kept last h ne)
]
  where
    kept : (l : Option ℕ) → IsLast mem s k c l → mem (s + k) ≢ c → IsLast mem s (suc k) c l
    kept none h ne = λ i lt e. elim (Bool-cases (i == k)) [
      | inl end ↦ let j : k ≡ i = ground (arith, end) in ne (ap (λ a. mem (s + a)) j ∙ e)
      | inr before ↦ h i (ground (arith, before)) e
    ]
    kept (some at) (lo, hi, found_it, rest) ne = (
      lo,
      omega arith,
      found_it,
      λ i lt lt' e. elim (Bool-cases (i == s + k)) [
        | inl end ↦ let j : s + k ≡ i = ground (arith, end) in ne (ap mem j ∙ e)
        | inr before ↦ rest i lt (ground (arith, before)) e
      ],
    )

strrchr_from-IsLast :
    (fuel n k s c : ℕ) (last : Option ℕ) (mem : Memory)
    → IsLast mem s k c last
    → IsText mem (s + k) n
    → n < fuel
    → (r : Option ℕ) × (strrchr_from fuel (s + k) c last mem ≡ some r) × IsLast mem s (k + n) c r
unfolding strrchr_from
strrchr_from-IsLast zero n k s c last mem h t f = absurd (omega arith)
strrchr_from-IsLast (suc fuel) zero k s c last mem h t f =
    let end : (mem (s + k) == 0) ≡ true = ground (arith, IsText-zero mem (s + k) t) in
    let same : k + 0 ≡ k = omega arith in (last, rw (strrchr_from, end) refl, rw same h)
strrchr_from-IsLast (suc fuel) (suc n) k s c last mem h t f =
    let more : (mem (s + k) == 0) ≡ false = ground (arith, IsText-head mem (s + k) n t) in
    let step : s + suc k ≡ s + k + 1 = omega arith in
    let next = if mem (s + k) == c then some (s + k) else last in
    let (r, yields, is_last) =
      strrchr_from-IsLast fuel n (suc k) s c next mem (IsLast-suc mem s k c last h)
        (rw step (IsText-tail mem (s + k) n t)) (omega arith) in
    let total : k + suc n ≡ suc k + n = omega arith in
    (
      r,
      rw (strrchr_from, more) (ap (λ a. strrchr_from fuel a c next mem) (sym step) ∙ yields),
      rw total is_last,
    )

-- With more fuel than the text has bytes, `strrchr` stops and returns the address of the last `c` in
-- the text, and `NULL` where there is none.
strrchr-IsLast :
    (fuel n s c : ℕ) (mem : Memory)
    → IsText mem s n
    → n < fuel
    → (r : Option ℕ) × (strrchr fuel s c mem ≡ some r) × IsLast mem s n c r
unfolding strrchr
strrchr-IsLast fuel n s c mem t f =
    let start : s + 0 ≡ s = omega arith in
    let (r, yields, is_last) =
      strrchr_from-IsLast fuel n 0 s c none mem (λ i lt. absurd (omega arith)) (rw start t) f in
    (
      r,
      ap (λ a. strrchr_from fuel a c none mem) (sym start) ∙ yields,
      subst (λ m. IsLast mem s m c r) (zero_add n) is_last,
    )
  where
    zero_add : (m : ℕ) → 0 + m ≡ m
    zero_add m = omega arith

-- ===== src/Str.antt =====
-- src/libs/string.c over byte-addressed memory. A function that writes returns the new memory. A
-- loop that runs to the end of a string takes fuel, one unit a round, and returns `none` where
-- that runs out. Addresses do not wrap.
pub mod Memory
pub mod Text
pub mod Copy
pub mod Join
pub mod Numeral
pub mod Search
use hal_os.Base.{
  ℕ, zero, suc, ◌+◌, ◌-◌, ◌%◌, ◌^◌, ◌==◌, ltb, leb, Bool, true, false, not, ◌&&◌, ◌||◌,
  if◌then◌else◌,
}
use hal_os.Base.{u8, update, Option, none, some}

abbrev pub Memory : Type 0
Memory = ℕ → ℕ

unfoldable pub memset : ℕ → ℕ → ℕ → Memory → Memory
memset dst c zero mem = mem
memset dst c (suc n) mem = memset (dst + 1) c n (update mem dst (u8 c))

unfoldable pub memcpy : ℕ → ℕ → ℕ → Memory → Memory
memcpy dst src zero mem = mem
memcpy dst src (suc n) mem = memcpy (dst + 1) (src + 1) n (update mem dst (mem src))

-- the loop of `memmove` that goes down from `i`
unfoldable pub copy_down : ℕ → ℕ → ℕ → Memory → Memory
copy_down dst src zero mem = mem
copy_down dst src (suc i) mem = copy_down dst src i (update mem (dst + i) (mem (src + i)))

-- The loop of `memmove` that goes up is the one of `memcpy`, by an index.
unfoldable pub copy_up : ℕ → ℕ → ℕ → ℕ → Memory → Memory
copy_up dst src zero i mem = mem
copy_up dst src (suc left) i mem =
    copy_up dst src left (i + 1) (update mem (dst + i) (mem (src + i)))

unfoldable pub memmove : ℕ → ℕ → ℕ → Memory → Memory
memmove dst src n mem = if ltb dst src then copy_up dst src n 0 mem else copy_down dst src n mem

-- The sign of a result: the value is compared with 0 and no more.
pub data Sign : Type 0 where
  less equal greater : Sign

abbrev pub sign_of : ℕ → ℕ → Sign
sign_of a b = if a == b then equal else if ltb a b then less else greater

-- `*p1 - *p2` at the first bytes that differ, by its sign
unfoldable pub memcmp : ℕ → ℕ → ℕ → Memory → Sign
memcmp s1 s2 zero mem = equal
memcmp s1 s2 (suc n) mem = elim (mem s1 == mem s2) [
  | false ↦ sign_of (mem s1) (mem s2)
  | true ↦ memcmp (s1 + 1) (s2 + 1) n mem
]

unfoldable pub strlen : ℕ → ℕ → Memory → Option ℕ
strlen zero s mem = none
strlen (suc fuel) s mem = elim (mem s == 0) [
  | true ↦ some 0
  | false ↦ elim (strlen fuel (s + 1) mem) [ none ↦ none | some len ↦ some (len + 1) ]
]

-- the first loop of `strncpy`, from index `i`: the index that it stops at, and the memory
unfoldable pub copy_text : ℕ → ℕ → ℕ → ℕ → Memory → ℕ × Memory
copy_text dest src zero i mem = (i, mem)
copy_text dest src (suc left) i mem = elim (mem (src + i) == 0) [
  | true ↦ (i, mem)
  | false ↦ copy_text dest src left (i + 1) (update mem (dest + i) (mem (src + i)))
]

unfoldable pub strncpy : ℕ → ℕ → ℕ → Memory → Memory
strncpy dest src n mem =
    let (i, copied) = copy_text dest src n 0 mem in memset (dest + i) 0 (n - i) copied

-- 0 for equal strings and 1 for others
unfoldable pub strcmp : ℕ → ℕ → ℕ → Memory → Option ℕ
strcmp zero s1 s2 mem = none
strcmp (suc fuel) s1 s2 mem = elim (mem s1 == mem s2) [
  | false ↦ some 1
  | true ↦ elim (mem s2 == 0) [ true ↦ some 0 | false ↦ strcmp fuel (s1 + 1) (s2 + 1) mem ]
]

unfoldable pub strcpy : ℕ → ℕ → ℕ → Memory → Option Memory
strcpy zero dst src mem = none
strcpy (suc fuel) dst src mem =
    let next = update mem dst (mem src) in
    elim (mem src == 0) [ true ↦ some next | false ↦ strcpy fuel (dst + 1) (src + 1) next ]

-- `while (*dest) dest++;`
unfoldable pub end_of : ℕ → ℕ → Memory → Option ℕ
end_of zero s mem = none
end_of (suc fuel) s mem = elim (mem s == 0) [ true ↦ some s | false ↦ end_of fuel (s + 1) mem ]

unfoldable pub strcat : ℕ → ℕ → ℕ → Memory → Option Memory
strcat fuel dest src mem = elim (end_of fuel dest mem) [
  | none ↦ none
  | some last ↦ strcpy fuel last src mem
]

-- The loop of `strncat` is the first loop of `strncpy`, at the end of `dest`.
unfoldable pub strncat : ℕ → ℕ → ℕ → ℕ → Memory → Option Memory
strncat fuel dest src n mem = elim (strlen fuel dest mem) [
  | none ↦ none
  | some dest_len ↦
      let (i, copied) = copy_text (dest + dest_len) src n 0 mem in
      some (update copied (dest + dest_len + i) 0)
]

-- The outer option is the fuel's, the inner one is `NULL`.
unfoldable pub strchr : ℕ → ℕ → ℕ → Memory → Option (Option ℕ)
strchr zero s c mem = none
strchr (suc fuel) s c mem = elim (mem s == 0) [
  | true ↦ some (if u8 c == 0 then some s else none)
  | false ↦ elim (mem s == u8 c) [ true ↦ some (some s) | false ↦ strchr fuel (s + 1) c mem ]
]

unfoldable pub isspace : ℕ → Bool
isspace c = c == 32 || (leb 9 c && leb c 13)

unfoldable pub isalpha : ℕ → Bool
isalpha c = (leb 65 c && leb c 90) || (leb 97 c && leb c 122)

unfoldable pub upper : ℕ → ℕ
upper c = if leb 97 c && leb c 122 then c - 32 else c

unfoldable pub lower : ℕ → ℕ
lower c = if leb 65 c && leb c 90 then c + 32 else c

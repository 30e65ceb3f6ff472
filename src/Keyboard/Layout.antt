-- ===== src/Keyboard/Layout.antt =====
-- The keys of src/drivers/keyboard.c beside a keyboard for the United States.
use Prim.Native.Nat.{bit_and}
use mathlib.Core.Path.{subst}
use hal_os.Base.{ℕ, ◌+◌, sym, ◌==◌, Bool, true, false, not, ◌&&◌, if◌then◌else◌}
use hal_os.Base.{
  ◌≡◌, refl, arith, ◌∙◌, Bool-cases, inl, inr, List, [], ◌∷◌, ◌++◌, get_or, leb, Option, none, some,
}
use hal_os.Str.{isalpha, upper}
use hal_os.Keyboard.{Keyboard, scan_code_chars, switch, keyboard_handler}
use hal_os.Keyboard.Typed.{IsTyping, meant, keyboard_handler-meant}

-- a key of a keyboard for the United States: its scan code and the signs on it
pub record Key : Type 0 where
  pub code : ℕ
  pub lower_sign : ℕ
  pub upper_sign : ℕ

-- the keys of a row, whose scan codes count up
abbrev row : ℕ → List (ℕ × ℕ) → List Key
row code [] = []
row code ((a, b) ∷ rest) =
    record { code = code; lower_sign = a; upper_sign = b } ∷ row (code + 1) rest

abbrev digits : List Key
digits = row 0x02 (
    (b'1', b'!')
    ∷ (b'2', b'@')
    ∷ (b'3', b'#')
    ∷ (b'4', b'$')
    ∷ (b'5', b'%')
    ∷ (b'6', b'^')
    ∷ (b'7', b'&')
    ∷ (b'8', b'*')
    ∷ (b'9', b'(')
    ∷ (b'0', b')')
    ∷ (b'-', b'_')
    ∷ (b'=', b'+')
    ∷ [])

abbrev top_row : List Key
top_row = row 0x10 (
    (b'q', b'Q')
    ∷ (b'w', b'W')
    ∷ (b'e', b'E')
    ∷ (b'r', b'R')
    ∷ (b't', b'T')
    ∷ (b'y', b'Y')
    ∷ (b'u', b'U')
    ∷ (b'i', b'I')
    ∷ (b'o', b'O')
    ∷ (b'p', b'P')
    ∷ (b'[', b'{')
    ∷ (b']', b'}')
    ∷ [])

abbrev home_row : List Key
home_row = row 0x1E (
    (b'a', b'A')
    ∷ (b's', b'S')
    ∷ (b'd', b'D')
    ∷ (b'f', b'F')
    ∷ (b'g', b'G')
    ∷ (b'h', b'H')
    ∷ (b'j', b'J')
    ∷ (b'k', b'K')
    ∷ (b'l', b'L')
    ∷ (b';', b':')
    ∷ (39, 34)
    ∷ (b'`', b'~')
    ∷ [])

abbrev bottom_row : List Key
bottom_row = row 0x2B (
    (92, b'|')
    ∷ (b'z', b'Z')
    ∷ (b'x', b'X')
    ∷ (b'c', b'C')
    ∷ (b'v', b'V')
    ∷ (b'b', b'B')
    ∷ (b'n', b'N')
    ∷ (b'm', b'M')
    ∷ (b',', b'<')
    ∷ (b'.', b'>')
    ∷ (b'/', b'?')
    ∷ [])

-- the keys with two signs on them
abbrev pub layout : List Key
layout = digits ++ (top_row ++ (home_row ++ bottom_row))

abbrev pub is_letter : Key → Bool
is_letter key = leb b'a' key.lower_sign && leb key.lower_sign b'z'

-- The sign that a key types: `SHIFT` gives the upper one, and on a letter `CAPS LOCK` turns that
-- around.
abbrev pub sign : Bool → Bool → Key → ℕ
sign caps shift key =
    let upwards = if is_letter key && caps then not shift else shift in
    if upwards then key.upper_sign else key.lower_sign

-- the key with a scan code
unfoldable pub key_of : ℕ → List Key → Option Key
key_of code [] = none
key_of code (key ∷ keys) = if key.code == code then some key else key_of code keys

-- Does a key's scan code type, and do the code's tables have its signs for these flags?
gives : Key → Bool → Bool → Bool
gives key caps shift = meant caps shift (get_or scan_code_chars key.code 0) == sign caps shift key

types : ℕ → Bool
types code =
    bit_and code 0x80 == 0
    && not (code == 0x3A)
    && not (code == 0x1C)
    && not (code == 0x0F)
    && not (code == 0x2A)

agrees : Key → Bool
agrees key =
    types key.code
    && (gives key false false
        && (gives key false true && (gives key true false && gives key true true)))

all_agree : List Key → Bool
all_agree [] = true
all_agree (key ∷ keys) = agrees key && all_agree keys

layout-all_agree : all_agree layout ≡ true
unfolding all_agree agrees gives types switch isalpha upper
layout-all_agree = refl

key_of-agrees :
    (code : ℕ) (keys : List Key) (key : Key)
    → all_agree keys ≡ true
    → key_of code keys ≡ some key
    → (key.code ≡ code) × (agrees key ≡ true)
unfolding key_of all_agree
key_of-agrees code [] key h e = absurd (cc)
key_of-agrees code (first ∷ keys) key h e = elim (Bool-cases (first.code == code)) [
  | inl here ↦
      let taken : some first ≡ some key = rw here at e in
      let same : first ≡ key = cc in
      (rw (sym same) (ground (arith, here)), rw (sym same) (ground (arith, h)))
  | inr further ↦ key_of-agrees code keys key (ground (arith, h)) (rw further at e)
]

types-IsTyping : (code : ℕ) → types code ≡ true → IsTyping code
unfolding types
types-IsTyping code h = record {
  pressed = ground (arith, h);
  caps = ground (arith, h);
  enter = ground (arith, h);
  tab = ground (arith, h);
  shift = ground (arith, h);
}

agrees-types : (key : Key) → agrees key ≡ true → types key.code ≡ true
unfolding agrees
agrees-types key h = ground (arith, h)

agrees-gives : (key : Key) (caps shift : Bool) → agrees key ≡ true → gives key caps shift ≡ true
unfolding agrees
agrees-gives key false false h = ground (arith, h)
agrees-gives key false true h = ground (arith, h)
agrees-gives key true false h = ground (arith, h)
agrees-gives key true true h = ground (arith, h)

tested_equal : (a b : ℕ) → a == b ≡ true → a ≡ b
tested_equal a b h = ground (arith, h)

gives_lem :
    (key : Key) (caps shift : Bool)
    → gives key caps shift ≡ true
    → meant caps shift (get_or scan_code_chars key.code 0) ≡ sign caps shift key
unfolding gives
gives_lem key caps shift h =
    tested_equal (meant caps shift (get_or scan_code_chars key.code 0)) (sign caps shift key) h

-- On a keyboard for the United States, each key of the four rows with signs on them types its upper sign
-- where the `SHIFT` flag is set and its lower one elsewhere, and on a letter a `CAPS LOCK` flag that
-- is set turns that around; the flags are `g_shift_pressed` and `g_caps_lock` when the key is
-- pressed.
pub keyboard_handler-layout :
    (code : ℕ) (key : Key) (k : Keyboard)
    → key_of code layout ≡ some key
    → (keyboard_handler code k).ch ≡ sign k.caps_lock k.shift_pressed key
keyboard_handler-layout code key k e =
    let (its_code, ok) = key_of-agrees code layout key layout-all_agree e in
    let typing : IsTyping code =
      subst IsTyping its_code (types-IsTyping key.code (agrees-types key ok)) in
    keyboard_handler-meant code k typing
    ∙ subst
        (λ c.
          meant k.caps_lock k.shift_pressed (get_or scan_code_chars c 0)
          ≡ sign k.caps_lock k.shift_pressed key)
        its_code
        (gives_lem key k.caps_lock k.shift_pressed
          (agrees-gives key k.caps_lock k.shift_pressed ok))

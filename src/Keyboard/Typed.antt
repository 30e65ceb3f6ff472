-- ===== src/Keyboard/Typed.antt =====
-- Which characters the keys of src/drivers/keyboard.c type.
use Prim.Native.Nat.{bit_and}
use hal_os.Base.{ℕ, ◌==◌, Bool, true, false, not, ◌&&◌, ◌||◌, if◌then◌else◌}
use hal_os.Base.{◌≡◌, ◌≢◌, refl, arith, ap, ◌∙◌, Bool-cases, inl, inr, List, [], ◌∷◌, get_or}
use hal_os.Str.{isalpha, upper}
use hal_os.Keyboard.{
  Keyboard, scan_code_chars, alternates, alternate_chars, switch, type_char, keyboard_handler,
}

-- a key that types a character: not a release, and none of the four that the code handles itself
pub record IsTyping (scancode : ℕ) : Type 0 where
  pub pressed : bit_and scancode 0x80 ≡ 0
  pub caps : scancode ≢ 0x3A
  pub enter : scancode ≢ 0x1C
  pub tab : scancode ≢ 0x0F
  pub shift : scancode ≢ 0x2A

-- the character by the code's own tables: capital letters by one of the two flags but not by both,
-- and the upper sign of other keys by `SHIFT` alone
abbrev pub meant : Bool → Bool → ℕ → ℕ
meant caps shift c =
    if isalpha c
    then if (caps && not shift) || (shift && not caps) then upper c else c
    else if shift
    then alternate_chars c
    else c

-- Is no letter a case of the `switch`?
no_letters : List (ℕ × ℕ) → Bool
no_letters [] = true
no_letters ((a, b) ∷ rest) = not (isalpha a) && no_letters rest

no_letters-alternates : no_letters alternates ≡ true
unfolding isalpha no_letters
no_letters-alternates = refl

switch-letter :
    (cases : List (ℕ × ℕ)) (c : ℕ) → no_letters cases ≡ true → isalpha c ≡ true → switch cases c ≡ c
unfolding switch no_letters
switch-letter [] c n h = refl
switch-letter ((a, b) ∷ rest) c n h = elim (Bool-cases (a == c)) [
  | inl same ↦ absurd (ground (arith, same, h, n))
  | inr other ↦ rw (switch, other) (switch-letter rest c (ground (arith, n)) h)
]

upper-other : (c : ℕ) → isalpha c ≡ false → upper c ≡ c
unfolding upper isalpha
upper-other c h = ground (arith, h)

type_char-meant : (c : ℕ) (k : Keyboard) → (type_char c k).ch ≡ meant k.caps_lock k.shift_pressed c
unfolding type_char
type_char-meant c k = elim (Bool-cases (isalpha c)) [
  | inl letter ↦ ground (arith, letter, switch-letter alternates c no_letters-alternates letter)
  | inr other ↦ ground (arith, other, upper-other c other)
]

typing-type_char :
    (scancode : ℕ) (k : Keyboard)
    → IsTyping scancode
    → keyboard_handler scancode k
      ≡ type_char (get_or scan_code_chars scancode 0) (record k { ch = 0; scan_code = scancode })
unfolding keyboard_handler
typing-type_char scancode k t = ground (arith, t.pressed, t.caps, t.enter, t.tab, t.shift)

-- A key that types has the character that is meant by its sign and the two flags, whatever the code
-- asks first.
pub keyboard_handler-meant :
    (scancode : ℕ) (k : Keyboard)
    → IsTyping scancode
    → (keyboard_handler scancode k).ch
      ≡ meant k.caps_lock k.shift_pressed (get_or scan_code_chars scancode 0)
keyboard_handler-meant scancode k t =
    ap (λ r. r.ch) (typing-type_char scancode k t)
    ∙ type_char-meant (get_or scan_code_chars scancode 0)
        (record k { ch = 0; scan_code = scancode })

-- the keyboard behind a sequence of scan codes
abbrev pub handle_all : List ℕ → Keyboard → Keyboard
handle_all [] k = k
handle_all (s ∷ rest) k = handle_all rest (keyboard_handler s k)

abbrev pub NoCaps : List ℕ → Type 0
NoCaps [] = Unit {0}
NoCaps (s ∷ rest) = (s ≢ 0x3A) × NoCaps rest

keeps_shift :
    (s : ℕ) (k : Keyboard)
    → s ≢ 0x3A
    → k.caps_lock ≡ true
    → k.shift_pressed ≡ true
    → ((keyboard_handler s k).caps_lock ≡ true) × ((keyboard_handler s k).shift_pressed ≡ true)
unfolding keyboard_handler type_char
keeps_shift s k ne caps shift = ground (arith, ne, caps, shift)

-- While `CAPS LOCK` is on, `SHIFT` stays pressed for all keys behind it, released or not: no sequence
-- of scan codes without `CAPS LOCK` lets go of it.
pub handle_all-shift :
    (codes : List ℕ) (k : Keyboard)
    → NoCaps codes
    → k.caps_lock ≡ true
    → k.shift_pressed ≡ true
    → (handle_all codes k).shift_pressed ≡ true
handle_all-shift [] k n caps shift = shift
handle_all-shift (s ∷ rest) k n caps shift =
    let (c, p) = keeps_shift s k n.0 caps shift in
    handle_all-shift rest (keyboard_handler s k) n.1 c p

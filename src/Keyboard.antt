-- ===== src/Keyboard.antt =====
-- src/drivers/keyboard.c: the handler of the keyboard's interrupt. The scan code that the ports give
-- is an argument.
pub mod Typed
pub mod Layout
use Prim.Native.Nat.{bit_and}
use hal_os.Base.{
  ℕ, ◌%◌, ◌^◌, ◌==◌, Bool, true, false, not, ◌&&◌, if◌then◌else◌, List, [], ◌∷◌, get_or,
}
use hal_os.Str.{isalpha, upper}

-- the static variables of the file
pub record Keyboard : Type 0 where
  pub caps_lock : Bool
  pub shift_pressed : Bool
  pub ch : ℕ
  pub scan_code : ℕ

-- `g_scan_code_chars` up to its last character that is not 0
abbrev pub scan_code_chars : List ℕ
scan_code_chars =
    0 ∷ 27 ∷ b'1' ∷ b'2' ∷ b'3' ∷ b'4' ∷ b'5' ∷ b'6' ∷ b'7' ∷ b'8' ∷ b'9' ∷ b'0' ∷ b'-' ∷ b'=' ∷ 8
    ∷ 9 ∷ b'q' ∷ b'w' ∷ b'e' ∷ b'r' ∷ b't' ∷ b'y' ∷ b'u' ∷ b'i' ∷ b'o' ∷ b'p' ∷ b'[' ∷ b']' ∷ 10 ∷ 0
    ∷ b'a' ∷ b's' ∷ b'd' ∷ b'f' ∷ b'g' ∷ b'h' ∷ b'j' ∷ b'k' ∷ b'l' ∷ b';' ∷ 39 ∷ b'`' ∷ 0 ∷ 92
    ∷ b'z' ∷ b'x' ∷ b'c' ∷ b'v' ∷ b'b' ∷ b'n' ∷ b'm' ∷ b',' ∷ b'.' ∷ b'/' ∷ 0 ∷ b'*' ∷ 0 ∷ 32 ∷ 0
    ∷ 0 ∷ 0 ∷ 0 ∷ 0 ∷ 0 ∷ 0 ∷ 0 ∷ 0 ∷ 0 ∷ 0 ∷ 0 ∷ 0 ∷ 0 ∷ 0 ∷ 0 ∷ b'-' ∷ 0 ∷ 0 ∷ 0 ∷ b'+' ∷ []

-- the cases of the `switch`, and what they return
abbrev pub alternates : List (ℕ × ℕ)
alternates =
    (b'`', b'~')
    ∷ (b'1', b'!')
    ∷ (b'2', b'@')
    ∷ (b'3', b'#')
    ∷ (b'4', b'$')
    ∷ (b'5', b'%')
    ∷ (b'6', b'^')
    ∷ (b'7', b'&')
    ∷ (b'8', b'*')
    ∷ (b'9', b'(')
    ∷ (b'0', b')')
    ∷ (b'-', b'_')
    ∷ (b'=', b'+')
    ∷ (b'[', b'{')
    ∷ (b']', b'}')
    ∷ (92, b'|')
    ∷ (b';', b':')
    ∷ (39, 34)
    ∷ (b',', b'<')
    ∷ (b'.', b'>')
    ∷ (b'/', b'?')
    ∷ []

-- a `switch` with `default: return ch`
unfoldable pub switch : List (ℕ × ℕ) → ℕ → ℕ
switch [] ch = ch
switch ((a, b) ∷ rest) ch = elim (a == ch) [ true ↦ b | false ↦ switch rest ch ]

abbrev pub alternate_chars : ℕ → ℕ
alternate_chars ch = switch alternates ch

-- the `default` branch
unfoldable pub type_char : ℕ → Keyboard → Keyboard
type_char c k =
    if k.caps_lock
    then record k { ch = if k.shift_pressed then alternate_chars c else upper c }
    else record k {
      ch = if k.shift_pressed then if isalpha c then upper c else alternate_chars c else c;
      shift_pressed = false;
    }

unfoldable pub keyboard_handler : ℕ → Keyboard → Keyboard
keyboard_handler scancode k =
    let read = record k { ch = 0; scan_code = scancode } in
    if not (bit_and scancode 0x80 == 0)
    then read
    else if scancode == 0x3A
    then record read { caps_lock = not k.caps_lock }
    else if scancode == 0x1C
    then record read { ch = 10 }
    else if scancode == 0x0F
    then record read { ch = 9 }
    else if scancode == 0x2A
    then record read { shift_pressed = true }
    else type_char (get_or scan_code_chars scancode 0) read

-- What `kb_getchar` returns once there is a character, and what it leaves.
unfoldable pub kb_getchar : Keyboard → ℕ × Keyboard
kb_getchar k = (k.ch, record k { ch = 0; scan_code = 0 })

unfoldable pub kbhit : Keyboard → ℕ
kbhit k = if k.ch == 0 then 0 else 1

unfoldable pub kb_get_scancode : Keyboard → ℕ × Keyboard
kb_get_scancode k = (k.scan_code, record k { ch = 0; scan_code = 0 })

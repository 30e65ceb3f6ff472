-- ===== src/Tests/Keys.antt =====
-- src/drivers/keyboard.c at concrete scan codes.
use hal_os.Base.{true, false, ◌≡◌, some, refl, arith, [], ◌∷◌}
use hal_os.Keyboard.{Keyboard, keyboard_handler}
use hal_os.Keyboard.Typed.{handle_all, handle_all-shift}
use hal_os.Keyboard.Layout.{Key, key_of, layout, keyboard_handler-layout}

abbrev shifted : Keyboard
shifted = record { caps_lock = false; shift_pressed = true; ch = 0; scan_code = 0 }

abbrev locked : Keyboard
locked = record shifted { caps_lock = true }

-- the key of the digit 2
abbrev two : Key
two = record { code = 0x03; lower_sign = b'2'; upper_sign = b'@' }

found_two : key_of 0x03 layout ≡ some two
unfolding key_of
found_two = refl

keyboard_handler-layout_example : (keyboard_handler 0x03 shifted).ch ≡ b'@'
keyboard_handler-layout_example = keyboard_handler-layout 0x03 two shifted found_two

-- `SHIFT` is released, and a letter typed
handle_all-shift_example : (handle_all (0xAA ∷ 0x1E ∷ []) locked).shift_pressed ≡ true
handle_all-shift_example =
    handle_all-shift (0xAA ∷ 0x1E ∷ []) locked (omega arith, (omega arith, tt)) refl refl

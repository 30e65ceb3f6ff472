-- ===== src/Tests/Texts.antt =====
-- The functions of src/libs/string.c at concrete inputs.
use hal_os.Base.{◌+◌, ltb, leb, if◌then◌else◌}
use hal_os.Base.{◌≡◌, arith, some}
use hal_os.Str.Numeral.{atoi, itoa}
use hal_os.Str.Numeral.RoundTrip.{atoi-itoa}
use hal_os.Str.{Memory, memmove}
use hal_os.Str.Memory.{IsWritten, memmove-IsWritten}

-- "aa" at address 8 and "aaaa" at address 16
abbrev heap : Memory
heap a =
    if leb 8 a
    then if ltb a 10 then 97 else if leb 16 a then if ltb a 20 then 97 else 0 else 0
    else 0

memmove-IsWritten_example : IsWritten 17 4 (λ i. heap (16 + i)) heap (memmove 17 16 4 heap)
memmove-IsWritten_example = memmove-IsWritten 17 16 4 heap

-- -42
atoi-itoa_example : atoi 40 (itoa b'd' 0xFFFFFFD6 (λ i. 0)) ≡ some 0xFFFFFFD6
atoi-itoa_example = atoi-itoa 0xFFFFFFD6 40 (λ i. 0) (omega arith) (omega arith)

-- ===== src/Net/Eth.antt =====
-- `eth_send_frame` of src/drivers/net/eth.c. The frame that goes to the driver is the header, the
-- data and zeros up to 60 bytes. The buffer on the stack has 1518 bytes, and the copy into it is
-- not checked.
use hal_os.Base.{ℕ, ◌+◌, ◌-◌, ltb, ◌||◌, if◌then◌else◌, u16}
use hal_os.Base.{none, some, List, [], ◌∷◌, ◌++◌, length, replicate}
use hal_os.Net.{Net}
use hal_os.Net.Bytes.{htons, store16}

abbrev pub frame_max : ℕ
frame_max = 1518

abbrev pub source_mac : Net → List ℕ
source_mac net = elim (net.driver_mac) [ none ↦ net.mac | some own ↦ own ]

abbrev pub frame_length : ℕ → ℕ
frame_length len = if ltb (u16 (14 + len)) 60 then 60 else u16 (14 + len)

unfoldable pub eth_frame : Net → List ℕ → ℕ → List ℕ → List ℕ
eth_frame net dest ethertype payload =
    dest
    ++ (source_mac net
        ++ (store16 (htons ethertype)
            ++ (payload ++ replicate (frame_length (length payload) - (14 + length payload)) 0)))

unfoldable pub eth_send_frame : List ℕ → ℕ → List ℕ → Net → Net
eth_send_frame dest ethertype payload net =
    if net.has_nic
    then record net {
      sent = net.sent ++ (eth_frame net dest ethertype payload ∷ []);
      overrun = net.overrun || ltb frame_max (14 + length payload);
    }
    else net

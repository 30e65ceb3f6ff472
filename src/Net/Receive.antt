-- ===== src/Net/Receive.antt =====
-- `net_process_packet` of src/drivers/net/network.c. `frame` is memory from the address `data` on,
-- since the code reads ARP fields without looking at the length. The handler of TCP segments,
-- src/drivers/net/tcp.c, is an argument: it is given the header, memory from the segment on, the
-- length of the segment and the state.
pub mod Filter
pub mod Tables
use hal_os.Base.{
  ℕ, ◌+◌, ◌-◌, ◌*◌, ◌/◌, ◌%◌, ◌^◌, ◌==◌, ltb, leb, Bool, true, false, not, ◌&&◌, ◌||◌,
  if◌then◌else◌, u16,
}
use hal_os.Base.{List, [], ◌∷◌, ◌++◌, length}
use hal_os.Net.{Net}
use hal_os.Net.Bytes.{htons, htonl, store16, load16, load32, bytes}
use hal_os.Net.Eth.{eth_send_frame}
use hal_os.Net.Arp.{arp_cache_update}
use hal_os.Net.Icmp.{icmp_handle}

-- the four bytes from `i` on, the first one on top
abbrev pub big32 : (ℕ → ℕ) → ℕ → ℕ
big32 m i = m i * 2 ^ 24 + m (i + 1) * 2 ^ 16 + m (i + 2) * 2 ^ 8 + m (i + 3)

-- the reply to a request: the fields up to the opcode stay as they are
unfoldable pub arp_reply : List ℕ → (ℕ → ℕ) → List ℕ
arp_reply mac frame =
    bytes frame 14 6
    ++ (store16 (htons 2) ++ (mac ++ (bytes frame 38 4 ++ (bytes frame 22 6 ++ bytes frame 28 4))))

unfoldable pub receive_arp : (ℕ → ℕ) → Net → Net
receive_arp frame net =
    let opcode = htons (load16 frame 20) in
    if opcode == 2
    then arp_cache_update (htonl (load32 frame 28)) (bytes frame 22 6) net
    else if opcode == 1
    then if htonl (big32 frame 38) == net.ip_addr
      then eth_send_frame (bytes frame 22 6) 0x0806 (arp_reply net.mac frame)
          (arp_cache_update (big32 frame 28) (bytes frame 22 6) net)
      else net
    else net

-- what the IP header of a frame says
abbrev pub header_len : (ℕ → ℕ) → ℕ
header_len frame = frame 14 % 16 * 4

abbrev pub total_length : (ℕ → ℕ) → ℕ
total_length frame = htons (load16 frame 16)

-- the checks of the IP branch, in order: lengths, header, fragments, destination
unfoldable pub accepts_ip : (ℕ → ℕ) → ℕ → Net → Bool
accepts_ip frame len net =
    let fragment = htons (load16 frame 20) in
    let dst = htonl (load32 frame 30) in
    if ltb len 34
    then false
    else if not (frame 14 / 16 == 4)
        || ltb (frame 14 % 16) 5
        || ltb (total_length frame) (header_len frame)
    then false
    else if ltb len (14 + total_length frame)
    then false
    else if not (fragment % 2 ^ 13 == 0) || not (fragment / 2 ^ 13 % 2 == 0)
    then false
    else if not (dst == net.ip_addr) && not (dst == 0xFFFFFFFF)
    then false
    else true

module _ (malloc : ℕ → Bool) (tcp : List ℕ → (ℕ → ℕ) → ℕ → Net → Net) where
  unfoldable pub receive_ip : (ℕ → ℕ) → ℕ → Net → Net
  receive_ip frame len net =
      let body = bytes frame (14 + header_len frame) (total_length frame - header_len frame) in
      if not (accepts_ip frame len net)
      then net
      else if frame 23 == 6
      then tcp (bytes frame 14 20) (λ i. frame (14 + header_len frame + i)) (length body) net
      else if frame 23 == 1
      then if ltb (length body) 8
        then net
        else icmp_handle malloc (htonl (load32 frame 26)) body net
      else net

  unfoldable pub process_packet : (ℕ → ℕ) → ℕ → Net → Net
  process_packet frame len net =
      let ethertype = htons (load16 frame 12) in
      if ltb len 14
      then net
      else if ethertype == 0x0806
      then receive_arp frame net
      else if ethertype == 0x0800
      then receive_ip frame len net
      else net

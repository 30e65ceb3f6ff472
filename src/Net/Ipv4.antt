-- ===== src/Net/Ipv4.antt =====
-- `net_send_ipv4_packet` of src/drivers/net/ipv4.c.
pub mod Send
use Prim.Native.Nat.{bit_and}
use hal_os.Base.{ℕ, ◌+◌, ◌==◌, ltb, Bool, true, false, ◌||◌, if◌then◌else◌, u16}
use hal_os.Base.{Option, none, some, List, [], ◌∷◌, ◌++◌, length, take}
use hal_os.Net.{Net}
use hal_os.Net.Bytes.{htons, htonl, store16, store32}
use hal_os.Net.Checksum.{ip_checksum}
use hal_os.Net.Eth.{eth_send_frame}
use hal_os.Net.Arp.{arp_lookup, queue_packet, send_arp_request}

-- the twenty bytes of the header, with the given bytes for the checksum
abbrev pub header_with : ℕ → ℕ → ℕ → ℕ → ℕ → List ℕ → List ℕ
header_with total_len id protocol src dst checksum =
    (0x45 ∷ 0 ∷ [])
    ++ (store16 (htons total_len)
        ++ (store16 (htons id)
            ++ ((0 ∷ 0 ∷ 64 ∷ protocol ∷ [])
                ++ (checksum ++ (store32 (htonl src) ++ store32 (htonl dst))))))

unfoldable pub ip_header : ℕ → ℕ → ℕ → ℕ → ℕ → List ℕ
ip_header total_len id protocol src dst =
    header_with total_len id protocol src dst
      (store16 (ip_checksum (header_with total_len id protocol src dst (0 ∷ 0 ∷ []))))

unfoldable pub next_hop : Net → ℕ → ℕ
next_hop net dst_ip =
    if bit_and dst_ip net.netmask == bit_and net.ip_addr net.netmask then dst_ip else net.gateway_ip

module _ (malloc : ℕ → Bool) where
  -- `sizeof(packet_buffer)` is 1518.
  unfoldable pub send_ipv4 : ℕ → ℕ → List ℕ → Net → Net
  send_ipv4 dst_ip protocol payload net =
      let total_len = u16 (20 + length payload) in
      if ltb 1518 total_len
      then net
      else let (found, net') = arp_lookup (next_hop net dst_ip) net in
        elim found [
          | none ↦
              send_arp_request net'.ip_addr (next_hop net dst_ip)
                (queue_packet malloc dst_ip protocol payload net')
          | some mac ↦
              eth_send_frame mac 0x0800
                (take total_len
                  (ip_header total_len net'.packet_id protocol net'.ip_addr dst_ip ++ payload))
                (record net' {
                  packet_id = u16 (net'.packet_id + 1);
                  overrun = net'.overrun || ltb 1518 (20 + length payload);
                })
        ]

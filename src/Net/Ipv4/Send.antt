-- ===== src/Net/Ipv4/Send.antt =====
-- What `net_send_ipv4_packet` of src/drivers/net/ipv4.c sends.
use hal_os.Base.{ℕ, ◌+◌, ◌-◌, ◌%◌, ◌/◌, ◌^◌, ◌<◌, ltb, Bool, ◌||◌, u16}
use hal_os.Base.{
  ◌≡◌, Option, none, if◌then◌else◌, refl, arith, replicate, some, List, [], ◌∷◌, ◌++◌, length, take,
}
use hal_os.Net.{Net}
use hal_os.Net.Bytes.{htons, htonl, store16, store32}
use hal_os.Net.Checksum.{ip_checksum, ip_checksum_verifies, ip_checksum-lt}
use hal_os.Net.Eth.{eth_send_frame, source_mac}
use hal_os.Net.Arp.{queue_packet, send_arp_request}
use hal_os.Net.Ipv4.{ip_header, next_hop}

-- The header of a packet, for a protocol number below 256, has a checksum that verifies.
pub ip_checksum-ip_header :
    (total_len id protocol src dst : ℕ)
    → protocol < 256
    → ip_checksum (ip_header total_len id protocol src dst) ≡ 0
unfolding ip_header
ip_checksum-ip_header total_len id protocol src dst h =
    let front : List ℕ =
      (0x45 ∷ 0 ∷ [])
      ++ (store16 (htons total_len) ++ (store16 (htons id) ++ (0 ∷ 0 ∷ 64 ∷ protocol ∷ []))) in
    let back : List ℕ = store32 (htonl src) ++ store32 (htonl dst) in
    let top : ip_checksum (front ++ 0 ∷ 0 ∷ back) / 2 ^ 8 % 256
        ≡ ip_checksum (front ++ 0 ∷ 0 ∷ back) / 2 ^ 8 =
      omega (arith, ip_checksum-lt (front ++ 0 ∷ 0 ∷ back)) in
    rw top (ip_checksum_verifies front back 5 refl (omega arith) (omega arith))

-- the frame that carries a packet: the next hop's address, the own one, the type of IP, the header with
-- its checksum, the payload, and zeros up to 60 bytes
abbrev pub ip_frame : Net → List ℕ → ℕ → ℕ → List ℕ → List ℕ
ip_frame net mac dst_ip protocol payload =
    mac
    ++ (source_mac net
        ++ (8
            ∷ 0
            ∷ ((ip_header (20 + length payload) net.packet_id protocol net.ip_addr dst_ip
                  ++ payload)
                ++ replicate (26 - length payload) 0)))

-- the state in which the frame is sent
abbrev numbered : List ℕ → Net → Net
numbered payload net = record net {
  packet_id = u16 (net.packet_id + 1);
  overrun = net.overrun || ltb 1518 (20 + length payload);
}

-- `net_send_ipv4_packet` from the total length and the result of `arp_lookup` on
send_on : (ℕ → Bool) → ℕ → ℕ → List ℕ → Net → ℕ → Option (List ℕ) × Net → Net
send_on malloc dst_ip protocol payload net total_len (found, net') =
    if ltb 1518 total_len then net else elim found [
      | none ↦
          send_arp_request net'.ip_addr (next_hop net dst_ip)
            (queue_packet malloc dst_ip protocol payload net')
      | some mac ↦
          eth_send_frame mac 0x0800
            (take total_len
              (ip_header total_len net'.packet_id protocol net'.ip_addr dst_ip ++ payload))
            (record net' {
              packet_id = u16 (net'.packet_id + 1);
              overrun = net'.overrun || ltb 1518 (20 + length payload);
            })
    ]

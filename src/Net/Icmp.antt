-- ===== src/Net/Icmp.antt =====
-- src/drivers/net/icmp.c: answering and sending echo requests. What is only printed is left out.
pub mod Echo
use hal_os.Base.{
  ℕ, zero, suc, ◌+◌, ◌-◌, ◌%◌, ◌*◌, ◌/◌, ◌^◌, ◌==◌, ltb, leb, Bool, true, false, not, if◌then◌else◌,
  u16,
}
use hal_os.Base.{Option, none, some, List, [], ◌∷◌, ◌++◌, length, get_or, take, drop}
use hal_os.Net.{Net}
use hal_os.Net.Bytes.{htons, htonl, store16, store32, load16}
use hal_os.Net.Checksum.{ip_checksum}
use hal_os.Net.Arp.{arp_lookup, queue_packet, send_arp_request}
use hal_os.Net.Ipv4.{send_ipv4}

-- `packet` with the bytes 2 and 3, the checksum, replaced
abbrev pub with_checksum : List ℕ → List ℕ → List ℕ
with_checksum packet checksum = take 2 packet ++ (checksum ++ drop 4 packet)

abbrev pub word_at : List ℕ → ℕ → ℕ
word_at packet i = load16 (λ k. get_or packet k 0) i

-- the reply that is built in `response`: type and code 0, and a checksum of its own
unfoldable pub echo_reply : List ℕ → List ℕ
echo_reply packet =
    let blank = 0 ∷ 0 ∷ 0 ∷ 0 ∷ drop 4 packet in with_checksum blank (store16 (ip_checksum blank))

-- `1518 - sizeof(ipv4_header_t)`
abbrev pub max_icmp_len : ℕ
max_icmp_len = 1498

-- `packet[i] = 'A' + (i % 26)`
unfoldable pub pattern_from : ℕ → ℕ → List ℕ
pattern_from zero i = []
pattern_from (suc left) i = (65 + i % 26) ∷ pattern_from left (i + 1)

-- the 64 bytes of an echo request, with the given bytes for the checksum
abbrev pub request_with : ℕ → ℕ → ℕ → List ℕ → List ℕ
request_with id seq ticks checksum =
    (8 ∷ 0 ∷ [])
    ++ (checksum
        ++ (store16 (htons id)
            ++ (store16 (htons seq) ++ (store32 (htonl ticks) ++ pattern_from 52 12))))

unfoldable pub echo_request : ℕ → ℕ → ℕ → List ℕ
echo_request id seq ticks =
    request_with id seq ticks (store16 (ip_checksum (request_with id seq ticks (0 ∷ 0 ∷ []))))

module _ (malloc : ℕ → Bool) where
  -- `src` is the sender's address, in the machine's order.
  unfoldable pub icmp_handle : ℕ → List ℕ → Net → Net
  icmp_handle src packet net =
      let id = htons (word_at packet 4) in
      if ltb (length packet) 8
      then net
      else if leb id net.prev_id
      then net
      else if not (word_at packet 2 == ip_checksum (with_checksum packet (0 ∷ 0 ∷ [])))
      then net
      else if get_or packet 0 0 == 8
      then send_ipv4 malloc src 1 (echo_reply (take max_icmp_len packet)) net
      else if get_or packet 0 0 == 0
      then record net { prev_id = id }
      else net

  unfoldable pub icmp_send_echo_request : ℕ → Net → Net
  icmp_send_echo_request dst_ip net =
      let packet = echo_request net.next_id net.next_seq net.ticks in
      let counted = record net {
        next_id = u16 (net.next_id + 1);
        next_seq = u16 (net.next_seq + 1);
      } in
      let (found, net') = arp_lookup dst_ip counted in
      elim found [
        | none ↦ send_arp_request net'.ip_addr dst_ip (queue_packet malloc dst_ip 1 packet net')
        | some _ ↦ send_ipv4 malloc dst_ip 1 packet net'
      ]

-- ===== src/Net/Receive/Tables.antt =====
-- The whole receive path: src/drivers/net/network.c with src/drivers/net/tcp.c behind it, and what
-- the rest of the kernel calls of TCP.
use hal_os.Base.{ℕ, ◌≡◌, false, ◌+◌, ◌-◌, ◌==◌, ltb, Bool}
use hal_os.Base.{inl, inr, refl, arith, Bool-cases}
use hal_os.Base.{Option, List, length, take}
use hal_os.Net.{Net}
use hal_os.Net.Bytes.{bytes, htons, htonl, load16, load32}
use hal_os.Net.Arp.{arp_cache_update}
use hal_os.Net.Icmp.{icmp_handle, echo_reply, max_icmp_len}
use hal_os.Net.Receive.{
  process_packet, receive_arp, receive_ip, accepts_ip, header_len, total_length, big32, arp_reply,
}
use hal_os.Net.Tcp.Table.{IsTable}
use hal_os.Net.Segment.Send.{SameTables, send_ipv4-SameTables, eth_send_frame-SameTables}
use hal_os.Net.Session.{tcp_handle_packet}
use hal_os.Net.Session.States.{Handled, unmoved}
use hal_os.Net.Session.States.Segment.{tcp_handle_packet-Handled}

SameTables-refl : (net : Net) → SameTables net net
SameTables-refl net = record {
  connections = refl;
  timers = refl;
  ports = refl;
  next = refl;
  fault = refl;
  ticks = refl;
}

arp_cache_update-SameTables :
    (ip : ℕ) (mac : List ℕ) (net : Net) → SameTables net (arp_cache_update ip mac net)
unfolding arp_cache_update
arp_cache_update-SameTables ip mac net = ground arith

receive_arp-SameTables : (frame : ℕ → ℕ) (net : Net) → SameTables net (receive_arp frame net)
unfolding receive_arp
receive_arp-SameTables frame net =
    let learnt = arp_cache_update (big32 frame 28) (bytes frame 22 6) net in
    ground (
      arith,
      arp_cache_update-SameTables (htonl (load32 frame 28)) (bytes frame 22 6) net,
      arp_cache_update-SameTables (big32 frame 28) (bytes frame 22 6) net,
      eth_send_frame-SameTables (bytes frame 22 6) 0x0806 (arp_reply net.mac frame) learnt,
    )

icmp_handle-SameTables :
    (malloc : ℕ → Bool) (src : ℕ) (body : List ℕ) (net : Net)
    → SameTables net (icmp_handle malloc src body net)
unfolding icmp_handle
icmp_handle-SameTables malloc src body net =
    ground (arith, send_ipv4-SameTables malloc src 1 (echo_reply (take max_icmp_len body)) net)

unmoved-Handled : (net net' : Net) → IsTable net → SameTables net net' → Handled net net'
unmoved-Handled net net' t s = unmoved net net' t s.connections s.next

module _ (malloc : ℕ → Bool) (index : Option (List ℕ)) (headers : ℕ → List ℕ) where
  receive_ip-Handled :
      (frame : ℕ → ℕ) (len : ℕ) (net : Net)
      → IsTable net
      → Handled net (receive_ip malloc (tcp_handle_packet malloc index headers) frame len net)
  unfolding receive_ip
  receive_ip-Handled frame len net t =
      let body = bytes frame (14 + header_len frame) (total_length frame - header_len frame) in
      let same = unmoved-Handled net net t (SameTables-refl net) in
      elim (Bool-cases (accepts_ip frame len net)) [
        | inr refused ↦ rw refused same
        | inl taken ↦ rw taken (elim (Bool-cases (frame 23 == 6)) [
          | inl is_tcp ↦ rw is_tcp (
              tcp_handle_packet-Handled malloc index headers (bytes frame 14 20)
                (λ i. frame (14 + header_len frame + i)) (length body) net t)
          | inr other ↦ rw other (elim (Bool-cases (frame 23 == 1)) [
            | inr is_none ↦ rw is_none same
            | inl is_icmp ↦ rw is_icmp (elim (Bool-cases (ltb (length body) 8)) [
              | inl short ↦ rw short same
              | inr long ↦ rw long (
                  unmoved-Handled net _ t
                    (icmp_handle-SameTables malloc (htonl (load32 frame 26)) body net))
            ])
          ])
        ])
      ]

  frame-Handled :
      (frame : ℕ → ℕ) (len : ℕ) (net : Net)
      → IsTable net
      → Handled net (process_packet malloc (tcp_handle_packet malloc index headers) frame len net)
  unfolding process_packet
  frame-Handled frame len net t =
      let ethertype = htons (load16 frame 12) in
      let same = unmoved-Handled net net t (SameTables-refl net) in
      elim (Bool-cases (ltb len 14)) [
        | inl short ↦ rw short same
        | inr long ↦ rw long (elim (Bool-cases (ethertype == 0x0806)) [
          | inl is_arp ↦ rw is_arp (unmoved-Handled net _ t (receive_arp-SameTables frame net))
          | inr other ↦ rw other (elim (Bool-cases (ethertype == 0x0800)) [
            | inl is_ip ↦ rw is_ip (receive_ip-Handled frame len net t)
            | inr is_none ↦ rw is_none same
          ])
        ])
      ]

  -- With connections that lie apart, and a frame whose handling copies nothing past the end of a buffer
  -- and uses no connection that was freed: each connection behind it is one that was there, at most
  -- one arrow of the state diagram further, or a new one in `TCP_SYN_RECEIVED`, and no two
  -- connections lie at one address.
  pub process_packet-Handled :
      (frame : ℕ → ℕ) (len : ℕ) (net : Net)
      → IsTable net
      → (process_packet malloc (tcp_handle_packet malloc index headers) frame len net).overrun
        ≡ false
      → (process_packet malloc (tcp_handle_packet malloc index headers) frame len net).fault ≡ false
      → Handled net (process_packet malloc (tcp_handle_packet malloc index headers) frame len net)
  process_packet-Handled frame len net t kept_in intact = frame-Handled frame len net t

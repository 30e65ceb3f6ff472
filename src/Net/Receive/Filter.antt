-- ===== src/Net/Receive/Filter.antt =====
-- Which frames `net_process_packet` of src/drivers/net/network.c lets through.
use hal_os.Base.{ℕ, ◌+◌, ◌-◌, ◌%◌, ◌^◌, ◌≤◌, ◌<◌, Bool, true, false}
use hal_os.Base.{◌≡◌, ◌≢◌, ◌⊎◌, arith, ap, List}
use hal_os.Net.{Net}
use hal_os.Net.Bytes.{htons, htonl, load16, load32}
use hal_os.Net.Receive.{
  process_packet, receive_arp, receive_ip, accepts_ip, big32, header_len, total_length,
}

-- an ARP request, on the wire, for the address `ip`
pub record IsArpRequestFor (ip : ℕ) (frame : ℕ → ℕ) : Type 0 where
  pub ethertype : htons (load16 frame 12) ≡ 0x0806
  pub opcode : htons (load16 frame 20) ≡ 1
  pub target : big32 frame 38 ≡ ip

-- An ARP request for the machine's own address changes nothing and is not answered, unless the
-- address reads the same with its bytes in reverse: the code reverses the bytes of the target
-- once more after it has put them together in order.
pub process_packet-own_request :
    (malloc : ℕ → Bool) (tcp : List ℕ → (ℕ → ℕ) → ℕ → Net → Net) (frame : ℕ → ℕ) (len : ℕ)
    (net : Net)
    → IsArpRequestFor net.ip_addr frame
    → htonl net.ip_addr ≢ net.ip_addr
    → process_packet malloc tcp frame len net ≡ net
unfolding process_packet receive_arp
process_packet-own_request malloc tcp frame len net r ne =
    ground (arith, r.ethertype, r.opcode, ap htonl r.target)

-- the packet that an accepted frame holds
pub record IsInFrame (frame : ℕ → ℕ) (len : ℕ) (net : Net) : Type 0 where
  pub header : 20 ≤ header_len frame
  pub body_inside : 14 + header_len frame + (total_length frame - header_len frame) ≤ len
  pub for_us : (htonl (load32 frame 30) ≡ net.ip_addr) ⊎ (htonl (load32 frame 30) ≡ 0xFFFFFFFF)
  pub no_fragment : htons (load16 frame 20) % 2 ^ 14 ≡ 0

-- An IP packet is taken only if its header and its body lie within the frame that was received,
-- it is no fragment, and it is addressed to the machine or to everybody.
accepts_ip-IsInFrame :
    (frame : ℕ → ℕ) (len : ℕ) (net : Net)
    → accepts_ip frame len net ≡ true
    → IsInFrame frame len net
unfolding accepts_ip
accepts_ip-IsInFrame frame len net h = ground arith

-- A frame that is too short for its header, or of another type than ARP and IP, or an IP packet
-- that is not accepted, changes nothing.
pub process_packet_refused :
    (malloc : ℕ → Bool) (tcp : List ℕ → (ℕ → ℕ) → ℕ → Net → Net) (frame : ℕ → ℕ) (len : ℕ)
    (net : Net)
    → (len < 14)
      ⊎ (((htons (load16 frame 12) ≢ 0x0806) × (htons (load16 frame 12) ≢ 0x0800))
          ⊎ ((htons (load16 frame 12) ≡ 0x0800) × (accepts_ip frame len net ≡ false)))
    → process_packet malloc tcp frame len net ≡ net
unfolding process_packet receive_ip
process_packet_refused malloc tcp frame len net h = ground arith

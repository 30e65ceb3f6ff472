-- ===== src/Tests/Packets.antt =====
-- The network stack of src/drivers/net at concrete inputs.
use hal_os.Base.{ℕ, ◌+◌, ◌*◌, ◌/◌, ◌%◌, ◌^◌, ◌≤◌, Bool, true, false}
use hal_os.Base.{◌≡◌, ◌≢◌, refl, arith, inl, inr, none, some, List, [], ◌∷◌, ◌++◌, get_or}
use hal_os.Net.{Net}
use hal_os.Net.Bytes.{htonl, htons}
use hal_os.Net.Checksum.{ip_checksum, ip_checksum_verifies}
use hal_os.Net.Address.{inet_addr, dotted, inet_addr-dotted}
use hal_os.Net.Arp.{arp_lookup, arp_cache_update, is_local_ip}
use hal_os.Net.Arp.Cache.{arp_lookup-update}
use hal_os.Net.Receive.{process_packet, accepts_ip}
use hal_os.Net.Receive.Filter.{process_packet-own_request}

abbrev card : List ℕ
card = 2 ∷ 0 ∷ 0 ∷ 0 ∷ 0 ∷ 1 ∷ []

abbrev peer : List ℕ
peer = 2 ∷ 0 ∷ 0 ∷ 0 ∷ 0 ∷ 2 ∷ []

-- 10.0.2.15 in a network of 256 addresses, with 10.0.2.2 in the cache
abbrev pub stack : Net
stack = record {
  mac = card;
  ip_addr = 0x0A00020F;
  netmask = 0xFFFFFF00;
  gateway_ip = 0x0A000202;
  has_nic = true;
  driver_mac = none;
  ticks = 100;
  arp_cache =
      record { ip = 0x0A000202; mac = peer; timestamp = 50 }
      ∷ record { ip = 0; mac = []; timestamp = 0 }
      ∷ [];
  pending = [];
  packet_id = 7;
  prev_id = 3;
  next_id = 1;
  next_seq = 1;
  sent = [];
  overrun = false;
  connections = [];
  listen_ports = 80 ∷ [];
  timers = [];
  seq_counter = 0;
  next_address = 0x1000;
  fault = false;
}

-- the same with no free entry in the cache
abbrev crowded : Net
crowded = record stack { arp_cache = record { ip = 0x0A000202; mac = peer; timestamp = 50 } ∷ [] }

abbrev pub always : ℕ → Bool
always _ = true

abbrev no_tcp : List ℕ → (ℕ → ℕ) → ℕ → Net → Net
no_tcp _ _ _ net = net

-- an ARP request for 10.0.2.15
abbrev request : ℕ → ℕ
request i =
    get_or
      ((255 ∷ 255 ∷ 255 ∷ 255 ∷ 255 ∷ 255 ∷ 2 ∷ 0 ∷ 0 ∷ 0 ∷ 0 ∷ 2 ∷ 8 ∷ 6 ∷ [])
        ++ (0 ∷ 1 ∷ 8 ∷ 0 ∷ 6 ∷ 4 ∷ 0 ∷ 1 ∷ 2 ∷ 0 ∷ 0 ∷ 0 ∷ 0 ∷ 2 ∷ 10 ∷ 0 ∷ 2 ∷ 2 ∷ [])
        ++ (0 ∷ 0 ∷ 0 ∷ 0 ∷ 0 ∷ 0 ∷ 10 ∷ 0 ∷ 2 ∷ 15 ∷ []))
      i 0

-- a frame with an IP packet of 28 bytes for 10.0.2.15
abbrev datagram : ℕ → ℕ
datagram i =
    get_or
      ((2 ∷ 0 ∷ 0 ∷ 0 ∷ 0 ∷ 1 ∷ 2 ∷ 0 ∷ 0 ∷ 0 ∷ 0 ∷ 2 ∷ 8 ∷ 0 ∷ [])
        ++ (0x45 ∷ 0 ∷ 0 ∷ 28 ∷ 0 ∷ 1 ∷ 0 ∷ 0 ∷ 64 ∷ 1 ∷ 0 ∷ 0 ∷ 10 ∷ 0 ∷ 2 ∷ 2 ∷ 10 ∷ 0 ∷ 2 ∷ 15
            ∷ []))
      i 0

abbrev echo : List ℕ
echo = 8 ∷ 0 ∷ 0xF7 ∷ 0xFB ∷ 0 ∷ 2 ∷ 0 ∷ 2 ∷ []

ip_checksum_verifies_example :
    ip_checksum (
      8
      ∷ 0
      ∷ ip_checksum (8 ∷ 0 ∷ 0 ∷ 0 ∷ 1 ∷ 2 ∷ []) % 256
      ∷ ip_checksum (8 ∷ 0 ∷ 0 ∷ 0 ∷ 1 ∷ 2 ∷ []) / 2 ^ 8
      ∷ 1
      ∷ 2
      ∷ [])
    ≡ 0
ip_checksum_verifies_example =
    ip_checksum_verifies (8 ∷ 0 ∷ []) (1 ∷ 2 ∷ []) 1 refl
      (omega arith, (omega arith, (omega arith, (omega arith, (omega arith, (omega arith, tt))))))
      (omega arith)

inet_addr-dotted_example :
    inet_addr (dotted 192 168 1 20) ≡ 192 * 2 ^ 24 + 168 * 2 ^ 16 + 1 * 2 ^ 8 + 20
inet_addr-dotted_example =
    inet_addr-dotted 192 168 1 20 (omega arith) (omega arith) (omega arith) (omega arith)

is_near : is_local_ip stack 0x0A000217 ≡ true
unfolding is_local_ip
is_near = refl

arp_lookup-update_example :
    arp_lookup 0x0A000217 (arp_cache_update 0x0A000217 card stack)
    ≡ (some card, arp_cache_update 0x0A000217 card stack)
arp_lookup-update_example =
    arp_lookup-update 0x0A000217 card stack (omega arith) (inr (inr (inr (inl refl)))) is_near

own_differs : htonl 0x0A00020F ≢ 0x0A00020F
unfolding htonl
own_differs = omega arith

process_packet-own_request_example : process_packet always no_tcp request 42 stack ≡ stack
unfolding htons
process_packet-own_request_example =
    process_packet-own_request always no_tcp request 42 stack
      (record { ethertype = refl; opcode = refl; target = refl }) own_differs

accepted : accepts_ip datagram 60 stack ≡ true
unfolding accepts_ip htons htonl
accepted = refl

old_echo : htons (0 + 2 * 2 ^ 8) ≤ 3
unfolding htons
old_echo = omega arith

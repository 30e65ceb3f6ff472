-- ===== src/Net/Segment/Send.antt =====
-- What `tcp_send_segment` of src/drivers/net/tcp.c leaves alone: the tables of TCP, and all of the
-- connection but its numbers and its queue.
use hal_os.Base.{ℕ, Bool, ◌≡◌, arith, List}
use hal_os.Net.{Net, Connection}
use hal_os.Net.Eth.{eth_send_frame}
use hal_os.Net.Arp.{arp_lookup, queue_packet, send_arp_request}
use hal_os.Net.Ipv4.{send_ipv4}
use hal_os.Net.Segment.{send_segment, queue_segment}

-- `after` has the tables of `before`.
pub record SameTables (before after : Net) : Type 0 where
  pub connections : after.connections ≡ before.connections
  pub timers : after.timers ≡ before.timers
  pub ports : after.listen_ports ≡ before.listen_ports
  pub next : after.next_address ≡ before.next_address
  pub fault : after.fault ≡ before.fault
  pub ticks : after.ticks ≡ before.ticks

pub SameTables-trans : {a b c : Net} → SameTables a b → SameTables b c → SameTables a c
SameTables-trans p q = ground arith

pub eth_send_frame-SameTables :
    (dest : List ℕ) (ethertype : ℕ) (payload : List ℕ) (net : Net)
    → SameTables net (eth_send_frame dest ethertype payload net)
unfolding eth_send_frame
eth_send_frame-SameTables dest ethertype payload net = ground arith

send_arp_request-SameTables :
    (src target : ℕ) (net : Net) → SameTables net (send_arp_request src target net)
unfolding send_arp_request
send_arp_request-SameTables src target net = ground arith

queue_packet-SameTables :
    (malloc : ℕ → Bool) (dst protocol : ℕ) (payload : List ℕ) (net : Net)
    → SameTables net (queue_packet malloc dst protocol payload net)
unfolding queue_packet
queue_packet-SameTables malloc dst protocol payload net = ground arith

arp_lookup-SameTables : (ip : ℕ) (net : Net) → SameTables net (arp_lookup ip net).1
unfolding arp_lookup
arp_lookup-SameTables ip net =
    ground (arith, send_arp_request-SameTables net.ip_addr net.gateway_ip net)

pub send_ipv4-SameTables :
    (malloc : ℕ → Bool) (dst protocol : ℕ) (payload : List ℕ) (net : Net)
    → SameTables net (send_ipv4 malloc dst protocol payload net)
unfolding send_ipv4
send_ipv4-SameTables malloc dst protocol payload net = grind (
  arith, arp_lookup-SameTables, queue_packet-SameTables, send_arp_request-SameTables,
  eth_send_frame-SameTables,
)

-- the fields that sending leaves as they are
pub record SameEnds (before after : Connection) : Type 0 where
  pub address : after.address ≡ before.address
  pub local_ip : after.local_ip ≡ before.local_ip
  pub remote_ip : after.remote_ip ≡ before.remote_ip
  pub local_port : after.local_port ≡ before.local_port
  pub remote_port : after.remote_port ≡ before.remote_port
  pub state : after.state ≡ before.state
  pub recv_buffer : after.recv_buffer ≡ before.recv_buffer
  pub mss : after.mss ≡ before.mss
  pub expected_ack : after.expected_ack ≡ before.expected_ack

module _ (malloc : ℕ → Bool) (flags : ℕ) (payload : List ℕ) (c : Connection) (net : Net) where
  pub send_segment-SameTables : SameTables net (send_segment malloc flags payload c net).1
  unfolding send_segment
  send_segment-SameTables = send_ipv4-SameTables malloc c.remote_ip 6 _ net

  pub send_segment-SameEnds : SameEnds c (send_segment malloc flags payload c net).0
  unfolding send_segment queue_segment
  send_segment-SameEnds = ground arith

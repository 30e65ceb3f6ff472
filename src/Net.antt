-- ===== src/Net.antt =====
-- src/drivers/net: the state of the network stack. A frame that is handed to the
-- card's driver is appended to `sent`. `overrun` records a copy that went past the end of its
-- buffer, and `fault` the use of a connection that was freed or of NULL. Once one of the two is set,
-- memory may hold anything and C promises nothing: the rest of the state then stands for nothing,
-- and both stay set. The configuration that src/drivers/net/eth.c sets up is
-- part of the state.
pub mod Bytes
pub mod Checksum
pub mod Address
pub mod Eth
pub mod Arp
pub mod Ipv4
pub mod Icmp
pub mod Receive
pub mod Tcp
pub mod Segment
pub mod Session
use hal_os.Base.{ℕ, Bool, Option, List}

-- `struct arp_cache_entry`
pub record ArpEntry : Type 0 where
  pub ip : ℕ
  pub mac : List ℕ
  pub timestamp : ℕ

-- `struct pending_packet`; the list is `pending_queue` up to `pending_count`.
pub record Pending : Type 0 where
  pub dst_ip : ℕ
  pub protocol : ℕ
  pub payload : List ℕ
  pub timestamp : ℕ

-- `tcp_state_t`
pub data TcpState : Type 0 where
  closed listen syn_sent syn_received established wait_for_ack fin_wait_1 fin_wait_2 close_wait
        closing last_ack time_wait :
      TcpState

-- `retransmit_entry_t`, without the time, which nothing reads
pub record Retransmit : Type 0 where
  pub seq : ℕ
  pub length : ℕ
  pub payload : List ℕ
  pub flags : ℕ
  pub retries : ℕ

-- `tcp_connection_t` at its address. `recv_buffer` holds the bytes that were put there; what no code
-- uses, the send buffer and the window, is left out.
pub record Connection : Type 0 where
  pub address : ℕ
  pub local_ip : ℕ
  pub remote_ip : ℕ
  pub local_port : ℕ
  pub remote_port : ℕ
  pub mss : ℕ
  pub next_seq : ℕ
  pub expected_ack : ℕ
  pub dup_ack_count : ℕ
  pub state : TcpState
  pub retransmit_queue : List Retransmit
  pub recv_buffer : List ℕ
  pub recv_buffer_len : ℕ
  pub last_ack : ℕ

-- `tcp_timer_t`; `conn` is the address of the connection
pub record Timer : Type 0 where
  pub conn : ℕ
  pub timeout_ms : ℕ
  pub start_time : ℕ
  pub retries : ℕ

-- `next_address` is the address of the next connection that is allocated: each has one of its own.
pub record Net : Type 0 where
  pub mac : List ℕ
  pub ip_addr : ℕ
  pub netmask : ℕ
  pub gateway_ip : ℕ
  pub has_nic : Bool
  pub driver_mac : Option (List ℕ)
  pub ticks : ℕ
  pub arp_cache : List ArpEntry
  pub pending : List Pending
  pub packet_id : ℕ
  pub prev_id : ℕ
  pub next_id : ℕ
  pub next_seq : ℕ
  pub sent : List (List ℕ)
  pub overrun : Bool
  pub connections : List Connection
  pub listen_ports : List ℕ
  pub timers : List Timer
  pub seq_counter : ℕ
  pub next_address : ℕ
  pub fault : Bool

-- ===== src/Net/Tcp.antt =====
-- src/drivers/net/tcp.c: the lists of connections, timers and listening ports, and the options of a
-- segment. A connection is found by its address. What is freed is taken out of its list.
pub mod Table
pub mod Evolve
pub mod Options
use Prim.Native.Nat.{bit_and}
use hal_os.Base.{
  ℕ, zero, suc, ◌+◌, ◌-◌, ◌*◌, ◌/◌, ◌%◌, ◌^◌, ◌==◌, ltb, leb, Bool, true, false, not, ◌&&◌, ◌||◌,
  if◌then◌else◌,
}
use hal_os.Base.{u8, u32, min, get_or, Option, none, some, List, [], ◌∷◌, length, drop}
use hal_os.Net.{Net, Connection, Timer, TcpState}

-- `TCP_FIN` to `TCP_ACK`
abbrev pub tcp_fin : ℕ
tcp_fin = 0x01

abbrev pub tcp_syn : ℕ
tcp_syn = 0x02

abbrev pub tcp_rst : ℕ
tcp_rst = 0x04

abbrev pub tcp_psh : ℕ
tcp_psh = 0x08

abbrev pub tcp_ack : ℕ
tcp_ack = 0x10

-- `flags & mask`, as a test
unfoldable pub has_flag : ℕ → ℕ → Bool
has_flag flags mask = not (bit_and flags mask == 0)

-- `DEFAULT_MSS`
abbrev pub default_mss : ℕ
default_mss = 1460

-- `TCP_SYN_RETRANSMIT_TIMEOUT` and `TCP_DATA_RETRANSMIT_TIMEOUT`
abbrev pub retransmit_timeout : ℕ
retransmit_timeout = 3000

-- `MAX_SYN_RETRIES`
abbrev pub max_retries : ℕ
max_retries = 5

-- The two halves of the word do not overlap, so `|` is a sum.
unfoldable pub initial_seq : Net → ℕ × Net
initial_seq net = (
  u32 (net.ticks * 2 ^ 16) + net.seq_counter % 2 ^ 16,
  record net { seq_counter = u32 (net.seq_counter + 1) },
)

abbrev pub is_between : ℕ → ℕ → ℕ → ℕ → Connection → Bool
is_between remote_ip remote_port local_ip local_port c =
    c.remote_ip == remote_ip
    && (c.remote_port == remote_port && (c.local_ip == local_ip && c.local_port == local_port))

unfoldable pub find_connection : ℕ → ℕ → ℕ → ℕ → List Connection → Option Connection
find_connection remote_ip remote_port local_ip local_port [] = none
find_connection remote_ip remote_port local_ip local_port (c ∷ rest) =
    elim (is_between remote_ip remote_port local_ip local_port c) [
      | true ↦ some c
      | false ↦ find_connection remote_ip remote_port local_ip local_port rest
    ]

-- what a pointer to a connection leads to; `none` once it is freed
unfoldable pub load : ℕ → List Connection → Option Connection
load address [] = none
load address (c ∷ rest) = elim (c.address == address) [ true ↦ some c | false ↦ load address rest ]

-- the connection written back to its place
unfoldable pub store : Connection → List Connection → List Connection
store c [] = []
store c (d ∷ rest) = elim (d.address == c.address) [ true ↦ c ∷ rest | false ↦ d ∷ store c rest ]

-- the second loop of `remove_connection`
unfoldable pub delete : ℕ → List Connection → List Connection
delete address [] = []
delete address (c ∷ rest) = elim (c.address == address) [
  | true ↦ rest
  | false ↦ c ∷ delete address rest
]

unfoldable pub add_connection : Connection → Net → Net
add_connection c net = record net { connections = c ∷ net.connections }

-- `cancel_retransmission_timer`: the first timer of the connection is taken out
unfoldable pub cancel : ℕ → List Timer → List Timer
cancel address [] = []
cancel address (t ∷ rest) = elim (t.conn == address) [
  | true ↦ rest
  | false ↦ t ∷ cancel address rest
]

unfoldable pub cancel_timer : ℕ → Net → Net
cancel_timer address net = record net { timers = cancel address net.timers }

unfoldable pub remove_connection : ℕ → Net → Net
remove_connection address net =
    let stopped = cancel_timer address net in
    record stopped { connections = delete address stopped.connections }

unfoldable pub is_listening_port : ℕ → List ℕ → Bool
is_listening_port port [] = false
is_listening_port port (p ∷ rest) = elim (p == port) [
  | true ↦ true
  | false ↦ is_listening_port port rest
]

-- The arguments of `malloc` are the sizes of the structures.
module _ (malloc : ℕ → Bool) where
  unfoldable pub tcp_listen : ℕ → Net → Net
  tcp_listen port net =
      if not (malloc 8) then net else record net { listen_ports = port ∷ net.listen_ports }

  unfoldable pub start_timer : ℕ → ℕ → Net → Net
  start_timer address timeout_ms net =
      if not (malloc 20)
      then net
      else let timer : Timer = record {
        conn = address;
        timeout_ms = timeout_ms;
        start_time = net.ticks;
        retries = 0;
      } in
        record net { timers = timer ∷ net.timers }

-- `(ptr[0] << 8) | ptr[1]`, and `DEFAULT_MSS` at most
abbrev pub offered_mss : List ℕ → ℕ
offered_mss rest = min (get_or rest 0 0 * 2 ^ 8 + get_or rest 1 0) default_mss

-- The loop of `process_tcp_options` over the bytes that remain, a round for each unit of fuel: the
-- maximum segment size that it leaves.
unfoldable pub options_from : ℕ → List ℕ → ℕ → ℕ
options_from zero options mss = mss
options_from (suc fuel) [] mss = mss
options_from (suc fuel) (kind ∷ []) mss = mss
options_from (suc fuel) (kind ∷ len ∷ rest) mss = elim (kind == 0) [
  | true ↦ mss
  | false ↦ elim (kind == 1) [
    | true ↦ options_from fuel (len ∷ rest) mss
    | false ↦ elim (ltb len 2) [
      | true ↦ mss
      | false ↦ elim (kind == 2 && (len == 4 && leb 2 (length rest))) [
        | true ↦ options_from fuel (drop 2 rest) (offered_mss rest)
        | false ↦ elim (ltb (length rest) (len - 2)) [
          | true ↦ mss
          | false ↦ options_from fuel (drop (len - 2) rest) mss
        ]
      ]
    ]
  ]
]

-- A round takes one byte at least, so that as many rounds as there are bytes are enough.
unfoldable pub process_options : List ℕ → Connection → Connection
process_options options c = record c { mss = options_from (length options) options c.mss }

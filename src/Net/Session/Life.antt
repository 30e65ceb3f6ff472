-- ===== src/Net/Session/Life.antt =====
-- What holds of the connections of src/drivers/net/tcp.c behind any frames, checks of the timers,
-- calls of the kernel and ticks that leave memory intact.
use hal_os.Base.{ℕ, Bool, true, false}
use hal_os.Base.{◌≡◌}
use hal_os.Base.{Option, some, List}
use hal_os.Net.{Net, Connection, TcpState}
use hal_os.Net.{syn_sent, syn_received, established, wait_for_ack, last_ack}
use hal_os.Net.Receive.{process_packet}
use hal_os.Net.Tcp.{load, tcp_listen}
use hal_os.Net.Tcp.Table.{IsTable}
use hal_os.Net.Session.{tcp_handle_packet, tcp_connect}
use hal_os.Net.Session.Timers.{check_timers}

-- the states that the code puts a connection in
abbrev pub in_use : TcpState → Bool
in_use syn_sent = true
in_use syn_received = true
in_use established = true
in_use wait_for_ack = true
in_use last_ack = true
in_use _ = false

pub record IsLive (net : Net) : Type 0 where
  pub table : IsTable net
  pub used : (a : ℕ) (c : Connection) → load a net.connections ≡ some c → in_use c.state ≡ true

-- what happens to the state of the network
pub data Event (malloc : ℕ → Bool) (index : Option (List ℕ)) (headers : ℕ → List ℕ)
    : Net → Net → Type 0 where
  frame :
      (m : ℕ → ℕ) (len : ℕ) (net : Net)
      → Event malloc index headers net
          (process_packet malloc (tcp_handle_packet malloc index headers) m len net)
  timers : (net : Net) → Event malloc index headers net (check_timers malloc net)
  listens : (port : ℕ) (net : Net) → Event malloc index headers net (tcp_listen malloc port net)
  connects :
      (raw : Connection) (ip port : ℕ) (net : Net)
      → Event malloc index headers net (tcp_connect malloc index headers raw ip port net).1
  tick : (now : ℕ) (net : Net) → Event malloc index headers net (record net { ticks = now })

-- A sequence of events in which nothing is copied past the end of a buffer, and nothing that was freed
-- is used.
pub data Events (malloc : ℕ → Bool) (index : Option (List ℕ)) (headers : ℕ → List ℕ)
    : Net → Net → Type 0 where
  start : (net : Net) → Events malloc index headers net net
  more :
      (a b c : Net)
      → Events malloc index headers a b
      → Event malloc index headers b c
      → c.overrun ≡ false
      → c.fault ≡ false
      → Events malloc index headers a c

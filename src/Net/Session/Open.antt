-- ===== src/Net/Session/Open.antt =====
-- src/drivers/net/tcp.c: how a connection is opened and reset, segment by segment.
use hal_os.Base.{ℕ, ◌+◌, ◌-◌, ◌*◌, ◌^◌, ◌≤◌, ◌<◌, ◌==◌, if◌then◌else◌, Bool, true, false}
use hal_os.Base.{◌≡◌, refl, arith, ◌∙◌, ap, sym, u32}
use hal_os.Base.{Option, none, some, List, [], ◌∷◌}
use hal_os.Net.{Net, Connection, Timer, syn_received, established}
use hal_os.Net.Bytes.{bytes}
use hal_os.Net.Tcp.{
  load, cancel, find_connection, has_flag, tcp_syn, tcp_ack, tcp_rst, cancel_timer,
  remove_connection, add_connection, start_timer, is_listening_port, initial_seq, process_options,
  retransmit_timeout,
}
use hal_os.Net.Tcp.Table.{IsTable, load-delete_self, load-store_self, load-find_connection}
use hal_os.Net.Segment.{header_of, ip_src, ip_dst, send_segment, queue_segment, advance}
use hal_os.Net.Segment.Send.{send_segment-SameTables, send_segment-SameEnds}
use hal_os.Net.Session.Quiet.{start_timer-connections}
use hal_os.Net.Session.States.Segment.{tcp_handle_packet-Handled}
use hal_os.Net.Session.{
  send, accept_syn, accepted, dispatch, tcp_handle_packet, handle_syn_received,
}

-- the segment that `tcp_handle_packet` is given belongs to `c`
pub record IsFor (c : Connection) (ip : List ℕ) (m : ℕ → ℕ) (net : Net) : Type 0 where
  pub offset : 5 ≤ (header_of m).data_offset
  pub found :
      find_connection
        (ip_src ip)
        (header_of m).src_port
        (ip_dst ip)
        (header_of m).dest_port
        net.connections
      ≡ some c

-- how many timers a connection has
abbrev pub timers_of : ℕ → List Timer → ℕ
timers_of address [] = 0
timers_of address (t ∷ rest) =
    if t.conn == address then timers_of address rest + 1 else timers_of address rest

-- the timers of all other connections
abbrev pub others_of : ℕ → List Timer → List Timer
others_of address [] = []
others_of address (t ∷ rest) =
    if t.conn == address then others_of address rest else t ∷ others_of address rest

timers_of-cancel :
    (address : ℕ) (ts : List Timer)
    → timers_of address (cancel address ts) ≡ timers_of address ts - 1
unfolding cancel
timers_of-cancel address [] = refl
timers_of-cancel address (t ∷ rest) = ground (arith, timers_of-cancel address rest)

others_of-cancel :
    (address : ℕ) (ts : List Timer) → others_of address (cancel address ts) ≡ others_of address ts
unfolding cancel
others_of-cancel address [] = refl
others_of-cancel address (t ∷ rest) = ground (arith, others_of-cancel address rest)

module _ (malloc : ℕ → Bool) (index : Option (List ℕ)) (headers : ℕ → List ℕ) where
  reset-removes :
      (c : Connection) (ip : List ℕ) (m : ℕ → ℕ) (len : ℕ) (net : Net)
      → IsTable net
      → IsFor c ip m net
      → has_flag (header_of m).flags tcp_rst ≡ true
      → (load c.address (tcp_handle_packet malloc index headers ip m len net).connections ≡ none)
        × ((tcp_handle_packet malloc index headers ip m len net).timers
            ≡ cancel c.address net.timers)
  unfolding tcp_handle_packet remove_connection cancel_timer
  reset-removes c ip m len net t f r =
      ground (arith, f.offset, f.found, r, load-delete_self c.address net.connections t.distinct)

  -- A `TCP_RST` with a data offset of at least 5 removes the connection that it belongs to, in a table
  -- whose connections lie apart, whatever the connection's state and whatever the numbers of the
  -- segment are: the address leads to nothing behind it, one timer of the connection is gone if there
  -- was any, and the timers of the other connections are the same in the same order.
  pub tcp_handle_packet-reset :
      (c : Connection) (ip : List ℕ) (m : ℕ → ℕ) (len : ℕ) (net : Net)
      → IsTable net
      → IsFor c ip m net
      → has_flag (header_of m).flags tcp_rst ≡ true
      → let after = tcp_handle_packet malloc index headers ip m len net in
        (load c.address after.connections ≡ none)
        × (timers_of c.address after.timers ≡ timers_of c.address net.timers - 1)
        × (others_of c.address after.timers ≡ others_of c.address net.timers)
  tcp_handle_packet-reset c ip m len net t f r =
      let (gone, stopped) = reset-removes c ip m len net t f r in
      rw stopped
        (gone, timers_of-cancel c.address net.timers, others_of-cancel c.address net.timers)

  -- In `TCP_SYN_RECEIVED`, the acknowledgement of the own `TCP_SYN` opens the connection and stops
  -- its timer; the rest of the connection stays as it was.
  pub tcp_handle_packet-opened :
      (c : Connection) (ip : List ℕ) (m : ℕ → ℕ) (len : ℕ) (net : Net)
      → IsTable net
      → IsFor c ip m net
      → has_flag (header_of m).flags tcp_rst ≡ false
      → c.state ≡ syn_received
      → has_flag (header_of m).flags tcp_ack ≡ true
      → (header_of m).ack ≡ c.next_seq
      → (load c.address (tcp_handle_packet malloc index headers ip m len net).connections
          ≡ some (record c { state = established }))
        × ((tcp_handle_packet malloc index headers ip m len net).timers
            ≡ cancel c.address net.timers)
  unfolding tcp_handle_packet dispatch handle_syn_received cancel_timer
  tcp_handle_packet-opened c ip m len net t f r s a n =
      let at : load c.address net.connections ≡ some c =
        load-find_connection (ip_src ip) (header_of m).src_port (ip_dst ip) (header_of m).dest_port
          c net.connections t.distinct f.found in
      ground (
        arith,
        f.offset,
        f.found,
        r,
        s,
        a,
        n,
        load-store_self (record c { state = established }) c net.connections at,
      )

-- a `TCP_SYN` to a port that is listened on, from ends that no connection has
pub record IsSyn (ip : List ℕ) (m : ℕ → ℕ) (net : Net) : Type 0 where
  pub offset : 5 ≤ (header_of m).data_offset
  pub fresh :
      find_connection
        (ip_src ip)
        (header_of m).src_port
        (ip_dst ip)
        (header_of m).dest_port
        net.connections
      ≡ none
  pub no_reset : has_flag (header_of m).flags tcp_rst ≡ false
  pub syn : has_flag (header_of m).flags tcp_syn ≡ true
  pub port : is_listening_port (header_of m).dest_port net.listen_ports ≡ true

-- the connection that answers it
pub record IsAnswer (ip : List ℕ) (m : ℕ → ℕ) (net : Net) (d : Connection) : Type 0 where
  pub address : d.address ≡ net.next_address
  pub remote_ip : d.remote_ip ≡ ip_src ip
  pub remote_port : d.remote_port ≡ (header_of m).src_port
  pub local_ip : d.local_ip ≡ ip_dst ip
  pub local_port : d.local_port ≡ (header_of m).dest_port
  pub state : d.state ≡ syn_received
  pub expected : d.expected_ack ≡ u32 ((header_of m).seq + 1)
  pub number : d.next_seq ≡ u32 ((initial_seq net).0 + 1)

module _ (malloc : ℕ → Bool) (index : Option (List ℕ)) (headers : ℕ → List ℕ) where
  send_syn-next_seq :
      (c : Connection) (net : Net)
      → c.next_seq < 2 ^ 32
      → ((send_segment malloc (tcp_syn + tcp_ack) [] c net).0).next_seq ≡ u32 (c.next_seq + 1)
  unfolding send_segment queue_segment advance has_flag
  send_syn-next_seq c net lt = ground arith

  initial_seq-lt : (net : Net) → (initial_seq net).0 < 2 ^ 32
  unfolding initial_seq
  initial_seq-lt net = omega arith

  -- the connection before the answer is sent, and the state
  fresh : List ℕ → (ℕ → ℕ) → Net → Connection
  fresh ip m net = process_options (bytes m 20 ((header_of m).data_offset * 4 - 20)) (
      accepted malloc index headers ip (header_of m) (initial_seq net).0
        ((initial_seq net).1).next_address)

  room_made : Net → Net
  room_made net = record ((initial_seq net).1) {
    next_address = ((initial_seq net).1).next_address + 8244;
  }

  answer : List ℕ → (ℕ → ℕ) → Net → Connection × Net
  answer ip m net = send_segment malloc (tcp_syn + tcp_ack) [] (fresh ip m net) (room_made net)

  tcp_handle_packet-answer :
      (ip : List ℕ) (m : ℕ → ℕ) (len : ℕ) (net : Net)
      → IsSyn ip m net
      → malloc 8244 ≡ true
      → tcp_handle_packet malloc index headers ip m len net
        ≡ start_timer malloc
            (fresh ip m net).address
            retransmit_timeout
            (add_connection (answer ip m net).0 (answer ip m net).1)
  unfolding tcp_handle_packet accept_syn send answer fresh room_made
  tcp_handle_packet-answer ip m len net s room =
      ground (arith, s.offset, s.fresh, s.no_reset, s.syn, s.port, room)

  answer-IsAnswer : (ip : List ℕ) (m : ℕ → ℕ) (net : Net) → IsAnswer ip m net (answer ip m net).0
  unfolding answer fresh accepted process_options
  answer-IsAnswer ip m net =
      let e =
        send_segment-SameEnds malloc (tcp_syn + tcp_ack) [] (fresh ip m net) (room_made net) in
      record {
        address = e.address ∙ (unfold initial_seq in refl);
        remote_ip = e.remote_ip;
        remote_port = e.remote_port;
        local_ip = e.local_ip;
        local_port = e.local_port;
        state = e.state;
        expected = e.expected_ack;
        number = send_syn-next_seq (fresh ip m net) (room_made net) (initial_seq-lt net);
      }

  -- A `TCP_SYN` to a listening port puts one connection in front of the table, in
  -- `TCP_SYN_RECEIVED`, with the ends of the segment, the peer's number and one more as the number
  -- to acknowledge, and a number of its own that the answer has used up.
  pub tcp_handle_packet-accepts :
      (ip : List ℕ) (m : ℕ → ℕ) (len : ℕ) (net : Net)
      → IsSyn ip m net
      → malloc 8244 ≡ true
      → (d : Connection) × ((tcp_handle_packet malloc index headers ip m len net).connections
          ≡ d ∷ net.connections)
        × IsAnswer ip m net d
  unfolding add_connection answer room_made initial_seq
  tcp_handle_packet-accepts ip m len net s room =
      let t =
        send_segment-SameTables malloc (tcp_syn + tcp_ack) [] (fresh ip m net) (room_made net) in
      (
        (answer ip m net).0,
        ap (λ n. n.connections) (tcp_handle_packet-answer ip m len net s room)
            ∙ (start_timer-connections malloc (fresh ip m net).address retransmit_timeout
                (add_connection (answer ip m net).0 (answer ip m net).1)).0
            ∙ ap (λ cs. (answer ip m net).0 ∷ cs) t.connections,
        answer-IsAnswer ip m net,
      )

-- the acknowledgement that the peer sends from the ends of its `TCP_SYN`
pub record IsAckOf (ip : List ℕ) (m : ℕ → ℕ) (number : ℕ) (ip' : List ℕ) (m' : ℕ → ℕ) : Type 0 where
  pub offset : 5 ≤ (header_of m').data_offset
  pub src : ip_src ip' ≡ ip_src ip
  pub dst : ip_dst ip' ≡ ip_dst ip
  pub src_port : (header_of m').src_port ≡ (header_of m).src_port
  pub dest_port : (header_of m').dest_port ≡ (header_of m).dest_port
  pub no_reset : has_flag (header_of m').flags tcp_rst ≡ false
  pub ack : has_flag (header_of m').flags tcp_ack ≡ true
  pub acked : (header_of m').ack ≡ number

module _ (malloc : ℕ → Bool) (index : Option (List ℕ)) (headers : ℕ → List ℕ) where
  -- The three segments of a handshake open a connection. Where the connections lie apart, a `TCP_SYN`
  -- without `TCP_RST` arrives for a listening port from ends that no connection has, `malloc` has
  -- the 8244 bytes, and next an acknowledgement of the answer's number without `TCP_RST` arrives
  -- from the same ends, both with data offsets of at least 5: then there is a connection in
  -- `TCP_ESTABLISHED` at the next address, with the ends of the peer, that expects the byte behind
  -- the peer's `TCP_SYN`.
  pub tcp_handle_packet-handshake :
      (ip : List ℕ) (m : ℕ → ℕ) (len : ℕ) (ip' : List ℕ) (m' : ℕ → ℕ) (len' : ℕ) (net : Net)
      → IsTable net
      → IsSyn ip m net
      → malloc 8244 ≡ true
      → IsAckOf ip m (u32 ((initial_seq net).0 + 1)) ip' m'
      → (c : Connection) × IsAnswer ip m net c
        × (load net.next_address
              (tcp_handle_packet malloc index headers ip' m' len'
                (tcp_handle_packet malloc index headers ip m len net)).connections
            ≡ some (record c { state = established }))
  unfolding find_connection
  tcp_handle_packet-handshake ip m len ip' m' len' net t s room a =
      let between = tcp_handle_packet malloc index headers ip m len net in
      let (c, cs, is) = tcp_handle_packet-accepts malloc index headers ip m len net s room in
      let table : IsTable between =
        (tcp_handle_packet-Handled malloc index headers ip m len net t).table in
      let for_c : IsFor c ip' m' between = record {
        offset = a.offset;
        found = rw cs (
            ground (
              arith, a.src, a.dst, a.src_port, a.dest_port, is.remote_ip, is.remote_port,
              is.local_ip, is.local_port,
            ));
      } in
      let opened =
        tcp_handle_packet-opened malloc index headers c ip' m' len' between table for_c a.no_reset
          is.state a.ack (a.acked ∙ sym is.number) in
      (
        c,
        is,
        ap (λ n. load n (tcp_handle_packet malloc index headers ip' m' len' between).connections)
              (sym is.address)
            ∙ opened.0,
      )

-- ===== src/Net/Session.antt =====
-- src/drivers/net/tcp.c: the timers that send again, the handlers of a connection's states, and
-- opening a connection. `index` is what the FAT volume holds as /index.html, and `headers` what
-- `snprintf` makes of a file's size.
pub mod Web
pub mod Timers
pub mod Quiet
pub mod States
pub mod Open
pub mod Faults
pub mod Life
use hal_os.Base.{
  ℕ, zero, suc, ◌+◌, ◌-◌, ◌*◌, ◌/◌, ◌%◌, ◌^◌, ◌==◌, ltb, leb, Bool, true, false, not, ◌&&◌, ◌||◌,
  if◌then◌else◌,
}
use hal_os.Base.{u8, u16, u32, sub32, Option, none, some, List, [], ◌∷◌, ◌++◌, length, drop}
use hal_os.Net.{
  Net, Connection, Retransmit, Timer, TcpState, syn_sent, syn_received, established, wait_for_ack,
  close_wait, last_ack,
}
use hal_os.Net.Bytes.{bytes}
use hal_os.Net.Tcp.{
  has_flag, tcp_fin, tcp_syn, tcp_rst, tcp_ack, default_mss, retransmit_timeout, initial_seq,
  find_connection, load, store, add_connection, cancel_timer, remove_connection, is_listening_port,
  start_timer, process_options,
}
use hal_os.Net.Segment.{Header, header_of, ip_src, ip_dst, send_segment, send_reset}
use Timers.{check_timers, is_state}
use Web.{http_request, is_http_get_request}

-- a use of a pointer that leads nowhere
abbrev pub faulty : Net → Net
faulty net = record net { fault = true }

abbrev pub put : Connection × Net → Net
put (c, net) = record net { connections = store c net.connections }

-- `conn->state = TCP_ESTABLISHED` and what goes with it
abbrev reopen : Header → Connection → Connection
reopen tcp c = record c {
  state = established;
  next_seq = u32 (tcp.seq + 1);
  expected_ack = u32 (tcp.ack + 1);
  dup_ack_count = 0;
}

-- `ack >= entry->seq + entry->length` on `uint32_t`
abbrev pub is_acked : ℕ → Retransmit → Bool
is_acked ack e = leb (u32 (e.seq + e.length)) ack

unfoldable pub drop_acked : ℕ → List Retransmit → List Retransmit
drop_acked ack [] = []
drop_acked ack (e ∷ rest) = elim (is_acked ack e) [
  | true ↦ drop_acked ack rest
  | false ↦ e ∷ drop_acked ack rest
]

-- the new numbers, and the entries that are acknowledged taken out
unfoldable pub acknowledge : Header → ℕ → Connection → Connection
acknowledge tcp data_len c = record c {
  expected_ack = u32 (tcp.seq + data_len);
  next_seq = if ltb c.next_seq tcp.ack then tcp.ack else c.next_seq;
  retransmit_queue = drop_acked tcp.ack c.retransmit_queue;
}

-- `len - (tcp->data_offset >> 4) * 4` on `uint16_t`
abbrev pub data_length : Header → ℕ → ℕ
data_length tcp len = u16 (len + 2 ^ 16 - tcp.data_offset * 4)

-- The payload copied behind what the buffer of 4096 bytes holds, without a check. A copy past the
-- buffer's end goes over the connection's own fields and what lies behind it: `overrun` is set, and
-- the state that is given then stands for nothing.
unfoldable pub receive_data : Header → List ℕ → Connection × Net → Connection × Net
receive_data tcp payload (c, net) = (
  record c {
    recv_buffer = c.recv_buffer ++ payload;
    recv_buffer_len = u16 (c.recv_buffer_len + length payload);
    expected_ack = u32 (tcp.seq + length payload);
  },
  record net { overrun = net.overrun || ltb 4096 (c.recv_buffer_len + length payload) },
)

module _ (malloc : ℕ → Bool) (index : Option (List ℕ)) (headers : ℕ → List ℕ) where
  unfoldable pub send : ℕ → List ℕ → Connection × Net → Connection × Net
  send flags payload (c, net) = send_segment malloc flags payload c net

  -- the third acknowledgement with one number sends the head of the queue again
  unfoldable pub count_dup_ack : Header → Connection × Net → Connection × Net
  count_dup_ack tcp (c, net) =
      let counted = record c { dup_ack_count = u8 (c.dup_ack_count + 1) } in
      if not (tcp.ack == c.last_ack)
      then (c, net)
      else if not (counted.dup_ack_count == 3)
      then (counted, net)
      else elim c.retransmit_queue [
        | [] ↦ (counted, net)
        | e ∷ _ ↦ send tcp_ack e.payload (counted, net)
      ]

  unfoldable pub take_payload : Header → List ℕ → Connection × Net → Connection × Net
  take_payload tcp payload (c, net) =
      if length payload == 0
      then (c, net)
      else let expecting = record c { expected_ack = u32 (tcp.seq + length payload) } in
        if is_http_get_request payload
        then (let (c', net') = http_request malloc index headers expecting net in
            (record c' { state = wait_for_ack }, net'))
        else send tcp_ack [] (receive_data tcp payload (expecting, net))

  unfoldable pub take_fin : Header → Connection × Net → Connection × Net
  take_fin tcp (c, net) =
      if not (has_flag tcp.flags tcp_fin)
      then (c, net)
      else let closing' = record c {
        expected_ack = u32 (c.expected_ack + 1);
        state = close_wait;
      } in
        let (c', net') = send (tcp_fin + tcp_ack) [] (send tcp_ack [] (closing', net)) in
        (record c' { state = last_ack }, net')

  -- the part of `handle_established_state` that looks at the numbers, and answers
  unfoldable pub take_numbers : Header → ℕ → Connection × Net → Connection × Net
  take_numbers tcp data_len (c, net) =
      let opened =
        if is_state syn_sent c.state || is_state close_wait c.state then reopen tcp c else c in
      let (counted, net') = count_dup_ack tcp (opened, net) in
      let acked = acknowledge tcp data_len counted in
      if tcp.seq == acked.expected_ack then (acked, net') else send tcp_ack [] (acked, net')

  -- `handle_established_state` behind the check of the timers, for the payload of the segment
  unfoldable pub established_step : Header → List ℕ → Connection × Net → Connection × Net
  established_step tcp payload p =
      take_fin tcp (take_payload tcp payload (take_numbers tcp (length payload) p))

  -- `m` is memory from the segment on.
  unfoldable pub handle_established : ℕ → Header → (ℕ → ℕ) → ℕ → Net → Net
  handle_established address tcp m len net =
      let checked = check_timers malloc net in
      elim (load address checked.connections) [
        | none ↦ faulty checked
        | some c ↦ put (
            established_step tcp (bytes m (tcp.data_offset * 4) (data_length tcp len)) (c, checked))
      ]

  -- the number that acknowledges an entry as a whole
  abbrev pub full_ack : Retransmit → ℕ
  full_ack e =
      if has_flag e.flags (tcp_syn + tcp_fin)
      then u32 (u32 (e.seq + e.length) + 1)
      else u32 (e.seq + e.length)

  -- the head of the queue taken out, and the connection removed with the last entry
  unfoldable pub drop_head : Connection → List Retransmit → Net → Net
  drop_head c [] net = remove_connection c.address net
  drop_head c (e ∷ rest) net = put (record c { retransmit_queue = e ∷ rest }, net)

  -- one more acknowledgement that brings nothing new; the third one sends the entry again
  unfoldable pub count_again : Connection → Retransmit → Net → Net
  count_again c e net =
      let counted : Connection = record c { dup_ack_count = u8 (c.dup_ack_count + 1) } in
      if leb 3 counted.dup_ack_count
      then (let (c', net') = send e.flags e.payload (counted, net) in
          put (record c' { dup_ack_count = 0 }, net'))
      else put (counted, net)

  unfoldable pub wait_on : Header → Connection → List Retransmit → Net → Net
  wait_on tcp c [] net = net
  wait_on tcp c (e ∷ rest) net =
      if leb (full_ack e) tcp.ack
      then drop_head c rest net
      else if ltb c.last_ack tcp.ack
      then put
          (record c { last_ack = tcp.ack; retransmit_queue = record e { retries = 0 } ∷ rest }, net)
      else count_again c e net

  unfoldable pub handle_wait_for_ack : Header → Connection → Net → Net
  handle_wait_for_ack tcp c net = wait_on tcp c c.retransmit_queue net

  unfoldable pub handle_last_ack : Header → Connection → Net → Net
  handle_last_ack tcp c net =
      if has_flag tcp.flags tcp_ack && tcp.ack == c.next_seq
      then remove_connection c.address net
      else net

  unfoldable pub handle_syn_sent : Header → Connection → Net → Net
  handle_syn_sent tcp c net =
      if has_flag tcp.flags tcp_syn && has_flag tcp.flags tcp_ack && tcp.ack == c.next_seq
      then (let opened = record c { expected_ack = u32 (tcp.seq + 1); state = established } in
          cancel_timer c.address (put (send tcp_ack [] (opened, net))))
      else net

  unfoldable pub handle_syn_received : Header → Connection → Net → Net
  handle_syn_received tcp c net =
      if has_flag tcp.flags tcp_ack && tcp.ack == c.next_seq
      then cancel_timer c.address (put (record c { state = established }, net))
      else net

  -- the connection that a `TCP_SYN` to a listening port makes, in memory that is set to 0
  unfoldable pub accepted : List ℕ → Header → ℕ → ℕ → Connection
  accepted ip tcp seq address = record {
    address = address;
    local_ip = ip_dst ip;
    remote_ip = ip_src ip;
    local_port = tcp.dest_port;
    remote_port = tcp.src_port;
    mss = default_mss;
    next_seq = seq;
    expected_ack = u32 (tcp.seq + 1);
    dup_ack_count = 0;
    state = syn_received;
    retransmit_queue = [];
    recv_buffer = [];
    recv_buffer_len = 0;
    last_ack = 0;
  }

  -- `sizeof(tcp_connection_t)` is 8244.
  unfoldable pub accept_syn : List ℕ → Header → (ℕ → ℕ) → Net → Net
  accept_syn ip tcp m net =
      if not (is_listening_port tcp.dest_port net.listen_ports)
      then send_reset malloc ip tcp net
      else if not (malloc 8244)
      then net
      else let (seq, counted) = initial_seq net in
        let c =
          process_options (bytes m 20 (tcp.data_offset * 4 - 20))
            (accepted ip tcp seq counted.next_address) in
        let (c', net') =
          send (tcp_syn + tcp_ack) []
            (c, record counted { next_address = counted.next_address + 8244 }) in
        start_timer malloc c.address retransmit_timeout (add_connection c' net')

  -- the `switch` over the state
  unfoldable pub dispatch : TcpState → Connection → Header → (ℕ → ℕ) → ℕ → Net → Net
  dispatch syn_sent c tcp m len net = handle_syn_sent tcp c net
  dispatch syn_received c tcp m len net = handle_syn_received tcp c net
  dispatch established c tcp m len net = handle_established c.address tcp m len net
  dispatch wait_for_ack c tcp m len net = handle_wait_for_ack tcp c net
  dispatch last_ack c tcp m len net = handle_last_ack tcp c net
  dispatch _ c tcp m len net = net

  -- The checksum that is computed is compared with nothing.
  unfoldable pub tcp_handle_packet : List ℕ → (ℕ → ℕ) → ℕ → Net → Net
  tcp_handle_packet ip m len net =
      let tcp = header_of m in
      if ltb tcp.data_offset 5
      then send_reset malloc ip tcp net
      else elim (find_connection (ip_src ip) tcp.src_port (ip_dst ip) tcp.dest_port
          net.connections) [
            | some c ↦
                if has_flag tcp.flags tcp_rst
                then remove_connection c.address net
                else dispatch c.state c tcp m len net
            | none ↦
                if has_flag tcp.flags tcp_rst
                then net
                else if has_flag tcp.flags tcp_syn
                then accept_syn ip tcp m net
                else send_reset malloc ip tcp net
          ]

  -- `raw` is what lies in the memory that `malloc` returns: most fields are not set.
  unfoldable pub tcp_connect : Connection → ℕ → ℕ → Net → Option ℕ × Net
  tcp_connect raw remote_ip remote_port net =
      if not (malloc 8244)
      then (none, net)
      else let (port_seq, counted) = initial_seq net in
        let (seq, counted') = initial_seq counted in
        let c = record raw {
          address = counted'.next_address;
          local_ip = counted'.ip_addr;
          local_port = u16 (50000 + port_seq % 15536);
          remote_ip = remote_ip;
          remote_port = remote_port;
          state = syn_sent;
          next_seq = seq;
          expected_ack = 0;
        } in
        let (c', net') =
          send tcp_syn [] (c, record counted' { next_address = counted'.next_address + 8244 }) in
        (some c.address, add_connection c' net')

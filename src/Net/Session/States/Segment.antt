-- ===== src/Net/Session/States/Segment.antt =====
-- What `tcp_handle_packet` of src/drivers/net/tcp.c leaves of the table of connections.

use hal_os.Base.{ℕ, ◌+◌, ◌-◌, ◌*◌, ltb, Bool, if◌then◌else◌}
use hal_os.Base.{◌≡◌, inl, inr, refl, ◌∙◌, ap, Bool-cases}
use hal_os.Base.{Option, none, some, List, [], ◌∷◌}
use hal_os.Net.{Net, Connection, TcpState}
use hal_os.Net.{
  closed, listen, syn_sent, syn_received, established, wait_for_ack, fin_wait_1, fin_wait_2,
  close_wait, closing, last_ack, time_wait,
}
use hal_os.Net.Bytes.{bytes}
use hal_os.Net.Tcp.{
  load, find_connection, has_flag, tcp_syn, tcp_ack, tcp_rst, remove_connection, add_connection,
  start_timer, retransmit_timeout, is_listening_port, initial_seq, process_options,
}
use hal_os.Net.Tcp.Table.{IsTable, load-find_connection}
use hal_os.Net.Segment.{Header, header_of, ip_src, ip_dst, send_reset}
use hal_os.Net.Segment.Send.{send_segment-SameTables}
use hal_os.Net.Session.Quiet.{start_timer-connections, Quiet, send-Quiet, send-state}
use hal_os.Net.Session.{send, accepted, accept_syn, dispatch, tcp_handle_packet}
use hal_os.Net.Session.States.{Handled, unmoved, remove_connection-Handled, added-Handled}
use hal_os.Net.Session.States.Handlers.{
  handle_wait_for_ack-Handled, handle_last_ack-Handled, handle_syn_sent-Handled,
  handle_syn_received-Handled, handle_established-Handled,
}

module _ (malloc : ℕ → Bool) (index : Option (List ℕ)) (headers : ℕ → List ℕ) where
  send_reset-Handled :
      (ip : List ℕ) (tcp : Header) (net : Net)
      → IsTable net
      → Handled net (send_reset malloc ip tcp net)
  unfolding send_reset
  send_reset-Handled ip tcp net t =
      let s = send_segment-SameTables malloc tcp_rst [] _ net in
      unmoved net _ t s.connections s.next

  accept_syn-Handled :
      (ip : List ℕ) (tcp : Header) (m : ℕ → ℕ) (net : Net)
      → IsTable net
      → Handled net (accept_syn malloc index headers ip tcp m net)
  unfolding accept_syn initial_seq process_options accepted add_connection
  accept_syn-Handled ip tcp m net t =
      elim (Bool-cases (is_listening_port tcp.dest_port net.listen_ports)) [
        | inr deaf ↦ rw deaf (send_reset-Handled ip tcp net t)
        | inl heard ↦ rw heard (elim (Bool-cases (malloc 8244)) [
          | inr out ↦ rw out (unmoved net net t refl refl)
          | inl room ↦ rw room (
              added-Handled (sent.0) net _ t quiet.address
                (send-state malloc index headers (tcp_syn + tcp_ack) [] (fresh, room_made))
                (timed.0 ∙ ap (λ cs. sent.0 ∷ cs) quiet.connections) (timed.1 ∙ quiet.next))
        ])
      ]
    where
      counted : Net
      counted = (initial_seq net).1

      fresh : Connection
      fresh =
          process_options (bytes m 20 (tcp.data_offset * 4 - 20))
            (accepted malloc index headers ip tcp (initial_seq net).0 counted.next_address)

      room_made : Net
      room_made = record counted { next_address = counted.next_address + 8244 }

      sent : Connection × Net
      sent = send malloc index headers (tcp_syn + tcp_ack) [] (fresh, room_made)

      quiet : Quiet (fresh, room_made) sent
      quiet = send-Quiet malloc index headers (tcp_syn + tcp_ack) [] (fresh, room_made)

      timed :
          ((start_timer malloc fresh.address retransmit_timeout
              (add_connection sent.0 sent.1)).connections
            ≡ sent.0 ∷ (sent.1).connections)
          × ((start_timer malloc fresh.address retransmit_timeout
                (add_connection sent.0 sent.1)).next_address
              ≡ (sent.1).next_address)
      timed =
          start_timer-connections malloc fresh.address retransmit_timeout
            (add_connection sent.0 sent.1)

  dispatch-Handled :
      (s : TcpState) (c : Connection) (tcp : Header) (m : ℕ → ℕ) (len : ℕ) (net : Net)
      → IsTable net
      → load c.address net.connections ≡ some c
      → c.state ≡ s
      → Handled net (dispatch malloc index headers s c tcp m len net)
  unfolding dispatch
  dispatch-Handled syn_sent c tcp m len net t h e =
      handle_syn_sent-Handled malloc index headers tcp c net t h e
  dispatch-Handled syn_received c tcp m len net t h e =
      handle_syn_received-Handled malloc index headers tcp c net t h e
  dispatch-Handled established c tcp m len net t h e =
      handle_established-Handled malloc index headers tcp m len c net t h e
  dispatch-Handled wait_for_ack c tcp m len net t h e =
      handle_wait_for_ack-Handled malloc index headers tcp c net t h
  dispatch-Handled last_ack c tcp m len net t h e =
      handle_last_ack-Handled malloc index headers tcp c net t
  dispatch-Handled closed c tcp m len net t h e = unmoved net net t refl refl
  dispatch-Handled listen c tcp m len net t h e = unmoved net net t refl refl
  dispatch-Handled fin_wait_1 c tcp m len net t h e = unmoved net net t refl refl
  dispatch-Handled fin_wait_2 c tcp m len net t h e = unmoved net net t refl refl
  dispatch-Handled close_wait c tcp m len net t h e = unmoved net net t refl refl
  dispatch-Handled closing c tcp m len net t h e = unmoved net net t refl refl
  dispatch-Handled time_wait c tcp m len net t h e = unmoved net net t refl refl

  -- In a table whose connections lie at addresses of their own, handling any segment leaves such a
  -- table, in which each connection is one that was there, at most one arrow of the diagram
  -- further, or a new one in `TCP_SYN_RECEIVED`.
  pub tcp_handle_packet-Handled :
      (ip : List ℕ) (m : ℕ → ℕ) (len : ℕ) (net : Net)
      → IsTable net
      → Handled net (tcp_handle_packet malloc index headers ip m len net)
  unfolding tcp_handle_packet
  tcp_handle_packet-Handled ip m len net t = elim (Bool-cases (ltb tcp.data_offset 5)) [
    | inl short ↦ rw short (send_reset-Handled ip tcp net t)
    | inr fits ↦ rw fits (
        found (find_connection (ip_src ip) tcp.src_port (ip_dst ip) tcp.dest_port net.connections)
          refl)
  ]
    where
      tcp : Header
      tcp = header_of m

      found :
          (o : Option Connection)
          → find_connection (ip_src ip) tcp.src_port (ip_dst ip) tcp.dest_port net.connections ≡ o
          → Handled net (elim o [
            | some c ↦
                if has_flag tcp.flags tcp_rst
                then remove_connection c.address net
                else dispatch malloc index headers c.state c tcp m len net
            | none ↦
                if has_flag tcp.flags tcp_rst
                then net
                else if has_flag tcp.flags tcp_syn
                then accept_syn malloc index headers ip tcp m net
                else send_reset malloc ip tcp net
          ])
      found (some c) e = elim (Bool-cases (has_flag tcp.flags tcp_rst)) [
        | inl reset ↦ rw reset (remove_connection-Handled c.address net t)
        | inr on ↦ rw on (
            dispatch-Handled c.state c tcp m len net t
              (load-find_connection (ip_src ip) tcp.src_port (ip_dst ip) tcp.dest_port c
                net.connections t.distinct e)
              refl)
      ]
      found none e = elim (Bool-cases (has_flag tcp.flags tcp_rst)) [
        | inl reset ↦ rw reset (unmoved net net t refl refl)
        | inr on ↦ rw on (elim (Bool-cases (has_flag tcp.flags tcp_syn)) [
          | inl new ↦ rw new (accept_syn-Handled ip tcp m net t)
          | inr other ↦ rw other (send_reset-Handled ip tcp net t)
        ])
      ]

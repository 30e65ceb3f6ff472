-- ===== src/Net/Session/Quiet.antt =====
-- The stages of `handle_established_state` of src/drivers/net/tcp.c: none moves the connection or
-- touches the table, and which of them may change its state.
use hal_os.Base.{ℕ, ◌+◌, Bool}
use hal_os.Base.{◌≡◌, ◌⊎◌, inl, inr, refl, arith, Bool-cases, u8, u32}
use hal_os.Base.{Option, none, some, List, [], ◌∷◌, length}
use hal_os.Net.{Net, Connection, Retransmit, established, wait_for_ack, close_wait, last_ack}
use hal_os.Net.Tcp.{tcp_ack, tcp_fin, tcp_psh, retransmit_timeout, start_timer}
use hal_os.Net.Segment.{Header, send_segment}
use hal_os.Net.Segment.Send.{send_segment-SameTables, send_segment-SameEnds}
use hal_os.Net.Session.{
  take_numbers, send, count_dup_ack, acknowledge, take_payload, take_fin, receive_data,
}
use hal_os.Net.Session.Timers.{is_state}
use hal_os.Net.Session.Web.{http_request, send_page, not_found, trim_newline}

-- `q` has the connection at the address that it has in `p`, and the same table.
pub record Quiet (p q : Connection × Net) : Type 0 where
  pub address : (q.0).address ≡ (p.0).address
  pub connections : (q.1).connections ≡ (p.1).connections
  pub next : (q.1).next_address ≡ (p.1).next_address

pub Quiet-trans : {p q r : Connection × Net} → Quiet p q → Quiet q r → Quiet p r
Quiet-trans a b = ground arith

pub start_timer-connections :
    (malloc : ℕ → Bool) (address timeout : ℕ) (net : Net)
    → ((start_timer malloc address timeout net).connections ≡ net.connections)
      × ((start_timer malloc address timeout net).next_address ≡ net.next_address)
unfolding start_timer
start_timer-connections malloc address timeout net = ground arith

module _ (malloc : ℕ → Bool) where
  send_segment-Quiet :
      (flags : ℕ) (payload : List ℕ) (c : Connection) (net : Net)
      → Quiet (c, net) (send_segment malloc flags payload c net)
  send_segment-Quiet flags payload c net =
      let t = send_segment-SameTables malloc flags payload c net in
      record {
        address = (send_segment-SameEnds malloc flags payload c net).address;
        connections = t.connections;
        next = t.next;
      }

send_page-Quiet :
    (malloc : ℕ → Bool) (index : Option (List ℕ)) (headers : ℕ → List ℕ) (content : List ℕ)
    (c : Connection) (net : Net)
    → Quiet (c, net) (send_page malloc index headers content c net)
unfolding send_page
send_page-Quiet malloc index headers content c net =
    let headers' = headers (length (trim_newline content)) in
    let first = send_segment malloc (tcp_psh + tcp_ack) headers' c net in
    let second = send_segment malloc (tcp_psh + tcp_ack) (trim_newline content) first.0 first.1 in
    ground (
      arith,
      send_segment-Quiet malloc (tcp_psh + tcp_ack) headers' c net,
      send_segment-Quiet malloc (tcp_psh + tcp_ack) (trim_newline content) first.0 first.1,
      start_timer-connections malloc (second.0).address retransmit_timeout second.1,
    )

http_request-Quiet :
    (malloc : ℕ → Bool) (index : Option (List ℕ)) (headers : ℕ → List ℕ) (c : Connection)
    (net : Net)
    → Quiet (c, net) (http_request malloc index headers c net)
unfolding http_request
http_request-Quiet malloc none headers c net =
    ground (arith, send_segment-Quiet malloc (tcp_psh + tcp_ack) not_found c net)
http_request-Quiet malloc (some content) headers c net =
    elim (Bool-cases (malloc (length content))) [
      | inl full ↦ rw full (send_page-Quiet malloc (some content) headers content c net)
      | inr out ↦ rw out (record { address = refl; connections = refl; next = refl })
    ]

module _ (malloc : ℕ → Bool) (index : Option (List ℕ)) (headers : ℕ → List ℕ) where
  pub send-Quiet :
      (flags : ℕ) (payload : List ℕ) (p : Connection × Net)
      → Quiet p (send malloc index headers flags payload p)
  unfolding send
  send-Quiet flags payload (c, net) = send_segment-Quiet malloc flags payload c net

  pub send-state :
      (flags : ℕ) (payload : List ℕ) (p : Connection × Net)
      → ((send malloc index headers flags payload p).0).state ≡ (p.0).state
  unfolding send
  send-state flags payload (c, net) = (send_segment-SameEnds malloc flags payload c net).state

  count_dup_ack-Quiet :
      (tcp : Header) (p : Connection × Net)
      → Quiet p (count_dup_ack malloc index headers tcp p)
        × (((count_dup_ack malloc index headers tcp p).0).state ≡ (p.0).state)
  unfolding count_dup_ack
  count_dup_ack-Quiet tcp (c, net) = go c.retransmit_queue refl
    where
      counted : Connection
      counted = record c { dup_ack_count = u8 (c.dup_ack_count + 1) }

      go :
          (q : List Retransmit)
          → c.retransmit_queue ≡ q
          → Quiet (c, net) (count_dup_ack malloc index headers tcp (c, net))
            × (((count_dup_ack malloc index headers tcp (c, net)).0).state ≡ c.state)
      go [] e = ground (arith, e)
      go (x ∷ rest) e = ground (
        arith,
        e,
        send-Quiet tcp_ack x.payload (counted, net),
        send-state tcp_ack x.payload (counted, net),
      )

  pub take_payload-Quiet :
      (tcp : Header) (payload : List ℕ) (p : Connection × Net)
      → Quiet p (take_payload malloc index headers tcp payload p)
        × ((((take_payload malloc index headers tcp payload p).0).state ≡ (p.0).state)
            ⊎ (((take_payload malloc index headers tcp payload p).0).state ≡ wait_for_ack))
  unfolding take_payload receive_data
  take_payload-Quiet tcp payload (c, net) = ground (
    arith,
    http_request-Quiet malloc index headers
        (record c { expected_ack = u32 (tcp.seq + length payload) }) net,
    send-Quiet tcp_ack [] (
        receive_data tcp payload (record c { expected_ack = u32 (tcp.seq + length payload) }, net)),
    send-state tcp_ack [] (
        receive_data tcp payload (record c { expected_ack = u32 (tcp.seq + length payload) }, net)),
  )

  pub take_fin-Quiet :
      (tcp : Header) (p : Connection × Net)
      → Quiet p (take_fin malloc index headers tcp p)
        × ((((take_fin malloc index headers tcp p).0).state ≡ (p.0).state)
            ⊎ (((take_fin malloc index headers tcp p).0).state ≡ last_ack))
  unfolding take_fin
  take_fin-Quiet tcp (c, net) =
      let closing' : Connection = record c {
        expected_ack = u32 (c.expected_ack + 1);
        state = close_wait;
      } in
      ground (
        arith,
        send-Quiet tcp_ack [] (closing', net),
        send-Quiet (tcp_fin + tcp_ack) [] (send malloc index headers tcp_ack [] (closing', net)),
      )

  pub take_numbers-Quiet :
      (tcp : Header) (data_len : ℕ) (c : Connection) (net : Net)
      → c.state ≡ established
      → Quiet (c, net) (take_numbers malloc index headers tcp data_len (c, net))
        × (((take_numbers malloc index headers tcp data_len (c, net)).0).state ≡ established)
  unfolding take_numbers is_state acknowledge
  take_numbers-Quiet tcp data_len c net e =
      let counted = count_dup_ack malloc index headers tcp (c, net) in
      let acked = acknowledge tcp data_len counted.0 in
      let k = count_dup_ack-Quiet tcp (c, net) in
      rw e (
        ground (
          arith,
          e,
          k,
          send-Quiet tcp_ack [] (acked, counted.1),
          send-state tcp_ack [] (acked, counted.1),
        ))

-- ===== src/Net/Session/Faults.antt =====
-- What the timers and the numbers of src/drivers/net/tcp.c do that a peer does not expect.
use mathlib.Core.List.{append-nil}
use hal_os.Net.Segment.Sums.{cut-short}
use mathlib.Core.Path.{subst}
use hal_os.Base.{ℕ, ◌+◌, ◌^◌, ◌≤◌, ◌<◌, Bool, true, false}
use hal_os.Base.{◌≡◌, refl, arith, ◌∙◌, ap, sym, u8, u32}
use hal_os.Base.{Option, none, some, List, [], ◌∷◌, ◌++◌, length}
use hal_os.Net.{Net, Connection, Retransmit, Timer, syn_received, established, wait_for_ack}
use hal_os.Net.Tcp.{load, store, has_flag, tcp_fin, tcp_ack, max_retries}
use hal_os.Net.Tcp.Table.{Distinct, load-delete_self, load-store_self}
use hal_os.Net.Segment.{Header, send_segment, queue_segment, advance}
use hal_os.Net.Segment.Send.{send_segment-SameTables, send_segment-SameEnds}
use hal_os.Net.Session.{
  established_step, take_numbers, take_payload, take_fin, receive_data, count_dup_ack, acknowledge,
  send, handle_syn_received,
}
use hal_os.Net.Session.Web.{is_http_get_request}
use hal_os.Net.Session.Timers.{
  check_timers, check_from, send_again, is_expired, is_state, has_timer, bump,
}

-- When the only timer of all expires for the sixth time before its connection is open, the
-- connection is removed, and the code frees a timer through a pointer that is NULL by then.
pub check_timers-gives_up :
    (malloc : ℕ → Bool) (t : Timer) (c : Connection) (net : Net)
    → net.timers ≡ t ∷ []
    → is_expired net t ≡ true
    → Distinct net.connections
    → load t.conn net.connections ≡ some c
    → c.state ≡ syn_received
    → max_retries ≤ t.retries
    → ((check_timers malloc net).fault ≡ true)
      × (load t.conn (check_timers malloc net).connections ≡ none)
unfolding check_timers check_from send_again is_state has_timer
check_timers-gives_up malloc t c net one late d found s spent =
    ground (arith, one, late, found, s, spent, load-delete_self t.conn net.connections d)

-- what the connection at the address of `c` is once its timer has sent again
abbrev pub Resent : Connection → Net → (Connection → Type 0) → Type 0
Resent c net P = (d : Connection) × (load c.address net.connections ≡ some d) × P d

load-written :
    (c d : Connection) (cs ds : List Connection)
    → d.address ≡ c.address
    → ds ≡ cs
    → load c.address cs ≡ some c
    → load c.address (store d ds) ≡ some d
load-written c d cs ds a q h =
    rw q (subst (λ n. load n (store d cs) ≡ some d) a (load-store_self d c cs (rw a h)))

queued-send :
    (malloc : ℕ → Bool) (flags : ℕ) (payload : List ℕ) (c : Connection) (net : Net)
    → ((n : ℕ) → malloc n ≡ true)
    → 0 < length payload
    → length payload < 2 ^ 16
    → ((send_segment malloc flags payload c net).0).retransmit_queue
      ≡ record {
        seq = c.next_seq;
        length = length payload;
        payload = payload;
        flags = flags;
        retries = 0;
      }
        ∷ c.retransmit_queue
unfolding send_segment queue_segment
queued-send malloc flags payload c net all some_bytes fits =
    rw (cut-short payload fits) (ground (arith, all 24, all (length payload), some_bytes))

-- A page that waits for its acknowledgement is sent again without end: every copy that is sent
-- becomes the head of the queue with no retries, so that the head never counts up to five.
send_again-counts_anew :
    (malloc : ℕ → Bool) (t : Timer) (c : Connection) (e : Retransmit) (rest : List Retransmit)
    (net : Net)
    → ((n : ℕ) → malloc n ≡ true)
    → load c.address net.connections ≡ some c
    → c.state ≡ wait_for_ack
    → c.retransmit_queue ≡ e ∷ rest
    → e.retries < max_retries
    → 0 < length e.payload
    → length e.payload < 2 ^ 16
    → (net' : Net) × (send_again malloc t c net ≡ some (record t { start_time = net.ticks }, net'))
      × Resent c net' (λ d.
        (f : Retransmit) × (d.retransmit_queue ≡ f ∷ record e { retries = e.retries + 1 } ∷ rest)
        × (f.retries ≡ 0))
unfolding send_again is_state
send_again-counts_anew malloc t c e rest net all found s q few some_bytes fits =
    let sent = send_segment malloc tcp_ack e.payload (bump c e rest) net in
    let tables = send_segment-SameTables malloc tcp_ack e.payload (bump c e rest) net in
    let ends = send_segment-SameEnds malloc tcp_ack e.payload (bump c e rest) net in
    (
      record (sent.1) { connections = store sent.0 (sent.1).connections },
      ground (arith, s, q, few),
      (
        sent.0,
        load-written c sent.0 net.connections (sent.1).connections ends.address tables.connections
            found,
        (
          record {
            seq = c.next_seq;
            length = length e.payload;
            payload = e.payload;
            flags = tcp_ack;
            retries = 0;
          },
          queued-send malloc tcp_ack e.payload (bump c e rest) net all some_bytes fits
              ∙ ap
                  (λ n.
                    record {
                      seq = c.next_seq;
                      length = length e.payload;
                      payload = e.payload;
                      flags = tcp_ack;
                      retries = 0;
                    }
                    ∷ record e { retries = n }
                    ∷ rest)
                  (omega arith),
          refl,
        ),
      ),
    )

send_fin-next_seq :
    (malloc : ℕ → Bool) (c : Connection) (net : Net)
    → c.next_seq < 2 ^ 32
    → ((send_segment malloc tcp_fin [] c net).0).next_seq ≡ u32 (c.next_seq + 1)
unfolding send_segment queue_segment advance has_flag
send_fin-next_seq malloc c net lt = ground arith

-- A `TCP_SYN` that is answered and not acknowledged in time is followed by a `TCP_FIN`, which uses
-- up a number: the acknowledgement of the answer does not open the connection any more.
send_again-shuts_out :
    (malloc : ℕ → Bool) (index : Option (List ℕ)) (headers : ℕ → List ℕ) (t : Timer)
    (c : Connection) (tcp : Header) (net : Net)
    → load c.address net.connections ≡ some c
    → c.state ≡ syn_received
    → c.next_seq < 2 ^ 32
    → t.retries < max_retries
    → tcp.ack ≡ c.next_seq
    → (t' : Timer) × (net' : Net) × (send_again malloc t c net ≡ some (t', net'))
      × Resent c net' (λ d. handle_syn_received malloc index headers tcp d net' ≡ net')
unfolding send_again is_state handle_syn_received
send_again-shuts_out malloc index headers t c tcp net found s lt few old =
    let sent = send_segment malloc tcp_fin [] c net in
    let tables = send_segment-SameTables malloc tcp_fin [] c net in
    let ends = send_segment-SameEnds malloc tcp_fin [] c net in
    (
      record t { start_time = net.ticks; retries = u8 (t.retries + 1) },
      record (sent.1) { connections = store sent.0 (sent.1).connections },
      ground (arith, s, few),
      (
        sent.0,
        load-written c sent.0 net.connections (sent.1).connections ends.address tables.connections
            found,
        ground (arith, old, lt, send_fin-next_seq malloc c net lt),
      ),
    )

module _ (malloc : ℕ → Bool) (index : Option (List ℕ)) (headers : ℕ → List ℕ) where
  send-recv_buffer :
      (flags : ℕ) (payload : List ℕ) (p : Connection × Net)
      → ((send malloc index headers flags payload p).0).recv_buffer ≡ (p.0).recv_buffer
  unfolding send
  send-recv_buffer flags payload (c, net) =
      (send_segment-SameEnds malloc flags payload c net).recv_buffer

  count_dup_ack-recv_buffer :
      (tcp : Header) (c : Connection) (net : Net)
      → ((count_dup_ack malloc index headers tcp (c, net)).0).recv_buffer ≡ c.recv_buffer
  unfolding count_dup_ack
  count_dup_ack-recv_buffer tcp c net = go c.retransmit_queue refl
    where
      counted : Connection
      counted = record c { dup_ack_count = u8 (c.dup_ack_count + 1) }

      go :
          (q : List Retransmit)
          → c.retransmit_queue ≡ q
          → ((count_dup_ack malloc index headers tcp (c, net)).0).recv_buffer ≡ c.recv_buffer
      go [] e = ground (arith, e)
      go (x ∷ rest) e = ground (arith, e, send-recv_buffer tcp_ack x.payload (counted, net))

  take_numbers-recv_buffer :
      (tcp : Header) (n : ℕ) (c : Connection) (net : Net)
      → c.state ≡ established
      → ((take_numbers malloc index headers tcp n (c, net)).0).recv_buffer ≡ c.recv_buffer
  unfolding take_numbers is_state acknowledge
  take_numbers-recv_buffer tcp n c net e =
      let counted = count_dup_ack malloc index headers tcp (c, net) in
      rw e (
        ground (
          arith,
          e,
          count_dup_ack-recv_buffer tcp c net,
          send-recv_buffer tcp_ack [] (acknowledge tcp n counted.0, counted.1),
        ))

  take_payload-recv_buffer :
      (tcp : Header) (payload : List ℕ) (p : Connection × Net)
      → is_http_get_request payload ≡ false
      → ((take_payload malloc index headers tcp payload p).0).recv_buffer
        ≡ (p.0).recv_buffer ++ payload
  unfolding take_payload receive_data
  take_payload-recv_buffer tcp [] (c, net) plain = sym (append-nil c.recv_buffer)
  take_payload-recv_buffer tcp (b ∷ bs) (c, net) plain = ground (
    arith,
    plain,
    send-recv_buffer tcp_ack [] (
        receive_data tcp (b ∷ bs)
          (record c { expected_ack = u32 (tcp.seq + length (b ∷ bs)) }, net)),
  )

  -- In `TCP_ESTABLISHED`, the payload of a segment that is neither a request nor the last one is put
  -- behind the bytes that were received, whatever its number and the number that is expected.
  pub established_step-any_order :
      (tcp : Header) (payload : List ℕ) (c : Connection) (net : Net)
      → c.state ≡ established
      → is_http_get_request payload ≡ false
      → has_flag tcp.flags tcp_fin ≡ false
      → ((established_step malloc index headers tcp payload (c, net)).0).recv_buffer
        ≡ c.recv_buffer ++ payload
  unfolding established_step take_fin
  established_step-any_order tcp payload c net s plain last =
      let p = take_numbers malloc index headers tcp (length payload) (c, net) in
      rw last (
        take_payload-recv_buffer tcp payload p plain
        ∙ ap (λ b. b ++ payload) (take_numbers-recv_buffer tcp (length payload) c net s))

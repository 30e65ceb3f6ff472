-- ===== src/Net/Session/States/Handlers.antt =====
-- What the handlers of src/drivers/net/tcp.c leave, one for each state of a connection.
use mathlib.Core.Path.{subst}
use hal_os.Base.{ℕ, ◌+◌, ◌*◌, ◌==◌, ltb, leb, Bool, ◌&&◌}
use hal_os.Base.{◌≡◌, inl, inr, refl, ◌∙◌, ap, sym, Bool-cases, u8, u32}
use hal_os.Base.{Option, none, some, List, [], ◌∷◌, length}
use hal_os.Net.{Net, Connection, Retransmit}
use hal_os.Net.{syn_sent, syn_received, established}
use hal_os.Net.Bytes.{bytes}
use hal_os.Net.Tcp.{load, has_flag, tcp_syn, tcp_ack}
use hal_os.Net.Tcp.Table.{IsTable, address-load}
use hal_os.Net.Segment.{Header}
use hal_os.Net.Session.Timers.{check_timers}
use hal_os.Net.Session.Timers.Keep.{Keeps, check_timers-Keeps}
use hal_os.Net.Session.Quiet.{
  Quiet, Quiet-trans, take_numbers-Quiet, take_payload-Quiet, take_fin-Quiet, send-Quiet,
  send-state,
}
use hal_os.Net.Session.{
  send, put, faulty, data_length, take_numbers, take_payload, established_step, handle_established,
  handle_wait_for_ack, handle_last_ack, handle_syn_sent, handle_syn_received, wait_on, count_again,
  drop_head, full_ack,
}
use hal_os.Net.Session.States.{
  Step, stays, answered, confirmed, requested, finished, Handled, evolved, unmoved, put-Evolves,
  put-Handled, Evolves-behind, remove_connection-Handled, cancel_timer-Handled,
}

module _ (malloc : ℕ → Bool) (index : Option (List ℕ)) (headers : ℕ → List ℕ) where
  established_step-Step :
      (tcp : Header) (payload : List ℕ) (c : Connection) (net : Net)
      → c.state ≡ established
      → Quiet (c, net) (established_step malloc index headers tcp payload (c, net))
        × Step established ((established_step malloc index headers tcp payload (c, net)).0).state
  unfolding established_step
  established_step-Step tcp payload c net e =
      let one = take_numbers malloc index headers tcp (length payload) (c, net) in
      let two = take_payload malloc index headers tcp payload one in
      let (q, same) = take_numbers-Quiet malloc index headers tcp (length payload) c net e in
      let (p, paid) = take_payload-Quiet malloc index headers tcp payload one in
      let (f, ended) = take_fin-Quiet malloc index headers tcp two in
      (
        Quiet-trans (Quiet-trans q p) f,
        elim ended [
          | inr last ↦ rw last finished
          | inl kept ↦ elim paid [
            | inr waits ↦ rw (kept, waits) requested
            | inl still ↦ rw (kept, still, same) (stays established)
          ]
        ],
      )

  wait_on-Handled :
      (tcp : Header) (c : Connection) (queue : List Retransmit) (net : Net)
      → IsTable net
      → load c.address net.connections ≡ some c
      → Handled net (wait_on malloc index headers tcp c queue net)
  unfolding wait_on count_again drop_head
  wait_on-Handled tcp c [] net t h = unmoved net net t refl refl
  wait_on-Handled tcp c (e ∷ rest) net t h =
      elim (Bool-cases (leb (full_ack malloc index headers e) tcp.ack)) [
        | inl all ↦ rw all (last rest)
        | inr part ↦ rw part (elim (Bool-cases (ltb c.last_ack tcp.ack)) [
          | inl some_more ↦ rw some_more (
              kept
                (record c {
                  last_ack = tcp.ack;
                  retransmit_queue = record e { retries = 0 } ∷ rest;
                })
                refl refl)
          | inr again ↦ rw again (elim (Bool-cases (leb 3 (u8 (c.dup_ack_count + 1)))) [
            | inr few ↦ rw few (kept counted refl refl)
            | inl three ↦ rw three (
                put-Handled c net (record (sent.0) { dup_ack_count = 0 }, sent.1) t h
                  (let q = send-Quiet malloc index headers e.flags e.payload (counted, net) in
                    record { address = q.address; connections = q.connections; next = q.next })
                  (subst (Step c.state)
                    (sym (send-state malloc index headers e.flags e.payload (counted, net)))
                    (stays c.state)))
          ])
        ])
      ]
    where
      counted : Connection
      counted = record c { dup_ack_count = u8 (c.dup_ack_count + 1) }

      sent : Connection × Net
      sent = send malloc index headers e.flags e.payload (counted, net)

      kept :
          (d : Connection) → d.address ≡ c.address → d.state ≡ c.state → Handled net (put (d, net))
      kept d a s =
          put-Handled c net (d, net) t h (record { address = a; connections = refl; next = refl })
            (subst (Step c.state) (sym s) (stays c.state))

      last : (more : List Retransmit) → Handled net (drop_head malloc index headers c more net)
      last [] = remove_connection-Handled c.address net t
      last (x ∷ more) = kept (record c { retransmit_queue = x ∷ more }) refl refl

  pub handle_wait_for_ack-Handled :
      (tcp : Header) (c : Connection) (net : Net)
      → IsTable net
      → load c.address net.connections ≡ some c
      → Handled net (handle_wait_for_ack malloc index headers tcp c net)
  unfolding handle_wait_for_ack
  handle_wait_for_ack-Handled tcp c net t h = wait_on-Handled tcp c c.retransmit_queue net t h

  pub handle_last_ack-Handled :
      (tcp : Header) (c : Connection) (net : Net)
      → IsTable net
      → Handled net (handle_last_ack malloc index headers tcp c net)
  unfolding handle_last_ack
  handle_last_ack-Handled tcp c net t =
      elim (Bool-cases (has_flag tcp.flags tcp_ack && tcp.ack == c.next_seq)) [
        | inl done ↦ rw done (remove_connection-Handled c.address net t)
        | inr early ↦ rw early (unmoved net net t refl refl)
      ]

  pub handle_syn_sent-Handled :
      (tcp : Header) (c : Connection) (net : Net)
      → IsTable net
      → load c.address net.connections ≡ some c
      → c.state ≡ syn_sent
      → Handled net (handle_syn_sent malloc index headers tcp c net)
  unfolding handle_syn_sent
  handle_syn_sent-Handled tcp c net t h e =
      elim (Bool-cases
        (has_flag tcp.flags tcp_syn && has_flag tcp.flags tcp_ack && tcp.ack == c.next_seq)) [
          | inr early ↦ rw early (unmoved net net t refl refl)
          | inl done ↦ rw done (
              cancel_timer-Handled c.address net _ (
                put-Handled c net (send malloc index headers tcp_ack [] (opened, net)) t h
                  (Quiet-trans (record { address = refl; connections = refl; next = refl })
                    (send-Quiet malloc index headers tcp_ack [] (opened, net)))
                  (subst
                    (λ s. Step s ((send malloc index headers tcp_ack [] (opened, net)).0).state)
                    (sym e)
                    (rw (send-state malloc index headers tcp_ack [] (opened, net)) answered))))
        ]
    where
      opened : Connection
      opened = record c { expected_ack = u32 (tcp.seq + 1); state = established }

  pub handle_syn_received-Handled :
      (tcp : Header) (c : Connection) (net : Net)
      → IsTable net
      → load c.address net.connections ≡ some c
      → c.state ≡ syn_received
      → Handled net (handle_syn_received malloc index headers tcp c net)
  unfolding handle_syn_received
  handle_syn_received-Handled tcp c net t h e =
      elim (Bool-cases (has_flag tcp.flags tcp_ack && tcp.ack == c.next_seq)) [
        | inr early ↦ rw early (unmoved net net t refl refl)
        | inl done ↦ rw done (
            cancel_timer-Handled c.address net _ (
              put-Handled c net (record c { state = established }, net) t h
                (record { address = refl; connections = refl; next = refl })
                (subst (λ s. Step s established) (sym e) confirmed)))
      ]

  pub handle_established-Handled :
      (tcp : Header) (m : ℕ → ℕ) (len : ℕ) (c : Connection) (net : Net)
      → IsTable net
      → load c.address net.connections ≡ some c
      → c.state ≡ established
      → Handled net (handle_established malloc index headers c.address tcp m len net)
  unfolding handle_established
  handle_established-Handled tcp m len c net t h e = go (load c.address checked.connections) refl
    where
      checked : Net
      checked = check_timers malloc net

      k : Keeps net checked
      k = check_timers-Keeps malloc net t

      go :
          (o : Option Connection)
          → load c.address checked.connections ≡ o
          → Handled net (elim o [
            | none ↦ faulty checked
            | some d ↦ put (
                established_step malloc index headers tcp
                  (bytes m (tcp.data_offset * 4) (data_length tcp len))
                  (d, checked))
          ])
      go none gone =
          evolved net (faulty checked)
            (record { distinct = k.table.distinct; below = k.table.below })
            (λ a d le.
              let (b, lb, same) = k.same a d le in
              (b, lb, subst (Step b.state) (sym same) (stays b.state)))
      go (some d) found =
          let (b, lb, same) = k.same c.address d found in
          let was : d.state ≡ established = cc (same, lb, h, e) in
          let at : d.address ≡ c.address = address-load c.address d checked.connections found in
          let payload = bytes m (tcp.data_offset * 4) (data_length tcp len) in
          let (q, s) = established_step-Step tcp payload d checked was in
          let (w, v) =
            put-Evolves d checked (established_step malloc index headers tcp payload (d, checked))
              k.table (ap (λ n. load n checked.connections) at ∙ found) q
              (subst
                (λ x.
                  Step x ((established_step malloc index headers tcp payload (d, checked)).0).state)
                (sym was) s) in
          evolved net (put (established_step malloc index headers tcp payload (d, checked))) w
            (Evolves-behind net.connections checked.connections _ k.same v)

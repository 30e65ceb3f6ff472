-- ===== src/Net/Session/Timers/Keep.antt =====
-- What `check_tcp_timers` of src/drivers/net/tcp.c leaves of the table of connections.
use mathlib.Core.Path.{subst}
use hal_os.Net.Session.Timers.{is_expired}
use hal_os.Net.Tcp.Table.{address-load}
use hal_os.Base.{ℕ, ltb, Bool, true, false, ◌||◌, if◌then◌else◌}
use hal_os.Base.{◌≡◌, refl, ◌∙◌, ap, Bool-cases, Option-cases, inl, inr}
use hal_os.Base.{Option, none, some, List, [], ◌∷◌, ◌++◌}
use hal_os.Net.{Net, Connection, Timer, Retransmit, TcpState}
use hal_os.Net.Tcp.{load, store, delete, cancel, max_retries, tcp_ack, tcp_syn, tcp_fin}
use hal_os.Net.Tcp.Table.{IsTable, store-Distinct, store-AllBelow, delete-Distinct, delete-AllBelow}
use hal_os.Net.Tcp.Evolve.{Evolves, Same, store-Evolves, delete-Evolves}
use hal_os.Net.Segment.{send_segment}
use hal_os.Net.Segment.Send.{SameTables, send_segment-SameTables, send_segment-SameEnds}
use hal_os.Net.Session.Timers.{
  check_from, check_timers, send_again, bump, is_state, has_timer, ends_with_first,
}

-- The table is in order still, and of its connections some may be gone, none new and none in
-- another state.
pub record Keeps (before after : Net) : Type 0 where
  pub table : IsTable after
  pub same : Evolves Same before.connections after.connections
  pub next : after.next_address ≡ before.next_address

Keeps-refl : (net : Net) → IsTable net → Keeps net net
Keeps-refl net t = record { table = t; same = λ a d le. (d, le, refl); next = refl }

Keeps-trans : {a b c : Net} → Keeps a b → Keeps b c → Keeps a c
Keeps-trans p q = record {
  table = q.table;
  same =
      λ x e le. let (d, ld, r) = q.same x e le in let (c, lc, s) = p.same x d ld in (c, lc, r ∙ s);
  next = q.next ∙ p.next;
}

-- the connection of a timer, sent from and written back
stored-Keeps :
    (net : Net) (c : Connection) (r : Connection × Net)
    → IsTable net
    → load c.address net.connections ≡ some c
    → SameTables net r.1
    → (r.0).address ≡ c.address
    → (r.0).state ≡ c.state
    → Keeps net (record (r.1) { connections = store r.0 (r.1).connections })
stored-Keeps net c r t h s a e = record {
  table = record {
    distinct = store-Distinct r.0 (r.1).connections (rw s.connections t.distinct);
    below =
        store-AllBelow (r.1).next_address r.0 (r.1).connections
          (rw (s.connections, s.next) t.below);
  };
  same = rw s.connections (store-Evolves Same (λ _. refl) c r.0 net.connections (rw a h) e);
  next = s.next;
}

-- what sending again leaves, where there is a retry left
abbrev Sends : Net → Option (Timer × Net) → Type 0
Sends net none = Unit {0}
Sends net (some (t, net')) = Keeps net net'

send_again-Sends :
    (malloc : ℕ → Bool) (t : Timer) (c : Connection) (net : Net)
    → IsTable net
    → load c.address net.connections ≡ some c
    → Sends net (send_again malloc t c net)
unfolding send_again
send_again-Sends malloc t c net w h = elim (Bool-cases (is_state TcpState.wait_for_ack c.state)) [
  | inl waits ↦ rw waits (resend c.retransmit_queue)
  | inr other ↦ rw other (elim (Bool-cases (ltb t.retries max_retries)) [
    | inl more ↦
        rw more
          (sent (if is_state TcpState.syn_sent c.state then tcp_syn else tcp_fin) [] c refl refl)
    | inr last ↦ rw last tt
  ])
]
  where
    sent :
        (flags : ℕ) (payload : List ℕ) (d : Connection)
        → d.address ≡ c.address
        → d.state ≡ c.state
        → Keeps net (record ((send_segment malloc flags payload d net).1) {
          connections =
              store
                (send_segment malloc flags payload d net).0
                ((send_segment malloc flags payload d net).1).connections;
        })
    sent flags payload d p q =
        stored-Keeps net c (send_segment malloc flags payload d net) w h
          (send_segment-SameTables malloc flags payload d net)
          ((send_segment-SameEnds malloc flags payload d net).address ∙ p)
          ((send_segment-SameEnds malloc flags payload d net).state ∙ q)

    resend :
        (q : List Retransmit)
        → Sends net (elim q [
          | [] ↦ none
          | e ∷ rest ↦
              if ltb e.retries max_retries
              then some (
                record t { start_time = net.ticks },
                record ((send_segment malloc tcp_ack e.payload (bump c e rest) net).1) {
                  connections =
                      store
                        (send_segment malloc tcp_ack e.payload (bump c e rest) net).0
                        ((send_segment malloc tcp_ack e.payload (bump c e rest) net).1).connections;
                },
              )
              else none
        ])
    resend [] = tt
    resend (e ∷ rest) = elim (Bool-cases (ltb e.retries max_retries)) [
      | inl more ↦ rw more (sent tcp_ack e.payload (bump c e rest) refl refl)
      | inr last ↦ rw last tt
    ]

-- a connection deleted, and the timers changed
deleted-Keeps :
    (a : ℕ) (net : Net)
    → IsTable net
    → Keeps net (record net { connections = delete a net.connections })
deleted-Keeps a net t = record {
  table = record {
    distinct = delete-Distinct a net.connections t.distinct;
    below = delete-AllBelow net.next_address a net.connections t.below;
  };
  same = delete-Evolves Same (λ _. refl) a net.connections t.distinct;
  next = refl;
}

retimed-Keeps :
    (net : Net) (timers : List Timer) (fault : Bool)
    → IsTable net
    → Keeps net (record net { timers = timers; fault = fault })
retimed-Keeps net timers fault w = record {
  table = record { distinct = w.distinct; below = w.below };
  same = λ a d le. (d, le, refl);
  next = refl;
}

sent_Keeps :
    (malloc : ℕ → Bool) (t t' : Timer) (c : Connection) (net net' : Net)
    → IsTable net
    → load t.conn net.connections ≡ some c
    → send_again malloc t c net ≡ some (t', net')
    → Keeps net net'
sent_Keeps malloc t t' c net net' w found again =
    let at : c.address ≡ t.conn = address-load t.conn c net.connections found in
    subst (Sends net) again
      (send_again-Sends malloc t c net w (ap (λ n. load n net.connections) at ∙ found))

check_from-Keeps :
    (malloc : ℕ → Bool) (skip : Bool) (before rest : List Timer) (net : Net)
    → IsTable net
    → Keeps net (check_from malloc skip before rest net)
unfolding check_from
check_from-Keeps malloc skip before [] net w = retimed-Keeps net before (net.fault || skip) w
check_from-Keeps malloc true before (t ∷ rest) net w =
    check_from-Keeps malloc false before rest net w
check_from-Keeps malloc false before (t ∷ rest) net w = elim (Bool-cases (is_expired net t)) [
  | inr early ↦ rw (early, check_from) (check_from-Keeps malloc false (before ++ t ∷ []) rest net w)
  | inl late ↦
      rw (late, check_from)
        (elim (Option-cases (load t.conn net.connections)) [
          | inl gone ↦ rw gone (retimed-Keeps net (before ++ t ∷ rest) true w)
          | inr (c, found) ↦ rw found (elim (Option-cases (send_again malloc t c net)) [
            | inr ((t', net'), again) ↦
                let k : Keeps net net' = sent_Keeps malloc t t' c net net' w found again in
                rw again (
                  Keeps-trans k
                    (check_from-Keeps malloc false (before ++ t' ∷ []) rest net' k.table))
            | inl spent ↦
                let k = deleted-Keeps t.conn net w in
                rw spent (elim (Bool-cases (has_timer t.conn before)) [
                  | inr clear ↦ rw clear (
                      Keeps-trans k (
                        check_from-Keeps malloc true before rest
                          (record net { connections = delete t.conn net.connections }) k.table))
                  | inl more ↦ rw more (elim (Bool-cases (ends_with_first t.conn before)) [
                    | inl dangles ↦ rw dangles (
                        Keeps-trans k (
                          retimed-Keeps (record net { connections = delete t.conn net.connections })
                            (cancel t.conn before ++ t ∷ rest) true k.table))
                    | inr fine ↦ rw fine (
                        Keeps-trans k (
                          check_from-Keeps malloc false (cancel t.conn before) rest
                            (record net { connections = delete t.conn net.connections }) k.table))
                  ])
                ])
          ])
        ])
]

-- Checking the timers leaves the table in order, and of the connections none new and none in another state.
pub check_timers-Keeps :
    (malloc : ℕ → Bool) (net : Net) → IsTable net → Keeps net (check_timers malloc net)
unfolding check_timers
check_timers-Keeps malloc net w = check_from-Keeps malloc false [] net.timers net w

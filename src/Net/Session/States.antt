-- ===== src/Net/Session/States.antt =====
-- The states that a segment takes the connections of src/drivers/net/tcp.c through.
pub mod Handlers
pub mod Segment
use mathlib.Core.Path.{subst}
use hal_os.Base.{
  ℕ, ◌+◌, ◌-◌, ◌*◌, ◌<◌, ◌==◌, ltb, leb, Bool, true, false, not, ◌&&◌, ◌||◌, if◌then◌else◌,
}
use hal_os.Base.{
  ◌≡◌, ◌≢◌, ◌⊎◌, inl, inr, refl, arith, ◌∙◌, ap, sym, Bool-cases, Option-cases, u8, u16, u32,
}
use hal_os.Base.{Option, none, some, List, [], ◌∷◌, length}
use hal_os.Net.{Net, Connection, Retransmit, Timer, TcpState}
use hal_os.Net.{
  closed, listen, syn_sent, syn_received, established, wait_for_ack, fin_wait_1, fin_wait_2,
  close_wait, closing, last_ack, time_wait,
}
use hal_os.Net.Bytes.{bytes}
use hal_os.Net.Tcp.{
  load, store, delete, find_connection, has_flag, tcp_syn, tcp_ack, tcp_rst, tcp_fin, cancel_timer,
  remove_connection, add_connection, start_timer, retransmit_timeout, is_listening_port,
  initial_seq, process_options,
}
use hal_os.Net.Tcp.Table.{
  Distinct, AllBelow, AllBelow-mono, IsTable, address-load, load-AllBelow, load-find_connection,
  store-Distinct, store-AllBelow, delete-Distinct, delete-AllBelow,
}
use hal_os.Net.Tcp.Evolve.{Evolves, Same, store-Evolves, delete-Evolves}
use hal_os.Net.Segment.{Header, header_of, ip_src, ip_dst, send_segment, send_reset}
use hal_os.Net.Segment.Send.{SameTables, SameEnds, send_segment-SameTables, send_segment-SameEnds}
use hal_os.Net.Session.Timers.{check_timers, is_state}
use hal_os.Net.Session.Timers.Keep.{Keeps, check_timers-Keeps}
use hal_os.Net.Session.Quiet.{
  start_timer-connections, Quiet, Quiet-trans, take_numbers-Quiet, take_payload-Quiet,
  take_fin-Quiet, send-Quiet, send-state,
}
use hal_os.Net.Session.{
  send, put, faulty, acknowledge, data_length, take_numbers, take_payload, take_fin,
  established_step, handle_established, handle_wait_for_ack, handle_last_ack, handle_syn_sent,
  handle_syn_received, wait_on, count_again, drop_head, full_ack, accepted, accept_syn, dispatch,
  tcp_handle_packet,
}

-- the arrows of the state diagram that the code has for a segment
pub data Step : TcpState → TcpState → Type 0 where
  stays : (s : TcpState) → Step s s
  answered : Step syn_sent established
  confirmed : Step syn_received established
  requested : Step established wait_for_ack
  finished : Step established last_ack

-- what handling a segment leaves: a table in order, in which each connection either was there, in a
-- state one arrow back, or is new and waits for the acknowledgement of its `TCP_SYN`
pub record Handled (before after : Net) : Type 0 where
  pub table : IsTable after
  pub moves :
      (a : ℕ) (d : Connection)
      → load a after.connections ≡ some d
      → ((load a before.connections ≡ none) × (d.state ≡ syn_received))
        ⊎ ((c : Connection) × (load a before.connections ≡ some c) × Step c.state d.state)

pub evolved :
    (before after : Net)
    → IsTable after
    → Evolves Step before.connections after.connections
    → Handled before after
evolved before after t e = record { table = t; moves = λ a d le. inr (e a d le) }

-- the table as it was, whatever else has changed
pub unmoved :
    (net net' : Net)
    → IsTable net
    → net'.connections ≡ net.connections
    → net'.next_address ≡ net.next_address
    → Handled net net'
unmoved net net' t c n =
    evolved net net' (record { distinct = rw c t.distinct; below = rw (c, n) t.below })
      (rw c (λ a d le. (d, le, stays d.state)))

-- a connection written back
pub put-Evolves :
    (c : Connection) (net : Net) (r : Connection × Net)
    → IsTable net
    → load c.address net.connections ≡ some c
    → Quiet (c, net) r
    → Step c.state (r.0).state
    → IsTable (put r) × Evolves Step net.connections (put r).connections
put-Evolves c net (d, net') t h q s = (
  record {
    distinct = store-Distinct d net'.connections (rw q.connections t.distinct);
    below =
        store-AllBelow net'.next_address d net'.connections (rw (q.connections, q.next) t.below);
  },
  rw q.connections (
      store-Evolves Step stays c d net.connections (ap (λ n. load n net.connections) q.address ∙ h)
        s),
)

pub put-Handled :
    (c : Connection) (net : Net) (r : Connection × Net)
    → IsTable net
    → load c.address net.connections ≡ some c
    → Quiet (c, net) r
    → Step c.state (r.0).state
    → Handled net (put r)
put-Handled c net r t h q s = let (w, e) = put-Evolves c net r t h q s in evolved net (put r) w e

-- a step behind a check of the timers
pub Evolves-behind :
    (before between after : List Connection)
    → Evolves Same before between
    → Evolves Step between after
    → Evolves Step before after
Evolves-behind before between after p q a d le =
    let (c, lc, s) = q a d le in
    let (b, lb, same) = p a c lc in (b, lb, subst (λ x. Step x d.state) same s)

pub remove_connection-Handled :
    (a : ℕ) (net : Net) → IsTable net → Handled net (remove_connection a net)
unfolding remove_connection cancel_timer
remove_connection-Handled a net t =
    evolved net (remove_connection a net)
      (record {
        distinct = delete-Distinct a net.connections t.distinct;
        below = delete-AllBelow net.next_address a net.connections t.below;
      })
      (delete-Evolves Step stays a net.connections t.distinct)

-- the timers changed behind it
pub cancel_timer-Handled :
    (a : ℕ) (net net' : Net) → Handled net net' → Handled net (cancel_timer a net')
unfolding cancel_timer
cancel_timer-Handled a net net' h = record {
  table = record { distinct = h.table.distinct; below = h.table.below };
  moves = h.moves;
}

-- one connection more, at the next address
pub added-IsTable :
    (c : Connection) (net net' : Net)
    → IsTable net
    → c.address ≡ net.next_address
    → net'.connections ≡ c ∷ net.connections
    → net'.next_address ≡ net.next_address + 8244
    → IsTable net'
added-IsTable c net net' t at cs next = record {
  distinct = rw cs (rw at (load-AllBelow net.next_address net.connections t.below), t.distinct);
  below = rw cs (
    omega (arith, at, next),
    AllBelow-mono net.next_address net'.next_address net.connections (omega (arith, next)) t.below,
  );
}

pub added-Handled :
    (c : Connection) (net net' : Net)
    → IsTable net
    → c.address ≡ net.next_address
    → c.state ≡ syn_received
    → net'.connections ≡ c ∷ net.connections
    → net'.next_address ≡ net.next_address + 8244
    → Handled net net'
unfolding load
added-Handled c net net' t at fresh cs next = record {
  table = added-IsTable c net net' t at cs next;
  moves =
      rw cs
        (λ a d le. moved a d le (rw at (load-AllBelow net.next_address net.connections t.below)));
}
  where
    moved :
        (a : ℕ) (d : Connection)
        → load a (c ∷ net.connections) ≡ some d
        → load c.address net.connections ≡ none
        → ((load a net.connections ≡ none) × (d.state ≡ syn_received))
          ⊎ ((b : Connection) × (load a net.connections ≡ some b) × Step b.state d.state)
    moved a d le none_there = elim (Bool-cases (c.address == a)) [
      | inl here ↦ inl (grind (arith, here, le, none_there, fresh))
      | inr off ↦ inr (d, ground (arith, off, le), stays d.state)
    ]

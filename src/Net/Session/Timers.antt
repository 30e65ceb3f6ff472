-- ===== src/Net/Session/Timers.antt =====
-- `check_tcp_timers` of src/drivers/net/tcp.c. The loop holds a pointer to the link of the timer that
-- it looks at; `before` are the timers in front of it.
pub mod Keep
use hal_os.Base.{ℕ, ◌+◌, ◌==◌, ltb, leb, Bool, true, false, not, ◌&&◌, ◌||◌, if◌then◌else◌}
use hal_os.Base.{u8, sub32, Option, none, some, List, [], ◌∷◌, ◌++◌}
use hal_os.Net.{
  Net, Connection, Retransmit, Timer, TcpState, syn_sent, established, wait_for_ack, close_wait,
}
use hal_os.Net.Tcp.{tcp_ack, tcp_syn, tcp_fin, max_retries, load, store, delete, cancel}
use hal_os.Net.Segment.{send_segment}

unfoldable pub is_state : TcpState → TcpState → Bool
is_state TcpState.wait_for_ack TcpState.wait_for_ack = true
is_state TcpState.syn_sent TcpState.syn_sent = true
is_state TcpState.close_wait TcpState.close_wait = true
is_state _ _ = false

-- one more retry for the head of the queue
abbrev pub bump : Connection → Retransmit → List Retransmit → Connection
bump c e rest = record c { retransmit_queue = record e { retries = u8 (e.retries + 1) } ∷ rest }

abbrev pub is_expired : Net → Timer → Bool
is_expired net t = leb t.timeout_ms (sub32 net.ticks t.start_time)

-- Does the first timer of the connection stand last? Then its link is the one that the loop holds.
unfoldable pub ends_with_first : ℕ → List Timer → Bool
ends_with_first address [] = false
ends_with_first address (t ∷ []) = t.conn == address
ends_with_first address (t ∷ u ∷ rest) = elim (t.conn == address) [
  | true ↦ false
  | false ↦ ends_with_first address (u ∷ rest)
]

unfoldable pub has_timer : ℕ → List Timer → Bool
has_timer address [] = false
has_timer address (t ∷ rest) = elim (t.conn == address) [
  | true ↦ true
  | false ↦ has_timer address rest
]

module _ (malloc : ℕ → Bool) where
  -- The segment that an expired timer sends again, with the timer started anew; `none` where there
  -- were five retries. The head of the queue is counted before it is sent and not behind, which no
  -- code can tell.
  unfoldable pub send_again : Timer → Connection → Net → Option (Timer × Net)
  send_again t c net =
      let stored : Connection × Net → Net =
        λ r. record (r.1) { connections = store r.0 (r.1).connections } in
      if is_state wait_for_ack c.state
      then elim c.retransmit_queue [
        | [] ↦ none
        | e ∷ rest ↦
            if ltb e.retries max_retries
            then some (
              record t { start_time = net.ticks },
              stored (send_segment malloc tcp_ack e.payload (bump c e rest) net),
            )
            else none
      ]
      else if ltb t.retries max_retries
      then some (
        record t { start_time = net.ticks; retries = u8 (t.retries + 1) },
        stored
            (send_segment malloc (if is_state syn_sent c.state then tcp_syn else tcp_fin) [] c net),
      )
      else none

  -- The connection of an expired timer is removed, with its first timer. Where that timer is the
  -- expired one itself, the code frees the next one (`skip`), through NULL if there is none. Where
  -- it is the one in front, the link that the loop holds is freed.
  unfoldable pub check_from : Bool → List Timer → List Timer → Net → Net
  check_from skip before [] net = record net { timers = before; fault = net.fault || skip }
  check_from skip before (t ∷ rest) net = elim skip [
    | true ↦ check_from false before rest net
    | false ↦ elim (is_expired net t) [
      | false ↦ check_from false (before ++ t ∷ []) rest net
      | true ↦ elim (load t.conn net.connections) [
        | none ↦ record net { timers = before ++ t ∷ rest; fault = true }
        | some c ↦ elim (send_again t c net) [
          | some (t', net') ↦ check_from false (before ++ t' ∷ []) rest net'
          | none ↦
              let removed = record net { connections = delete t.conn net.connections } in
              elim (has_timer t.conn before) [
                | false ↦ check_from true before rest removed
                | true ↦ elim (ends_with_first t.conn before) [
                  | true ↦ record removed {
                    timers = cancel t.conn before ++ t ∷ rest;
                    fault = true;
                  }
                  | false ↦ check_from false (cancel t.conn before) rest removed
                ]
              ]
        ]
      ]
    ]
  ]

  unfoldable pub check_timers : Net → Net
  check_timers net = check_from false [] net.timers net

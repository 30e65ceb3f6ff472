-- ===== src/Tests/Segments.antt =====
-- src/drivers/net/tcp.c at concrete segments.
use hal_os.Base.{ℕ, ◌+◌, true, false, u32}
use hal_os.Base.{◌≡◌, ◌≢◌, refl, arith, none, some, List, [], ◌∷◌, ◌++◌, get_or}
use hal_os.Net.{Net, Connection, Retransmit, Timer, syn_received, established, wait_for_ack}
use hal_os.Net.Bytes.{htons, htonl}
use hal_os.Net.Tcp.{
  load, find_connection, has_flag, tcp_rst, initial_seq, is_listening_port, process_options,
  start_timer, add_connection,
}
use hal_os.Net.Tcp.Table.{IsTable}
use hal_os.Net.Tcp.Options.{TcpOption, nop, max_segment, unknown, encode, process_options-encode}
use hal_os.Net.Segment.{
  Header, header_of, send_segment, queue_segment, advance, segment_bytes, segment_with,
}
use hal_os.Net.Segment.Checksum.{
  IsSendable, received_checksum, received_checksum-even, received_checksum-odd,
}
use hal_os.Net.Receive.{process_packet, receive_ip, accepts_ip}
use hal_os.Net.Arp.{arp_lookup, arp_target, is_local_ip, cache_find}
use hal_os.Net.Eth.{eth_send_frame}
use hal_os.Net.Ipv4.{ip_header, next_hop, send_ipv4}
use hal_os.Net.Receive.Tables.{process_packet-Handled}
use hal_os.Net.Session.{tcp_handle_packet, accept_syn, send, accepted}
use hal_os.Net.Session.Timers.{check_timers}
use hal_os.Net.Session.States.{Handled}
use hal_os.Net.Session.Open.{
  IsSyn, IsAckOf, IsAnswer, IsFor, tcp_handle_packet-handshake, tcp_handle_packet-reset, timers_of,
  others_of,
}
use hal_os.Net.Session.Faults.{check_timers-gives_up}
use hal_os.Net.Session.Life.{timers}
use hal_os.Tests.Packets.{stack, always}

-- from 10.0.2.2 to 10.0.2.15
abbrev ip : List ℕ
ip = 0x45 ∷ 0 ∷ 0 ∷ 40 ∷ 0 ∷ 1 ∷ 0 ∷ 0 ∷ 64 ∷ 6 ∷ 0 ∷ 0 ∷ 10 ∷ 0 ∷ 2 ∷ 2 ∷ 10 ∷ 0 ∷ 2 ∷ 15 ∷ []

-- from port 4000 to port 80, with the low bytes of the two numbers and the flags
abbrev segment : ℕ → List ℕ → ℕ → ℕ → ℕ
segment seq ack flags i =
    get_or
      (15 ∷ 160 ∷ 0 ∷ 80 ∷ 0 ∷ 0 ∷ 0 ∷ seq ∷ (ack ++ (0x50 ∷ flags ∷ 16 ∷ 0 ∷ 0 ∷ 0 ∷ 0 ∷ 0 ∷ [])))
      i 0

abbrev no_headers : ℕ → List ℕ
no_headers _ = []

abbrev syn : ℕ → ℕ
syn = segment 100 (0 ∷ 0 ∷ 0 ∷ 0 ∷ []) 2

-- the acknowledgement of the number that is used up at 100 ticks
abbrev ack_of_syn : ℕ → ℕ
ack_of_syn = segment 101 (0 ∷ 0x64 ∷ 0 ∷ 1 ∷ []) 16

is_syn : IsSyn ip syn stack
unfolding header_of htons htonl find_connection has_flag is_listening_port
is_syn = record { offset = omega arith; fresh = refl; no_reset = refl; syn = refl; port = refl }

is_ack : IsAckOf ip syn (u32 ((initial_seq stack).0 + 1)) ip ack_of_syn
unfolding header_of htons htonl has_flag initial_seq
is_ack = record {
  offset = omega arith;
  src = refl;
  dst = refl;
  src_port = refl;
  dest_port = refl;
  no_reset = refl;
  ack = refl;
  acked = refl;
}

abbrev empty_table : IsTable stack
empty_table = record { distinct = tt; below = tt }

tcp_handle_packet-handshake_example :
    (c : Connection) × IsAnswer ip syn stack c
    × (load 0x1000
          (tcp_handle_packet always none no_headers ip ack_of_syn 20
            (tcp_handle_packet always none no_headers ip syn 20 stack)).connections
        ≡ some (record c { state = established }))
tcp_handle_packet-handshake_example =
    tcp_handle_packet-handshake always none no_headers ip syn 20 ip ack_of_syn 20 stack empty_table
      is_syn refl is_ack

-- a connection between these ends
abbrev waiting : Connection
waiting = record {
  address = 0x1000;
  local_ip = 0x0A00020F;
  remote_ip = 0x0A000202;
  local_port = 80;
  remote_port = 4000;
  mss = 1460;
  next_seq = 501;
  expected_ack = 101;
  dup_ack_count = 0;
  state = syn_received;
  retransmit_queue = [];
  recv_buffer = [];
  recv_buffer_len = 0;
  last_ack = 0;
}

-- its timer, with five retries behind it
abbrev spent : Timer
spent = record { conn = 0x1000; timeout_ms = 3000; start_time = 0; retries = 5 }

abbrev late : Net
late = record stack {
  ticks = 4000;
  connections = waiting ∷ [];
  timers = spent ∷ [];
  next_address = 0x4000;
}

late_table : IsTable late
unfolding load
late_table = record { distinct = (refl, tt); below = (omega arith, tt) }

abbrev rst : ℕ → ℕ
rst = segment 7 (0 ∷ 0 ∷ 0 ∷ 0 ∷ []) 4

waiting-IsFor : IsFor waiting ip rst late
unfolding header_of htons htonl find_connection
waiting-IsFor = record { offset = omega arith; found = refl }

rst_flag : has_flag (header_of rst).flags tcp_rst ≡ true
unfolding header_of has_flag
rst_flag = refl

tcp_handle_packet-reset_example :
    (load 0x1000 (tcp_handle_packet always none no_headers ip rst 20 late).connections ≡ none)
    × (timers_of 0x1000 (tcp_handle_packet always none no_headers ip rst 20 late).timers ≡ 0)
    × (others_of 0x1000 (tcp_handle_packet always none no_headers ip rst 20 late).timers ≡ [])
tcp_handle_packet-reset_example =
    tcp_handle_packet-reset always none no_headers waiting ip rst 20 late late_table waiting-IsFor
      rst_flag

found_waiting : load 0x1000 (waiting ∷ []) ≡ some waiting
unfolding load
found_waiting = refl

check_timers-gives_up_example :
    ((check_timers always late).fault ≡ true)
    × (load 0x1000 (check_timers always late).connections ≡ none)
check_timers-gives_up_example =
    check_timers-gives_up always spent waiting late refl refl late_table.distinct found_waiting refl
      (omega arith)

abbrev fresh_timer : Timer
fresh_timer = record spent { retries = 0 }

abbrev late_ack : Header
late_ack = record {
  src_port = 4000;
  dest_port = 80;
  seq = 101;
  ack = 501;
  data_offset = 5;
  flags = 16;
}

-- a page of three bytes that waits
abbrev page : Retransmit
page = record { seq = 501; length = 3; payload = 97 ∷ 98 ∷ 99 ∷ []; flags = 24; retries = 4 }

abbrev serving : Connection
serving = record waiting { state = wait_for_ack; retransmit_queue = page ∷ [] }

abbrev busy : Net
busy = record late { connections = serving ∷ [] }

found_serving : load 0x1000 (serving ∷ []) ≡ some serving
unfolding load
found_serving = refl

abbrev talking : Connection
talking = record waiting { state = established; recv_buffer = 1 ∷ [] }

-- a segment with a number of the past
abbrev past : Header
past = record late_ack { seq = 7; flags = 24 }

is_sendable : IsSendable 24 (97 ∷ 98 ∷ [])
is_sendable = record {
  flag_byte = omega arith;
  bytes = (omega arith, (omega arith, tt));
  fits = omega arith;
}

received_checksum-even_example : received_checksum talking 24 (97 ∷ 98 ∷ []) ≡ 0
received_checksum-even_example = received_checksum-even 1 talking 24 (97 ∷ 98 ∷ []) is_sendable refl

odd-IsSendable : IsSendable 24 ([] ++ 97 ∷ [])
odd-IsSendable = record { flag_byte = omega arith; bytes = (omega arith, tt); fits = omega arith }

received_checksum-odd_example : received_checksum talking 24 ([] ++ 97 ∷ []) ≢ 0
received_checksum-odd_example =
    received_checksum-odd 0 97 talking 24 [] odd-IsSendable refl (omega arith)

-- padding, 1400 bytes at most, and an option that no code knows
abbrev offer : List TcpOption
offer = nop ∷ max_segment 1400 ∷ unknown 8 (1 ∷ 2 ∷ 3 ∷ []) ∷ []

process_options-encode_example :
    process_options (encode offer) talking ≡ record talking { mss = 1400 }
process_options-encode_example =
    process_options-encode offer talking (tt, (omega arith, ((omega arith, omega arith), tt)))

-- the `TCP_SYN` in its frame
abbrev syn_frame : ℕ → ℕ
syn_frame i =
    get_or
      ((2 ∷ 0 ∷ 0 ∷ 0 ∷ 0 ∷ 1 ∷ 2 ∷ 0 ∷ 0 ∷ 0 ∷ 0 ∷ 2 ∷ 8 ∷ 0 ∷ [])
        ++ (ip
            ++ (15 ∷ 160 ∷ 0 ∷ 80 ∷ 0 ∷ 0 ∷ 0 ∷ 100 ∷ 0 ∷ 0 ∷ 0 ∷ 0 ∷ 0x50 ∷ 2 ∷ 16 ∷ 0 ∷ 0 ∷ 0 ∷ 0
                ∷ 0 ∷ [])))
      i 0

syn_kept_in :
    (process_packet always (tcp_handle_packet always none no_headers) syn_frame 54 stack).overrun
    ≡ false
unfolding process_packet receive_ip accepts_ip tcp_handle_packet htons htonl header_of
    find_connection has_flag accept_syn is_listening_port start_timer add_connection send
    send_segment send_ipv4 initial_seq queue_segment advance process_options arp_lookup next_hop
    arp_target is_local_ip cache_find eth_send_frame segment_bytes segment_with accepted ip_header
syn_kept_in = refl

syn_intact :
    (process_packet always (tcp_handle_packet always none no_headers) syn_frame 54 stack).fault
    ≡ false
unfolding process_packet receive_ip accepts_ip tcp_handle_packet htons htonl header_of
    find_connection has_flag accept_syn is_listening_port start_timer add_connection send
    send_segment send_ipv4 initial_seq queue_segment advance process_options arp_lookup next_hop
    arp_target is_local_ip cache_find eth_send_frame segment_bytes segment_with accepted ip_header
syn_intact = refl

process_packet-Handled_example :
    Handled stack
      (process_packet always (tcp_handle_packet always none no_headers) syn_frame 54 stack)
process_packet-Handled_example =
    process_packet-Handled always none no_headers syn_frame 54 stack empty_table syn_kept_in
      syn_intact

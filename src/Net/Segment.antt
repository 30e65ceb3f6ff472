-- ===== src/Net/Segment.antt =====
-- Segments of src/drivers/net/tcp.c: the checksum, sending one and refusing one.
pub mod Sums
pub mod Checksum
pub mod Send
use hal_os.Base.{
  ℕ, zero, suc, ◌+◌, ◌-◌, ◌*◌, ◌/◌, ◌%◌, ◌^◌, ◌==◌, ltb, leb, Bool, true, false, not, ◌&&◌, ◌||◌,
  if◌then◌else◌,
}
use hal_os.Base.{u8, u16, u32, Option, none, some, List, [], ◌∷◌, ◌++◌, length, take, get_or}
use hal_os.Net.{Net, Connection, Retransmit, TcpState, closed}
use hal_os.Net.Bytes.{htons, htonl, store16, store32, load16, load32}
use hal_os.Net.Checksum.{word_sum, fold_complement}
use hal_os.Net.Ipv4.{send_ipv4}
use hal_os.Net.Tcp.{has_flag, tcp_fin, tcp_syn, tcp_rst, tcp_ack}

-- what the code reads of a `tcp_header_t`
pub record Header : Type 0 where
  pub src_port : ℕ
  pub dest_port : ℕ
  pub seq : ℕ
  pub ack : ℕ
  pub data_offset : ℕ
  pub flags : ℕ

unfoldable pub header_of : (ℕ → ℕ) → Header
header_of m = record {
  src_port = htons (load16 m 0);
  dest_port = htons (load16 m 2);
  seq = htonl (load32 m 4);
  ack = htonl (load32 m 8);
  data_offset = m 12 / 16;
  flags = m 13;
}

-- the two addresses of the twenty bytes of an IP header
abbrev pub ip_src : List ℕ → ℕ
ip_src ip = htonl (load32 (λ k. get_or ip k 0) 12)

abbrev pub ip_dst : List ℕ → ℕ
ip_dst ip = htonl (load32 (λ k. get_or ip k 0) 16)

-- the second loop of `tcp_checksum`, with the odd byte behind it as the high byte of a word
unfoldable pub segment_sum : List ℕ → ℕ
segment_sum [] = 0
segment_sum (a ∷ []) = a * 2 ^ 8
segment_sum (a ∷ b ∷ rest) = a + b * 2 ^ 8 + segment_sum rest

-- the twelve bytes of `struct pseudo_header`
abbrev pub pseudo_header : ℕ → ℕ → ℕ → List ℕ
pseudo_header src_ip dest_ip tcp_length =
    store32 (htonl src_ip) ++ (store32 (htonl dest_ip) ++ (0 ∷ 6 ∷ store16 (htons tcp_length)))

unfoldable pub tcp_checksum : ℕ → ℕ → List ℕ → ℕ
tcp_checksum src_ip dest_ip segment =
    fold_complement (word_sum (pseudo_header src_ip dest_ip (length segment)) + segment_sum segment)

-- the option with the segment size that goes with `TCP_SYN`
abbrev pub syn_options : ℕ → List ℕ
syn_options flags = if has_flag flags tcp_syn then 2 ∷ 4 ∷ 0x05 ∷ 0xB4 ∷ [] else []

-- `sizeof(conn->recv_buffer) - conn->recv_buffer_len` on `uint16_t`
abbrev pub free_space : Connection → ℕ
free_space c = u16 (4096 + 2 ^ 16 - c.recv_buffer_len)

-- the bytes of a segment, with the given ones for the checksum
unfoldable pub segment_with : Connection → ℕ → List ℕ → List ℕ → List ℕ
segment_with c flags payload checksum =
    store16 (htons c.local_port)
    ++ (store16 (htons c.remote_port)
        ++ (store32 (htonl c.next_seq)
            ++ (store32 (htonl c.expected_ack)
                ++ ((20 + length (syn_options flags)) / 4 * 16
                    ∷ flags
                    ∷ (store16 (htons (free_space c))
                        ++ (checksum ++ (0 ∷ 0 ∷ (syn_options flags ++ payload))))))))

-- The length goes through `uint16_t`, for the checksum and for sending.
abbrev pub cut : List ℕ → List ℕ
cut segment = take (u16 (length segment)) segment

unfoldable pub segment_bytes : Connection → ℕ → List ℕ → List ℕ
segment_bytes c flags payload = segment_with c flags payload (
    store16 (tcp_checksum c.local_ip c.remote_ip (cut (segment_with c flags payload (0 ∷ 0 ∷ [])))))

-- `next_seq` behind a segment: its bytes, and one for `TCP_SYN` and `TCP_FIN`
unfoldable pub advance : ℕ → ℕ → ℕ → ℕ
advance flags data_len seq =
    if has_flag flags (tcp_syn + tcp_fin)
    then u32 (u32 (seq + data_len) + 1)
    else u32 (seq + data_len)

module _ (malloc : ℕ → Bool) where
  -- the last part of `tcp_send_segment`: the copy to send again
  unfoldable pub queue_segment : ℕ → ℕ → List ℕ → Connection → Connection
  queue_segment original_seq flags payload c =
      if not (has_flag flags (tcp_syn + tcp_fin) || ltb 0 (length payload))
      then c
      else if not (malloc 24)
      then c
      else if ltb 0 (length payload) && not (malloc (length payload))
      then c
      else let entry : Retransmit = record {
        seq = original_seq;
        length = length payload;
        payload = payload;
        flags = flags;
        retries = 0;
      } in
        record c { retransmit_queue = entry ∷ c.retransmit_queue }

  unfoldable pub send_segment : ℕ → List ℕ → Connection → Net → Connection × Net
  send_segment flags bytes c net =
      let payload = take (u16 (length bytes)) bytes in
      (
        queue_segment c.next_seq flags payload
            (record c { next_seq = advance flags (length payload) c.next_seq }),
        send_ipv4 malloc c.remote_ip 6 (cut (segment_bytes c flags payload)) net,
      )

  -- The connection is a local variable, all 0 but for the fields that are named.
  unfoldable pub send_reset : List ℕ → Header → Net → Net
  send_reset ip tcp net =
      let temp : Connection = record {
        address = 0;
        local_ip = ip_dst ip;
        remote_ip = ip_src ip;
        local_port = tcp.dest_port;
        remote_port = tcp.src_port;
        mss = 0;
        next_seq = tcp.ack;
        expected_ack = 0;
        dup_ack_count = 0;
        state = closed;
        retransmit_queue = [];
        recv_buffer = [];
        recv_buffer_len = 0;
        last_ack = 0;
      } in
      (send_segment tcp_rst [] temp net).1

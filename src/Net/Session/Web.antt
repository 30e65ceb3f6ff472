-- ===== src/Net/Session/Web.antt =====
-- `handle_http_request` and `is_http_get_request` of src/drivers/net/tcp.c.
use hal_os.Base.{ℕ, ◌+◌, ◌==◌, leb, Bool, not, ◌&&◌, if◌then◌else◌, Option, none, some}
use hal_os.Base.{List, [], ◌∷◌, length, get_or}
use hal_os.Net.{Net, Connection, wait_for_ack, close_wait}
use hal_os.Net.Tcp.{tcp_psh, tcp_ack, retransmit_timeout, start_timer}
use hal_os.Net.Segment.{send_segment}

unfoldable pub is_http_get_request : List ℕ → Bool
is_http_get_request payload =
    leb 4 (length payload)
    && (get_or payload 0 0 == b'G'
        && (get_or payload 1 0 == b'E'
            && (get_or payload 2 0 == b'T' && get_or payload 3 0 == b' ')))

-- the content without one newline at its end
unfoldable pub trim_newline : List ℕ → List ℕ
trim_newline [] = []
trim_newline (c ∷ []) = if c == 0x0A then [] else c ∷ []
trim_newline (c ∷ d ∷ rest) = c ∷ trim_newline (d ∷ rest)

-- "HTTP/1.1 404 Not Found\r\n..."
abbrev pub not_found : List ℕ
not_found =
    b'H' ∷ b'T' ∷ b'T' ∷ b'P' ∷ b'/' ∷ b'1' ∷ b'.' ∷ b'1' ∷ b' ' ∷ b'4' ∷ b'0' ∷ b'4' ∷ b' ' ∷ b'N'
    ∷ b'o' ∷ b't' ∷ b' ' ∷ b'F' ∷ b'o' ∷ b'u' ∷ b'n' ∷ b'd' ∷ 13 ∷ 10 ∷ b'.' ∷ b'.' ∷ b'.' ∷ []

module _ (malloc : ℕ → Bool) (index : Option (List ℕ)) (headers : ℕ → List ℕ) where
  -- the headers, the content without its last newline, and the timer
  unfoldable pub send_page : List ℕ → Connection → Net → Connection × Net
  send_page content c net =
      let page = trim_newline content in
      let (c', net') = send_segment malloc (tcp_psh + tcp_ack) (headers (length page)) c net in
      let (c'', net'') = send_segment malloc (tcp_psh + tcp_ack) page c' net' in
      (record c'' { state = wait_for_ack }, start_timer malloc c''.address retransmit_timeout net'')

  unfoldable pub http_request : Connection → Net → Connection × Net
  http_request c net = elim index [
    | none ↦
        let (c', net') = send_segment malloc (tcp_psh + tcp_ack) not_found c net in
        (record c' { state = close_wait }, net')
    | some content ↦
        if not (malloc (length content))
        then (record c { state = close_wait }, net)
        else send_page content c net
  ]

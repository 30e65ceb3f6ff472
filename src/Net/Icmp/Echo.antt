-- ===== src/Net/Icmp/Echo.antt =====
-- The echo reply of src/drivers/net/icmp.c, and which packets are answered.
use hal_os.Base.{ℕ, ◌-◌, ◌%◌, ◌/◌, ◌^◌, ◌≤◌, ◌<◌, Bool}
use hal_os.Base.{◌≡◌, ◌≢◌, ◌⊎◌, refl, arith, List, [], ◌∷◌, length, take, drop}
use hal_os.Net.{Net}
use hal_os.Net.Bytes.{htons}
use hal_os.Net.Checksum.{ip_checksum, ip_checksum_verifies, ip_checksum-lt, IsBytes}
use hal_os.Net.Icmp.{echo_reply, with_checksum, word_at, icmp_handle}

-- what an echo reply has of its request
pub record IsReplyTo (packet reply : List ℕ) : Type 0 where
  pub head : take 2 reply ≡ 0 ∷ 0 ∷ []
  pub same_rest : drop 4 reply ≡ drop 4 packet
  pub verifies : ip_checksum reply ≡ 0

-- The reply to an echo request whose bytes behind the checksum are below 256 and fewer than
-- 2 ^ 15 - 4 has type and code 0, the request's identifier, sequence number and
-- data, and a checksum that verifies.
echo_reply-IsReplyTo :
    (packet : List ℕ)
    → IsBytes (drop 4 packet)
    → length (drop 4 packet) < 2 ^ 15 - 4
    → IsReplyTo packet (echo_reply packet)
unfolding echo_reply
echo_reply-IsReplyTo packet h short =
    let top : ip_checksum (0 ∷ 0 ∷ 0 ∷ 0 ∷ drop 4 packet) / 2 ^ 8 % 256
        ≡ ip_checksum (0 ∷ 0 ∷ 0 ∷ 0 ∷ drop 4 packet) / 2 ^ 8 =
      omega (arith, ip_checksum-lt (0 ∷ 0 ∷ 0 ∷ 0 ∷ drop 4 packet)) in
    let zero_byte : 0 < 256 = omega arith in
    record {
      head = refl;
      same_rest = refl;
      verifies = rw top (
          ip_checksum_verifies (0 ∷ 0 ∷ []) (drop 4 packet) 1 refl
            (zero_byte, (zero_byte, (zero_byte, (zero_byte, h)))) (omega arith));
    }

-- A packet is dropped without any change if it is shorter than its header, if its identifier is
-- not above that of the last echo reply that was received, or if its checksum is wrong.
pub icmp_handle_refused :
    (malloc : ℕ → Bool) (src : ℕ) (packet : List ℕ) (net : Net)
    → (length packet < 8)
      ⊎ ((htons (word_at packet 4) ≤ net.prev_id)
          ⊎ (word_at packet 2 ≢ ip_checksum (with_checksum packet (0 ∷ 0 ∷ []))))
    → icmp_handle malloc src packet net ≡ net
unfolding icmp_handle
icmp_handle_refused malloc src packet net h = ground arith

-- ===== src/Net/Segment/Checksum.antt =====
-- Which segments of src/drivers/net/tcp.c have a checksum that verifies.
use hal_os.Base.{ℕ, ◌+◌, ◌*◌, ◌^◌, ◌≤◌, ◌<◌, ◌≡◌, ◌≢◌, refl, arith, ◌∙◌, ap, sym}
use hal_os.Base.{List, [], ◌∷◌, ◌++◌, length, Bool-cases, inl, inr, ◌⊎◌}
use hal_os.Net.Bytes.{store16}
use hal_os.Net.Checksum.{word_sum, fold_complement, IsBytes, word_sum-le, ip_checksum}
use hal_os.Net.{Connection}
use hal_os.Net.Segment.{tcp_checksum, pseudo_header, segment_with, segment_bytes, cut}
use hal_os.Net.Tcp.{has_flag, tcp_syn, default_mss}
use hal_os.Net.Segment.Sums.{
  front, back, segment_with-parts, word_sum-append, cut-short, received, counted, received-even,
  received-odd,
}

-- a segment of bytes that fits an Ethernet frame
pub record IsSendable (flags : ℕ) (payload : List ℕ) : Type 0 where
  pub flag_byte : flags < 256
  pub bytes : IsBytes payload
  pub fits : length payload ≤ default_mss

pseudo-IsBytes : (src dest n : ℕ) → IsBytes (pseudo_header src dest n)
pseudo-IsBytes src dest n = omega arith

front-IsBytes : (c : Connection) (flags : ℕ) → flags < 256 → IsBytes (front c flags)
unfolding front
front-IsBytes c flags h = elim (Bool-cases (has_flag flags tcp_syn)) [
  | inl yes_syn ↦ rw yes_syn (omega arith)
  | inr no_syn ↦ rw no_syn (omega arith)
]

back-IsBytes : (flags : ℕ) (payload : List ℕ) → IsBytes payload → IsBytes (back flags payload)
unfolding back
back-IsBytes flags payload h =
    let small : 0 < 256 = omega arith in
    elim (Bool-cases (has_flag flags tcp_syn)) [
      | inl yes_syn ↦
          rw yes_syn (small, (small, (omega arith, (omega arith, (omega arith, (omega arith, h))))))
      | inr no_syn ↦ rw no_syn (small, (small, h))
    ]

length-back :
    (flags : ℕ) (payload : List ℕ)
    → (length (back flags payload) ≡ length payload + 2)
      ⊎ (length (back flags payload) ≡ length payload + 6)
unfolding back
length-back flags payload = elim (Bool-cases (has_flag flags tcp_syn)) [
  | inl yes_syn ↦ rw yes_syn (inr (omega arith))
  | inr no_syn ↦ rw no_syn (inl (omega arith))
]

length-segment_with :
    (c : Connection) (flags : ℕ) (payload : List ℕ) (a b : ℕ)
    → length (segment_with c flags payload (a ∷ b ∷ [])) ≡ 18 + length (back flags payload)
unfolding segment_with back
length-segment_with c flags payload a b = omega arith

length-segment_bytes :
    (c : Connection) (flags : ℕ) (payload : List ℕ)
    → length (segment_bytes c flags payload) ≡ 18 + length (back flags payload)
unfolding segment_bytes segment_with back
length-segment_bytes c flags payload = omega arith

-- what the receiver of a segment adds up
abbrev pub received_checksum : Connection → ℕ → List ℕ → ℕ
received_checksum c flags payload = ip_checksum (
    pseudo_header c.local_ip c.remote_ip (length (segment_bytes c flags payload))
    ++ segment_bytes c flags payload)

-- the pseudo header of a segment
head : Connection → ℕ → List ℕ → List ℕ
head c flags payload = pseudo_header c.local_ip c.remote_ip (18 + length (back flags payload))

tcp_checksum-counted :
    (c : Connection) (flags : ℕ) (payload : List ℕ)
    → length payload ≤ default_mss
    → tcp_checksum c.local_ip c.remote_ip (cut (segment_with c flags payload (0 ∷ 0 ∷ [])))
      ≡ fold_complement (counted (head c flags payload) (front c flags) (back flags payload))
unfolding tcp_checksum counted head
tcp_checksum-counted c flags payload fits =
    let zeros : length (segment_with c flags payload (0 ∷ 0 ∷ []))
        ≡ 18 + length (back flags payload) =
      length-segment_with c flags payload 0 0 in
    let short : length (segment_with c flags payload (0 ∷ 0 ∷ [])) < 2 ^ 16 =
      ground (arith, length-back flags payload, zeros) in
    rw (cut-short (segment_with c flags payload (0 ∷ 0 ∷ [])) short)
      (rw (zeros, segment_with-parts c flags payload (0 ∷ 0 ∷ [])) refl)

received_checksum-parts :
    (c : Connection) (flags : ℕ) (payload : List ℕ)
    → length payload ≤ default_mss
    → received_checksum c flags payload
      ≡ fold_complement (
          received
            (head c flags payload)
            (front c flags)
            (back flags payload)
            (fold_complement (counted (head c flags payload) (front c flags) (back flags payload))))
unfolding ip_checksum segment_bytes received head segment_with front back
received_checksum-parts c flags payload fits =
    ap (λ n. ip_checksum (pseudo_header c.local_ip c.remote_ip n ++ segment_bytes c flags payload))
      (length-segment_bytes c flags payload)
    ∙ ap
        (λ v. ip_checksum (
          pseudo_header c.local_ip c.remote_ip (18 + length (back flags payload))
          ++ segment_with c flags payload (store16 v)))
        (tcp_checksum-counted c flags payload fits)

sum-small :
    (c : Connection) (flags : ℕ) (payload : List ℕ)
    → IsSendable flags payload
    → word_sum (head c flags payload) + word_sum (front c flags) + word_sum (back flags payload)
      < 2 ^ 29
unfolding head
sum-small c flags payload s =
    let h = word_sum-le (head c flags payload) (pseudo-IsBytes _ _ _) in
    let f = word_sum-le (front c flags) (front-IsBytes c flags s.flag_byte) in
    let b = word_sum-le (back flags payload) (back-IsBytes flags payload s.bytes) in
    let l : length (front c flags) ≡ 16 = unfold front in refl in
    ground (arith, h, f, b, l, length-back flags payload, s.fits)

-- A segment of at most 1460 bytes whose number is even has a checksum that verifies.
pub received_checksum-even :
    (k : ℕ) (c : Connection) (flags : ℕ) (payload : List ℕ)
    → IsSendable flags payload
    → length payload ≡ 2 * k
    → received_checksum c flags payload ≡ 0
unfolding head
received_checksum-even k c flags payload s e =
    received_checksum-parts c flags payload s.fits ∙ elim (length-back flags payload) [
      | inl two ↦
          received-even 6 8 (k + 1) (head c flags payload) (front c flags) (back flags payload) refl
            (unfold front in refl) (omega arith) (omega (arith, sum-small c flags payload s))
      | inr six ↦
          received-even 6 8 (k + 3) (head c flags payload) (front c flags) (back flags payload) refl
            (unfold front in refl) (omega arith) (omega (arith, sum-small c flags payload s))
    ]

back-append :
    (flags b : ℕ) (payload : List ℕ) → back flags (payload ++ b ∷ []) ≡ back flags payload ++ b ∷ []
unfolding back
back-append flags b payload = elim (Bool-cases (has_flag flags tcp_syn)) [
  | inl yes_syn ↦ rw yes_syn refl
  | inr no_syn ↦ rw no_syn refl
]

IsBytes-front : (b : ℕ) (xs : List ℕ) → IsBytes (xs ++ b ∷ []) → IsBytes xs × (b < 256)
IsBytes-front b [] h = (tt, h.0)
IsBytes-front b (x ∷ xs) h = let (i, lt) = IsBytes-front b xs h.1 in ((h.0, i), lt)

-- A segment with flags below 256, whose payload of bytes has an odd length of at most 1460 and a last
-- byte that is not 0, has a checksum that does not verify: the code counts that byte as the high
-- one of a word.
pub received_checksum-odd :
    (k b : ℕ) (c : Connection) (flags : ℕ) (payload : List ℕ)
    → IsSendable flags (payload ++ b ∷ [])
    → length payload ≡ 2 * k
    → 0 < b
    → received_checksum c flags (payload ++ b ∷ []) ≢ 0
unfolding head
received_checksum-odd k b c flags payload s e pos z = elim (length-back flags payload) [
  | inl two ↦ differs (k + 1) (omega arith)
  | inr six ↦ differs (k + 3) (omega arith)
]
  where
    small : b < 256
    small = (IsBytes-front b payload s.bytes).1

    differs : (i : ℕ) → length (back flags payload) ≡ 2 * i → ⊥
    differs i even =
        received-odd 6 8 i (head c flags (payload ++ b ∷ [])) (front c flags) (back flags payload) b
          refl (unfold front in refl) even
          (omega (
            arith,
            sum-small c flags (payload ++ b ∷ []) s,
            ap word_sum (back-append flags b payload),
            word_sum-append i (back flags payload) (b ∷ []) even,
          ))
          pos small
          (sym (
              ap
                (λ xs. fold_complement (
                  received (head c flags (payload ++ b ∷ [])) (front c flags) xs (
                    fold_complement
                      (counted (head c flags (payload ++ b ∷ [])) (front c flags) xs))))
                (back-append flags b payload))
            ∙ sym (received_checksum-parts c flags (payload ++ b ∷ []) s.fits)
            ∙ z)

-- ===== src/Packet/Flow/RoundTrip.antt =====
-- Flow control and reset packets that are encoded are decoded to themselves.
use xotpad.Base.{
  ℕ, ◌+◌, ◌*◌, ◌/◌, ◌%◌, ◌≤◌, ◌<◌, ◌≡◌, arith, refl, false, true, [], ◌∷◌, ◌++◌, length, Buf, ok,
  not, ltb, ◌∙◌, bit_and, Ensures, holds, Ensures-bind, Ensures-weaken, Ensures-after,
  receive_sequence_out_of_range, unidentifiable_packet, All, IsByte, Returns, value, Returns-bind,
  Returns-after, ◌==◌, ◌||◌, append_assoc, drop, length-drop, get_u8-Returns, ap,
}
use xotpad.Base.Bits.{or_32, and_e0, and_fe, and_01, and_1f}
use xotpad.Seq.{X25Modulo, normal, extended}
use xotpad.Packet.Header.{max_channel}
use xotpad.Packet.Header.Fields.{header, gfi_with, encode_packet_header-Ensures}
use xotpad.Packet.Call.Parts.{check_len_lem, check_len-Returns}
use xotpad.Packet.Clear.Parts.{check_gfi_0c, check_gfi-Returns, optional, put_optional_lem}
use xotpad.Packet.Data.RoundTrip.{max_seq}
use xotpad.Packet.Flow.{
  X25ResetRequest, X25ResetConfirm, encode_flow_as, decode_flow_as, decode_flow,
  encode_reset_request, decode_reset_request, encode_reset_confirm, decode_reset_confirm, flow_len,
}

abbrev pub flow_type : X25Modulo → ℕ → ℕ → ℕ
flow_type normal code recv_seq = recv_seq * 32 + code
flow_type extended code recv_seq = code

abbrev pub flow_body : X25Modulo → ℕ → Buf
flow_body normal recv_seq = []
flow_body extended recv_seq = (recv_seq * 2) ∷ []

-- The bytes of a flow control packet with type code `code`.
abbrev pub flow_bytes : X25Modulo → ℕ → ℕ → ℕ → Buf
flow_bytes m code channel recv_seq =
    header m false false channel (flow_type m code recv_seq) (flow_body m recv_seq)

pub encode_flow-Ensures :
    (m : X25Modulo) (code channel recv_seq : ℕ) (buf : Buf)
    → code < 32
    → Ensures
        (λ (n, buf').
          (channel ≤ max_channel)
          × (recv_seq ≤ max_seq m)
          × (n ≡ length (flow_bytes m code channel recv_seq))
          × (buf' ≡ buf ++ flow_bytes m code channel recv_seq))
        (encode_flow_as m code channel recv_seq buf)
unfolding encode_flow_as
encode_flow-Ensures normal code channel r buf small =
    Ensures-after (not (ltb 7 r)) (receive_sequence_out_of_range r) λ hr.
      let wide : r * 32 % 256 ≡ r * 32 = ground arith in
      rw (wide, or_32 r code (ground arith) small)
        (Ensures-weaken
          (encode_packet_header-Ensures normal false false channel (r * 32 + code) buf)
          λ (n, b) (c, ne, bt). (c, ground arith, ne, bt))
encode_flow-Ensures extended code channel r buf small =
    Ensures-after (not (ltb 127 r)) (receive_sequence_out_of_range r) λ hr.
      let wide : r * 2 % 256 ≡ r * 2 = ground arith in
      rw wide (
        Ensures-bind (encode_packet_header-Ensures extended false false channel code buf)
          λ (n, b) (c, ne, bt). holds (c, ground arith, omega arith, rw bt (simp append_assoc)))

decode_as-bytes :
    (m : X25Modulo) (code channel r : ℕ)
    → code < 32
    → r ≤ max_seq m
    → decode_flow_as m code (flow_type m code r) (flow_bytes m code channel r) ≡ ok r
unfolding decode_flow_as
decode_as-bytes normal code channel r small hr =
    let recv : bit_and (r * 32 + code) 0xe0 / 32 ≡ r = and_e0 _ (omega arith) ∙ omega arith in
    rw recv
decode_as-bytes extended code channel r small hr =
    let recv : bit_and (r * 2) 0xfe / 2 ≡ r = and_fe _ (omega arith) ∙ omega arith in
    let even : bit_and (r * 2) 0x01 ≡ 0 = and_01 _ (omega arith) ∙ omega arith in
    ground (arith, recv, even)

type_lem :
    (m : X25Modulo) (code r : ℕ)
    → code < 32
    → r ≤ max_seq m
    → (bit_and (flow_type m code r) 0x1f == code) ≡ true
type_lem normal code r small hr = ground (arith, and_1f (r * 32 + code))
type_lem extended code r small hr = ground (arith, and_1f code)

pub decode_flow-bytes :
    (m : X25Modulo) (code channel r : ℕ)
    → code < 32
    → r ≤ max_seq m
    → decode_flow code (flow_bytes m code channel r) m (gfi_with m false false) (flow_type m code r)
      ≡ ok r
unfolding decode_flow
decode_flow-bytes m code channel r small hr =
    rw
      (
        type_lem m code r small hr,
        check_len_lem (flow_len m) (flow_len m) (flow_bytes m code channel r) (ground arith)
            (ground arith),
        check_gfi_0c m,
      )
      (decode_as-bytes m code channel r small hr)

decode_as-Returns :
    (m : X25Modulo) (code type : ℕ) (buf : Buf)
    → All IsByte buf
    → length buf ≡ flow_len m
    → Returns (λ r. r ≤ max_seq m) (decode_flow_as m code type buf)
unfolding decode_flow_as
decode_as-Returns normal code type (b0 ∷ b1 ∷ b2 ∷ []) (_, (_, (small, _))) e =
    value {a = bit_and b2 0xe0 / 32} (omega (arith, and_e0 b2 small))
decode_as-Returns extended code type (b0 ∷ b1 ∷ b2 ∷ b3 ∷ []) (_, (_, (_, (small, _)))) e =
    Returns-after (not (not (type == code) || not (bit_and b3 0x01 == 0))) unidentifiable_packet
      λ _. value {a = bit_and b3 0xfe / 2} (omega (arith, and_fe b3 small))
decode_as-Returns m code type buf b e = absurd (ground arith)

pub decode_flow-Returns :
    (code : ℕ) (buf : Buf) (m : X25Modulo) (gfi type : ℕ)
    → All IsByte buf
    → (bit_and type 0x1f == code) ≡ true
    → Returns (λ r. r ≤ max_seq m) (decode_flow code buf m gfi type)
unfolding decode_flow
decode_flow-Returns code buf m gfi type b e = rw e (
    Returns-bind (check_len-Returns (flow_len m) (flow_len m) buf) λ _ (lo, hi).
      Returns-bind (check_gfi-Returns gfi 0x0c)
        λ _ _. decode_as-Returns m code type buf b (omega arith))

-- The bytes of the four packets.
abbrev pub reset_request_bytes : X25ResetRequest → Buf
reset_request_bytes p =
    header p.modulo false false p.channel 0x1b
      (p.cause_code ∷ optional (ltb 0 p.diagnostic_code) p.diagnostic_code)

abbrev pub reset_confirm_bytes : X25ResetConfirm → Buf
reset_confirm_bytes p = header p.modulo false false p.channel 0x1f []

pub encode_reset_request-Ensures :
    (p : X25ResetRequest) (buf : Buf)
    → Ensures
        (λ (n, buf').
          (p.channel ≤ max_channel)
          × (n ≡ length (reset_request_bytes p))
          × (buf' ≡ buf ++ reset_request_bytes p))
        (encode_reset_request p buf)
unfolding encode_reset_request
encode_reset_request-Ensures p buf =
    Ensures-bind (encode_packet_header-Ensures p.modulo false false p.channel 0x1b buf)
      λ (n, b) (c, ne, bt).
        rw
          (put_optional_lem (ltb 0 p.diagnostic_code) p.diagnostic_code (n + 1)
            (b ++ (p.cause_code ∷ [])))
          (holds (c, omega arith, rw bt (simp append_assoc)))

pub decode_reset_request-bytes :
    (p : X25ResetRequest)
    → decode_reset_request
        (reset_request_bytes p)
        p.modulo
        (gfi_with p.modulo false false)
        p.channel
        0x1b
      ≡ ok p
unfolding decode_reset_request
decode_reset_request-bytes p =
    rw
      (
        check_len_lem 4 5 (reset_request_bytes p) (ground arith) (ground arith),
        check_gfi_0c p.modulo,
      )
      (ground arith)

pub decode_reset_request-Returns :
    (buf : Buf) (modulo : X25Modulo) (gfi channel : ℕ)
    → Returns
        (λ p. (p.modulo ≡ modulo) × (p.channel ≡ channel))
        (decode_reset_request buf modulo gfi channel 0x1b)
unfolding decode_reset_request
decode_reset_request-Returns buf modulo gfi channel =
    Returns-bind (check_len-Returns 4 5 buf) λ _ (lo, hi).
      Returns-bind (check_gfi-Returns gfi 0x0c) λ _ _.
        Returns-bind
          (get_u8-Returns (drop 3 buf) (λ e. omega (arith, length-drop 3 buf, ap length e)))
          λ _ _. value (refl, refl)

pub encode_reset_confirm-Ensures :
    (p : X25ResetConfirm) (buf : Buf)
    → Ensures
        (λ (n, buf').
          (p.channel ≤ max_channel)
          × (n ≡ length (reset_confirm_bytes p))
          × (buf' ≡ buf ++ reset_confirm_bytes p))
        (encode_reset_confirm p buf)
unfolding encode_reset_confirm
encode_reset_confirm-Ensures p buf =
    encode_packet_header-Ensures p.modulo false false p.channel 0x1f buf

pub decode_reset_confirm-bytes :
    (p : X25ResetConfirm)
    → decode_reset_confirm
        (reset_confirm_bytes p)
        p.modulo
        (gfi_with p.modulo false false)
        p.channel
        0x1f
      ≡ ok p
unfolding decode_reset_confirm
decode_reset_confirm-bytes p =
    rw
      (check_len_lem 3 3 (reset_confirm_bytes p) (omega arith) (omega arith), check_gfi_0c p.modulo)

pub decode_reset_confirm-Returns :
    (buf : Buf) (modulo : X25Modulo) (gfi channel : ℕ)
    → Returns
        (λ p. (p.modulo ≡ modulo) × (p.channel ≡ channel))
        (decode_reset_confirm buf modulo gfi channel 0x1f)
unfolding decode_reset_confirm
decode_reset_confirm-Returns buf modulo gfi channel =
    Returns-bind (check_len-Returns 3 3 buf)
      λ _ _. Returns-bind (check_gfi-Returns gfi 0x0c) λ _ _. value (refl, refl)

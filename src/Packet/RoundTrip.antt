-- ===== src/Packet/RoundTrip.antt =====
-- Every packet that is encoded is decoded to itself.
use xotpad.Base.{
  ℕ, ◌%◌, ◌≤◌, ◌<◌, ◌≡◌, arith, false, [], length, Buf, ok, ltb-false, ◌∙◌, Bool, Ensures,
  Ensures-ok, Ensures-weaken, ◌>>=◌,
}
use xotpad.Base.Bits.{and_01, and_1f}
use xotpad.Seq.{X25Modulo, normal, extended}
use xotpad.Packet.Header.{max_channel, max_packet_len}
use xotpad.Packet.Header.Fields.{header, gfi_with, decode_packet_header_lem}
use xotpad.Packet.Call.Request
use xotpad.Packet.Call.Accept
use xotpad.Packet.Clear.Request as ClearRequest
use xotpad.Packet.Clear.Confirm as ClearConfirm
use xotpad.Packet.Data.RoundTrip as Data
use xotpad.Packet.Flow.RoundTrip as Flow
use xotpad.Packet.{
  X25Packet, call_request, call_accept, clear_request, clear_confirm, data_packet, receive_ready,
  receive_not_ready, reset_request, reset_confirm, encode, decode_as, decode,
}
use xotpad.Packet.Data.{X25Data, decode_data}
use xotpad.Packet.Flow.{
  encode_receive_ready, encode_receive_not_ready, decode_receive_ready, decode_receive_not_ready,
}

-- The addresses and facilities of a packet that has them are well formed.
abbrev pub IsValid : X25Packet → Type 0
IsValid (call_request p) = Request.IsValid p
IsValid (call_accept p) = Accept.IsValid p
IsValid (clear_request p) = ClearRequest.IsValid p
IsValid (clear_confirm p) = ClearConfirm.IsValid p
IsValid _ = Unit {0}

-- The dispatch on a well-formed header.
decode-header :
    (m : X25Modulo) (q d : Bool) (ch type : ℕ) (rest : Buf)
    → ch ≤ max_channel
    → length (header m q d ch type rest) ≤ max_packet_len
    → decode (header m q d ch type rest)
      ≡ decode_as type (header m q d ch type rest) m (gfi_with m q d) ch
unfolding decode
decode-header m q d ch type rest c short = rw (
  ltb-false (length (header m q d ch type rest)) 3 (omega arith),
  ltb-false max_packet_len (length (header m q d ch type rest)) short,
  decode_packet_header_lem m q d ch type rest c,
)

-- What is claimed of a run of the encoder.
abbrev Back : X25Packet → ℕ × Buf → Type 0
Back p (n, buf) = (n ≡ length buf) × (3 ≤ n) × (n ≤ max_packet_len → decode buf ≡ ok p)

call_request-Back :
    (p : _) → Request.IsValid p → Ensures (Back (call_request p)) (encode (call_request p) [])
unfolding encode decode_as Request.bytes
call_request-Back p v = Ensures-weaken (Request.encode_call_request-Ensures p [] v) λ (n, buf) e. (
  rw e.text e.count,
  rw e.count (omega arith),
  λ _. rw e.text (
      decode-header p.modulo false false p.channel 0x0b _ e.in_range
        (omega (arith, e.count, e.short))
      ∙ rw (Request.decode_call_request-bytes p _ v (omega (arith, e.count, e.short)) e.back)),
)

call_accept-Back :
    (p : _) → Accept.IsValid p → Ensures (Back (call_accept p)) (encode (call_accept p) [])
unfolding encode decode_as Accept.bytes
call_accept-Back p v = Ensures-weaken (Accept.encode_call_accept-Ensures p [] v) λ (n, buf) e. (
  rw e.text e.count,
  rw e.count (omega arith),
  λ _. rw e.text (
      decode-header p.modulo false false p.channel 0x0f _ e.in_range
        (omega (arith, e.count, e.short))
      ∙ rw (Accept.decode_call_accept-bytes p _ v (omega (arith, e.count, e.short)) e.back)),
)

clear_request-Back :
    (p : _)
    → ClearRequest.IsValid p
    → Ensures (Back (clear_request p)) (encode (clear_request p) [])
unfolding encode decode_as ClearRequest.bytes
clear_request-Back p v =
    Ensures-weaken (ClearRequest.encode_clear_request-Ensures p [] v) λ (n, buf) e. (
      rw e.text e.count,
      rw e.count (omega arith),
      λ _. rw e.text (
          decode-header p.modulo false false p.channel 0x13 _ e.in_range
            (omega (arith, e.count, e.short))
          ∙ rw (
              ClearRequest.decode_clear_request-bytes p v (omega (arith, e.count, e.short))
                e.back)),
    )

clear_confirm-Back :
    (p : _)
    → ClearConfirm.IsValid p
    → Ensures (Back (clear_confirm p)) (encode (clear_confirm p) [])
unfolding encode decode_as ClearConfirm.bytes
clear_confirm-Back p v =
    Ensures-weaken (ClearConfirm.encode_clear_confirm-Ensures p [] v) λ (n, buf) e. (
      rw e.text e.count,
      rw e.count (omega arith),
      λ _. rw e.text (
          decode-header p.modulo false false p.channel 0x17 _ e.in_range
            (omega (arith, e.count, e.short))
          ∙ rw (
              ClearConfirm.decode_clear_confirm-bytes p v (omega (arith, e.count, e.short))
                e.back)),
    )

-- An even type code is that of a data packet.
decode_as_even :
    (type : ℕ) (buf : Buf) (m : X25Modulo) (gfi ch : ℕ)
    → type < 256
    → type % 2 ≡ 0
    → decode_as type buf m gfi ch ≡ (decode_data buf m gfi ch type >>= λ p. ok (data_packet p))
unfolding decode_as
decode_as_even type buf m gfi ch small even = ground (arith, and_01 type)

data_type_lem :
    (m : X25Modulo) (p : X25Data)
    → p.send_seq ≤ Data.max_seq m
    → p.recv_seq ≤ Data.max_seq m
    → (Data.type_of m p < 256) × (Data.type_of m p % 2 ≡ 0)
data_type_lem normal p hs hr = ground arith
data_type_lem extended p hs hr = ground arith

data-Back : (p : _) → Ensures (Back (data_packet p)) (encode (data_packet p) [])
unfolding encode Data.bytes
data-Back p = Ensures-weaken (Data.encode_data-Ensures p []) λ (n, buf) e. (
  rw e.text e.count,
  rw e.count (omega arith),
  λ short.
      let ty = data_type_lem p.modulo p e.send e.recv in
      rw e.text (
        decode-header p.modulo p.qualifier p.delivery p.channel (Data.type_of p.modulo p) _
          e.in_range (omega (arith, e.count, short))
        ∙ decode_as_even _ _ _ _ _ ty.0 ty.1
        ∙ rw (Data.decode_data-bytes p e.send e.recv)),
)

-- The type codes of the two flow control packets.
decode_as_ready :
    (type : ℕ) (buf : Buf) (m : X25Modulo) (gfi ch : ℕ)
    → type < 256
    → type % 32 ≡ 1
    → decode_as type buf m gfi ch
      ≡ (decode_receive_ready buf m gfi ch type >>= λ p. ok (receive_ready p))
unfolding decode_as
decode_as_ready type buf m gfi ch small code = ground (arith, and_01 type, and_1f type)

decode_as_not_ready :
    (type : ℕ) (buf : Buf) (m : X25Modulo) (gfi ch : ℕ)
    → type < 256
    → type % 32 ≡ 5
    → decode_as type buf m gfi ch
      ≡ (decode_receive_not_ready buf m gfi ch type >>= λ p. ok (receive_not_ready p))
unfolding decode_as
decode_as_not_ready type buf m gfi ch small code = ground (arith, and_01 type, and_1f type)

flow_type_lem :
    (m : X25Modulo) (code r : ℕ)
    → code < 32
    → r ≤ Data.max_seq m
    → (Flow.flow_type m code r < 256) × (Flow.flow_type m code r % 32 ≡ code)
flow_type_lem normal code r small h = omega arith
flow_type_lem extended code r small h = omega arith

ready-Back : (p : _) → Ensures (Back (receive_ready p)) (encode (receive_ready p) [])
unfolding encode encode_receive_ready decode_receive_ready
ready-Back p =
    Ensures-weaken (Flow.encode_flow-Ensures p.modulo 1 p.channel p.recv_seq [] (omega arith))
      λ (n, buf) (c, r, count, text).
        let (small, same) = flow_type_lem p.modulo 1 p.recv_seq (omega arith) r in
        (
          rw text count,
          rw count (omega arith),
          λ short. rw text (
              decode-header p.modulo false false p.channel (Flow.flow_type p.modulo 1 p.recv_seq) _
                c (omega arith)
              ∙ decode_as_ready _ _ _ _ _ small same
              ∙ rw (Flow.decode_flow-bytes p.modulo 1 p.channel p.recv_seq (omega arith) r)),
        )

not_ready-Back : (p : _) → Ensures (Back (receive_not_ready p)) (encode (receive_not_ready p) [])
unfolding encode encode_receive_not_ready decode_receive_not_ready
not_ready-Back p =
    Ensures-weaken (Flow.encode_flow-Ensures p.modulo 5 p.channel p.recv_seq [] (omega arith))
      λ (n, buf) (c, r, count, text).
        let (small, same) = flow_type_lem p.modulo 5 p.recv_seq (omega arith) r in
        (
          rw text count,
          rw count (omega arith),
          λ short. rw text (
              decode-header p.modulo false false p.channel (Flow.flow_type p.modulo 5 p.recv_seq) _
                c (omega arith)
              ∙ decode_as_not_ready _ _ _ _ _ small same
              ∙ rw (Flow.decode_flow-bytes p.modulo 5 p.channel p.recv_seq (omega arith) r)),
        )

reset_request-Back : (p : _) → Ensures (Back (reset_request p)) (encode (reset_request p) [])
unfolding encode decode_as
reset_request-Back p =
    Ensures-weaken (Flow.encode_reset_request-Ensures p []) λ (n, buf) (c, count, text). (
      rw text count,
      rw count (omega arith),
      λ short. rw text (
          decode-header p.modulo false false p.channel 0x1b _ c (omega arith)
          ∙ rw (Flow.decode_reset_request-bytes p)),
    )

reset_confirm-Back : (p : _) → Ensures (Back (reset_confirm p)) (encode (reset_confirm p) [])
unfolding encode decode_as
reset_confirm-Back p =
    Ensures-weaken (Flow.encode_reset_confirm-Ensures p []) λ (n, buf) (c, count, text). (
      rw text count,
      rw count (omega arith),
      λ short. rw text (
          decode-header p.modulo false false p.channel 0x1f _ c (omega arith)
          ∙ rw (Flow.decode_reset_confirm-bytes p)),
    )

encode-Back : (p : X25Packet) → IsValid p → Ensures (Back p) (encode p [])
encode-Back (call_request p) v = call_request-Back p v
encode-Back (call_accept p) v = call_accept-Back p v
encode-Back (clear_request p) v = clear_request-Back p v
encode-Back (clear_confirm p) v = clear_confirm-Back p v
encode-Back (data_packet p) v = data-Back p
encode-Back (receive_ready p) v = ready-Back p
encode-Back (receive_not_ready p) v = not_ready-Back p
encode-Back (reset_request p) v = reset_request-Back p
encode-Back (reset_confirm p) v = reset_confirm-Back p

-- A well-formed packet that was encoded into an empty buffer, and is no longer than a packet may be, is
-- decoded to itself; the length returned is that of the bytes, and at least the least length of a packet.
pub decode-encode :
    (p : X25Packet) {n : ℕ} {buf : Buf}
    → IsValid p
    → encode p [] ≡ ok (n, buf)
    → (n ≡ length buf) × (3 ≤ n) × (n ≤ max_packet_len → decode buf ≡ ok p)
decode-encode p v h = Ensures-ok (encode-Back p v) h

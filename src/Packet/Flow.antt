-- ===== src/Packet/Flow.antt =====
-- The receive ready, receive not ready, reset request and reset confirmation packets:
-- libxotpad/src/x25/packet.rs. The first two differ in their name and their type code only.
pub mod RoundTrip
use xotpad.Base.{
  ℕ, ◌+◌, ◌*◌, ◌/◌, ◌%◌, Bool, true, false, not, ◌&&◌, ◌||◌, [], ◌∷◌, length, drop, ltb, ◌==◌, Buf,
  put_u8, get_u8, get_u8_or_zero, bit_and, bit_or, Result, ok, panic, ◌>>=◌, ◌>>◌, guard, assert,
  receive_sequence_out_of_range, unidentifiable_packet,
}
use xotpad.Seq.{X25Modulo, normal, extended}
use xotpad.Packet.Header.{encode_packet_header}
use xotpad.Packet.Call.{check_len}
use xotpad.Packet.Clear.{check_gfi, put_optional}

pub record X25ReceiveReady : Type 0 where
  pub modulo : X25Modulo
  pub channel : ℕ
  pub recv_seq : ℕ

pub record X25ReceiveNotReady : Type 0 where
  pub modulo : X25Modulo
  pub channel : ℕ
  pub recv_seq : ℕ

pub record X25ResetRequest : Type 0 where
  pub modulo : X25Modulo
  pub channel : ℕ
  pub cause_code : ℕ
  pub diagnostic_code : ℕ

pub record X25ResetConfirm : Type 0 where
  pub modulo : X25Modulo
  pub channel : ℕ

-- The two encoders of both flow control packets, at their type code.
unfoldable pub encode_flow_as : X25Modulo → ℕ → ℕ → ℕ → Buf → Result (ℕ × Buf)
encode_flow_as normal code channel recv_seq buf = do
  guard (not (ltb 7 recv_seq)) (receive_sequence_out_of_range recv_seq)
  encode_packet_header normal 0 channel (bit_or (recv_seq * 32 % 256) code) buf
encode_flow_as extended code channel recv_seq buf = do
  guard (not (ltb 127 recv_seq)) (receive_sequence_out_of_range recv_seq)
  (len, buf1) ← encode_packet_header extended 0 channel code buf
  ok (len + 1, put_u8 buf1 (recv_seq * 2 % 256))

unfoldable pub encode_receive_ready : X25ReceiveReady → Buf → Result (ℕ × Buf)
encode_receive_ready p buf = encode_flow_as p.modulo 0x01 p.channel p.recv_seq buf

unfoldable pub encode_receive_not_ready : X25ReceiveNotReady → Buf → Result (ℕ × Buf)
encode_receive_not_ready p buf = encode_flow_as p.modulo 0x05 p.channel p.recv_seq buf

abbrev pub flow_len : X25Modulo → ℕ
flow_len normal = 3
flow_len extended = 4

-- `buf[i]` panics out of range.
unfoldable pub index : Buf → ℕ → Result ℕ
index buf i = do (b, rest) ← get_u8 (drop i buf); ok b

-- The sequence number of both flow control packets, behind their checks.
unfoldable pub decode_flow_as : X25Modulo → ℕ → ℕ → Buf → Result ℕ
unfolding index
decode_flow_as normal code type buf = do b2 ← index buf 2; ok (bit_and b2 0xe0 / 32)
decode_flow_as extended code type buf = do
  b3 ← index buf 3
  guard (not (not (type == code) || not (bit_and b3 0x01 == 0))) unidentifiable_packet
  ok (bit_and b3 0xfe / 2)

unfoldable pub decode_flow : ℕ → Buf → X25Modulo → ℕ → ℕ → Result ℕ
unfolding decode_flow_as
decode_flow code buf modulo gfi type = do
  assert (bit_and type 0x1f == code)
  check_len (flow_len modulo) (flow_len modulo) buf
  check_gfi gfi 0x0c
  decode_flow_as modulo code type buf

unfoldable pub decode_receive_ready : Buf → X25Modulo → ℕ → ℕ → ℕ → Result X25ReceiveReady
decode_receive_ready buf modulo gfi channel type = do
  recv_seq ← decode_flow 0x01 buf modulo gfi type
  ok (record { modulo = modulo; channel = channel; recv_seq = recv_seq })

unfoldable pub decode_receive_not_ready : Buf → X25Modulo → ℕ → ℕ → ℕ → Result X25ReceiveNotReady
decode_receive_not_ready buf modulo gfi channel type = do
  recv_seq ← decode_flow 0x05 buf modulo gfi type
  ok (record { modulo = modulo; channel = channel; recv_seq = recv_seq })

unfoldable pub encode_reset_request : X25ResetRequest → Buf → Result (ℕ × Buf)
unfolding put_optional
encode_reset_request p buf = do
  (len, buf1) ← encode_packet_header p.modulo 0 p.channel 0x1b buf
  ok (put_optional (ltb 0 p.diagnostic_code) p.diagnostic_code (len + 1) (put_u8 buf1 p.cause_code))

unfoldable pub decode_reset_request : Buf → X25Modulo → ℕ → ℕ → ℕ → Result X25ResetRequest
decode_reset_request buf modulo gfi channel type = do
  assert (type == 0x1b)
  check_len 4 5 buf
  check_gfi gfi 0x0c
  (cause_code, buf1) ← get_u8 (drop 3 buf)
  ok (record {
    modulo = modulo;
    channel = channel;
    cause_code = cause_code;
    diagnostic_code = (get_u8_or_zero buf1).0;
  })

unfoldable pub encode_reset_confirm : X25ResetConfirm → Buf → Result (ℕ × Buf)
encode_reset_confirm p buf = encode_packet_header p.modulo 0 p.channel 0x1f buf

unfoldable pub decode_reset_confirm : Buf → X25Modulo → ℕ → ℕ → ℕ → Result X25ResetConfirm
decode_reset_confirm buf modulo gfi channel type = do
  assert (type == 0x1f)
  check_len 3 3 buf
  check_gfi gfi 0x0c
  ok (record { modulo = modulo; channel = channel })

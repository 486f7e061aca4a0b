-- ===== src/Packet.antt =====
-- X.25 packets: libxotpad/src/x25/packet.rs. Each kind has a module below; this one has the
-- enumeration and its dispatch.
pub mod Header
pub mod Blocks
pub mod Call
pub mod Clear
pub mod Data
pub mod Flow
pub mod RoundTrip
pub mod Total
use xotpad.Base.{
  ℕ, ◌%◌, not, ◌∷◌, length, ltb, ◌==◌, if◌then◌else◌, Buf, bit_and, Option, some, Result, ok, err,
  ◌>>=◌, ◌>>◌, guard, packet_too_short, packet_too_long, unsupported_packet_type,
}
use xotpad.Seq.{X25Modulo}
use Header.{min_packet_len, max_packet_len, decode_packet_header}
use Call.{
  X25CallRequest, X25CallAccept, encode_call_request, encode_call_accept, decode_call_request,
  decode_call_accept,
}
use Clear.{
  X25ClearRequest, X25ClearConfirm, encode_clear_request, encode_clear_confirm,
  decode_clear_request, decode_clear_confirm,
}
use Data.{X25Data, encode_data, decode_data}
use Flow.{
  X25ReceiveReady, X25ReceiveNotReady, X25ResetRequest, X25ResetConfirm, encode_receive_ready,
  encode_receive_not_ready, encode_reset_request, encode_reset_confirm, decode_receive_ready,
  decode_receive_not_ready, decode_reset_request, decode_reset_confirm,
}

pub data X25Packet : Type 0 where
  call_request : X25CallRequest → X25Packet
  call_accept : X25CallAccept → X25Packet
  clear_request : X25ClearRequest → X25Packet
  clear_confirm : X25ClearConfirm → X25Packet
  data_packet : X25Data → X25Packet
  receive_ready : X25ReceiveReady → X25Packet
  receive_not_ready : X25ReceiveNotReady → X25Packet
  reset_request : X25ResetRequest → X25Packet
  reset_confirm : X25ResetConfirm → X25Packet

unfoldable pub modulo : X25Packet → X25Modulo
modulo (call_request p) = p.modulo
modulo (call_accept p) = p.modulo
modulo (clear_request p) = p.modulo
modulo (clear_confirm p) = p.modulo
modulo (data_packet p) = p.modulo
modulo (receive_ready p) = p.modulo
modulo (receive_not_ready p) = p.modulo
modulo (reset_request p) = p.modulo
modulo (reset_confirm p) = p.modulo

unfoldable pub channel : X25Packet → Option ℕ
channel (call_request p) = some p.channel
channel (call_accept p) = some p.channel
channel (clear_request p) = some p.channel
channel (clear_confirm p) = some p.channel
channel (data_packet p) = some p.channel
channel (receive_ready p) = some p.channel
channel (receive_not_ready p) = some p.channel
channel (reset_request p) = some p.channel
channel (reset_confirm p) = some p.channel

unfoldable pub encode : X25Packet → Buf → Result (ℕ × Buf)
encode (call_request p) buf = encode_call_request p buf
encode (call_accept p) buf = encode_call_accept p buf
encode (clear_request p) buf = encode_clear_request p buf
encode (clear_confirm p) buf = encode_clear_confirm p buf
encode (data_packet p) buf = encode_data p buf
encode (receive_ready p) buf = encode_receive_ready p buf
encode (receive_not_ready p) buf = encode_receive_not_ready p buf
encode (reset_request p) buf = encode_reset_request p buf
encode (reset_confirm p) buf = encode_reset_confirm p buf

-- The `if` chain on the packet type.
unfoldable pub decode_as : ℕ → Buf → X25Modulo → ℕ → ℕ → Result X25Packet
decode_as type buf modulo gfi channel =
    if type == 0x0b
    then (decode_call_request buf modulo gfi channel type >>= λ p. ok (call_request p))
    else if type == 0x0f
    then (decode_call_accept buf modulo gfi channel type >>= λ p. ok (call_accept p))
    else if type == 0x13
    then (decode_clear_request buf modulo gfi channel type >>= λ p. ok (clear_request p))
    else if type == 0x17
    then (decode_clear_confirm buf modulo gfi channel type >>= λ p. ok (clear_confirm p))
    else if bit_and type 0x01 == 0x00
    then (decode_data buf modulo gfi channel type >>= λ p. ok (data_packet p))
    else if bit_and type 0x1f == 0x01
    then (decode_receive_ready buf modulo gfi channel type >>= λ p. ok (receive_ready p))
    else if bit_and type 0x1f == 0x05
    then (decode_receive_not_ready buf modulo gfi channel type >>= λ p. ok (receive_not_ready p))
    else if type == 0x1b
    then (decode_reset_request buf modulo gfi channel type >>= λ p. ok (reset_request p))
    else if type == 0x1f
    then (decode_reset_confirm buf modulo gfi channel type >>= λ p. ok (reset_confirm p))
    else err (unsupported_packet_type type)

unfoldable pub decode : Buf → Result X25Packet
decode buf = do
  guard (not (ltb (length buf) min_packet_len)) (packet_too_short (length buf))
  guard (not (ltb max_packet_len (length buf))) (packet_too_long (length buf))
  (modulo, gfi, channel, type) ← decode_packet_header buf
  decode_as type buf modulo gfi channel

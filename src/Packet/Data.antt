-- ===== src/Packet/Data.antt =====
-- The data packet: libxotpad/src/x25/packet.rs.
pub mod RoundTrip
use xotpad.Base.{
  ℕ, ◌+◌, ◌*◌, ◌/◌, ◌%◌, Bool, not, [], ◌∷◌, ◌++◌, length, ltb, ◌==◌, Buf, put_u8, bit_and, bit_or,
  Result, ok, err, ◌>>=◌, ◌>>◌, guard, assert, packet_too_short, send_sequence_out_of_range,
  receive_sequence_out_of_range,
}
use xotpad.Seq.{X25Modulo, normal, extended}
use xotpad.Packet.Header.{encode_packet_header, from_bool}

pub record X25Data : Type 0 where
  pub modulo : X25Modulo
  pub channel : ℕ
  pub send_seq : ℕ
  pub recv_seq : ℕ
  pub qualifier : Bool
  pub delivery : Bool
  pub more : Bool
  pub user_data : Buf

-- `u8::from(qualifier) << 3 | u8::from(delivery) << 2`
abbrev gfi_overlay : X25Data → ℕ
gfi_overlay p = bit_or (from_bool p.qualifier * 8) (from_bool p.delivery * 4)

unfoldable pub encode_data_normal : X25Data → Buf → Result (ℕ × Buf)
encode_data_normal p buf = do
  guard (not (ltb 7 p.send_seq)) (send_sequence_out_of_range p.send_seq)
  guard (not (ltb 7 p.recv_seq)) (receive_sequence_out_of_range p.recv_seq)
  let type = bit_or (bit_or (p.recv_seq * 32 % 256) (from_bool p.more * 16)) (p.send_seq * 2 % 256)
  (len, buf1) ← encode_packet_header p.modulo (gfi_overlay p) p.channel type buf
  ok (len + length p.user_data, buf1 ++ p.user_data)

unfoldable pub encode_data_extended : X25Data → Buf → Result (ℕ × Buf)
encode_data_extended p buf = do
  guard (not (ltb 127 p.send_seq)) (send_sequence_out_of_range p.send_seq)
  guard (not (ltb 127 p.recv_seq)) (receive_sequence_out_of_range p.recv_seq)
  (len, buf1) ← encode_packet_header p.modulo (gfi_overlay p) p.channel (p.send_seq * 2 % 256) buf
  let buf2 = put_u8 buf1 (bit_or (p.recv_seq * 2 % 256) (from_bool p.more))
  ok (len + 1 + length p.user_data, buf2 ++ p.user_data)

unfoldable pub encode_data_as : X25Modulo → X25Data → Buf → Result (ℕ × Buf)
unfolding encode_data_normal encode_data_extended
encode_data_as normal p buf = encode_data_normal p buf
encode_data_as extended p buf = encode_data_extended p buf

unfoldable pub encode_data : X25Data → Buf → Result (ℕ × Buf)
unfolding encode_data_as
encode_data p buf = encode_data_as p.modulo p buf

unfoldable pub decode_data_normal : Buf → ℕ → ℕ → Result X25Data
decode_data_normal (b0 ∷ b1 ∷ b2 ∷ user_data) gfi channel = ok (record {
  modulo = normal;
  channel = channel;
  send_seq = bit_and b2 0x0e / 2;
  recv_seq = bit_and b2 0xe0 / 32;
  qualifier = bit_and gfi 0x08 / 8 == 1;
  delivery = bit_and gfi 0x04 / 4 == 1;
  more = bit_and b2 0x10 / 16 == 1;
  user_data = user_data;
})
decode_data_normal buf gfi channel = err (packet_too_short (length buf))

unfoldable pub decode_data_extended : Buf → ℕ → ℕ → Result X25Data
decode_data_extended (b0 ∷ b1 ∷ b2 ∷ b3 ∷ user_data) gfi channel = ok (record {
  modulo = extended;
  channel = channel;
  send_seq = bit_and b2 0xfe / 2;
  recv_seq = bit_and b3 0xfe / 2;
  qualifier = bit_and gfi 0x08 / 8 == 1;
  delivery = bit_and gfi 0x04 / 4 == 1;
  more = bit_and b3 0x01 == 1;
  user_data = user_data;
})
decode_data_extended buf gfi channel = err (packet_too_short (length buf))

unfoldable pub decode_data_as : X25Modulo → Buf → ℕ → ℕ → Result X25Data
unfolding decode_data_normal decode_data_extended
decode_data_as normal buf gfi channel = decode_data_normal buf gfi channel
decode_data_as extended buf gfi channel = decode_data_extended buf gfi channel

unfoldable pub decode_data : Buf → X25Modulo → ℕ → ℕ → ℕ → Result X25Data
unfolding decode_data_as
decode_data buf modulo gfi channel type = do
  assert (bit_and type 0x01 == 0)
  decode_data_as modulo buf gfi channel

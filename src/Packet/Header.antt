-- ===== src/Packet/Header.antt =====
-- The three bytes of every packet header: `encode_packet_header` and `decode_packet_header` of
-- libxotpad/src/x25/packet.rs. `as u8` is `% 256`, and `<<` on a u8 or a u16 drops what leaves the word.
pub mod Fields
use xotpad.Base.{
  ℕ, ◌+◌, ◌*◌, ◌/◌, ◌%◌, Bool, true, false, not, ◌∷◌, length, ltb, ◌==◌, if◌then◌else◌, Buf, put_u8,
  bit_and, bit_or, Result, ok, err, ◌>>=◌, ◌>>◌, guard, packet_too_short, unsupported_modulo,
  channel_out_of_range,
}
use xotpad.Seq.{X25Modulo, normal, extended}

abbrev pub min_packet_len : ℕ
min_packet_len = 3

abbrev pub max_packet_len : ℕ
max_packet_len = 7 + 4096

abbrev pub max_channel : ℕ
max_channel = 4095

-- `u8::from(bool)`
abbrev pub from_bool : Bool → ℕ
from_bool true = 1
from_bool false = 0

abbrev pub gfi_of : X25Modulo → ℕ
gfi_of normal = 0b01
gfi_of extended = 0b10

unfoldable pub encode_packet_header : X25Modulo → ℕ → ℕ → ℕ → Buf → Result (ℕ × Buf)
encode_packet_header modulo gfi_overlay channel type buf = do
  guard (not (ltb max_channel channel)) (channel_out_of_range channel)
  let gfi = gfi_of modulo
  let first = bit_or (bit_or gfi gfi_overlay * 16 % 256) (bit_and channel 0x0f00 / 256 % 256)
  ok (3, put_u8 (put_u8 (put_u8 buf first) (bit_and channel 0x00ff % 256)) type)

-- The sequence numbering scheme, the GFI, the channel and the packet type.
unfoldable pub decode_packet_header : Buf → Result (X25Modulo × ℕ × ℕ × ℕ)
decode_packet_header (b0 ∷ b1 ∷ b2 ∷ buf) =
    let gfi = bit_and b0 0xf0 / 16 in
    let channel = bit_or (bit_and b0 0x0f * 256 % 65536) b1 in
    if bit_and gfi 0x03 == 0b01
    then ok (normal, gfi, channel, b2)
    else if bit_and gfi 0x03 == 0b10
    then ok (extended, gfi, channel, b2)
    else err unsupported_modulo
decode_packet_header buf = err (packet_too_short (length buf))

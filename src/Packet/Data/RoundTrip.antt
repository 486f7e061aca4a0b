-- ===== src/Packet/Data/RoundTrip.antt =====
-- A data packet that is encoded is decoded to itself.
use xotpad.Base.{
  ℕ, ◌+◌, ◌*◌, ◌/◌, ◌%◌, ◌≤◌, ◌≡◌, arith, refl, false, true, [], ◌∷◌, ◌++◌, length, Buf, ok, not,
  append_assoc, Bool, ltb, ◌∙◌, bit_and, bit_or, Ensures, holds, Ensures-bind, Ensures-after,
  send_sequence_out_of_range, receive_sequence_out_of_range, All, IsByte, Returns, value, error,
  ◌==◌,
}
use xotpad.Base.Bits.{or_32, or_16, or_2, and_0e, and_e0, and_10, and_fe, and_01}
use xotpad.Seq.{X25Modulo, normal, extended}
use xotpad.Packet.Header.{max_channel, from_bool}
use xotpad.Packet.Header.Fields.{header, gfi_with, encode_packet_header-Ensures}
use xotpad.Packet.Data.{X25Data, encode_data_as, encode_data, decode_data, decode_data_as}

-- The third byte of the packet.
abbrev pub type_of : X25Modulo → X25Data → ℕ
type_of normal p = p.recv_seq * 32 + from_bool p.more * 16 + p.send_seq * 2
type_of extended p = p.send_seq * 2

abbrev pub body_of : X25Modulo → X25Data → Buf
body_of normal p = p.user_data
body_of extended p = (p.recv_seq * 2 + from_bool p.more) ∷ p.user_data

abbrev pub bytes_as : X25Modulo → X25Data → Buf
bytes_as m p = header m p.qualifier p.delivery p.channel (type_of m p) (body_of m p)

unfoldable pub bytes : X25Data → Buf
bytes p = bytes_as p.modulo p

abbrev pub max_seq : X25Modulo → ℕ
max_seq normal = 7
max_seq extended = 127

type_lem :
    (r s : ℕ) (m : Bool)
    → r ≤ 7
    → s ≤ 7
    → bit_or (bit_or (r * 32 % 256) (from_bool m * 16)) (s * 2 % 256)
      ≡ r * 32 + from_bool m * 16 + s * 2
type_lem r s m hr hs =
    let wide : r * 32 % 256 ≡ r * 32 = omega arith in
    let narrow : s * 2 % 256 ≡ s * 2 = omega arith in
    let small : from_bool m ≤ 1 = ground arith in
    let high : r * 32 + from_bool m * 16 ≡ (r * 2 + from_bool m) * 16 = omega arith in
    rw (wide, narrow, or_32 r (from_bool m * 16) (omega arith) (omega arith), high)
      (or_16 (r * 2 + from_bool m) (s * 2) (omega arith) (omega arith))

more_lem : (r : ℕ) (m : Bool) → r ≤ 127 → bit_or (r * 2 % 256) (from_bool m) ≡ r * 2 + from_bool m
more_lem r m hr =
    let wide : r * 2 % 256 ≡ r * 2 = omega arith in
    rw wide (or_2 r (from_bool m) (omega arith) (ground arith))

-- What a successful run of the encoder went through.
pub record Encoded (p : X25Data) (buf : Buf) (n : ℕ) (buf' : Buf) : Type 0 where
  pub in_range : p.channel ≤ max_channel
  pub send : p.send_seq ≤ max_seq p.modulo
  pub recv : p.recv_seq ≤ max_seq p.modulo
  pub text : buf' ≡ buf ++ bytes p
  pub count : n ≡ length (bytes p)

encode_as-Ensures :
    (m : X25Modulo) (p : X25Data) (buf : Buf)
    → p.modulo ≡ m
    → Ensures (λ (n, buf'). Encoded p buf n buf') (encode_data_as m p buf)
unfolding encode_data_as bytes
encode_as-Ensures normal p buf e =
    Ensures-after (not (ltb 7 p.send_seq)) (send_sequence_out_of_range p.send_seq) λ hs.
      Ensures-after (not (ltb 7 p.recv_seq)) (receive_sequence_out_of_range p.recv_seq) λ hr.
        rw (type_lem p.recv_seq p.send_seq p.more (ground arith) (ground arith)) (
          Ensures-bind
            (encode_packet_header-Ensures p.modulo p.qualifier p.delivery p.channel
              (type_of normal p) buf)
            λ (n, b) (c, ne, bt). holds (record {
              in_range = c;
              send = ground arith;
              recv = ground arith;
              text = rw (bt, e) (append_assoc buf _ p.user_data);
              count = ground arith;
            }))
encode_as-Ensures extended p buf e =
    Ensures-after (not (ltb 127 p.send_seq)) (send_sequence_out_of_range p.send_seq) λ hs.
      Ensures-after (not (ltb 127 p.recv_seq)) (receive_sequence_out_of_range p.recv_seq) λ hr.
        let narrow : p.send_seq * 2 % 256 ≡ p.send_seq * 2 = ground arith in
        rw (narrow, more_lem p.recv_seq p.more (ground arith))
          (Ensures-bind
            (encode_packet_header-Ensures p.modulo p.qualifier p.delivery p.channel
              (type_of extended p) buf)
            λ (n, b) (c, ne, bt). holds (record {
              in_range = c;
              send = ground arith;
              recv = ground arith;
              text = rw (bt, e) (simp append_assoc);
              count = ground arith;
            }))

pub encode_data-Ensures :
    (p : X25Data) (buf : Buf) → Ensures (λ (n, buf'). Encoded p buf n buf') (encode_data p buf)
unfolding encode_data
encode_data-Ensures p buf = encode_as-Ensures p.modulo p buf refl

flag_lem : (b : Bool) → (from_bool b == 1) ≡ b
flag_lem true = refl
flag_lem false = refl

-- The two flags of the GFI.
flags_lem :
    (m : X25Modulo) (q d : Bool)
    → ((bit_and (gfi_with m q d) 0x08 / 8 == 1) ≡ q)
      × ((bit_and (gfi_with m q d) 0x04 / 4 == 1) ≡ d)
flags_lem normal true true = (refl, refl)
flags_lem normal true false = (refl, refl)
flags_lem normal false true = (refl, refl)
flags_lem normal false false = (refl, refl)
flags_lem extended true true = (refl, refl)
flags_lem extended true false = (refl, refl)
flags_lem extended false true = (refl, refl)
flags_lem extended false false = (refl, refl)

decode_as-bytes :
    (m : X25Modulo) (p : X25Data)
    → p.send_seq ≤ max_seq m
    → p.recv_seq ≤ max_seq m
    → decode_data_as m (bytes_as m p) (gfi_with m p.qualifier p.delivery) p.channel
      ≡ ok (record p { modulo = m })
unfolding decode_data_as
decode_as-bytes normal p hs hr =
    let t = type_of normal p in
    let small : from_bool p.more ≤ 1 = ground arith in
    let flags = flags_lem normal p.qualifier p.delivery in
    let send : bit_and t 0x0e / 2 ≡ p.send_seq = and_0e t (omega arith) ∙ omega arith in
    let recv : bit_and t 0xe0 / 32 ≡ p.recv_seq = and_e0 t (omega arith) ∙ omega arith in
    let more : bit_and t 0x10 / 16 ≡ from_bool p.more = and_10 t (omega arith) ∙ omega arith in
    rw (send, recv, more, flags.0, flags.1, flag_lem p.more)
decode_as-bytes extended p hs hr =
    let t = p.recv_seq * 2 + from_bool p.more in
    let small : from_bool p.more ≤ 1 = ground arith in
    let flags = flags_lem extended p.qualifier p.delivery in
    let send : bit_and (p.send_seq * 2) 0xfe / 2 ≡ p.send_seq =
      and_fe _ (omega arith) ∙ omega arith in
    let recv : bit_and t 0xfe / 2 ≡ p.recv_seq = and_fe t (omega arith) ∙ omega arith in
    let more : bit_and t 0x01 ≡ from_bool p.more = and_01 t (omega arith) ∙ omega arith in
    rw (send, recv, more, flags.0, flags.1, flag_lem p.more)

type_even :
    (m : X25Modulo) (p : X25Data)
    → p.send_seq ≤ max_seq m
    → p.recv_seq ≤ max_seq m
    → bit_and (type_of m p) 0x01 ≡ 0
type_even normal p hs hr =
    let small : from_bool p.more ≤ 1 = ground arith in
    and_01 (type_of normal p) (omega arith) ∙ omega arith
type_even extended p hs hr = and_01 (type_of extended p) (omega arith) ∙ omega arith

-- The decoder reads the packet back.
pub decode_data-bytes :
    (p : X25Data)
    → p.send_seq ≤ max_seq p.modulo
    → p.recv_seq ≤ max_seq p.modulo
    → decode_data
        (bytes p)
        p.modulo
        (gfi_with p.modulo p.qualifier p.delivery)
        p.channel
        (type_of p.modulo p)
      ≡ ok p
unfolding decode_data bytes
decode_data-bytes p hs hr = rw (type_even p.modulo p hs hr) (decode_as-bytes p.modulo p hs hr)

-- On any bytes, and an even type code, the decoder returns; its sequence numbers are in range.
decode_as-Returns :
    (m : X25Modulo) (buf : Buf) (gfi channel : ℕ)
    → All IsByte buf
    → Returns
        (λ p.
          (p.send_seq ≤ max_seq m)
          × (p.recv_seq ≤ max_seq m)
          × (p.modulo ≡ m)
          × (p.channel ≡ channel))
        (decode_data_as m buf gfi channel)
unfolding decode_data_as
decode_as-Returns normal [] gfi channel b = error
decode_as-Returns normal (b0 ∷ []) gfi channel b = error
decode_as-Returns normal (b0 ∷ b1 ∷ []) gfi channel b = error
decode_as-Returns normal (b0 ∷ b1 ∷ b2 ∷ buf) gfi channel (_, (_, (small, _))) =
    value (omega (arith, and_0e b2 small), omega (arith, and_e0 b2 small), refl, refl)
decode_as-Returns extended [] gfi channel b = error
decode_as-Returns extended (b0 ∷ []) gfi channel b = error
decode_as-Returns extended (b0 ∷ b1 ∷ []) gfi channel b = error
decode_as-Returns extended (b0 ∷ b1 ∷ b2 ∷ []) gfi channel b = error
decode_as-Returns extended (b0 ∷ b1 ∷ b2 ∷ b3 ∷ buf) gfi channel (_, (_, (small, (small', _)))) =
    value (omega (arith, and_fe b2 small), omega (arith, and_fe b3 small'), refl, refl)

pub decode_data-Returns :
    (buf : Buf) (m : X25Modulo) (gfi channel type : ℕ)
    → All IsByte buf
    → (bit_and type 0x01 == 0) ≡ true
    → Returns
        (λ p.
          (p.send_seq ≤ max_seq m)
          × (p.recv_seq ≤ max_seq m)
          × (p.modulo ≡ m)
          × (p.channel ≡ channel))
        (decode_data buf m gfi channel type)
unfolding decode_data
decode_data-Returns buf m gfi channel type b even = rw even (decode_as-Returns m buf gfi channel b)

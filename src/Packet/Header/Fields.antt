-- ===== src/Packet/Header/Fields.antt =====
-- The header's fields in plain arithmetic, and that they are read back.
use xotpad.Base.{
  ℕ, ◌+◌, ◌*◌, ◌/◌, ◌%◌, ◌≤◌, ◌<◌, ◌≡◌, arith, refl, Bool, true, false, [], ◌∷◌, ◌++◌, Buf, bit_and,
  bit_or, ok, append_assoc, ◌∙◌, Ensures, holds, Ensures-after, not, ltb, channel_out_of_range,
  if◌then◌else◌, ◌==◌, err, unsupported_modulo,
}
use xotpad.Base.Bits.{and_f0, and_0f, and_03, and_0f00, and_00ff, or_16, or_256}
use xotpad.Seq.{X25Modulo, normal, extended}
use xotpad.Packet.Header.{
  from_bool, gfi_of, max_channel, encode_packet_header, decode_packet_header,
}

-- The qualifier and delivery bits of a data packet; all other packets have neither.
abbrev pub overlay : Bool → Bool → ℕ
overlay q d = bit_or (from_bool q * 8) (from_bool d * 4)

-- The general format identifier with its two flags.
abbrev pub gfi_with : X25Modulo → Bool → Bool → ℕ
gfi_with modulo q d = gfi_of modulo + 8 * from_bool q + 4 * from_bool d

-- The header bytes of a packet.
abbrev pub header : X25Modulo → Bool → Bool → ℕ → ℕ → Buf → Buf
header modulo q d channel type rest =
    (gfi_with modulo q d * 16 + channel / 256) ∷ channel % 256 ∷ type ∷ rest

gfi_or :
    (modulo : X25Modulo) (q d : Bool) → bit_or (gfi_of modulo) (overlay q d) ≡ gfi_with modulo q d
gfi_or normal true true = refl
gfi_or normal true false = refl
gfi_or normal false true = refl
gfi_or normal false false = refl
gfi_or extended true true = refl
gfi_or extended true false = refl
gfi_or extended false true = refl
gfi_or extended false false = refl

gfi_small : (modulo : X25Modulo) (q d : Bool) → gfi_with modulo q d < 16
gfi_small modulo q d = ground arith

first_lem :
    (modulo : X25Modulo) (q d : Bool) (channel : ℕ)
    → channel ≤ max_channel
    → bit_or (bit_or (gfi_of modulo) (overlay q d) * 16 % 256) (bit_and channel 0x0f00 / 256 % 256)
      ≡ gfi_with modulo q d * 16 + channel / 256
first_lem modulo q d channel h =
    let small = gfi_small modulo q d in
    let wide : gfi_with modulo q d * 16 % 256 ≡ gfi_with modulo q d * 16 = omega arith in
    let narrow : channel / 256 % 256 ≡ channel / 256 = omega arith in
    rw (gfi_or modulo q d, and_0f00 channel (omega arith), wide, narrow)
      (or_16 (gfi_with modulo q d) (channel / 256) small (omega arith))

pub encode_packet_header-Ensures :
    (modulo : X25Modulo) (q d : Bool) (channel type : ℕ) (buf : Buf)
    → Ensures
        (λ (n, buf').
          (channel ≤ max_channel) × (n ≡ 3) × (buf' ≡ buf ++ header modulo q d channel type []))
        (encode_packet_header modulo (overlay q d) channel type buf)
unfolding encode_packet_header
encode_packet_header-Ensures modulo q d channel type buf =
    Ensures-after (not (ltb max_channel channel)) (channel_out_of_range channel) λ h. holds (
      ground arith,
      refl,
      ground (
        arith,
        first_lem modulo q d channel,
        and_00ff channel,
        append_assoc buf ((gfi_with modulo q d * 16 + channel / 256) ∷ []) (channel % 256 ∷ []),
        append_assoc buf ((gfi_with modulo q d * 16 + channel / 256) ∷ channel % 256 ∷ [])
            (type ∷ []),
      ),
    )

modulo_lem {ℓ} :
    {A : Type ℓ} (modulo : X25Modulo) (q d : Bool) (f : X25Modulo → A) (e : A)
    → (if gfi_with modulo q d % 4 == 0b01
        then f normal
        else if gfi_with modulo q d % 4 == 0b10
        then f extended
        else e)
      ≡ f modulo
modulo_lem normal true true f e = refl
modulo_lem normal true false f e = refl
modulo_lem normal false true f e = refl
modulo_lem normal false false f e = refl
modulo_lem extended true true f e = refl
modulo_lem extended true false f e = refl
modulo_lem extended false true f e = refl
modulo_lem extended false false f e = refl

pub decode_packet_header_lem :
    (modulo : X25Modulo) (q d : Bool) (channel type : ℕ) (rest : Buf)
    → channel ≤ max_channel
    → decode_packet_header (header modulo q d channel type rest)
      ≡ ok (modulo, gfi_with modulo q d, channel, type)
unfolding decode_packet_header
decode_packet_header_lem modulo q d channel type rest h =
    let first = gfi_with modulo q d * 16 + channel / 256 in
    let small = gfi_small modulo q d in
    let gfi : bit_and first 0xf0 / 16 ≡ gfi_with modulo q d =
      and_f0 first (omega arith) ∙ omega arith in
    let high : bit_and first 0x0f * 256 % 65536 ≡ channel / 256 * 256 =
      rw (and_0f first (omega arith)) (omega arith) in
    let whole : bit_or (channel / 256 * 256) (channel % 256) ≡ channel =
      or_256 (channel / 256) (channel % 256) (omega arith) (omega arith) ∙ omega arith in
    rw (gfi, high, whole, and_03 (gfi_with modulo q d) (omega arith))
      (modulo_lem modulo q d (λ m. ok (m, gfi_with modulo q d, channel, type))
        (err unsupported_modulo))

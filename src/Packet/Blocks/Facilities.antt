-- ===== src/Packet/Blocks/Facilities.antt =====
-- The facilities block that is written is read back, and the decoders of both blocks return.
use xotpad.Base.{
  ℕ, ◌+◌, ◌<◌, ◌≡◌, arith, not, List, [], ◌∷◌, ◌++◌, length, take, drop, Buf, IsByte, ok, All,
  append_assoc, Ensures, Ensures-intro, take-length_append, drop-length_append, length-append,
  >>=-eq-ok, ltb, Returns, value, error, Returns-bind, Returns-guard, All-take, All-drop,
  facilities_block_incomplete, addr_block_incomplete, Returns-after, bit_and, ◌/◌, ◌%◌,
}
use xotpad.Facility.{X25Facility, encode_facilities}
use xotpad.Facility.Params.{IsWellFormed}
use xotpad.Facility.RoundTrip.{wire_all, decode_facilities-encode}
use xotpad.Facility.Sound.{decode_facilities-Returns}
use xotpad.X121.Digits.{IsValid, from_digits-Returns}
use xotpad.Packet.Blocks.{
  encode_facilities_block, decode_facilities_block, decode_addr_block, unpack,
}

unfoldable pub facilities_block : List X25Facility → Buf
facilities_block fs = length (wire_all fs) ∷ wire_all fs

pub length-facilities_block_pos : (fs : List X25Facility) → 0 < length (facilities_block fs)
unfolding facilities_block
length-facilities_block_pos fs = omega arith

pub encode_facilities_block_lem :
    (fs : List X25Facility) (buf : Buf) {n : ℕ} {buf' : Buf}
    → All IsWellFormed fs
    → encode_facilities_block fs buf ≡ ok (n, buf')
    → (n ≡ length (facilities_block fs)) × (buf' ≡ buf ++ facilities_block fs)
unfolding encode_facilities_block facilities_block
encode_facilities_block_lem fs buf v h =
    let ((len, bytes), wrote, more) = >>=-eq-ok (encode_facilities fs []) _ h in
    let (text, count, _) = decode_facilities-encode fs [] v wrote in
    ground (arith, text, count, append_assoc buf (length (wire_all fs) ∷ []) (wire_all fs))

-- The block decodes to the same facilities, whatever follows it.
pub decode_facilities_block-encode :
    (fs : List X25Facility) (buf rest : Buf) {n : ℕ} {buf' : Buf}
    → All IsWellFormed fs
    → encode_facilities_block fs buf ≡ ok (n, buf')
    → decode_facilities_block (facilities_block fs ++ rest) ≡ ok (fs, rest)
unfolding encode_facilities_block decode_facilities_block facilities_block
decode_facilities_block-encode fs buf rest v h =
    let ((len, bytes), wrote, more) = >>=-eq-ok (encode_facilities fs []) _ h in
    let (text, count, back) = decode_facilities-encode fs [] v wrote in
    ground (
      arith,
      back,
      length-append (wire_all fs) rest,
      take-length_append (wire_all fs) rest,
      drop-length_append (wire_all fs) rest,
    )

pub encode_facilities_block-Ensures :
    (fs : List X25Facility) (buf : Buf)
    → All IsWellFormed fs
    → Ensures
        (λ (n, buf').
          (n ≡ length (facilities_block fs))
          × (buf' ≡ buf ++ facilities_block fs)
          × ((rest : Buf) → decode_facilities_block (facilities_block fs ++ rest) ≡ ok (fs, rest)))
        (encode_facilities_block fs buf)
encode_facilities_block-Ensures fs buf v =
    Ensures-intro (encode_facilities_block fs buf) λ (n, buf') h.
      let (count, text) = encode_facilities_block_lem fs buf v h in
      (count, text, λ rest. decode_facilities_block-encode fs buf rest v h)

-- On any bytes the block's decoder returns; it leaves bytes.
pub decode_facilities_block-Returns :
    (buf : Buf)
    → All IsByte buf
    → Returns (λ (fs, rest). All IsWellFormed fs × All IsByte rest) (decode_facilities_block buf)
unfolding decode_facilities_block
decode_facilities_block-Returns [] bytes = error
decode_facilities_block-Returns (len ∷ buf) (b, bytes) =
    Returns-bind
      (Returns-guard (not (ltb (length buf) len)) (facilities_block_incomplete (length buf)))
      λ _ _.
        Returns-bind (decode_facilities-Returns (take len buf) (All-take IsByte len buf bytes))
          λ fs v. value (v, All-drop IsByte len buf bytes)

pub decode_addr_block-Returns :
    (buf : Buf)
    → All IsByte buf
    → Returns
        (λ (called, calling, rest). IsValid called × IsValid calling × All IsByte rest)
        (decode_addr_block buf)
unfolding decode_addr_block
decode_addr_block-Returns [] bytes = error
decode_addr_block-Returns (lens ∷ buf) (b, bytes) =
    let high = bit_and lens 0xf0 / 16 in
    let low = bit_and lens 0x0f in
    let n = (low + high) / 2 + (low + high) % 2 in
    let digits = unpack (take n buf) in
    Returns-after (not (ltb (length buf) n)) (addr_block_incomplete (length buf)) λ _.
      Returns-bind (from_digits-Returns (take low digits)) λ called v.
        Returns-bind (from_digits-Returns (take high (drop low digits)))
          λ calling w. value (v, w, All-drop IsByte n buf bytes)

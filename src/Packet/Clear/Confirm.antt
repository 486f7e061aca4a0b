-- ===== src/Packet/Clear/Confirm.antt =====
-- A clear confirmation that is encoded is decoded to itself.
use xotpad.Base.{
  ℕ, ◌≤◌, ◌≡◌, arith, refl, false, true, [], ◌++◌, length, All, Buf, ok, not, is_empty, inl, inr,
  ltb, if◌then◌else◌, length-append, append_assoc, append-nil, Bool, Bool-cases, ◌||◌, ◌∙◌, Returns,
  value, Returns-bind, All-drop, drop, IsByte, Ensures, holds, Ensures-bind, Ensures-after,
  packet_too_long,
}
use xotpad.X121
use xotpad.X121.Digits
use xotpad.Seq.{X25Modulo}
use xotpad.Facility.Params.{IsWellFormed}
use xotpad.Packet.Header.{max_channel}
use xotpad.Packet.Header.Fields.{header, gfi_with, encode_packet_header-Ensures}
use xotpad.Packet.Blocks.Addresses.{addr_block, decode_addr_block-encode}
use xotpad.Packet.Blocks.Facilities.{facilities_block}
use xotpad.Packet.Call.{decode_optional_addr_block, decode_optional_facilities_block}
use xotpad.Packet.Call.Parts.{
  ReadsBack, check_len_lem, check_len-Returns, decode_optional_addr_block-Returns,
  decode_optional_facilities_block-Returns,
}
use xotpad.Packet.Clear.{X25ClearConfirm, encode_clear_confirm, decode_clear_confirm}
use xotpad.Packet.Clear.Parts.{
  put_addr_block-Ensures, put_facilities_block-Ensures, check_gfi_04, check_gfi-Returns,
}

pub record IsValid (p : X25ClearConfirm) : Type 0 where
  pub called : Digits.IsValid p.called_addr
  pub calling : Digits.IsValid p.calling_addr
  pub formed : All IsWellFormed p.facilities

abbrev has_addr : X25ClearConfirm → Bool
has_addr p = not (X121.is_null p.called_addr) || not (X121.is_null p.calling_addr)

abbrev has_facilities : X25ClearConfirm → Bool
has_facilities p = not (is_empty p.facilities)

abbrev addrs_of : X25ClearConfirm → Buf
addrs_of p = if has_addr p || has_facilities p then addr_block p.called_addr p.calling_addr else []

abbrev facilities_of : X25ClearConfirm → Buf
facilities_of p = if has_facilities p then facilities_block p.facilities else []

unfoldable pub bytes : X25ClearConfirm → Buf
bytes p = header p.modulo false false p.channel 0x17 (addrs_of p ++ facilities_of p)

pub record Encoded (p : X25ClearConfirm) (buf : Buf) (n : ℕ) (buf' : Buf) : Type 0 where
  pub in_range : p.channel ≤ max_channel
  pub text : buf' ≡ buf ++ bytes p
  pub count : n ≡ length (bytes p)
  pub short : n ≤ 259
  pub back : has_facilities p ≡ true → ReadsBack p.facilities

pub encode_clear_confirm-Ensures :
    (p : X25ClearConfirm) (buf : Buf)
    → IsValid p
    → Ensures (λ (n, buf'). Encoded p buf n buf') (encode_clear_confirm p buf)
unfolding encode_clear_confirm bytes
encode_clear_confirm-Ensures p buf v =
    Ensures-bind (encode_packet_header-Ensures p.modulo false false p.channel 0x17 buf)
      λ (hn, b1) (in_range, he, ht).
        Ensures-bind
          (put_addr_block-Ensures (has_addr p || has_facilities p) p.called_addr p.calling_addr hn
            b1 v.called v.calling)
          λ (an, b2) (ae, at).
            Ensures-bind
              (put_facilities_block-Ensures (has_facilities p) p.facilities an b2 v.formed)
              λ (fn, b3) (fe, ft, back).
                Ensures-after (not (ltb 259 fn)) (packet_too_long fn) λ short. holds (record {
                  in_range = in_range;
                  text = ft ∙ rw (at, ht) (simp append_assoc);
                  count = omega (arith, length-append (addrs_of p) (facilities_of p));
                  short = ground arith;
                  back = back;
                })

decode_addrs :
    (p : X25ClearConfirm)
    → IsValid p
    → decode_optional_addr_block (addrs_of p ++ facilities_of p)
      ≡ ok (p.called_addr, p.calling_addr, facilities_of p)
unfolding decode_optional_addr_block addr_block X121.is_null
decode_addrs p v = elim (Bool-cases (has_addr p || has_facilities p)) [
  | inl e ↦
      rw e
        (decode_addr_block-encode p.called_addr p.calling_addr (facilities_of p) v.called v.calling)
  | inr e ↦ ground arith
]

decode_fs :
    (p : X25ClearConfirm)
    → (has_facilities p ≡ true → ReadsBack p.facilities)
    → decode_optional_facilities_block (facilities_of p) ≡ ok (p.facilities, [])
unfolding decode_optional_facilities_block facilities_block
decode_fs p back = elim (Bool-cases (has_facilities p)) [
  | inl e ↦ rw e (rw append-nil at (back e []))
  | inr e ↦ ground arith
]

-- The decoder reads the packet back from bytes that are short enough.
pub decode_clear_confirm-bytes :
    (p : X25ClearConfirm)
    → IsValid p
    → length (bytes p) ≤ 259
    → (has_facilities p ≡ true → ReadsBack p.facilities)
    → decode_clear_confirm (bytes p) p.modulo (gfi_with p.modulo false false) p.channel 0x17 ≡ ok p
unfolding decode_clear_confirm bytes
decode_clear_confirm-bytes p v short back = rw (
  check_len_lem 3 259 (bytes p) (omega arith) short,
  check_gfi_04 p.modulo,
  decode_addrs p v,
  decode_fs p back,
)

-- On any bytes the decoder returns, with a valid packet.
pub decode_clear_confirm-Returns :
    (buf : Buf) (modulo : X25Modulo) (gfi channel : ℕ)
    → All IsByte buf
    → Returns
        (λ p. IsValid p × (p.modulo ≡ modulo) × (p.channel ≡ channel))
        (decode_clear_confirm buf modulo gfi channel 0x17)
unfolding decode_clear_confirm
decode_clear_confirm-Returns buf modulo gfi channel b =
    Returns-bind (check_len-Returns 3 259 buf) λ _ _.
      Returns-bind (check_gfi-Returns gfi 0x04) λ _ _.
        Returns-bind (decode_optional_addr_block-Returns (drop 3 buf) (All-drop IsByte 3 buf b))
          λ (called, calling, buf1) (v, w, b1).
            Returns-bind (decode_optional_facilities_block-Returns buf1 b1) λ (fs, buf2) (f, b2).
              value (record { called = v; calling = w; formed = f }, refl, refl)

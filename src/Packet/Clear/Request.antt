-- ===== src/Packet/Clear/Request.antt =====
-- A clear request that is encoded is decoded to itself.
use xotpad.Base.{
  ℕ, ◌+◌, ◌≤◌, ◌≡◌, arith, refl, false, true, [], ◌∷◌, ◌++◌, length, All, Buf, ok, inl, inr, ltb,
  ap, length-append, length-drop, append_assoc, Bool, Bool-cases, ◌||◌, ◌∙◌, Returns, value,
  Returns-bind, All-drop, drop, IsByte, Ensures, Ensures-bind, Ensures-weaken, get_u8-Returns,
  get_u8_or_zero,
}
use xotpad.X121.Digits
use xotpad.Seq.{X25Modulo}
use xotpad.Facility.Params.{IsWellFormed}
use xotpad.Packet.Header.{max_channel}
use xotpad.Packet.Header.Fields.{header, gfi_with, encode_packet_header-Ensures}
use xotpad.Packet.Call.{decode_optional_addr_block, decode_optional_facilities_block}
use xotpad.Packet.Call.Parts.{
  put_user_data-Ensures, encode_call_blocks-Ensures, call_blocks, ReadsBack, check_len_lem,
  check_len-Returns, remaining_lem, decode_optional_addr_block-Returns,
  decode_optional_facilities_block-Returns,
}
use xotpad.Packet.Call.Accept.{is_extended, decode_extended, absent_parts}
use xotpad.Packet.Clear.{X25ClearRequest, encode_clear_request, decode_clear_request}
use xotpad.Packet.Clear.Parts.{optional, put_optional_lem, check_gfi_04, check_gfi-Returns}

pub record IsValid (p : X25ClearRequest) : Type 0 where
  pub called : Digits.IsValid p.called_addr
  pub calling : Digits.IsValid p.calling_addr
  pub formed : All IsWellFormed p.facilities

abbrev present : X25ClearRequest → Bool
present p = is_extended p.called_addr p.calling_addr p.facilities p.clear_user_data

-- What follows the cause code.
unfoldable pub rest_of : X25ClearRequest → Buf
rest_of p =
    optional (ltb 0 p.diagnostic_code || present p) p.diagnostic_code
    ++ (call_blocks (present p) p.called_addr p.calling_addr p.facilities ++ p.clear_user_data)

unfoldable pub bytes : X25ClearRequest → Buf
bytes p = header p.modulo false false p.channel 0x13 (p.cause_code ∷ rest_of p)

pub record Encoded (p : X25ClearRequest) (buf : Buf) (n : ℕ) (buf' : Buf) : Type 0 where
  pub in_range : p.channel ≤ max_channel
  pub text : buf' ≡ buf ++ bytes p
  pub count : n ≡ length (bytes p)
  pub short : n ≤ 259
  pub back : present p ≡ true → ReadsBack p.facilities

pub encode_clear_request-Ensures :
    (p : X25ClearRequest) (buf : Buf)
    → IsValid p
    → Ensures (λ (n, buf'). Encoded p buf n buf') (encode_clear_request p buf)
unfolding encode_clear_request bytes rest_of
encode_clear_request-Ensures p buf v =
    let code = optional (ltb 0 p.diagnostic_code || present p) p.diagnostic_code in
    let blocks = call_blocks (present p) p.called_addr p.calling_addr p.facilities in
    Ensures-bind (encode_packet_header-Ensures p.modulo false false p.channel 0x13 buf)
      λ (hn, b1) (in_range, he, ht).
        let b2 = b1 ++ (p.cause_code ∷ []) in
        rw (put_optional_lem (ltb 0 p.diagnostic_code || present p) p.diagnostic_code (hn + 1) b2) (
          Ensures-bind
            (encode_call_blocks-Ensures (present p) p.called_addr p.calling_addr p.facilities
              (hn + 1 + length code) (b2 ++ code) v.called v.calling v.formed)
            λ (bn, b3) (be, bt, back).
              Ensures-weaken (put_user_data-Ensures p.clear_user_data bn b3)
                λ (n, b4) (ne, short, nt). record {
                  in_range = in_range;
                  text = nt ∙ rw (bt, ht) (simp append_assoc);
                  count = omega (
                    arith,
                    length-append code (blocks ++ p.clear_user_data),
                    length-append blocks p.clear_user_data,
                  );
                  short = short;
                  back = back;
                })

-- The diagnostic code is read back, and with it the end of the packet.
code_lem :
    (d : ℕ) (more : Bool) (tail : Buf)
    → (more ≡ false → tail ≡ [])
    → get_u8_or_zero (optional (ltb 0 d || more) d ++ tail) ≡ (d, tail)
code_lem d true tail h = ground arith
code_lem d false tail h = ground (arith, h refl)

nothing_left :
    (p : X25ClearRequest)
    → present p ≡ false
    → call_blocks (present p) p.called_addr p.calling_addr p.facilities ++ p.clear_user_data ≡ []
nothing_left p e =
    let (ca, cg, f, u) =
      absent_parts p.called_addr p.calling_addr p.facilities p.clear_user_data e in
    rw e u

remaining_bytes : (buf : Buf) → All IsByte buf → All IsByte (get_u8_or_zero buf).1
remaining_bytes [] b = tt
remaining_bytes (c ∷ buf) b = b.1

-- The decoder reads the packet back from bytes that are short enough.
pub decode_clear_request-bytes :
    (p : X25ClearRequest)
    → IsValid p
    → length (bytes p) ≤ 259
    → (present p ≡ true → ReadsBack p.facilities)
    → decode_clear_request (bytes p) p.modulo (gfi_with p.modulo false false) p.channel 0x13 ≡ ok p
unfolding decode_clear_request bytes rest_of
decode_clear_request-bytes p v short back =
    let tail =
      call_blocks (present p) p.called_addr p.calling_addr p.facilities ++ p.clear_user_data in
    rw
      (
        check_len_lem 4 259 (bytes p) (omega arith) short,
        check_gfi_04 p.modulo,
        code_lem p.diagnostic_code (present p) tail (nothing_left p),
      )
      (elim (Bool-cases (present p)) [
        | inl e ↦
            let (addrs, fs) =
              decode_extended p.called_addr p.calling_addr p.facilities p.clear_user_data v.called
                v.calling (back e) in
            rw (e, addrs, fs, remaining_lem p.clear_user_data)
        | inr e ↦
            let (ca, cg, f, u) =
              absent_parts p.called_addr p.calling_addr p.facilities p.clear_user_data e in
            rw (nothing_left p e) (
              unfold decode_optional_addr_block decode_optional_facilities_block in
              cc (ca, cg, f, u))
      ])

-- On any bytes the decoder returns, with a valid packet.
pub decode_clear_request-Returns :
    (buf : Buf) (modulo : X25Modulo) (gfi channel : ℕ)
    → All IsByte buf
    → Returns
        (λ p. IsValid p × (p.modulo ≡ modulo) × (p.channel ≡ channel))
        (decode_clear_request buf modulo gfi channel 0x13)
unfolding decode_clear_request
decode_clear_request-Returns buf modulo gfi channel b =
    Returns-bind (check_len-Returns 4 259 buf) λ _ (lo, hi).
      Returns-bind (check_gfi-Returns gfi 0x04) λ _ _.
        Returns-bind
          (get_u8-Returns (drop 3 buf) (λ e. omega (arith, length-drop 3 buf, ap length e)))
          λ (c, buf1) t.
            Returns-bind
              (decode_optional_addr_block-Returns _
                (remaining_bytes buf1 (rw t at (All-drop IsByte 3 buf b)).1))
              λ (called, calling, buf2) (v, w, b2).
                Returns-bind (decode_optional_facilities_block-Returns buf2 b2)
                  λ (fs, buf3) (f, b3).
                    value (record { called = v; calling = w; formed = f }, refl, refl)

-- ===== src/Packet/Call/Accept.antt =====
-- A call accepted packet that is encoded is decoded to itself.
use xotpad.Base.{
  ℕ, ◌≤◌, ◌≡◌, arith, refl, false, true, [], ◌++◌, length, All, Buf, ok, not, is_empty, inl, inr,
  List, length-append, append_assoc, Bool, Bool-cases, ◌||◌, ◌∙◌, Returns, value, Returns-bind,
  All-drop, drop, IsByte, Ensures, Ensures-bind, Ensures-weaken,
}
use xotpad.X121
use xotpad.X121.{X121Addr}
use xotpad.X121.Digits
use xotpad.Seq.{X25Modulo}
use xotpad.Facility.{X25Facility}
use xotpad.Facility.Params.{IsWellFormed}
use xotpad.Packet.Header.{max_channel}
use xotpad.Packet.Header.Fields.{header, encode_packet_header-Ensures}
use xotpad.Packet.Blocks.Addresses.{addr_block, decode_addr_block-encode}
use xotpad.Packet.Blocks.Facilities.{facilities_block}
use xotpad.Packet.Call.{
  X25CallAccept, encode_call_accept, decode_call_accept, decode_optional_addr_block,
  decode_optional_facilities_block,
}
use xotpad.Packet.Call.Parts.{
  put_user_data-Ensures, encode_call_blocks-Ensures, call_blocks, ReadsBack, check_len_lem,
  check_len-Returns, remaining_lem, decode_optional_addr_block-Returns,
  decode_optional_facilities_block-Returns,
}

pub record IsValid (p : X25CallAccept) : Type 0 where
  pub called : Digits.IsValid p.called_addr
  pub calling : Digits.IsValid p.calling_addr
  pub formed : All IsWellFormed p.facilities

-- The extended format is used when anything is to be sent in it.
abbrev pub is_extended : X121Addr → X121Addr → List X25Facility → Buf → Bool
is_extended called calling fs user_data =
    (not (X121.is_null called) || not (X121.is_null calling))
    || (not (is_empty fs) || not (is_empty user_data))

abbrev present : X25CallAccept → Bool
present p = is_extended p.called_addr p.calling_addr p.facilities p.called_user_data

unfoldable pub body : X25CallAccept → Buf
body p = call_blocks (present p) p.called_addr p.calling_addr p.facilities ++ p.called_user_data

unfoldable pub bytes : X25CallAccept → Buf
bytes p = header p.modulo false false p.channel 0x0f (body p)

pub record Encoded (p : X25CallAccept) (buf : Buf) (n : ℕ) (buf' : Buf) : Type 0 where
  pub in_range : p.channel ≤ max_channel
  pub text : buf' ≡ buf ++ bytes p
  pub count : n ≡ length (bytes p)
  pub short : n ≤ 259
  pub back : present p ≡ true → ReadsBack p.facilities

pub encode_call_accept-Ensures :
    (p : X25CallAccept) (buf : Buf)
    → IsValid p
    → Ensures (λ (n, buf'). Encoded p buf n buf') (encode_call_accept p buf)
unfolding encode_call_accept bytes body
encode_call_accept-Ensures p buf v =
    let blocks = call_blocks (present p) p.called_addr p.calling_addr p.facilities in
    Ensures-bind (encode_packet_header-Ensures p.modulo false false p.channel 0x0f buf)
      λ (hn, b1) (in_range, he, ht).
        Ensures-bind
          (encode_call_blocks-Ensures (present p) p.called_addr p.calling_addr p.facilities hn b1
            v.called v.calling v.formed)
          λ (bn, b2) (be, bt, back).
            Ensures-weaken (put_user_data-Ensures p.called_user_data bn b2)
              λ (n, b3) (ne, short, nt). record {
                in_range = in_range;
                text = nt ∙ rw (bt, ht) (simp append_assoc);
                count = omega (arith, length-append blocks p.called_user_data);
                short = short;
                back = back;
              }

-- The three optional parts behind the header are read back.
pub decode_extended :
    (called calling : X121Addr) (fs : List X25Facility) (user_data : Buf)
    → Digits.IsValid called
    → Digits.IsValid calling
    → ReadsBack fs
    → (decode_optional_addr_block ((addr_block called calling ++ facilities_block fs) ++ user_data)
        ≡ ok (called, calling, facilities_block fs ++ user_data))
      × (decode_optional_facilities_block (facilities_block fs ++ user_data) ≡ ok (fs, user_data))
unfolding decode_optional_addr_block decode_optional_facilities_block addr_block facilities_block
decode_extended called calling fs user_data v w back = (
  rw (append_assoc (addr_block called calling) (facilities_block fs) user_data)
      (decode_addr_block-encode called calling (facilities_block fs ++ user_data) v w),
  back user_data,
)

pub absent_parts :
    (called calling : X121Addr) (fs : List X25Facility) (user_data : Buf)
    → is_extended called calling fs user_data ≡ false
    → (called ≡ X121.null) × (calling ≡ X121.null) × (fs ≡ []) × (user_data ≡ [])
unfolding X121.is_null
absent_parts called calling fs user_data h = ground arith

-- The decoder reads the packet back from bytes that are short enough.
pub decode_call_accept-bytes :
    (p : X25CallAccept) (gfi : ℕ)
    → IsValid p
    → length (bytes p) ≤ 259
    → (present p ≡ true → ReadsBack p.facilities)
    → decode_call_accept (bytes p) p.modulo gfi p.channel 0x0f ≡ ok p
unfolding decode_call_accept bytes body
decode_call_accept-bytes p gfi v short back = elim (Bool-cases (present p)) [
  | inl e ↦
      let (addrs, fs) =
        decode_extended p.called_addr p.calling_addr p.facilities p.called_user_data v.called
          v.calling (back e) in
      rw (
        check_len_lem 3 259 (bytes p) (omega arith) short,
        e,
        addrs,
        fs,
        remaining_lem p.called_user_data,
      )
  | inr e ↦
      let (ca, cg, f, u) =
        absent_parts p.called_addr p.calling_addr p.facilities p.called_user_data e in
      rw (check_len_lem 3 259 (bytes p) (omega arith) short, e, u)
        (unfold decode_optional_addr_block decode_optional_facilities_block in cc (ca, cg, f))
]

-- On any bytes the decoder returns, with a valid packet.
pub decode_call_accept-Returns :
    (buf : Buf) (modulo : X25Modulo) (gfi channel : ℕ)
    → All IsByte buf
    → Returns
        (λ p. IsValid p × (p.modulo ≡ modulo) × (p.channel ≡ channel))
        (decode_call_accept buf modulo gfi channel 0x0f)
unfolding decode_call_accept
decode_call_accept-Returns buf modulo gfi channel b =
    Returns-bind (check_len-Returns 3 259 buf) λ _ _.
      Returns-bind (decode_optional_addr_block-Returns (drop 3 buf) (All-drop IsByte 3 buf b))
        λ (called, calling, buf1) (v, w, b1).
          Returns-bind (decode_optional_facilities_block-Returns buf1 b1)
            λ (fs, buf2) (f, b2). value (record { called = v; calling = w; formed = f }, refl, refl)

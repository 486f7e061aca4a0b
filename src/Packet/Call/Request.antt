-- ===== src/Packet/Call/Request.antt =====
-- A call request that is encoded is decoded to itself.
use xotpad.Base.{
  ℕ, ◌+◌, ◌≤◌, ◌≡◌, arith, refl, false, ◌++◌, length, All, Buf, ok, length-append, append_assoc,
  ◌∙◌, Returns, value, Returns-bind, All-drop, drop, IsByte, Ensures, Ensures-bind, Ensures-weaken,
}
use xotpad.X121.Digits
use xotpad.Seq.{X25Modulo}
use xotpad.Facility.Params.{IsWellFormed}
use xotpad.Packet.Header.{max_channel}
use xotpad.Packet.Header.Fields.{header, encode_packet_header-Ensures}
use xotpad.Packet.Blocks.{decode_facilities_block}
use xotpad.Packet.Blocks.Addresses.{
  addr_block, encode_addr_block-Ensures, decode_addr_block-encode, length-addr_block_pos,
}
use xotpad.Packet.Blocks.Facilities.{
  facilities_block, encode_facilities_block-Ensures, length-facilities_block_pos,
  decode_facilities_block-Returns, decode_addr_block-Returns,
}
use xotpad.Packet.Call.{X25CallRequest, encode_call_request, decode_call_request}
use xotpad.Packet.Call.Parts.{
  put_user_data-Ensures, check_len_lem, check_len-Returns, remaining_lem,
}

-- The addresses are valid and the facilities are well formed.
pub record IsValid (p : X25CallRequest) : Type 0 where
  pub called : Digits.IsValid p.called_addr
  pub calling : Digits.IsValid p.calling_addr
  pub formed : All IsWellFormed p.facilities

unfoldable pub body : X25CallRequest → Buf
body p =
    addr_block p.called_addr p.calling_addr ++ (facilities_block p.facilities ++ p.call_user_data)

unfoldable pub bytes : X25CallRequest → Buf
bytes p = header p.modulo false false p.channel 0x0b (body p)

-- What a successful run of the encoder went through.
pub record Encoded (p : X25CallRequest) (buf : Buf) (n : ℕ) (buf' : Buf) : Type 0 where
  pub in_range : p.channel ≤ max_channel
  pub text : buf' ≡ buf ++ bytes p
  pub count : n ≡ length (bytes p)
  pub short : n ≤ 259
  pub back :
      (rest : Buf)
      → decode_facilities_block (facilities_block p.facilities ++ rest) ≡ ok (p.facilities, rest)

pub encode_call_request-Ensures :
    (p : X25CallRequest) (buf : Buf)
    → IsValid p
    → Ensures (λ (n, buf'). Encoded p buf n buf') (encode_call_request p buf)
unfolding encode_call_request bytes body
encode_call_request-Ensures p buf v =
    Ensures-bind (encode_packet_header-Ensures p.modulo false false p.channel 0x0b buf)
      λ (hn, b1) (in_range, he, ht).
        Ensures-bind (encode_addr_block-Ensures p.called_addr p.calling_addr b1 v.called v.calling)
          λ (an, b2) (ae, at).
            Ensures-bind (encode_facilities_block-Ensures p.facilities b2 v.formed)
              λ (fn, b3) (fe, ft, back).
                Ensures-weaken (put_user_data-Ensures p.call_user_data (hn + an + fn) b3)
                  λ (n, b4) (ne, short, nt). record {
                    in_range = in_range;
                    text = nt ∙ rw (ft, at, ht) (simp append_assoc);
                    count = omega (
                      arith,
                      length-append (addr_block p.called_addr p.calling_addr)
                          (facilities_block p.facilities ++ p.call_user_data),
                      length-append (facilities_block p.facilities) p.call_user_data,
                    );
                    short = short;
                    back = back;
                  }

-- The decoder reads the packet back from bytes that are short enough.
pub decode_call_request-bytes :
    (p : X25CallRequest) (gfi : ℕ)
    → IsValid p
    → length (bytes p) ≤ 259
    → ((rest : Buf)
        → decode_facilities_block (facilities_block p.facilities ++ rest) ≡ ok (p.facilities, rest))
    → decode_call_request (bytes p) p.modulo gfi p.channel 0x0b ≡ ok p
unfolding decode_call_request bytes body
decode_call_request-bytes p gfi v short back =
    let tail = facilities_block p.facilities ++ p.call_user_data in
    let long : 5 ≤ length (bytes p) = omega (
      arith,
      length-append (addr_block p.called_addr p.calling_addr) tail,
      length-append (facilities_block p.facilities) p.call_user_data,
      length-addr_block_pos p.called_addr p.calling_addr,
      length-facilities_block_pos p.facilities,
    ) in
    rw (
      check_len_lem 5 259 (bytes p) long short,
      decode_addr_block-encode p.called_addr p.calling_addr tail v.called v.calling,
      back p.call_user_data,
      remaining_lem p.call_user_data,
    )

-- On any bytes the decoder returns, with a valid packet.
pub decode_call_request-Returns :
    (buf : Buf) (modulo : X25Modulo) (gfi channel : ℕ)
    → All IsByte buf
    → Returns
        (λ p. IsValid p × (p.modulo ≡ modulo) × (p.channel ≡ channel))
        (decode_call_request buf modulo gfi channel 0x0b)
unfolding decode_call_request
decode_call_request-Returns buf modulo gfi channel b =
    Returns-bind (check_len-Returns 5 259 buf) λ _ _.
      Returns-bind (decode_addr_block-Returns (drop 3 buf) (All-drop IsByte 3 buf b))
        λ (called, calling, buf1) (v, w, b1).
          Returns-bind (decode_facilities_block-Returns buf1 b1)
            λ (fs, buf2) (f, b2). value (record { called = v; calling = w; formed = f }, refl, refl)

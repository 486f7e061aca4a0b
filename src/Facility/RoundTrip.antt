-- ===== src/Facility/RoundTrip.antt =====
-- What `encode_facilities` writes, `decode_facilities` reads back.
use xotpad.Base.{
  ℕ, zero, suc, ◌+◌, ◌≤◌, ◌≡◌, arith, sym, ap, ◌∙◌, List, [], ◌∷◌, ◌++◌, length, All, Buf, ok,
  length-append, append_assoc, append-nil, >>=-eq-ok, false, not, contains, guard,
  facilities_not_unique,
}
use xotpad.Facility.{
  X25Facility, get_code, encode_params, encode_loop, encode_facilities, decode_loop,
  decode_facilities,
}
use xotpad.Facility.Params.{wire, IsWellFormed, encode_params-wire, decode_facility-wire}

-- The bytes of all the facilities, one after the other.
unfoldable pub wire_all : List X25Facility → Buf
wire_all [] = []
wire_all (f ∷ fs) = get_code f ∷ (wire f ++ wire_all fs)

-- One round of the encoder that went well.
record Round (f : X25Facility) (fs : List X25Facility) (codes : List ℕ) (len : ℕ) (buf : Buf)
    (r : ℕ × Buf) : Type 0 where
  fresh : contains codes (get_code f) ≡ false
  params : ℕ × Buf
  wrote : encode_params f (buf ++ (get_code f ∷ [])) ≡ ok params
  after : encode_loop fs (get_code f ∷ codes) (len + (1 + params.0)) params.1 ≡ ok r

round :
    (f : X25Facility) (fs : List X25Facility) (codes : List ℕ) (len : ℕ) (buf : Buf) {r : ℕ × Buf}
    → encode_loop (f ∷ fs) codes len buf ≡ ok r
    → Round f fs codes len buf r
unfolding encode_loop
round f fs codes len buf h =
    let (u, unique, more) =
      >>=-eq-ok (guard (not (contains codes (get_code f))) facilities_not_unique) _ h in
    let (p, wrote, after) = >>=-eq-ok (encode_params f (buf ++ (get_code f ∷ []))) _ more in
    record { fresh = ground arith; params = p; wrote = wrote; after = after }

pub encode_loop-wire :
    (fs : List X25Facility) (codes : List ℕ) (len : ℕ) (buf : Buf) {n : ℕ} {buf' : Buf}
    → encode_loop fs codes len buf ≡ ok (n, buf')
    → (buf' ≡ buf ++ wire_all fs) × (n ≡ len + length (wire_all fs))
unfolding wire_all
encode_loop-wire [] codes len buf h = unfold encode_loop in ground (arith, append-nil buf)
encode_loop-wire (f ∷ fs) codes len buf h =
    let r = round f fs codes len buf h in
    let (text, count) = encode_params-wire f _ r.wrote in
    let (all_text, all_count) = encode_loop-wire fs _ _ _ r.after in
    (all_text ∙ rw text (simp append_assoc), omega (arith, length-append (wire f) (wire_all fs)))

pub decode_loop-wire :
    (fs : List X25Facility) (codes : List ℕ) (len : ℕ) (buf : Buf) (fuel : ℕ)
    (out : List X25Facility) {r : ℕ × Buf}
    → All IsWellFormed fs
    → encode_loop fs codes len buf ≡ ok r
    → length (wire_all fs) ≤ fuel
    → decode_loop fuel codes out (wire_all fs) ≡ ok (out ++ fs)
unfolding wire_all decode_loop
decode_loop-wire [] codes len buf fuel out v h enough = ap ok (sym (append-nil out))
decode_loop-wire (f ∷ fs) codes len buf zero out v h enough = absurd (omega arith)
decode_loop-wire (f ∷ fs) codes len buf (suc fuel) out (vf, vfs) h enough =
    let r = round f fs codes len buf h in
    ground (
      arith,
      r.fresh,
      decode_facility-wire f _ (wire_all fs) vf r.wrote,
      length-append (wire f) (wire_all fs),
      append_assoc out (f ∷ []) fs,
      decode_loop-wire fs _ _ _ fuel (out ++ (f ∷ [])) vfs r.after,
    )

-- The block that `encode_facilities` writes behind `buf` for well-formed facilities, when it returns
-- one, decodes to the same facilities, and the length returned is the block's.
pub decode_facilities-encode :
    (fs : List X25Facility) (buf : Buf) {n : ℕ} {buf' : Buf}
    → All IsWellFormed fs
    → encode_facilities fs buf ≡ ok (n, buf')
    → (buf' ≡ buf ++ wire_all fs)
      × (n ≡ length (wire_all fs))
      × (decode_facilities (wire_all fs) ≡ ok fs)
unfolding encode_facilities decode_facilities
decode_facilities-encode fs buf v h =
    let (text, count) = encode_loop-wire fs [] 0 buf h in
    (text, omega arith, decode_loop-wire fs [] 0 buf _ [] v h (omega arith))

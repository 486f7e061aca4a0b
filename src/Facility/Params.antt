-- ===== src/Facility/Params.antt =====
-- One facility: what its encoder writes, and that the decoder reads it back.
use xotpad.Base.{
  ℕ, ◌≤◌, ◌≡◌, ◌≢◌, ◌⊎◌, ◌^◌, arith, [], ◌∷◌, ◌++◌, length, IsByte, Buf, ok, take-length_append,
  drop-length_append, length-append, append_assoc, >>=-eq-ok,
}
use xotpad.Base.Bits.{and_c0}
use xotpad.Facility.{
  X25Facility, packet_size, window_size, class_a, class_b, class_c, class_d, get_code,
  encode_packet_size, decode_packet_size, encode_params, decode_facility, decode_class_d_params,
}

pub encode_packet_size_lem :
    (size : ℕ) {e : ℕ}
    → encode_packet_size size ≡ ok e
    → (decode_packet_size e ≡ ok size) × (e ≤ 12)
unfolding encode_packet_size decode_packet_size
encode_packet_size_lem size h = ground arith

-- The nine powers of two, for a tactic that computes `2 ^ e` at numerals only.
powers :
    (e : ℕ)
    → (e ≡ 4 → 2 ^ e ≡ 16)
      × (e ≡ 5 → 2 ^ e ≡ 32)
      × (e ≡ 6 → 2 ^ e ≡ 64)
      × (e ≡ 7 → 2 ^ e ≡ 128)
      × (e ≡ 8 → 2 ^ e ≡ 256)
      × (e ≡ 9 → 2 ^ e ≡ 512)
      × (e ≡ 10 → 2 ^ e ≡ 1024)
      × (e ≡ 11 → 2 ^ e ≡ 2048)
      × (e ≡ 12 → 2 ^ e ≡ 4096)
powers e = (
  λ h. rw h,
  λ h. rw h,
  λ h. rw h,
  λ h. rw h,
  λ h. rw h,
  λ h. rw h,
  λ h. rw h,
  λ h. rw h,
  λ h. rw h,
)

nine_cases :
    (e : ℕ)
    → 4 ≤ e
    → e ≤ 12
    → ((e ≡ 4) × (2 ^ e ≡ 16))
      ⊎ (((e ≡ 5) × (2 ^ e ≡ 32))
          ⊎ (((e ≡ 6) × (2 ^ e ≡ 64))
              ⊎ (((e ≡ 7) × (2 ^ e ≡ 128))
                  ⊎ (((e ≡ 8) × (2 ^ e ≡ 256))
                      ⊎ (((e ≡ 9) × (2 ^ e ≡ 512))
                          ⊎ (((e ≡ 10) × (2 ^ e ≡ 1024))
                              ⊎ (((e ≡ 11) × (2 ^ e ≡ 2048)) ⊎ ((e ≡ 12) × (2 ^ e ≡ 4096)))))))))
nine_cases e lo hi = ground (arith, powers e)

pub decode_packet_size_lem :
    (e : ℕ) {size : ℕ} → decode_packet_size e ≡ ok size → encode_packet_size size ≡ ok e
unfolding encode_packet_size decode_packet_size
decode_packet_size_lem e h = ground (arith, nine_cases e)

-- The exponent that stands for a packet size that is allowed.
unfoldable pub exponent : ℕ → ℕ
exponent size = elim (encode_packet_size size) [ ok e ↦ e | _ ↦ 0 ]

pub exponent_lem : (size : ℕ) {e : ℕ} → encode_packet_size size ≡ ok e → exponent size ≡ e
unfolding exponent
exponent_lem size h = rw (h, exponent)

-- The bytes of a facility behind its code.
unfoldable pub wire : X25Facility → Buf
wire (packet_size from_called from_calling) = exponent from_called ∷ exponent from_calling ∷ []
wire (window_size from_called from_calling) = from_called ∷ from_calling ∷ []
wire (class_a code a) = a ∷ []
wire (class_b code a b) = a ∷ b ∷ []
wire (class_c code a b c) = a ∷ b ∷ c ∷ []
wire (class_d code params) = length params ∷ params

-- The code is a byte, and a generic facility of class B does not carry one of the two codes that
-- have constructors of their own.
abbrev pub IsWellFormed : X25Facility → Type 0
IsWellFormed (packet_size _ _) = Unit {0}
IsWellFormed (window_size _ _) = Unit {0}
IsWellFormed (class_a code _) = IsByte code
IsWellFormed (class_b code _ _) = IsByte code × (code ≢ 0x42) × (code ≢ 0x43)
IsWellFormed (class_c code _ _ _) = IsByte code
IsWellFormed (class_d code _) = IsByte code

pub encode_params-wire :
    (f : X25Facility) (buf : Buf) {n : ℕ} {buf' : Buf}
    → encode_params f buf ≡ ok (n, buf')
    → (buf' ≡ buf ++ wire f) × (n ≡ length (wire f))
unfolding encode_params wire
encode_params-wire (packet_size p q) buf h =
    let (a, pa, more) = >>=-eq-ok (encode_packet_size p) _ h in
    let (b, qb, done) = >>=-eq-ok (encode_packet_size q) _ more in
    ground (
      arith,
      exponent_lem p pa,
      exponent_lem q qb,
      append_assoc buf (exponent p ∷ []) (exponent q ∷ []),
    )
encode_params-wire (window_size p q) buf h = ground (arith, append_assoc buf (p ∷ []) (q ∷ []))
encode_params-wire (class_a code a) buf h = ground arith
encode_params-wire (class_b code a b) buf h = ground (arith, append_assoc buf (a ∷ []) (b ∷ []))
encode_params-wire (class_c code a b c) buf h =
    ground (arith, append_assoc buf (a ∷ []) (b ∷ []), append_assoc buf (a ∷ b ∷ []) (c ∷ []))
encode_params-wire (class_d code params) buf h =
    ground (arith, append_assoc buf (length params ∷ []) params)

decode_class_d_params-wire :
    (params rest : Buf)
    → decode_class_d_params (length params ∷ (params ++ rest)) ≡ ok (params, rest)
unfolding decode_class_d_params
decode_class_d_params-wire params rest = ground (
  arith,
  length-append params rest,
  take-length_append params rest,
  drop-length_append params rest,
)

pub decode_facility-wire :
    (f : X25Facility) (buf rest : Buf) {r : ℕ × Buf}
    → IsWellFormed f
    → encode_params f buf ≡ ok r
    → decode_facility (get_code f) (wire f ++ rest) ≡ ok (f, rest)
unfolding encode_params decode_facility wire get_code
decode_facility-wire (packet_size p q) buf rest v h =
    let (a, pa, more) = >>=-eq-ok (encode_packet_size p) _ h in
    let (b, qb, done) = >>=-eq-ok (encode_packet_size q) _ more in
    let size_p = (encode_packet_size_lem p pa).0 in
    let size_q = (encode_packet_size_lem q qb).0 in
    cc (exponent_lem p pa, exponent_lem q qb, size_p, size_q)
decode_facility-wire (window_size p q) buf rest v h = ground arith
decode_facility-wire (class_a code a) buf rest v h = ground (arith, and_c0 code)
decode_facility-wire (class_b code a b) buf rest v h = ground (arith, and_c0 code)
decode_facility-wire (class_c code a b c) buf rest v h = ground (arith, and_c0 code)
decode_facility-wire (class_d code params) buf rest v h =
    ground (arith, and_c0 code, decode_class_d_params-wire params rest)

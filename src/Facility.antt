-- ===== src/Facility.antt =====
-- Facilities: libxotpad/src/x25/facility.rs.
-- A `HashSet<u8>` is the list of the codes inserted. An encoder returns how many bytes it wrote and
-- the buffer; on an error the source leaves its buffer "in a bad state", and the model drops it.
pub mod Params
pub mod RoundTrip
pub mod Sound
use xotpad.Base.{
  ℕ, zero, suc, ◌+◌, ◌/◌, ◌^◌, Bool, not, ◌&&◌, List, [], ◌∷◌, ◌++◌, length, take, drop, ltb, leb,
  ◌==◌, if◌then◌else◌, contains, Buf, put_u8, bit_and, Result, ok, err, panic, stuck, ◌>>=◌, ◌>>◌,
  guard, assert, facilities_not_unique, invalid_window_size, invalid_packet_size,
  facility_too_short, facility_incomplete, parameters_too_long,
}

pub data X25Facility : Type 0 where
  packet_size : (from_called from_calling : ℕ) → X25Facility
  window_size : (from_called from_calling : ℕ) → X25Facility
  class_a : (code a : ℕ) → X25Facility
  class_b : (code a b : ℕ) → X25Facility
  class_c : (code a b c : ℕ) → X25Facility
  class_d : (code : ℕ) (params : Buf) → X25Facility

unfoldable pub get_code : X25Facility → ℕ
get_code (packet_size _ _) = 0x42
get_code (window_size _ _) = 0x43
get_code (class_a code _) = code
get_code (class_b code _ _) = code
get_code (class_c code _ _ _) = code
get_code (class_d code _) = code

abbrev pub is_class_a_code : ℕ → Bool
is_class_a_code code = bit_and code 0xc0 / 64 == 0

abbrev pub is_class_b_code : ℕ → Bool
is_class_b_code code = bit_and code 0xc0 / 64 == 1

abbrev pub is_class_c_code : ℕ → Bool
is_class_c_code code = bit_and code 0xc0 / 64 == 2

abbrev pub is_class_d_code : ℕ → Bool
is_class_d_code code = bit_and code 0xc0 / 64 == 3

unfoldable pub encode_packet_size : ℕ → Result ℕ
encode_packet_size size =
    if size == 16
    then ok 4
    else if size == 32
    then ok 5
    else if size == 64
    then ok 6
    else if size == 128
    then ok 7
    else if size == 256
    then ok 8
    else if size == 512
    then ok 9
    else if size == 1024
    then ok 10
    else if size == 2048
    then ok 11
    else if size == 4096
    then ok 12
    else err (invalid_packet_size size)

unfoldable pub decode_packet_size : ℕ → Result ℕ
decode_packet_size size =
    if not (leb 4 size && leb size 12) then err (invalid_packet_size size) else ok (2 ^ size)

unfoldable pub encode_class_a_params : ℕ → Buf → ℕ × Buf
encode_class_a_params a buf = (1, put_u8 buf a)

unfoldable pub encode_class_b_params : ℕ → ℕ → Buf → ℕ × Buf
encode_class_b_params a b buf = (2, put_u8 (put_u8 buf a) b)

unfoldable pub encode_class_c_params : ℕ → ℕ → ℕ → Buf → ℕ × Buf
encode_class_c_params a b c buf = (3, put_u8 (put_u8 (put_u8 buf a) b) c)

-- The message prints the length of the buffer, not that of the parameters.
unfoldable pub encode_class_d_params : Buf → Buf → Result (ℕ × Buf)
encode_class_d_params params buf =
    if ltb 255 (length params)
    then err (parameters_too_long (length buf))
    else ok (1 + length params, put_u8 buf (length params) ++ params)

unfoldable pub decode_class_a_params : Buf → Result (ℕ × Buf)
decode_class_a_params [] = err (facility_too_short 0)
decode_class_a_params (a ∷ buf) = ok (a, buf)

unfoldable pub decode_class_b_params : Buf → Result (ℕ × ℕ × Buf)
decode_class_b_params (a ∷ b ∷ buf) = ok (a, b, buf)
decode_class_b_params buf = err (facility_too_short (length buf))

unfoldable pub decode_class_c_params : Buf → Result (ℕ × ℕ × ℕ × Buf)
decode_class_c_params (a ∷ b ∷ c ∷ buf) = ok (a, b, c, buf)
decode_class_c_params buf = err (facility_too_short (length buf))

unfoldable pub decode_class_d_params : Buf → Result (Buf × Buf)
decode_class_d_params [] = err (facility_too_short 0)
decode_class_d_params (len ∷ buf) =
    if ltb (length buf) len
    then err (facility_incomplete (length buf))
    else ok (take len buf, drop len buf)

-- `(1..=127).contains(&size)`, or the error.
unfoldable pub check_window_size : ℕ → Result (Unit {0})
check_window_size size = guard (leb 1 size && leb size 127) (invalid_window_size size)

-- The `match facility` of `encode_facilities`, after the code is written.
unfoldable pub encode_params : X25Facility → Buf → Result (ℕ × Buf)
unfolding encode_class_a_params encode_class_b_params encode_class_c_params encode_class_d_params
    check_window_size
encode_params (packet_size from_called from_calling) buf = do
  a ← encode_packet_size from_called
  b ← encode_packet_size from_calling
  ok (encode_class_b_params a b buf)
encode_params (window_size from_called from_calling) buf = do
  check_window_size from_called
  check_window_size from_calling
  ok (encode_class_b_params from_called from_calling buf)
encode_params (class_a code a) buf = do
  assert (is_class_a_code code)
  ok (encode_class_a_params a buf)
encode_params (class_b code a b) buf = do
  assert (is_class_b_code code)
  ok (encode_class_b_params a b buf)
encode_params (class_c code a b c) buf = do
  assert (is_class_c_code code)
  ok (encode_class_c_params a b c buf)
encode_params (class_d code params) buf = do
  assert (is_class_d_code code)
  encode_class_d_params params buf

-- The loop of `encode_facilities`; `len` counts what it has written.
unfoldable pub encode_loop : List X25Facility → List ℕ → ℕ → Buf → Result (ℕ × Buf)
encode_loop [] codes len buf = ok (len, buf)
encode_loop (facility ∷ facilities) codes len buf = do
  guard (not (contains codes (get_code facility))) facilities_not_unique
  (params_len, buf') ← encode_params facility (put_u8 buf (get_code facility))
  encode_loop facilities (get_code facility ∷ codes) (len + (1 + params_len)) buf'

unfoldable pub encode_facilities : List X25Facility → Buf → Result (ℕ × Buf)
encode_facilities facilities buf = encode_loop facilities [] 0 buf

-- One facility behind its code: the `if` chain of `decode_facilities`.
unfoldable pub decode_facility : ℕ → Buf → Result (X25Facility × Buf)
unfolding decode_class_a_params decode_class_b_params decode_class_c_params check_window_size
decode_facility code buf =
    if code == 0x42
    then (do
      (a, b, rest) ← decode_class_b_params buf
      from_called ← decode_packet_size a
      from_calling ← decode_packet_size b
      ok (packet_size from_called from_calling, rest))
    else if code == 0x43
    then (do
      (a, b, rest) ← decode_class_b_params buf
      check_window_size a
      check_window_size b
      ok (window_size a b, rest))
    else if is_class_a_code code
    then (do (a, rest) ← decode_class_a_params buf; ok (class_a code a, rest))
    else if is_class_b_code code
    then (do (a, b, rest) ← decode_class_b_params buf; ok (class_b code a b, rest))
    else if is_class_c_code code
    then (do (a, b, c, rest) ← decode_class_c_params buf; ok (class_c code a b c, rest))
    else if is_class_d_code code
    then (do (params, rest) ← decode_class_d_params buf; ok (class_d code params, rest))
    else panic

-- The `while` loop, on fuel; `out` is the vector that it pushes to.
unfoldable pub decode_loop : ℕ → List ℕ → List X25Facility → Buf → Result (List X25Facility)
decode_loop fuel codes out [] = ok out
decode_loop zero codes out (code ∷ buf) = stuck
decode_loop (suc fuel) codes out (code ∷ buf) = do
  guard (not (contains codes code)) facilities_not_unique
  (facility, rest) ← decode_facility code buf
  decode_loop fuel (code ∷ codes) (out ++ (facility ∷ [])) rest

-- Each round takes two bytes at least, so the length of the buffer is enough fuel.
unfoldable pub decode_facilities : Buf → Result (List X25Facility)
decode_facilities buf = decode_loop (length buf) [] [] buf

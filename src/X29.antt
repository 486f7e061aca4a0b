-- ===== src/X29.antt =====
-- X.29 messages between PADs, and the user data of a call: libxotpad/src/x29.rs.
pub mod Bytes
pub mod RoundTrip
pub mod Sound
use xotpad.Base.{
  ℕ, ◌+◌, ◌%◌, Bool, true, false, not, ◌&&◌, List, [], ◌∷◌, ◌++◌, length, take, drop, map, all, ltb,
  ◌==◌, if◌then◌else◌, Buf, put_u8, is_empty, bit_and, bit_or, Result, ok, err, panic, ◌>>=◌, ◌>>◌,
  guard, call_data_too_long, call_user_data_too_short, message_too_short, message_too_long,
  invalid_read_request, unrecognized_message, odd_number_of_bytes,
}
use xotpad.X3.{X3ParamError, unsupported, invalid_value, other, Checked, valid, invalid}

pub record X29CallUserData : Type 0 where
  pub protocol : Buf
  pub call_data : Buf

abbrev pub pad_protocol : Buf
pad_protocol = 0x01 ∷ 0x00 ∷ 0x00 ∷ 0x00 ∷ []

-- Equality of byte arrays.
unfoldable pub buf_eq : Buf → Buf → Bool
buf_eq [] [] = true
buf_eq (a ∷ left) (b ∷ right) = a == b && buf_eq left right
buf_eq _ _ = false

unfoldable pub with_call_data : Buf → Result X29CallUserData
with_call_data call_data = do
  guard (not (ltb 12 (length call_data))) call_data_too_long
  ok (record { protocol = pad_protocol; call_data = call_data })

unfoldable pub is_pad_protocol : X29CallUserData → Bool
unfolding buf_eq
is_pad_protocol d = buf_eq d.protocol pad_protocol

unfoldable pub encode_call_user_data : X29CallUserData → Buf → ℕ × Buf
encode_call_user_data d buf = (4 + length d.call_data, buf ++ d.protocol ++ d.call_data)

unfoldable pub decode_call_user_data : Buf → Result X29CallUserData
decode_call_user_data buf = do
  guard (not (ltb (length buf) 4)) (call_user_data_too_short (length buf))
  ok (record { protocol = take 4 buf; call_data = drop 4 buf })

pub data X29PadMessage : Type 0 where
  set : List (ℕ × ℕ) → X29PadMessage
  read : List ℕ → X29PadMessage
  set_read : List (ℕ × ℕ) → X29PadMessage
  indicate : List (ℕ × Checked ℕ) → X29PadMessage
  clear_invitation : X29PadMessage

-- The loop of `encode_params_request`, with the length so far.
unfoldable pub encode_params_request : List (ℕ × ℕ) → ℕ → Buf → Result (ℕ × Buf)
encode_params_request [] len buf = ok (len, buf)
encode_params_request ((param, value) ∷ request) len buf =
    if ltb 0x7f param
    then panic
    else encode_params_request request (len + 2) (put_u8 (put_u8 buf param) value)

unfoldable pub response_code : ℕ → Checked ℕ → ℕ
response_code param (valid _) = param
response_code param (invalid _) = bit_or param 0x80

unfoldable pub response_value : Checked ℕ → ℕ
response_value (valid value) = value
response_value (invalid unsupported) = 1
response_value (invalid invalid_value) = 2
response_value (invalid other) = 0

unfoldable pub encode_params_response : List (ℕ × Checked ℕ) → ℕ → Buf → Result (ℕ × Buf)
unfolding response_code response_value
encode_params_response [] len buf = ok (len, buf)
encode_params_response ((param, value) ∷ response) len buf =
    if ltb 0x7f param
    then panic
    else encode_params_response response (len + 2)
        (put_u8 (put_u8 buf (response_code param value)) (response_value value))

-- `1 + len`
abbrev pub add_code : ℕ × Buf → Result (ℕ × Buf)
add_code (len, buf) = ok (1 + len, buf)

unfoldable pub encode : X29PadMessage → Buf → Result (ℕ × Buf)
encode (set request) buf = encode_params_request request 0 (put_u8 buf 0x02) >>= add_code
encode (read request) buf =
    encode_params_request (map (λ p. (p, 0)) request) 0 (put_u8 buf 0x04) >>= add_code
encode (set_read request) buf = encode_params_request request 0 (put_u8 buf 0x06) >>= add_code
encode (indicate response) buf = encode_params_response response 0 (put_u8 buf 0x00) >>= add_code
encode clear_invitation buf = ok (1, put_u8 buf 0x01)

-- The loop of `decode_params_request`: the second `get_u8` of a round panics on an empty buffer.
unfoldable pub decode_request_loop : Buf → List (ℕ × ℕ) → Result (List (ℕ × ℕ))
decode_request_loop [] request = ok request
decode_request_loop (param ∷ []) request = panic
decode_request_loop (param ∷ value ∷ buf) request =
    decode_request_loop buf (request ++ ((param, value) ∷ []))

unfoldable pub decode_params_request : Buf → Result (List (ℕ × ℕ))
decode_params_request buf = do
  guard (length buf % 2 == 0) odd_number_of_bytes
  decode_request_loop buf []

unfoldable pub response_of : ℕ → ℕ → ℕ × Checked ℕ
response_of param value = if bit_and param 0x80 == 0 then (param, valid value) else (
  bit_and param 0x7f,
  invalid (if value == 1 then unsupported else if value == 2 then invalid_value else other),
)

unfoldable pub decode_response_loop : Buf → List (ℕ × Checked ℕ) → Result (List (ℕ × Checked ℕ))
decode_response_loop [] response = ok response
decode_response_loop (param ∷ []) response = panic
decode_response_loop (param ∷ value ∷ buf) response =
    decode_response_loop buf (response ++ (response_of param value ∷ []))

unfoldable pub decode_params_response : Buf → Result (List (ℕ × Checked ℕ))
decode_params_response buf = do
  guard (length buf % 2 == 0) odd_number_of_bytes
  decode_response_loop buf []

abbrev pub value_of : ℕ × ℕ → ℕ
value_of (param, value) = value

abbrev pub param_of {ℓ} : {A : Type ℓ} → ℕ × A → ℕ
param_of (param, value) = param

-- The `match` on the code.
unfoldable pub decode_code : ℕ → Buf → Result X29PadMessage
decode_code code buf =
    if code == 0x02
    then (decode_params_request buf >>= λ request. ok (set request))
    else if code == 0x04
    then (do
      request ← decode_params_request buf
      guard (all (λ p. value_of p == 0) request) invalid_read_request
      ok (read (map param_of request)))
    else if code == 0x06
    then (decode_params_request buf >>= λ request. ok (set_read request))
    else if code == 0x00
    then (decode_params_response buf >>= λ response. ok (indicate response))
    else if code == 0x01
    then (guard (is_empty buf) (message_too_long (length buf)) >> ok clear_invitation)
    else err (unrecognized_message code)

unfoldable pub decode : Buf → Result X29PadMessage
decode [] = err (message_too_short 0)
decode (code ∷ buf) = decode_code code buf

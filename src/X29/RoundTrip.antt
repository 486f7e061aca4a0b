-- ===== src/X29/RoundTrip.antt =====
-- What the decoder of X.29 messages makes of the encoder's bytes, and of any others.
use xotpad.Base.{
  ℕ, ◌+◌, ◌*◌, ◌%◌, ◌≤◌, ◌≡◌, arith, refl, ap, sym, ◌∙◌, true, not, List, [], ◌∷◌, ◌++◌, ltb-false,
  length, map, all, ltb, ◌==◌, Buf, ok, append_assoc, append-nil,
}
use xotpad.Base.Bits.{and_7f, and_80, or_80}
use xotpad.X3.{Checked, valid, invalid, unsupported, invalid_value, other}
use xotpad.X29.{
  X29CallUserData, with_call_data, is_pad_protocol, encode_call_user_data, decode_call_user_data,
  pad_protocol, X29PadMessage, set, read, set_read, indicate, clear_invitation, response_code,
  response_value, encode, decode_request_loop, decode_params_request, response_of,
  decode_response_loop, decode_params_response, value_of, param_of, decode_code, decode,
}
use xotpad.X29.Bytes.{request_bytes, response_bytes, fit, fits, ask, bytes, encode_lem}

request_loop :
    (request out : List (ℕ × ℕ))
    → decode_request_loop (request_bytes request) out ≡ ok (out ++ request)
unfolding decode_request_loop
request_loop [] out = ap ok (sym (append-nil out))
request_loop ((param, v) ∷ request) out =
    request_loop request (out ++ ((param, v) ∷ []))
    ∙ ap ok (append_assoc out ((param, v) ∷ []) request)

length-request_bytes :
    (request : List (ℕ × ℕ)) → length (request_bytes request) ≡ 2 * length request
length-request_bytes [] = omega arith
length-request_bytes ((param, v) ∷ request) = omega (arith, length-request_bytes request)

length-response_bytes :
    (response : List (ℕ × Checked ℕ)) → length (response_bytes response) ≡ 2 * length response
length-response_bytes [] = omega arith
length-response_bytes ((param, v) ∷ response) = omega (arith, length-response_bytes response)

even : (n k : ℕ) → n ≡ 2 * k → (n % 2 == 0) ≡ true
even n k e = ground arith

params_request :
    (request : List (ℕ × ℕ)) → decode_params_request (request_bytes request) ≡ ok request
unfolding decode_params_request
params_request request =
    rw (even (length (request_bytes request)) (length request) (length-request_bytes request))
      (request_loop request [])

-- One entry of a response, with its parameter's eighth bit.
response_of_lem :
    (param : ℕ) (v : Checked ℕ)
    → not (ltb 0x7f param) ≡ true
    → response_of (response_code param v) (response_value v) ≡ (param, v)
unfolding response_of response_code response_value
response_of_lem param (valid v) h = ground (arith, and_80 param)
response_of_lem param (invalid unsupported) h =
    ground (arith, or_80 param, and_80 (param + 128), and_7f (param + 128))
response_of_lem param (invalid invalid_value) h =
    ground (arith, or_80 param, and_80 (param + 128), and_7f (param + 128))
response_of_lem param (invalid other) h =
    ground (arith, or_80 param, and_80 (param + 128), and_7f (param + 128))

response_loop :
    (response out : List (ℕ × Checked ℕ))
    → fit response ≡ true
    → decode_response_loop (response_bytes response) out ≡ ok (out ++ response)
unfolding decode_response_loop
response_loop [] out h = ap ok (sym (append-nil out))
response_loop ((param, v) ∷ response) out h =
    ap (λ e. decode_response_loop (response_bytes response) (out ++ (e ∷ [])))
      (response_of_lem param v (ground arith))
    ∙ response_loop response (out ++ ((param, v) ∷ [])) (ground arith)
    ∙ ap ok (append_assoc out ((param, v) ∷ []) response)

params_response :
    (response : List (ℕ × Checked ℕ))
    → fit response ≡ true
    → decode_params_response (response_bytes response) ≡ ok response
unfolding decode_params_response
params_response response h =
    rw (even (length (response_bytes response)) (length response) (length-response_bytes response))
      (response_loop response [] h)

all_zero : (params : List ℕ) → all (λ p. value_of p == 0) (ask params) ≡ true
all_zero [] = refl
all_zero (p ∷ params) = all_zero params

map-param_of : (params : List ℕ) → map param_of (ask params) ≡ params
map-param_of [] = refl
map-param_of (p ∷ params) = ap (λ ps. p ∷ ps) (map-param_of params)

decode-bytes : (m : X29PadMessage) → fits m ≡ true → decode (bytes m) ≡ ok m
unfolding decode decode_code
decode-bytes (set request) h = rw (params_request request) refl
decode-bytes (read params) h =
    rw (params_request (ask params), all_zero params, map-param_of params) refl
decode-bytes (set_read request) h = rw (params_request request) refl
decode-bytes (indicate response) h = rw (params_response response h) refl
decode-bytes clear_invitation h = refl

-- A message of which no parameter is above 127 is encoded without a panic; its bytes decode to it,
-- and their number is the length returned.
pub decode-encode_message :
    (m : X29PadMessage)
    → fits m ≡ true
    → (encode m [] ≡ ok (length (bytes m), bytes m)) × (decode (bytes m) ≡ ok m)
decode-encode_message m h = (rw (encode_lem m [], h) refl, decode-bytes m h)

-- Call data of at most twelve bytes are accepted; as call user data they are encoded behind the
-- buffer in four bytes more than their number, decode to themselves, and are recognised as those of
-- a PAD.
pub decode_call_user_data-encode :
    (call_data buf : Buf)
    → length call_data ≤ 12
    → (d : X29CallUserData) × (with_call_data call_data ≡ ok d)
      × (d.call_data ≡ call_data)
      × (encode_call_user_data d buf ≡ (4 + length call_data, buf ++ (pad_protocol ++ call_data)))
      × (decode_call_user_data (pad_protocol ++ call_data) ≡ ok d)
      × (is_pad_protocol d ≡ true)
unfolding with_call_data encode_call_user_data decode_call_user_data is_pad_protocol
decode_call_user_data-encode call_data buf h = (
  record { protocol = pad_protocol; call_data = call_data },
  rw (ltb-false 12 (length call_data) h) refl,
  refl,
  ground (arith, append_assoc buf pad_protocol call_data),
  rw (ltb-false (length (pad_protocol ++ call_data)) 4 (omega arith)) refl,
  refl,
)

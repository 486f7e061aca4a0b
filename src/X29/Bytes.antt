-- ===== src/X29/Bytes.antt =====
-- The bytes of an X.29 message, and that the encoder writes them or panics.
use xotpad.Base.{
  ℕ, ◌+◌, ◌≡◌, arith, refl, ap, ◌∙◌, Bool, true, false, not, ◌&&◌, List, [], ◌∷◌, ◌++◌, length, map,
  ltb, if◌then◌else◌, Buf, put_u8, ok, panic, ◌>>=◌, append_assoc, append-nil,
}
use xotpad.X3.{Checked}
use xotpad.X29.{
  X29PadMessage, set, read, set_read, indicate, clear_invitation, encode_params_request,
  encode_params_response, response_code, response_value, add_code, encode,
}

abbrev pub request_bytes : List (ℕ × ℕ) → Buf
request_bytes [] = []
request_bytes ((param, value) ∷ request) = param ∷ value ∷ request_bytes request

abbrev pub response_bytes : List (ℕ × Checked ℕ) → Buf
response_bytes [] = []
response_bytes ((param, value) ∷ response) =
    response_code param value ∷ response_value value ∷ response_bytes response

-- No parameter needs the eighth bit.
abbrev pub fit {ℓ} : {A : Type ℓ} → List (ℕ × A) → Bool
fit [] = true
fit ((param, value) ∷ rest) = not (ltb 0x7f param) && fit rest

abbrev pub ask : List ℕ → List (ℕ × ℕ)
ask params = map (λ p. (p, 0)) params

abbrev pub fits : X29PadMessage → Bool
fits (set request) = fit request
fits (read request) = fit (ask request)
fits (set_read request) = fit request
fits (indicate response) = fit response
fits clear_invitation = true

abbrev pub bytes : X29PadMessage → Buf
bytes (set request) = 0x02 ∷ request_bytes request
bytes (read request) = 0x04 ∷ request_bytes (ask request)
bytes (set_read request) = 0x06 ∷ request_bytes request
bytes (indicate response) = 0x00 ∷ response_bytes response
bytes clear_invitation = 0x01 ∷ []

two_more : (buf rest : Buf) (a b : ℕ) → put_u8 (put_u8 buf a) b ++ rest ≡ buf ++ (a ∷ b ∷ rest)
two_more buf rest a b =
    append_assoc (put_u8 buf a) (b ∷ []) rest ∙ append_assoc buf (a ∷ []) (b ∷ rest)

request_lem :
    (request : List (ℕ × ℕ)) (len : ℕ) (buf : Buf)
    → encode_params_request request len buf ≡ (
        if fit request
        then ok (len + length (request_bytes request), buf ++ request_bytes request)
        else panic)
unfolding encode_params_request
request_lem [] len buf = ground (arith, append-nil buf)
request_lem ((param, value) ∷ request) len buf = ground (
  arith,
  request_lem request (len + 2) (put_u8 (put_u8 buf param) value),
  two_more buf (request_bytes request) param value,
)

response_lem :
    (response : List (ℕ × Checked ℕ)) (len : ℕ) (buf : Buf)
    → encode_params_response response len buf ≡ (
        if fit response
        then ok (len + length (response_bytes response), buf ++ response_bytes response)
        else panic)
unfolding encode_params_response
response_lem [] len buf = ground (arith, append-nil buf)
response_lem ((param, value) ∷ response) len buf = ground (
  arith,
  response_lem response (len + 2)
      (put_u8 (put_u8 buf (response_code param value)) (response_value value)),
  two_more buf (response_bytes response) (response_code param value) (response_value value),
)

-- The code in front.
coded :
    (sent : Bool) (code : ℕ) (body buf : Buf)
    → ((if sent then ok (0 + length body, put_u8 buf code ++ body) else panic) >>= add_code)
      ≡ (if sent then ok (length (code ∷ body), buf ++ (code ∷ body)) else panic)
coded true code body buf = ground (arith, append_assoc buf (code ∷ []) body)
coded false code body buf = refl

-- The encoder writes the message's bytes behind the buffer and gives their number, if no parameter
-- is above 127; otherwise it panics.
pub encode_lem :
    (m : X29PadMessage) (buf : Buf)
    → encode m buf ≡ (if fits m then ok (length (bytes m), buf ++ bytes m) else panic)
unfolding encode
encode_lem (set request) buf =
    ap (λ r. r >>= add_code) (request_lem request 0 (put_u8 buf 0x02))
    ∙ coded (fit request) 0x02 (request_bytes request) buf
encode_lem (read request) buf =
    ap (λ r. r >>= add_code) (request_lem (ask request) 0 (put_u8 buf 0x04))
    ∙ coded (fit (ask request)) 0x04 (request_bytes (ask request)) buf
encode_lem (set_read request) buf =
    ap (λ r. r >>= add_code) (request_lem request 0 (put_u8 buf 0x06))
    ∙ coded (fit request) 0x06 (request_bytes request) buf
encode_lem (indicate response) buf =
    ap (λ r. r >>= add_code) (response_lem response 0 (put_u8 buf 0x00))
    ∙ coded (fit response) 0x00 (response_bytes response) buf
encode_lem clear_invitation buf = refl

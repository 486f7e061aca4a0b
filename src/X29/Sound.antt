-- ===== src/X29/Sound.antt =====
-- What the decoder of X.29 messages makes of any bytes.
use xotpad.Base.{
  ℕ, suc, ◌+◌, ◌*◌, ◌%◌, ◌≡◌, arith, refl, ap, sym, ◌∙◌, true, List, [], ◌∷◌, ◌++◌, length, map,
  all, ◌==◌, Buf, IsByte, All, append_assoc, append-nil, length-append, Returns, value, error,
  Returns-bind, Returns-weaken, Returns-if, Returns-after, odd_number_of_bytes,
  invalid_read_request, message_too_long, is_empty, ==→eq,
}
use xotpad.Base.Bits.{and_7f, and_80}
use xotpad.X3.{Checked}
use xotpad.X29.{
  X29PadMessage, indicate, decode_request_loop, decode_params_request, response_of,
  decode_response_loop, decode_params_response, value_of, param_of, decode_code, decode,
}
use xotpad.X29.Bytes.{request_bytes, fit, ask, bytes}

request_bytes-append :
    (xs ys : List (ℕ × ℕ)) → request_bytes (xs ++ ys) ≡ request_bytes xs ++ request_bytes ys
request_bytes-append [] ys = refl
request_bytes-append ((p, v) ∷ xs) ys = ap (λ b. p ∷ v ∷ b) (request_bytes-append xs ys)

even_tail : (n : ℕ) → (suc (suc n) % 2 == 0) ≡ true → (n % 2 == 0) ≡ true
even_tail n h = ground arith

-- The pairs that are read are the bytes.
request_loop-Returns :
    (buf : Buf) (out : List (ℕ × ℕ))
    → (length buf % 2 == 0) ≡ true
    → Returns (λ r. request_bytes r ≡ request_bytes out ++ buf) (decode_request_loop buf out)
unfolding decode_request_loop
request_loop-Returns [] out h = value (sym (append-nil (request_bytes out)))
request_loop-Returns (p ∷ []) out h = absurd (ground arith)
request_loop-Returns (p ∷ v ∷ buf) out h =
    Returns-weaken (request_loop-Returns buf (out ++ ((p, v) ∷ [])) (even_tail (length buf) h))
      λ r e.
        e
        ∙ ap (λ b. b ++ buf) (request_bytes-append out ((p, v) ∷ []))
        ∙ append_assoc (request_bytes out) (p ∷ v ∷ []) buf

params_request-Returns :
    (buf : Buf) → Returns (λ r. request_bytes r ≡ buf) (decode_params_request buf)
unfolding decode_params_request
params_request-Returns buf =
    Returns-after (length buf % 2 == 0) odd_number_of_bytes λ h. request_loop-Returns buf [] h

fit-append {ℓ} :
    {A : Type ℓ} (xs ys : List (ℕ × A)) → fit xs ≡ true → fit ys ≡ true → fit (xs ++ ys) ≡ true
fit-append [] ys h k = k
fit-append ((p, a) ∷ xs) ys h k = ground (arith, fit-append xs ys)

response_of-fit : (p v : ℕ) → IsByte p → fit (response_of p v ∷ []) ≡ true
unfolding response_of
response_of-fit p v b = ground (arith, and_80 p, and_7f p)

response_loop-Returns :
    (buf : Buf) (out : List (ℕ × Checked ℕ))
    → All IsByte buf
    → (length buf % 2 == 0) ≡ true
    → fit out ≡ true
    → Returns
        (λ r. (fit r ≡ true) × (2 * length r ≡ 2 * length out + length buf))
        (decode_response_loop buf out)
unfolding decode_response_loop
response_loop-Returns [] out b h f = value (f, omega arith)
response_loop-Returns (p ∷ []) out b h f = absurd (ground arith)
response_loop-Returns (p ∷ v ∷ buf) out (bp, (bv, b)) h f =
    Returns-weaken
      (response_loop-Returns buf (out ++ (response_of p v ∷ [])) b (even_tail (length buf) h)
        (fit-append out (response_of p v ∷ []) f (response_of-fit p v bp)))
      λ r (g, n). (g, omega (arith, n, length-append out (response_of p v ∷ [])))

params_response-Returns :
    (buf : Buf)
    → All IsByte buf
    → Returns (λ r. (fit r ≡ true) × (2 * length r ≡ length buf)) (decode_params_response buf)
unfolding decode_params_response
params_response-Returns buf b =
    Returns-after (length buf % 2 == 0) odd_number_of_bytes
      λ h. Returns-weaken (response_loop-Returns buf [] b h refl) λ r (f, n). (f, omega (arith, n))

-- Of a request whose values are all zero the parameters are enough.
ask-map :
    (request : List (ℕ × ℕ))
    → all (λ p. value_of p == 0) request ≡ true
    → ask (map param_of request) ≡ request
ask-map [] h = refl
ask-map ((p, v) ∷ request) h = ground (arith, ask-map request)

-- What a decoded message is to the bytes: an indication has one entry for two bytes, and can be
-- encoded; all else has the bytes themselves.
abbrev pub IsRead : Buf → X29PadMessage → Type 0
IsRead buf (indicate response) = (fit response ≡ true) × (2 * length response + 1 ≡ length buf)
IsRead buf m = bytes m ≡ buf

clear_lem :
    (code : ℕ) (buf : Buf) → (code == 0x01) ≡ true → is_empty buf ≡ true → 0x01 ∷ [] ≡ code ∷ buf
clear_lem code [] c nothing = ap (λ a. a ∷ []) (sym (==→eq code 0x01 c))
clear_lem code (a ∷ buf) c nothing = cc

module _ (buf : Buf) (b : All IsByte buf) where
  decode_code-Returns : (code : ℕ) → Returns (IsRead (code ∷ buf)) (decode_code code buf)
  unfolding decode_code
  decode_code-Returns code =
      Returns-if (code == 0x02)
        (λ c.
          Returns-bind (params_request-Returns buf) λ r e. value (rw (==→eq code 0x02 c, e) refl))
        λ _.
          Returns-if (code == 0x04)
            (λ c. Returns-bind (params_request-Returns buf) λ r e.
              Returns-after (all (λ p. value_of p == 0) r) invalid_read_request
                λ zero. value (rw (==→eq code 0x04 c, ask-map r zero, e) refl))
            λ _.
              Returns-if (code == 0x06)
                (λ c.
                  Returns-bind (params_request-Returns buf)
                    λ r e. value (rw (==→eq code 0x06 c, e) refl))
                λ _.
                  Returns-if (code == 0x00)
                    (λ c.
                      Returns-bind (params_response-Returns buf b)
                        λ r (f, n). value (f, omega (arith, n)))
                    λ _.
                      Returns-if (code == 0x01)
                        (λ c.
                          Returns-after (is_empty buf) (message_too_long (length buf))
                            λ nothing. value (clear_lem code buf c nothing))
                        λ _. error

-- On every sequence of bytes the decoder of X.29 messages returns, with an error or a message: no
-- read is out of bounds. The bytes of a message that is no indication are those that were decoded;
-- an indication has an entry for every two bytes after the first, and no parameter above 127.
pub decode_message-Returns : (buf : Buf) → All IsByte buf → Returns (IsRead buf) (decode buf)
unfolding decode
decode_message-Returns [] b = error
decode_message-Returns (code ∷ buf) (_, b) = decode_code-Returns buf b code

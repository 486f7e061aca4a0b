-- ===== src/Packet/Total.antt =====
-- The decoder returns on every input: none of its assertions fails and no read is out of bounds.
use xotpad.Base.{
  ℕ, ◌≤◌, ◌/◌, ◌≡◌, true, [], ◌∷◌, ◌==◌, not, ltb, length, Buf, IsByte, All, bit_and, ==→eq, Result,
  ◌>>=◌, Returns, value, error, Returns-bind, Returns-if, Returns-after, Returns-weaken, ok,
  packet_too_short, packet_too_long,
}
use xotpad.Seq.{X25Modulo}
use xotpad.Packet.Header.{min_packet_len, max_packet_len, decode_packet_header}
use xotpad.Packet.Call.{decode_call_request, decode_call_accept}
use xotpad.Packet.Clear.{decode_clear_request, decode_clear_confirm}
use xotpad.Packet.Data.{decode_data}
use xotpad.Packet.Flow.{
  decode_receive_ready, decode_receive_not_ready, decode_reset_request, decode_reset_confirm,
}
use xotpad.Packet.Call.Request.{decode_call_request-Returns}
use xotpad.Packet.Call.Accept.{decode_call_accept-Returns}
use xotpad.Packet.Clear.Request.{decode_clear_request-Returns}
use xotpad.Packet.Clear.Confirm.{decode_clear_confirm-Returns}
use xotpad.Packet.Data.RoundTrip.{max_seq, decode_data-Returns}
use xotpad.Packet.Flow.RoundTrip.{
  decode_flow-Returns, decode_reset_request-Returns, decode_reset_confirm-Returns,
}
use xotpad.Packet.RoundTrip.{IsValid}
use xotpad.Packet.{
  X25Packet, call_request, call_accept, clear_request, clear_confirm, data_packet, receive_ready,
  receive_not_ready, reset_request, reset_confirm, decode_as, decode,
}

-- The sequence numbers of a packet are below its modulus.
abbrev pub IsInRange : X25Packet → Type 0
IsInRange (data_packet p) = (p.send_seq ≤ max_seq p.modulo) × (p.recv_seq ≤ max_seq p.modulo)
IsInRange (receive_ready p) = p.recv_seq ≤ max_seq p.modulo
IsInRange (receive_not_ready p) = p.recv_seq ≤ max_seq p.modulo
IsInRange _ = Unit {0}

abbrev pub IsDecoded : X25Packet → Type 0
IsDecoded p = IsValid p × IsInRange p

-- A branch of the dispatch whose assertion is its own condition.
on_type :
    (code type : ℕ) (f : ℕ → Result X25Packet)
    → Returns IsDecoded (f code)
    → (type == code) ≡ true
    → Returns IsDecoded (f type)
on_type code type f r e = rw (==→eq type code e) r

decode_header-Returns :
    (buf : Buf) → Returns {A = X25Modulo × ℕ × ℕ × ℕ} (λ _. Unit {0}) (decode_packet_header buf)
unfolding decode_packet_header
decode_header-Returns (b0 ∷ b1 ∷ b2 ∷ buf) =
    Returns-if (bit_and (bit_and b0 0xf0 / 16) 0x03 == 0b01) (λ _. value tt)
      λ _. Returns-if (bit_and (bit_and b0 0xf0 / 16) 0x03 == 0b10) (λ _. value tt) λ _. error
decode_header-Returns (b0 ∷ b1 ∷ []) = error
decode_header-Returns (b0 ∷ []) = error
decode_header-Returns [] = error

module _ (buf : Buf) (b : All IsByte buf) (m : X25Modulo) (gfi channel : ℕ) where
  decode_receive_ready-Returns :
      (type : ℕ)
      → (bit_and type 0x1f == 0x01) ≡ true
      → Returns (λ p. p.recv_seq ≤ max_seq p.modulo) (decode_receive_ready buf m gfi channel type)
  unfolding decode_receive_ready
  decode_receive_ready-Returns type e =
      Returns-bind (decode_flow-Returns 0x01 buf m gfi type b e) λ r h. value h

  decode_receive_not_ready-Returns :
      (type : ℕ)
      → (bit_and type 0x1f == 0x05) ≡ true
      → Returns
          (λ p. p.recv_seq ≤ max_seq p.modulo)
          (decode_receive_not_ready buf m gfi channel type)
  unfolding decode_receive_not_ready
  decode_receive_not_ready-Returns type e =
      Returns-bind (decode_flow-Returns 0x05 buf m gfi type b e) λ r h. value h

  decode_data-IsInRange :
      (type : ℕ)
      → (bit_and type 0x01 == 0) ≡ true
      → Returns (λ p. IsInRange (data_packet p)) (decode_data buf m gfi channel type)
  decode_data-IsInRange type e =
      Returns-weaken (decode_data-Returns buf m gfi channel type b e) λ p (s, r, n, c). rw n (s, r)

  decode_as-Returns : (type : ℕ) → Returns IsDecoded (decode_as type buf m gfi channel)
  unfolding decode_as
  decode_as-Returns type =
      Returns-if (type == 0x0b)
        (on_type 0x0b type
          (λ t. decode_call_request buf m gfi channel t >>= λ p. ok (call_request p))
          (Returns-bind (decode_call_request-Returns buf m gfi channel b)
            λ p (v, _, _). value (v, tt)))
        λ _.
          Returns-if (type == 0x0f)
            (on_type 0x0f type
              (λ t. decode_call_accept buf m gfi channel t >>= λ p. ok (call_accept p))
              (Returns-bind (decode_call_accept-Returns buf m gfi channel b)
                λ p (v, _, _). value (v, tt)))
            λ _.
              Returns-if (type == 0x13)
                (on_type 0x13 type
                  (λ t. decode_clear_request buf m gfi channel t >>= λ p. ok (clear_request p))
                  (Returns-bind (decode_clear_request-Returns buf m gfi channel b)
                    λ p (v, _, _). value (v, tt)))
                λ _.
                  Returns-if (type == 0x17)
                    (on_type 0x17 type
                      (λ t. decode_clear_confirm buf m gfi channel t >>= λ p. ok (clear_confirm p))
                      (Returns-bind (decode_clear_confirm-Returns buf m gfi channel b)
                        λ p (v, _, _). value (v, tt)))
                    λ _.
                      Returns-if (bit_and type 0x01 == 0x00)
                        (λ e. Returns-bind (decode_data-IsInRange type e) λ p h. value (tt, h))
                        λ _.
                          Returns-if (bit_and type 0x1f == 0x01)
                            (λ e.
                              Returns-bind (decode_receive_ready-Returns type e)
                                λ p h. value (tt, h))
                            λ _.
                              Returns-if (bit_and type 0x1f == 0x05)
                                (λ e.
                                  Returns-bind (decode_receive_not_ready-Returns type e)
                                    λ p h. value (tt, h))
                                λ _.
                                  Returns-if (type == 0x1b)
                                    (on_type 0x1b type
                                      (λ t. decode_reset_request buf m gfi channel t >>= λ p.
                                        ok (reset_request p))
                                      (Returns-bind (decode_reset_request-Returns buf m gfi channel)
                                        λ p _. value (tt, tt)))
                                    λ _.
                                      Returns-if (type == 0x1f)
                                        (on_type 0x1f type
                                          (λ t. decode_reset_confirm buf m gfi channel t >>= λ p.
                                            ok (reset_confirm p))
                                          (Returns-bind
                                            (decode_reset_confirm-Returns buf m gfi channel)
                                            λ p _. value (tt, tt)))
                                        λ _. error

-- On every sequence of bytes the decoder returns, with an error or with a packet: no assertion
-- fails, no read is out of bounds and no loop of the model runs out of fuel. The packet's
-- addresses and facilities are well formed and its sequence numbers are below its modulus.
pub decode-Returns : (buf : Buf) → All IsByte buf → Returns IsDecoded (decode buf)
unfolding decode
decode-Returns buf b =
    Returns-after (not (ltb (length buf) min_packet_len)) (packet_too_short (length buf)) λ _.
      Returns-after (not (ltb max_packet_len (length buf))) (packet_too_long (length buf)) λ _.
        Returns-bind (decode_header-Returns buf)
          λ (m, gfi, channel, type) _. decode_as-Returns buf b m gfi channel type

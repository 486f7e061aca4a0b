-- ===== src/Pad/Writing.antt =====
-- What a client writes is sent or queued, with the line feeds of the parameters, and nothing else.
pub mod Rounds
use xotpad.Base.{
  ℕ, zero, suc, ◌+◌, ◌≤◌, ◌<◌, ◌≡◌, ◌≢◌, ◌⊎◌, inl, inr, arith, refl, ap, sym, subst, ◌∙◌, Bool,
  true, false, not, ◌&&◌, ◌||◌, List, [], ◌∷◌, ◌++◌, length, leb, ltb, ◌==◌, is_empty,
  if◌then◌else◌, Buf, Bool-cases, Option, none, some, Result, ok, err, panic, stuck, ◌>>=◌,
  append_assoc, append-nil, length-append,
}
use xotpad.X3.{X3LfInsert, bool_from, is_match, delay, after_send, after_echo}
use xotpad.X3.PadParams.{PadParams}
use xotpad.Pad.{
  Circuit, Pad, lf, with_lf, should_echo_write, and_then, echo_byte, set_deadline, written,
  send_queued_data, write_byte, write_loop, write_echo, write,
}
use Rounds.{expand, echo_of, IsInOrder, IsWritten, Writes, nothing, write_loop_lem}

-- The parameters that are read as truth values are 0 or 1.
pub record IsValid {Q : Type 0} (params : PadParams Q) : Type 0 where
  pub echo : params.echo.raw ≤ 1
  pub editing : params.editing.raw ≤ 1

module _ {S : Type 0} (circuit : Circuit S) (sent : S → Buf) {Q : Type 0} where
  -- The bytes that are echoed: those written, if the parameters say so.
  abbrev pub does_echo : Pad S Q → Bool
  does_echo pad =
      pad.params.echo.raw == 1
      && not (pad.params.editing.raw == 1 && pad.should_suppress_echo_when_editing)

  should_echo_write_lem :
      (pad : Pad S Q) → IsValid pad.params → should_echo_write pad ≡ ok (does_echo pad)
  unfolding should_echo_write bool_from
  should_echo_write_lem pad v = ground arith

  deadline_kept :
      (d : Option ℕ) (now size : ℕ) (text echo : Buf) (pad pad1 : Pad S Q)
      → IsWritten circuit sent text echo pad pad1
      → length pad1.send_queue < size
      → IsWritten circuit sent text echo pad (set_deadline d now pad1)
        × (length (set_deadline d now pad1).send_queue < size)
  unfolding set_deadline
  deadline_kept none now size text echo pad pad1 w short = (w, short)
  deadline_kept (some d) now size text echo pad pad1 w short =
      waiting (not (is_empty pad1.send_queue))
    where
      waiting :
          (b : Bool)
          → IsWritten circuit sent text echo pad
              (if b then record pad1 { send_deadline = some (now + d) } else pad1)
            × (length
                  (if b then record pad1 { send_deadline = some (now + d) } else pad1).send_queue
                < size)
      waiting true = (record { kept = w.kept; echoed = w.echoed; params = w.params }, short)
      waiting false = (w, short)

  written_lem :
      (now count size : ℕ) (text echo : Buf) (pad : Pad S Q) (x : Pad S Q × Result (Unit {0}))
      → Writes circuit sent tt size text echo pad x
      → Writes circuit sent count size text echo pad (written now count x)
  unfolding written
  written_lem now count size text echo pad (pad1, ok tt) (inl (e, w, short)) =
      let (v, less) = deadline_kept (delay pad1.params.idle) now size text echo pad pad1 w short in
      inl (refl, v, less)
  written_lem now count size text echo pad (pad1, ok tt) (inr (s, b, refused, ne)) =
      absurd (ne refl)
  written_lem now count size text echo pad (pad1, err e) (inl (same, w, short)) = cc
  written_lem now count size text echo pad (pad1, err e) (inr (s, b, refused, ne)) =
      inr (s, b, refused, λ h. cc)
  written_lem now count size text echo pad (pad1, panic) (inl (same, w, short)) = cc
  written_lem now count size text echo pad (pad1, panic) (inr (s, b, refused, ne)) =
      inr (s, b, refused, λ h. cc)
  written_lem now count size text echo pad (pad1, stuck) (inl (same, w, short)) = cc
  written_lem now count size text echo pad (pad1, stuck) (inr (s, b, refused, ne)) =
      inr (s, b, refused, λ h. cc)

  -- With parameters that hold truth values, a packet size that is not zero, a queue shorter than a
  -- packet, and a circuit that keeps what it accepts in order: `write` returns the number of bytes
  -- given, what was sent followed by what is queued has grown by those bytes, each CR with the line
  -- feed that the parameters ask for, what is echoed was put behind the bytes received, the
  -- parameters are the same and the queue is again shorter than a packet; or the circuit refused
  -- to send something, and `write` does not return that number.
  pub write-IsWritten :
      (pad : Pad S Q) (buf : Buf) (now : ℕ)
      → IsInOrder circuit sent
      → IsValid pad.params
      → 0 < circuit.packet_size pad.svc
      → length pad.send_queue < circuit.packet_size pad.svc
      → Writes circuit sent
          (length buf)
          (circuit.packet_size pad.svc)
          (expand (after_send pad.params.lf_insert) buf)
          (echo_of (does_echo pad) (after_echo pad.params.lf_insert) buf)
          pad
          (write circuit now buf pad)
  unfolding write write_echo
  write-IsWritten pad [] now in_order v pos short = inl (
    refl,
    nothing circuit sent in_order (circuit.packet_size pad.svc) pos (does_echo pad) pad,
    short,
  )
  write-IsWritten pad (byte ∷ buf) now in_order v pos short =
      subst
        (λ (r : Result Bool).
          Writes circuit sent (length (byte ∷ buf)) (circuit.packet_size pad.svc)
            (expand (after_send pad.params.lf_insert) (byte ∷ buf))
            (echo_of (does_echo pad) (after_echo pad.params.lf_insert) (byte ∷ buf)) pad
            (write_echo circuit r now (byte ∷ buf) pad))
        (sym (should_echo_write_lem pad v))
        (written_lem now (length (byte ∷ buf)) (circuit.packet_size pad.svc) _ _ pad _ (
          write_loop_lem circuit sent in_order (circuit.packet_size pad.svc) pos (does_echo pad)
            (byte ∷ buf) pad short))

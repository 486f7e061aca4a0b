-- ===== src/Pad/Remote.antt =====
-- The X.29 messages between PADs: what `Pad::new`'s thread does with the data received, and the
-- client's requests to the other PAD, in libxotpad/src/pad.rs.
pub mod Responses
pub mod Exchange
pub mod Transmitting
use xotpad.Base.{
  ℕ, ◌+◌, Bool, true, false, List, [], ◌∷◌, ◌++◌, map, is_empty, if◌then◌else◌, Buf, Option, none,
  some, Result, ok, err, panic, stuck, ◌>>=◌, timed_out,
}
use xotpad.X3.{X3Params, X3ParamError, unsupported, Checked, valid, invalid}
use xotpad.X3.PadParams.{PadParams, pad_params}
use xotpad.X29 as X29
use xotpad.X29.{X29PadMessage, set, read, set_read, indicate, clear_invitation}
use xotpad.Pad.{
  Circuit, Pad, IndicateChannel, idle, awaited, abandoned, queue_recv_bytes, and_then,
  send_queued_data,
}

-- `params.get(p).ok_or(X3ParamError::Unsupported)`
unfoldable pub ok_or : Option ℕ → Checked ℕ
ok_or (some v) = valid v
ok_or none = invalid unsupported

unfoldable pub refusal : ℕ → Checked (Unit {0}) → List (ℕ × Checked ℕ)
refusal p (valid _) = []
refusal p (invalid e) = (p, invalid e) ∷ []

module _ {Q : Type 0} (params : X3Params Q) where
  unfoldable pub read_params : Q → List ℕ → Result X29PadMessage
  unfolding ok_or
  read_params q request =
      if is_empty request
      then (params.all q >>= λ entries. ok (indicate (map (λ (p, v). (p, valid v)) entries)))
      else ok (indicate (map (λ p. (p, ok_or (params.get q p))) request))

  -- The loop of `set_params`: the parameters after it, and the refusals.
  unfoldable pub set_loop : List (ℕ × ℕ) → Q → Q × List (ℕ × Checked ℕ)
  unfolding refusal
  set_loop [] q = (q, [])
  set_loop ((p, v) ∷ request) q =
      let (q1, result) = params.set q p v in
      let (q2, response) = set_loop request q1 in (q2, refusal p result ++ response)

  -- An empty request is a `todo!`.
  unfoldable pub set_params : Q → List (ℕ × ℕ) → Q × Result (Option X29PadMessage)
  unfolding set_loop
  set_params q [] = (q, panic)
  set_params q (r ∷ request) =
      let (q1, response) = set_loop (r ∷ request) q in
      (q1, ok (if is_empty response then none else some (indicate response)))

  unfoldable pub set_result : Q → ℕ → Checked (Unit {0}) → Checked ℕ
  unfolding ok_or
  set_result q p (valid _) = ok_or (params.get q p)
  set_result q p (invalid e) = invalid e

  unfoldable pub set_read_loop : List (ℕ × ℕ) → Q → Q × List (ℕ × Checked ℕ)
  unfolding set_result
  set_read_loop [] q = (q, [])
  set_read_loop ((p, v) ∷ request) q =
      let (q1, result) = params.set q p v in
      let (q2, response) = set_read_loop request q1 in (q2, (p, set_result q1 p result) ∷ response)

  unfoldable pub set_read_params : Q → List (ℕ × ℕ) → Q × Result X29PadMessage
  unfolding set_read_loop
  set_read_params q [] = (q, panic)
  set_read_params q (r ∷ request) =
      let (q1, response) = set_read_loop (r ∷ request) q in (q1, ok (indicate response))

-- `if let Err(_) = ... { todo!() }`
unfoldable pub or_todo : {T A : Type 0} → T × Result A → T × Result A
or_todo (s, ok a) = (s, ok a)
or_todo (s, err e) = (s, panic)
or_todo (s, panic) = (s, panic)
or_todo (s, stuck) = (s, stuck)

-- The end of `receiver.recv_timeout`, with what was sent by then.
unfoldable pub recv_indicate :
    {S Q : Type 0} → List (List (ℕ × Checked ℕ)) → Pad S Q → Pad S Q × Result (List (ℕ × Checked ℕ))
recv_indicate (response ∷ rest) pad = (record pad { indications = rest }, ok response)
recv_indicate [] pad = (record pad { indicate_channel = abandoned }, err timed_out)

-- Whether the thread goes on.
pub data Next : Type 0 where
  again : Next
  ended : Next

module _ {S Q : Type 0} (circuit : Circuit S) where
  unfoldable pub send_encoded : Result (ℕ × Buf) → Pad S Q → Pad S Q × Result (Unit {0})
  unfolding and_then
  send_encoded (ok (len, buf)) pad =
      let (svc, result) = circuit.send pad.svc buf true in
      and_then (record pad { svc = svc }, result)
        λ _ pad1.
          let (svc1, flushed) = circuit.flush pad1.svc in (record pad1 { svc = svc1 }, flushed)
  send_encoded (err e) pad = (pad, err e)
  send_encoded panic pad = (pad, panic)
  send_encoded stuck pad = (pad, stuck)

  unfoldable pub send_message : X29PadMessage → Pad S Q → Pad S Q × Result (Unit {0})
  unfolding send_encoded
  send_message message pad = send_encoded (X29.encode message []) pad

  -- The receiver is dropped when the request fails.
  unfoldable pub or_abandon : Pad S Q × Result (Unit {0}) → Pad S Q × Result (Unit {0})
  or_abandon (pad, ok _) = (pad, ok tt)
  or_abandon (pad, err e) = (record pad { indicate_channel = abandoned }, err e)
  or_abandon (pad, panic) = (record pad { indicate_channel = abandoned }, panic)
  or_abandon (pad, stuck) = (record pad { indicate_channel = abandoned }, stuck)

  -- `send_message_recv_indicate` up to its wait for the indication, with the channel it finds.
  unfoldable pub ask_remote :
      IndicateChannel → X29PadMessage → Pad S Q → Pad S Q × Result (Unit {0})
  unfolding send_message or_abandon
  ask_remote idle message pad =
      or_abandon (send_message message (record pad { indicate_channel = awaited }))
  ask_remote _ message pad = (pad, panic)

  unfoldable pub get_remote_params : List ℕ → Pad S Q → Pad S Q × Result (Unit {0})
  unfolding ask_remote
  get_remote_params request pad = ask_remote pad.indicate_channel (read request) pad

  unfoldable pub set_remote_params : List (ℕ × ℕ) → Pad S Q → Pad S Q × Result (Unit {0})
  unfolding ask_remote
  set_remote_params request pad = ask_remote pad.indicate_channel (set_read request) pad

  unfoldable pub invite_clear : Pad S Q → Pad S Q × Result (Unit {0})
  unfolding send_message
  invite_clear pad = send_message clear_invitation pad

  unfoldable pub done : Pad S Q × Result (Unit {0}) → Pad S Q × Result Next
  unfolding or_todo and_then
  done x = let (pad, r) = or_todo x in (pad, r >>= λ _. ok again)

  unfoldable pub respond : Result X29PadMessage → Pad S Q → Pad S Q × Result Next
  unfolding done
  respond (ok message) pad = done (send_message message pad)
  respond (err e) pad = (pad, err e)
  respond panic pad = (pad, panic)
  respond stuck pad = (pad, stuck)

  unfoldable pub respond_if : Result (Option X29PadMessage) → Pad S Q → Pad S Q × Result Next
  unfolding respond
  respond_if (ok none) pad = (pad, ok again)
  respond_if (ok (some message)) pad = respond (ok message) pad
  respond_if (err e) pad = (pad, err e)
  respond_if panic pad = (pad, panic)
  respond_if stuck pad = (pad, stuck)

  -- An indication for the channel that is found; to send it to a receiver that was dropped is an
  -- error, and a `todo!`.
  unfoldable pub give_indication :
      IndicateChannel → List (ℕ × Checked ℕ) → Pad S Q → Pad S Q × Result Next
  give_indication idle response pad = (pad, ok again)
  give_indication awaited response pad = (
    record pad { indicate_channel = idle; indications = pad.indications ++ (response ∷ []) },
    ok again,
  )
  give_indication abandoned response pad = (record pad { indicate_channel = idle }, panic)

  -- The end of the thread.
  unfoldable pub end_recv : Pad S Q → Pad S Q × Result Next
  end_recv pad = (record pad { recv_end = true }, ok ended)

  -- After an invitation to clear: the queue is sent, then the circuit is cleared.
  unfoldable pub clear_invited : Pad S Q → Pad S Q × Result (Unit {0})
  unfolding and_then or_todo
  clear_invited pad = and_then (or_todo (send_queued_data circuit pad)) λ _ pad1.
      let (svc, flushed) = circuit.flush pad1.svc in
      and_then (or_todo (record pad1 { svc = svc }, flushed)) λ _ pad2.
        let (svc1, is_cleared) = circuit.clear pad2.svc 0 0 in
        or_todo (record pad2 { svc = svc1 }, is_cleared)

  unfoldable pub after_clear : Pad S Q × Result (Unit {0}) → Pad S Q × Result Next
  unfolding end_recv
  after_clear (pad, ok _) = end_recv pad
  after_clear (pad, err e) = (pad, err e)
  after_clear (pad, panic) = (pad, panic)
  after_clear (pad, stuck) = (pad, stuck)

  module _ (params : X3Params Q) where
    unfoldable pub handle_message : X29PadMessage → Pad S Q → Pad S Q × Result Next
    unfolding respond respond_if give_indication clear_invited after_clear
    handle_message (set request) pad =
        let (p, message) = set_params (pad_params params) pad.params request in
        respond_if message (record pad { params = p })
    handle_message (read request) pad =
        respond (read_params (pad_params params) pad.params request) pad
    handle_message (set_read request) pad =
        let (p, message) = set_read_params (pad_params params) pad.params request in
        respond message (record pad { params = p })
    handle_message (indicate response) pad = give_indication pad.indicate_channel response pad
    handle_message clear_invitation pad = after_clear (clear_invited pad)

    -- A message that cannot be decoded is a `todo!`.
    unfoldable pub handle_decoded : Result X29PadMessage → Pad S Q → Pad S Q × Result Next
    unfolding handle_message
    handle_decoded (ok message) pad = handle_message message pad
    handle_decoded (err e) pad = (pad, panic)
    handle_decoded panic pad = (pad, panic)
    handle_decoded stuck pad = (pad, stuck)

    -- One round of the thread, on what `svc.recv` returned.
    unfoldable pub handle_recv : Result (Option (Buf × Bool)) → Pad S Q → Pad S Q × Result Next
    unfolding handle_decoded end_recv
    handle_recv (ok (some (user_data, true))) pad = handle_decoded (X29.decode user_data) pad
    handle_recv (ok (some (user_data, false))) pad = (
      record pad { recv_queue = queue_recv_bytes pad.params.lf_insert user_data pad.recv_queue },
      ok again,
    )
    handle_recv (ok none) pad = end_recv pad
    handle_recv (err e) pad = end_recv pad
    handle_recv panic pad = (pad, panic)
    handle_recv stuck pad = (pad, stuck)

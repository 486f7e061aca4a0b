-- ===== src/Pad/Remote/Exchange.antt =====
-- A client's request, the other PAD's answer, and what the client is told.
use xotpad.Base.{
  ℕ, ◌≡◌, ◌≢◌, ◌⊎◌, inl, inr, refl, ap, ◌∙◌, true, false, List, [], ◌∷◌, ◌++◌, length, some, Buf,
  Result, ok, err, panic, stuck, timed_out,
}
use xotpad.X3.{X3Params, Checked}
use xotpad.X3.PadParams.{PadParams, pad_params}
use xotpad.X29 as X29
use xotpad.X29.{X29PadMessage, set_read, indicate}
use xotpad.X29.Bytes.{fit, bytes, encode_lem}
use xotpad.X29.RoundTrip.{decode-encode_message}
use xotpad.Pad.{Circuit, Pad, IndicateChannel, idle, awaited, abandoned, and_then}
use xotpad.Pad.Remote.{
  Next, again, set_read_loop, set_read_params, send_encoded, send_message, or_abandon, ask_remote,
  give_indication, recv_indicate, set_remote_params, done, respond, handle_message, handle_decoded,
  handle_recv,
}
use xotpad.Pad.Remote.Responses.{fit-set_read_loop}
use xotpad.Pad.Remote.Transmitting.{
  Transmits, CarriesOut, channel_after, next_after, set_read_loop-CarriesOut, asks-Transmits,
  answers-Transmits,
}

module _ {S Q : Type 0} (circuit : Circuit S) where
  -- The client sends the bytes of its request.
  set_remote-bytes :
      (request : List (ℕ × ℕ)) (pad : Pad S Q)
      → fit request ≡ true
      → pad.indicate_channel ≡ idle
      → set_remote_params circuit request pad
        ≡ or_abandon circuit (
            send_encoded circuit
              (ok (length (bytes (set_read request)), bytes (set_read request)))
              (record pad { indicate_channel = awaited }))
  unfolding set_remote_params ask_remote send_message
  set_remote-bytes request pad f free =
      ap (λ c. ask_remote circuit c (set_read request) pad) free
      ∙ ap
          (λ r.
            or_abandon circuit (send_encoded circuit r (record pad { indicate_channel = awaited })))
          (decode-encode_message (set_read request) f).0

  module _ (params : X3Params Q) where
    -- The other PAD sets its parameters and sends the bytes of its answer.
    handle_recv-set_read :
        (r : ℕ × ℕ) (request : List (ℕ × ℕ)) (pad : Pad S Q)
        → fit (r ∷ request) ≡ true
        → let (p, response) = set_read_loop (pad_params params) (r ∷ request) pad.params in
          handle_recv circuit params (ok (some (bytes (set_read (r ∷ request)), true))) pad
          ≡ done circuit (
              send_encoded circuit
                (ok (length (bytes (indicate response)), bytes (indicate response)))
                (record pad { params = p }))
    unfolding handle_recv handle_decoded handle_message set_read_params respond send_message
    handle_recv-set_read r request pad f =
        let (p, response) = set_read_loop (pad_params params) (r ∷ request) pad.params in
        let g : fit response ≡ true =
          fit-set_read_loop (pad_params params) (r ∷ request) pad.params ∙ f in
        ap (λ m. handle_decoded circuit params m pad)
          (decode-encode_message (set_read (r ∷ request)) f).1
        ∙ ap (λ t. done circuit (send_encoded circuit t (record pad { params = p })))
            (decode-encode_message (indicate response) g).0

    -- The client that waits is given the answer.
    handle_recv-indicate :
        (response : List (ℕ × Checked ℕ)) (pad : Pad S Q)
        → fit response ≡ true
        → handle_recv circuit params (ok (some (bytes (indicate response), true))) pad
          ≡ give_indication circuit pad.indicate_channel response pad
    unfolding handle_recv handle_decoded handle_message
    handle_recv-indicate response pad f =
        ap (λ m. handle_decoded circuit params m pad)
          (decode-encode_message (indicate response) f).1

    given :
        (response : List (ℕ × Checked ℕ)) (pad : Pad S Q)
        → pad.indicate_channel ≡ awaited
        → give_indication circuit pad.indicate_channel response pad ≡ (
          record pad { indicate_channel = idle; indications = pad.indications ++ (response ∷ []) },
          ok again,
        )
    unfolding give_indication
    given response pad waits = ap (λ c. give_indication circuit c response pad) waits

    -- When the wait has timed out, the thread that receives panics on an answer that comes late,
    -- whatever it says of parameters that are not above 127.
    pub handle_recv-late :
        (response : List (ℕ × Checked ℕ)) (pad : Pad S Q)
        → fit response ≡ true
        → let (late, result) = recv_indicate [] pad in
          (result ≡ err timed_out)
          × ((handle_recv circuit params (ok (some (bytes (indicate response), true))) late).1
              ≡ panic)
    unfolding recv_indicate give_indication
    handle_recv-late response pad f = (
      refl,
      ap (λ (x : Pad S Q × Result Next). x.1)
          (handle_recv-indicate response (record pad { indicate_channel = abandoned }) f),
    )

-- For a request that is not empty and has no parameter above 127, a client that does not wait for an
-- answer, and another PAD. The client's `set_remote_params` gives its circuit the bytes of the request, with
-- the qualifier, and flushes it; it then waits for an answer, or returns the circuit's failure with the
-- receiver dropped. On these bytes the other PAD carries out the request, entry by entry, and gives its
-- circuit the bytes of the answer, with the qualifier, and flushes it; its thread goes on, or panics when the
-- circuit fails. On those bytes a client that waits is given that answer, and waits no longer.
pub set_remote_params-exchange :
    {S S' Q Q' : Type 0} (circuit : Circuit S) (circuit' : Circuit S') (params : X3Params Q)
    (params' : X3Params Q') (r : ℕ × ℕ) (request : List (ℕ × ℕ)) (client waiting : Pad S Q)
    (pad : Pad S' Q')
    → fit (r ∷ request) ≡ true
    → client.indicate_channel ≡ idle
    → waiting.indicate_channel ≡ awaited
    → let message = bytes (set_read (r ∷ request)) in
      ((svc : S) × (result : Result (Unit {0})) × Transmits circuit message client.svc svc result
        × (set_remote_params circuit (r ∷ request) client
            ≡ (record client { svc = svc; indicate_channel = channel_after result }, result)))
      × ((p : PadParams Q') × (response : List (ℕ × Checked ℕ)) × (svc : S') × (result : Result
            (Unit {0}))
          × CarriesOut (pad_params params') (r ∷ request) pad.params p response
          × Transmits circuit' (bytes (indicate response)) pad.svc svc result
          × (handle_recv circuit' params' (ok (some (message, true))) pad
              ≡ (record pad { params = p; svc = svc }, next_after result))
          × (handle_recv circuit params (ok (some (bytes (indicate response), true))) waiting ≡ (
            record waiting {
              indicate_channel = idle;
              indications = waiting.indications ++ (response ∷ []);
            },
            ok again,
          )))
set_remote_params-exchange circuit circuit' params params' r request client waiting pad f free
      waits =
    let message = bytes (set_read (r ∷ request)) in
    let (p, response) = set_read_loop (pad_params params') (r ∷ request) pad.params in
    let answer = bytes (indicate response) in
    let (svc, result, transmits, asked) = asks-Transmits circuit (length message) message client in
    let (svc', result', transmits', answered) =
      answers-Transmits circuit' (length answer) answer (record pad { params = p }) in
    (
      (svc, result, transmits, set_remote-bytes circuit (r ∷ request) client f free ∙ asked),
      (
        p,
        response,
        svc',
        result',
        set_read_loop-CarriesOut (pad_params params') (r ∷ request) pad.params,
        transmits',
        handle_recv-set_read circuit' params' r request pad f ∙ answered,
        handle_recv-indicate circuit params response waiting
              (fit-set_read_loop (pad_params params') (r ∷ request) pad.params ∙ f)
            ∙ given circuit params response waiting waits,
      ),
    )

module _ {S Q : Type 0} (circuit : Circuit S) where
  asked-panic :
      (c : IndicateChannel) (request : List (ℕ × ℕ)) (pad : Pad S Q)
      → (fit request ≡ false) ⊎ (c ≢ idle)
      → (ask_remote circuit c (set_read request) pad).1 ≡ panic
  unfolding ask_remote send_message send_encoded or_abandon
  asked-panic idle request pad (inl f) = rw (encode_lem (set_read request) [], f) refl
  asked-panic idle request pad (inr busy) = absurd (busy refl)
  asked-panic awaited request pad h = refl
  asked-panic abandoned request pad h = refl

  -- A request with a parameter above 127 makes the client panic, and so does every request while
  -- the channel of another one is there.
  pub set_remote_params-panic :
      (request : List (ℕ × ℕ)) (pad : Pad S Q)
      → (fit request ≡ false) ⊎ (pad.indicate_channel ≢ idle)
      → (set_remote_params circuit request pad).1 ≡ panic
  unfolding set_remote_params
  set_remote_params-panic request pad h = asked-panic pad.indicate_channel request pad h

  -- The channel is there, whoever holds its other end.
  IsBusy : Pad S Q → Type 0
  IsBusy pad = pad.indicate_channel ≢ idle

  and_then-IsBusy :
      (x : Pad S Q × Result (Unit {0})) (k : Pad S Q → Pad S Q × Result (Unit {0}))
      → IsBusy x.0
      → ((pad1 : Pad S Q) → IsBusy pad1 → IsBusy (k pad1).0)
      → IsBusy (and_then x λ _ pad1. k pad1).0
  unfolding and_then
  and_then-IsBusy (pad, ok tt) k h keep = keep pad h
  and_then-IsBusy (pad, err e) k h keep = h
  and_then-IsBusy (pad, panic) k h keep = h
  and_then-IsBusy (pad, stuck) k h keep = h

  send_encoded-IsBusy :
      (r : Result (ℕ × Buf)) (pad : Pad S Q) → IsBusy pad → IsBusy (send_encoded circuit r pad).0
  unfolding send_encoded IsBusy
  send_encoded-IsBusy (ok (len, buf)) pad h =
      and_then-IsBusy
        (record pad { svc = (circuit.send pad.svc buf true).0 }, (circuit.send pad.svc buf true).1)
        (λ pad1. (record pad1 { svc = (circuit.flush pad1.svc).0 }, (circuit.flush pad1.svc).1)) h
        λ pad1 w. w
  send_encoded-IsBusy (err e) pad h = h
  send_encoded-IsBusy panic pad h = h
  send_encoded-IsBusy stuck pad h = h

  or_abandon-IsBusy :
      (x : Pad S Q × Result (Unit {0})) → IsBusy x.0 → IsBusy (or_abandon circuit x).0
  unfolding or_abandon IsBusy
  or_abandon-IsBusy (pad, ok tt) h = h
  or_abandon-IsBusy (pad, err e) h = λ same. cc
  or_abandon-IsBusy (pad, panic) h = λ same. cc
  or_abandon-IsBusy (pad, stuck) h = λ same. cc

  asked-IsBusy :
      (c : IndicateChannel) (message : X29PadMessage) (pad : Pad S Q)
      → pad.indicate_channel ≡ c
      → IsBusy (ask_remote circuit c message pad).0
  unfolding ask_remote send_message IsBusy
  asked-IsBusy idle message pad e =
      or_abandon-IsBusy
        (send_encoded circuit (X29.encode message []) (record pad { indicate_channel = awaited }))
        (send_encoded-IsBusy (X29.encode message []) (record pad { indicate_channel = awaited })
          λ same. cc)
  asked-IsBusy awaited message pad e = λ same. cc
  asked-IsBusy abandoned message pad e = λ same. cc

  -- After a request to the other PAD, however it was sent, and after its wait has timed out, the
  -- next request panics.
  pub set_remote_params-again :
      (request request' : List (ℕ × ℕ)) (pad : Pad S Q)
      → let (pad1, result) = set_remote_params circuit request pad in
        ((set_remote_params circuit request' pad1).1 ≡ panic)
        × ((set_remote_params circuit request' (recv_indicate [] pad1).0).1 ≡ panic)
  unfolding recv_indicate IsBusy set_remote_params
  set_remote_params-again request request' pad =
      let (pad1, result) = set_remote_params circuit request pad in
      (
        set_remote_params-panic request' pad1
            (inr (asked-IsBusy pad.indicate_channel (set_read request) pad refl)),
        set_remote_params-panic request' (recv_indicate [] pad1).0 (inr λ same. cc),
      )

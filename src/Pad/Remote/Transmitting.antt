-- ===== src/Pad/Remote/Transmitting.antt =====
-- What the circuit is given when a PAD sends an X.29 message, and how a request is carried out, entry by
-- entry: descriptions of `send_message` and of `set_read_params` in libxotpad/src/pad.rs.
use xotpad.Base.{
  ℕ, ◌≡◌, ◌≢◌, refl, ap, ◌∙◌, true, List, [], ◌∷◌, Option, none, some, Buf, Result, ok, err, panic,
  stuck,
}
use xotpad.X3.{X3Params, X3ParamError, unsupported, Checked, valid, invalid}
use xotpad.Pad.{Circuit, Pad, IndicateChannel, awaited, abandoned, and_then}
use xotpad.Pad.Remote.{
  Next, again, send_encoded, or_abandon, or_todo, done, ok_or, set_result, set_read_loop,
}

-- The circuit is given the message, with the qualifier that marks it as one of X.29, and then flushed,
-- unless it refuses the message.
pub data Transmits {S : Type 0} (circuit : Circuit S) (message : Buf) (svc : S)
    : S → Result (Unit {0}) → Type 0 where
  flushed :
      (between after : S) (r : Result (Unit {0}))
      → circuit.send svc message true ≡ (between, ok tt)
      → circuit.flush between ≡ (after, r)
      → Transmits circuit message svc after r
  refused :
      (after : S) (r : Result (Unit {0}))
      → circuit.send svc message true ≡ (after, r)
      → r ≢ ok tt
      → Transmits circuit message svc after r

-- The channel of a request that was sent, or not.
abbrev pub channel_after : Result (Unit {0}) → IndicateChannel
channel_after (ok _) = awaited
channel_after _ = abandoned

-- The thread that answers goes on when the answer was sent, and panics when it was refused.
abbrev pub next_after : Result (Unit {0}) → Result Next
next_after (ok _) = ok again
next_after (err e) = panic
next_after panic = panic
next_after stuck = stuck

-- A request carried out in its order, from one state of the parameters to another, and its answer: a
-- parameter that could be set is answered with the value that is then read, or as unsupported when none
-- is, and one that could not with the reason.
pub data CarriesOut {Q : Type 0} (params : X3Params Q)
    : List (ℕ × ℕ) → Q → Q → List (ℕ × Checked ℕ) → Type 0 where
  finished : (q : Q) → CarriesOut params [] q q []
  is_set :
      (p v w : ℕ) (request : List (ℕ × ℕ)) (q q1 q2 : Q) (response : List (ℕ × Checked ℕ))
      → params.set q p v ≡ (q1, valid tt)
      → params.get q1 p ≡ some w
      → CarriesOut params request q1 q2 response
      → CarriesOut params ((p, v) ∷ request) q q2 ((p, valid w) ∷ response)
  is_unreadable :
      (p v : ℕ) (request : List (ℕ × ℕ)) (q q1 q2 : Q) (response : List (ℕ × Checked ℕ))
      → params.set q p v ≡ (q1, valid tt)
      → params.get q1 p ≡ none
      → CarriesOut params request q1 q2 response
      → CarriesOut params ((p, v) ∷ request) q q2 ((p, invalid unsupported) ∷ response)
  is_refused :
      (p v : ℕ) (e : X3ParamError) (request : List (ℕ × ℕ)) (q q1 q2 : Q)
      (response : List (ℕ × Checked ℕ))
      → params.set q p v ≡ (q1, invalid e)
      → CarriesOut params request q1 q2 response
      → CarriesOut params ((p, v) ∷ request) q q2 ((p, invalid e) ∷ response)

module _ {Q : Type 0} (params : X3Params Q) where
  is_read :
      (p v : ℕ) (request : List (ℕ × ℕ)) (q q1 q2 : Q) (response : List (ℕ × Checked ℕ))
      (value : Option ℕ)
      → params.set q p v ≡ (q1, valid tt)
      → params.get q1 p ≡ value
      → CarriesOut params request q1 q2 response
      → CarriesOut params ((p, v) ∷ request) q q2 ((p, ok_or value) ∷ response)
  unfolding ok_or
  is_read p v request q q1 q2 response (some w) e g rest =
      is_set p v w request q q1 q2 response e g rest
  is_read p v request q q1 q2 response none e g rest =
      is_unreadable p v request q q1 q2 response e g rest

  is_answered :
      (p v : ℕ) (request : List (ℕ × ℕ)) (q q1 q2 : Q) (response : List (ℕ × Checked ℕ))
      (result : Checked (Unit {0}))
      → params.set q p v ≡ (q1, result)
      → CarriesOut params request q1 q2 response
      → CarriesOut params ((p, v) ∷ request) q q2 ((p, set_result params q1 p result) ∷ response)
  unfolding set_result
  is_answered p v request q q1 q2 response (valid tt) e rest =
      is_read p v request q q1 q2 response (params.get q1 p) e refl rest
  is_answered p v request q q1 q2 response (invalid x) e rest =
      is_refused p v x request q q1 q2 response e rest

  pub set_read_loop-CarriesOut :
      (request : List (ℕ × ℕ)) (q : Q)
      → CarriesOut params request q
          (set_read_loop params request q).0
          (set_read_loop params request q).1
  unfolding set_read_loop
  set_read_loop-CarriesOut [] q = finished q
  set_read_loop-CarriesOut ((p, v) ∷ request) q =
      let (q1, result) = params.set q p v in
      is_answered p v request q q1 (set_read_loop params request q1).0
        (set_read_loop params request q1).1 result refl (set_read_loop-CarriesOut request q1)

module _ {S Q : Type 0} (circuit : Circuit S) where
  -- The message and the flush, from what the circuit says to the message.
  sends :
      (message : Buf) (pad : Pad S Q) (between : S) (r : Result (Unit {0}))
      → circuit.send pad.svc message true ≡ (between, r)
      → (after : S) × (result : Result (Unit {0})) × Transmits circuit message pad.svc after result
        × (and_then {A = Unit {0}}
              (record pad { svc = between }, r)
              (λ _ pad1.
                (record pad1 { svc = (circuit.flush pad1.svc).0 }, (circuit.flush pad1.svc).1))
            ≡ (record pad { svc = after }, result))
  unfolding and_then
  sends message pad between (ok tt) e =
      let (after, result) = circuit.flush between in
      (after, result, flushed between after result e refl, refl)
  sends message pad between (err x) e = (between, err x, refused between (err x) e (λ h. cc), refl)
  sends message pad between panic e = (between, panic, refused between panic e (λ h. cc), refl)
  sends message pad between stuck e = (between, stuck, refused between stuck e (λ h. cc), refl)

  send_encoded-Transmits :
      (len : ℕ) (message : Buf) (pad : Pad S Q)
      → (after : S) × (r : Result (Unit {0})) × Transmits circuit message pad.svc after r
        × (send_encoded circuit (ok (len, message)) pad ≡ (record pad { svc = after }, r))
  unfolding send_encoded
  send_encoded-Transmits len message pad =
      let (between, r) = circuit.send pad.svc message true in sends message pad between r refl

  or_abandon-channel_after :
      (pad : Pad S Q) (r : Result (Unit {0}))
      → pad.indicate_channel ≡ awaited
      → or_abandon circuit (pad, r) ≡ (record pad { indicate_channel = channel_after r }, r)
  unfolding or_abandon
  or_abandon-channel_after pad (ok tt) e = ap (λ c. (record pad { indicate_channel = c }, ok tt)) e
  or_abandon-channel_after pad (err x) e = refl
  or_abandon-channel_after pad panic e = refl
  or_abandon-channel_after pad stuck e = refl

  done-next_after :
      (pad : Pad S Q) (r : Result (Unit {0})) → done circuit (pad, r) ≡ (pad, next_after r)
  unfolding done or_todo
  done-next_after pad (ok tt) = refl
  done-next_after pad (err x) = refl
  done-next_after pad panic = refl
  done-next_after pad stuck = refl

  -- A request that is sent.
  pub asks-Transmits :
      (len : ℕ) (message : Buf) (pad : Pad S Q)
      → (after : S) × (r : Result (Unit {0})) × Transmits circuit message pad.svc after r
        × (or_abandon circuit
              (send_encoded circuit (ok (len, message)) (record pad { indicate_channel = awaited }))
            ≡ (record pad { svc = after; indicate_channel = channel_after r }, r))
  asks-Transmits len message pad =
      let asking : Pad S Q = record pad { indicate_channel = awaited } in
      let (after, r, t, e) = send_encoded-Transmits len message asking in
      (
        after,
        r,
        t,
        ap (or_abandon circuit) e ∙ or_abandon-channel_after (record asking { svc = after }) r refl,
      )

  -- An answer that is sent.
  pub answers-Transmits :
      (len : ℕ) (message : Buf) (pad : Pad S Q)
      → (after : S) × (r : Result (Unit {0})) × Transmits circuit message pad.svc after r
        × (done circuit (send_encoded circuit (ok (len, message)) pad)
            ≡ (record pad { svc = after }, next_after r))
  answers-Transmits len message pad =
      let (after, r, t, e) = send_encoded-Transmits len message pad in
      (after, r, t, ap (done circuit) e ∙ done-next_after (record pad { svc = after }) r)

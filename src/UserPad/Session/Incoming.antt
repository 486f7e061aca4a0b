-- ===== src/UserPad/Session/Incoming.antt =====
-- An incoming call, from the thread that listens to the loop of the session.
use xotpad.Base.{
  ℕ, suc, ◌≡◌, refl, Bool, true, false, not, ◌&&◌, if◌then◌else◌, List, [], ◌∷◌, ◌++◌, map, take,
  All, none, some, Result, ok, panic,
}
use xotpad.Packet.Call.{X25CallRequest}
use xotpad.Vc.Params.{X25Params}
use xotpad.X28.Command.{clear}
use xotpad.X28.Signal.{display, connected}
use xotpad.Pad.{new}
use xotpad.X29.{pad_protocol, buf_eq}
use xotpad.UserPad.Calls.{should_accept_call}
use xotpad.UserPad.Calls.Acceptance.{is_local, should_accept_call-decides}
use xotpad.UserPad.Session.{
  data_mode, call, Session, Environment, continue, cr_lf, print_signal, replace_call, and_go,
  clear_call,
}
use xotpad.UserPad.Session.Commands.{execute, has_call, clear_current}
use xotpad.UserPad.Session.Step.{
  Answer, refused, announced, accepted, answer, listen, handle_call, step,
}

-- An incoming call, with the circuit and the parameters that accepting it gives.
pub record Incoming (S : Type 0) : Type 0 where
  pub request : X25CallRequest
  pub svc : S
  pub params : X25Params

-- A call of the PAD protocol that is for the local address.
abbrev pub is_fit : {S : Type 0} → X25Params → Incoming S → Bool
is_fit x25_params c =
    is_local c.request x25_params && buf_eq (take 4 c.request.call_user_data) pad_protocol

-- The answer to one that is not.
abbrev pub refusal : {S : Type 0} → X25Params → Incoming S → Result Answer
refusal x25_params c = ok (refused 13 (if is_local c.request x25_params then 64 else 67))

-- The answer when there is a call.
abbrev pub busy : {S : Type 0} → Incoming S → Result Answer
busy c = ok (refused 1 0)

module _ {S : Type 0} (x25_params : X25Params) where
  -- The calls that come in, one after the other, with the answer to each.
  abbrev pub listen_each : List (Incoming S) → Session S → Session S × List (Result Answer)
  listen_each [] s = (s, [])
  listen_each (c ∷ calls) s =
      let (s1, answered) = listen x25_params c.request (ok (c.svc, c.params)) s in
      let (s2, rest) = listen_each calls s1 in (s2, answered ∷ rest)

  -- The session with this call.
  abbrev pub taken : Incoming S → Session S → Session S
  taken c s = replace_call (new c.svc s.x3_params true, c.params) s

  listen_each-busy :
      (calls : List (Incoming S)) (s : Session S)
      → has_call s ≡ true
      → listen_each calls s ≡ (s, map busy calls)
  unfolding listen
  listen_each-busy [] s there = refl
  listen_each-busy (c ∷ calls) s there = rw (there, listen_each-busy calls s there) refl

  unfit :
      (c : Incoming S) (s : Session S)
      → has_call s ≡ false
      → is_fit x25_params c ≡ false
      → listen x25_params c.request (ok (c.svc, c.params)) s ≡ (s, refusal x25_params c)
  unfolding listen answer
  unfit c s free misfit =
      rw (free, should_accept_call-decides c.request x25_params)
        (by_test (is_local c.request x25_params)
          (buf_eq (take 4 c.request.call_user_data) pad_protocol) misfit)
    where
      by_test :
          (here pad_call : Bool)
          → here && pad_call ≡ false
          → answer c.request
              (ok (c.svc, c.params))
              (ok (if not here then some (13, 67) else if pad_call then none else some (13, 64)))
              s
            ≡ (s, ok (refused 13 (if here then 64 else 67)))
      by_test false pad_call e = refl
      by_test true false e = refl
      by_test true true e = cc

  fits :
      (c : Incoming S) (s : Session S)
      → has_call s ≡ false
      → is_fit x25_params c ≡ true
      → listen x25_params c.request (ok (c.svc, c.params)) s
        ≡ (taken c s, ok (announced (call c.request)))
  unfolding listen answer accepted
  fits c s free fit =
      rw (free, should_accept_call-decides c.request x25_params)
        (by_test (is_local c.request x25_params)
          (buf_eq (take 4 c.request.call_user_data) pad_protocol) fit)
    where
      by_test :
          (here pad_call : Bool)
          → here && pad_call ≡ true
          → answer c.request
              (ok (c.svc, c.params))
              (ok (if not here then some (13, 67) else if pad_call then none else some (13, 64)))
              s
            ≡ (taken c s, ok (announced (call c.request)))
      by_test true true e = refl
      by_test true false e = cc
      by_test false pad_call e = cc

  -- When there is no call, and calls come in whose acceptance would not fail, of which none before one, and
  -- this one, is a call of the PAD protocol for the local address: those before it are refused for their
  -- address or their protocol, it becomes the current call on the session's parameters and is announced, and
  -- all that come after it are refused, since there is a call. The loop that takes the announcement while the
  -- call is there is in the data state, shows the connection and starts a thread for what the call receives.
  pub listen_each-first :
      {Link : Type 0} (env : Environment Link S) (now : ℕ) (before after : List (Incoming S))
      (c : Incoming S) (s : Session S)
      → has_call s ≡ false
      → All (λ earlier. is_fit x25_params earlier ≡ false) before
      → is_fit x25_params c ≡ true
      → (listen_each (before ++ (c ∷ after)) s ≡ (
        taken c s,
        map (refusal x25_params) before ++ (ok (announced (call c.request)) ∷ map busy after),
      ))
        × (step env x25_params now (call c.request) (taken c s) ≡ (
          record (taken c s) {
            local_state = data_mode;
            terminal = s.terminal ++ (cr_lf ++ (display (connected (some c.request)) ++ cr_lf));
            remote_threads = suc s.remote_threads;
          },
          ok continue,
        ))
  unfolding step handle_call print_signal
  listen_each-first env now [] after c s free none_fit fit =
      (rw (fits c s free fit, listen_each-busy after (taken c s) refl) refl, refl)
  listen_each-first env now (b ∷ before) after c s free (misfit, none_fit) fit =
      let (rest, shown) = listen_each-first env now before after c s free none_fit fit in
      (rw (unfit b s free misfit, rest) refl, shown)

module _ {S Link : Type 0} (env : Environment Link S) (x25_params : X25Params) (now : ℕ)
    (request : X25CallRequest) (svc : S) (params : X25Params) (s : Session S) where
  -- When the user clears the call before the loop takes its announcement, and the circuit takes the clear
  -- request, the loop panics at the announcement: its call is gone.
  pub listen-race :
      has_call s ≡ false
      → should_accept_call request x25_params ≡ ok none
      → (env.circuit.clear svc 0 0).1 ≡ ok tt
      → s.is_one_shot ≡ false
      → let s1 : Session S = replace_call (new svc s.x3_params true, params) s in
        (listen x25_params request (ok (svc, params)) s ≡ (s1, ok (announced (call request))))
        × ((execute env x25_params (ok clear) s1).1 ≡ ok continue)
        × ((step env x25_params now (call request) (execute env x25_params (ok clear) s1).0).1
            ≡ panic)
  unfolding listen answer accepted execute clear_current clear_call and_go step handle_call
      print_signal new
  listen-race free accept cleared loop =
      (rw (free, accept) refl, rw (cleared, loop) refl, rw cleared refl)

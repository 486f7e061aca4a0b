-- ===== src/UserPad/Session/Linked/Commands.antt =====
-- A command leaves the session linked.
use xotpad.Base.{
  ℕ, ◌≡◌, arith, refl, true, false, List, [], ◌∷◌, map, Option, none, some, Result, ok, err, panic,
  stuck, ◌>>=◌,
}
use xotpad.Vc.Params.{X25Params}
use xotpad.X3.{Checked}
use xotpad.X3.PadParams.{pad_params}
use xotpad.X3.UserPadParams.{UserPadParams, user_params}
use xotpad.X28.Command.{X28Command}
use xotpad.X28.Command as Command
use xotpad.X28.Signal as Signal
use xotpad.X28.Selection.{X28Selection}
use xotpad.Pad.Remote as Remote
use xotpad.Pad.{Pad}
use xotpad.UserPad.Calls as Calls
use xotpad.UserPad.Parameters.{read_params, normalize_read_params_response}
use xotpad.UserPad.Session.{
  command, Session, Environment, Flow, continue, print_signal, with_pad, clear_call,
}
use xotpad.UserPad.Session.Commands.{
  execute, ok_of, filter_ok, show_set, after_call, select, unless_one_shot, clear_current,
  read_local, set_local, show_remote, if_connected, read_remote, set_remote, invite, await,
}
use xotpad.UserPad.Session.Linked.Rounds.{
  is_linked, Keeps, linked, and_go-Keeps, with_pad-is_linked,
}

module _ {S Link : Type 0} (env : Environment Link S) where
  -- A command is only read in the command state.
  after_call-Keeps :
      (x25_params : X25Params) (r : Result (Pad S UserPadParams × X25Params)) (s : Session S)
      → is_linked s ≡ true
      → Keeps (after_call env x25_params r s)
  unfolding after_call
  after_call-Keeps x25_params (ok c) s h = λ _. refl
  after_call-Keeps x25_params (err e) s h = λ _. h
  after_call-Keeps x25_params panic s h = λ e. cc
  after_call-Keeps x25_params stuck s h = λ e. cc

  select-Keeps :
      (x25_params : X25Params) (c : Option (Pad S UserPadParams × X25Params)) (to : X28Selection)
      (s : Session S)
      → is_linked s ≡ true
      → Keeps (select env x25_params c to s)
  unfolding select
  select-Keeps x25_params (some _) to s h = λ _. h
  select-Keeps x25_params none to s h =
      after_call-Keeps x25_params (Calls.call env.connect env.svc_call to s.x3_params x25_params) s
        h

  unless_one_shot-Keeps : (s : Session S) → is_linked s ≡ true → Keeps (unless_one_shot s)
  unless_one_shot-Keeps s h = λ _. h

  clear_current-Keeps :
      (x25_params : X25Params) (c : Option (Pad S UserPadParams × X25Params)) (s : Session S)
      → s.local_state ≡ command
      → Keeps (clear_current env x25_params c s)
  unfolding clear_current clear_call print_signal
  clear_current-Keeps x25_params none s h = λ _. rw h refl
  clear_current-Keeps x25_params (some (pad, _)) s h =
      and_go-Keeps (clear_call env pad s)
        (λ _ s1. unless_one_shot (print_signal (Signal.cleared none) false s1)) λ _ _ _. rw h refl

  read_local-Keeps :
      (r : Result (List (ℕ × Option ℕ))) (s : Session S)
      → is_linked s ≡ true
      → Keeps (read_local r s)
  unfolding read_local
  read_local-Keeps (ok response) s h = λ _. h
  read_local-Keeps (err _) s h = λ e. cc
  read_local-Keeps panic s h = λ e. cc
  read_local-Keeps stuck s h = λ e. cc

  show_remote-Keeps :
      (x : Session S × Result (List (ℕ × Checked ℕ))) → is_linked x.0 ≡ true → Keeps (show_remote x)
  unfolding show_remote
  show_remote-Keeps (s, ok response) h = λ _. h
  show_remote-Keeps (s, err e) h = ground arith
  show_remote-Keeps (s, panic) h = λ e. cc
  show_remote-Keeps (s, stuck) h = λ e. cc

  if_connected-Keeps :
      (x25_params : X25Params)
      (act : Pad S UserPadParams × X25Params → Session S → Session S × Result Flow)
      (c : Option (Pad S UserPadParams × X25Params)) (s : Session S)
      → is_linked s ≡ true
      → ((c' : Pad S UserPadParams × X25Params) → Keeps (act c' s))
      → Keeps (if_connected env x25_params act c s)
  unfolding if_connected
  if_connected-Keeps x25_params act none s h k = λ _. h
  if_connected-Keeps x25_params act (some c) s h k = k c

  show_set-is_linked :
      (response : List (ℕ × Checked ℕ)) (s : Session S)
      → s.local_state ≡ command
      → is_linked (show_set response s) ≡ true
  unfolding show_set
  show_set-is_linked [] s h = linked s h
  show_set-is_linked (r ∷ response) s h = linked s h

  pub execute-Keeps :
      (x25_params : X25Params) (r : Result X28Command) (s : Session S)
      → s.local_state ≡ command
      → Keeps (execute env x25_params r s)
  unfolding execute read_remote set_remote invite
  execute-Keeps x25_params (ok (Command.selection to)) s h =
      select-Keeps x25_params s.current_call to s (linked s h)
  execute-Keeps x25_params (ok Command.clear) s h =
      clear_current-Keeps x25_params s.current_call s h
  execute-Keeps x25_params (ok (Command.read request)) s h =
      read_local-Keeps (read_params (pad_params user_params) s.x3_params request) s (linked s h)
  execute-Keeps x25_params (ok (Command.set request)) s h =
      λ _. show_set-is_linked (filter_ok (set_local request s).1) (set_local request s).0 h
  execute-Keeps x25_params (ok (Command.set_read request)) s h = λ _. linked s h
  execute-Keeps x25_params (ok (Command.remote_read request)) s h =
      if_connected-Keeps x25_params (read_remote env x25_params request) s.current_call s
        (linked s h)
        λ c.
          let (s1, answer) =
            with_pad
              (λ pad. await env x25_params (Remote.get_remote_params env.circuit request pad)) c
              s in
          show_remote-Keeps
            (s1, answer >>= λ response. ok (normalize_read_params_response (map ok_of response)))
            (with_pad-is_linked
              (λ pad. await env x25_params (Remote.get_remote_params env.circuit request pad)) c s)
  execute-Keeps x25_params (ok (Command.remote_set_read request)) s h =
      if_connected-Keeps x25_params (set_remote env x25_params request) s.current_call s
        (linked s h)
        λ c.
          show_remote-Keeps
            (with_pad
              (λ pad. await env x25_params (Remote.set_remote_params env.circuit request pad)) c s)
            (with_pad-is_linked
              (λ pad. await env x25_params (Remote.set_remote_params env.circuit request pad)) c s)
  execute-Keeps x25_params (ok Command.status) s h = λ _. linked s h
  execute-Keeps x25_params (ok Command.invite_clear) s h =
      if_connected-Keeps x25_params (invite env x25_params) s.current_call s (linked s h) λ c.
        and_go-Keeps (with_pad (Remote.invite_clear env.circuit) c s) (λ _ s1. (s1, ok continue))
          λ _ _ _. with_pad-is_linked (Remote.invite_clear env.circuit) c s
  execute-Keeps x25_params (ok (Command.help subject)) s h = λ _. linked s h
  execute-Keeps x25_params (err _) s h = λ _. linked s h
  execute-Keeps x25_params panic s h = λ e. cc
  execute-Keeps x25_params stuck s h = λ e. cc

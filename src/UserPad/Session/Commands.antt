-- ===== src/UserPad/Session/Commands.antt =====
-- The commands of a user: what `run` of src/user_pad.rs does with each.
use xotpad.Base.{
  ℕ, Bool, true, false, ◌||◌, List, [], ◌∷◌, ◌++◌, map, is_empty, if◌then◌else◌, Buf, Option, none,
  some, Result, ok, err, panic, stuck, timed_out, ◌>>=◌,
}
use xotpad.X3.{Checked, valid, invalid}
use xotpad.X3.PadParams.{pad_params}
use xotpad.X3.UserPadParams.{UserPadParams, user_params}
use xotpad.Vc.Params.{X25Params}
use xotpad.X28.Text.{codes, to_uppercase}
use xotpad.X29.{buf_eq}
use xotpad.X28.Selection.{X28Selection}
use xotpad.X28.Command.{
  X28Command, selection, clear, read, set, set_read, remote_read, remote_set_read, status,
  invite_clear, help,
}
use xotpad.X28.Signal as Signal
use xotpad.X28.Signal.{X28Signal, connected, free, engaged, local_params, remote_params}
use xotpad.Pad.{Pad}
use xotpad.Pad.Remote as Remote
use xotpad.Pad.Remote.{recv_indicate}
use xotpad.UserPad.Parameters.{read_params, set_params, normalize_read_params_response}
use xotpad.UserPad.Calls as Calls
use xotpad.UserPad.Session.{
  Session, Environment, Flow, continue, finished, data_mode, print, cr_lf, print_signal,
  spawn_remote_thread, replace_call, with_pad, and_go, clear_call,
}

-- `filter(|(_, r)| r.is_ok())`, which is said to keep the invalid ones.
unfoldable pub filter_ok : List (ℕ × Checked ℕ) → List (ℕ × Checked ℕ)
filter_ok [] = []
filter_ok ((p, valid v) ∷ response) = (p, valid v) ∷ filter_ok response
filter_ok ((p, invalid e) ∷ response) = filter_ok response

-- `(p, r.ok())`, of the answer to `get_remote_params`.
abbrev pub ok_of : ℕ × Checked ℕ → ℕ × Option ℕ
ok_of (p, valid v) = (p, some v)
ok_of (p, invalid e) = (p, none)

unfoldable pub print_help : Buf → Buf → Buf → Buf
unfolding to_uppercase buf_eq
print_help about year subject =
    let wanted = to_uppercase subject in
    cr_lf
    ++ ((if is_empty wanted || buf_eq wanted (codes "HELP")
          then codes "xotpad - "
            ++ (about
                ++ (cr_lf
                    ++ (cr_lf
                        ++ (codes "For more information on X.25 networking in "
                            ++ (year ++ (codes ", visit https://x25.org" ++ cr_lf))))))
          else codes "No help for subject, try HELP for a description of the HELP command" ++ cr_lf)
        ++ cr_lf)

module _ {S : Type 0} where
  abbrev pub go_ahead : Session S → Session S × Result Flow
  go_ahead s = (s, ok continue)

  abbrev pub has_call : Session S → Bool
  has_call s = elim s.current_call [ some _ ↦ true | none ↦ false ]

  -- The parameters that are set, and the answer.
  unfoldable pub set_local : List (ℕ × ℕ) → Session S → Session S × List (ℕ × Checked ℕ)
  unfolding set_params
  set_local request s =
      let (x3_params, response) = set_params (pad_params user_params) s.x3_params request in
      (record s { x3_params = x3_params }, response)

  -- Nothing is shown when there is nothing to show.
  unfoldable pub show_set : List (ℕ × Checked ℕ) → Session S → Session S
  unfolding print_signal
  show_set [] s = s
  show_set (r ∷ response) s = print_signal (local_params (r ∷ response)) false s

  unfoldable pub read_local : Result (List (ℕ × Option ℕ)) → Session S → Session S × Result Flow
  unfolding print_signal normalize_read_params_response
  read_local (ok response) s =
      go_ahead (print_signal (local_params (normalize_read_params_response response)) false s)
  read_local (err e) s = (s, err e)
  read_local panic s = (s, panic)
  read_local stuck s = (s, stuck)

  -- The end of a request to the other PAD: what timed out is only a warning.
  unfoldable pub show_remote : Session S × Result (List (ℕ × Checked ℕ)) → Session S × Result Flow
  unfolding print_signal
  show_remote (s, ok response) = go_ahead (print_signal (remote_params response) false s)
  show_remote (s, err timed_out) = go_ahead s
  show_remote (s, err e) = (s, err e)
  show_remote (s, panic) = (s, panic)
  show_remote (s, stuck) = (s, stuck)

  abbrev pub unless_one_shot : Session S → Session S × Result Flow
  unless_one_shot s = (s, ok (if s.is_one_shot then finished else continue))

  module _ {Link : Type 0} (env : Environment Link S) (x25_params : X25Params) where
    unfoldable pub after_call :
        Result (Pad S UserPadParams × X25Params) → Session S → Session S × Result Flow
    unfolding print_signal
    after_call (ok c) s = go_ahead (
        spawn_remote_thread (record (print_signal (connected none) false (replace_call c s)) {
          local_state = data_mode;
        }))
    after_call (err e) s =
        go_ahead (print (codes "SOMETHING WENT WRONG: " ++ (env.describe e ++ cr_lf)) s)
    after_call panic s = (s, panic)
    after_call stuck s = (s, stuck)

    unfoldable pub select :
        Option (Pad S UserPadParams × X25Params)
        → X28Selection
        → Session S
        → Session S × Result Flow
    unfolding after_call print_signal
    select (some _) to s = go_ahead (print_signal Signal.error false s)
    select none to s = after_call (Calls.call env.connect env.svc_call to s.x3_params x25_params) s

    unfoldable pub clear_current :
        Option (Pad S UserPadParams × X25Params) → Session S → Session S × Result Flow
    unfolding and_go clear_call print_signal
    clear_current (some (pad, _)) s =
        and_go (clear_call env pad s)
          λ _ s1. unless_one_shot (print_signal (Signal.cleared none) false s1)
    clear_current none s = unless_one_shot (print_signal Signal.error false s)

    -- After a message to the other PAD: the wait for its indication.
    unfoldable pub await :
        Pad S UserPadParams × Result (Unit {0})
        → Pad S UserPadParams × Result (List (ℕ × Checked ℕ))
    unfolding recv_indicate
    await (pad, ok _) = let pad1 = env.threads pad in recv_indicate pad1.indications pad1
    await (pad, err e) = (pad, err e)
    await (pad, panic) = (pad, panic)
    await (pad, stuck) = (pad, stuck)

    -- What is done with the call that is there; without one the signal is an error.
    unfoldable pub if_connected :
        (Pad S UserPadParams × X25Params → Session S → Session S × Result Flow)
        → Option (Pad S UserPadParams × X25Params)
        → Session S
        → Session S × Result Flow
    unfolding print_signal
    if_connected act (some c) s = act c s
    if_connected act none s = go_ahead (print_signal Signal.error false s)

    unfoldable pub read_remote :
        List ℕ → Pad S UserPadParams × X25Params → Session S → Session S × Result Flow
    unfolding with_pad await show_remote normalize_read_params_response
    read_remote request c s =
        let (s1, answer) =
          with_pad (λ pad. await (Remote.get_remote_params env.circuit request pad)) c s in
        show_remote
          (s1, answer >>= λ response. ok (normalize_read_params_response (map ok_of response)))

    unfoldable pub set_remote :
        List (ℕ × ℕ) → Pad S UserPadParams × X25Params → Session S → Session S × Result Flow
    unfolding with_pad await show_remote
    set_remote request c s =
        show_remote (with_pad (λ pad. await (Remote.set_remote_params env.circuit request pad)) c s)

    unfoldable pub invite : Pad S UserPadParams × X25Params → Session S → Session S × Result Flow
    unfolding with_pad and_go
    invite c s = and_go (with_pad (Remote.invite_clear env.circuit) c s) λ _ s1. go_ahead s1

    -- The `match` on the command.
    unfoldable pub execute : Result X28Command → Session S → Session S × Result Flow
    unfolding select clear_current read_local set_local filter_ok show_set if_connected read_remote
        set_remote invite print_help print_signal read_params
    execute (ok (selection to)) s = select s.current_call to s
    execute (ok clear) s = clear_current s.current_call s
    execute (ok (read request)) s =
        read_local (read_params (pad_params user_params) s.x3_params request) s
    execute (ok (set request)) s =
        let (s1, response) = set_local request s in go_ahead (show_set (filter_ok response) s1)
    execute (ok (set_read request)) s =
        let (s1, response) = set_local request s in
        go_ahead (print_signal (local_params response) false s1)
    execute (ok (remote_read request)) s = if_connected (read_remote request) s.current_call s
    execute (ok (remote_set_read request)) s = if_connected (set_remote request) s.current_call s
    execute (ok status) s = go_ahead (print_signal (if has_call s then engaged else free) false s)
    execute (ok invite_clear) s = if_connected invite s.current_call s
    execute (ok (help subject)) s = go_ahead (print (print_help env.about env.year subject) s)
    execute (err _) s = go_ahead (print_signal Signal.error false s)
    execute panic s = (s, panic)
    execute stuck s = (s, stuck)

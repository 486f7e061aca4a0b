-- ===== src/UserPad/Session/Linked.antt =====
-- The state of the session and its call: data can only be typed while there is a call.
pub mod Rounds
pub mod Data
pub mod Commands
use xotpad.Base.{
  ℕ, ◌≡◌, arith, refl, ap, sym, ◌∙◌, Bool, true, false, not, ◌&&◌, ◌||◌, List, [], ◌∷◌, ◌++◌, map,
  ◌==◌, is_empty, if◌then◌else◌, Buf, put_u8, Option, none, some, Result, ok, err, panic, stuck,
  Error, ◌>>=◌, All, Ensures, holds, Ensures-bind, Ensures-intro, Ensures-ok, Bool-cases, inl, inr,
}
use xotpad.Packet.Call.{X25CallRequest}
use xotpad.Vc.Params.{X25Params}
use xotpad.X3.{Checked, bool_from}
use xotpad.X3.PadParams.{PadParams, pad_params}
use xotpad.X3.UserPadParams.{
  UserPadParams, user_params, char_delete_is_match, line_delete_is_match, line_display_is_match,
}
use xotpad.X28.Command.{X28Command}
use xotpad.X28.Command as Command
use xotpad.X29.{buf_eq}
use xotpad.X28.Signal as Signal
use xotpad.X28.Text.{codes, trim, to_uppercase}
use xotpad.X28.Selection.{X28Selection}
use xotpad.Pad.Remote as Remote
use xotpad.Pad.{Pad, flush, write}
use xotpad.UserPad.CommandLine.{handle_command_input, handle_char_delete}
use xotpad.UserPad.Calls as Calls
use xotpad.UserPad.Parameters.{read_params, normalize_read_params_response}
use xotpad.UserPad.Session.{
  PadLocalState, command, data_mode, Arrival, arrived, failed, PadInput, call, local, remote,
  Session, Environment, Flow, continue, finished, print, cr_lf, print_prompt, print_signal,
  is_command, ensure_command, spawn_remote_thread, replace_call, take_call, with_pad, and_go,
  write_all, clear_call,
}
use xotpad.UserPad.Session.Data.{
  edited, echo_data, go_on, end_line, put_echoed, put_in_line, edit_line, handle_editing,
  handle_call_data, handle_data_byte,
}
use xotpad.UserPad.Session.Commands.{
  execute, has_call, ok_of, filter_ok, show_set, after_call, select, unless_one_shot, clear_current,
  read_local, set_local, show_remote, if_connected, read_remote, set_remote, invite, await,
}
use xotpad.UserPad.Session.Step.{
  or_finished, drop_call, handle_call, end_command, after_command, handle_remote_end, handle_remote,
  handle_local_end, exit, handle_interrupt, handle_escape, handle_line, handle_command,
  handle_local, step,
}
use xotpad.UserPad.Session.Linked.Rounds.{
  is_linked, Keeps, is_ending, moved, linked, ensure_command-is_linked, handle_call-Keeps,
  or_finished-Keeps, handle_remote_end-Keeps, handle_remote-Keeps, and_go-Keeps, with_pad-is_linked,
  exit-Keeps, handle_interrupt-Keeps, handle_escape-Keeps,
}
use xotpad.UserPad.Session.Run.{start, run_loop}
use xotpad.UserPad.Session.Linked.Data.{handle_data_byte-Keeps}
use xotpad.UserPad.Session.Linked.Commands.{execute-Keeps}

module _ {S Link : Type 0} (env : Environment Link S) where
  end_command-is_linked : (s : Session S) → is_linked s ≡ true → Keeps (end_command s)
  unfolding end_command print_prompt
  end_command-is_linked s h = ground arith

  after_command-Keeps :
      (f : Flow) (s : Session S) → (f ≡ continue → is_linked s ≡ true) → Keeps (after_command f s)
  unfolding after_command
  after_command-Keeps continue s h = end_command-is_linked s (h refl)
  after_command-Keeps finished s h = λ e. cc

  handle_line-Keeps :
      (x25_params : X25Params) (line : Buf) (s : Session S)
      → s.local_state ≡ command
      → Keeps (handle_line env x25_params line s)
  unfolding handle_line
  handle_line-Keeps x25_params line s h = elim (Bool-cases (is_empty (trim line))) [
    | inl blank ↦ rw blank (end_command-is_linked s (linked s h))
    | inr some_text ↦
        rw some_text (elim (Bool-cases (buf_eq (to_uppercase (trim line)) (codes "EXIT"))) [
          | inl leave ↦ rw leave (exit-Keeps env s.current_call s)
          | inr other ↦ rw other (
              and_go-Keeps (execute env x25_params (Command.from_str (trim line)) s) after_command
                λ f e.
                  after_command-Keeps f (execute env x25_params (Command.from_str (trim line)) s).0
                    λ c.
                      execute-Keeps env x25_params (Command.from_str (trim line)) s h (e ∙ ap ok c))
        ])
  ]

  handle_command-Keeps :
      (x25_params : X25Params) (r : Result (Buf × Buf × Option Buf)) (s : Session S)
      → s.local_state ≡ command
      → Keeps (handle_command env x25_params r s)
  unfolding handle_command
  handle_command-Keeps x25_params (ok (buf, written, none)) s h = λ _. linked s h
  handle_command-Keeps x25_params (ok (buf, written, some line)) s h =
      handle_line-Keeps x25_params line (record (print written s) { command_buf = buf }) h
  handle_command-Keeps x25_params (err _) s h = λ e. cc
  handle_command-Keeps x25_params panic s h = λ e. cc
  handle_command-Keeps x25_params stuck s h = λ e. cc

  handle_local-Keeps :
      (x25_params : X25Params) (now : ℕ) (state : PadLocalState) (byte : ℕ) (s : Session S)
      → state ≡ s.local_state
      → is_linked s ≡ true
      → Keeps (handle_local env x25_params now state byte s)
  unfolding handle_local
  handle_local-Keeps x25_params now command byte s e h = elim (Bool-cases (byte == 0x03)) [
    | inl interrupt ↦ rw interrupt (handle_interrupt-Keeps env s h)
    | inr other ↦ rw other (elim (Bool-cases (byte == 0x10)) [
      | inl escape ↦ rw escape (handle_escape-Keeps env now s.current_call s h)
      | inr other ↦ rw other (
          handle_command-Keeps x25_params
            (handle_command_input env.is_utf8 env.windows s.command_buf byte) s (sym e))
    ])
  ]
  handle_local-Keeps x25_params now data_mode byte s e h = elim (Bool-cases (byte == 0x10)) [
    | inl escape ↦ rw escape (λ _. ensure_command-is_linked true s)
    | inr other ↦ rw other (handle_data_byte-Keeps env now byte s h)
  ]

  step-is_linked :
      (x25_params : X25Params) (now : ℕ) (input : PadInput) (s s1 : Session S)
      → is_ending input ≡ false
      → is_linked s ≡ true
      → step env x25_params now input s ≡ (s1, ok continue)
      → is_linked s1 ≡ true
  unfolding step
  step-is_linked x25_params now (call request) s s1 n h e =
      moved (handle_call-Keeps request s.current_call s refl) e
  step-is_linked x25_params now (remote a) s s1 n h e = moved (handle_remote-Keeps env a s h) e
  step-is_linked x25_params now (local (arrived (some byte))) s s1 n h e =
      moved (handle_local-Keeps x25_params now s.local_state byte s refl h) e
  step-is_linked x25_params now (local (arrived none)) s s1 n h e = cc
  step-is_linked x25_params now (local (failed _)) s s1 n h e = cc

  started :
      (x25_params : X25Params) (x3_params : PadParams UserPadParams) (initial : Option X28Selection)
      → Ensures (λ s. is_linked s ≡ true) (start env x25_params x3_params initial)
  unfolding start print_prompt
  started x25_params x3_params none = holds refl
  started x25_params x3_params (some selection) =
      Ensures-bind
        (Ensures-intro {P = λ _. Unit {0}}
          (Calls.call env.connect env.svc_call selection x3_params x25_params) λ _ _. tt)
        λ c _. holds refl

  -- A loop that goes on did so at its first round.
  and_go-continues :
      (x : Session S × Result Flow) (rest : Session S → Session S × Result Flow) (s1 : Session S)
      → and_go x (λ flow s. elim flow [ continue ↦ rest s | finished ↦ (s, ok finished) ])
        ≡ (s1, ok continue)
      → (x.1 ≡ ok continue) × (rest x.0 ≡ (s1, ok continue))
  unfolding and_go
  and_go-continues (s, ok continue) rest s1 e = (refl, e)
  and_go-continues (s, ok finished) rest s1 e = cc
  and_go-continues (s, err _) rest s1 e = cc
  and_go-continues (s, panic) rest s1 e = cc
  and_go-continues (s, stuck) rest s1 e = cc

  run_loop-is_linked :
      (x25_params : X25Params) (inputs : List (ℕ × PadInput)) (s s1 : Session S)
      → All (λ (_, input). is_ending input ≡ false) inputs
      → is_linked s ≡ true
      → run_loop env x25_params inputs s ≡ (s1, ok continue)
      → is_linked s1 ≡ true
  unfolding run_loop
  run_loop-is_linked x25_params [] s s1 n h e = ap (λ x. is_linked x.0) (sym e) ∙ h
  run_loop-is_linked x25_params ((now, input) ∷ inputs) s s1 (n, ns) h e =
      let (c, r) =
        and_go-continues (step env x25_params now input s) (run_loop env x25_params inputs) s1 e in
      run_loop-is_linked x25_params inputs (step env x25_params now input s).0 s1 ns
        (step-is_linked x25_params now input s (step env x25_params now input s).0 n h
          (ap (λ r. ((step env x25_params now input s).0, r)) c))
        r

  -- A session that was started, with a selection or without, and has then taken any inputs but the end of
  -- the user's input: while its loop goes on, the state is Command or there is a call.
  pub run-is_linked :
      (x25_params : X25Params) (x3_params : PadParams UserPadParams) (initial : Option X28Selection)
      (inputs : List (ℕ × PadInput)) (s s1 : Session S)
      → All (λ (_, input). is_ending input ≡ false) inputs
      → start env x25_params x3_params initial ≡ ok s
      → run_loop env x25_params inputs s ≡ (s1, ok continue)
      → is_linked s1 ≡ true
  run-is_linked x25_params x3_params initial inputs s s1 n b e =
      run_loop-is_linked x25_params inputs s s1 n
        (Ensures-ok (started x25_params x3_params initial) b) e

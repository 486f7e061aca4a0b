-- ===== src/UserPad/Session/Step.antt =====
-- One round of the loop of `run` in src/user_pad.rs, and one round of the thread that listens.
use xotpad.Base.{
  ℕ, true, false, [], ◌∷◌, ◌++◌, ◌==◌, is_empty, if◌then◌else◌, Buf, Option, none, some, Result, ok,
  err, panic, stuck,
}
use xotpad.Packet.Call.{X25CallRequest}
use xotpad.Vc.Params.{X25Params}
use xotpad.X3.UserPadParams.{UserPadParams}
use xotpad.X28.Text.{codes, trim, to_uppercase}
use xotpad.X29.{buf_eq}
use xotpad.X28.Command as Command
use xotpad.X28.Signal as Signal
use xotpad.X28.Signal.{connected}
use xotpad.Pad.{Pad, flush, new}
use xotpad.UserPad.CommandLine.{handle_command_input}
use xotpad.UserPad.Calls.{should_accept_call}
use xotpad.UserPad.Session.{
  PadLocalState, command, data_mode, Arrival, arrived, failed, PadInput, call, local, remote,
  Session, Environment, Flow, continue, finished, print, cr_lf, print_prompt, print_signal,
  ensure_command, spawn_remote_thread, replace_call, take_call, and_go, write_all, clear_call,
}
use xotpad.UserPad.Session.Data.{handle_data_byte}
use xotpad.UserPad.Session.Commands.{execute, has_call}

module _ {S : Type 0} where
  unfoldable pub handle_call :
      X25CallRequest
      → Option (Pad S UserPadParams × X25Params)
      → Session S
      → Session S × Result Flow
  unfolding print_signal
  handle_call request c s =
      let s1 : Session S = record (print_signal (connected (some request)) true s) {
        local_state = data_mode;
      } in
      elim c [ none ↦ (s1, panic) | some _ ↦ (spawn_remote_thread s1, ok continue) ]

  -- The end of a command line, where the loop goes on.
  unfoldable pub end_command : Session S → Session S × Result Flow
  unfolding print_prompt
  end_command s = (
    elim s.current_call [ some _ ↦ record s { local_state = data_mode } | none ↦ print_prompt s ],
    ok continue,
  )

  unfoldable pub after_command : Flow → Session S → Session S × Result Flow
  unfolding end_command
  after_command continue s = end_command s
  after_command finished s = (s, ok finished)

  abbrev pub or_finished : Session S → Session S × Result Flow → Session S × Result Flow
  or_finished ended rest = if ended.is_one_shot then (ended, ok finished) else rest

  module _ {Link : Type 0} (env : Environment Link S) where
    -- The remote party cleared, or the session did before.
    unfoldable pub handle_remote_end :
        Option (Pad S UserPadParams × X25Params) → Session S → Session S × Result Flow
    unfolding print_signal ensure_command
    handle_remote_end (some (pad, _)) s =
        let s1 = take_call pad s in
        or_finished s1 (
          ensure_command false (print_signal (Signal.cleared (env.cleared pad.svc)) true s1),
          ok continue,
        )
    handle_remote_end none s = or_finished s (ensure_command true s, ok continue)

    abbrev pub drop_call : Option (Pad S UserPadParams × X25Params) → Session S → Session S
    drop_call (some (pad, _)) s = take_call pad s
    drop_call none s = s

    unfoldable pub handle_remote : Arrival (Option Buf) → Session S → Session S × Result Flow
    unfolding handle_remote_end ensure_command
    handle_remote (arrived (some buf)) s = (print buf s, ok continue)
    handle_remote (arrived none) s = handle_remote_end s.current_call s
    handle_remote (failed e) s =
        let s1 =
          drop_call s.current_call
            (print (codes "remote error: " ++ (env.debug e ++ (0x0a ∷ []))) s) in
        or_finished s1 (ensure_command true s1, ok continue)

    -- The end of the user's input: what is queued is sent, and the call is cleared.
    unfoldable pub handle_local_end :
        Option (Pad S UserPadParams × X25Params) → Session S → Session S × Result Flow
    unfolding and_go clear_call flush
    handle_local_end none s = (s, ok continue)
    handle_local_end (some (pad, _)) s =
        let (pad1, result) = flush env.circuit (record pad { params = s.x3_params }) in
        elim result [
          | ok _ ↦ and_go (clear_call env pad1 s) λ _ s1. (s1, ok continue)
          | err e ↦ (take_call pad1 s, err e)
          | panic ↦ (take_call pad1 s, panic)
          | stuck ↦ (take_call pad1 s, stuck)
        ]

    -- `if let Some((pad, _)) = current_call.take() { pad.into_svc().clear(0, 0)? }`, and the loop ends.
    unfoldable pub exit :
        Option (Pad S UserPadParams × X25Params) → Session S → Session S × Result Flow
    unfolding and_go clear_call
    exit (some (pad, _)) s = and_go (clear_call env pad s) λ _ s1. (s1, ok finished)
    exit none s = (s, ok finished)

    unfoldable pub handle_interrupt : Session S → Session S × Result Flow
    unfolding exit print_prompt
    handle_interrupt s =
        if is_empty s.command_buf
        then exit s.current_call s
        else (print_prompt (print cr_lf (record s { command_buf = [] })), ok continue)

    -- Ctrl+P in the command state.
    unfoldable pub handle_escape :
        ℕ → Option (Pad S UserPadParams × X25Params) → Session S → Session S × Result Flow
    unfolding and_go write_all
    handle_escape now none s = (s, ok continue)
    handle_escape now (some c) s =
        if is_empty s.command_buf
        then and_go (write_all env now (0x10 ∷ []) c s)
            (λ _ s1. (record (print cr_lf s1) { local_state = data_mode }, ok continue))
        else (s, ok continue)

    module _ (x25_params : X25Params) where
      unfoldable pub handle_line : Buf → Session S → Session S × Result Flow
      unfolding exit execute after_command end_command and_go
      handle_line line s =
          let trimmed = trim line in
          if is_empty trimmed
          then end_command s
          else if buf_eq (to_uppercase trimmed) (codes "EXIT")
          then exit s.current_call s
          else and_go (execute env x25_params (Command.from_str trimmed) s) after_command

      unfoldable pub handle_command :
          Result (Buf × Buf × Option Buf) → Session S → Session S × Result Flow
      unfolding handle_line
      handle_command (ok (buf, written, none)) s =
          (record (print written s) { command_buf = buf }, ok continue)
      handle_command (ok (buf, written, some line)) s =
          handle_line line (record (print written s) { command_buf = buf })
      handle_command (err e) s = (s, err e)
      handle_command panic s = (s, panic)
      handle_command stuck s = (s, stuck)

      unfoldable pub handle_local : ℕ → PadLocalState → ℕ → Session S → Session S × Result Flow
      unfolding handle_interrupt handle_escape handle_command handle_command_input ensure_command
          handle_data_byte
      handle_local now command byte s =
          if byte == 0x03
          then handle_interrupt s
          else if byte == 0x10
          then handle_escape now s.current_call s
          else handle_command (handle_command_input env.is_utf8 env.windows s.command_buf byte) s
      handle_local now data_mode byte s =
          if byte == 0x10
          then (ensure_command true s, ok continue)
          else handle_data_byte env now byte s

      -- One round, at this time.
      unfoldable pub step : ℕ → PadInput → Session S → Session S × Result Flow
      unfolding handle_call handle_remote handle_local_end handle_local
      step now (call request) s = handle_call request s.current_call s
      step now (remote arrival) s = handle_remote arrival s
      step now (local (arrived (some byte))) s = handle_local now s.local_state byte s
      step now (local (arrived none)) s = handle_local_end s.current_call s
      step now (local (failed _)) s = handle_local_end s.current_call s

-- What the listener does with an incoming call.
pub data Answer : Type 0 where
  refused : ℕ → ℕ → Answer
  announced : PadInput → Answer

module _ {S : Type 0} where
  -- The `unwrap` of `accept`, whose result is the circuit and its parameters.
  unfoldable pub accepted :
      X25CallRequest → Result (S × X25Params) → Session S → Session S × Result Answer
  unfolding new
  accepted request (ok (svc, params)) s =
      (replace_call (new svc s.x3_params true, params) s, ok (announced (call request)))
  accepted request _ s = (s, panic)

  unfoldable pub answer :
      X25CallRequest
      → Result (S × X25Params)
      → Result (Option (ℕ × ℕ))
      → Session S
      → Session S × Result Answer
  unfolding accepted
  answer request accept (ok none) s = accepted request accept s
  answer request accept (ok (some (cause_code, diagnostic_code))) s =
      (s, ok (refused cause_code diagnostic_code))
  answer request accept (err e) s = (s, err e)
  answer request accept panic s = (s, panic)
  answer request accept stuck s = (s, stuck)

  -- One round of the thread that listens, on a call that came in; `accept` is what accepting it gives.
  unfoldable pub listen :
      X25Params → X25CallRequest → Result (S × X25Params) → Session S → Session S × Result Answer
  unfolding answer should_accept_call
  listen x25_params request accept s =
      if has_call s
      then (s, ok (refused 1 0))
      else answer request accept (should_accept_call request x25_params) s

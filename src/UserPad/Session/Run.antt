-- ===== src/UserPad/Session/Run.antt =====
-- The whole of `run` in src/user_pad.rs, on the inputs that it takes from its channel.
use xotpad.Base.{ℕ, true, false, List, [], ◌∷◌, Option, none, some, Result, ok, ◌>>=◌}
use xotpad.Vc.Params.{X25Params}
use xotpad.X3.PadParams.{PadParams}
use xotpad.X3.UserPadParams.{UserPadParams}
use xotpad.X28.Selection.{X28Selection}
use xotpad.UserPad.Calls as Calls
use xotpad.UserPad.Session.{
  command, data_mode, PadInput, Session, Environment, Flow, continue, finished, print_prompt,
  spawn_remote_thread, replace_call, and_go,
}
use xotpad.UserPad.Session.Step.{step}

abbrev pub idle_session : {S : Type 0} → PadParams UserPadParams → Session S
idle_session x3_params = record {
  local_state = command;
  is_one_shot = false;
  x3_params = x3_params;
  current_call = none;
  command_buf = [];
  line_buf = [];
  terminal = [];
  remote_threads = 0;
  released = [];
}

module _ {S Link : Type 0} (env : Environment Link S) (x25_params : X25Params) where
  -- What comes before the loop, without the threads and with the parameters of the profile.
  unfoldable pub start : PadParams UserPadParams → Option X28Selection → Result (Session S)
  unfolding print_prompt
  start x3_params none = ok (print_prompt (idle_session x3_params))
  start x3_params (some selection) = do
    c ← Calls.call env.connect env.svc_call selection x3_params x25_params
    ok (
        spawn_remote_thread (record (replace_call c (idle_session x3_params)) {
          local_state = data_mode;
          is_one_shot = true;
        }))

  -- The loop, which ends when its inputs do; each has the time at which it is handled.
  unfoldable pub run_loop : List (ℕ × PadInput) → Session S → Session S × Result Flow
  unfolding and_go step
  run_loop [] s = (s, ok continue)
  run_loop ((now, input) ∷ inputs) s =
      and_go (step env x25_params now input s)
        λ flow s1. elim flow [ continue ↦ run_loop inputs s1 | finished ↦ (s1, ok finished) ]

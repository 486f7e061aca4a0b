-- ===== src/Tests/SessionWitnesses.antt =====
-- The theorems about commands, sessions and the configuration at concrete inputs.
use xotpad.Base.{
  ℕ, ◌≡◌, arith, refl, true, false, List, [], ◌∷◌, ◌++◌, Buf, none, some, Result, ok, panic,
  Returns, ◌>>=◌,
}
use xotpad.Seq.{normal}
use xotpad.X121 as X121
use xotpad.X121.{X121Addr, null, is_null, starts_with}
use xotpad.X28.Selection as Selection
use xotpad.UserPad.Calls as Calls
use xotpad.Packet.Call.{X25CallRequest}
use xotpad.Vc.Params.{X25Params, create_call_request}
use xotpad.X3.PadParams as PadParams
use xotpad.X3.UserPadParams as UserPadParams
use xotpad.X3.PadParams.{PadParams, pad_params}
use xotpad.X3.UserPadParams.{
  UserPadParams, user_params, is_char_delete, char_delete_is_match, line_delete_is_match,
  line_display_is_match,
}
use xotpad.X29.{indicate, pad_protocol}
use xotpad.X28.Text.{codes, trim}
use xotpad.X28.Command as Command
use xotpad.X28.Command.Total.{IsCommand, from_str-IsCommand}
use xotpad.X28.Signal.{display, connected}
use xotpad.Pad.{Circuit, Pad, new, idle}
use xotpad.UserPad.Parameters.{read_params, set_params, normalize_read_params_response}
use xotpad.UserPad.Session.{
  Session, Environment, continue, data_mode, arrived, PadInput, call, local, remote, cr_lf,
  print_prompt, replace_call,
}
use xotpad.UserPad.Session.Commands.{execute}
use xotpad.UserPad.Session.Step.{refused, announced, listen, step}
use xotpad.UserPad.Session.Run.{idle_session, start, run_loop}
use xotpad.UserPad.Session.Linked.Rounds.{is_linked}
use xotpad.UserPad.Session.Linked.{run-is_linked}
use xotpad.UserPad.Session.Lines.{typing, given, run_loop-line}
use xotpad.UserPad.Session.Restoring.{set_line, run_loop-set_line}
use xotpad.UserPad.Session.Refusals.{execute-refused}
use xotpad.UserPad.Session.Incoming.{Incoming, listen_each, listen_each-first, listen-race}
use xotpad.UserPad.Parameters.Agreement.{local_answer, commands-handle}
use xotpad.UserPad.Calls.{pad_call, should_accept_call}
use xotpad.UserPad.Calls.Acceptance.{should_accept_call-pad_call}
use xotpad.Pad.Remote as Remote
use xotpad.Xot.Resolver.{RegexLibrary, connect}
use xotpad.Main.{Config, load_config}
use xotpad.Main.Gateway.{load_config-connect}

-- A circuit that keeps what it is given, and takes all of it.
abbrev circuit : Circuit (List Buf)
circuit = record {
  send = λ sent buf qualifier. (sent ++ (buf ∷ []), ok tt);
  flush = λ sent. (sent, ok tt);
  clear = λ sent cause_code diagnostic_code. (sent, ok tt);
  packet_size = λ sent. 128;
}

abbrev env : Environment (Unit {0}) (List Buf)
env = record {
  circuit = circuit;
  cleared = λ sent. none;
  connect = λ addr. ok tt;
  svc_call = λ link channel addr call_user_data params. ok [];
  threads = λ pad. pad;
  is_utf8 = λ buf. true;
  windows = false;
  describe = λ e. [];
  debug = λ e. [];
  about = [];
  year = [];
}

abbrev x25_params : X25Params
x25_params = record {
  addr = null;
  modulo = normal;
  send_packet_size = 128;
  send_window_size = 2;
  recv_packet_size = 128;
  recv_window_size = 2;
  t21 = 5;
  t22 = 5;
  t23 = 5;
}

abbrev user : UserPadParams
user = record {
  char_delete = record { raw = 127 };
  line_delete = record { raw = 24 };
  line_display = record { raw = 18 };
}

abbrev profile : PadParams UserPadParams
profile = record {
  echo = record { raw = 1 };
  forward = record { raw = 126 };
  idle = record { raw = 0 };
  lf_insert = record { raw = 4 };
  editing = record { raw = 1 };
  delegate = some user;
}

abbrev session : Session (List Buf)
session = idle_session profile

abbrev current : Pad (List Buf) UserPadParams × X25Params
current = (
  record {
    svc = [];
    params = profile;
    should_suppress_echo_when_editing = true;
    send_queue = [];
    send_deadline = none;
    recv_queue = [];
    recv_end = false;
    indicate_channel = idle;
    indications = [];
  },
  x25_params,
)

abbrev editing : Session (List Buf)
editing = record session {
  local_state = data_mode;
  current_call = some current;
  line_buf = b'o' ∷ [];
}

abbrev request : X25CallRequest
request = create_call_request 1 (record { addr = b'1' ∷ [] }) pad_protocol x25_params

from_str-IsCommand_example : Returns IsCommand (Command.from_str (codes "par? 1"))
from_str-IsCommand_example =
    from_str-IsCommand (codes "par? 1")
      (omega arith, (omega arith, (omega arith, (omega arith, (omega arith, (omega arith, tt))))))

commands-handle_example :
    (local_answer user_params user ((17, 8) ∷ [])
      ≡ Remote.set_read_params user_params user ((17, 8) ∷ []))
    × ((read_params user_params user [] >>= λ response.
          ok (indicate (normalize_read_params_response response)))
        ≡ Remote.read_params user_params user [])
commands-handle_example = commands-handle user_params user (17, 8) [] []

should_accept_call-pad_call_example :
    (pad : Pad X25CallRequest UserPadParams) × (pad_call {Link = Unit {0}}
        (λ _ channel to user_data params. ok (create_call_request channel to user_data params))
        tt
        1
        (record { addr = b'1' ∷ b'2' ∷ [] })
        (b'x' ∷ [])
        x25_params
        profile
        true
      ≡ ok pad)
    × (should_accept_call pad.svc (record x25_params { addr = record { addr = b'1' ∷ [] } })
        ≡ ok none)
unfolding is_null starts_with
should_accept_call-pad_call_example =
    should_accept_call-pad_call (record { addr = b'1' ∷ b'2' ∷ [] }) (b'x' ∷ []) x25_params
      (record x25_params { addr = record { addr = b'1' ∷ [] } }) profile (omega arith) refl

-- A call is made, data are typed, and the remote party clears.
abbrev inputs : List (ℕ × PadInput)
inputs =
    typing 0 (codes "12\r") ++ ((1, local (arrived (some b'x'))) ∷ (2, remote (arrived none)) ∷ [])

run-is_linked_example : is_linked (run_loop env x25_params inputs (print_prompt session)).0 ≡ true
unfolding start run_loop is_char_delete trim Command.from_str Selection.from_str X121.from_str
    Calls.call char_delete_is_match line_delete_is_match line_display_is_match
run-is_linked_example =
    run-is_linked env x25_params profile none inputs (print_prompt session)
      (run_loop env x25_params inputs (print_prompt session)).0
      (refl, (refl, (refl, (refl, (refl, tt))))) refl refl

run_loop-line_example :
    run_loop env x25_params (typing 7 (codes "hi\r")) editing
    ≡ given env x25_params 7 current (codes "ohi\r") (codes "hi\r\n") editing
unfolding run_loop char_delete_is_match line_delete_is_match line_display_is_match
run_loop-line_example =
    run_loop-line env x25_params true user current 7 (codes "hi") editing refl refl
      (record { in_data = refl; connected = refl; delegate = refl; editing = refl; echoing = refl })

run_loop-set_line_example :
    let (s1, r) =
      run_loop env x25_params (typing 0 (set_line (2, 0) ((13, 7) ∷ []) ++ (0x0d ∷ []))) session in
    (s1.x3_params ≡ (set_params (pad_params user_params) profile ((2, 0) ∷ (13, 7) ∷ [])).0)
    × (r ≡ ok continue)
run_loop-set_line_example =
    run_loop-set_line env x25_params 0 (2, 0) ((13, 7) ∷ []) session
      ((omega arith, omega arith), ((omega arith, omega arith), tt)) refl refl refl

execute-refused_example :
    execute env x25_params (ok (Command.set ((99, 0) ∷ (2, 9) ∷ []))) session
    ≡ (session, ok continue)
unfolding set_params PadParams.set UserPadParams.set
execute-refused_example = execute-refused env x25_params ((99, 0) ∷ (2, 9) ∷ []) session refl

abbrev incoming : Incoming (List Buf)
incoming = record { request = request; svc = []; params = x25_params }

-- A call of another protocol.
abbrev other_protocol : Incoming (List Buf)
other_protocol = record incoming { request = record request { call_user_data = [] } }

listen_each-first_example :
    (listen_each x25_params (other_protocol ∷ incoming ∷ incoming ∷ []) session ≡ (
      replace_call (new [] profile true, x25_params) session,
      ok (refused 13 64) ∷ ok (announced (call request)) ∷ ok (refused 1 0) ∷ [],
    ))
    × (step env x25_params 0 (call request) (replace_call (new [] profile true, x25_params) session)
        ≡ (
          record (replace_call (new [] profile true, x25_params) session) {
            local_state = data_mode;
            terminal = cr_lf ++ (display (connected (some request)) ++ cr_lf);
            remote_threads = 1;
          },
          ok continue,
        ))
unfolding create_call_request is_null xotpad.X29.buf_eq
listen_each-first_example =
    listen_each-first x25_params env 0 (other_protocol ∷ []) (incoming ∷ []) incoming session refl
      (refl, tt) refl

listen-race_example :
    let s1 : Session (List Buf) = replace_call (new [] profile true, x25_params) session in
    (listen x25_params request (ok ([], x25_params)) session ≡ (s1, ok (announced (call request))))
    × ((execute env x25_params (ok Command.clear) s1).1 ≡ ok continue)
    × ((step env x25_params 0 (call request) (execute env x25_params (ok Command.clear) s1).0).1
        ≡ panic)
unfolding should_accept_call create_call_request
listen-race_example = listen-race env x25_params 0 request [] x25_params session refl refl refl refl

abbrev dial : Buf → ℕ → Result (Buf × ℕ)
dial host port = ok (host, port)

-- A library that takes every expression, which then matches every text.
abbrev library : RegexLibrary Buf
library = record { new = λ text. some text; captures = λ regex text. some [] }

load_config-connect_example :
    (config : Config Buf) × (load_config library true (record {
      local_addr = none;
      xot_gateway = some (codes "gw");
      x3_profile = codes "default";
    })
      ≡ ok config)
    × ((addr : X121Addr) → connect library dial addr config.resolver ≡ ok (codes "gw", 1998))
load_config-connect_example =
    load_config-connect library true (codes ".*") dial none (codes "gw") refl (λ text. refl) refl

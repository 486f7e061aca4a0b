-- ===== src/UserPad/Session.antt =====
-- The session of a user: the state of `run` in src/user_pad.rs. The children have what it does with a
-- byte of data (Data), with a command (Commands), and with its inputs (Step).
pub mod Data
pub mod Commands
pub mod Step
pub mod Run
pub mod Incoming
pub mod Linked
pub mod Lines
pub mod Typing
pub mod Refusals
pub mod Restoring
use xotpad.Base.{
  ℕ, suc, ◌+◌, Bool, true, false, not, ◌&&◌, List, [], ◌∷◌, ◌++◌, is_empty, if◌then◌else◌, Buf,
  Option, none, some, Result, ok, err, panic, stuck, Error, ◌>>=◌,
}
use xotpad.X121.{X121Addr}
use xotpad.Packet.Call.{X25CallRequest}
use xotpad.Vc.Params.{X25Params}
use xotpad.X3.PadParams.{PadParams}
use xotpad.X3.UserPadParams.{UserPadParams}
use xotpad.X28.Text.{codes}
use xotpad.X28.Signal.{X28Signal, display}
use xotpad.Pad.{Circuit, Pad, and_then, write}

pub data PadLocalState : Type 0 where
  command : PadLocalState
  data_mode : PadLocalState

-- `io::Result<T>` of a message.
pub data Arrival (A : Type 0) : Type 0 where
  arrived : A → Arrival A
  failed : Error → Arrival A

pub data PadInput : Type 0 where
  call : X25CallRequest → PadInput
  local : Arrival (Option ℕ) → PadInput
  remote : Arrival (Option Buf) → PadInput

-- Whether the loop goes on.
pub data Flow : Type 0 where
  continue : Flow
  finished : Flow

-- What the session uses of the rest: the virtual circuits, `xot::connect` and `Svc::call`, what the
-- threads of a PAD do while the session waits for an indication, how an error is printed, the text of the
-- program and the year.
pub record Environment (Link S : Type 0) : Type 0 where
  pub circuit : Circuit S
  pub cleared : S → Option (ℕ × ℕ)
  pub connect : X121Addr → Result Link
  pub svc_call : Link → ℕ → X121Addr → Buf → X25Params → Result S
  pub threads : Pad S UserPadParams → Pad S UserPadParams
  pub is_utf8 : Buf → Bool
  pub windows : Bool
  pub describe : Error → Buf
  pub debug : Error → Buf
  pub about : Buf
  pub year : Buf

-- The parameters are one object that the session shares with its PAD: `x3_params` is what they are, and
-- a PAD runs on them. `released` has the circuits that the session gave up, which their threads still use;
-- `remote_threads` counts the threads that were started to read from a PAD. What was written to the
-- terminal is kept, the terminal takes all.
pub record Session (S : Type 0) : Type 0 where
  pub local_state : PadLocalState
  pub is_one_shot : Bool
  pub x3_params : PadParams UserPadParams
  pub current_call : Option (Pad S UserPadParams × X25Params)
  pub command_buf : Buf
  pub line_buf : Buf
  pub terminal : Buf
  pub remote_threads : ℕ
  pub released : List S

abbrev pub cr_lf : Buf
cr_lf = 0x0d ∷ 0x0a ∷ []

abbrev pub is_command : PadLocalState → Bool
is_command command = true
is_command data_mode = false

module _ {S : Type 0} where
  abbrev pub print : Buf → Session S → Session S
  print text s = record s { terminal = s.terminal ++ text }

  unfoldable pub print_prompt : Session S → Session S
  print_prompt s = print (b'*' ∷ []) s

  unfoldable pub print_signal : X28Signal → Bool → Session S → Session S
  unfolding display
  print_signal signal new_line s =
      print ((if new_line then cr_lf else []) ++ (display signal ++ cr_lf)) s

  unfoldable pub ensure_command : Bool → Session S → Session S
  unfolding print_prompt
  ensure_command new_line s =
      if is_command s.local_state
      then s
      else record (print_prompt (if new_line then print cr_lf s else s)) { local_state = command }

  -- Only that it was started; what it reads comes as an input.
  abbrev pub spawn_remote_thread : Session S → Session S
  spawn_remote_thread s = record s { remote_threads = suc s.remote_threads }

  -- `current_call.replace(call)`
  abbrev pub replace_call : Pad S UserPadParams × X25Params → Session S → Session S
  replace_call (pad, x25_params) s = record s { current_call = some (pad, x25_params) }

  -- `current_call.take()` and `pad.into_svc()`, of the call that is there.
  abbrev pub take_call : Pad S UserPadParams → Session S → Session S
  take_call pad s = record s { current_call = none; released = s.released ++ (pad.svc ∷ []) }

  -- The PAD of a call runs on the session's parameters.
  unfoldable pub with_pad :
      {A : Type 0}
      → (Pad S UserPadParams → Pad S UserPadParams × Result A)
      → Pad S UserPadParams × X25Params
      → Session S
      → Session S × Result A
  with_pad run (pad, x25_params) s =
      let (pad1, result) = run (record pad { params = s.x3_params }) in
      (record s { current_call = some (pad1, x25_params); x3_params = pad1.params }, result)

  -- `?`, where the loop goes on with what follows.
  unfoldable pub and_go :
      {A : Type 0}
      → Session S × Result A
      → (A → Session S → Session S × Result Flow)
      → Session S × Result Flow
  and_go (s, ok a) next = next a s
  and_go (s, err e) next = (s, err e)
  and_go (s, panic) next = (s, panic)
  and_go (s, stuck) next = (s, stuck)

  module _ {Link : Type 0} (env : Environment Link S) where
    -- `pad.write_all`: `write` takes the whole buffer.
    unfoldable pub write_all :
        ℕ → Buf → Pad S UserPadParams × X25Params → Session S → Session S × Result ℕ
    unfolding with_pad
    write_all now buf c s = with_pad (write env.circuit now buf) c s

    -- `pad.into_svc().clear(0, 0)`, of a call that was taken.
    unfoldable pub clear_call : Pad S UserPadParams → Session S → Session S × Result (Unit {0})
    clear_call pad s =
        let (svc, result) = env.circuit.clear pad.svc 0 0 in
        (take_call (record pad { svc = svc }) s, result)

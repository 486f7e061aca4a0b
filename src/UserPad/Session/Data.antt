-- ===== src/UserPad/Session/Data.antt =====
-- A byte that the user types while there is a call: the data of src/user_pad.rs.
use xotpad.Base.{
  ℕ, Bool, true, false, [], ◌∷◌, ◌++◌, ◌==◌, is_empty, if◌then◌else◌, Buf, put_u8, Option, some,
  Result, ok, err, panic, stuck,
}
use xotpad.Vc.Params.{X25Params}
use xotpad.X3.{bool_from, after_echo}
use xotpad.X3.UserPadParams.{
  UserPadParams, char_delete_is_match, line_delete_is_match, line_display_is_match,
}
use xotpad.Pad.{Pad, with_lf}
use xotpad.UserPad.CommandLine.{handle_char_delete}
use xotpad.UserPad.Session.{Session, Environment, Flow, continue, print, cr_lf, and_go, write_all}

-- What is left, and what is written.
unfoldable pub handle_line_delete : Buf → Buf × Buf
handle_line_delete buf = if is_empty buf then (buf, []) else ([], b'X' ∷ b'X' ∷ b'X' ∷ cr_lf)

unfoldable pub handle_line_display : Buf → Buf
handle_line_display buf = cr_lf ++ buf

module _ {S : Type 0} where
  -- The line buffer after an editing character, and what it writes.
  unfoldable pub edited : Buf × Buf → Session S → Session S
  edited (buf, written) s = record (print written s) { line_buf = buf }

  unfoldable pub echo_data : Bool → ℕ → Session S → Session S
  unfolding after_echo
  echo_data should_echo byte s =
      print (if should_echo then with_lf (after_echo s.x3_params.lf_insert byte) byte else []) s

  module _ {Link : Type 0} (env : Environment Link S) where
    abbrev pub go_on : Session S × Result ℕ → Session S × Result Flow
    go_on x = and_go x λ _ s. (s, ok continue)

    -- The line is given to the PAD at its carriage return.
    unfoldable pub end_line :
        ℕ → ℕ → Pad S UserPadParams × X25Params → Session S → Session S × Result Flow
    unfolding and_go write_all
    end_line now byte c s =
        if byte == 0x0d
        then go_on (write_all env now s.line_buf c (record s { line_buf = [] }))
        else (s, ok continue)

    unfoldable pub put_echoed :
        Result Bool → ℕ → ℕ → Pad S UserPadParams × X25Params → Session S → Session S × Result Flow
    unfolding echo_data end_line
    put_echoed (ok echo) now byte c s = end_line now byte c (echo_data echo byte s)
    put_echoed (err e) now byte c s = (s, err e)
    put_echoed panic now byte c s = (s, panic)
    put_echoed stuck now byte c s = (s, stuck)

    -- A byte that is kept in the line.
    unfoldable pub put_in_line :
        ℕ → ℕ → Pad S UserPadParams × X25Params → Session S → Session S × Result Flow
    unfolding put_echoed
    put_in_line now byte c s =
        put_echoed (bool_from s.x3_params.echo.raw) now byte c
          (record s { line_buf = put_u8 s.line_buf byte })

    unfoldable pub edit_line :
        ℕ
        → ℕ
        → UserPadParams
        → Pad S UserPadParams × X25Params
        → Session S
        → Session S × Result Flow
    unfolding edited handle_char_delete handle_line_delete handle_line_display put_in_line
    edit_line now byte params c s =
        if char_delete_is_match env.windows params.char_delete byte
        then (edited (handle_char_delete s.line_buf) s, ok continue)
        else if line_delete_is_match params.line_delete byte
        then (edited (handle_line_delete s.line_buf) s, ok continue)
        else if line_display_is_match params.line_display byte
        then (print (handle_line_display s.line_buf) s, ok continue)
        else put_in_line now byte c s

    unfoldable pub handle_editing :
        Result Bool
        → ℕ
        → ℕ
        → UserPadParams
        → Pad S UserPadParams × X25Params
        → Session S
        → Session S × Result Flow
    unfolding edit_line write_all and_go
    handle_editing (ok true) now byte params c s = edit_line now byte params c s
    handle_editing (ok false) now byte params c s = go_on (write_all env now (byte ∷ []) c s)
    handle_editing (err e) now byte params c s = (s, err e)
    handle_editing panic now byte params c s = (s, panic)
    handle_editing stuck now byte params c s = (s, stuck)

    -- The `unwrap`s of the call and of the delegate.
    unfoldable pub handle_call_data :
        Option (Pad S UserPadParams × X25Params)
        → Option UserPadParams
        → ℕ
        → ℕ
        → Session S
        → Session S × Result Flow
    unfolding handle_editing bool_from
    handle_call_data (some c) (some params) now byte s =
        handle_editing (bool_from s.x3_params.editing.raw) now byte params c s
    handle_call_data _ _ now byte s = (s, panic)

    unfoldable pub handle_data_byte : ℕ → ℕ → Session S → Session S × Result Flow
    unfolding handle_call_data
    handle_data_byte now byte s = handle_call_data s.current_call s.x3_params.delegate now byte s

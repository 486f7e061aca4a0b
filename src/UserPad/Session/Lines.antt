-- ===== src/UserPad/Session/Lines.antt =====
-- Lines of data that the user types, when the PAD has its editing on.
use xotpad.Base.{
  ℕ, ◌≡◌, arith, refl, ap, ap₂, sym, ◌∙◌, Bool, true, false, not, ◌&&◌, List, [], ◌∷◌, ◌++◌, map,
  append_assoc, append-nil, all, ◌==◌, if◌then◌else◌, Buf, put_u8, some, Result, ok, err, panic,
  stuck,
}
use xotpad.Vc.Params.{X25Params}
use xotpad.X3.{bool_from, after_echo, X3LfInsert}
use xotpad.X3.UserPadParams.{
  UserPadParams, char_delete_is_match, line_delete_is_match, line_display_is_match,
}
use xotpad.Pad.{Pad, with_lf}
use xotpad.UserPad.Session.{
  data_mode, arrived, PadInput, local, Session, Environment, Flow, continue, finished, and_go,
  write_all,
}
use xotpad.UserPad.Session.Data.{
  echo_data, go_on, end_line, put_echoed, put_in_line, edit_line, handle_editing, handle_call_data,
  handle_data_byte,
}
use xotpad.UserPad.Session.Step.{handle_local, step}
use xotpad.UserPad.Session.Run.{run_loop}

-- The bytes that the user types, all at this time.
abbrev pub typing : ℕ → Buf → List (ℕ × PadInput)
typing now bytes = map (λ byte. (now, local (arrived (some byte)))) bytes

-- What is shown of them.
abbrev pub echo_of : Bool → X3LfInsert → Buf → Buf
echo_of echo lf_insert [] = []
echo_of echo lf_insert (byte ∷ bytes) =
    (if echo then with_lf (after_echo lf_insert byte) byte else []) ++ echo_of echo lf_insert bytes

module _ {S Link : Type 0} (env : Environment Link S) (x25_params : X25Params) where
  -- No editing character, and not Ctrl+P.
  abbrev pub is_ordinary : UserPadParams → ℕ → Bool
  is_ordinary params byte =
      not (char_delete_is_match env.windows params.char_delete byte)
      && (not (line_delete_is_match params.line_delete byte)
          && (not (line_display_is_match params.line_display byte) && not (byte == 0x10)))

  -- The line is given to the PAD, and its echo is on the terminal.
  abbrev pub given :
      ℕ → Pad S UserPadParams × X25Params → Buf → Buf → Session S → Session S × Result Flow
  given now c bytes shown s =
      go_on env (write_all env now bytes c (record s { line_buf = []; terminal = shown }))

  -- The session with a line that is being edited.
  pub record IsEditing (echo : Bool) (params : UserPadParams) (c : Pad S UserPadParams × X25Params)
      (s : Session S) : Type 0 where
    pub in_data : s.local_state ≡ data_mode
    pub connected : s.current_call ≡ some c
    pub delegate : s.x3_params.delegate ≡ some params
    pub editing : bool_from s.x3_params.editing.raw ≡ ok true
    pub echoing : bool_from s.x3_params.echo.raw ≡ ok echo

  module _ (echo : Bool) (params : UserPadParams) (c : Pad S UserPadParams × X25Params)
      (now : ℕ) where
    -- One ordinary byte.
    edit_ordinary :
        (byte : ℕ) (s : Session S)
        → is_ordinary params byte ≡ true
        → IsEditing echo params c s
        → step env x25_params now (local (arrived (some byte))) s
          ≡ end_line env now byte c
              (echo_data echo byte (record s { line_buf = put_u8 s.line_buf byte }))
    unfolding step handle_local handle_data_byte handle_call_data handle_editing edit_line
        put_in_line put_echoed
    edit_ordinary byte s o i =
        let keeps : (byte == 0x10) ≡ false = ground arith in
        let no_delete : char_delete_is_match env.windows params.char_delete byte ≡ false =
          ground arith in
        let no_kill : line_delete_is_match params.line_delete byte ≡ false = ground arith in
        let no_show : line_display_is_match params.line_display byte ≡ false = ground arith in
        ap (λ l. handle_local env x25_params now l byte s) i.in_data
        ∙ rw keeps refl
        ∙ ap₂ (λ c d. handle_call_data env c d now byte s) i.connected i.delegate
        ∙ ap (λ e. handle_editing env e now byte params c s) i.editing
        ∙ rw (no_delete, no_kill, no_show) refl
        ∙ ap (λ e. put_echoed env e now byte c (record s { line_buf = put_u8 s.line_buf byte }))
            i.echoing

    last_round :
        (x : Session S × Result ℕ)
        → and_go (go_on env x) (λ flow s1. elim flow [
          | continue ↦ run_loop env x25_params [] s1
          | finished ↦ (s1, ok finished)
        ])
          ≡ go_on env x
    unfolding and_go run_loop
    last_round (s, ok n) = refl
    last_round (s, err e) = refl
    last_round (s, panic) = refl
    last_round (s, stuck) = refl

    abbrev shown_after : Buf → Session S → Buf
    shown_after bytes s = s.terminal ++ echo_of echo s.x3_params.lf_insert bytes

    -- A line of ordinary bytes, typed while the PAD edits it, is only shown, as the echo is set, until its
    -- carriage return; then the PAD is given all of it at once, behind what was in the line already and
    -- with the carriage return, and the next line is empty.
    pub run_loop-line :
        (line : Buf) (s : Session S)
        → all (λ byte. is_ordinary params byte && not (byte == 0x0d)) line ≡ true
        → is_ordinary params 0x0d ≡ true
        → IsEditing echo params c s
        → run_loop env x25_params (typing now (line ++ (0x0d ∷ []))) s
          ≡ given now c
              (s.line_buf ++ (line ++ (0x0d ∷ [])))
              (shown_after (line ++ (0x0d ∷ [])) s)
              s
    unfolding run_loop end_line echo_data
    run_loop-line [] s h o i =
        ap
          (λ x. and_go x (λ flow s1. elim flow [
            | continue ↦ run_loop env x25_params [] s1
            | finished ↦ (s1, ok finished)
          ]))
          (edit_ordinary 0x0d s o i)
        ∙ last_round (
            write_all env now (put_u8 s.line_buf 0x0d) c
              (record (echo_data echo 0x0d (record s { line_buf = put_u8 s.line_buf 0x0d })) {
                line_buf = [];
              }))
        ∙ ap (λ e. given now c (put_u8 s.line_buf 0x0d) (s.terminal ++ e) s)
            (sym (
              append-nil
                (if echo then with_lf (after_echo s.x3_params.lf_insert 0x0d) 0x0d else [])))
    run_loop-line (byte ∷ line) s h o i =
        let s1 : Session S = echo_data echo byte (record s { line_buf = put_u8 s.line_buf byte }) in
        let other : (byte == 0x0d) ≡ false = ground arith in
        let plain : is_ordinary params byte ≡ true = ground arith in
        let kept : end_line env now byte c s1 ≡ (s1, ok continue) = rw other refl in
        ap
          (λ x. and_go x (λ flow s2. elim flow [
            | continue ↦ run_loop env x25_params (typing now (line ++ (0x0d ∷ []))) s2
            | finished ↦ (s2, ok finished)
          ]))
          (edit_ordinary byte s plain i ∙ kept)
        ∙ run_loop-line line s1 (ground arith) o (record {
          in_data = i.in_data;
          connected = i.connected;
          delegate = i.delegate;
          editing = i.editing;
          echoing = i.echoing;
        })
        ∙ ap₂ (λ bytes shown. given now c bytes shown s)
            (append_assoc s.line_buf (byte ∷ []) (line ++ (0x0d ∷ [])))
            (append_assoc s.terminal
              (if echo then with_lf (after_echo s.x3_params.lf_insert byte) byte else [])
              (echo_of echo s.x3_params.lf_insert (line ++ (0x0d ∷ []))))

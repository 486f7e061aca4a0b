-- ===== src/UserPad/Session/Linked/Data.antt =====
-- A byte of data leaves the session linked.
use xotpad.Base.{
  ℕ, ◌≡◌, refl, ◌∙◌, Bool, true, false, [], ◌∷◌, ◌==◌, Buf, put_u8, Option, none, some, Result, ok,
  err, panic, stuck, Bool-cases, inl, inr,
}
use xotpad.Vc.Params.{X25Params}
use xotpad.X3.{bool_from}
use xotpad.X3.UserPadParams.{
  UserPadParams, char_delete_is_match, line_delete_is_match, line_display_is_match,
}
use xotpad.Pad.{Pad, write}
use xotpad.UserPad.Session.{Session, Environment, continue, write_all}
use xotpad.UserPad.Session.Data.{
  edited, echo_data, go_on, end_line, put_echoed, put_in_line, edit_line, handle_editing,
  handle_call_data, handle_data_byte,
}
use xotpad.UserPad.Session.Linked.Rounds.{is_linked, Keeps, and_go-Keeps, with_pad-is_linked}

module _ {S Link : Type 0} (env : Environment Link S) where
  -- A byte of data leaves the call where it is.
  go_on-Keeps :
      (now : ℕ) (buf : Buf) (c : Pad S UserPadParams × X25Params) (s : Session S)
      → Keeps (go_on env (write_all env now buf c s))
  unfolding write_all
  go_on-Keeps now buf c s =
      and_go-Keeps (write_all env now buf c s) (λ _ s1. (s1, ok continue))
        λ _ _ _. with_pad-is_linked (write env.circuit now buf) c s

  end_line-Keeps :
      (now byte : ℕ) (c : Pad S UserPadParams × X25Params) (s : Session S)
      → is_linked s ≡ true
      → Keeps (end_line env now byte c s)
  unfolding end_line
  end_line-Keeps now byte c s h = elim (Bool-cases (byte == 0x0d)) [
    | inl cr ↦ rw cr (go_on-Keeps now s.line_buf c (record s { line_buf = [] }))
    | inr other ↦ rw other (λ _. h)
  ]

  echo_data-is_linked :
      (echo : Bool) (byte : ℕ) (s : Session S) → is_linked (echo_data echo byte s) ≡ is_linked s
  unfolding echo_data
  echo_data-is_linked true byte s = refl
  echo_data-is_linked false byte s = refl

  put_echoed-Keeps :
      (echo : Result Bool) (now byte : ℕ) (c : Pad S UserPadParams × X25Params) (s : Session S)
      → is_linked s ≡ true
      → Keeps (put_echoed env echo now byte c s)
  unfolding put_echoed
  put_echoed-Keeps (ok echo) now byte c s h =
      end_line-Keeps now byte c (echo_data echo byte s) (echo_data-is_linked echo byte s ∙ h)
  put_echoed-Keeps (err _) now byte c s h = λ e. cc
  put_echoed-Keeps panic now byte c s h = λ e. cc
  put_echoed-Keeps stuck now byte c s h = λ e. cc

  edit_line-Keeps :
      (now byte : ℕ) (params : UserPadParams) (c : Pad S UserPadParams × X25Params) (s : Session S)
      → is_linked s ≡ true
      → Keeps (edit_line env now byte params c s)
  unfolding edit_line edited put_in_line
  edit_line-Keeps now byte params c s h =
      elim (Bool-cases (char_delete_is_match env.windows params.char_delete byte)) [
        | inl here ↦ rw here (λ _. h)
        | inr other ↦ rw other (elim (Bool-cases (line_delete_is_match params.line_delete byte)) [
          | inl here ↦ rw here (λ _. h)
          | inr other ↦
              rw other (elim (Bool-cases (line_display_is_match params.line_display byte)) [
                | inl here ↦ rw here (λ _. h)
                | inr other ↦ rw other (
                    put_echoed-Keeps (bool_from s.x3_params.echo.raw) now byte c
                      (record s { line_buf = put_u8 s.line_buf byte }) h)
              ])
        ])
      ]

  handle_editing-Keeps :
      (editing : Result Bool) (now byte : ℕ) (params : UserPadParams)
      (c : Pad S UserPadParams × X25Params) (s : Session S)
      → is_linked s ≡ true
      → Keeps (handle_editing env editing now byte params c s)
  unfolding handle_editing
  handle_editing-Keeps (ok true) now byte params c s h = edit_line-Keeps now byte params c s h
  handle_editing-Keeps (ok false) now byte params c s h = go_on-Keeps now (byte ∷ []) c s
  handle_editing-Keeps (err _) now byte params c s h = λ e. cc
  handle_editing-Keeps panic now byte params c s h = λ e. cc
  handle_editing-Keeps stuck now byte params c s h = λ e. cc

  pub handle_data_byte-Keeps :
      (now byte : ℕ) (s : Session S) → is_linked s ≡ true → Keeps (handle_data_byte env now byte s)
  unfolding handle_data_byte handle_call_data
  handle_data_byte-Keeps now byte s h = by_call s.current_call s.x3_params.delegate
    where
      by_call :
          (c : Option (Pad S UserPadParams × X25Params)) (d : Option UserPadParams)
          → Keeps (handle_call_data env c d now byte s)
      by_call (some c) (some params) =
          handle_editing-Keeps (bool_from s.x3_params.editing.raw) now byte params c s h
      by_call (some c) none = λ e. cc
      by_call none d = λ e. cc

-- ===== src/UserPad/Session/Typing.antt =====
-- Commands that the user types.
use xotpad.Base.{
  ℕ, ◌≡◌, arith, refl, ap, ap₂, sym, ◌∙◌, true, false, [], ◌∷◌, ◌++◌, append_assoc, append-nil, all,
  ◌==◌, Buf, some, Result, ok, err, panic, stuck,
}
use xotpad.Vc.Params.{X25Params}
use xotpad.UserPad.CommandLine.{handle_command_input}
use xotpad.UserPad.CommandLine.Escapes.{is_plain, all-snoc}
use xotpad.UserPad.CommandLine.Plain.{handle_command_input-is_plain}
use xotpad.UserPad.Session.{
  command, arrived, local, Session, Environment, Flow, continue, finished, print, cr_lf, and_go,
}
use xotpad.UserPad.Session.Step.{handle_line, handle_command, handle_local, step}
use xotpad.UserPad.Session.Run.{run_loop}
use xotpad.UserPad.Session.Lines.{typing}

module _ {S Link : Type 0} (env : Environment Link S) (x25_params : X25Params) (now : ℕ) where
  -- One printable character on a command line of such.
  type_plain :
      (byte : ℕ) (s : Session S)
      → is_plain byte ≡ true
      → all is_plain s.command_buf ≡ true
      → s.local_state ≡ command
      → step env x25_params now (local (arrived (some byte))) s
        ≡ (record (print (byte ∷ []) s) { command_buf = s.command_buf ++ (byte ∷ []) }, ok continue)
  unfolding step handle_local handle_command
  type_plain byte s plain h state =
      let other : (byte == 0x03) ≡ false = ground arith in
      let other' : (byte == 0x10) ≡ false = ground arith in
      ap (λ l. handle_local env x25_params now l byte s) state
      ∙ rw (other, other') refl
      ∙ ap (λ r. handle_command env x25_params r s)
          (handle_command_input-is_plain env.is_utf8 env.windows s.command_buf byte h plain)

  type_return :
      (s : Session S)
      → env.is_utf8 s.command_buf ≡ true
      → s.local_state ≡ command
      → step env x25_params now (local (arrived (some 0x0d))) s
        ≡ handle_line env x25_params s.command_buf (record (print cr_lf s) { command_buf = [] })
  unfolding step handle_local handle_command handle_command_input
  type_return s u state = ap (λ l. handle_local env x25_params now l 0x0d s) state ∙ rw u refl

  last_round :
      (x : Session S × Result Flow)
      → and_go x (λ flow s1. elim flow [
        | continue ↦ run_loop env x25_params [] s1
        | finished ↦ (s1, ok finished)
      ])
        ≡ x
  unfolding and_go run_loop
  last_round (s, ok continue) = refl
  last_round (s, ok finished) = refl
  last_round (s, err e) = refl
  last_round (s, panic) = refl
  last_round (s, stuck) = refl

  -- A command line of printable characters, typed in the command state behind what it has of such, is
  -- shown as it is typed; at its carriage return the whole line is handled, if it is UTF-8.
  pub run_loop-command :
      (line : Buf) (s : Session S)
      → all is_plain line ≡ true
      → all is_plain s.command_buf ≡ true
      → env.is_utf8 (s.command_buf ++ line) ≡ true
      → s.local_state ≡ command
      → run_loop env x25_params (typing now (line ++ (0x0d ∷ []))) s
        ≡ handle_line env x25_params
            (s.command_buf ++ line)
            (record s { command_buf = []; terminal = s.terminal ++ (line ++ cr_lf) })
  unfolding run_loop
  run_loop-command [] s p h u state =
      ap
        (λ x. and_go x (λ flow s1. elim flow [
          | continue ↦ run_loop env x25_params [] s1
          | finished ↦ (s1, ok finished)
        ]))
        (type_return s (ap env.is_utf8 (sym (append-nil s.command_buf)) ∙ u) state)
      ∙ last_round
          (handle_line env x25_params s.command_buf (record (print cr_lf s) { command_buf = [] }))
      ∙ ap (λ b. handle_line env x25_params b (record (print cr_lf s) { command_buf = [] }))
          (sym (append-nil s.command_buf))
  run_loop-command (byte ∷ line) s p h u state =
      let s1 : Session S = record (print (byte ∷ []) s) {
        command_buf = s.command_buf ++ (byte ∷ []);
      } in
      let plain : is_plain byte ≡ true = ground arith in
      ap
        (λ x. and_go x (λ flow s2. elim flow [
          | continue ↦ run_loop env x25_params (typing now (line ++ (0x0d ∷ []))) s2
          | finished ↦ (s2, ok finished)
        ]))
        (type_plain byte s plain h state)
      ∙ run_loop-command line s1 (ground arith) (all-snoc is_plain s.command_buf byte h plain)
          (ap env.is_utf8 (append_assoc s.command_buf (byte ∷ []) line) ∙ u) state
      ∙ ap₂ (λ b t. handle_line env x25_params b (record s { command_buf = []; terminal = t }))
          (append_assoc s.command_buf (byte ∷ []) line)
          (append_assoc s.terminal (byte ∷ []) (line ++ cr_lf))

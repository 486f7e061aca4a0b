-- ===== src/UserPad/Session/Restoring.antt =====
-- Parameters that the PAD shows, typed back as a command.
use xotpad.Base.{
  ℕ, ◌<◌, ◌≡◌, arith, refl, ap, sym, subst, ◌∙◌, true, List, [], ◌∷◌, ◌++◌, map, all, Buf, All,
  Result, ok,
}
use xotpad.Vc.Params.{X25Params}
use xotpad.X3.{Checked}
use xotpad.X3.PadParams.{pad_params}
use xotpad.X3.UserPadParams.{user_params}
use xotpad.X28.Text.{codes, trim, trim_start, trim_end, to_uppercase, u8_to_string}
use xotpad.X29.{buf_eq}
use xotpad.X28.Signal.{format_params}
use xotpad.X28.Command as Command
use xotpad.X28.Command.Parameters.{
  checked, entry, text, IsPair, format_params_lem, IsTrimmed-text, IsTrimmed-append,
}
use xotpad.X28.Command.RoundTrip.{from_str-format_params}
use xotpad.UserPad.Parameters.{set_params}
use xotpad.UserPad.CommandLine.Escapes.{is_plain}
use xotpad.UserPad.Session.{
  command, Session, Environment, Flow, continue, cr_lf, print_prompt, print_signal, and_go,
}
use xotpad.UserPad.Session.Commands.{execute, set_local, show_set, filter_ok}
use xotpad.UserPad.Session.Step.{end_command, after_command, handle_line}
use xotpad.UserPad.Session.Run.{run_loop}
use xotpad.UserPad.Session.Lines.{typing}
use xotpad.UserPad.Session.Typing.{run_loop-command}

-- The text is printable.
plain-u8_to_string : (n : ℕ) → n < 256 → all is_plain (u8_to_string n) ≡ true
unfolding u8_to_string
plain-u8_to_string n b = ground arith

plain-append :
    (xs ys : Buf) → all is_plain xs ≡ true → all is_plain ys ≡ true → all is_plain (xs ++ ys) ≡ true
plain-append [] ys h k = k
plain-append (x ∷ xs) ys h k = ground (arith, plain-append xs ys)

plain-entry : (p : ℕ × ℕ) → IsPair p → all is_plain (entry p) ≡ true
plain-entry (a, v) (ba, bv) =
    plain-append (u8_to_string a) (b':' ∷ u8_to_string v) (plain-u8_to_string a ba)
      (plain-u8_to_string v bv)

plain-text : (p : ℕ × ℕ) (ps : List (ℕ × ℕ)) → All IsPair (p ∷ ps) → all is_plain (text p ps) ≡ true
plain-text p [] (h, _) = plain-entry p h
plain-text p (q ∷ ps) (h, hs) =
    plain-append (entry p) (b',' ∷ b' ' ∷ text q ps) (plain-entry p h) (plain-text q ps hs)

-- The command that is typed.
abbrev pub set_line : ℕ × ℕ → List (ℕ × ℕ) → Buf
set_line p ps = codes "SET " ++ format_params (map checked (p ∷ ps))

set_line-text : (p : ℕ × ℕ) (ps : List (ℕ × ℕ)) → set_line p ps ≡ codes "SET " ++ text p ps
set_line-text p ps = ap (λ t. codes "SET " ++ t) (format_params_lem p ps)

module _ {S Link : Type 0} (env : Environment Link S) (x25_params : X25Params) where
  -- The line is no EXIT, and is not trimmed.
  handle_line-set :
      (t : Buf) (s : Session S)
      → trim_end (codes "SET " ++ t) ≡ codes "SET " ++ t
      → handle_line env x25_params (codes "SET " ++ t) s
        ≡ and_go (execute env x25_params (Command.from_str (codes "SET " ++ t)) s) after_command
  unfolding handle_line trim trim_start to_uppercase buf_eq
  handle_line-set t s h =
      ap (λ line. and_go (execute env x25_params (Command.from_str line) s) after_command) h

  end_command-x3_params : (s : Session S) → (end_command s).0.x3_params ≡ s.x3_params
  unfolding end_command print_prompt
  end_command-x3_params s = ground arith

  show_set-x3_params :
      (response : List (ℕ × Checked ℕ)) (s : Session S)
      → (show_set response s).x3_params ≡ s.x3_params
  unfolding show_set print_signal
  show_set-x3_params [] s = refl
  show_set-x3_params (r ∷ response) s = refl

  execute-set :
      (request : List (ℕ × ℕ)) (s : Session S)
      → let (s1, r) = and_go (execute env x25_params (ok (Command.set request)) s) after_command in
        (s1.x3_params ≡ (set_params (pad_params user_params) s.x3_params request).0)
        × (r ≡ ok continue)
  unfolding execute and_go after_command end_command set_local
  execute-set request s =
      let (s1, response) = set_local request s in
      let shown : Session S = show_set (filter_ok response) s1 in
      (end_command-x3_params shown ∙ show_set-x3_params (filter_ok response) s1, refl)

  -- Parameters that the PAD prints as they were read, none of them refused, can be typed back: the command
  -- SET with the printed list, typed in the command state on an empty line, sets exactly these parameters
  -- in their order, and the loop goes on. The list is not empty, its numbers are bytes, and its ASCII text
  -- is UTF-8.
  pub run_loop-set_line :
      (now : ℕ) (p : ℕ × ℕ) (ps : List (ℕ × ℕ)) (s : Session S)
      → All IsPair (p ∷ ps)
      → env.is_utf8 (set_line p ps) ≡ true
      → s.local_state ≡ command
      → s.command_buf ≡ []
      → let (s1, r) = run_loop env x25_params (typing now (set_line p ps ++ (0x0d ∷ []))) s in
        (s1.x3_params ≡ (set_params (pad_params user_params) s.x3_params (p ∷ ps)).0)
        × (r ≡ ok continue)
  run_loop-set_line now p ps s h u state empty =
      subst
        (λ (x : Session S × Result Flow).
          (x.0.x3_params ≡ (set_params (pad_params user_params) s.x3_params (p ∷ ps)).0)
          × (x.1 ≡ ok continue))
        (sym handled) (execute-set (p ∷ ps) s1)
    where
      s1 : Session S
      s1 = record s { command_buf = []; terminal = s.terminal ++ (set_line p ps ++ cr_lf) }

      handled :
          run_loop env x25_params (typing now (set_line p ps ++ (0x0d ∷ []))) s
          ≡ and_go (execute env x25_params (ok (Command.set (p ∷ ps))) s1) after_command
      handled =
          run_loop-command env x25_params now (set_line p ps) s
            (ap (all is_plain) (set_line-text p ps) ∙ plain-text p ps h) (ap (all is_plain) empty)
            (ap (λ b. env.is_utf8 (b ++ set_line p ps)) empty ∙ u) state
          ∙ ap (λ b. handle_line env x25_params (b ++ set_line p ps) s1) empty
          ∙ ap (λ line. handle_line env x25_params line s1) (set_line-text p ps)
          ∙ handle_line-set (text p ps) s1
              (IsTrimmed-append (codes "SET ") (text p ps) (IsTrimmed-text p ps h)).0
          ∙ ap (λ r. and_go (execute env x25_params r s1) after_command)
              (ap Command.from_str (sym (set_line-text p ps)) ∙ from_str-format_params p ps h)

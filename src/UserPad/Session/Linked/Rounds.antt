-- ===== src/UserPad/Session/Linked/Rounds.antt =====
-- When a session is linked to its call, and the parts of a round that keep it so.
use xotpad.Base.{
  ℕ, ◌≡◌, arith, refl, ap, sym, ◌∙◌, Bool, true, false, ◌||◌, [], ◌∷◌, ◌++◌, is_empty, Buf, Option,
  none, some, Result, ok, err, panic, stuck, Bool-cases, inl, inr,
}
use xotpad.Packet.Call.{X25CallRequest}
use xotpad.Vc.Params.{X25Params}
use xotpad.X3.UserPadParams.{UserPadParams}
use xotpad.X28.Signal as Signal
use xotpad.X28.Text.{codes}
use xotpad.Pad.{Pad}
use xotpad.UserPad.Session.{
  command, data_mode, Arrival, arrived, failed, PadInput, local, Session, Environment, Flow,
  continue, finished, print, cr_lf, print_prompt, print_signal, is_command, ensure_command,
  take_call, with_pad, and_go, write_all, clear_call,
}
use xotpad.UserPad.Session.Commands.{has_call}
use xotpad.UserPad.Session.Step.{
  or_finished, drop_call, handle_call, handle_remote_end, handle_remote, exit, handle_interrupt,
  handle_escape,
}

abbrev pub is_linked : {S : Type 0} → Session S → Bool
is_linked s = is_command s.local_state || has_call s

-- The loop goes on only with a session that is linked.
abbrev pub Keeps : {S : Type 0} → Session S × Result Flow → Type 0
Keeps (s, r) = r ≡ ok continue → is_linked s ≡ true

-- The end of the user's input.
abbrev pub is_ending : PadInput → Bool
is_ending (local (arrived (some _))) = false
is_ending (local _) = true
is_ending _ = false

pub moved :
    {S : Type 0} {x : Session S × Result Flow} {s1 : Session S}
    → Keeps x
    → x ≡ (s1, ok continue)
    → is_linked s1 ≡ true
moved k e = ap (λ y. is_linked y.0) (sym e) ∙ k (ap (λ y. y.1) e)

module _ {S : Type 0} where
  pub linked : (s : Session S) → s.local_state ≡ command → is_linked s ≡ true
  linked s h = rw h refl

  pub ensure_command-is_linked :
      (new_line : Bool) (s : Session S) → is_linked (ensure_command new_line s) ≡ true
  unfolding ensure_command
  ensure_command-is_linked new_line s = ground arith

  pub handle_call-Keeps :
      (request : X25CallRequest) (c : Option (Pad S UserPadParams × X25Params)) (s : Session S)
      → c ≡ s.current_call
      → Keeps (handle_call request c s)
  unfolding handle_call print_signal
  handle_call-Keeps request none s e h = cc
  handle_call-Keeps request (some c) s e h = ground arith

  pub or_finished-Keeps :
      (ended s : Session S) → is_linked s ≡ true → Keeps (or_finished ended (s, ok continue))
  or_finished-Keeps ended s h = ground arith

  pub and_go-Keeps :
      {A : Type 0} (x : Session S × Result A) (next : A → Session S → Session S × Result Flow)
      → ((a : A) → x.1 ≡ ok a → Keeps (next a x.0))
      → Keeps (and_go x next)
  unfolding and_go
  and_go-Keeps (s, ok a) next h = h a refl
  and_go-Keeps (s, err _) next h = λ e. cc
  and_go-Keeps (s, panic) next h = λ e. cc
  and_go-Keeps (s, stuck) next h = λ e. cc

  -- A PAD that ran is still the call.
  pub with_pad-is_linked :
      {A : Type 0} (run : Pad S UserPadParams → Pad S UserPadParams × Result A)
      (c : Pad S UserPadParams × X25Params) (s : Session S)
      → is_linked (with_pad run c s).0 ≡ true
  unfolding with_pad
  with_pad-is_linked run c s = ground arith

module _ {S Link : Type 0} (env : Environment Link S) where
  pub handle_remote_end-Keeps :
      (c : Option (Pad S UserPadParams × X25Params)) (s : Session S)
      → Keeps (handle_remote_end env c s)
  unfolding handle_remote_end
  handle_remote_end-Keeps none s =
      or_finished-Keeps s (ensure_command true s) (ensure_command-is_linked true s)
  handle_remote_end-Keeps (some (pad, _)) s =
      or_finished-Keeps (take_call pad s)
        (ensure_command false
          (print_signal (Signal.cleared (env.cleared pad.svc)) true (take_call pad s)))
        (ensure_command-is_linked false
          (print_signal (Signal.cleared (env.cleared pad.svc)) true (take_call pad s)))

  pub handle_remote-Keeps :
      (a : Arrival (Option Buf)) (s : Session S)
      → is_linked s ≡ true
      → Keeps (handle_remote env a s)
  unfolding handle_remote
  handle_remote-Keeps (arrived (some buf)) s h = λ _. h
  handle_remote-Keeps (arrived none) s h = handle_remote_end-Keeps s.current_call s
  handle_remote-Keeps (failed e) s h =
      let s1 : Session S =
        drop_call env s.current_call
          (print (codes "remote error: " ++ (env.debug e ++ (0x0a ∷ []))) s) in
      or_finished-Keeps s1 (ensure_command true s1) (ensure_command-is_linked true s1)

  pub exit-Keeps :
      (c : Option (Pad S UserPadParams × X25Params)) (s : Session S) → Keeps (exit env c s)
  unfolding exit
  exit-Keeps none s = λ e. cc
  exit-Keeps (some (pad, _)) s =
      and_go-Keeps (clear_call env pad s) (λ _ s1. (s1, ok finished)) λ _ _ e. cc

  pub handle_interrupt-Keeps : (s : Session S) → is_linked s ≡ true → Keeps (handle_interrupt env s)
  unfolding handle_interrupt print_prompt
  handle_interrupt-Keeps s h = elim (Bool-cases (is_empty s.command_buf)) [
    | inl empty ↦ rw empty (exit-Keeps s.current_call s)
    | inr typed ↦ rw typed (λ _. h)
  ]

  pub handle_escape-Keeps :
      (now : ℕ) (c : Option (Pad S UserPadParams × X25Params)) (s : Session S)
      → is_linked s ≡ true
      → Keeps (handle_escape env now c s)
  unfolding handle_escape write_all
  handle_escape-Keeps now none s h = λ _. h
  handle_escape-Keeps now (some c) s h = elim (Bool-cases (is_empty s.command_buf)) [
    | inl empty ↦ rw empty (
        and_go-Keeps (write_all env now (0x10 ∷ []) c s)
          (λ _ s1. (record (print cr_lf s1) { local_state = data_mode }, ok continue))
          λ _ _ _. refl)
    | inr typed ↦ rw typed (λ _. h)
  ]

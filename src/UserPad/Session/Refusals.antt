-- ===== src/UserPad/Session/Refusals.antt =====
-- What the command SET does and shows when its parameters are refused.
use xotpad.Base.{ℕ, ◌≡◌, refl, ap, sym, ◌∙◌, Bool, true, false, List, [], ◌∷◌, some, ok}
use xotpad.Vc.Params.{X25Params}
use xotpad.X3.{X3Params, X3Laws, Checked, valid, invalid}
use xotpad.X3.PadParams.{pad_params}
use xotpad.X3.PadParams.Laws.{pad_params-Laws}
use xotpad.X3.UserPadParams.{get, user_params, user_params-Laws}
use xotpad.X28.Command as Command
use xotpad.Pad.Remote.{ok_or}
use xotpad.UserPad.Parameters.{set_param, set_params}
use xotpad.UserPad.Session.{Session, Environment, continue}
use xotpad.UserPad.Session.Commands.{execute, set_local, show_set, filter_ok}

abbrev pub all_refused : List (ℕ × Checked ℕ) → Bool
all_refused [] = true
all_refused ((p, valid v) ∷ response) = false
all_refused ((p, invalid e) ∷ response) = all_refused response

filter_ok-refused :
    (response : List (ℕ × Checked ℕ)) → all_refused response ≡ true → filter_ok response ≡ []
unfolding filter_ok
filter_ok-refused [] h = refl
filter_ok-refused ((p, valid v) ∷ response) h = cc
filter_ok-refused ((p, invalid e) ∷ response) h = filter_ok-refused response h

module _ {Q : Type 0} (params : X3Params Q) (laws : X3Laws params) where
  set_param-refused :
      (p v : ℕ) (q : Q) (x : Q × Checked (Unit {0})) (rest : List (ℕ × Checked ℕ))
      → params.set q p v ≡ x
      → all_refused ((set_param params p x).1 ∷ rest) ≡ true
      → ((set_param params p x).0 ≡ q) × (all_refused rest ≡ true)
  unfolding set_param ok_or
  set_param-refused p v q (q1, invalid e) rest is h =
      (ap (λ x. x.0) (sym is) ∙ laws.refused q p v e (ap (λ x. x.1) is), h)
  set_param-refused p v q (q1, valid _) rest is h =
      let read : params.get q1 p ≡ some v =
        ap (λ x. params.get x.0 p) (sym is) ∙ laws.get_set q p v (ap (λ x. x.1) is) in
      let never : false ≡ true = ap (λ o. all_refused ((p, ok_or o) ∷ rest)) (sym read) ∙ h in cc

  set_params-refused :
      (request : List (ℕ × ℕ)) (q : Q)
      → all_refused (set_params params q request).1 ≡ true
      → (set_params params q request).0 ≡ q
  unfolding set_params
  set_params-refused [] q h = refl
  set_params-refused ((p, v) ∷ request) q h =
      let q1 : Q = (set_param params p (params.set q p v)).0 in
      let (kept, refused) =
        set_param-refused p v q (params.set q p v) (set_params params q1 request).1 refl h in
      set_params-refused request q1 refused ∙ kept

user_laws : X3Laws (pad_params user_params)
unfolding get
user_laws = pad_params-Laws user_params user_params-Laws λ q. (refl, refl, refl, refl, refl)

module _ {S Link : Type 0} (env : Environment Link S) (x25_params : X25Params) where
  -- A command SET of which every parameter is refused changes nothing, and shows nothing of the refusals.
  pub execute-refused :
      (request : List (ℕ × ℕ)) (s : Session S)
      → all_refused (set_params (pad_params user_params) s.x3_params request).1 ≡ true
      → execute env x25_params (ok (Command.set request)) s ≡ (s, ok continue)
  unfolding execute set_local show_set
  execute-refused request s h =
      ap (λ shown. (show_set shown (set_local request s).0, ok continue))
        (filter_ok-refused (set_params (pad_params user_params) s.x3_params request).1 h)
      ∙ ap (λ q. (record s { x3_params = q }, ok continue))
          (set_params-refused (pad_params user_params) user_laws request s.x3_params h)

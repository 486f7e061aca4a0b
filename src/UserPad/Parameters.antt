-- ===== src/UserPad/Parameters.antt =====
-- The commands that read and set the parameters of the user's own PAD: src/user_pad.rs.
pub mod Agreement
use xotpad.Base.{
  ℕ, List, [], ◌∷◌, map, is_empty, if◌then◌else◌, Option, none, some, Result, ok, ◌>>=◌,
}
use xotpad.X3.{X3Params, Checked, valid, invalid}
use xotpad.Pad.Remote.{ok_or}

module _ {Q : Type 0} (params : X3Params Q) where
  unfoldable pub read_params : Q → List ℕ → Result (List (ℕ × Option ℕ))
  read_params q request =
      if is_empty request
      then (params.all q >>= λ entries. ok (map (λ (p, v). (p, some v)) entries))
      else ok (map (λ p. (p, params.get q p)) request)

  -- One parameter: what is left, and what is answered.
  unfoldable pub set_param : ℕ → Q × Checked (Unit {0}) → Q × (ℕ × Checked ℕ)
  unfolding ok_or
  set_param p (q, invalid e) = (q, (p, invalid e))
  set_param p (q, valid _) = (q, (p, ok_or (params.get q p)))

  unfoldable pub set_params : Q → List (ℕ × ℕ) → Q × List (ℕ × Checked ℕ)
  unfolding set_param
  set_params q [] = (q, [])
  set_params q ((p, v) ∷ request) =
      let (q1, answer) = set_param p (params.set q p v) in
      let (q2, response) = set_params q1 request in (q2, answer ∷ response)

unfoldable pub normalize_read_params_response : List (ℕ × Option ℕ) → List (ℕ × Checked ℕ)
unfolding ok_or
normalize_read_params_response response = map (λ (p, r). (p, ok_or r)) response

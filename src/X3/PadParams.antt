-- ===== src/X3/PadParams.antt =====
-- The parameters of a PAD, with those of a delegate: `PadParams` in libxotpad/src/pad.rs.
pub mod Laws
use xotpad.Base.{
  ℕ, Bool, List, [], ◌∷◌, ◌++◌, ◌==◌, if◌then◌else◌, Option, none, some, Result, ok, ◌>>=◌,
}
use xotpad.X3.{
  X3Params, X3ParamError, unsupported, Checked, valid, invalid, put, X3Echo, X3Forward, X3Idle,
  X3LfInsert, X3Editing, echo_try_from, forward_try_from, lf_insert_try_from, editing_try_from,
}
use xotpad.X3.UserPadParams.{unwrap_entry}

pub record PadParams (Q : Type 0) : Type 0 where
  pub echo : X3Echo
  pub forward : X3Forward
  pub idle : X3Idle
  pub lf_insert : X3LfInsert
  pub editing : X3Editing
  pub delegate : Option Q

module _ {Q : Type 0} (params : X3Params Q) where
  unfoldable pub get_delegate : Option Q → ℕ → Option ℕ
  get_delegate (some delegate) param = params.get delegate param
  get_delegate none param = none

  unfoldable pub get : PadParams Q → ℕ → Option ℕ
  unfolding get_delegate
  get s param =
      if param == 2
      then some s.echo.raw
      else if param == 3
      then some s.forward.raw
      else if param == 4
      then some s.idle.raw
      else if param == 13
      then some s.lf_insert.raw
      else if param == 15
      then some s.editing.raw
      else get_delegate s.delegate param

  unfoldable pub set_delegate : PadParams Q → Option Q → ℕ → ℕ → PadParams Q × Checked (Unit {0})
  set_delegate s (some delegate) param value =
      let (q, result) = params.set delegate param value in (record s { delegate = some q }, result)
  set_delegate s none param value = (s, invalid unsupported)

  unfoldable pub set : PadParams Q → ℕ → ℕ → PadParams Q × Checked (Unit {0})
  unfolding put echo_try_from forward_try_from lf_insert_try_from editing_try_from set_delegate
  set s param value =
      if param == 2
      then put (echo_try_from value) (λ v. record s { echo = v }) s
      else if param == 3
      then put (forward_try_from value) (λ v. record s { forward = v }) s
      else if param == 4
      then (record s { idle = record { raw = value } }, valid tt)
      else if param == 13
      then put (lf_insert_try_from value) (λ v. record s { lf_insert = v }) s
      else if param == 15
      then put (editing_try_from value) (λ v. record s { editing = v }) s
      else set_delegate s s.delegate param value

  unfoldable pub all_delegate : Option Q → Result (List (ℕ × ℕ))
  all_delegate none = ok []
  all_delegate (some delegate) = params.all delegate

  unfoldable pub all : PadParams Q → Result (List (ℕ × ℕ))
  unfolding unwrap_entry get all_delegate
  all s = do
    echo ← unwrap_entry 2 (get s 2)
    forward ← unwrap_entry 3 (get s 3)
    idle ← unwrap_entry 4 (get s 4)
    lf_insert ← unwrap_entry 13 (get s 13)
    editing ← unwrap_entry 15 (get s 15)
    rest ← all_delegate s.delegate
    ok ((echo ∷ forward ∷ idle ∷ lf_insert ∷ editing ∷ []) ++ rest)

  abbrev pub pad_params : X3Params (PadParams Q)
  pad_params = record { get = get; set = set; all = all }

-- ===== src/X3/UserPadParams.antt =====
-- The parameters of the user's PAD: src/x3.rs.
use xotpad.Base.{
  ℕ, arith, refl, Bool, true, ◌&&◌, List, [], ◌∷◌, ltb, ◌==◌, if◌then◌else◌, Option, none, some,
  Result, ok, panic, ◌>>=◌,
}
use xotpad.X3.{X3Params, X3Laws, unsupported, invalid_value, Checked, valid, invalid, put}

pub record X3CharDelete : Type 0 where
  pub raw : ℕ

unfoldable pub char_delete_try_from : ℕ → Checked X3CharDelete
char_delete_try_from value =
    if value == 127 then valid (record { raw = value }) else invalid invalid_value

pub record X3LineDelete : Type 0 where
  pub raw : ℕ

unfoldable pub line_delete_try_from : ℕ → Checked X3LineDelete
line_delete_try_from value =
    if ltb 127 value then invalid invalid_value else valid (record { raw = value })

pub record X3LineDisplay : Type 0 where
  pub raw : ℕ

unfoldable pub line_display_try_from : ℕ → Checked X3LineDisplay
line_display_try_from value =
    if ltb 127 value then invalid invalid_value else valid (record { raw = value })

-- `is_char_delete` of src/util.rs; whether the program was built for Windows is its first argument.
unfoldable pub is_char_delete : Bool → ℕ → Bool
is_char_delete windows byte = if windows && byte == 0x08 then true else byte == 0x7f

unfoldable pub char_delete_is_match : Bool → X3CharDelete → ℕ → Bool
unfolding is_char_delete
char_delete_is_match windows c byte =
    if c.raw == 127 then is_char_delete windows byte else byte == c.raw

unfoldable pub line_delete_is_match : X3LineDelete → ℕ → Bool
line_delete_is_match l byte = byte == l.raw

unfoldable pub line_display_is_match : X3LineDisplay → ℕ → Bool
line_display_is_match l byte = byte == l.raw

pub record UserPadParams : Type 0 where
  pub char_delete : X3CharDelete
  pub line_delete : X3LineDelete
  pub line_display : X3LineDisplay

unfoldable pub get : UserPadParams → ℕ → Option ℕ
get s param =
    if param == 16
    then some s.char_delete.raw
    else if param == 17
    then some s.line_delete.raw
    else if param == 18
    then some s.line_display.raw
    else none

unfoldable pub set : UserPadParams → ℕ → ℕ → UserPadParams × Checked (Unit {0})
unfolding put char_delete_try_from line_delete_try_from line_display_try_from
set s param value =
    if param == 16
    then put (char_delete_try_from value) (λ v. record s { char_delete = v }) s
    else if param == 17
    then put (line_delete_try_from value) (λ v. record s { line_delete = v }) s
    else if param == 18
    then put (line_display_try_from value) (λ v. record s { line_display = v }) s
    else (s, invalid unsupported)

-- `(param, self.get(param).unwrap())`
unfoldable pub unwrap_entry : ℕ → Option ℕ → Result (ℕ × ℕ)
unwrap_entry param none = panic
unwrap_entry param (some value) = ok (param, value)

unfoldable pub all : UserPadParams → Result (List (ℕ × ℕ))
unfolding unwrap_entry get
all s = do
  char_delete ← unwrap_entry 16 (get s 16)
  line_delete ← unwrap_entry 17 (get s 17)
  line_display ← unwrap_entry 18 (get s 18)
  ok (char_delete ∷ line_delete ∷ line_display ∷ [])

abbrev pub user_params : X3Params UserPadParams
user_params = record { get = get; set = set; all = all }

-- `UserPadParams` keeps what the trait promises.
pub user_params-Laws : X3Laws user_params
unfolding get set all
user_params-Laws = record {
  get_set = λ q p v h. ground arith;
  get_other = λ q p p' v h. ground arith;
  refused = λ q p v e h. ground arith;
  missing = λ q p v h. ground arith;
  supported = λ q p v h. ground arith;
  all_get = λ q. (_, refl, (refl, (refl, (refl, tt))));
}

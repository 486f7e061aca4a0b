-- ===== src/Base/Outcome.antt =====
-- The outcome of a fallible function: `Result<T, String>` with the panics of `assert!`, `unwrap`,
-- `unreachable!` and `todo!` as values.
use Prim.Native.Nat.{ℕ}
use mathlib.Core.Path.{◌≡◌, refl}
use mathlib.Core.Logic.{◌≢◌}
use mathlib.Core.Bool.{Bool, true, false}
use mathlib.Core.List.{List, [], ◌∷◌}
use xotpad.Base.Tests.{if◌then◌else◌}

-- One constructor for each message of the source, with the number that it prints.
pub data Error : Type 0 where
  too_many_digits : Error
  digits_out_of_range : Error
  address_too_long : Error
  characters_not_digits : Error
  facilities_not_unique : Error
  invalid_window_size : ℕ → Error
  invalid_packet_size : ℕ → Error
  facility_too_short : ℕ → Error
  facility_incomplete : ℕ → Error
  parameters_too_long : ℕ → Error
  packet_too_short : ℕ → Error
  packet_too_long : ℕ → Error
  unsupported_packet_type : ℕ → Error
  unsupported_modulo : Error
  invalid_gfi : ℕ → Error
  unidentifiable_packet : Error
  send_sequence_out_of_range : ℕ → Error
  receive_sequence_out_of_range : ℕ → Error
  channel_out_of_range : ℕ → Error
  addr_block_too_short : ℕ → Error
  addr_block_incomplete : ℕ → Error
  facilities_too_long : ℕ → Error
  facilities_block_too_short : ℕ → Error
  facilities_block_incomplete : ℕ → Error
  unsupported_version : ℕ → Error
  connection_reset : Error
  io_error : Error
  broken_pipe : Error
  timed_out : Error
  out_of_order_link : Error
  gave_up : Error
  call_data_too_long : Error
  call_user_data_too_short : ℕ → Error
  message_too_short : ℕ → Error
  message_too_long : ℕ → Error
  invalid_read_request : Error
  unrecognized_message : ℕ → Error
  odd_number_of_bytes : Error
  empty_selection : Error
  address_required : Error
  invalid_call_user_data_separator : Error
  selection_required : Error
  invalid_selection : Error
  parameters_required : Error
  unrecognized_command : Error
  invalid_parameter : Error
  invalid_parameters_argument : Error
  invalid_parameter_value : Error
  invalid_regex : Error
  no_gateway : Error

-- `stuck` is no outcome of the program: a loop of the model ran out of fuel.
pub data Result {ℓ} (A : Type ℓ) : Type ℓ where
  ok : A → Result A
  err : Error → Result A
  panic : Result A
  stuck : Result A

-- `assert!(test)`
abbrev pub assert : Bool → Result (Unit {0})
assert false = panic
assert true = ok tt

-- `if !test { return Err(e) }`
abbrev pub guard : Bool → Error → Result (Unit {0})
guard false e = err e
guard true e = ok tt

-- The operator `?`: what comes after a value, where every other outcome is passed on.
infixl 5 ◌>>=◌ ◌>>◌
abbrev pub ◌>>=◌ {ℓ κ} : {A : Type ℓ} {B : Type κ} → Result A → (A → Result B) → Result B
panic >>= next = panic
stuck >>= next = stuck
err e >>= next = err e
ok a >>= next = next a

abbrev pub ◌>>◌ {κ} : {C : Type κ} → Result (Unit {0}) → Result C → Result C
check >> next = check >>= λ done. next

-- `P` holds of the value, if the function returned one.
pub data Ensures {ℓ κ} {A : Type ℓ} (P : A → Type κ) : Result A → Type (ℓ ⊔ κ) where
  holds : {a : A} → P a → Ensures P (ok a)
  raised : {e : Error} → Ensures P (err e)
  panicked : Ensures P panic
  starved : Ensures P stuck

module _ {ℓ κ} {A : Type ℓ} {P : A → Type κ} where
  pub Ensures-bind {ℓ' κ'} :
      {B : Type ℓ'} {Q : B → Type κ'} {r : Result A} {f : A → Result B}
      → Ensures P r
      → ((a : A) → P a → Ensures Q (f a))
      → Ensures Q (r >>= f)
  Ensures-bind (holds {a} h) k = k a h
  Ensures-bind raised k = raised
  Ensures-bind panicked k = panicked
  Ensures-bind starved k = starved

  pub Ensures-weaken {κ'} :
      {Q : A → Type κ'} {r : Result A} → Ensures P r → ((a : A) → P a → Q a) → Ensures Q r
  Ensures-weaken (holds {a} h) k = holds (k a h)
  Ensures-weaken raised k = raised
  Ensures-weaken panicked k = panicked
  Ensures-weaken starved k = starved

  pub Ensures-ok : {r : Result A} {a : A} → Ensures P r → r ≡ ok a → P a
  Ensures-ok (holds h) e = mathlib.Core.Path.subst P (cc) h
  Ensures-ok raised e = cc
  Ensures-ok panicked e = cc
  Ensures-ok starved e = cc

  pub Ensures-after :
      (b : Bool) (e : Error) {r : Result A} → (b ≡ true → Ensures P r) → Ensures P (guard b e >> r)
  Ensures-after true e h = h refl
  Ensures-after false e h = raised

  pub Ensures-if :
      (b : Bool) {x y : Result A}
      → (b ≡ true → Ensures P x)
      → (b ≡ false → Ensures P y)
      → Ensures P (if b then x else y)
  Ensures-if true hx hy = hx refl
  Ensures-if false hx hy = hy refl

pub Ensures-intro {ℓ κ} :
    {A : Type ℓ} {P : A → Type κ} (r : Result A) → ((a : A) → r ≡ ok a → P a) → Ensures P r
Ensures-intro (ok a) h = holds (h a refl)
Ensures-intro (err e) h = raised
Ensures-intro panic h = panicked
Ensures-intro stuck h = starved

-- The function returned: it did not panic, and the model's fuel was enough.
pub data Returns {ℓ κ} {A : Type ℓ} (P : A → Type κ) : Result A → Type (ℓ ⊔ κ) where
  value : {a : A} → P a → Returns P (ok a)
  error : {e : Error} → Returns P (err e)

module _ {ℓ κ} {A : Type ℓ} {P : A → Type κ} where
  pub Returns-bind {ℓ' κ'} :
      {B : Type ℓ'} {Q : B → Type κ'} {r : Result A} {f : A → Result B}
      → Returns P r
      → ((a : A) → P a → Returns Q (f a))
      → Returns Q (r >>= f)
  Returns-bind (value {a} h) k = k a h
  Returns-bind error k = error

  -- The same, with the equation that the first part gave this value.
  pub Returns-bind_eq {ℓ' κ'} :
      {B : Type ℓ'} {Q : B → Type κ'} {r : Result A} {f : A → Result B}
      → Returns P r
      → ((a : A) → P a → r ≡ ok a → Returns Q (f a))
      → Returns Q (r >>= f)
  Returns-bind_eq (value {a} h) k = k a h refl
  Returns-bind_eq error k = error

  pub Returns-if :
      (b : Bool) {x y : Result A}
      → (b ≡ true → Returns P x)
      → (b ≡ false → Returns P y)
      → Returns P (if b then x else y)
  Returns-if true hx hy = hx refl
  Returns-if false hx hy = hy refl

  pub Returns-ok : {r : Result A} {a : A} → Returns P r → r ≡ ok a → P a
  Returns-ok (value h) e = mathlib.Core.Path.subst P (cc) h
  Returns-ok error e = cc

  pub Returns-weaken {κ'} :
      {Q : A → Type κ'} {r : Result A} → Returns P r → ((a : A) → P a → Q a) → Returns Q r
  Returns-weaken (value {a} h) k = value (k a h)
  Returns-weaken error k = error

  pub Returns-ne-panic : {r : Result A} → Returns P r → r ≢ panic
  Returns-ne-panic (value h) = λ e. cc
  Returns-ne-panic error = λ e. cc

  pub Returns-ne-stuck : {r : Result A} → Returns P r → r ≢ stuck
  Returns-ne-stuck (value h) = λ e. cc
  Returns-ne-stuck error = λ e. cc

pub Returns-guard : (b : Bool) (e : Error) → Returns {A = Unit {0}} (λ _. b ≡ true) (guard b e)
Returns-guard true e = value refl
Returns-guard false e = error

pub Returns-after {ℓ κ} :
    {A : Type ℓ} {P : A → Type κ} (b : Bool) (e : Error) {r : Result A}
    → (b ≡ true → Returns P r)
    → Returns P (guard b e >> r)
Returns-after true e h = h refl
Returns-after false e h = error

-- A run that gave a value did so by way of a value of its first part.
pub >>=-eq-ok {ℓ κ} :
    {A : Type ℓ} {B : Type κ} (r : Result A) (next : A → Result B) {b : B}
    → r >>= next ≡ ok b
    → (a : A) × (r ≡ ok a) × (next a ≡ ok b)
>>=-eq-ok panic next e = cc
>>=-eq-ok stuck next e = cc
>>=-eq-ok (err _) next e = cc
>>=-eq-ok (ok a) next e = (a, refl, e)

-- `Buf::get_u8` panics on an empty buffer.
abbrev pub get_u8 : List ℕ → Result (ℕ × List ℕ)
get_u8 [] = panic
get_u8 (b ∷ buf) = ok (b, buf)

-- `if buf.has_remaining() { buf.get_u8() } else { 0 }`
abbrev pub get_u8_or_zero : List ℕ → ℕ × List ℕ
get_u8_or_zero [] = (0, [])
get_u8_or_zero (b ∷ buf) = (b, buf)

pub get_u8-Returns : (buf : List ℕ) → buf ≢ [] → Returns (λ (b, rest). buf ≡ b ∷ rest) (get_u8 buf)
get_u8-Returns [] h = absurd (h refl)
get_u8-Returns (b ∷ buf) h = value refl

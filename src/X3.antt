-- ===== src/X3.antt =====
-- X.3 parameters: libxotpad/src/x3.rs.
pub mod Forwarding
pub mod UserPadParams
pub mod PadParams
use xotpad.Base.{
  ℕ, ◌*◌, ◌≡◌, ◌≢◌, Bool, true, false, ◌&&◌, ◌||◌, List, [], ◌∷◌, ltb, leb, ◌==◌, if◌then◌else◌,
  All, contains, bit_and, Option, none, some, Result, ok, panic,
}

pub data X3ParamError : Type 0 where
  unsupported : X3ParamError
  invalid_value : X3ParamError
  other : X3ParamError

-- `Result<T, X3ParamError>`
pub data Checked {ℓ} (A : Type ℓ) : Type ℓ where
  valid : A → Checked A
  invalid : X3ParamError → Checked A

-- The trait `X3Params`; `set` gives the parameters that it leaves with what it returns, and `all`
-- has the outcome of its `unwrap`.
pub record X3Params (Q : Type 0) : Type 0 where
  pub get : Q → ℕ → Option ℕ
  pub set : Q → ℕ → ℕ → Q × Checked (Unit {0})
  pub all : Q → Result (List (ℕ × ℕ))

-- What its users rely on: a value that was set is read back, all else stays as it was, a refused
-- value changes nothing, exactly the parameters that cannot be read are unsupported, and `all` lists
-- what is read.
pub record X3Laws {Q : Type 0} (params : X3Params Q) : Type 0 where
  pub get_set :
      (q : Q) (p v : ℕ)
      → (params.set q p v).1 ≡ valid tt
      → params.get (params.set q p v).0 p ≡ some v
  pub get_other :
      (q : Q) (p p' v : ℕ) → p ≢ p' → params.get (params.set q p v).0 p' ≡ params.get q p'
  pub refused :
      (q : Q) (p v : ℕ) (e : X3ParamError)
      → (params.set q p v).1 ≡ invalid e
      → (params.set q p v).0 ≡ q
  pub missing :
      (q : Q) (p v : ℕ) → params.get q p ≡ none → (params.set q p v).1 ≡ invalid unsupported
  pub supported :
      (q : Q) (p v : ℕ) → (params.set q p v).1 ≡ invalid unsupported → params.get q p ≡ none
  pub all_get :
      (q : Q)
      → (entries : List (ℕ × ℕ)) × (params.all q ≡ ok entries)
        × All (λ (p, v). params.get q p ≡ some v) entries

-- Each kind of value is a byte, and its constructor checks it.
pub record X3Echo : Type 0 where
  pub raw : ℕ

unfoldable pub echo_try_from : ℕ → Checked X3Echo
echo_try_from value =
    if value == 0 || value == 1 then valid (record { raw = value }) else invalid invalid_value

-- `bool::from`, with its `unreachable!`.
unfoldable pub bool_from : ℕ → Result Bool
bool_from raw = if raw == 0 then ok false else if raw == 1 then ok true else panic

pub record X3Forward : Type 0 where
  pub raw : ℕ

unfoldable pub forward_try_from : ℕ → Checked X3Forward
forward_try_from value =
    if ltb 127 value then invalid invalid_value else valid (record { raw = value })

abbrev pub is_ascii_alphanumeric : ℕ → Bool
is_ascii_alphanumeric b =
    (leb b'0' b && leb b b'9') || (leb b'A' b && leb b b'Z') || (leb b'a' b && leb b b'z')

unfoldable pub is_match : X3Forward → ℕ → Bool
is_match f byte =
    if bit_and f.raw 1 == 1 && is_ascii_alphanumeric byte
    then true
    else if bit_and f.raw 2 == 2 && byte == 0x0d
    then true
    else if bit_and f.raw 4 == 4 && contains (0x1b ∷ 0x07 ∷ 0x05 ∷ 0x06 ∷ []) byte
    then true
    else if bit_and f.raw 8 == 8 && contains (0x7f ∷ 0x18 ∷ 0x12 ∷ []) byte
    then true
    else if bit_and f.raw 16 == 16 && contains (0x04 ∷ 0x03 ∷ []) byte
    then true
    else if bit_and f.raw 32 == 32 && contains (0x09 ∷ 0x0a ∷ 0x0b ∷ 0x0c ∷ []) byte
    then true
    else if bit_and f.raw 64 == 64
        && contains
            (0x00 ∷ 0x01 ∷ 0x02 ∷ 0x08 ∷ 0x0e ∷ 0x0f ∷ 0x10 ∷ 0x11 ∷ 0x13 ∷ 0x14 ∷ 0x15 ∷ 0x16
              ∷ 0x17 ∷ 0x19 ∷ 0x1a ∷ 0x1c ∷ 0x1d ∷ 0x1e ∷ 0x1f ∷ [])
            byte
    then true
    else false

pub record X3Idle : Type 0 where
  pub raw : ℕ

-- The delay in milliseconds.
unfoldable pub delay : X3Idle → Option ℕ
delay idle = if idle.raw == 0 then none else some (idle.raw * 50)

pub record X3LfInsert : Type 0 where
  pub raw : ℕ

unfoldable pub lf_insert_try_from : ℕ → Checked X3LfInsert
lf_insert_try_from value =
    if ltb 7 value then invalid invalid_value else valid (record { raw = value })

unfoldable pub after_recv : X3LfInsert → ℕ → Bool
after_recv lf byte = byte == 0x0d && bit_and lf.raw 1 == 1

unfoldable pub after_send : X3LfInsert → ℕ → Bool
after_send lf byte = byte == 0x0d && bit_and lf.raw 2 == 2

unfoldable pub after_echo : X3LfInsert → ℕ → Bool
after_echo lf byte = byte == 0x0d && bit_and lf.raw 4 == 4

pub record X3Editing : Type 0 where
  pub raw : ℕ

unfoldable pub editing_try_from : ℕ → Checked X3Editing
editing_try_from value =
    if value == 0 || value == 1 then valid (record { raw = value }) else invalid invalid_value

-- A field is replaced by a value that was checked.
unfoldable pub put {ℓ} :
    {S : Type 0} {A : Type ℓ} → Checked A → (A → S) → S → S × Checked (Unit {0})
put (valid a) f s = (f a, valid tt)
put (invalid e) f s = (s, invalid e)

-- ===== src/Tests/UserPadWitnesses.antt =====
-- The theorems about the command line at concrete inputs.
use xotpad.Base.{◌≡◌, refl, true, false, [], ◌∷◌, ok}
use xotpad.UserPad.CommandLine.{esc}
use xotpad.UserPad.CommandLine.Escapes.{typed, typed_silent}

typed_silent_example :
    typed (λ buf. true) false (esc ∷ b'O' ∷ []) (b'P' ∷ b's' ∷ [])
    ≡ ok (esc ∷ b'O' ∷ b'P' ∷ b's' ∷ [], [])
typed_silent_example = typed_silent (λ buf. true) false [] [] (b'P' ∷ b's' ∷ []) refl refl

-- ===== src/Tests/SelectionWitnesses.antt =====
-- The theorems about selections at concrete inputs.
use xotpad.Base.{◌≡◌, arith, refl, [], ◌∷◌, ok, panic, Returns}
use xotpad.X28.Selection.{full, abbreviated, X28Selection, from_str}
use xotpad.X28.Selection.Total.{IsSelection, from_str-IsSelection}
use xotpad.X28.Selection.RoundTrip.{from_str-selection_text, from_str-panic}

-- `R,Nc-12,.aP*x`
abbrev selection : X28Selection
selection = record {
  addrs = full (record { addr = b'1' ∷ b'2' ∷ [] }) ∷ abbreviated (b'a' ∷ b'P' ∷ []) ∷ [];
  facilities = (b'R', []) ∷ (b'N', b'c' ∷ []) ∷ [];
  call_user_data = b'x' ∷ [];
}

from_str-selection_text_example :
    from_str (
      b'R' ∷ b',' ∷ b'N' ∷ b'c' ∷ b'-' ∷ b'1' ∷ b'2' ∷ b',' ∷ b'.' ∷ b'a' ∷ b'P' ∷ b'*' ∷ b'x' ∷ [])
    ≡ ok selection
from_str-selection_text_example =
    from_str-selection_text (full (record { addr = b'1' ∷ b'2' ∷ [] }))
      (abbreviated (b'a' ∷ b'P' ∷ []) ∷ []) ((b'R', []) ∷ (b'N', b'c' ∷ []) ∷ []) (b'x' ∷ [])
      ((record { ascii = refl; short = omega arith }, refl), ((refl, refl), tt))
      ((omega arith, refl, refl, refl), ((omega arith, refl, refl, refl), tt))

from_str-IsSelection_example : Returns IsSelection (from_str (b'1' ∷ b',' ∷ b'-' ∷ []))
from_str-IsSelection_example =
    from_str-IsSelection (b'1' ∷ b',' ∷ b'-' ∷ []) (omega arith, (omega arith, (omega arith, tt)))

from_str-panic_example : from_str (195 ∷ 137 ∷ b'-' ∷ b'1' ∷ []) ≡ panic
from_str-panic_example = from_str-panic 195 (137 ∷ b'-' ∷ b'1' ∷ []) (omega arith) refl

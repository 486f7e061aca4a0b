-- ===== src/X28/Command/RoundTrip.antt =====
-- A command that sets the parameters which the PAD prints.
use xotpad.Base.{ℕ, ◌≡◌, refl, ap, ◌∙◌, List, ◌∷◌, ◌++◌, map, Buf, All, ok}
use xotpad.X29.{buf_eq}
use xotpad.X28.Text.{codes, trim_start, trim_end, trim, to_uppercase, split_once}
use xotpad.X28.Signal.{format_params}
use xotpad.X28.Command.{set, parse_set, parse_command, parse_parts, from_str}
use xotpad.X28.Command.Parameters.{
  checked, text, IsPair, IsTrimmed-text, IsTrimmed-append, format_params_lem, parse_set_params-text,
}

parse_parts-set :
    (s : Buf)
    → parse_parts (codes "SET " ++ s) (split_once b' ' (codes "SET " ++ s)) ≡ parse_set set s
unfolding parse_parts parse_command to_uppercase split_once buf_eq
parse_parts-set s = refl

from_str-set :
    (s : Buf)
    → trim_end (codes "SET " ++ s) ≡ codes "SET " ++ s
    → from_str (codes "SET " ++ s) ≡ parse_set set s
unfolding from_str trim trim_start
from_str-set s h = ap (λ t. parse_parts t (split_once b' ' t)) h ∙ parse_parts-set s

-- A parameter list that the PAD prints, where every parameter could be read, is what a user can type to set
-- these parameters again: the command SET with it is parsed to exactly the list. The list is not empty and
-- its numbers are bytes.
pub from_str-format_params :
    (p : ℕ × ℕ) (ps : List (ℕ × ℕ))
    → All IsPair (p ∷ ps)
    → from_str (codes "SET " ++ format_params (map checked (p ∷ ps))) ≡ ok (set (p ∷ ps))
unfolding parse_set
from_str-format_params p ps h =
    ap (λ t. from_str (codes "SET " ++ t)) (format_params_lem p ps)
    ∙ from_str-set (text p ps)
        (IsTrimmed-append (codes "SET ") (text p ps) (IsTrimmed-text p ps h)).0
    ∙ rw (parse_set_params-text p ps h) refl

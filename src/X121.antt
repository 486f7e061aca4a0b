-- ===== src/X121.antt =====
-- X.121 addresses: libxotpad/src/x121.rs. A `String` is the list of its UTF-8
-- bytes; all its characters are ASCII digits exactly when all its bytes are.
pub mod Digits
use xotpad.Base.{
  ℕ, ◌+◌, ◌-◌, Bool, true, false, ◌&&◌, List, [], ◌∷◌, map, length, is_empty, all, leb, ltb, ◌==◌,
  not, if◌then◌else◌, Result, ok, panic, ◌>>=◌, ◌>>◌, guard, too_many_digits, digits_out_of_range,
  address_too_long, characters_not_digits,
}

pub record X121Addr : Type 0 where
  pub addr : List ℕ

abbrev pub null : X121Addr
null = record { addr = [] }

-- `char::is_ascii_digit`
abbrev pub is_ascii_digit : ℕ → Bool
is_ascii_digit c = leb b'0' c && leb c b'9'

unfoldable pub from_str : List ℕ → Result X121Addr
from_str s = do
  guard (not (ltb 15 (length s))) address_too_long
  guard (all is_ascii_digit s) characters_not_digits
  ok (record { addr = s })

-- `u8::to_string` of a digit is one character.
unfoldable pub from_digits : List ℕ → Result X121Addr
from_digits digits = do
  guard (not (ltb 15 (length digits))) too_many_digits
  guard (all (λ d. leb d 9) digits) digits_out_of_range
  from_str (map (λ d. b'0' + d) digits)

unfoldable pub len : X121Addr → ℕ
len a = length a.addr

unfoldable pub is_null : X121Addr → Bool
is_null a = is_empty a.addr

-- `u8::try_from(c.to_digit(10).unwrap()).unwrap()`
unfoldable pub to_digit : ℕ → Result ℕ
to_digit c = if is_ascii_digit c then ok (c - b'0') else panic

unfoldable pub digits_of : List ℕ → Result (List ℕ)
unfolding to_digit
digits_of [] = ok []
digits_of (c ∷ cs) = do d ← to_digit c; ds ← digits_of cs; ok (d ∷ ds)

unfoldable pub digits : X121Addr → Result (List ℕ)
unfolding digits_of
digits a = digits_of a.addr

-- `String::starts_with`
abbrev is_prefix : List ℕ → List ℕ → Bool
is_prefix [] s = true
is_prefix (c ∷ p) [] = false
is_prefix (c ∷ p) (d ∷ s) = c == d && is_prefix p s

unfoldable pub starts_with : X121Addr → X121Addr → Bool
starts_with a p = is_prefix p.addr a.addr

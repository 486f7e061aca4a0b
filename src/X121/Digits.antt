-- ===== src/X121/Digits.antt =====
-- Addresses and their digits.
use xotpad.Base.{
  ℕ, ◌+◌, ◌-◌, ◌≤◌, ◌≡◌, refl, true, List, [], ◌∷◌, map, length, length-map, All, all, arith, leb,
  ok, Returns, value, Returns-after, not, ltb, too_many_digits, digits_out_of_range,
  address_too_long, characters_not_digits,
}
use xotpad.X121.{null, X121Addr, is_ascii_digit, from_str, from_digits, digits_of}

-- What the constructors of `X121Addr` establish; its field is private.
pub record IsValid (a : X121Addr) : Type 0 where
  pub ascii : all is_ascii_digit a.addr ≡ true
  pub short : length a.addr ≤ 15

abbrev pub IsDigit : ℕ → Type 0
IsDigit d = d ≤ 9

pub null-IsValid : IsValid null
null-IsValid = record { ascii = refl; short = omega arith }

pub from_str-IsValid : (s : List ℕ) {a : X121Addr} → from_str s ≡ ok a → IsValid a
unfolding from_str
from_str-IsValid s h = ground arith

pub from_digits-IsValid : (ds : List ℕ) {a : X121Addr} → from_digits ds ≡ ok a → IsValid a
unfolding from_digits from_str
from_digits-IsValid ds h = ground arith

-- Neither constructor panics.
pub from_str-Returns : (s : List ℕ) → Returns IsValid (from_str s)
unfolding from_str
from_str-Returns s = Returns-after (not (ltb 15 (length s))) address_too_long λ short.
    Returns-after (all is_ascii_digit s) characters_not_digits
      λ ascii. value {a = record { addr = s }} (ground arith)

pub from_digits-Returns : (ds : List ℕ) → Returns IsValid (from_digits ds)
unfolding from_digits
from_digits-Returns ds = Returns-after (not (ltb 15 (length ds))) too_many_digits λ _.
    Returns-after (all (λ d. leb d 9) ds) digits_out_of_range
      λ _. from_str-Returns (map (λ d. b'0' + d) ds)

-- A valid address has its digits, as many as it has characters.
pub digits_of_lem :
    (cs : List ℕ) → all is_ascii_digit cs ≡ true → digits_of cs ≡ ok (map (λ c. c - b'0') cs)
unfolding digits_of
digits_of_lem [] h = refl
digits_of_lem (c ∷ cs) h = ground (arith, digits_of_lem cs)

pub values-IsDigit :
    (cs : List ℕ) → all is_ascii_digit cs ≡ true → All IsDigit (map (λ c. c - b'0') cs)
values-IsDigit [] h = tt
values-IsDigit (c ∷ cs) h = ground (arith, values-IsDigit cs)

pub values_all :
    (cs : List ℕ)
    → all is_ascii_digit cs ≡ true
    → all (λ d. leb d 9) (map (λ c. c - b'0') cs) ≡ true
values_all [] h = refl
values_all (c ∷ cs) h = ground (arith, values_all cs)

pub values_back :
    (cs : List ℕ) → all is_ascii_digit cs ≡ true → map (λ d. b'0' + d) (map (λ c. c - b'0') cs) ≡ cs
values_back [] h = refl
values_back (c ∷ cs) h = ground (arith, values_back cs)

-- The digits of a valid address make that address again.
pub from_digits-digits :
    (a : X121Addr) → IsValid a → from_digits (map (λ c. c - b'0') a.addr) ≡ ok a
unfolding from_digits from_str
from_digits-digits a v = ground (
  arith,
  values_all a.addr v.ascii,
  values_back a.addr v.ascii,
  length-map (λ (c : ℕ). c - b'0') a.addr,
)

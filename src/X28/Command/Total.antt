-- ===== src/X28/Command/Total.antt =====
-- The parser of commands on any ASCII text.
use xotpad.Base.{
  ℕ, ◌<◌, ◌≡◌, arith, refl, false, not, ◌&&◌, ◌||◌, List, [], ◌∷◌, ◌==◌, is_empty, Buf, All, IsByte,
  Error, Option, none, some, Result, err, Returns, value, error, Returns-bind, Returns-weaken,
  Returns-if, Returns-after, selection_required, invalid_selection, parameters_required,
  unrecognized_command, invalid_parameter, invalid_parameter_value, Bool-cases, inl, inr,
}
use xotpad.X29.{buf_eq}
use xotpad.X28.Text.{
  codes, is_whitespace, trim_start, trim_end, trim, to_uppercase, split_once, split, u8_from_str,
}
use xotpad.X28.Text.Numbers.{u8_from_str-lt}
use xotpad.X28.Selection.{X28Selection}
use xotpad.X28.Selection.Total.{IsAscii, IsSelection, from_str-IsSelection}
use xotpad.X28.Command.{
  X28Command, selection, read, set, set_read, remote_read, remote_set_read, number_or,
  parse_read_param, collect, parse_each, parse_read_params, parse_pair, parse_set_param,
  parse_set_params, selection_or, parse_call, parse_set, parse_command, parse_parts, from_str,
}

-- Parts of an ASCII text are ASCII.
trim_start-IsAscii : (s : Buf) → IsAscii s → IsAscii (trim_start s)
unfolding trim_start
trim_start-IsAscii [] a = tt
trim_start-IsAscii (c ∷ s) (ac, a) = elim (Bool-cases (is_whitespace c)) [
  | inl blank ↦ rw blank (trim_start-IsAscii s a)
  | inr char ↦ rw char (ac, a)
]

trim_end-IsAscii : (s : Buf) → IsAscii s → IsAscii (trim_end s)
unfolding trim_end
trim_end-IsAscii [] a = tt
trim_end-IsAscii (c ∷ s) (ac, a) = elim (Bool-cases (is_whitespace c && is_empty (trim_end s))) [
  | inl blank ↦ rw blank tt
  | inr char ↦ rw char (ac, trim_end-IsAscii s a)
]

trim-IsAscii : (s : Buf) → IsAscii s → IsAscii (trim s)
unfolding trim
trim-IsAscii s a = trim_end-IsAscii (trim_start s) (trim_start-IsAscii s a)

to_uppercase-IsAscii : (s : Buf) → IsAscii s → IsAscii (to_uppercase s)
unfolding to_uppercase
to_uppercase-IsAscii [] a = tt
to_uppercase-IsAscii (c ∷ s) (ac, a) = (ground arith, to_uppercase-IsAscii s a)

abbrev AreAscii : Option (Buf × Buf) → Type 0
AreAscii none = Unit {0}
AreAscii (some (before, after)) = IsAscii before × IsAscii after

split_once-AreAscii : (separator : ℕ) (s : Buf) → IsAscii s → AreAscii (split_once separator s)
unfolding split_once
split_once-AreAscii separator [] a = tt
split_once-AreAscii separator (c ∷ s) (ac, a) = elim (Bool-cases (c == separator)) [
  | inl here ↦ rw here (tt, a)
  | inr other ↦ rw other (prepended (split_once separator s) (split_once-AreAscii separator s a))
]
  where
    prepended :
        (r : Option (Buf × Buf))
        → AreAscii r
        → AreAscii (elim r [ none ↦ none | some (before, after) ↦ some (c ∷ before, after) ])
    prepended none h = tt
    prepended (some (before, after)) h = ((ac, h.0), h.1)

-- What the parser establishes of a command: its numbers are bytes, it has the parameters that it needs,
-- and its selection has at least one address, none empty and each X.121 address valid.
abbrev pub ArePairs : List (ℕ × ℕ) → Type 0
ArePairs params = All (λ (p, v). IsByte p × IsByte v) params × (is_empty params ≡ false)

abbrev pub IsCommand : X28Command → Type 0
IsCommand (selection s) = IsSelection s
IsCommand (read params) = All IsByte params
IsCommand (set params) = ArePairs params
IsCommand (set_read params) = ArePairs params
IsCommand (remote_read params) = All IsByte params
IsCommand (remote_set_read params) = ArePairs params
IsCommand _ = Unit {0}

number_or-IsByte : (s : Buf) (e : Error) → Returns IsByte (number_or (err e) (u8_from_str s))
unfolding number_or
number_or-IsByte s e = by_cases (u8_from_str s) λ m h. u8_from_str-lt s {m = m} h
  where
    by_cases :
        (r : Option ℕ) → ((m : ℕ) → r ≡ some m → m < 256) → Returns IsByte (number_or (err e) r)
    by_cases none h = error
    by_cases (some n) h = value (h n refl)

collect-Returns {ℓ κ} :
    {A : Type ℓ} (P : A → Type κ) (f : Buf → Result A)
    → ((s : Buf) → Returns P (f s))
    → (piece : Buf) (pieces : List Buf)
    → Returns (λ xs. All P xs × (is_empty xs ≡ false)) (collect f piece pieces)
unfolding collect
collect-Returns P f h piece [] = Returns-bind (h piece) λ a p. value ((p, tt), refl)
collect-Returns P f h piece (piece' ∷ pieces) =
    Returns-bind (h piece) λ a p.
      Returns-bind (collect-Returns P f h piece' pieces) λ rest (ps, _). value ((p, ps), refl)

parse_each-Returns {ℓ κ} :
    {A : Type ℓ} (P : A → Type κ) (f : Buf → Result A)
    → ((s : Buf) → Returns P (f s))
    → (s : Buf) → Returns (λ xs. All P xs × (is_empty xs ≡ false)) (parse_each f s)
unfolding parse_each
parse_each-Returns P f h s = collect-Returns P f h (split b',' s).0 (split b',' s).1

parse_read_params-Returns : (s : Buf) → Returns (λ params. All IsByte params) (parse_read_params s)
unfolding parse_read_params parse_read_param
parse_read_params-Returns s =
    Returns-if (is_empty (trim s)) (λ _. value tt)
      λ _.
        Returns-weaken
          (parse_each-Returns IsByte parse_read_param
            (λ t. number_or-IsByte (trim t) invalid_parameter) (trim s))
          λ params (h, _). h

parse_pair-Returns :
    (r : Option (Buf × Buf)) → Returns (λ (p, v). IsByte p × IsByte v) (parse_pair r)
unfolding parse_pair
parse_pair-Returns none = error
parse_pair-Returns (some (param, v)) =
    Returns-bind (number_or-IsByte (trim param) invalid_parameter) λ p hp.
      Returns-bind (number_or-IsByte (trim v) invalid_parameter_value) λ v' hv. value (hp, hv)

parse_set_params-Returns :
    (s : Buf) → Returns (λ params. All (λ (p, v). IsByte p × IsByte v) params) (parse_set_params s)
unfolding parse_set_params parse_set_param
parse_set_params-Returns s =
    Returns-if (is_empty (trim s)) (λ _. value tt)
      λ _.
        Returns-weaken
          (parse_each-Returns (λ (p, v). IsByte p × IsByte v) parse_set_param
            (λ t. parse_pair-Returns (split_once b':' t)) (trim s))
          λ params (h, _). h

parse_set-Returns :
    (command : List (ℕ × ℕ) → X28Command) (rest : Buf)
    → ((params : List (ℕ × ℕ)) → ArePairs params → IsCommand (command params))
    → Returns IsCommand (parse_set command rest)
unfolding parse_set
parse_set-Returns command rest h = Returns-bind (parse_set_params-Returns rest) λ params all.
    Returns-after (not (is_empty params)) parameters_required
      λ some. value (h params (all, (ground arith)))

selection_or-Returns :
    (e : Error) {r : Result X28Selection}
    → Returns IsSelection r
    → Returns IsCommand (selection_or (err e) r)
unfolding selection_or
selection_or-Returns e (value h) = value h
selection_or-Returns e error = error

parse_call-Returns : (rest : Buf) → IsAscii rest → Returns IsCommand (parse_call rest)
unfolding parse_call
parse_call-Returns rest a =
    Returns-after (not (is_empty rest)) selection_required
      λ _. selection_or-Returns invalid_selection (from_str-IsSelection rest a)

parse_command-Returns :
    (command rest : Buf)
    → IsAscii command
    → IsAscii rest
    → Returns IsCommand (parse_command command rest)
unfolding parse_command
parse_command-Returns command rest ac a =
    let is = λ (name : Buf). buf_eq command name in
    Returns-if (is (codes "CALL")) (λ _. parse_call-Returns rest a)
      λ _.
        Returns-if (is (codes "CLR") || is (codes "CLEAR")) (λ _. value tt)
          λ _.
            Returns-if
              (is (codes "PAR?") || is (codes "PAR") || is (codes "PARAMETER") || is (codes "READ"))
              (λ _. Returns-bind (parse_read_params-Returns rest) λ params h. value h)
              λ _.
                Returns-if (is (codes "SET")) (λ _. parse_set-Returns set rest λ params h. h)
                  λ _.
                    Returns-if (is (codes "SET?") || is (codes "SETREAD"))
                      (λ _. parse_set-Returns set_read rest λ params h. h)
                      λ _.
                        Returns-if (is (codes "RPAR?") || is (codes "RREAD"))
                          (λ _. Returns-bind (parse_read_params-Returns rest) λ params h. value h)
                          λ _.
                            Returns-if (is (codes "RSET?") || is (codes "RSETREAD"))
                              (λ _. parse_set-Returns remote_set_read rest λ params h. h)
                              λ _.
                                Returns-if (is (codes "STAT") || is (codes "STATUS"))
                                  (λ _. value tt)
                                  λ _.
                                    Returns-if (is (codes "ICLR") || is (codes "ICLEAR"))
                                      (λ _. value tt)
                                      λ _.
                                        Returns-if (is (codes "HELP")) (λ _. value tt)
                                          λ _.
                                            selection_or-Returns unrecognized_command
                                              (from_str-IsSelection command ac)

parse_parts-Returns :
    (s : Buf) (parts : Option (Buf × Buf))
    → IsAscii s
    → AreAscii parts
    → Returns IsCommand (parse_parts s parts)
unfolding parse_parts
parse_parts-Returns s none a h =
    parse_command-Returns (to_uppercase s) [] (to_uppercase-IsAscii s a) tt
parse_parts-Returns s (some (command, rest)) a (hc, hr) =
    parse_command-Returns (to_uppercase command) rest (to_uppercase-IsAscii command hc) hr

-- On every ASCII text the parser of commands returns an error or a command, and panics on none. The
-- parameters and the values of a command are below 256, a command that sets has at least one, and a
-- selection has at least one address.
pub from_str-IsCommand : (s : Buf) → IsAscii s → Returns IsCommand (from_str s)
unfolding from_str
from_str-IsCommand s a =
    parse_parts-Returns (trim s) (split_once b' ' (trim s)) (trim-IsAscii s a)
      (split_once-AreAscii b' ' (trim s) (trim-IsAscii s a))

-- ===== src/X28/Command/Parameters.antt =====
-- A list of parameters as the PAD prints it, and how the parser of commands reads it.
use xotpad.Base.{
  ℕ, ◌<◌, ◌≡◌, arith, refl, ap, ◌∙◌, sym, true, false, not, List, [], ◌∷◌, ◌++◌, map, append_assoc,
  ◌==◌, is_empty, if◌then◌else◌, all, Buf, All, IsByte, some, Result, ok, err, invalid_parameter,
  invalid_parameter_value,
}
use xotpad.X121.{is_ascii_digit}
use xotpad.X3.{Checked, valid}
use xotpad.X28.Text.{
  codes, trim_start, trim_end, trim, split_once, split, u8_from_str, u8_to_string,
}
use xotpad.X28.Text.Numbers.{u8_from_str-to_string}
use xotpad.X28.Signal.{format_value, format_loop, format_params}
use xotpad.X28.Command.{
  number_or, collect, parse_each, parse_pair, parse_set_param, parse_set_params,
}

abbrev pub checked : ℕ × ℕ → ℕ × Checked ℕ
checked (param, value) = (param, valid value)

abbrev pub entry : ℕ × ℕ → Buf
entry (param, value) = u8_to_string param ++ (b':' ∷ u8_to_string value)

abbrev pub text : ℕ × ℕ → List (ℕ × ℕ) → Buf
text p [] = entry p
text p (q ∷ ps) = entry p ++ (b',' ∷ b' ' ∷ text q ps)

abbrev pub IsPair : ℕ × ℕ → Type 0
IsPair (param, value) = IsByte param × IsByte value

-- What the loop appends.
nonempty-append : (s : Buf) (c : ℕ) (t : Buf) → is_empty (s ++ (c ∷ t)) ≡ false
nonempty-append [] c t = refl
nonempty-append (d ∷ s) c t = refl

nonempty-entry : (s : Buf) (p : ℕ × ℕ) → is_empty (s ++ entry p) ≡ false
nonempty-entry [] (param, value) = nonempty-append (u8_to_string param) b':' (u8_to_string value)
nonempty-entry (d ∷ s) p = refl

format_loop-nonempty :
    (p : ℕ × ℕ) (ps : List (ℕ × ℕ)) (s : Buf)
    → format_loop (map checked ps) (s ++ entry p) ≡ s ++ text p ps
unfolding format_loop format_value
format_loop-nonempty p [] s = refl
format_loop-nonempty p (q ∷ ps) s =
    let said = s ++ entry p in
    ap
      (λ empty.
        format_loop (map checked ps) ((if empty then said else said ++ codes ", ") ++ entry q))
      (nonempty-entry s p)
    ∙ format_loop-nonempty q ps (said ++ codes ", ")
    ∙ append_assoc said (codes ", ") (text q ps)
    ∙ append_assoc s (entry p) (codes ", " ++ text q ps)

pub format_params_lem :
    (p : ℕ × ℕ) (ps : List (ℕ × ℕ)) → format_params (map checked (p ∷ ps)) ≡ text p ps
unfolding format_params format_loop format_value
format_params_lem p ps = format_loop-nonempty p ps []

-- Separators.
free-u8_to_string :
    (c n : ℕ) → is_ascii_digit c ≡ false → n < 256 → all (λ d. not (d == c)) (u8_to_string n) ≡ true
unfolding u8_to_string
free-u8_to_string c n h b = ground arith

split_once-append :
    (c : ℕ) (s t : Buf)
    → all (λ d. not (d == c)) s ≡ true
    → split_once c (s ++ (c ∷ t)) ≡ some (s, t)
unfolding split_once
split_once-append c [] t h = ground arith
split_once-append c (d ∷ s) t h = ground (arith, split_once-append c s t)

split-append :
    (c : ℕ) (s t : Buf)
    → all (λ d. not (d == c)) s ≡ true
    → split c (s ++ (c ∷ t)) ≡ (s, (split c t).0 ∷ (split c t).1)
unfolding split
split-append c [] t h = ground arith
split-append c (d ∷ s) t h = ground (arith, split-append c s t)

split-free : (c : ℕ) (s : Buf) → all (λ d. not (d == c)) s ≡ true → split c s ≡ (s, [])
unfolding split
split-free c [] h = refl
split-free c (d ∷ s) h = ground (arith, split-free c s)

-- Blanks.
abbrev pub IsTrimmed : Buf → Type 0
IsTrimmed s = (trim_end s ≡ s) × (is_empty s ≡ false)

IsTrimmed-cons : (c : ℕ) (s : Buf) → IsTrimmed s → IsTrimmed (c ∷ s)
unfolding trim_end
IsTrimmed-cons c s (e, n) = (rw e (rw n ground arith), refl)

pub IsTrimmed-append : (s t : Buf) → IsTrimmed t → IsTrimmed (s ++ t)
IsTrimmed-append [] t h = h
IsTrimmed-append (c ∷ s) t h = IsTrimmed-cons c (s ++ t) (IsTrimmed-append s t h)

IsTrimmed-u8_to_string : (n : ℕ) → n < 256 → IsTrimmed (u8_to_string n)
unfolding trim_end u8_to_string
IsTrimmed-u8_to_string n b = ground arith

trim-u8_to_string : (n : ℕ) → n < 256 → trim (u8_to_string n) ≡ u8_to_string n
unfolding trim trim_start trim_end u8_to_string
trim-u8_to_string n b = ground arith

pub IsTrimmed-text : (p : ℕ × ℕ) (ps : List (ℕ × ℕ)) → All IsPair (p ∷ ps) → IsTrimmed (text p ps)
IsTrimmed-text (a, v) [] ((_, b), _) =
    IsTrimmed-append (u8_to_string a) (b':' ∷ u8_to_string v)
      (IsTrimmed-cons b':' (u8_to_string v) (IsTrimmed-u8_to_string v b))
IsTrimmed-text p (q ∷ ps) (_, h) = IsTrimmed-append (entry p) (b',' ∷ b' ' ∷ text q ps) (
    IsTrimmed-cons b',' (b' ' ∷ text q ps)
      (IsTrimmed-cons b' ' (text q ps) (IsTrimmed-text q ps h)))

-- A digit begins a printed number, so that nothing is trimmed before it.
trim_start-u8_to_string :
    (n : ℕ) (s : Buf) → n < 256 → trim_start (u8_to_string n ++ s) ≡ u8_to_string n ++ s
unfolding trim_start u8_to_string
trim_start-u8_to_string n s b = ground arith

pub trim-text : (p : ℕ × ℕ) (ps : List (ℕ × ℕ)) → All IsPair (p ∷ ps) → trim (text p ps) ≡ text p ps
unfolding trim
trim-text p ps h = ap trim_end (trim_start-text p ps h.0) ∙ (IsTrimmed-text p ps h).0
  where
    trim_start-text :
        (p : ℕ × ℕ) (ps : List (ℕ × ℕ)) → IsPair p → trim_start (text p ps) ≡ text p ps
    trim_start-text (a, v) [] (b, _) = trim_start-u8_to_string a (b':' ∷ u8_to_string v) b
    trim_start-text (a, v) (q ∷ ps) (b, _) =
        let rest = b',' ∷ b' ' ∷ text q ps in
        ap trim_start (append_assoc (u8_to_string a) (b':' ∷ u8_to_string v) rest)
        ∙ trim_start-u8_to_string a ((b':' ∷ u8_to_string v) ++ rest) b
        ∙ sym (append_assoc (u8_to_string a) (b':' ∷ u8_to_string v) rest)

-- One parameter.
number_or-u8_to_string :
    (n : ℕ) (e : Result ℕ) → n < 256 → number_or e (u8_from_str (trim (u8_to_string n))) ≡ ok n
unfolding number_or
number_or-u8_to_string n e b =
    ap (λ s. number_or e (u8_from_str s)) (trim-u8_to_string n b)
    ∙ ap (number_or e) (u8_from_str-to_string n b)

parse_pair-u8_to_string :
    (a v : ℕ) → a < 256 → v < 256 → parse_pair (some (u8_to_string a, u8_to_string v)) ≡ ok (a, v)
unfolding parse_pair
parse_pair-u8_to_string a v ba bv =
    rw (number_or-u8_to_string a (err invalid_parameter) ba)
      (rw (number_or-u8_to_string v (err invalid_parameter_value) bv) refl)

parse_set_param-entry : (p : ℕ × ℕ) → IsPair p → parse_set_param (entry p) ≡ ok p
unfolding parse_set_param parse_pair
parse_set_param-entry (a, v) (ba, bv) =
    ap parse_pair
      (split_once-append b':' (u8_to_string a) (u8_to_string v) (free-u8_to_string b':' a refl ba))
    ∙ parse_pair-u8_to_string a v ba bv

parse_set_param-blank : (p : ℕ × ℕ) → IsPair p → parse_set_param (b' ' ∷ entry p) ≡ ok p
unfolding parse_set_param parse_pair trim trim_start
parse_set_param-blank (a, v) (ba, bv) =
    ap parse_pair (
      split_once-append b':' (b' ' ∷ u8_to_string a) (u8_to_string v)
        (free-u8_to_string b':' a refl ba))
    ∙ parse_pair-u8_to_string a v ba bv

free-entry : (p : ℕ × ℕ) → IsPair p → all (λ d. not (d == b',')) (entry p) ≡ true
free-entry (a, v) (ba, bv) =
    all-append (u8_to_string a) (u8_to_string v) (free-u8_to_string b',' a refl ba)
      (free-u8_to_string b',' v refl bv)
  where
    all-append :
        (s t : Buf)
        → all (λ d. not (d == b',')) s ≡ true
        → all (λ d. not (d == b',')) t ≡ true
        → all (λ d. not (d == b',')) (s ++ (b':' ∷ t)) ≡ true
    all-append [] t h g = ground arith
    all-append (c ∷ s) t h g = ground (arith, all-append s t)

split-blank : (s : Buf) → split b',' (b' ' ∷ s) ≡ (b' ' ∷ (split b',' s).0, (split b',' s).1)
unfolding split
split-blank s = refl

split-text :
    (p : ℕ × ℕ) (ps : List (ℕ × ℕ))
    → All IsPair (p ∷ ps)
    → split b',' (text p ps) ≡ (entry p, map (λ q. b' ' ∷ entry q) ps)
split-text p [] (h, _) = split-free b',' (entry p) (free-entry p h)
split-text p (q ∷ ps) (h, hs) =
    split-append b',' (entry p) (b' ' ∷ text q ps) (free-entry p h)
    ∙ ap (λ r. (entry p, r.0 ∷ r.1))
        (split-blank (text q ps) ∙ ap (λ r. (b' ' ∷ r.0, r.1)) (split-text q ps hs))

collect-entries :
    (p : ℕ × ℕ) (ps : List (ℕ × ℕ))
    → All IsPair ps
    → (s : Buf) → parse_set_param s ≡ ok p
    → collect parse_set_param s (map (λ q. b' ' ∷ entry q) ps) ≡ ok (p ∷ ps)
unfolding collect
collect-entries p [] hs s e = rw e refl
collect-entries p (q ∷ ps) (h, hs) s e =
    rw e (rw (collect-entries q ps hs (b' ' ∷ entry q) (parse_set_param-blank q h)) refl)

pub parse_set_params-text :
    (p : ℕ × ℕ) (ps : List (ℕ × ℕ))
    → All IsPair (p ∷ ps)
    → parse_set_params (text p ps) ≡ ok (p ∷ ps)
unfolding parse_set_params parse_each
parse_set_params-text p ps h = rw (trim-text p ps h) (
    rw ((IsTrimmed-text p ps h).1)
      (rw (split-text p ps h) (collect-entries p ps h.1 (entry p) (parse_set_param-entry p h.0))))

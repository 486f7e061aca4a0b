-- ===== src/X28/Selection/Addresses.antt =====
-- What the parser makes of the addresses that are written out.
use xotpad.Base.{
  ℕ, zero, suc, ◌≤◌, ◌≡◌, arith, refl, ap, ◌∙◌, Bool, true, false, not, ◌||◌, List, [], ◌∷◌, ◌++◌,
  length, length-append, append_assoc, ltb-false, ◌==◌, is_empty, if◌then◌else◌, Buf, All, all,
  Result, ok, ◌>>=◌,
}
use xotpad.X121 as X121
use xotpad.X121.{X121Addr, is_ascii_digit}
use xotpad.X121.Digits.{IsValid}
use xotpad.X28.Selection.{
  X28Addr, full, abbreviated, find_split, starts_with, slice_from_1, is_addr_end, parse_addr,
  push_addr, addr_of, addrs_loop, call_user_data_of, parse_addrs,
}
use xotpad.X28.Selection.Text.{addr_text, addrs_text, IsPlain, find_split-append}

abbrev is_abbreviated : X28Addr → Bool
is_abbreviated (full a) = false
is_abbreviated (abbreviated text) = true

plain_digit : (c : ℕ) → is_ascii_digit c ≡ true → (has : Bool) → not (is_addr_end has c) ≡ true
plain_digit c h has = ground arith

plain_digits :
    (s : Buf) (has : Bool)
    → all is_ascii_digit s ≡ true
    → all (λ c. not (is_addr_end has c)) s ≡ true
plain_digits [] has h = refl
plain_digits (c ∷ s) has h = ground (arith, plain_digit c, plain_digits s has)

-- The address whose text comes first, with what is known of the addresses before it.
abbrev first : X28Addr → Bool → Bool
first a has = is_abbreviated a || has

addr_plain :
    (a : X28Addr) (has : Bool)
    → IsPlain a
    → all (λ c. not (is_addr_end (first a has) c)) (addr_text a) ≡ true
addr_plain (full a) has (v, _) = plain_digits a.addr has v.ascii
addr_plain (abbreviated text) has (_, plain) = plain

-- What a round does once the string is split.
abbrev after_split : ℕ → Bool → Bool → List X28Addr → Buf × Buf → Result (List X28Addr × Bool × Buf)
unfolding addrs_loop
after_split fuel is_abbrev has out (text, after) = do
  addr ← addr_of is_abbrev text
  pushed ← push_addr is_abbrev addr out
  if not (starts_with b',' after)
      then ok (pushed, has, after)
      else (slice_from_1 after >>= λ next. addrs_loop fuel next pushed has)

opened :
    (fuel d : ℕ) (rest : Buf) (out : List X28Addr) (has is_abbrev : Bool)
    → (d == b'.') ≡ is_abbrev
    → addrs_loop (suc fuel) (d ∷ rest) out has
      ≡ after_split fuel is_abbrev
          (is_abbrev || has)
          out
          (find_split (is_addr_end (is_abbrev || has)) (d ∷ rest))
unfolding addrs_loop
opened fuel d rest out has is_abbrev e =
    ap (λ b. after_split fuel b (b || has) out (find_split (is_addr_end (b || has)) (d ∷ rest))) e

from_str-valid : (a : X121Addr) → IsValid a → X121.from_str a.addr ≡ ok a
unfolding X121.from_str
from_str-valid a v = rw (ltb-false 15 (length a.addr) v.short, v.ascii) refl

-- What is taken of an address's text.
abbrev bare : X28Addr → Buf
bare (full a) = a.addr
bare (abbreviated text) = text

push_addr-plain :
    (a : X28Addr) (out : List X28Addr)
    → IsPlain a
    → push_addr (is_abbreviated a) (bare a) out ≡ ok (out ++ (a ∷ []))
unfolding push_addr parse_addr
push_addr-plain (full a) out (v, some) = rw (some, from_str-valid a v) refl
push_addr-plain (abbreviated text) out (some, _) = rw some refl

addr_of-text : (a : X28Addr) → addr_of (is_abbreviated a) (addr_text a) ≡ ok (bare a)
unfolding addr_of slice_from_1
addr_of-text (full a) = refl
addr_of-text (abbreviated text) = refl

digit_first :
    (fuel : ℕ) (s rest : Buf) (out : List X28Addr) (has : Bool)
    → is_empty s ≡ false
    → all is_ascii_digit s ≡ true
    → addrs_loop (suc fuel) (s ++ rest) out has
      ≡ after_split fuel false has out (find_split (is_addr_end has) (s ++ rest))
digit_first fuel [] rest out has some digits = cc
digit_first fuel (d ∷ s) rest out has some digits =
    opened fuel d (s ++ rest) out has false (ground arith)

-- The first character tells an abbreviated address.
split_addr :
    (fuel c : ℕ) (a : X28Addr) (rest : Buf) (out : List X28Addr) (has : Bool)
    → IsPlain a
    → addrs_loop (suc fuel) (addr_text a ++ (c ∷ rest)) out has
      ≡ after_split fuel
          (is_abbreviated a)
          (first a has)
          out
          (find_split (is_addr_end (first a has)) (addr_text a ++ (c ∷ rest)))
split_addr fuel c (abbreviated text) rest out has p =
    opened fuel b'.' (text ++ (c ∷ rest)) out has true refl
split_addr fuel c (full a) rest out has (v, some) =
    digit_first fuel a.addr (c ∷ rest) out has some v.ascii

addr_round :
    (fuel c : ℕ) (a : X28Addr) (rest : Buf) (out : List X28Addr) (has : Bool)
    → IsPlain a
    → is_addr_end (first a has) c ≡ true
    → addrs_loop (suc fuel) (addr_text a ++ (c ∷ rest)) out has ≡ (
        if not (c == b',')
        then ok (out ++ (a ∷ []), first a has, c ∷ rest)
        else (slice_from_1 (c ∷ rest) >>= λ next.
            addrs_loop fuel next (out ++ (a ∷ [])) (first a has)))
unfolding after_split slice_from_1
addr_round fuel c a rest out has p h =
    split_addr fuel c a rest out has p
    ∙ ap (after_split fuel (is_abbreviated a) (first a has) out)
        (find_split-append (is_addr_end (first a has)) (addr_text a) c rest (addr_plain a has p) h)
    ∙ (rw (addr_of-text a, push_addr-plain a out p) refl)

-- Whether there is an abbreviated address.
abbrev any_abbreviated : List X28Addr → Bool → Bool
any_abbreviated [] has = has
any_abbreviated (a ∷ addrs) has = any_abbreviated addrs (first a has)

addrs_loop_lem :
    (fuel : ℕ) (a : X28Addr) (addrs out : List X28Addr) (has : Bool) (cud : Buf)
    → length (addrs_text (a ∷ addrs) (b'*' ∷ cud)) ≤ fuel
    → All IsPlain (a ∷ addrs)
    → addrs_loop fuel (addrs_text (a ∷ addrs) (b'*' ∷ cud)) out has
      ≡ ok (out ++ (a ∷ addrs), any_abbreviated (a ∷ addrs) has, b'*' ∷ cud)
unfolding slice_from_1
addrs_loop_lem zero a [] out has cud enough p =
    absurd (omega (arith, enough, length-append (addr_text a) (b'*' ∷ cud)))
addrs_loop_lem (suc fuel) a [] out has cud enough (p, _) = addr_round fuel b'*' a cud out has p refl
addrs_loop_lem zero a (b ∷ addrs) out has cud enough p = absurd (
    omega (arith, enough, length-append (addr_text a) (b',' ∷ addrs_text (b ∷ addrs) (b'*' ∷ cud))))
addrs_loop_lem (suc fuel) a (b ∷ addrs) out has cud enough (p, ps) =
    addr_round fuel b',' a (addrs_text (b ∷ addrs) (b'*' ∷ cud)) out has p refl
    ∙ addrs_loop_lem fuel b addrs (out ++ (a ∷ [])) (first a has) cud
        (omega
          (arith, enough, length-append (addr_text a) (b',' ∷ addrs_text (b ∷ addrs) (b'*' ∷ cud))))
        ps
    ∙ ap (λ l. ok (l, any_abbreviated (a ∷ b ∷ addrs) has, b'*' ∷ cud))
        (append_assoc out (a ∷ []) (b ∷ addrs))

asterisk : (has : Bool) (cud : Buf) → call_user_data_of has (b'*' ∷ cud) ≡ ok cud
unfolding call_user_data_of slice_from_1
asterisk true cud = refl
asterisk false cud = refl

pub parse_addrs_lem :
    (a : X28Addr) (addrs : List X28Addr) (cud : Buf)
    → All IsPlain (a ∷ addrs)
    → parse_addrs (addrs_text (a ∷ addrs) (b'*' ∷ cud)) ≡ ok (a ∷ addrs, cud)
unfolding parse_addrs
parse_addrs_lem a addrs cud p =
    rw
      (
        addrs_loop_lem (length (addrs_text (a ∷ addrs) (b'*' ∷ cud))) a addrs [] false cud
            (omega arith) p,
        asterisk (any_abbreviated (a ∷ addrs) false) cud,
      )
      refl

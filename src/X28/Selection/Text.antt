-- ===== src/X28/Selection/Text.antt =====
-- A selection as a user writes it, and how the parser splits a text at its separators.
use xotpad.Base.{
  ℕ, ◌<◌, ◌≡◌, arith, refl, Bool, true, false, not, List, [], ◌∷◌, ◌++◌, contains, ◌==◌, is_empty,
  Buf, all,
}
use xotpad.X121.Digits.{IsValid}
use xotpad.X28.Selection.{
  X28Addr, full, abbreviated, X28Selection, find_split, is_facility_end, is_addr_end,
}

-- A selection as a user writes it: the facilities, a dash, the addresses, an asterisk and the data.
abbrev pub facilities_text : List (ℕ × Buf) → Buf → Buf
facilities_text [] rest = b'-' ∷ rest
facilities_text ((code, v) ∷ []) rest = code ∷ v ++ (b'-' ∷ rest)
facilities_text ((code, v) ∷ f ∷ facilities) rest =
    code ∷ v ++ (b',' ∷ facilities_text (f ∷ facilities) rest)

abbrev pub addr_text : X28Addr → Buf
addr_text (full a) = a.addr
addr_text (abbreviated text) = b'.' ∷ text

abbrev pub addrs_text : List X28Addr → Buf → Buf
addrs_text [] rest = rest
addrs_text (a ∷ []) rest = addr_text a ++ rest
addrs_text (a ∷ b ∷ addrs) rest = addr_text a ++ (b',' ∷ addrs_text (b ∷ addrs) rest)

abbrev pub selection_text : X28Selection → Buf
selection_text s = facilities_text s.facilities (addrs_text s.addrs (b'*' ∷ s.call_user_data))

-- No separator is part of a facility, and its code is a character of one byte and no dot.
abbrev pub IsFacility : ℕ × Buf → Type 0
IsFacility (code, v) =
    (code < 128)
    × ((code == b'.') ≡ false)
    × (is_facility_end code ≡ false)
    × (all (λ c. not (is_facility_end c)) v ≡ true)

-- No separator is part of an address.
abbrev pub IsPlain : X28Addr → Type 0
IsPlain (full a) = IsValid a × (is_empty a.addr ≡ false)
IsPlain (abbreviated text) =
    (is_empty text ≡ false) × (all (λ c. not (is_addr_end true c)) text ≡ true)

pub find_split-append :
    (stop : ℕ → Bool) (s : Buf) (c : ℕ) (rest : Buf)
    → all (λ d. not (stop d)) s ≡ true
    → stop c ≡ true
    → find_split stop (s ++ (c ∷ rest)) ≡ (s, c ∷ rest)
unfolding find_split
find_split-append stop [] c rest a h = rw h refl
find_split-append stop (d ∷ s) c rest a h = ground (arith, find_split-append stop s c rest)

pub contains-append :
    (s : Buf) (c : ℕ) (rest : Buf) → contains rest c ≡ true → contains (s ++ rest) c ≡ true
contains-append [] c rest h = h
contains-append (d ∷ s) c rest h = ground (arith, contains-append s c rest h)

-- ===== src/X28/Selection/Total.antt =====
-- The parser of selections on any string of ASCII characters.
use xotpad.Base.{
  ℕ, zero, suc, ◌<◌, ◌≤◌, ◌≡◌, arith, refl, ap, sym, ◌∙◌, Bool, true, false, not, ◌||◌, List, [],
  ◌∷◌, length, contains, ◌==◌, is_empty, Buf, All, All-append, ok, Returns, value, Returns-bind,
  Returns-bind_eq, lt→ltb, Returns-weaken, Returns-if, Returns-after, empty_selection,
  address_required, invalid_call_user_data_separator, Bool-cases, inl, inr, ==→eq,
}
use xotpad.X121 as X121
use xotpad.X121.{X121Addr}
use xotpad.X121.Digits.{IsValid, from_str-Returns}
use xotpad.X28.Selection.{
  X28Addr, full, abbreviated, X28Selection, find_split, starts_with, slice_from_1, parse_facility,
  push_facility, is_facility_end, facilities_loop, parse_facilities, is_addr_end, parse_addr,
  push_addr, addr_of, addrs_loop, call_user_data_of, parse_addrs, from_str,
}

abbrev pub IsAscii : Buf → Type 0
IsAscii s = All (λ c. c < 128) s

-- What `find_split` makes of a string: both parts are of its characters, the first has none that
-- stops, and the second begins with one.
record IsSplit (stop : ℕ → Bool) (s before after : Buf) : Type 0 where
  ascii : IsAscii before × IsAscii after
  len : length after ≤ length s
  head : (c : ℕ) → starts_with c after ≡ true → stop c ≡ true
  kept : (c : ℕ) → stop c ≡ true → contains s c ≡ true → contains after c ≡ true

later :
    (stop : ℕ → Bool) (b c : ℕ) (s : Buf)
    → stop b ≡ false
    → stop c ≡ true
    → contains (b ∷ s) c ≡ true
    → contains s c ≡ true
later stop b c s goes h k = elim (Bool-cases (c == b)) [
  | inl same ↦ let e = sym h ∙ ap stop (==→eq c b same) ∙ goes in cc
  | inr other ↦ ground arith
]

find_split-IsSplit :
    (stop : ℕ → Bool) (s : Buf)
    → IsAscii s
    → IsSplit stop s (find_split stop s).0 (find_split stop s).1
unfolding find_split
find_split-IsSplit stop [] a = record {
  ascii = (tt, tt);
  len = omega arith;
  head = λ c h. cc;
  kept = λ c h k. k;
}
find_split-IsSplit stop (b ∷ s) (ab, a) =
    let rest = find_split-IsSplit stop s a in
    elim (Bool-cases (stop b)) [
      | inl stops ↦ rw stops record {
        ascii = (tt, (ab, a));
        len = omega arith;
        head = λ c h. sym (ap stop (==→eq b c h)) ∙ stops;
        kept = λ c h k. k;
      }
      | inr goes ↦ rw goes record {
        ascii = ((ab, rest.ascii.0), rest.ascii.1);
        len = omega (arith, rest.len);
        head = rest.head;
        kept = λ c h k. rest.kept c h (later stop b c s goes h k);
      }
    ]

slice-Returns :
    (s : Buf)
    → IsAscii s
    → is_empty s ≡ false
    → Returns (λ r. (IsAscii r) × (suc (length r) ≡ length s)) (slice_from_1 s)
unfolding slice_from_1
slice-Returns [] a h = cc
slice-Returns (c ∷ s) (ac, a) h = rw (lt→ltb c 128 ac) (value (a, refl))

parse_facility-Returns :
    (s : Buf) → IsAscii s → is_empty s ≡ false → Returns (λ f. Unit {0}) (parse_facility s)
unfolding parse_facility
parse_facility-Returns [] a h = cc
parse_facility-Returns (c ∷ s) a h = Returns-bind (slice-Returns (c ∷ s) a h) λ r _. value tt

push_facility-Returns :
    (facility : Buf) (facilities : List (ℕ × Buf))
    → IsAscii facility
    → Returns (λ fs. Unit {0}) (push_facility facility facilities)
unfolding push_facility
push_facility-Returns [] facilities a = value tt
push_facility-Returns (c ∷ s) facilities a =
    Returns-bind (parse_facility-Returns (c ∷ s) a refl) λ f _. value tt

not_empty : (c : ℕ) (s : Buf) → starts_with c s ≡ true → is_empty s ≡ false
not_empty c [] h = cc
not_empty c (d ∷ s) h = refl

has_more : (c : ℕ) (s : Buf) → contains s c ≡ true → is_empty s ≡ false
has_more c [] h = cc
has_more c (d ∷ s) h = refl

starts_with-negated : (c : ℕ) (s : Buf) → not (starts_with c s) ≡ false → starts_with c s ≡ true
starts_with-negated c s h = ground arith

-- Behind a comma the dash is still to come.
after_comma :
    (s next : Buf)
    → starts_with b',' s ≡ true
    → contains s b'-' ≡ true
    → slice_from_1 s ≡ ok next
    → contains next b'-' ≡ true
unfolding slice_from_1
after_comma [] next h k e = cc
after_comma (c ∷ s) next h k e = ground arith

-- With a dash ahead the loop stops before one, and enough fuel is the length of the string.
facilities_loop-Returns :
    (fuel : ℕ) (s : Buf) (facilities : List (ℕ × Buf))
    → length s ≤ fuel
    → IsAscii s
    → contains s b'-' ≡ true
    → Returns
        (λ (fs, rest). (IsAscii rest) × (is_empty rest ≡ false))
        (facilities_loop fuel s facilities)
unfolding facilities_loop
facilities_loop-Returns fuel [] facilities enough a h = cc
facilities_loop-Returns zero (c ∷ s) facilities enough a h = absurd (omega arith)
facilities_loop-Returns (suc fuel) (c ∷ s) facilities enough a h =
    let (facility, after) = find_split is_facility_end (c ∷ s) in
    let parts = find_split-IsSplit is_facility_end (c ∷ s) a in
    let dash : contains after b'-' ≡ true = parts.kept b'-' refl h in
    Returns-bind (push_facility-Returns facility facilities parts.ascii.0) λ pushed _.
      Returns-if (not (starts_with b',' after))
        (λ _. value (parts.ascii.1, has_more b'-' after dash))
        λ comma.
          let here = starts_with-negated b',' after comma in
          Returns-bind_eq (slice-Returns after parts.ascii.1 (has_more b'-' after dash))
            λ next (an, len) e.
              facilities_loop-Returns fuel next pushed (omega (arith, len, parts.len)) an
                (after_comma after next here dash e)

parse_facilities-Returns :
    (s : Buf) → IsAscii s → Returns (λ (fs, rest). IsAscii rest) (parse_facilities s)
unfolding parse_facilities
parse_facilities-Returns s a =
    Returns-if (starts_with b'.' s) (λ _. value a)
      λ _.
        Returns-if (not (contains s b'-')) (λ _. value a)
          λ dash.
            Returns-bind (facilities_loop-Returns (length s) s [] (omega arith) a (ground arith))
              λ (fs, rest) (ar, more).
                Returns-bind (slice-Returns rest ar more) λ next (an, _). value an

-- What the parser establishes of an address.
abbrev pub IsAddr : X28Addr → Type 0
IsAddr (full a) = IsValid a × (is_empty a.addr ≡ false)
IsAddr (abbreviated text) = is_empty text ≡ false

parse_addr-Returns :
    (is_abbrev : Bool) (text : Buf)
    → is_empty text ≡ false
    → Returns IsAddr (parse_addr is_abbrev text)
unfolding parse_addr X121.from_str
parse_addr-Returns true text h = value h
parse_addr-Returns false text h =
    Returns-bind_eq (from_str-Returns text) λ a valid e. value (valid, (ground arith))

push_addr-Returns :
    (is_abbrev : Bool) (text : Buf) (addrs : List X28Addr)
    → All IsAddr addrs
    → Returns (λ out. All IsAddr out) (push_addr is_abbrev text addrs)
unfolding push_addr
push_addr-Returns is_abbrev text addrs all =
    Returns-if (is_empty text) (λ _. value all)
      λ some.
        Returns-bind (parse_addr-Returns is_abbrev text some)
          λ addr h. value (All-append IsAddr addrs (addr ∷ []) all (h, tt))

-- An abbreviated address begins with its dot.
addr_of-Returns :
    (c : ℕ) (has : Bool) (s : Buf)
    → IsAscii (c ∷ s)
    → Returns (λ t. Unit {0}) (addr_of (c == b'.') (find_split (is_addr_end has) (c ∷ s)).0)
unfolding addr_of slice_from_1 find_split
addr_of-Returns c has s (ac, a) = elim (Bool-cases (c == b'.')) [
  | inl dot ↦ rw (==→eq c b'.' dot) (dotted has s)
  | inr no_dot ↦ rw no_dot (value tt)
]
  where
    dotted :
        (has : Bool) (s : Buf)
        → Returns (λ t. Unit {0}) (addr_of true (find_split (is_addr_end has) (b'.' ∷ s)).0)
    dotted true s = value tt
    dotted false s = value tt

addrs_loop-Returns :
    (fuel : ℕ) (s : Buf) (addrs : List X28Addr) (has : Bool)
    → length s ≤ fuel
    → IsAscii s
    → All IsAddr addrs
    → Returns (λ (out, _, rest). All IsAddr out × IsAscii rest) (addrs_loop fuel s addrs has)
unfolding addrs_loop
addrs_loop-Returns fuel [] addrs has enough a all = value (all, tt)
addrs_loop-Returns zero (c ∷ s) addrs has enough a all = absurd (omega arith)
addrs_loop-Returns (suc fuel) (c ∷ s) addrs has enough a all =
    let has' = c == b'.' || has in
    let (text, after) = find_split (is_addr_end has') (c ∷ s) in
    let parts = find_split-IsSplit (is_addr_end has') (c ∷ s) a in
    Returns-bind (addr_of-Returns c has' s a) λ addr _.
      Returns-bind (push_addr-Returns (c == b'.') addr addrs all) λ pushed formed.
        Returns-if (not (starts_with b',' after)) (λ _. value (formed, parts.ascii.1))
          λ comma.
            Returns-bind
              (slice-Returns after parts.ascii.1
                (not_empty b',' after (starts_with-negated b',' after comma)))
              λ next (an, len).
                addrs_loop-Returns fuel next pushed has' (omega (arith, len, parts.len)) an formed

call_user_data_of-Returns :
    (has : Bool) (s : Buf) → IsAscii s → Returns (λ t. IsAscii t) (call_user_data_of has s)
unfolding call_user_data_of
call_user_data_of-Returns has [] a = value tt
call_user_data_of-Returns has (c ∷ s) a =
    Returns-after _ invalid_call_user_data_separator
      λ _. Returns-weaken (slice-Returns (c ∷ s) a refl) λ r (ar, _). ar

-- What the parser establishes of a selection.
pub record IsSelection (selection : X28Selection) : Type 0 where
  pub addrs : All IsAddr selection.addrs
  pub some_addr : is_empty selection.addrs ≡ false

parse_addrs-Returns :
    (s : Buf)
    → IsAscii s
    → Returns (λ (addrs, _). All IsAddr addrs × (is_empty addrs ≡ false)) (parse_addrs s)
unfolding parse_addrs
parse_addrs-Returns s a =
    Returns-bind (addrs_loop-Returns (length s) s [] false (omega arith) a tt)
      λ (addrs, has, rest) (all, ar). Returns-after (not (is_empty addrs)) address_required λ some.
        Returns-bind (call_user_data_of-Returns has rest ar) λ cud _. value (all, (ground arith))

-- On every string of ASCII characters the parser returns an error or a selection: its loops end, no
-- slice panics, there is at least one address, none is empty, and each X.121 address is one.
pub from_str-IsSelection : (s : Buf) → IsAscii s → Returns IsSelection (from_str s)
unfolding from_str
from_str-IsSelection s a = Returns-after (not (is_empty s)) empty_selection λ _.
    Returns-bind (parse_facilities-Returns s a) λ (facilities, rest) ar.
      Returns-bind (parse_addrs-Returns rest ar)
        λ (addrs, cud) (all, some). value record { addrs = all; some_addr = some }

-- ===== src/X28/Selection.antt =====
-- The selection of a call: src/x28/selection.rs. A `str` is the list of its UTF-8 bytes.
pub mod Total
pub mod Text
pub mod Addresses
pub mod RoundTrip
use xotpad.Base.{
  ℕ, zero, suc, Bool, true, false, not, ◌&&◌, ◌||◌, List, [], ◌∷◌, ◌++◌, length, contains, ltb,
  ◌==◌, is_empty, if◌then◌else◌, Buf, Result, ok, err, panic, stuck, ◌>>=◌, ◌>>◌, guard,
  empty_selection, address_required, invalid_call_user_data_separator,
}
use xotpad.X121 as X121
use xotpad.X121.{X121Addr}

pub data X28Addr : Type 0 where
  full : X121Addr → X28Addr
  abbreviated : Buf → X28Addr

pub record X28Selection : Type 0 where
  pub addrs : List X28Addr
  pub facilities : List (ℕ × Buf)
  pub call_user_data : Buf

-- `rest.split_at(rest.find(stop).unwrap_or(rest.len()))`, for ASCII characters.
unfoldable pub find_split : (ℕ → Bool) → Buf → Buf × Buf
find_split stop [] = ([], [])
find_split stop (c ∷ rest) =
    let (before, after) = find_split stop rest in
    if stop c then ([], c ∷ rest) else (c ∷ before, after)

abbrev pub starts_with : ℕ → Buf → Bool
starts_with c [] = false
starts_with c (d ∷ rest) = d == c

-- `&s[1..]` panics when the string is empty, and when its first character has more than one byte.
unfoldable pub slice_from_1 : Buf → Result Buf
slice_from_1 [] = panic
slice_from_1 (c ∷ rest) = if ltb c 128 then ok rest else panic

-- The first character is a byte, or the slice panics.
unfoldable pub parse_facility : Buf → Result (ℕ × Buf)
unfolding slice_from_1
parse_facility [] = panic
parse_facility (c ∷ rest) = slice_from_1 (c ∷ rest) >>= λ value. ok (c, value)

unfoldable pub push_facility : Buf → List (ℕ × Buf) → Result (List (ℕ × Buf))
unfolding parse_facility
push_facility facility facilities =
    if is_empty facility
    then ok facilities
    else (parse_facility facility >>= λ f. ok (facilities ++ (f ∷ [])))

abbrev pub is_facility_end : ℕ → Bool
is_facility_end c = c == b',' || c == b'-'

-- The `while` loop, on fuel.
unfoldable pub facilities_loop : ℕ → Buf → List (ℕ × Buf) → Result (List (ℕ × Buf) × Buf)
unfolding find_split push_facility slice_from_1
facilities_loop fuel [] facilities = ok (facilities, [])
facilities_loop zero (c ∷ rest) facilities = stuck
facilities_loop (suc fuel) (c ∷ rest) facilities = do
  let (facility, after) = find_split is_facility_end (c ∷ rest)
  pushed ← push_facility facility facilities
  if not (starts_with b',' after)
      then ok (pushed, after)
      else (slice_from_1 after >>= λ next. facilities_loop fuel next pushed)

-- Each round of the loop takes at least a comma, so the length of the string is enough fuel.
unfoldable pub parse_facilities : Buf → Result (List (ℕ × Buf) × Buf)
unfolding facilities_loop
parse_facilities s =
    if starts_with b'.' s then ok ([], s) else if not (contains s b'-') then ok ([], s) else do
      (facilities, rest) ← facilities_loop (length s) s []
      after ← slice_from_1 rest
      ok (facilities, after)

abbrev pub is_addr_end : Bool → ℕ → Bool
is_addr_end has_abbrev_addrs c =
    c == b',' || c == b'*' || (not has_abbrev_addrs && (c == b'P' || c == b'D'))

unfoldable pub parse_addr : Bool → Buf → Result X28Addr
parse_addr true addr = ok (abbreviated addr)
parse_addr false addr = X121.from_str addr >>= λ a. ok (full a)

unfoldable pub push_addr : Bool → Buf → List X28Addr → Result (List X28Addr)
unfolding parse_addr
push_addr is_abbrev addr addrs =
    if is_empty addr then ok addrs else (parse_addr is_abbrev addr >>= λ a. ok (addrs ++ (a ∷ [])))

-- The address of a round, without the dot of an abbreviated one.
unfoldable pub addr_of : Bool → Buf → Result Buf
unfolding slice_from_1
addr_of true addr = slice_from_1 addr
addr_of false addr = ok addr

-- The `while` loop, on fuel.
unfoldable pub addrs_loop : ℕ → Buf → List X28Addr → Bool → Result (List X28Addr × Bool × Buf)
unfolding find_split addr_of push_addr slice_from_1
addrs_loop fuel [] addrs has_abbrev_addrs = ok (addrs, has_abbrev_addrs, [])
addrs_loop zero (c ∷ rest) addrs has_abbrev_addrs = stuck
addrs_loop (suc fuel) (c ∷ rest) addrs has_abbrev_addrs = do
  let is_abbrev = c == b'.'
  let has = is_abbrev || has_abbrev_addrs
  let (text, after) = find_split (is_addr_end has) (c ∷ rest)
  addr ← addr_of is_abbrev text
  pushed ← push_addr is_abbrev addr addrs
  if not (starts_with b',' after)
      then ok (pushed, has, after)
      else (slice_from_1 after >>= λ next. addrs_loop fuel next pushed has)

unfoldable pub call_user_data_of : Bool → Buf → Result Buf
unfolding slice_from_1
call_user_data_of has_abbrev_addrs [] = ok []
call_user_data_of has_abbrev_addrs (c ∷ rest) = do
  guard
      (not (
        (has_abbrev_addrs && not (c == b'*'))
        || (not has_abbrev_addrs && not (c == b'*' || c == b'P' || c == b'D'))))
      invalid_call_user_data_separator
  slice_from_1 (c ∷ rest)

unfoldable pub parse_addrs : Buf → Result (List X28Addr × Buf)
unfolding addrs_loop call_user_data_of
parse_addrs s = do
  (addrs, has_abbrev_addrs, rest) ← addrs_loop (length s) s [] false
  guard (not (is_empty addrs)) address_required
  call_user_data ← call_user_data_of has_abbrev_addrs rest
  ok (addrs, call_user_data)

unfoldable pub from_str : Buf → Result X28Selection
unfolding parse_facilities parse_addrs
from_str s = do
  guard (not (is_empty s)) empty_selection
  (facilities, rest) ← parse_facilities s
  (addrs, call_user_data) ← parse_addrs rest
  ok (record { addrs = addrs; facilities = facilities; call_user_data = call_user_data })

-- ===== src/X28/Selection/RoundTrip.antt =====
-- What the parser makes of a selection that is written out, and of one that begins with a character of
-- more than one byte.
use xotpad.Base.{
  ℕ, zero, suc, ◌<◌, ◌≤◌, ◌≡◌, arith, refl, ap, sym, ◌∙◌, true, false, not, List, [], ◌∷◌, ◌++◌,
  length, length-append, append-nil, append_assoc, contains, lt→ltb, ◌==◌, is_empty, if◌then◌else◌,
  Buf, All, ok, panic, ◌>>=◌,
}
use xotpad.X28.Selection.{
  X28Addr, X28Selection, find_split, starts_with, slice_from_1, parse_facility, push_facility,
  is_facility_end, facilities_loop, parse_facilities, from_str,
}
use xotpad.X28.Selection.Text.{
  facilities_text, addrs_text, selection_text, IsFacility, IsPlain, find_split-append,
  contains-append,
}
use xotpad.X28.Selection.Addresses.{parse_addrs_lem}

has_dash : (fs : List (ℕ × Buf)) (rest : Buf) → contains (facilities_text fs rest) b'-' ≡ true
has_dash [] rest = refl
has_dash ((code, v) ∷ []) rest = ground (arith, contains-append v b'-' (b'-' ∷ rest) refl)
has_dash ((code, v) ∷ f ∷ fs) rest = ground (
  arith,
  contains-append v b'-' (b',' ∷ facilities_text (f ∷ fs) rest)
      (ground (arith, has_dash (f ∷ fs) rest)),
)

no_dot :
    (fs : List (ℕ × Buf)) (rest : Buf)
    → All IsFacility fs
    → starts_with b'.' (facilities_text fs rest) ≡ false
no_dot [] rest h = refl
no_dot ((code, v) ∷ []) rest ((_, d, _, _), _) = d
no_dot ((code, v) ∷ f ∷ fs) rest ((_, d, _, _), _) = d

push_facility_lem :
    (code : ℕ) (v : Buf) (fs : List (ℕ × Buf))
    → code < 128
    → push_facility (code ∷ v) fs ≡ ok (fs ++ ((code, v) ∷ []))
unfolding push_facility parse_facility slice_from_1
push_facility_lem code v fs h = rw (lt→ltb code 128 h) refl

-- One round of the loop.
facilities_round :
    (fuel code c : ℕ) (v rest : Buf) (out : List (ℕ × Buf))
    → IsFacility (code, v)
    → is_facility_end c ≡ true
    → facilities_loop (suc fuel) (code ∷ v ++ (c ∷ rest)) out ≡ (
        if not (c == b',')
        then ok (out ++ ((code, v) ∷ []), c ∷ rest)
        else (slice_from_1 (c ∷ rest) >>= λ next.
            facilities_loop fuel next (out ++ ((code, v) ∷ []))))
unfolding facilities_loop
facilities_round fuel code c v rest out (small, _, plain, plains) h =
    rw
      (
        find_split-append is_facility_end (code ∷ v) c rest (ground arith) h,
        push_facility_lem code v out small,
      )
      refl

no_facility :
    (fuel : ℕ) (rest : Buf) (out : List (ℕ × Buf))
    → facilities_loop (suc fuel) (b'-' ∷ rest) out ≡ ok (out ++ [], b'-' ∷ rest)
unfolding facilities_loop find_split push_facility
no_facility fuel rest out = ap (λ l. ok (l, b'-' ∷ rest)) (sym (append-nil out))

-- The loop takes the facilities up to the dash.
facilities_loop_lem :
    (fuel : ℕ) (fs out : List (ℕ × Buf)) (rest : Buf)
    → length (facilities_text fs rest) ≤ fuel
    → All IsFacility fs
    → facilities_loop fuel (facilities_text fs rest) out ≡ ok (out ++ fs, b'-' ∷ rest)
unfolding facilities_loop slice_from_1
facilities_loop_lem zero [] out rest enough h = absurd (omega arith)
facilities_loop_lem (suc fuel) [] out rest enough h = no_facility fuel rest out
facilities_loop_lem zero ((code, v) ∷ []) out rest enough h = absurd (omega arith)
facilities_loop_lem (suc fuel) ((code, v) ∷ []) out rest enough (f, _) =
    facilities_round fuel code b'-' v rest out f refl
facilities_loop_lem zero ((code, v) ∷ g ∷ fs) out rest enough h = absurd (omega arith)
facilities_loop_lem (suc fuel) ((code, v) ∷ g ∷ fs) out rest enough (f, h) =
    facilities_round fuel code b',' v (facilities_text (g ∷ fs) rest) out f refl
    ∙ facilities_loop_lem fuel (g ∷ fs) (out ++ ((code, v) ∷ [])) rest
        (omega (arith, enough, length-append v (b',' ∷ facilities_text (g ∷ fs) rest))) h
    ∙ ap (λ l. ok (l, b'-' ∷ rest)) (append_assoc out ((code, v) ∷ []) (g ∷ fs))

parse_facilities_lem :
    (fs : List (ℕ × Buf)) (rest : Buf)
    → All IsFacility fs
    → parse_facilities (facilities_text fs rest) ≡ ok (fs, rest)
unfolding parse_facilities slice_from_1
parse_facilities_lem fs rest h =
    rw
      (
        no_dot fs rest h,
        has_dash fs rest,
        facilities_loop_lem (length (facilities_text fs rest)) fs [] rest (omega arith) h,
      )
      refl

some_text : (fs : List (ℕ × Buf)) (rest : Buf) → is_empty (facilities_text fs rest) ≡ false
some_text [] rest = refl
some_text (f ∷ []) rest = refl
some_text (f ∷ g ∷ fs) rest = refl

-- A selection with at least one address, written as a user would, is parsed to itself: when no
-- facility and no address has a separator in it, the code of a facility is a character of one byte and
-- no dot, and no address is empty. The call user data are any string.
pub from_str-selection_text :
    (a : X28Addr) (addrs : List X28Addr) (facilities : List (ℕ × Buf)) (call_user_data : Buf)
    → All IsPlain (a ∷ addrs)
    → All IsFacility facilities
    → let selection : X28Selection = record {
      addrs = a ∷ addrs;
      facilities = facilities;
      call_user_data = call_user_data;
    } in
      from_str (selection_text selection) ≡ ok selection
unfolding from_str
from_str-selection_text a addrs facilities cud p h =
    rw
      (
        some_text facilities (addrs_text (a ∷ addrs) (b'*' ∷ cud)),
        parse_facilities_lem facilities (addrs_text (a ∷ addrs) (b'*' ∷ cud)) h,
        parse_addrs_lem a addrs cud p,
      )
      refl

big :
    (b : ℕ) → 128 ≤ b → ((b == b'.') ≡ false) × ((b == b'-') ≡ false) × (is_facility_end b ≡ false)
big b h = (ground arith, ground arith, ground arith)

-- A string that begins with a character of more than one byte and has a dash makes the parser panic.
pub from_str-panic : (b : ℕ) (s : Buf) → 128 ≤ b → contains s b'-' ≡ true → from_str (b ∷ s) ≡ panic
unfolding from_str parse_facilities facilities_loop find_split push_facility parse_facility
    slice_from_1
from_str-panic b s h dash = ground (arith, big b h)

-- ===== src/X28/Text.antt =====
-- The operations of `str` that src/x28/ uses, on ASCII text: the upper case and the blanks of other
-- characters are not modelled.
pub mod Numbers
use Prim.Native.Char.{code}
use Prim.Native.String
use Prim.Native.String.{String}
use xotpad.Base.{
  ℕ, ◌+◌, ◌-◌, ◌*◌, ◌/◌, ◌%◌, Bool, true, false, not, ◌&&◌, ◌||◌, List, [], ◌∷◌, ◌++◌, ltb, leb,
  ◌==◌, is_empty, if◌then◌else◌, Buf, Option, none, some,
}
use xotpad.X121.{is_ascii_digit}

-- The bytes of a literal.
abbrev pub codes : String → Buf
codes String.[] = []
codes (String.◌∷◌ c s) = code c ∷ codes s

abbrev pub is_whitespace : ℕ → Bool
is_whitespace c = (leb 9 c && leb c 13) || c == b' '

unfoldable pub trim_start : Buf → Buf
trim_start [] = []
trim_start (c ∷ s) = if is_whitespace c then trim_start s else c ∷ s

unfoldable pub trim_end : Buf → Buf
trim_end [] = []
trim_end (c ∷ s) =
    let rest = trim_end s in if is_whitespace c && is_empty rest then [] else c ∷ rest

unfoldable pub trim : Buf → Buf
unfolding trim_start trim_end
trim s = trim_end (trim_start s)

unfoldable pub to_uppercase : Buf → Buf
to_uppercase [] = []
to_uppercase (c ∷ s) = (if leb b'a' c && leb c b'z' then c - 32 else c) ∷ to_uppercase s

-- `split_once`
unfoldable pub split_once : ℕ → Buf → Option (Buf × Buf)
split_once separator [] = none
split_once separator (c ∷ s) =
    let rest = split_once separator s in
    if c == separator
    then some ([], s)
    else elim rest [ none ↦ none | some (before, after) ↦ some (c ∷ before, after) ]

-- `split`: the first piece and the others.
unfoldable pub split : ℕ → Buf → Buf × List Buf
split separator [] = ([], [])
split separator (c ∷ s) =
    let (piece, pieces) = split separator s in
    if c == separator then ([], piece ∷ pieces) else (c ∷ piece, pieces)

-- The digits of `u8::from_str`, behind a number.
unfoldable pub scan_u8 : Buf → ℕ → Option ℕ
scan_u8 [] n = some n
scan_u8 (c ∷ s) n =
    let m = n * 10 + (c - b'0') in
    let rest = scan_u8 s m in if not (is_ascii_digit c) || ltb 255 m then none else rest

-- `u8::from_str`, which takes a plus sign too.
unfoldable pub u8_from_str : Buf → Option ℕ
unfolding scan_u8
u8_from_str [] = none
u8_from_str (c ∷ s) =
    if c == b'+' then (if is_empty s then none else scan_u8 s 0) else scan_u8 (c ∷ s) 0

-- `u8::to_string`
unfoldable pub u8_to_string : ℕ → Buf
u8_to_string n =
    if ltb n 10
    then (b'0' + n) ∷ []
    else if ltb n 100
    then (b'0' + n / 10) ∷ (b'0' + n % 10) ∷ []
    else (b'0' + n / 100) ∷ (b'0' + n / 10 % 10) ∷ (b'0' + n % 10) ∷ []

-- ===== src/X28/Text/Numbers.antt =====
-- Numbers of a byte, printed and read.
use xotpad.Base.{ℕ, ◌+◌, ◌-◌, ◌*◌, ◌<◌, ◌≡◌, arith, true, [], ◌∷◌, all, Buf, some}
use xotpad.X121.{is_ascii_digit}
use xotpad.X28.Text.{scan_u8, u8_from_str, u8_to_string}

pub scan_u8-lt : (s : Buf) (n : ℕ) {m : ℕ} → n < 256 → scan_u8 s n ≡ some m → m < 256
unfolding scan_u8
scan_u8-lt [] n h e = ground arith
scan_u8-lt (c ∷ s) n {m} h e = ground (arith, scan_u8-lt s (n * 10 + (c - b'0')) {m = m})

-- A number that is read is one of a byte.
pub u8_from_str-lt : (s : Buf) {m : ℕ} → u8_from_str s ≡ some m → m < 256
unfolding u8_from_str
u8_from_str-lt [] e = cc
u8_from_str-lt (c ∷ s) {m} e = ground (arith, scan_u8-lt s 0 {m = m}, scan_u8-lt (c ∷ s) 0 {m = m})

pub u8_from_str-to_string : (n : ℕ) → n < 256 → u8_from_str (u8_to_string n) ≡ some n
unfolding u8_from_str u8_to_string scan_u8
u8_from_str-to_string n h = ground arith

pub digits-u8_to_string : (n : ℕ) → n < 256 → all is_ascii_digit (u8_to_string n) ≡ true
unfolding u8_to_string
digits-u8_to_string n h = ground arith

-- ===== src/X3/Forwarding.antt =====
-- `X3Forward::is_match` against the table of X.3: which bit of the parameter a character belongs to.
use xotpad.Base.{
  ℕ, ◌≡◌, ◌<◌, arith, refl, ap, ◌∙◌, Bool, true, false, ◌&&◌, ◌||◌, [], ◌∷◌, ltb, leb, ◌==◌,
  if◌then◌else◌, contains, bit_and,
}
use xotpad.Base.Bits.{table, agree}
use xotpad.Packet.Header.{from_bool}
use xotpad.X3.{X3Forward, is_match, is_ascii_alphanumeric}

-- Letters and digits, CR, the characters ESC BEL ENQ ACK, the characters DEL CAN DC2, the characters
-- EOT ETX, the format effectors HT LF VT FF, and all others of columns 0 and 1.
abbrev pub mask : ℕ → ℕ
mask b =
    if is_ascii_alphanumeric b
    then 1
    else if b == 13
    then 2
    else if b == 27 || b == 7 || b == 5 || b == 6
    then 4
    else if b == 127 || b == 24 || b == 18
    then 8
    else if b == 4 || b == 3
    then 16
    else if leb 9 b && leb b 12
    then 32
    else if ltb b 32
    then 64
    else 0

abbrev editing : ℕ → Bool
editing b = contains (0x1b ∷ 0x07 ∷ 0x05 ∷ 0x06 ∷ []) b

abbrev deleting : ℕ → Bool
deleting b = contains (0x7f ∷ 0x18 ∷ 0x12 ∷ []) b

abbrev ending : ℕ → Bool
ending b = contains (0x04 ∷ 0x03 ∷ []) b

abbrev format : ℕ → Bool
format b = contains (0x09 ∷ 0x0a ∷ 0x0b ∷ 0x0c ∷ []) b

abbrev remaining : ℕ → Bool
remaining b =
    contains
      (0x00 ∷ 0x01 ∷ 0x02 ∷ 0x08 ∷ 0x0e ∷ 0x0f ∷ 0x10 ∷ 0x11 ∷ 0x13 ∷ 0x14 ∷ 0x15 ∷ 0x16 ∷ 0x17
        ∷ 0x19 ∷ 0x1a ∷ 0x1c ∷ 0x1d ∷ 0x1e ∷ 0x1f ∷ [])
      b

from_bool_inj : (p q : Bool) → from_bool p ≡ from_bool q → p ≡ q
from_bool_inj true true e = refl
from_bool_inj true false e = absurd (omega (arith, e))
from_bool_inj false true e = absurd (omega (arith, e))
from_bool_inj false false e = refl

-- Each list of characters is a bit of the mask.
class_table :
    (class : ℕ → Bool) (bit : ℕ)
    → agree 256 (λ b. from_bool (class b)) (λ b. from_bool (mask b == bit)) ≡ true
    → (b : ℕ) → b < 256
    → class b ≡ (mask b == bit)
class_table class bit same b h =
    from_bool_inj _ _
      (table 256 (λ b. from_bool (class b)) (λ b. from_bool (mask b == bit)) same b h)

module _ (b : ℕ) (h : b < 256) where
  classes :
      (is_ascii_alphanumeric b ≡ (mask b == 1))
      × ((b == 0x0d) ≡ (mask b == 2))
      × (editing b ≡ (mask b == 4))
      × (deleting b ≡ (mask b == 8))
      × (ending b ≡ (mask b == 16))
      × (format b ≡ (mask b == 32))
      × (remaining b ≡ (mask b == 64))
  unfolding agree
  classes = (
    class_table is_ascii_alphanumeric 1 refl b h,
    class_table (λ b. b == 0x0d) 2 refl b h,
    class_table editing 4 refl b h,
    class_table deleting 8 refl b h,
    class_table ending 16 refl b h,
    class_table format 32 refl b h,
    class_table remaining 64 refl b h,
  )

-- The chain of tests, over what they find of the character.
chain : (f : ℕ) (alnum cr edit del end ht rest : Bool) → Bool
chain f alnum cr edit del end ht rest =
    if bit_and f 1 == 1 && alnum
    then true
    else if bit_and f 2 == 2 && cr
    then true
    else if bit_and f 4 == 4 && edit
    then true
    else if bit_and f 8 == 8 && del
    then true
    else if bit_and f 16 == 16 && end
    then true
    else if bit_and f 32 == 32 && ht
    then true
    else if bit_and f 64 == 64 && rest
    then true
    else false

chain_lem :
    (f m : ℕ)
    → chain f (m == 1) (m == 2) (m == 4) (m == 8) (m == 16) (m == 32) (m == 64) ≡ (
        (m == 1 || m == 2 || m == 4 || m == 8 || m == 16 || m == 32 || m == 64) && bit_and f m == m)
unfolding chain
chain_lem f m = ground arith

mask_bit :
    (b : ℕ)
    → (mask b == 1
        || mask b == 2
        || mask b == 4
        || mask b == 8
        || mask b == 16
        || mask b == 32
        || mask b == 64)
      ≡ ltb 0 (mask b)
mask_bit b = ground arith

-- A byte forwards the data exactly when X.3 has a bit for it, and that bit of the parameter is set.
pub is_match-mask :
    (f : X3Forward) (b : ℕ)
    → b < 256
    → is_match f b ≡ (ltb 0 (mask b) && bit_and f.raw (mask b) == mask b)
unfolding is_match chain
is_match-mask f b h =
    let c = classes b h in
    let same : is_match f b
        ≡ chain f.raw (mask b == 1) (mask b == 2) (mask b == 4) (mask b == 8) (mask b == 16)
            (mask b == 32) (mask b == 64) =
      λ i. chain f.raw (c.0 i) (c.1 i) (c.2 i) (c.3 i) (c.4 i) (c.5 i) (c.6 i) in
    same
    ∙ chain_lem f.raw (mask b)
    ∙ ap (λ bit. bit && bit_and f.raw (mask b) == mask b) (mask_bit b)

-- ===== src/Base/Bits.antt =====
-- Masks, shifts and unions on bytes as arithmetic; each is a table, checked by evaluation.
use Prim.Native.Nat.{ℕ, zero, suc, ◌+◌, ◌*◌, ◌/◌, ◌%◌, ◌<◌, bit_and, bit_or}
use mathlib.Core.Path.{◌≡◌, refl}
use mathlib.Core.Bool.{Bool, true, false, ◌&&◌}
use native.Mathlib.Omega.{arith}
use xotpad.Base.Tests.{◌==◌, ==→eq}
use mathlib.Core.Logic.{◌⊎◌, inl, inr}

-- Two functions agree at all numbers below the first one.
unfoldable pub agree : ℕ → (ℕ → ℕ) → (ℕ → ℕ) → Bool
agree zero f g = true
agree (suc last) f g = agree last f g && f last == g last

both : (p q : Bool) → p && q ≡ true → (p ≡ true) × (q ≡ true)
both true true e = (refl, refl)
both true false e = cc
both false q e = cc

last_or_below : (b last : ℕ) → b < suc last → (b < last) ⊎ (b ≡ last)
last_or_below b last below = ground arith

pub table : (bound : ℕ) (f g : ℕ → ℕ) → agree bound f g ≡ true → (b : ℕ) → b < bound → f b ≡ g b
unfolding agree
table zero f g same b below = absurd (omega (arith, below))
table (suc last) f g same b below =
    let (before, here) = both (agree last f g) (f last == g last) same in
    elim (last_or_below b last below) [
      | inl less ↦ table last f g before b less
      | inr at ↦ rw at (==→eq (f last) (g last) here)
    ]

-- The fields that the decoders cut out of a byte.
pub and_f0 : (b : ℕ) → b < 256 → bit_and b 0xf0 / 16 ≡ b / 16
unfolding agree
and_f0 = table 256 (λ b. bit_and b 0xf0 / 16) (λ b. b / 16) refl

pub and_0f : (b : ℕ) → b < 256 → bit_and b 0x0f ≡ b % 16
unfolding agree
and_0f = table 256 (λ b. bit_and b 0x0f) (λ b. b % 16) refl

pub and_0e : (b : ℕ) → b < 256 → bit_and b 0x0e / 2 ≡ b / 2 % 8
unfolding agree
and_0e = table 256 (λ b. bit_and b 0x0e / 2) (λ b. b / 2 % 8) refl

pub and_e0 : (b : ℕ) → b < 256 → bit_and b 0xe0 / 32 ≡ b / 32
unfolding agree
and_e0 = table 256 (λ b. bit_and b 0xe0 / 32) (λ b. b / 32) refl

pub and_10 : (b : ℕ) → b < 256 → bit_and b 0x10 / 16 ≡ b / 16 % 2
unfolding agree
and_10 = table 256 (λ b. bit_and b 0x10 / 16) (λ b. b / 16 % 2) refl

pub and_fe : (b : ℕ) → b < 256 → bit_and b 0xfe / 2 ≡ b / 2
unfolding agree
and_fe = table 256 (λ b. bit_and b 0xfe / 2) (λ b. b / 2) refl

pub and_01 : (b : ℕ) → b < 256 → bit_and b 0x01 ≡ b % 2
unfolding agree
and_01 = table 256 (λ b. bit_and b 0x01) (λ b. b % 2) refl

pub and_03 : (b : ℕ) → b < 256 → bit_and b 0x03 ≡ b % 4
unfolding agree
and_03 = table 256 (λ b. bit_and b 0x03) (λ b. b % 4) refl

pub and_1f : (b : ℕ) → b < 256 → bit_and b 0x1f ≡ b % 32
unfolding agree
and_1f = table 256 (λ b. bit_and b 0x1f) (λ b. b % 32) refl

pub and_c0 : (b : ℕ) → b < 256 → bit_and b 0xc0 / 64 ≡ b / 64
unfolding agree
and_c0 = table 256 (λ b. bit_and b 0xc0 / 64) (λ b. b / 64) refl

pub and_7f : (b : ℕ) → b < 256 → bit_and b 0x7f ≡ b % 128
unfolding agree
and_7f = table 256 (λ b. bit_and b 0x7f) (λ b. b % 128) refl

pub and_80 : (b : ℕ) → b < 256 → bit_and b 0x80 ≡ b / 128 * 128
unfolding agree
and_80 = table 256 (λ b. bit_and b 0x80) (λ b. b / 128 * 128) refl

pub and_08 : (b : ℕ) → b < 256 → bit_and b 0x08 / 8 ≡ b / 8 % 2
unfolding agree
and_08 = table 256 (λ b. bit_and b 0x08 / 8) (λ b. b / 8 % 2) refl

pub and_04 : (b : ℕ) → b < 256 → bit_and b 0x04 / 4 ≡ b / 4 % 2
unfolding agree
and_04 = table 256 (λ b. bit_and b 0x04 / 4) (λ b. b / 4 % 2) refl

pub and_0c : (b : ℕ) → b < 256 → bit_and b 0x0c ≡ b / 4 % 4 * 4
unfolding agree
and_0c = table 256 (λ b. bit_and b 0x0c) (λ b. b / 4 % 4 * 4) refl

pub and_04_raw : (b : ℕ) → b < 256 → bit_and b 0x04 ≡ b / 4 % 2 * 4
unfolding agree
and_04_raw = table 256 (λ b. bit_and b 0x04) (λ b. b / 4 % 2 * 4) refl

pub or_80 : (b : ℕ) → b < 128 → bit_or b 0x80 ≡ b + 128
unfolding agree
or_80 = table 128 (λ b. bit_or b 0x80) (λ b. b + 128) refl

-- The two parts of a channel number.
pub and_0f00 : (b : ℕ) → b < 4096 → bit_and b 0x0f00 / 256 ≡ b / 256
unfolding agree
and_0f00 = table 4096 (λ b. bit_and b 0x0f00 / 256) (λ b. b / 256) refl

pub and_00ff : (b : ℕ) → b < 4096 → bit_and b 0x00ff ≡ b % 256
unfolding agree
and_00ff = table 4096 (λ b. bit_and b 0x00ff) (λ b. b % 256) refl

-- Fields joined by `|`, where the low one lies under the high one.
or_split1 : (x : ℕ) → x < 256 → bit_or (x / 2 * 2) (x % 2) ≡ x
unfolding agree
or_split1 = table 256 (λ x. bit_or (x / 2 * 2) (x % 2)) (λ x. x) refl

pub or_2 : (hi lo : ℕ) → hi < 128 → lo < 2 → bit_or (hi * 2) lo ≡ hi * 2 + lo
or_2 hi lo p q =
    let whole = or_split1 (hi * 2 + lo) (omega arith) in
    let high : (hi * 2 + lo) / 2 ≡ hi = omega arith in
    let low : (hi * 2 + lo) % 2 ≡ lo = omega arith in rw (high, low) at whole

or_split2 : (x : ℕ) → x < 16 → bit_or (x / 4 * 4) (x % 4) ≡ x
unfolding agree
or_split2 = table 16 (λ x. bit_or (x / 4 * 4) (x % 4)) (λ x. x) refl

pub or_4 : (hi lo : ℕ) → hi < 4 → lo < 4 → bit_or (hi * 4) lo ≡ hi * 4 + lo
or_4 hi lo p q =
    let whole = or_split2 (hi * 4 + lo) (omega arith) in
    let high : (hi * 4 + lo) / 4 ≡ hi = omega arith in
    let low : (hi * 4 + lo) % 4 ≡ lo = omega arith in rw (high, low) at whole

or_split3 : (x : ℕ) → x < 16 → bit_or (x / 8 * 8) (x % 8) ≡ x
unfolding agree
or_split3 = table 16 (λ x. bit_or (x / 8 * 8) (x % 8)) (λ x. x) refl

pub or_8 : (hi lo : ℕ) → hi < 2 → lo < 8 → bit_or (hi * 8) lo ≡ hi * 8 + lo
or_8 hi lo p q =
    let whole = or_split3 (hi * 8 + lo) (omega arith) in
    let high : (hi * 8 + lo) / 8 ≡ hi = omega arith in
    let low : (hi * 8 + lo) % 8 ≡ lo = omega arith in rw (high, low) at whole

or_split4 : (x : ℕ) → x < 256 → bit_or (x / 16 * 16) (x % 16) ≡ x
unfolding agree
or_split4 = table 256 (λ x. bit_or (x / 16 * 16) (x % 16)) (λ x. x) refl

pub or_16 : (hi lo : ℕ) → hi < 16 → lo < 16 → bit_or (hi * 16) lo ≡ hi * 16 + lo
or_16 hi lo p q =
    let whole = or_split4 (hi * 16 + lo) (omega arith) in
    let high : (hi * 16 + lo) / 16 ≡ hi = omega arith in
    let low : (hi * 16 + lo) % 16 ≡ lo = omega arith in rw (high, low) at whole

or_split5 : (x : ℕ) → x < 256 → bit_or (x / 32 * 32) (x % 32) ≡ x
unfolding agree
or_split5 = table 256 (λ x. bit_or (x / 32 * 32) (x % 32)) (λ x. x) refl

pub or_32 : (hi lo : ℕ) → hi < 8 → lo < 32 → bit_or (hi * 32) lo ≡ hi * 32 + lo
or_32 hi lo p q =
    let whole = or_split5 (hi * 32 + lo) (omega arith) in
    let high : (hi * 32 + lo) / 32 ≡ hi = omega arith in
    let low : (hi * 32 + lo) % 32 ≡ lo = omega arith in rw (high, low) at whole

or_split8 : (x : ℕ) → x < 4096 → bit_or (x / 256 * 256) (x % 256) ≡ x
unfolding agree
or_split8 = table 4096 (λ x. bit_or (x / 256 * 256) (x % 256)) (λ x. x) refl

pub or_256 : (hi lo : ℕ) → hi < 16 → lo < 256 → bit_or (hi * 256) lo ≡ hi * 256 + lo
or_256 hi lo p q =
    let whole = or_split8 (hi * 256 + lo) (omega arith) in
    let high : (hi * 256 + lo) / 256 ≡ hi = omega arith in
    let low : (hi * 256 + lo) % 256 ≡ lo = omega arith in rw (high, low) at whole

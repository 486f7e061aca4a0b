-- ===== src/Packet/Clear/Parts.antt =====
-- The checks of the GFI and the optional bytes and blocks of clear and reset packets.
use xotpad.Base.{
  ℕ, ◌+◌, ◌≡◌, arith, refl, false, true, [], ◌∷◌, ◌++◌, length, Buf, ok, Bool, if◌then◌else◌,
  append-nil, List, All, Ensures, holds, Ensures-bind, Returns, Returns-guard, bit_and, ◌==◌,
  invalid_gfi,
}
use xotpad.X121.{X121Addr}
use xotpad.X121.Digits
use xotpad.Seq.{X25Modulo, normal, extended}
use xotpad.Facility.{X25Facility}
use xotpad.Facility.Params.{IsWellFormed}
use xotpad.Packet.Header.Fields.{gfi_with}
use xotpad.Packet.Blocks.Addresses.{addr_block, encode_addr_block-Ensures}
use xotpad.Packet.Blocks.Facilities.{facilities_block, encode_facilities_block-Ensures}
use xotpad.Packet.Call.Parts.{ReadsBack}
use xotpad.Packet.Clear.{check_gfi, put_optional, put_addr_block, put_facilities_block}

-- A packet with neither flag passes both checks.
pub check_gfi_04 : (m : X25Modulo) → check_gfi (gfi_with m false false) 0x04 ≡ ok tt
unfolding check_gfi
check_gfi_04 normal = refl
check_gfi_04 extended = refl

pub check_gfi_0c : (m : X25Modulo) → check_gfi (gfi_with m false false) 0x0c ≡ ok tt
unfolding check_gfi
check_gfi_0c normal = refl
check_gfi_0c extended = refl

pub check_gfi-Returns :
    (gfi mask : ℕ)
    → Returns {A = Unit {0}} (λ _. (bit_and gfi mask == 0) ≡ true) (check_gfi gfi mask)
unfolding check_gfi
check_gfi-Returns gfi mask = Returns-guard (bit_and gfi mask == 0) (invalid_gfi gfi)

abbrev pub optional : Bool → ℕ → Buf
optional present b = if present then b ∷ [] else []

pub put_optional_lem :
    (present : Bool) (b len : ℕ) (buf : Buf)
    → put_optional present b len buf
      ≡ (len + length (optional present b), buf ++ optional present b)
unfolding put_optional
put_optional_lem true b len buf = refl
put_optional_lem false b len buf = ground (arith, append-nil buf)

pub put_addr_block-Ensures :
    (present : Bool) (called calling : X121Addr) (len : ℕ) (buf : Buf)
    → Digits.IsValid called
    → Digits.IsValid calling
    → Ensures
        (λ (n, buf').
          (n ≡ len + length (if present then addr_block called calling else []))
          × (buf' ≡ buf ++ (if present then addr_block called calling else [])))
        (put_addr_block present called calling len buf)
unfolding put_addr_block
put_addr_block-Ensures false called calling len buf v w =
    holds (omega arith, ground (arith, append-nil buf))
put_addr_block-Ensures true called calling len buf v w =
    Ensures-bind (encode_addr_block-Ensures called calling buf v w)
      λ (n, b) (e, t). holds (omega arith, t)

pub put_facilities_block-Ensures :
    (present : Bool) (fs : List X25Facility) (len : ℕ) (buf : Buf)
    → All IsWellFormed fs
    → Ensures
        (λ (n, buf').
          (n ≡ len + length (if present then facilities_block fs else []))
          × (buf' ≡ buf ++ (if present then facilities_block fs else []))
          × (present ≡ true → ReadsBack fs))
        (put_facilities_block present fs len buf)
unfolding put_facilities_block
put_facilities_block-Ensures false fs len buf f =
    holds (omega arith, ground (arith, append-nil buf), λ e. cc)
put_facilities_block-Ensures true fs len buf f =
    Ensures-bind (encode_facilities_block-Ensures fs buf f)
      λ (n, b) (e, t, back). holds (omega arith, t, λ _. back)

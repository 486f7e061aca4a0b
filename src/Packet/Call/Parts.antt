-- ===== src/Packet/Call/Parts.antt =====
-- The parts that call and clear packets share.
use xotpad.Base.{
  ℕ, ◌+◌, ◌≤◌, ◌≡◌, arith, refl, false, true, [], ◌∷◌, ◌++◌, length, All, Buf, ok, not, is_empty,
  List, IsByte, length-append, append_assoc, append-nil, if◌then◌else◌, Bool, ◌∙◌, ltb-false,
  Ensures, holds, Ensures-bind, Ensures-after, packet_too_long, packet_too_short, ltb, Returns,
  value, Returns-after, Returns-if, Returns-guard, Returns-weaken,
}
use xotpad.X121.{X121Addr}
use xotpad.X121.Digits
use xotpad.Facility.{X25Facility}
use xotpad.Facility.Params.{IsWellFormed}
use xotpad.Packet.Blocks.{decode_facilities_block}
use xotpad.Packet.Blocks.Addresses.{addr_block, encode_addr_block-Ensures}
use xotpad.Packet.Blocks.Facilities.{
  facilities_block, encode_facilities_block-Ensures, decode_facilities_block-Returns,
  decode_addr_block-Returns,
}
use xotpad.Packet.Call.{
  put_user_data, check_len, encode_call_blocks, decode_optional_addr_block,
  decode_optional_facilities_block,
}

pub put_user_data-Ensures :
    (user_data : Buf) (len : ℕ) (buf : Buf)
    → Ensures
        (λ (n, buf'). (n ≡ len + length user_data) × (n ≤ 259) × (buf' ≡ buf ++ user_data))
        (put_user_data user_data len buf)
unfolding put_user_data
put_user_data-Ensures [] len buf =
    Ensures-after (not (ltb 259 len)) (packet_too_long len)
      λ h. holds (ground arith, ground arith, ground (arith, append-nil buf))
put_user_data-Ensures (b ∷ bs) len buf =
    let n = len + length (b ∷ bs) in
    Ensures-after (not (ltb 259 n)) (packet_too_long n) λ h. holds (refl, ground arith, refl)

-- A buffer within the bounds passes.
pub check_len_lem :
    (least most : ℕ) (buf : Buf)
    → least ≤ length buf
    → length buf ≤ most
    → check_len least most buf ≡ ok tt
unfolding check_len
check_len_lem least most buf lo hi =
    rw (ltb-false (length buf) least lo, ltb-false most (length buf) hi)

pub remaining_lem : (buf : Buf) → (if not (is_empty buf) then buf else []) ≡ buf
remaining_lem [] = refl
remaining_lem (b ∷ buf) = refl

pub check_len-Returns :
    (least most : ℕ) (buf : Buf)
    → Returns {A = Unit {0}}
        (λ _. (least ≤ length buf) × (length buf ≤ most))
        (check_len least most buf)
unfolding check_len
check_len-Returns least most buf =
    Returns-after (not (ltb (length buf) least)) (packet_too_short (length buf)) λ lo.
      Returns-weaken (Returns-guard (not (ltb most (length buf))) (packet_too_long (length buf)))
        λ _ hi. ground arith

-- The blocks of the extended format, when they are present.
abbrev pub call_blocks : Bool → X121Addr → X121Addr → List X25Facility → Buf
call_blocks present called calling fs =
    if present then addr_block called calling ++ facilities_block fs else []

-- What the decoder reads behind a facilities block that was written.
abbrev pub ReadsBack : List X25Facility → Type 0
ReadsBack fs = (rest : Buf) → decode_facilities_block (facilities_block fs ++ rest) ≡ ok (fs, rest)

pub encode_call_blocks-Ensures :
    (present : Bool) (called calling : X121Addr) (fs : List X25Facility) (len : ℕ) (buf : Buf)
    → Digits.IsValid called
    → Digits.IsValid calling
    → All IsWellFormed fs
    → Ensures
        (λ (n, buf').
          (n ≡ len + length (call_blocks present called calling fs))
          × (buf' ≡ buf ++ call_blocks present called calling fs)
          × (present ≡ true → ReadsBack fs))
        (encode_call_blocks present called calling fs len buf)
unfolding encode_call_blocks
encode_call_blocks-Ensures false called calling fs len buf v w f =
    holds (omega arith, ground (arith, append-nil buf), λ e. cc)
encode_call_blocks-Ensures true called calling fs len buf v w f =
    Ensures-bind (encode_addr_block-Ensures called calling buf v w) λ (an, b1) (ae, at).
      Ensures-bind (encode_facilities_block-Ensures fs b1 f) λ (fn, b2) (fe, ft, back). holds (
        omega (arith, length-append (addr_block called calling) (facilities_block fs)),
        ft ∙ rw at (simp append_assoc),
        λ _. back,
      )

pub decode_optional_addr_block-Returns :
    (buf : Buf)
    → All IsByte buf
    → Returns
        (λ (called, calling, rest).
          Digits.IsValid called × Digits.IsValid calling × All IsByte rest)
        (decode_optional_addr_block buf)
unfolding decode_optional_addr_block
decode_optional_addr_block-Returns buf b =
    Returns-if (not (is_empty buf)) (λ _. decode_addr_block-Returns buf b)
      (λ _. value (Digits.null-IsValid, Digits.null-IsValid, b))

pub decode_optional_facilities_block-Returns :
    (buf : Buf)
    → All IsByte buf
    → Returns
        (λ (fs, rest). All IsWellFormed fs × All IsByte rest)
        (decode_optional_facilities_block buf)
unfolding decode_optional_facilities_block
decode_optional_facilities_block-Returns buf b =
    Returns-if (not (is_empty buf)) (λ _. decode_facilities_block-Returns buf b)
      (λ _. value (tt, b))

-- ===== src/Packet/Blocks/Addresses.antt =====
-- The address block that is written is read back.
use xotpad.Base.{
  ℕ, ◌+◌, ◌-◌, ◌*◌, ◌/◌, ◌%◌, ◌<◌, ◌≡◌, arith, refl, ◌∙◌, List, [], ◌∷◌, ◌++◌, map, length, take,
  drop, Buf, bit_and, ok, All, append_assoc, append-nil, Ensures, holds, ltb-false,
  take-length_append, drop-length_append, length-append, length-map, All-append,
}
use xotpad.Base.Bits.{and_f0, and_0f, or_16}
use xotpad.X121
use xotpad.X121.{X121Addr}
use xotpad.X121.Digits.{IsValid, IsDigit, digits_of_lem, values-IsDigit, from_digits-digits}
use xotpad.Packet.Blocks.{put_pairs, encode_addr_block, unpack, decode_addr_block}

-- Two digits to a byte.
abbrev pub pairs : List ℕ → Buf
pairs [] = []
pairs (high ∷ []) = (high * 16) ∷ []
pairs (high ∷ low ∷ digits) = (high * 16 + low) ∷ pairs digits

abbrev pub pad : List ℕ → List ℕ
pad [] = []
pad (high ∷ []) = 0 ∷ []
pad (high ∷ low ∷ digits) = pad digits

put_pairs-pairs :
    (ds : List ℕ) (len : ℕ) (buf : Buf)
    → All IsDigit ds
    → put_pairs ds len buf ≡ (len + length (pairs ds), buf ++ pairs ds)
unfolding put_pairs
put_pairs-pairs [] len buf h = ground (arith, append-nil buf)
put_pairs-pairs (high ∷ []) len buf h = ground (arith, or_16 high 0)
put_pairs-pairs (high ∷ low ∷ ds) len buf (hh, (hl, hs)) = ground (
  arith,
  or_16 high low,
  append_assoc buf ((high * 16 + low) ∷ []) (pairs ds),
  put_pairs-pairs ds (len + 1) (buf ++ ((high * 16 + low) ∷ [])) hs,
)

length-pairs : (ds : List ℕ) → length (pairs ds) ≡ length ds / 2 + length ds % 2
length-pairs [] = omega arith
length-pairs (high ∷ []) = omega arith
length-pairs (high ∷ low ∷ ds) = omega (arith, length-pairs ds)

unpack-pairs : (ds : List ℕ) → All IsDigit ds → unpack (pairs ds) ≡ ds ++ pad ds
unfolding unpack
unpack-pairs [] h = refl
unpack-pairs (high ∷ []) h = ground (arith, and_f0 (high * 16), and_0f (high * 16))
unpack-pairs (high ∷ low ∷ ds) (hh, (hl, hs)) =
    ground (arith, and_f0 (high * 16 + low), and_0f (high * 16 + low), unpack-pairs ds hs)

-- The values of an address' digits.
abbrev pub values : X121Addr → List ℕ
values a = map (λ c. c - b'0') a.addr

unfoldable pub addr_block : X121Addr → X121Addr → Buf
addr_block called calling =
    (length calling.addr * 16 + length called.addr) ∷ pairs (values called ++ values calling)

pub length-addr_block_pos : (called calling : X121Addr) → 0 < length (addr_block called calling)
unfolding addr_block
length-addr_block_pos called calling = omega arith

pub encode_addr_block_lem :
    (called calling : X121Addr) (buf : Buf)
    → IsValid called
    → IsValid calling
    → encode_addr_block called calling buf
      ≡ ok (length (addr_block called calling), buf ++ addr_block called calling)
unfolding encode_addr_block addr_block X121.len X121.digits
encode_addr_block_lem called calling buf v w =
    let lens = length calling.addr * 16 + length called.addr in
    let digits =
      All-append IsDigit (values called) (values calling) (values-IsDigit _ v.ascii)
        (values-IsDigit _ w.ascii) in
    ground (
      arith,
      digits_of_lem called.addr v.ascii,
      digits_of_lem calling.addr w.ascii,
      or_16 (length calling.addr) (length called.addr),
      put_pairs-pairs (values called ++ values calling) 1 (buf ++ (lens ∷ [])) digits,
      append_assoc buf (lens ∷ []) (pairs (values called ++ values calling)),
    )

pub encode_addr_block-Ensures :
    (called calling : X121Addr) (buf : Buf)
    → IsValid called
    → IsValid calling
    → Ensures
        (λ (n, buf').
          (n ≡ length (addr_block called calling)) × (buf' ≡ buf ++ addr_block called calling))
        (encode_addr_block called calling buf)
encode_addr_block-Ensures called calling buf v w =
    rw (encode_addr_block_lem called calling buf v w) (holds (refl, refl))

take_first :
    (xs ys : List ℕ) {n : ℕ}
    → length xs ≡ n
    → All IsDigit (xs ++ ys)
    → take n (unpack (pairs (xs ++ ys))) ≡ xs
take_first xs ys e h =
    rw (← e, unpack-pairs (xs ++ ys) h, append_assoc xs ys (pad (xs ++ ys)))
      (take-length_append xs (ys ++ pad (xs ++ ys)))

take_second :
    (xs ys : List ℕ) {n m : ℕ}
    → length xs ≡ n
    → length ys ≡ m
    → All IsDigit (xs ++ ys)
    → take m (drop n (unpack (pairs (xs ++ ys)))) ≡ ys
take_second xs ys e f h =
    rw
      (
        ← e,
        ← f,
        unpack-pairs (xs ++ ys) h,
        append_assoc xs ys (pad (xs ++ ys)),
        drop-length_append xs (ys ++ pad (xs ++ ys)),
      )
      (take-length_append ys (pad (xs ++ ys)))

bytes_lem :
    (xs ys : List ℕ) {n m : ℕ}
    → length xs ≡ n
    → length ys ≡ m
    → (n + m) / 2 + (n + m) % 2 ≡ length (pairs (xs ++ ys))
bytes_lem xs ys e f = omega (arith, length-pairs (xs ++ ys), length-append xs ys)

-- The block of two valid addresses, whatever follows it, decodes to the same two.
pub decode_addr_block-encode :
    (called calling : X121Addr) (rest : Buf)
    → IsValid called
    → IsValid calling
    → decode_addr_block (addr_block called calling ++ rest) ≡ ok (called, calling, rest)
unfolding decode_addr_block addr_block
decode_addr_block-encode called calling rest v w =
    let ds = values called ++ values calling in
    let lens = length calling.addr * 16 + length called.addr in
    let high : bit_and lens 0xf0 / 16 ≡ length calling.addr =
      and_f0 lens (omega arith) ∙ omega arith in
    let low : bit_and lens 0x0f ≡ length called.addr = and_0f lens (omega arith) ∙ omega arith in
    let digits =
      All-append IsDigit (values called) (values calling) (values-IsDigit _ v.ascii)
        (values-IsDigit _ w.ascii) in
    let nc = length-map (λ (c : ℕ). c - b'0') called.addr in
    let ng = length-map (λ (c : ℕ). c - b'0') calling.addr in
    rw (high, low, bytes_lem (values called) (values calling) nc ng)
      (rw (
        ltb-false (length (pairs ds ++ rest)) (length (pairs ds))
            (omega (arith, length-append (pairs ds) rest)),
        take-length_append (pairs ds) rest,
        drop-length_append (pairs ds) rest,
        take_first (values called) (values calling) nc digits,
        take_second (values called) (values calling) nc ng digits,
        from_digits-digits called v,
        from_digits-digits calling w,
      ))

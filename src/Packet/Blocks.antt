-- ===== src/Packet/Blocks.antt =====
-- The address block and the facilities block of call and clear packets:
-- libxotpad/src/x25/packet.rs.
pub mod Addresses
pub mod Facilities
use xotpad.Base.{
  ℕ, ◌+◌, ◌*◌, ◌/◌, ◌%◌, not, List, [], ◌∷◌, ◌++◌, length, take, drop, ltb, leb, Buf, put_u8,
  bit_and, bit_or, Result, ok, err, ◌>>=◌, ◌>>◌, guard, assert, addr_block_too_short,
  addr_block_incomplete, facilities_too_long, facilities_block_too_short,
  facilities_block_incomplete,
}
use xotpad.X121
use xotpad.X121.{X121Addr}
use xotpad.Facility.{X25Facility, encode_facilities, decode_facilities}

-- The loop over `digits.chunks(2)`; `len` counts the bytes written.
unfoldable pub put_pairs : List ℕ → ℕ → Buf → ℕ × Buf
put_pairs [] len buf = (len, buf)
put_pairs (high ∷ []) len buf = (len + 1, put_u8 buf (bit_or (high * 16 % 256) 0))
put_pairs (high ∷ low ∷ digits) len buf =
    put_pairs digits (len + 1) (put_u8 buf (bit_or (high * 16 % 256) low))

unfoldable pub encode_addr_block : X121Addr → X121Addr → Buf → Result (ℕ × Buf)
encode_addr_block called calling buf = do
  assert (leb (X121.len calling) 255)
  assert (leb (X121.len called) 255)
  called_digits ← X121.digits called
  calling_digits ← X121.digits calling
  let lens = bit_or (X121.len calling * 16 % 256) (X121.len called)
  ok (put_pairs (called_digits ++ calling_digits) 1 (put_u8 buf lens))

-- The digits in the packed bytes, the high one of each byte first.
unfoldable pub unpack : Buf → List ℕ
unpack [] = []
unpack (b ∷ bs) = bit_and b 0xf0 / 16 ∷ bit_and b 0x0f ∷ unpack bs

-- The two addresses and what is left of the buffer.
unfoldable pub decode_addr_block : Buf → Result (X121Addr × X121Addr × Buf)
unfolding unpack
decode_addr_block [] = err (addr_block_too_short 0)
decode_addr_block (lens ∷ buf) = do
  let calling_len = bit_and lens 0xf0 / 16
  let called_len = bit_and lens 0x0f
  let len = (called_len + calling_len) / 2 + (called_len + calling_len) % 2
  guard (not (ltb (length buf) len)) (addr_block_incomplete (length buf))
  let digits = unpack (take len buf)
  called ← X121.from_digits (take called_len digits)
  calling ← X121.from_digits (take calling_len (drop called_len digits))
  ok (called, calling, drop len buf)

unfoldable pub encode_facilities_block : List X25Facility → Buf → Result (ℕ × Buf)
encode_facilities_block facilities buf = do
  (len, facilities_buf) ← encode_facilities facilities []
  guard (not (ltb 255 len)) (facilities_too_long len)
  ok (1 + len, put_u8 buf len ++ facilities_buf)

unfoldable pub decode_facilities_block : Buf → Result (List X25Facility × Buf)
decode_facilities_block [] = err (facilities_block_too_short 0)
decode_facilities_block (len ∷ buf) = do
  guard (not (ltb (length buf) len)) (facilities_block_incomplete (length buf))
  facilities ← decode_facilities (take len buf)
  ok (facilities, drop len buf)

-- ===== src/Packet/Clear.antt =====
-- The clear request and clear confirmation packets: libxotpad/src/x25/packet.rs.
pub mod Parts
pub mod Request
pub mod Confirm
use xotpad.Base.{
  ℕ, ◌+◌, Bool, not, ◌||◌, List, [], drop, is_empty, ltb, ◌==◌, if◌then◌else◌, Buf, put_u8, get_u8,
  get_u8_or_zero, bit_and, Result, ok, ◌>>=◌, ◌>>◌, guard, assert, packet_too_long, invalid_gfi,
}
use xotpad.Seq.{X25Modulo}
use xotpad.X121
use xotpad.X121.{X121Addr}
use xotpad.Facility.{X25Facility}
use xotpad.Packet.Header.{encode_packet_header}
use xotpad.Packet.Blocks.{encode_addr_block, encode_facilities_block}
use xotpad.Packet.Call.{
  put_user_data, check_len, encode_call_blocks, decode_optional_addr_block,
  decode_optional_facilities_block,
}

pub record X25ClearRequest : Type 0 where
  pub modulo : X25Modulo
  pub channel : ℕ
  pub cause_code : ℕ
  pub diagnostic_code : ℕ
  pub called_addr : X121Addr
  pub calling_addr : X121Addr
  pub facilities : List X25Facility
  pub clear_user_data : Buf

pub record X25ClearConfirm : Type 0 where
  pub modulo : X25Modulo
  pub channel : ℕ
  pub called_addr : X121Addr
  pub calling_addr : X121Addr
  pub facilities : List X25Facility

-- A byte that is written only under a condition.
unfoldable pub put_optional : Bool → ℕ → ℕ → Buf → ℕ × Buf
put_optional present b len buf = if present then (len + 1, put_u8 buf b) else (len, buf)

unfoldable pub encode_clear_request : X25ClearRequest → Buf → Result (ℕ × Buf)
unfolding put_optional
encode_clear_request p buf = do
  (header_len, buf1) ← encode_packet_header p.modulo 0 p.channel 0x13 buf
  let has_diagnostic_code = ltb 0 p.diagnostic_code
  let has_addr = not (X121.is_null p.called_addr) || not (X121.is_null p.calling_addr)
  let has_facilities = not (is_empty p.facilities)
  let has_clear_user_data = not (is_empty p.clear_user_data)
  let with_code =
      put_optional (has_diagnostic_code || (has_addr || (has_facilities || has_clear_user_data)))
        p.diagnostic_code (header_len + 1) (put_u8 buf1 p.cause_code)
  (len, buf3) ←
      encode_call_blocks (has_addr || (has_facilities || has_clear_user_data)) p.called_addr
        p.calling_addr p.facilities with_code.0 with_code.1
  put_user_data p.clear_user_data len buf3

-- `if (gfi & mask) != 0x00 { return Err(...) }`
unfoldable pub check_gfi : ℕ → ℕ → Result (Unit {0})
check_gfi gfi mask = guard (bit_and gfi mask == 0) (invalid_gfi gfi)

unfoldable pub decode_clear_request : Buf → X25Modulo → ℕ → ℕ → ℕ → Result X25ClearRequest
decode_clear_request buf modulo gfi channel type = do
  assert (type == 0x13)
  check_len 4 259 buf
  check_gfi gfi 0x04
  (cause_code, buf1) ← get_u8 (drop 3 buf)
  let code = get_u8_or_zero buf1
  (called_addr, calling_addr, buf3) ← decode_optional_addr_block code.1
  (facilities, buf4) ← decode_optional_facilities_block buf3
  ok (record {
    modulo = modulo;
    channel = channel;
    cause_code = cause_code;
    diagnostic_code = code.0;
    called_addr = called_addr;
    calling_addr = calling_addr;
    facilities = facilities;
    clear_user_data = if not (is_empty buf4) then buf4 else [];
  })

-- `if present { len += encode_addr_block(...) }`, and so for the facilities.
unfoldable pub put_addr_block : Bool → X121Addr → X121Addr → ℕ → Buf → Result (ℕ × Buf)
put_addr_block present called calling len buf =
    if present
    then (do (n, buf') ← encode_addr_block called calling buf; ok (len + n, buf'))
    else ok (len, buf)

unfoldable pub put_facilities_block : Bool → List X25Facility → ℕ → Buf → Result (ℕ × Buf)
put_facilities_block present facilities len buf =
    if present
    then (do (n, buf') ← encode_facilities_block facilities buf; ok (len + n, buf'))
    else ok (len, buf)

unfoldable pub encode_clear_confirm : X25ClearConfirm → Buf → Result (ℕ × Buf)
encode_clear_confirm p buf = do
  (header_len, buf1) ← encode_packet_header p.modulo 0 p.channel 0x17 buf
  let has_addr = not (X121.is_null p.called_addr) || not (X121.is_null p.calling_addr)
  let has_facilities = not (is_empty p.facilities)
  (len1, buf2) ←
      put_addr_block (has_addr || has_facilities) p.called_addr p.calling_addr header_len buf1
  (len2, buf3) ← put_facilities_block has_facilities p.facilities len1 buf2
  guard (not (ltb 259 len2)) (packet_too_long len2)
  ok (len2, buf3)

-- Bytes behind the facilities are ignored.
unfoldable pub decode_clear_confirm : Buf → X25Modulo → ℕ → ℕ → ℕ → Result X25ClearConfirm
decode_clear_confirm buf modulo gfi channel type = do
  assert (type == 0x17)
  check_len 3 259 buf
  check_gfi gfi 0x04
  (called_addr, calling_addr, buf1) ← decode_optional_addr_block (drop 3 buf)
  (facilities, buf2) ← decode_optional_facilities_block buf1
  ok (record {
    modulo = modulo;
    channel = channel;
    called_addr = called_addr;
    calling_addr = calling_addr;
    facilities = facilities;
  })

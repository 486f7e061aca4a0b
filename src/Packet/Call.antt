-- ===== src/Packet/Call.antt =====
-- The call request and call accepted packets: libxotpad/src/x25/packet.rs.
pub mod Parts
pub mod Request
pub mod Accept
use xotpad.Base.{
  ℕ, ◌+◌, Bool, not, ◌||◌, List, [], ◌++◌, length, drop, is_empty, ltb, ◌==◌, if◌then◌else◌, Buf,
  Result, ok, ◌>>=◌, ◌>>◌, guard, assert, packet_too_short, packet_too_long,
}
use xotpad.Seq.{X25Modulo}
use xotpad.X121
use xotpad.X121.{X121Addr}
use xotpad.Facility.{X25Facility}
use xotpad.Packet.Header.{encode_packet_header}
use xotpad.Packet.Blocks.{
  encode_addr_block, decode_addr_block, encode_facilities_block, decode_facilities_block,
}

pub record X25CallRequest : Type 0 where
  pub modulo : X25Modulo
  pub channel : ℕ
  pub called_addr : X121Addr
  pub calling_addr : X121Addr
  pub facilities : List X25Facility
  pub call_user_data : Buf

pub record X25CallAccept : Type 0 where
  pub modulo : X25Modulo
  pub channel : ℕ
  pub called_addr : X121Addr
  pub calling_addr : X121Addr
  pub facilities : List X25Facility
  pub called_user_data : Buf

-- `if !data.is_empty() { buf.put_slice(&data); len += data.len(); }`, and the bound on the length.
unfoldable pub put_user_data : Buf → ℕ → Buf → Result (ℕ × Buf)
put_user_data user_data len buf =
    let (len', buf') =
      if not (is_empty user_data) then (len + length user_data, buf ++ user_data) else (len, buf) in
    do guard (not (ltb 259 len')) (packet_too_long len'); ok (len', buf')

unfoldable pub encode_call_request : X25CallRequest → Buf → Result (ℕ × Buf)
encode_call_request p buf = do
  (header_len, buf1) ← encode_packet_header p.modulo 0 p.channel 0x0b buf
  (addr_len, buf2) ← encode_addr_block p.called_addr p.calling_addr buf1
  (facilities_len, buf3) ← encode_facilities_block p.facilities buf2
  put_user_data p.call_user_data (header_len + addr_len + facilities_len) buf3

-- `buf.len()` within bounds.
unfoldable pub check_len : ℕ → ℕ → Buf → Result (Unit {0})
check_len least most buf = do
  guard (not (ltb (length buf) least)) (packet_too_short (length buf))
  guard (not (ltb most (length buf))) (packet_too_long (length buf))

unfoldable pub decode_call_request : Buf → X25Modulo → ℕ → ℕ → ℕ → Result X25CallRequest
decode_call_request buf modulo gfi channel type = do
  assert (type == 0x0b)
  check_len 5 259 buf
  (called_addr, calling_addr, buf1) ← decode_addr_block (drop 3 buf)
  (facilities, buf2) ← decode_facilities_block buf1
  ok (record {
    modulo = modulo;
    channel = channel;
    called_addr = called_addr;
    calling_addr = calling_addr;
    facilities = facilities;
    call_user_data = if not (is_empty buf2) then buf2 else [];
  })

-- The blocks of the extended format.
unfoldable pub encode_call_blocks :
    Bool → X121Addr → X121Addr → List X25Facility → ℕ → Buf → Result (ℕ × Buf)
encode_call_blocks present called_addr calling_addr facilities len buf =
    if present
    then (do
      (addr_len, buf1) ← encode_addr_block called_addr calling_addr buf
      (facilities_len, buf2) ← encode_facilities_block facilities buf1
      ok (len + addr_len + facilities_len, buf2))
    else ok (len, buf)

unfoldable pub encode_call_accept : X25CallAccept → Buf → Result (ℕ × Buf)
encode_call_accept p buf = do
  (header_len, buf1) ← encode_packet_header p.modulo 0 p.channel 0x0f buf
  let has_addr = not (X121.is_null p.called_addr) || not (X121.is_null p.calling_addr)
  let has_facilities = not (is_empty p.facilities)
  let has_called_user_data = not (is_empty p.called_user_data)
  (len, buf2) ←
      encode_call_blocks (has_addr || (has_facilities || has_called_user_data)) p.called_addr
        p.calling_addr p.facilities header_len buf1
  put_user_data p.called_user_data len buf2

-- `if buf.has_remaining() { decode_addr_block(&mut buf)? } else { null addresses }`
unfoldable pub decode_optional_addr_block : Buf → Result (X121Addr × X121Addr × Buf)
decode_optional_addr_block buf =
    if not (is_empty buf) then decode_addr_block buf else ok (X121.null, X121.null, buf)

unfoldable pub decode_optional_facilities_block : Buf → Result (List X25Facility × Buf)
decode_optional_facilities_block buf =
    if not (is_empty buf) then decode_facilities_block buf else ok ([], buf)

unfoldable pub decode_call_accept : Buf → X25Modulo → ℕ → ℕ → ℕ → Result X25CallAccept
decode_call_accept buf modulo gfi channel type = do
  assert (type == 0x0f)
  check_len 3 259 buf
  (called_addr, calling_addr, buf1) ← decode_optional_addr_block (drop 3 buf)
  (facilities, buf2) ← decode_optional_facilities_block buf1
  ok (record {
    modulo = modulo;
    channel = channel;
    called_addr = called_addr;
    calling_addr = calling_addr;
    facilities = facilities;
    called_user_data = if not (is_empty buf2) then buf2 else [];
  })

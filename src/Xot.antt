-- ===== src/Xot.antt =====
-- X.25 packets over TCP: libxotpad/src/xot/link.rs.
pub mod Frame
pub mod Stream
pub mod Resolver
use xotpad.Base.{
  ℕ, ◌+◌, ◌*◌, ◌/◌, ◌%◌, not, List, [], ◌∷◌, ◌++◌, length, take, drop, ltb, ◌==◌, is_empty,
  if◌then◌else◌, Buf, Option, none, some, Result, ok, err, panic, stuck, ◌>>=◌, ◌>>◌, guard, Error,
  packet_too_short, packet_too_long, unsupported_version, connection_reset, io_error,
}
use xotpad.Packet.Header.{min_packet_len, max_packet_len}

abbrev pub xot_header_len : ℕ
xot_header_len = 4

-- `BufMut::put_u16`
unfoldable pub put_u16 : Buf → ℕ → Buf
put_u16 buf n = buf ++ (n / 256) ∷ n % 256 ∷ []

-- `u16::try_from(n).unwrap()`
unfoldable pub u16_try_from : ℕ → Result ℕ
u16_try_from n = if ltb n 65536 then ok n else panic

-- `copy_from_slice` into two bytes, which panics on another length, and `u16::from_be_bytes`.
unfoldable pub from_be_bytes : Buf → Result ℕ
from_be_bytes (hi ∷ lo ∷ []) = ok (hi * 256 + lo)
from_be_bytes _ = panic

unfoldable pub encode : Buf → Buf → Result (ℕ × Buf)
encode x25_packet buf = do
  let version : ℕ = 0
  let len = length x25_packet
  guard (not (ltb len min_packet_len)) (packet_too_short len)
  guard (not (ltb max_packet_len len)) (packet_too_long len)
  len16 ← u16_try_from len
  ok (xot_header_len + len, put_u16 (put_u16 buf version) len16 ++ x25_packet)

-- The packet, if the buffer holds a complete one, and what is left in the buffer.
unfoldable pub decode : Buf → Result (Option Buf × Buf)
decode buf = if ltb (length buf) xot_header_len then ok (none, buf) else do
  version ← from_be_bytes (take 2 buf)
  guard (version == 0) (unsupported_version version)
  len ← from_be_bytes (take 2 (drop 2 buf))
  guard (not (ltb len min_packet_len)) (packet_too_short len)
  guard (not (ltb max_packet_len len)) (packet_too_long len)
  if ltb (length buf) (xot_header_len + len) then ok (none, buf) else do
    let packet = take (xot_header_len + len) buf
    ok (some (drop xot_header_len packet), drop (xot_header_len + len) buf)

-- What one `read` of the socket gives: an error, or bytes, of which there are none at its end.
pub data Read : Type 0 where
  failed : Read
  bytes : Buf → Read

-- `blocked` is a call that has not returned: the socket has nothing more to read.
pub data Recv : Type 0 where
  received : Buf → Buf → List Read → Recv
  failure : Error → Recv
  aborted : Recv
  blocked : Buf → Recv

-- One turn of the loop of `XotLink::recv` up to its `read`: what it returns, or the buffer.
unfoldable pub recv_with : Result (Option Buf × Buf) → List Read → (Buf → Recv) → Recv
recv_with (ok (some packet, recv_buf)) reads read = received packet recv_buf reads
recv_with (ok (none, recv_buf)) reads read = read recv_buf
recv_with (err e) reads read = failure e
recv_with panic reads read = aborted
recv_with stuck reads read = aborted

unfoldable pub recv : List Read → Buf → Recv
unfolding recv_with
recv [] recv_buf = recv_with (decode recv_buf) [] blocked
recv (failed ∷ reads) recv_buf = recv_with (decode recv_buf) (failed ∷ reads) λ _. failure io_error
recv (bytes buf ∷ reads) recv_buf =
    recv_with (decode recv_buf) (bytes buf ∷ reads)
      λ left. if is_empty buf then failure connection_reset else recv reads (left ++ buf)

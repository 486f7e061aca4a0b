-- ===== src/Xot/Frame.antt =====
-- One frame of XOT: what is encoded, and how much of it the decoder needs.
use xotpad.Base.{
  ℕ, suc, ◌+◌, ◌*◌, ◌/◌, ◌%◌, ◌≤◌, ◌<◌, ◌≡◌, arith, refl, ◌∙◌, true, not, [], ◌∷◌, ◌++◌, length,
  take, drop, ltb, ltb-false, ◌==◌, Buf, none, some, Returns, value, Returns-if, Returns-bind,
  Returns-after, ok, append_assoc, length-append, length-drop, length-take, take-length_append,
  drop-length_append, if◌then◌else◌, unsupported_version, packet_too_short, packet_too_long, Option,
}
use xotpad.Packet.Header.{min_packet_len, max_packet_len}
use xotpad.Xot.{put_u16, u16_try_from, from_be_bytes, encode, decode}

-- A version of zero, the length in two bytes, and the packet.
abbrev pub frame : Buf → Buf
frame packet = 0 ∷ 0 ∷ (length packet / 256) ∷ length packet % 256 ∷ packet

abbrev pub IsPacket : Buf → Type 0
IsPacket packet = (min_packet_len ≤ length packet) × (length packet ≤ max_packet_len)

ltb-true : (a b : ℕ) → a < b → ltb a b ≡ true
ltb-true a b h = ground arith

-- For a packet of a permitted length the encoder returns, writes the packet's frame behind what the
-- buffer holds, and gives the frame's length.
pub encode-frame :
    (packet buf : Buf)
    → IsPacket packet
    → encode packet buf ≡ ok (4 + length packet, buf ++ frame packet)
unfolding encode u16_try_from put_u16
encode-frame packet buf (lo, hi) =
    rw
      (
        ltb-false (length packet) 3 lo,
        ltb-false max_packet_len (length packet) hi,
        ltb-true (length packet) 65536 (omega arith),
        append_assoc buf (0 ∷ 0 ∷ []) (length packet / 256 ∷ length packet % 256 ∷ []),
        append_assoc buf (0 ∷ 0 ∷ length packet / 256 ∷ length packet % 256 ∷ []) packet,
      )
      refl

four : (n : ℕ) → 4 + n ≡ suc (suc (suc (suc n)))
four n = omega arith

-- The decoder past the checks of a good header.
decode-header :
    (c d n : ℕ) (body : Buf)
    → c * 256 + d ≡ n
    → 3 ≤ n
    → n ≤ max_packet_len
    → decode (0 ∷ 0 ∷ c ∷ d ∷ body) ≡ (
        if ltb (length (0 ∷ 0 ∷ c ∷ d ∷ body)) (4 + n)
        then ok (none, 0 ∷ 0 ∷ c ∷ d ∷ body)
        else ok (some (take n body), drop n body))
unfolding decode from_be_bytes
decode-header c d n body e lo hi =
    rw
      (
        ltb-false (length (0 ∷ 0 ∷ c ∷ d ∷ body)) 4 (omega arith),
        e,
        ltb-false n 3 lo,
        ltb-false max_packet_len n hi,
        four n,
      )
      refl

-- A complete frame of a packet of a permitted length is taken off the buffer and the bytes behind it
-- stay there.
pub decode-frame :
    (packet rest : Buf) → IsPacket packet → decode (frame packet ++ rest) ≡ ok (some packet, rest)
decode-frame packet rest (lo, hi) =
    decode-header (length packet / 256) (length packet % 256) (length packet) (packet ++ rest)
      (omega arith) lo hi
    ∙ rw
        (
          ltb-false (length (frame packet ++ rest)) (4 + length packet)
              (omega (arith, length-append packet rest)),
          take-length_append packet rest,
          drop-length_append packet rest,
        )
        refl

-- A buffer that is the start of a frame and of what follows the frame, and shorter than the frame, is
-- left as it is, and gives no packet.
pub decode-part :
    (packet rest buf later : Buf)
    → IsPacket packet
    → buf ++ later ≡ frame packet ++ rest
    → length buf < 4 + length packet
    → decode buf ≡ ok (none, buf)
unfolding decode
decode-part packet rest [] later p e short = refl
decode-part packet rest (a ∷ []) later p e short = refl
decode-part packet rest (a ∷ b ∷ []) later p e short = refl
decode-part packet rest (a ∷ b ∷ c ∷ []) later p e short = refl
decode-part packet rest (a ∷ b ∷ c ∷ d ∷ buf) later (lo, hi) e short =
    let first : a ≡ 0 = cc in
    let second : b ≡ 0 = cc in
    let third : c ≡ length packet / 256 = cc in
    let fourth : d ≡ length packet % 256 = cc in
    rw (first, second)
      (decode-header c d (length packet) buf (omega (arith, third, fourth)) lo hi
        ∙ rw (ltb-true (length (0 ∷ 0 ∷ c ∷ d ∷ buf)) (4 + length packet) short) refl)

-- `from_be_bytes` of two bytes that are there.
from_be_bytes-Returns :
    (buf : Buf) → length buf ≡ 2 → Returns {A = ℕ} (λ n. Unit {0}) (from_be_bytes buf)
unfolding from_be_bytes
from_be_bytes-Returns [] e = absurd (omega (arith, e))
from_be_bytes-Returns (a ∷ []) e = absurd (omega (arith, e))
from_be_bytes-Returns (a ∷ b ∷ []) e = value tt
from_be_bytes-Returns (a ∷ b ∷ c ∷ buf) e = absurd (omega (arith, e))

-- The decoder returns on every buffer, and the packet and the rest are what it took from it.
pub decode-Returns :
    (buf : Buf) → Returns {A = Option Buf × Buf} (λ (packet, left). Unit {0}) (decode buf)
unfolding decode
decode-Returns buf =
    Returns-if (ltb (length buf) 4) (λ _. value tt)
      λ long.
        Returns-bind (from_be_bytes-Returns (take 2 buf) (ground (arith, length-take 2 buf, long)))
          λ version _. Returns-after (version == 0) (unsupported_version version) λ _.
            Returns-bind
              (from_be_bytes-Returns (take 2 (drop 2 buf))
                (ground (arith, length-take 2 (drop 2 buf), length-drop 2 buf, long)))
              λ len _. Returns-after (not (ltb len 3)) (packet_too_short len) λ _.
                Returns-after (not (ltb max_packet_len len)) (packet_too_long len)
                  λ _. Returns-if (ltb (length buf) (4 + len)) (λ _. value tt) λ _. value tt

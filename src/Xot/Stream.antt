-- ===== src/Xot/Stream.antt =====
-- The loop of `XotLink::recv` over what the socket hands out: a frame arrives whole, however TCP
-- cuts it up.
use xotpad.Base.{
  ℕ, ◌+◌, ◌≤◌, ◌<◌, ◌≡◌, arith, refl, sym, ◌∙◌, List, [], ◌∷◌, ◌++◌, length, Buf, none, ok,
  append-nil, append_assoc, ◌⊎◌, inl, inr,
}
use xotpad.Xot.{Read, bytes, Recv, received, recv, recv_with, decode}
use xotpad.Xot.Frame.{frame, IsPacket, decode-frame, decode-part}

-- What the socket will hand out, when none of its reads fails and each gives at least one byte.
abbrev pub chunks : List (ℕ × Buf) → List Read
chunks [] = []
chunks ((b, buf) ∷ rest) = bytes (b ∷ buf) ∷ chunks rest

abbrev pub concat : List (ℕ × Buf) → Buf
concat [] = []
concat ((b, buf) ∷ rest) = (b ∷ buf) ++ concat rest

-- The packet was received, and what follows it is in the buffer or is still to be read.
abbrev pub IsReceived : Buf → Buf → Recv → Type 0
IsReceived packet rest r =
    (recv_buf : Buf) × (later : List (ℕ × Buf)) × (r ≡ received packet recv_buf (chunks later))
    × (recv_buf ++ concat later ≡ rest)

-- A buffer is the start of a frame, or the frame is at its start.
split :
    (xs ys zs ws : Buf)
    → xs ++ ys ≡ zs ++ ws
    → length zs ≤ length xs
    → (us : Buf) × (xs ≡ zs ++ us) × (us ++ ys ≡ ws)
split xs ys [] ws e h = (xs, refl, e)
split [] ys (z ∷ zs) ws e h = absurd (omega (arith, h))
split (x ∷ xs) ys (z ∷ zs) ws e h =
    let tails : xs ++ ys ≡ zs ++ ws = cc in
    let heads : x ≡ z = cc in
    let (us, a, b) = split xs ys zs ws tails (omega (arith, h)) in (us, (rw (heads, a) refl), b)

length-cases : (a b : ℕ) → (a < b) ⊎ (b ≤ a)
length-cases a b = ground arith

-- A frame in the buffer is returned before anything is read.
recv-whole :
    (packet us : Buf) (reads : List (ℕ × Buf)) (rest : Buf)
    → IsPacket packet
    → us ++ concat reads ≡ rest
    → IsReceived packet rest (recv (chunks reads) (frame packet ++ us))
unfolding recv recv_with
recv-whole packet us [] rest p e = (us, [], rw (decode-frame packet us p) refl, e)
recv-whole packet us ((b, buf) ∷ reads) rest p e =
    (us, (b, buf) ∷ reads, rw (decode-frame packet us p) refl, e)

-- With less in the buffer, the bytes of one read are added to it.
recv-short :
    (b : ℕ) (buf : Buf) (reads : List (ℕ × Buf)) (recv_buf : Buf)
    → decode recv_buf ≡ ok (none, recv_buf)
    → recv (chunks ((b, buf) ∷ reads)) recv_buf ≡ recv (chunks reads) (recv_buf ++ (b ∷ buf))
unfolding recv recv_with
recv-short b buf reads recv_buf e = rw e refl

-- When the bytes in the buffer and those that the socket hands out begin with a frame, `recv`
-- returns the frame's packet, and the bytes behind the frame are those left in the buffer and in
-- the socket, however the socket cuts the bytes into reads.
pub recv-frame :
    (packet rest : Buf) (reads : List (ℕ × Buf)) (recv_buf : Buf)
    → IsPacket packet
    → recv_buf ++ concat reads ≡ frame packet ++ rest
    → IsReceived packet rest (recv (chunks reads) recv_buf)
recv-frame packet rest [] recv_buf p e =
    rw (sym (append-nil recv_buf) ∙ e) (recv-whole packet rest [] rest p (append-nil rest))
recv-frame packet rest ((b, buf) ∷ reads) recv_buf p e =
    elim (length-cases (length recv_buf) (4 + length packet)) [
      | inl short ↦
          rw
            (recv-short b buf reads recv_buf
              (decode-part packet rest recv_buf (concat ((b, buf) ∷ reads)) p e short))
            (recv-frame packet rest reads (recv_buf ++ (b ∷ buf)) p
              (append_assoc recv_buf (b ∷ buf) (concat reads) ∙ e))
      | inr long ↦
          let (us, whole, others) =
            split recv_buf (concat ((b, buf) ∷ reads)) (frame packet) rest e
              (omega (arith, long)) in
          rw whole (recv-whole packet us ((b, buf) ∷ reads) rest p others)
    ]

-- ===== src/Vc/Engine/Written.antt =====
-- What is written to the link, packet by packet: the frames of the data packets, with the numbers that
-- counters give them.
use xotpad.Base.{
  ℕ, ◌+◌, ◌%◌, ◌≡◌, ◌⊎◌, Bool, true, false, List, [], ◌∷◌, ◌++◌, length, arith, Buf, ok, err, subst,
  Error,
}
use xotpad.Seq.{X25Modulo, as_u8}
use xotpad.Packet.{X25Packet, data_packet}
use xotpad.Vc.Queue.{SendData}
use xotpad.Vc.Engine.{DataTransferState, VcInner, frame_of}

-- The data packet that carries a piece of user data as packet number `sent`, counted from zero, of a
-- circuit whose sequence numbers are those of `numbers`.
abbrev pub numbered : X25Modulo → X25Modulo → ℕ → ℕ → ℕ → SendData → X25Packet
numbered modulo numbers channel recv_seq sent d = data_packet (record {
  modulo = modulo;
  channel = channel;
  send_seq = sent % as_u8 numbers;
  recv_seq = recv_seq;
  qualifier = d.qualifier;
  delivery = false;
  more = d.more;
  user_data = d.user_data;
})

-- The same for a circuit in a state.
abbrev pub packet_of : {Link : Type 0} → VcInner Link → DataTransferState → ℕ → SendData → X25Packet
packet_of vc s = numbered vc.params.modulo s.send_window.modulo vc.channel s.recv_seq

module _ {Link : Type 0} (write_all : Link → Buf → Bool × Link) where
  -- The packet's frame is written, which leaves the other link.
  abbrev pub Writes : X25Packet → Link → Link → Type 0
  Writes packet link link' =
      (frame : Buf) × (frame_of packet ≡ ok frame) × (write_all link frame ≡ (true, link'))

  -- The packet has no frame, or writing it fails.
  abbrev pub Fails : X25Packet → Link → Link → Type 0
  Fails packet link link' =
      ((e : Error) × (frame_of packet ≡ err e) × (link' ≡ link))
      ⊎ ((frame : Buf) × (frame_of packet ≡ ok frame) × (write_all link frame ≡ (false, link')))

  -- The packets for the pieces of user data are written in their order, the first as number `sent`.
  abbrev pub WritesAll : (ℕ → SendData → X25Packet) → ℕ → List SendData → Link → Link → Type 0
  WritesAll packet sent [] link link' = link' ≡ link
  WritesAll packet sent (d ∷ ds) link link' =
      (between : Link) × Writes (packet sent d) link between
      × WritesAll packet (sent + 1) ds between link'

  pub WritesAll-append :
      (packet : ℕ → SendData → X25Packet) (sent : ℕ) (ds es : List SendData) (a b c : Link)
      → WritesAll packet sent ds a b
      → WritesAll packet (sent + length ds) es b c
      → WritesAll packet sent (ds ++ es) a c
  WritesAll-append packet sent [] es a b c first rest =
      subst (λ l. WritesAll packet sent es l c) first
        (subst (λ n. WritesAll packet n es b c) (omega arith) rest)
  WritesAll-append packet sent (d ∷ ds) es a b c (between, w, first) rest = (
    between,
    w,
    WritesAll-append packet (sent + 1) ds es between b c first
        (subst (λ n. WritesAll packet n es b c) (omega arith) rest),
  )

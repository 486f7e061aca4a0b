-- ===== src/Vc/Run/Wire.antt =====
-- Packets that one party sends, in the engine of the other.
use xotpad.Base.{
  ℕ, suc, ◌≡◌, arith, refl, ap, sym, ◌∙◌, Bool, false, not, List, [], ◌∷◌, ◌++◌, map, length, ltb,
  if◌then◌else◌, Buf, All, none, some, Result, ok, err, panic, stuck, ◌>>=◌, >>=-eq-ok,
  Ensures-after, Ensures-ok, Ensures-intro, packet_too_short, packet_too_long,
}
use xotpad.Packet.{X25Packet}
use xotpad.Packet as Packet
use xotpad.Packet.Header.{min_packet_len, max_packet_len}
use xotpad.Packet.RoundTrip.{IsValid, decode-encode}
use xotpad.Xot as Xot
use xotpad.Xot.{recv, recv_with}
use xotpad.Xot.Frame.{frame, IsPacket, encode-frame}
use xotpad.Xot.Stream.{chunks, concat, recv-frame}
use xotpad.Vc.Engine.{
  VcState, ready, wait_call_accept, data_transfer, wait_reset_confirm, wait_clear_confirm, called,
  cleared, out_of_order, VcInner, frame_of,
}
use xotpad.Vc.Handle.{handle_in_packet}
use xotpad.Vc.Run.{
  is_terminal, read_with, read_loop, Turn, waits, ended, handle_turn, decode_turn, run_turn,
  and_then_turn, run_turns,
}

-- The bytes that a party writes for packets one after the other.
unfoldable pub sent_bytes : List X25Packet → Result Buf
unfolding frame_of
sent_bytes [] = ok []
sent_bytes (p ∷ ps) = do bytes ← frame_of p; rest ← sent_bytes ps; ok (bytes ++ rest)

-- Where the state machine stands after its last packet: a circuit that is cleared, or a link that is out of
-- order, is at its end, and any other waits for so long.
abbrev stands : VcState → ℕ → Turn
stands (cleared _ _) timeout = ended
stands out_of_order timeout = ended
stands _ timeout = waits timeout

-- What is left to do for the packets after one: nothing at the end.
abbrev unless_ended : {A : Type 0} → VcState → A → A → A
unless_ended (cleared _ _) stop go_on = stop
unless_ended out_of_order stop go_on = stop
unless_ended _ stop go_on = go_on

-- Every packet is given to the state machine in turn, unless it is at its end; without a packet it is run
-- once for its timers.
abbrev pub handle_each :
    {Link : Type 0}
    → (Link → Buf → Bool × Link)
    → ℕ
    → List X25Packet
    → VcInner Link
    → Result (VcInner Link × Turn)
handle_each write_all now [] vc =
    handle_in_packet write_all now none 100000 vc >>= λ (vc1, timeout).
    ok (vc1, stands vc1.state timeout)
handle_each write_all now (p ∷ []) vc =
    handle_in_packet write_all now (some p) 100000 vc >>= λ (vc1, timeout).
    ok (vc1, stands vc1.state timeout)
handle_each write_all now (p ∷ q ∷ ps) vc =
    handle_in_packet write_all now (some p) 100000 vc >>= λ (vc1, timeout).
    unless_ended vc1.state (ok (vc1, ended)) (handle_each write_all now (q ∷ ps) vc1)

-- What is put into the queue for the packets.
abbrev Decodes : List X25Packet → List Buf → Type 0
Decodes [] [] = Unit {0}
Decodes (p ∷ ps) (buf ∷ bufs) = (Packet.decode buf ≡ ok p) × Decodes ps bufs
Decodes _ _ = ⊥

ok-inj : {A : Type 0} {a b : A} → ok a ≡ ok b → a ≡ b
ok-inj e = cc

encode-IsPacket : (buf : Buf) {r : ℕ × Buf} → Xot.encode buf [] ≡ ok r → IsPacket buf
unfolding Xot.encode
encode-IsPacket buf e =
    Ensures-ok
      (Ensures-after (not (ltb (length buf) min_packet_len)) (packet_too_short (length buf)) λ lo.
        Ensures-after (not (ltb max_packet_len (length buf))) (packet_too_long (length buf))
          λ hi. Ensures-intro {P = λ _. IsPacket buf} _ λ _ _. (ground arith, ground arith))
      e

-- The bytes of a packet are a frame, whose packet is decoded.
frame_of-Decodes :
    (p : X25Packet) {bytes : Buf}
    → IsValid p
    → frame_of p ≡ ok bytes
    → (buf : Buf) × IsPacket buf × (bytes ≡ frame buf) × (Packet.decode buf ≡ ok p)
unfolding frame_of
frame_of-Decodes p {bytes} v e =
    let ((n, buf), encoded, rest) =
      >>=-eq-ok (Packet.encode p []) (λ (_, buf). Xot.encode buf [] >>= λ (_, bytes). ok bytes) e in
    let ((m, out), framed, same) = >>=-eq-ok (Xot.encode buf []) (λ (_, bytes). ok bytes) rest in
    let fits : IsPacket buf = encode-IsPacket buf framed in
    let (len, least, back) = decode-encode p v encoded in
    (
      buf,
      fits,
      sym (ok-inj same) ∙ ap (λ x. x.1) (ok-inj (sym framed ∙ encode-frame buf [] fits)),
      back (omega (arith, len, fits.1)),
    )

-- Nothing was sent.
read_loop-nothing :
    (recv_buf : Buf) (reads : List (ℕ × Buf))
    → recv_buf ++ concat reads ≡ []
    → read_loop 1 (chunks reads) recv_buf ≡ []
unfolding read_loop read_with recv recv_with Xot.decode
read_loop-nothing [] [] e = refl
read_loop-nothing [] ((b, buf) ∷ reads) e = cc
read_loop-nothing (c ∷ recv_buf) reads e = cc

-- The thread that reads finds each of them, and then waits for more.
read_loop-sent_bytes :
    (ps : List X25Packet) (bytes : Buf) (reads : List (ℕ × Buf)) (recv_buf : Buf)
    → All IsValid ps
    → sent_bytes ps ≡ ok bytes
    → recv_buf ++ concat reads ≡ bytes
    → (bufs : List Buf) × (read_loop (suc (length ps)) (chunks reads) recv_buf ≡ map ok bufs)
      × Decodes ps bufs
unfolding sent_bytes read_loop
read_loop-sent_bytes [] bytes reads recv_buf v e r =
    ([], read_loop-nothing recv_buf reads (r ∙ sym (ok-inj e)), tt)
read_loop-sent_bytes (p ∷ ps) bytes reads recv_buf (v, vs) e r =
    let (head, framed, e1) =
      >>=-eq-ok (frame_of p) (λ bytes. sent_bytes ps >>= λ rest. ok (bytes ++ rest)) e in
    let (tail, sent, e2) = >>=-eq-ok (sent_bytes ps) (λ rest. ok (head ++ rest)) e1 in
    let (buf, fits, is, back) = frame_of-Decodes p v framed in
    let whole : recv_buf ++ concat reads ≡ frame buf ++ tail =
      r ∙ sym (ok-inj e2) ∙ ap (λ h. h ++ tail) is in
    let (left, later, received, more) = recv-frame buf tail reads recv_buf fits whole in
    let (bufs, read, decoded) = read_loop-sent_bytes ps tail later left vs sent more in
    (
      buf ∷ bufs,
      ap (read_with (read_loop (suc (length ps)))) received ∙ ap (λ queue. ok buf ∷ queue) read,
      (back, decoded),
    )

is_terminal-stands :
    (state : VcState) (timeout : ℕ)
    → (if is_terminal state then ended else waits timeout) ≡ stands state timeout
unfolding is_terminal
is_terminal-stands (cleared c p) timeout = refl
is_terminal-stands out_of_order timeout = refl
is_terminal-stands ready timeout = refl
is_terminal-stands (wait_call_accept t) timeout = refl
is_terminal-stands (data_transfer s) timeout = refl
is_terminal-stands (wait_reset_confirm t) timeout = refl
is_terminal-stands (wait_clear_confirm t c) timeout = refl
is_terminal-stands (called p) timeout = refl

module _ {Link : Type 0} (write_all : Link → Buf → Bool × Link) where
  -- The end of a round is where the state machine stands.
  stands_after :
      (r : Result (VcInner Link × ℕ))
      → ◌>>=◌ {B = VcInner Link × Turn} r
          (λ (vc1, timeout). ok (vc1, (if is_terminal vc1.state then ended else waits timeout)))
        ≡ (r >>= λ (vc1, timeout). ok (vc1, stands vc1.state timeout))
  stands_after (ok (vc1, timeout)) =
      ap (λ turn. ok (vc1, turn)) (is_terminal-stands vc1.state timeout)
  stands_after (err e) = refl
  stands_after panic = refl
  stands_after stuck = refl

  and_then_turn-stands :
      (f : VcInner Link → Result (VcInner Link × Turn)) (state : VcState) (timeout : ℕ)
      (vc : VcInner Link)
      → and_then_turn write_all false f (vc, stands state timeout)
        ≡ unless_ended state (ok (vc, ended)) (f vc)
  unfolding and_then_turn
  and_then_turn-stands f (cleared c p) timeout vc = refl
  and_then_turn-stands f out_of_order timeout vc = refl
  and_then_turn-stands f ready timeout vc = refl
  and_then_turn-stands f (wait_call_accept t) timeout vc = refl
  and_then_turn-stands f (data_transfer s) timeout vc = refl
  and_then_turn-stands f (wait_reset_confirm t) timeout vc = refl
  and_then_turn-stands f (wait_clear_confirm t c) timeout vc = refl
  and_then_turn-stands f (called p) timeout vc = refl

  -- A round that is not the last, and those after it.
  goes_on :
      (r : Result (VcInner Link × ℕ)) (f g : VcInner Link → Result (VcInner Link × Turn))
      → ((vc : VcInner Link) → f vc ≡ g vc)
      → (◌>>=◌ {B = VcInner Link × Turn} r
            (λ (vc1, timeout). ok (vc1, (if is_terminal vc1.state then ended else waits timeout)))
          >>= and_then_turn write_all false f)
        ≡ (r >>= λ (vc1, timeout). unless_ended vc1.state (ok (vc1, ended)) (g vc1))
  goes_on (ok (vc1, timeout)) f g h =
      ap (λ turn. and_then_turn write_all false f (vc1, turn))
        (is_terminal-stands vc1.state timeout)
      ∙ and_then_turn-stands f vc1.state timeout vc1
      ∙ ap (λ rest. unless_ended vc1.state (ok (vc1, ended)) rest) (h vc1)
  goes_on (err e) f g h = refl
  goes_on panic f g h = refl
  goes_on stuck f g h = refl

  run_turns-handle_each :
      (now : ℕ) (ps : List X25Packet) (bufs : List Buf) (vc : VcInner Link)
      → Decodes ps bufs
      → run_turns write_all now (map ok bufs) vc ≡ handle_each write_all now ps vc
  unfolding run_turns run_turn decode_turn handle_turn
  run_turns-handle_each now [] [] vc d =
      stands_after (handle_in_packet write_all now none 100000 vc)
  run_turns-handle_each now (p ∷ []) (buf ∷ []) vc (d, ds) =
      ap (λ r. decode_turn write_all now r vc) d
      ∙ stands_after (handle_in_packet write_all now (some p) 100000 vc)
  run_turns-handle_each now (p ∷ q ∷ ps) (buf ∷ buf' ∷ bufs) vc (d, ds) =
      ap
        (λ r.
          decode_turn write_all now r vc
          >>= and_then_turn write_all false (run_turns write_all now (map ok (buf' ∷ bufs))))
        d
      ∙ goes_on (handle_in_packet write_all now (some p) 100000 vc)
          (run_turns write_all now (map ok (buf' ∷ bufs))) (handle_each write_all now (q ∷ ps))
          λ vc1. run_turns-handle_each now (q ∷ ps) (buf' ∷ bufs) vc1 ds
  run_turns-handle_each now [] (buf ∷ bufs) vc d = absurd d
  run_turns-handle_each now (p ∷ ps) [] vc d = absurd d
  run_turns-handle_each now (p ∷ []) (buf ∷ buf' ∷ bufs) vc (d, ds) = absurd ds
  run_turns-handle_each now (p ∷ q ∷ ps) (buf ∷ []) vc (d, ds) = absurd ds

-- What one party sends reaches the engine of the other: when well-formed packets are encoded and framed one
-- after the other, and the socket hands out these bytes in any pieces, the thread that reads and the rounds
-- of the loop give every packet to the state machine, in their order, until it is cleared or out of order,
-- and only then, or after the last packet, the loop ends or waits. (Without a packet, the state machine is
-- run once for its timers.)
pub run_turns-sent_bytes :
    {Link : Type 0} (write_all : Link → Buf → Bool × Link) (now : ℕ) (ps : List X25Packet)
    (reads : List (ℕ × Buf)) (vc : VcInner Link)
    → All IsValid ps
    → sent_bytes ps ≡ ok (concat reads)
    → run_turns write_all now (read_loop (suc (length ps)) (chunks reads) []) vc
      ≡ handle_each write_all now ps vc
run_turns-sent_bytes write_all now ps reads vc v e =
    let (bufs, read, decoded) = read_loop-sent_bytes ps (concat reads) reads [] v e refl in
    ap (λ queue. run_turns write_all now queue vc) read
    ∙ run_turns-handle_each write_all now ps bufs vc decoded

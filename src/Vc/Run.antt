-- ===== src/Vc/Run.antt =====
-- The engine of a virtual circuit: the loop of `VcInner::run` in libxotpad/src/x25/vc.rs, and its thread
-- that reads packets. A duration is in seconds.
pub mod Wire
use xotpad.Base.{
  ℕ, zero, suc, Bool, true, false, List, [], ◌∷◌, if◌then◌else◌, Buf, Option, none, some, Result,
  ok, err, panic, stuck, ◌>>=◌,
}
use xotpad.Packet.{X25Packet}
use xotpad.Packet as Packet
use xotpad.Xot.{Read, Recv, received, failure, aborted, blocked, recv}
use xotpad.Vc.Engine.{VcState, cleared, out_of_order, VcInner, change_state}
use xotpad.Vc.Handle.{handle_in_packet}

-- What the thread that reads packets puts into the queue, and what it then does.
unfoldable pub read_with : (List Read → Buf → List (Result Buf)) → Recv → List (Result Buf)
read_with again (received packet left later) = ok packet ∷ again later left
read_with again (failure e) = err e ∷ []
read_with again aborted = panic ∷ []
read_with again (blocked _) = []

-- The thread, on fuel for the packets.
unfoldable pub read_loop : ℕ → List Read → Buf → List (Result Buf)
unfolding recv read_with
read_loop zero reads recv_buf = stuck ∷ []
read_loop (suc fuel) reads recv_buf = read_with (read_loop fuel) (recv reads recv_buf)

-- Whether the loop waits, at most so long, or has ended.
pub data Turn : Type 0 where
  waits : ℕ → Turn
  ended : Turn

unfoldable pub is_terminal : VcState → Bool
is_terminal (cleared _ _) = true
is_terminal out_of_order = true
is_terminal _ = false

module _ {Link : Type 0} (write_all : Link → Buf → Bool × Link) where
  -- The packet is handled, and the loop ends in a terminal state.
  unfoldable pub handle_turn : ℕ → Option X25Packet → VcInner Link → Result (VcInner Link × Turn)
  unfolding handle_in_packet is_terminal
  handle_turn now packet vc = do
    (vc1, timeout) ← handle_in_packet write_all now packet 100000 vc
    ok (vc1, (if is_terminal vc1.state then ended else waits timeout))

  -- A packet that cannot be decoded is a `todo!`.
  unfoldable pub decode_turn : ℕ → Result X25Packet → VcInner Link → Result (VcInner Link × Turn)
  unfolding handle_turn
  decode_turn now (ok packet) vc = handle_turn now (some packet) vc
  decode_turn now (err e) vc = panic
  decode_turn now panic vc = panic
  decode_turn now stuck vc = stuck

  -- One round, on the packet that is taken off the queue.
  unfoldable pub run_turn : ℕ → Option (Result Buf) → VcInner Link → Result (VcInner Link × Turn)
  unfolding decode_turn
  run_turn now none vc = handle_turn now none vc
  run_turn now (some (ok packet)) vc = decode_turn now (Packet.decode packet) vc
  run_turn now (some (err e)) vc = ok (change_state out_of_order vc, ended)
  run_turn now (some panic) vc = panic
  run_turn now (some stuck) vc = stuck

  -- The loop waits when the queue is empty.
  unfoldable pub and_then_turn :
      Bool
      → (VcInner Link → Result (VcInner Link × Turn))
      → VcInner Link × Turn
      → Result (VcInner Link × Turn)
  and_then_turn is_last rest (vc, ended) = ok (vc, ended)
  and_then_turn true rest (vc, waits timeout) = ok (vc, waits timeout)
  and_then_turn false rest (vc, waits timeout) = rest vc

  -- The rounds from one wait to the next, with what is in the queue.
  unfoldable pub run_turns : ℕ → List (Result Buf) → VcInner Link → Result (VcInner Link × Turn)
  unfolding run_turn and_then_turn
  run_turns now [] vc = run_turn now none vc
  run_turns now (packet ∷ []) vc = run_turn now (some packet) vc
  run_turns now (packet ∷ packet' ∷ queue) vc =
      run_turn now (some packet) vc >>= and_then_turn false (run_turns now (packet' ∷ queue))

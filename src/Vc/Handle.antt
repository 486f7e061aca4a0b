-- ===== src/Vc/Handle.antt =====
-- What the engine does with a packet, or with the passing of time: `VcInner::handle_in_packet` of
-- libxotpad/src/x25/vc.rs, one function for each state, and the calls of the client.
pub mod Acknowledging
pub mod Receiving
pub mod Draining
use xotpad.Base.{
  ℕ, ◌-◌, ◌==◌, not, ltb, ◌&&◌, Bool, true, false, if◌then◌else◌, Buf, Option, none, some, Result,
  ok, panic, ◌>>=◌,
}
use xotpad.Packet.{
  X25Packet, call_request, call_accept, clear_request, clear_confirm, data_packet, receive_ready,
  reset_request, reset_confirm,
}
use xotpad.Packet.Data.{X25Data}
use xotpad.Packet.Flow.{X25ReceiveReady}
use xotpad.Vc.Params.{negotiate_called_params, negotiate_calling_params}
use xotpad.Vc.Engine.{
  DataTransferState, ClearInitiator, remote, time_out, VcState, ready, wait_call_accept,
  data_transfer, wait_reset_confirm, wait_clear_confirm, called, cleared, out_of_order,
  update_recv_seq, update_send_window, VcInner, change_state, start_data_transfer, queue_recv_data,
  send_clear_request, send_clear_confirm, send_reset_request, send_reset_confirm,
  send_receive_ready, send_queued_data,
}

abbrev pub is_data_transfer : VcState → Bool
is_data_transfer (data_transfer _) = true
is_data_transfer _ = false

module _ {Link : Type 0} where
  unfoldable pub handle_ready : Option X25Packet → VcInner Link → VcInner Link
  handle_ready (some (call_request p)) vc = record vc {
    params = negotiate_called_params p vc.params;
    state = called p;
  }
  handle_ready _ vc = vc

  unfoldable pub handle_called : Option X25Packet → VcInner Link → VcInner Link
  handle_called (some (clear_request p)) vc = change_state (cleared (remote p) none) vc
  handle_called _ vc = vc

module _ {Link : Type 0} (write_all : Link → Buf → Bool × Link) where
  -- Each handler gives the time until it is to be called again without a packet.
  unfoldable pub handle_wait_call_accept :
      ℕ → ℕ → Option X25Packet → VcInner Link → Result (VcInner Link × ℕ)
  handle_wait_call_accept start_time now (some (call_accept p)) vc = do
    vc1 ← start_data_transfer (record vc { params = negotiate_calling_params p vc.params })
    ok (vc1, vc.params.t21)
  handle_wait_call_accept start_time now (some (clear_request p)) vc =
      ok (change_state (cleared (remote p) none) vc, vc.params.t21)
  handle_wait_call_accept start_time now (some _) vc = ok (vc, vc.params.t21)
  handle_wait_call_accept start_time now none vc =
      if ltb vc.params.t21 (now - start_time)
      then (send_clear_request write_all now 19 49 (time_out 21) vc >>= λ vc1.
          ok (vc1, vc.params.t23))
      else ok (vc, vc.params.t21 - (now - start_time))

  unfoldable pub acknowledge : ℕ → VcInner Link → Result (VcInner Link)
  acknowledge sent_count vc =
      if is_data_transfer vc.state && sent_count == 0
      then send_receive_ready write_all vc
      else ok vc

  unfoldable pub handle_data :
      ℕ → X25Data → DataTransferState → VcInner Link → Result (VcInner Link)
  unfolding acknowledge
  handle_data now p s vc =
      let (s1, in_sequence) = update_recv_seq s p.send_seq in
      let (s2, acknowledged) = update_send_window s1 p.recv_seq in
      if not in_sequence
      then send_reset_request write_all now 5 1 vc
      else if not acknowledged
      then send_reset_request write_all now 5 2 (change_state (data_transfer s1) vc)
      else do
        (sent_count, vc1) ←
            send_queued_data write_all (queue_recv_data p (change_state (data_transfer s2) vc))
        acknowledge sent_count vc1

  unfoldable pub handle_receive_ready :
      ℕ → X25ReceiveReady → DataTransferState → VcInner Link → Result (VcInner Link)
  handle_receive_ready now p s vc =
      let (s1, acknowledged) = update_send_window s p.recv_seq in
      if not acknowledged
      then send_reset_request write_all now 5 2 vc
      else do (_, vc1) ← send_queued_data write_all (change_state (data_transfer s1) vc); ok vc1

  unfoldable pub handle_data_transfer :
      ℕ → Option X25Packet → DataTransferState → VcInner Link → Result (VcInner Link)
  unfolding handle_data handle_receive_ready
  handle_data_transfer now (some (data_packet p)) s vc = handle_data now p s vc
  handle_data_transfer now (some (receive_ready p)) s vc = handle_receive_ready now p s vc
  handle_data_transfer now (some (reset_request p)) s vc = send_reset_confirm write_all vc
  handle_data_transfer now (some (clear_request p)) s vc = send_clear_confirm write_all p vc
  handle_data_transfer now _ s vc = ok vc

  unfoldable pub handle_wait_reset_confirm :
      ℕ → ℕ → Option X25Packet → VcInner Link → Result (VcInner Link × ℕ)
  handle_wait_reset_confirm start_time now (some (reset_confirm p)) vc =
      start_data_transfer vc >>= λ vc1. ok (vc1, vc.params.t22)
  handle_wait_reset_confirm start_time now (some (reset_request p)) vc =
      send_reset_confirm write_all vc >>= λ vc1. ok (vc1, vc.params.t22)
  handle_wait_reset_confirm start_time now (some (clear_request p)) vc =
      send_clear_confirm write_all p vc >>= λ vc1. ok (vc1, vc.params.t22)
  handle_wait_reset_confirm start_time now (some _) vc = ok (vc, vc.params.t22)
  handle_wait_reset_confirm start_time now none vc =
      if ltb vc.params.t22 (now - start_time)
      then (send_clear_request write_all now 19 51 (time_out 22) vc >>= λ vc1.
          ok (vc1, vc.params.t23))
      else ok (vc, vc.params.t22 - (now - start_time))

  -- A clear request is a `todo!` here.
  unfoldable pub handle_wait_clear_confirm :
      ℕ → ℕ → ClearInitiator → Option X25Packet → VcInner Link → Result (VcInner Link × ℕ)
  handle_wait_clear_confirm start_time now initiator (some (clear_confirm p)) vc =
      ok (change_state (cleared initiator (some p)) vc, vc.params.t23)
  handle_wait_clear_confirm start_time now initiator (some (clear_request p)) vc = panic
  handle_wait_clear_confirm start_time now initiator (some _) vc = ok (vc, vc.params.t23)
  handle_wait_clear_confirm start_time now initiator none vc =
      if ltb vc.params.t23 (now - start_time)
      then ok (change_state out_of_order vc, vc.params.t23)
      else ok (vc, vc.params.t23 - (now - start_time))

  -- The `match` on the state.
  unfoldable pub handle_in :
      VcState → ℕ → Option X25Packet → ℕ → VcInner Link → Result (VcInner Link × ℕ)
  unfolding handle_ready handle_called handle_wait_call_accept handle_data_transfer
      handle_wait_reset_confirm handle_wait_clear_confirm
  handle_in ready now packet timeout vc = ok (handle_ready packet vc, timeout)
  handle_in (called _) now packet timeout vc = ok (handle_called packet vc, timeout)
  handle_in (wait_call_accept start_time) now packet timeout vc =
      handle_wait_call_accept start_time now packet vc
  handle_in (data_transfer s) now packet timeout vc =
      handle_data_transfer now packet s vc >>= λ vc1. ok (vc1, timeout)
  handle_in (wait_reset_confirm start_time) now packet timeout vc =
      handle_wait_reset_confirm start_time now packet vc
  handle_in (wait_clear_confirm start_time initiator) now packet timeout vc =
      handle_wait_clear_confirm start_time now initiator packet vc
  handle_in (cleared _ _) now packet timeout vc = ok (vc, timeout)
  handle_in out_of_order now packet timeout vc = ok (vc, timeout)

  unfoldable pub handle_in_packet :
      ℕ → Option X25Packet → ℕ → VcInner Link → Result (VcInner Link × ℕ)
  unfolding handle_in
  handle_in_packet now packet timeout vc = handle_in vc.state now packet timeout vc

-- ===== src/Vc/Client/Invariant/Steps.antt =====
-- Every step keeps the circuit in step.
use xotpad.Base.{
  ℕ, ◌≡◌, ◌==◌, refl, subst, not, ltb, ◌&&◌, ◌-◌, Bool, Buf, Option, none, some, Result, ok, ◌>>=◌,
  Ensures, holds, panicked, Ensures-bind, Ensures-if,
}
use xotpad.Packet.{
  X25Packet, call_request, call_accept, clear_request, clear_confirm, data_packet, receive_ready,
  reset_request, reset_confirm,
}
use xotpad.Packet.Clear.{X25ClearRequest}
use xotpad.Packet.Data.{X25Data}
use xotpad.Packet.Flow.{X25ReceiveReady}
use xotpad.Vc.Params.{negotiate_calling_params}
use xotpad.Vc.Engine.{
  DataTransferState, ClearInitiator, time_out, VcState, ready, wait_call_accept, data_transfer,
  wait_reset_confirm, wait_clear_confirm, called, cleared, out_of_order, update_recv_seq,
  update_send_window, VcInner, change_state, start_data_transfer, queue_recv_data,
  send_clear_request, send_clear_confirm, send_reset_request, send_reset_confirm, receive_ready_in,
  send_receive_ready,
}
use xotpad.Vc.Handle.{
  is_data_transfer, handle_ready, handle_called, handle_wait_call_accept, acknowledge, handle_data,
  handle_receive_ready, handle_data_transfer, handle_wait_reset_confirm, handle_wait_clear_confirm,
  handle_in, handle_in_packet,
}
use xotpad.Vc.Client.Invariant.{
  IsInStep, IsValidIn, IsValid, start_data_transfer-IsValid, update_recv_seq-IsInStep,
  update_send_window-IsInStep, send_then-IsValid, send_queued_data-IsValid,
}

module _ {Link : Type 0} (write_all : Link → Buf → Bool × Link) where
  pub clear_request-IsValid :
      (now cause_code diagnostic_code : ℕ) (initiator : ClearInitiator) (vc : VcInner Link)
      → Ensures IsValid (send_clear_request write_all now cause_code diagnostic_code initiator vc)
  unfolding send_clear_request
  clear_request-IsValid now cause_code diagnostic_code initiator vc =
      send_then-IsValid write_all _ _ vc λ link. holds tt

  clear_confirm-IsValid :
      (p : X25ClearRequest) (vc : VcInner Link)
      → Ensures IsValid (send_clear_confirm write_all p vc)
  unfolding send_clear_confirm
  clear_confirm-IsValid p vc = send_then-IsValid write_all _ _ vc λ link. holds tt

  pub reset_request-IsValid :
      (now cause_code diagnostic_code : ℕ) (vc : VcInner Link)
      → Ensures IsValid (send_reset_request write_all now cause_code diagnostic_code vc)
  unfolding send_reset_request
  reset_request-IsValid now cause_code diagnostic_code vc =
      send_then-IsValid write_all _ _ vc λ link. holds tt

  reset_confirm-IsValid : (vc : VcInner Link) → Ensures IsValid (send_reset_confirm write_all vc)
  unfolding send_reset_confirm
  reset_confirm-IsValid vc =
      send_then-IsValid write_all _ start_data_transfer vc
        λ link. start_data_transfer-IsValid (record vc { send_link = link })

  receive_ready_in-IsValid :
      (state : VcState) (vc : VcInner Link)
      → IsValid vc
      → Ensures IsValid (receive_ready_in write_all state vc)
  unfolding receive_ready_in
  receive_ready_in-IsValid (data_transfer s) vc i =
      send_then-IsValid write_all _ ok vc λ link. holds i
  receive_ready_in-IsValid _ vc i = panicked

  acknowledge-IsValid :
      (sent_count : ℕ) (vc : VcInner Link)
      → IsValid vc
      → Ensures IsValid (acknowledge write_all sent_count vc)
  unfolding acknowledge send_receive_ready
  acknowledge-IsValid sent_count vc i =
      Ensures-if (is_data_transfer vc.state && sent_count == 0)
        (λ _. receive_ready_in-IsValid vc.state vc i) λ _. holds i

  handle_data-IsValid :
      (now : ℕ) (p : X25Data) (s : DataTransferState) (vc : VcInner Link)
      → IsInStep vc.params s
      → Ensures IsValid (handle_data write_all now p s vc)
  unfolding handle_data queue_recv_data
  handle_data-IsValid now p s vc i =
      let (s1, in_sequence) = update_recv_seq s p.send_seq in
      let (s2, acknowledged) = update_send_window s1 p.recv_seq in
      Ensures-if (not in_sequence) (λ _. reset_request-IsValid now 5 1 vc)
        λ _.
          Ensures-if (not acknowledged)
            (λ _. reset_request-IsValid now 5 2 (change_state (data_transfer s1) vc))
            λ yes.
              Ensures-bind
                (send_queued_data-IsValid write_all
                  (queue_recv_data p (change_state (data_transfer s2) vc))
                  (update_send_window-IsInStep vc.params s1 p.recv_seq
                    (update_recv_seq-IsInStep vc.params s p.send_seq i) yes))
                λ (sent_count, vc1) v. acknowledge-IsValid sent_count vc1 v

  handle_receive_ready-IsValid :
      (now : ℕ) (p : X25ReceiveReady) (s : DataTransferState) (vc : VcInner Link)
      → IsInStep vc.params s
      → Ensures IsValid (handle_receive_ready write_all now p s vc)
  unfolding handle_receive_ready
  handle_receive_ready-IsValid now p s vc i =
      let (s1, acknowledged) = update_send_window s p.recv_seq in
      Ensures-if (not acknowledged) (λ _. reset_request-IsValid now 5 2 vc)
        λ yes.
          Ensures-bind
            (send_queued_data-IsValid write_all (change_state (data_transfer s1) vc)
              (update_send_window-IsInStep vc.params s p.recv_seq i yes))
            λ (_, vc1) v. holds v

  handle_data_transfer-IsValid :
      (now : ℕ) (packet : Option X25Packet) (s : DataTransferState) (vc : VcInner Link)
      → IsInStep vc.params s
      → IsValid vc
      → Ensures IsValid (handle_data_transfer write_all now packet s vc)
  unfolding handle_data_transfer
  handle_data_transfer-IsValid now (some (data_packet p)) s vc i v =
      handle_data-IsValid now p s vc i
  handle_data_transfer-IsValid now (some (receive_ready p)) s vc i v =
      handle_receive_ready-IsValid now p s vc i
  handle_data_transfer-IsValid now (some (reset_request p)) s vc i v = reset_confirm-IsValid vc
  handle_data_transfer-IsValid now (some (clear_request p)) s vc i v = clear_confirm-IsValid p vc
  handle_data_transfer-IsValid now _ s vc i v = holds v

  -- The result with the time until the next call.
  with_time :
      (r : Result (VcInner Link)) (timeout : ℕ)
      → Ensures IsValid r
      → Ensures (λ (vc1, _). IsValid vc1) (r >>= λ vc1. ok (vc1, timeout))
  with_time r timeout h = Ensures-bind h λ vc1 v. holds v

  handle_wait_call_accept-IsValid :
      (start_time now : ℕ) (packet : Option X25Packet) (vc : VcInner Link)
      → IsValid vc
      → Ensures
          (λ (vc1, _). IsValid vc1)
          (handle_wait_call_accept write_all start_time now packet vc)
  unfolding handle_wait_call_accept
  handle_wait_call_accept-IsValid start_time now (some (call_accept p)) vc v =
      with_time _ vc.params.t21
        (start_data_transfer-IsValid (record vc { params = negotiate_calling_params p vc.params }))
  handle_wait_call_accept-IsValid start_time now (some (clear_request p)) vc v = holds tt
  handle_wait_call_accept-IsValid start_time now (some _) vc v = holds v
  handle_wait_call_accept-IsValid start_time now none vc v =
      Ensures-if (ltb vc.params.t21 (now - start_time))
        (λ _. with_time _ vc.params.t23 (clear_request-IsValid now 19 49 (time_out 21) vc))
        λ _. holds v

  handle_wait_reset_confirm-IsValid :
      (start_time now : ℕ) (packet : Option X25Packet) (vc : VcInner Link)
      → IsValid vc
      → Ensures
          (λ (vc1, _). IsValid vc1)
          (handle_wait_reset_confirm write_all start_time now packet vc)
  unfolding handle_wait_reset_confirm
  handle_wait_reset_confirm-IsValid start_time now (some (reset_confirm p)) vc v =
      with_time _ vc.params.t22 (start_data_transfer-IsValid vc)
  handle_wait_reset_confirm-IsValid start_time now (some (reset_request p)) vc v =
      with_time _ vc.params.t22 (reset_confirm-IsValid vc)
  handle_wait_reset_confirm-IsValid start_time now (some (clear_request p)) vc v =
      with_time _ vc.params.t22 (clear_confirm-IsValid p vc)
  handle_wait_reset_confirm-IsValid start_time now (some _) vc v = holds v
  handle_wait_reset_confirm-IsValid start_time now none vc v =
      Ensures-if (ltb vc.params.t22 (now - start_time))
        (λ _. with_time _ vc.params.t23 (clear_request-IsValid now 19 51 (time_out 22) vc))
        λ _. holds v

  handle_wait_clear_confirm-IsValid :
      (start_time now : ℕ) (initiator : ClearInitiator) (packet : Option X25Packet)
      (vc : VcInner Link)
      → IsValid vc
      → Ensures
          (λ (vc1, _). IsValid vc1)
          (handle_wait_clear_confirm write_all start_time now initiator packet vc)
  unfolding handle_wait_clear_confirm
  handle_wait_clear_confirm-IsValid start_time now initiator (some (clear_confirm p)) vc v =
      holds tt
  handle_wait_clear_confirm-IsValid start_time now initiator (some (clear_request p)) vc v =
      panicked
  handle_wait_clear_confirm-IsValid start_time now initiator (some _) vc v = holds v
  handle_wait_clear_confirm-IsValid start_time now initiator none vc v =
      Ensures-if (ltb vc.params.t23 (now - start_time)) (λ _. holds tt) λ _. holds v

  handle_ready-IsValid :
      (packet : Option X25Packet) (vc : VcInner Link)
      → IsValid vc
      → IsValid (handle_ready packet vc)
  unfolding handle_ready
  handle_ready-IsValid (some (call_request p)) vc v = tt
  handle_ready-IsValid _ vc v = v

  handle_called-IsValid :
      (packet : Option X25Packet) (vc : VcInner Link)
      → IsValid vc
      → IsValid (handle_called packet vc)
  unfolding handle_called
  handle_called-IsValid (some (clear_request p)) vc v = tt
  handle_called-IsValid _ vc v = v

  handle_in-IsValid :
      (state : VcState) (now : ℕ) (packet : Option X25Packet) (timeout : ℕ) (vc : VcInner Link)
      → vc.state ≡ state
      → IsValid vc
      → Ensures (λ (vc1, _). IsValid vc1) (handle_in write_all state now packet timeout vc)
  unfolding handle_in
  handle_in-IsValid ready now packet timeout vc e v = holds (handle_ready-IsValid packet vc v)
  handle_in-IsValid (called _) now packet timeout vc e v = holds (handle_called-IsValid packet vc v)
  handle_in-IsValid (wait_call_accept start_time) now packet timeout vc e v =
      handle_wait_call_accept-IsValid start_time now packet vc v
  handle_in-IsValid (data_transfer s) now packet timeout vc e v =
      with_time _ timeout
        (handle_data_transfer-IsValid now packet s vc (subst (IsValidIn vc.params) e v) v)
  handle_in-IsValid (wait_reset_confirm start_time) now packet timeout vc e v =
      handle_wait_reset_confirm-IsValid start_time now packet vc v
  handle_in-IsValid (wait_clear_confirm start_time initiator) now packet timeout vc e v =
      handle_wait_clear_confirm-IsValid start_time now initiator packet vc v
  handle_in-IsValid (cleared _ _) now packet timeout vc e v = holds v
  handle_in-IsValid out_of_order now packet timeout vc e v = holds v

  pub handle_in_packet-IsValid :
      (now : ℕ) (packet : Option X25Packet) (timeout : ℕ) (vc : VcInner Link)
      → IsValid vc
      → Ensures (λ (vc1, _). IsValid vc1) (handle_in_packet write_all now packet timeout vc)
  unfolding handle_in_packet
  handle_in_packet-IsValid now packet timeout vc v =
      handle_in-IsValid vc.state now packet timeout vc refl v

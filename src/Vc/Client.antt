-- ===== src/Vc/Client.antt =====
-- The client's calls of a virtual circuit: `Svc` and `SvcIncomingCall` of libxotpad/src/x25/vc.rs. What
-- a call does under its locks is one step; where it waits for the engine, a function of what it finds
-- gives `none` as long as it waits on. The inner result is the call's, the outer one the thread's.
pub mod Invariant
pub mod Reachable
pub mod Sending
use xotpad.Base.{
  ℕ, not, ◌&&◌, Bool, true, false, List, [], ◌∷◌, is_empty, if◌then◌else◌, Buf, Option, none, some,
  Result, ok, err, panic, ◌>>=◌, out_of_order_link, gave_up, connection_reset, timed_out,
  broken_pipe,
}
use xotpad.X121.{X121Addr, null}
use xotpad.Packet.{X25Packet, call_request, call_accept, clear_request}
use xotpad.Packet.Call.{X25CallRequest}
use xotpad.Packet.Data.{X25Data}
use xotpad.Vc.Params.{X25Params, create_call_request, create_call_accept}
use xotpad.Vc.Queue.{queue_send_data, pop_complete_data}
use xotpad.Vc.Engine.{
  ClearInitiator, local, remote, time_out, VcState, ready, wait_call_accept, data_transfer,
  wait_reset_confirm, wait_clear_confirm, called, cleared, out_of_order, is_connected, VcInner,
  change_state, start_data_transfer, send_packet, send_clear_request, send_reset_request,
  send_queued_data,
}

unfoldable pub new_circuit : {Link : Type 0} → Link → ℕ → X25Params → VcInner Link
new_circuit link channel params = record {
  send_link = link;
  channel = channel;
  state = ready;
  params = params;
  send_data_queue = [];
  recv_data_queue = [];
}

-- What `Svc::call` returns when it is not connected.
unfoldable pub failed_call : VcState → Result (Unit {0})
failed_call (cleared (remote _) _) = err connection_reset
failed_call (wait_clear_confirm _ (time_out _)) = err timed_out
failed_call (cleared (time_out _) _) = err timed_out
failed_call out_of_order = err out_of_order_link
failed_call _ = panic

unfoldable pub call_result : VcState → List X25Data → Option (Result (Unit {0}))
unfolding failed_call is_connected
call_result (wait_call_accept _) queue = none
call_result state queue =
    some (if is_empty queue && not (is_connected state) then failed_call state else ok tt)

-- `Svc::listen_timeout`, when it has not timed out.
unfoldable pub listen_result : VcState → Option (Result X25CallRequest)
listen_result ready = none
listen_result (called request) = some (ok request)
listen_result out_of_order = some (err out_of_order_link)
listen_result _ = some panic

unfoldable pub clear_result : VcState → Option (Result (Unit {0}))
clear_result (wait_clear_confirm _ _) = none
clear_result (cleared local _) = some (ok tt)
clear_result out_of_order = some (err out_of_order_link)
clear_result _ = some panic

unfoldable pub cleared_by : VcState → Option (ℕ × ℕ)
cleared_by (cleared (remote request) _) = some (request.cause_code, request.diagnostic_code)
cleared_by _ = none

unfoldable pub reset_result : VcState → Option (Result (Unit {0}))
reset_result (wait_reset_confirm _) = none
reset_result (data_transfer _) = some (ok tt)
reset_result (wait_clear_confirm _ (time_out _)) = some (err timed_out)
reset_result (cleared (time_out _) _) = some (err timed_out)
reset_result out_of_order = some (err out_of_order_link)
reset_result _ = some panic

-- A circuit that is not connected has nothing more to receive, and cannot send what is queued.
unfoldable pub end_of_data : VcState → Result (Option (Buf × Bool))
end_of_data (cleared local _) = ok none
end_of_data (cleared (remote _) _) = ok none
end_of_data (cleared (time_out _) _) = err timed_out
end_of_data out_of_order = err out_of_order_link
end_of_data _ = panic

unfoldable pub failed_flush : VcState → Result (Unit {0})
failed_flush (cleared local _) = err broken_pipe
failed_flush (cleared (remote _) _) = err broken_pipe
failed_flush (cleared (time_out _) _) = err timed_out
failed_flush out_of_order = err out_of_order_link
failed_flush _ = panic

module _ {Link : Type 0} where
  unfoldable pub recv_popped :
      Option (Buf × Bool) × List X25Data
      → VcInner Link
      → VcInner Link × Option (Result (Option (Buf × Bool)))
  unfolding end_of_data is_connected
  recv_popped (some popped, queue) vc =
      (record vc { recv_data_queue = queue }, some (ok (some popped)))
  recv_popped (none, queue) vc =
      (vc, if is_connected vc.state then none else some (end_of_data vc.state))

  -- One round of `Svc::recv`.
  unfoldable pub recv_round : VcInner Link → VcInner Link × Option (Result (Option (Buf × Bool)))
  unfolding recv_popped
  recv_round vc = recv_popped (pop_complete_data vc.recv_data_queue) vc

  -- One round of `Svc::flush`.
  unfoldable pub flush_round : VcInner Link → Option (Result (Unit {0}))
  unfolding failed_flush is_connected
  flush_round vc =
      if is_empty vc.send_data_queue
      then some (ok tt)
      else if is_connected vc.state
      then none
      else some (failed_flush vc.state)

module _ {Link : Type 0} (write_all : Link → Buf → Bool × Link) where
  -- A packet, and what follows it; or the link is out of order.
  unfoldable pub send_or_fail :
      X25Packet
      → (VcInner Link → Result (VcInner Link))
      → VcInner Link
      → Result (VcInner Link × Result (Unit {0}))
  send_or_fail packet next vc = do
    (sent, vc1) ← send_packet write_all packet vc
    if sent
        then (next vc1 >>= λ vc2. ok (vc2, ok tt))
        else ok (change_state out_of_order vc1, err out_of_order_link)

  -- `Svc::call` up to its wait; any state but ready is a `todo!`.
  unfoldable pub request_call_in :
      VcState → X121Addr → Buf → ℕ → VcInner Link → Result (VcInner Link × Result (Unit {0}))
  unfolding send_or_fail
  request_call_in ready addr call_user_data now vc =
      send_or_fail (call_request (create_call_request vc.channel addr call_user_data vc.params))
        (λ vc1. ok (change_state (wait_call_accept now) vc1)) vc
  request_call_in _ addr call_user_data now vc = panic

  unfoldable pub request_call :
      X121Addr → Buf → ℕ → VcInner Link → Result (VcInner Link × Result (Unit {0}))
  unfolding request_call_in
  request_call addr call_user_data now vc = request_call_in vc.state addr call_user_data now vc

  unfoldable pub accept_in : VcState → VcInner Link → Result (VcInner Link × Result (Unit {0}))
  unfolding send_or_fail
  accept_in (called _) vc =
      send_or_fail (call_accept (create_call_accept vc.channel vc.params)) start_data_transfer vc
  accept_in _ vc = ok (vc, err gave_up)

  unfoldable pub accept : VcInner Link → Result (VcInner Link × Result (Unit {0}))
  unfolding accept_in
  accept vc = accept_in vc.state vc

  unfoldable pub clear_incoming_in :
      VcState → ℕ → ℕ → VcInner Link → Result (VcInner Link × Result (Unit {0}))
  unfolding send_or_fail
  clear_incoming_in (called _) cause_code diagnostic_code vc =
      send_or_fail
        (clear_request (record {
          modulo = vc.params.modulo;
          channel = vc.channel;
          cause_code = cause_code;
          diagnostic_code = diagnostic_code;
          called_addr = null;
          calling_addr = null;
          facilities = [];
          clear_user_data = [];
        }))
        (λ vc1. ok (change_state (cleared local none) vc1)) vc
  clear_incoming_in _ cause_code diagnostic_code vc = ok (vc, err gave_up)

  -- `SvcIncomingCall::clear`
  unfoldable pub clear_incoming : ℕ → ℕ → VcInner Link → Result (VcInner Link × Result (Unit {0}))
  unfolding clear_incoming_in
  clear_incoming cause_code diagnostic_code vc =
      clear_incoming_in vc.state cause_code diagnostic_code vc

  -- `Svc::clear` up to its wait.
  unfoldable pub clear : ℕ → ℕ → ℕ → VcInner Link → Result (VcInner Link)
  unfolding is_connected
  clear now cause_code diagnostic_code vc =
      if is_connected vc.state
      then send_clear_request write_all now cause_code diagnostic_code local vc
      else panic

  unfoldable pub reset_in : VcState → ℕ → ℕ → ℕ → VcInner Link → Result (VcInner Link)
  reset_in (data_transfer _) now cause_code diagnostic_code vc =
      send_reset_request write_all now cause_code diagnostic_code vc
  reset_in _ now cause_code diagnostic_code vc = panic

  -- `Svc::reset` up to its wait.
  unfoldable pub reset : ℕ → ℕ → ℕ → VcInner Link → Result (VcInner Link)
  unfolding reset_in
  reset now cause_code diagnostic_code vc = reset_in vc.state now cause_code diagnostic_code vc

  -- `Svc::send`, when the state stays the same between its locks.
  unfoldable pub send : Buf → Bool → VcInner Link → Result (VcInner Link × Result (Unit {0}))
  unfolding is_connected
  send user_data qualifier vc = if not (is_connected vc.state) then ok (vc, err broken_pipe) else do
    queue ← queue_send_data vc.params.send_packet_size user_data qualifier vc.send_data_queue
    (_, vc1) ← send_queued_data write_all (record vc { send_data_queue = queue })
    ok (vc1, ok tt)

-- ===== src/Vc/Engine.antt =====
-- The state machine of a virtual circuit: `VcState` and the methods of `VcInner` in
-- libxotpad/src/x25/vc.rs. Locks are held for the whole of a method, so that a method is one step;
-- an `Instant` is a number of ticks.
pub mod Sending
pub mod Written
use xotpad.Base.{
  ℕ, ◌+◌, ◌==◌, not, Bool, true, false, List, [], ◌∷◌, ◌++◌, if◌then◌else◌, Buf, Option, none, some,
  Result, ok, err, panic, stuck, ◌>>=◌,
}
use xotpad.Seq.{X25Modulo, Window, new, is_open, seq, incr, next_seq, update_start}
use xotpad.X121.{null}
use xotpad.Packet.{
  X25Packet, clear_request, clear_confirm, data_packet, receive_ready, reset_request, reset_confirm,
}
use xotpad.Packet as Packet
use xotpad.Packet.Call.{X25CallRequest}
use xotpad.Packet.Clear.{X25ClearRequest, X25ClearConfirm}
use xotpad.Packet.Data.{X25Data}
use xotpad.Xot as Xot
use xotpad.Vc.Params.{X25Params}
use xotpad.Vc.Queue.{SendData}

pub record DataTransferState : Type 0 where
  pub modulo : X25Modulo
  pub send_window : Window
  pub recv_seq : ℕ

pub data ClearInitiator : Type 0 where
  local : ClearInitiator
  remote : X25ClearRequest → ClearInitiator
  time_out : ℕ → ClearInitiator

pub data VcState : Type 0 where
  ready : VcState
  wait_call_accept : ℕ → VcState
  data_transfer : DataTransferState → VcState
  wait_reset_confirm : ℕ → VcState
  wait_clear_confirm : ℕ → ClearInitiator → VcState
  called : X25CallRequest → VcState
  cleared : ClearInitiator → Option X25ClearConfirm → VcState
  out_of_order : VcState

unfoldable pub is_connected : VcState → Bool
is_connected (data_transfer _) = true
is_connected (wait_reset_confirm _) = true
is_connected _ = false

unfoldable pub update_recv_seq : DataTransferState → ℕ → DataTransferState × Bool
update_recv_seq s seq =
    if not (seq == s.recv_seq)
    then (s, false)
    else (record s { recv_seq = next_seq seq s.modulo }, true)

unfoldable pub update_send_window : DataTransferState → ℕ → DataTransferState × Bool
update_send_window s seq =
    let (send_window, updated) = update_start s.send_window seq in
    (record s { send_window = send_window }, updated)

-- `Link` stands for the socket.
pub record VcInner (Link : Type 0) : Type 0 where
  pub send_link : Link
  pub channel : ℕ
  pub state : VcState
  pub params : X25Params
  pub send_data_queue : List SendData
  pub recv_data_queue : List X25Data

module _ {Link : Type 0} where
  abbrev pub change_state : VcState → VcInner Link → VcInner Link
  change_state state vc = record vc { state = state }

  unfoldable pub start_data_transfer : VcInner Link → Result (VcInner Link)
  start_data_transfer vc = do
    send_window ← new vc.params.send_window_size vc.params.modulo
    ok (
        change_state
          (data_transfer
            (record { modulo = vc.params.modulo; send_window = send_window; recv_seq = 0 }))
          vc)

  unfoldable pub queue_recv_data : X25Data → VcInner Link → VcInner Link
  queue_recv_data p vc = record vc { recv_data_queue = vc.recv_data_queue ++ (p ∷ []) }

  -- The packet for the front of the queue.
  unfoldable pub data_of : SendData → DataTransferState → VcInner Link → X25Data
  data_of d s vc = record {
    modulo = vc.params.modulo;
    channel = vc.channel;
    send_seq = seq s.send_window;
    recv_seq = s.recv_seq;
    qualifier = d.qualifier;
    delivery = false;
    more = d.more;
    user_data = d.user_data;
  }

-- Both encoders, one behind the other.
unfoldable pub frame_of : X25Packet → Result Buf
frame_of packet = do (_, buf) ← Packet.encode packet []; (_, frame) ← Xot.encode buf []; ok frame

-- `write_all` of the socket, which says whether it succeeded.
module _ {Link : Type 0} (write_all : Link → Buf → Bool × Link) where
  unfoldable pub write_frame : Result Buf → VcInner Link → Result (Bool × VcInner Link)
  write_frame (ok frame) vc =
      let (sent, link) = write_all vc.send_link frame in ok (sent, record vc { send_link = link })
  write_frame (err e) vc = ok (false, vc)
  write_frame panic vc = panic
  write_frame stuck vc = stuck

  -- Whether the packet was sent.
  unfoldable pub send_packet : X25Packet → VcInner Link → Result (Bool × VcInner Link)
  unfolding frame_of write_frame
  send_packet packet vc = write_frame (frame_of packet) vc

  -- A packet and the state that follows it, or the link is out of order.
  unfoldable pub send_then :
      X25Packet → (VcInner Link → Result (VcInner Link)) → VcInner Link → Result (VcInner Link)
  send_then packet next vc = do
    (sent, vc1) ← send_packet packet vc
    if sent then next vc1 else ok (change_state out_of_order vc1)

  unfoldable pub send_clear_request :
      ℕ → ℕ → ℕ → ClearInitiator → VcInner Link → Result (VcInner Link)
  send_clear_request now cause_code diagnostic_code initiator vc =
      send_then
        (clear_request (record {
          modulo = vc.params.modulo;
          channel = vc.channel;
          cause_code = cause_code;
          diagnostic_code = diagnostic_code;
          called_addr = null;
          calling_addr = null;
          facilities = [];
          clear_user_data = [];
        }))
        (λ vc1. ok (change_state (wait_clear_confirm now initiator) vc1)) vc

  unfoldable pub send_clear_confirm : X25ClearRequest → VcInner Link → Result (VcInner Link)
  send_clear_confirm request vc =
      send_then
        (clear_confirm (record {
          modulo = vc.params.modulo;
          channel = vc.channel;
          called_addr = null;
          calling_addr = null;
          facilities = [];
        }))
        (λ vc1. ok (change_state (cleared (remote request) none) vc1)) vc

  unfoldable pub send_reset_request : ℕ → ℕ → ℕ → VcInner Link → Result (VcInner Link)
  send_reset_request now cause_code diagnostic_code vc =
      send_then
        (reset_request (record {
          modulo = vc.params.modulo;
          channel = vc.channel;
          cause_code = cause_code;
          diagnostic_code = diagnostic_code;
        }))
        (λ vc1. ok (change_state (wait_reset_confirm now) vc1)) vc

  unfoldable pub send_reset_confirm : VcInner Link → Result (VcInner Link)
  unfolding start_data_transfer
  send_reset_confirm vc =
      send_then (reset_confirm (record { modulo = vc.params.modulo; channel = vc.channel }))
        start_data_transfer vc

  unfoldable pub receive_ready_in : VcState → VcInner Link → Result (VcInner Link)
  receive_ready_in (data_transfer s) vc =
      send_then
        (receive_ready
          (record { modulo = vc.params.modulo; channel = vc.channel; recv_seq = s.recv_seq }))
        ok vc
  receive_ready_in _ vc = panic

  unfoldable pub send_receive_ready : VcInner Link → Result (VcInner Link)
  unfolding receive_ready_in
  send_receive_ready vc = receive_ready_in vc.state vc

  -- The loop of `send_queued_data` over the queue, with the number of packets sent so far.
  unfoldable pub send_loop :
      List SendData → DataTransferState → ℕ → VcInner Link → Result (ℕ × VcInner Link)
  unfolding data_of
  send_loop [] s count vc = ok (count, record vc { state = data_transfer s; send_data_queue = [] })
  send_loop (d ∷ queue) s count vc =
      if is_open s.send_window
      then (do
        (sent, vc1) ← send_packet (data_packet (data_of d s vc)) vc
        if sent
            then send_loop queue (record s { send_window = (incr s.send_window).0 }) (count + 1) vc1
            else ok (count, record vc1 { state = out_of_order; send_data_queue = d ∷ queue }))
      else ok (count, record vc { state = data_transfer s; send_data_queue = d ∷ queue })

  unfoldable pub send_queued_in : VcState → VcInner Link → Result (ℕ × VcInner Link)
  unfolding send_loop
  send_queued_in (data_transfer s) vc = send_loop vc.send_data_queue s 0 vc
  send_queued_in _ vc = panic

  unfoldable pub send_queued_data : VcInner Link → Result (ℕ × VcInner Link)
  unfolding send_queued_in
  send_queued_data vc = send_queued_in vc.state vc

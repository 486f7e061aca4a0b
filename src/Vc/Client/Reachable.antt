-- ===== src/Vc/Client/Reachable.antt =====
-- The states that a virtual circuit reaches, by the steps of its engine and of its client.
use xotpad.Base.{
  ℕ, ◌≡◌, not, Bool, List, Buf, Option, none, some, Result, ok, Ensures, holds, panicked,
  Ensures-bind, Ensures-if, Ensures-intro, Ensures-ok, sym, subst,
}
use xotpad.X121.{X121Addr}
use xotpad.Packet.{X25Packet}
use xotpad.Packet.Data.{X25Data}
use xotpad.Vc.Params.{X25Params}
use xotpad.Vc.Queue.{queue_send_data, pop_complete_data}
use xotpad.Vc.Engine.{
  VcState, ready, wait_call_accept, data_transfer, called, cleared, out_of_order, is_connected,
  local, VcInner, change_state, start_data_transfer,
}
use xotpad.Vc.Handle.{handle_in_packet}
use xotpad.Vc.Client.{
  new_circuit, recv_popped, recv_round, send_or_fail, request_call_in, request_call, accept_in,
  accept, clear_incoming_in, clear_incoming, clear, reset_in, reset, send,
}
use xotpad.Vc.Client.Invariant.{
  IsValid, start_data_transfer-IsValid, send_packet-Ensures, send_queued_data-IsValid,
}
use xotpad.Vc.Client.Invariant.Steps.{
  handle_in_packet-IsValid, clear_request-IsValid, reset_request-IsValid,
}

-- A step that does not panic: a packet that came in, or none in time; a link that failed; a call of
-- the client.
pub data Step {Link : Type 0} (write_all : Link → Buf → Bool × Link)
    : VcInner Link → VcInner Link → Type 0 where
  handled :
      (now : ℕ) (packet : Option X25Packet) (timeout wait : ℕ) {vc vc' : VcInner Link}
      → handle_in_packet write_all now packet timeout vc ≡ ok (vc', wait)
      → Step write_all vc vc'
  failed : {vc : VcInner Link} → Step write_all vc (change_state out_of_order vc)
  calling :
      (addr : X121Addr) (call_user_data : Buf) (now : ℕ) (result : Result (Unit {0}))
      {vc vc' : VcInner Link}
      → request_call write_all addr call_user_data now vc ≡ ok (vc', result)
      → Step write_all vc vc'
  accepting :
      (result : Result (Unit {0})) {vc vc' : VcInner Link}
      → accept write_all vc ≡ ok (vc', result)
      → Step write_all vc vc'
  refusing :
      (cause_code diagnostic_code : ℕ) (result : Result (Unit {0})) {vc vc' : VcInner Link}
      → clear_incoming write_all cause_code diagnostic_code vc ≡ ok (vc', result)
      → Step write_all vc vc'
  clearing :
      (now cause_code diagnostic_code : ℕ) {vc vc' : VcInner Link}
      → clear write_all now cause_code diagnostic_code vc ≡ ok vc'
      → Step write_all vc vc'
  resetting :
      (now cause_code diagnostic_code : ℕ) {vc vc' : VcInner Link}
      → reset write_all now cause_code diagnostic_code vc ≡ ok vc'
      → Step write_all vc vc'
  sending :
      (user_data : Buf) (qualifier : Bool) (result : Result (Unit {0})) {vc vc' : VcInner Link}
      → send write_all user_data qualifier vc ≡ ok (vc', result)
      → Step write_all vc vc'
  receiving : {vc : VcInner Link} → Step write_all vc (recv_round vc).0

pub data Reachable {Link : Type 0} (write_all : Link → Buf → Bool × Link) (first : VcInner Link)
    : VcInner Link → Type 0 where
  initially : Reachable write_all first first
  next :
      {vc vc' : VcInner Link}
      → Reachable write_all first vc
      → Step write_all vc vc'
      → Reachable write_all first vc'

module _ {Link : Type 0} (write_all : Link → Buf → Bool × Link) where
  send_or_fail-IsValid :
      (packet : X25Packet) (follow : VcInner Link → Result (VcInner Link)) (vc : VcInner Link)
      → ((link : Link) → Ensures IsValid (follow (record vc { send_link = link })))
      → Ensures (λ (vc1, _). IsValid vc1) (send_or_fail write_all packet follow vc)
  unfolding send_or_fail
  send_or_fail-IsValid packet follow vc k =
      Ensures-bind (send_packet-Ensures write_all packet vc) λ (sent, vc1) (link, e).
        Ensures-if sent
          (λ _.
            Ensures-bind
              (subst (λ (vc2 : VcInner Link). Ensures IsValid (follow vc2)) (sym e) (k link))
              λ vc2 v. holds v)
          λ _. holds tt

  request_call_in-IsValid :
      (state : VcState) (addr : X121Addr) (call_user_data : Buf) (now : ℕ) (vc : VcInner Link)
      → Ensures
          (λ (vc1, _). IsValid vc1)
          (request_call_in write_all state addr call_user_data now vc)
  unfolding request_call_in
  request_call_in-IsValid ready addr call_user_data now vc =
      send_or_fail-IsValid _ (λ vc1. ok (change_state (wait_call_accept now) vc1)) vc
        λ link. holds tt
  request_call_in-IsValid _ addr call_user_data now vc = panicked

  accept_in-IsValid :
      (state : VcState) (vc : VcInner Link)
      → IsValid vc
      → Ensures (λ (vc1, _). IsValid vc1) (accept_in write_all state vc)
  unfolding accept_in
  accept_in-IsValid (called p) vc v =
      send_or_fail-IsValid _ start_data_transfer vc
        λ link. start_data_transfer-IsValid (record vc { send_link = link })
  accept_in-IsValid _ vc v = holds v

  clear_incoming_in-IsValid :
      (state : VcState) (cause_code diagnostic_code : ℕ) (vc : VcInner Link)
      → IsValid vc
      → Ensures
          (λ (vc1, _). IsValid vc1)
          (clear_incoming_in write_all state cause_code diagnostic_code vc)
  unfolding clear_incoming_in
  clear_incoming_in-IsValid (called p) cause_code diagnostic_code vc v =
      send_or_fail-IsValid _ (λ vc1. ok (change_state (cleared local none) vc1)) vc λ link. holds tt
  clear_incoming_in-IsValid _ cause_code diagnostic_code vc v = holds v

  clear-IsValid :
      (now cause_code diagnostic_code : ℕ) (vc : VcInner Link)
      → Ensures IsValid (clear write_all now cause_code diagnostic_code vc)
  unfolding clear
  clear-IsValid now cause_code diagnostic_code vc =
      Ensures-if (is_connected vc.state)
        (λ _. clear_request-IsValid write_all now cause_code diagnostic_code local vc) λ _. panicked

  reset_in-IsValid :
      (state : VcState) (now cause_code diagnostic_code : ℕ) (vc : VcInner Link)
      → Ensures IsValid (reset_in write_all state now cause_code diagnostic_code vc)
  unfolding reset_in
  reset_in-IsValid (data_transfer s) now cause_code diagnostic_code vc =
      reset_request-IsValid write_all now cause_code diagnostic_code vc
  reset_in-IsValid _ now cause_code diagnostic_code vc = panicked

  send-IsValid :
      (user_data : Buf) (qualifier : Bool) (vc : VcInner Link)
      → IsValid vc
      → Ensures (λ (vc1, _). IsValid vc1) (send write_all user_data qualifier vc)
  unfolding send
  send-IsValid user_data qualifier vc v =
      Ensures-if (not (is_connected vc.state)) (λ _. holds v)
        λ _.
          Ensures-bind
            (Ensures-intro {P = λ queue. Unit {0}}
              (queue_send_data vc.params.send_packet_size user_data qualifier vc.send_data_queue)
              λ q e. tt)
            λ queue _.
              Ensures-bind
                (send_queued_data-IsValid write_all (record vc { send_data_queue = queue }) v)
                λ (_, vc1) v1. holds v1

  recv_popped-IsValid :
      (popped : Option (Buf × Bool) × List X25Data) (vc : VcInner Link)
      → IsValid vc
      → IsValid (recv_popped popped vc).0
  unfolding recv_popped
  recv_popped-IsValid (some p, queue) vc v = v
  recv_popped-IsValid (none, queue) vc v = v

  Step-IsValid : {vc vc' : VcInner Link} → Step write_all vc vc' → IsValid vc → IsValid vc'
  unfolding request_call accept clear_incoming reset recv_round
  Step-IsValid {vc} (handled now packet timeout wait e) v =
      Ensures-ok (handle_in_packet-IsValid write_all now packet timeout vc v) e
  Step-IsValid failed v = tt
  Step-IsValid {vc} (calling addr call_user_data now result e) v =
      Ensures-ok (request_call_in-IsValid vc.state addr call_user_data now vc) e
  Step-IsValid {vc} (accepting result e) v = Ensures-ok (accept_in-IsValid vc.state vc v) e
  Step-IsValid {vc} (refusing cause_code diagnostic_code result e) v =
      Ensures-ok (clear_incoming_in-IsValid vc.state cause_code diagnostic_code vc v) e
  Step-IsValid {vc} (clearing now cause_code diagnostic_code e) v =
      Ensures-ok (clear-IsValid now cause_code diagnostic_code vc) e
  Step-IsValid {vc} (resetting now cause_code diagnostic_code e) v =
      Ensures-ok (reset_in-IsValid vc.state now cause_code diagnostic_code vc) e
  Step-IsValid {vc} (sending user_data qualifier result e) v =
      Ensures-ok (send-IsValid user_data qualifier vc v) e
  Step-IsValid {vc} receiving v = recv_popped-IsValid (pop_complete_data vc.recv_data_queue) vc v

  -- In every state that a new circuit reaches by the steps of its engine and of its client: if it is in
  -- data transfer, its window stands for counters of packets acknowledged and sent, and the window, the
  -- state and the sequence number expected are of the modulus in the circuit's parameters.
  pub Reachable-IsValid :
      (link : Link) (channel : ℕ) (params : X25Params) {vc : VcInner Link}
      → Reachable write_all (new_circuit link channel params) vc
      → IsValid vc
  unfolding new_circuit
  Reachable-IsValid link channel params initially = tt
  Reachable-IsValid link channel params (next before step) =
      Step-IsValid step (Reachable-IsValid link channel params before)

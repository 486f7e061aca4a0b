-- ===== src/Tests/CircuitWitnesses.antt =====
-- The theorems about the steps of a virtual circuit at concrete inputs.
use xotpad.Base.{refl, arith, true, false, [], ◌∷◌, ◌++◌, Buf, some, ok}
use xotpad.Seq.{normal, new}
use xotpad.X121.{null, digits}
use xotpad.Packet as Packet
use xotpad.Packet.{call_request, call_accept}
use xotpad.Packet.Header.{encode_packet_header}
use xotpad.Packet.Blocks.{encode_addr_block, put_pairs, encode_facilities_block}
use xotpad.Facility.{
  encode_facilities, encode_loop, encode_params, encode_packet_size, get_code, check_window_size,
}
use xotpad.Xot as Xot
use xotpad.Packet.Call.{encode_call_accept, encode_call_blocks}
use xotpad.Packet.Call.{X25CallRequest, X25CallAccept}
use xotpad.Vc.Params.{
  X25Params, negotiate_called_params, set_window_size, get_window_size, set_packet_size,
  get_packet_size, create_call_accept,
}
use xotpad.Vc.Engine.{VcInner, called, data_transfer, start_data_transfer, frame_of}
use xotpad.Vc.Handle.{handle_in_packet}
use xotpad.Vc.Client.{new_circuit, accept, request_call, send}
use xotpad.Vc.Client.Sending.{Sends, send-Sends}
use xotpad.Vc.Client.Invariant.{IsValid}
use xotpad.Vc.Client.Reachable.{Step, handled, accepting, initially, next, Reachable-IsValid}

abbrev params : X25Params
params = record {
  addr = null;
  modulo = normal;
  send_packet_size = 128;
  send_window_size = 2;
  recv_packet_size = 128;
  recv_window_size = 2;
  t21 = 200;
  t22 = 180;
  t23 = 180;
}

abbrev request : X25CallRequest
request = record {
  modulo = normal;
  channel = 1;
  called_addr = null;
  calling_addr = null;
  facilities = [];
  call_user_data = [];
}

-- A circuit that was called, and that accepted.
abbrev circuit : VcInner Buf
circuit = record {
  send_link = 0 ∷ 0 ∷ 0 ∷ 11 ∷ 16 ∷ 1 ∷ 15 ∷ 0 ∷ 6 ∷ 66 ∷ 7 ∷ 7 ∷ 67 ∷ 2 ∷ 2 ∷ [];
  channel = 1;
  state = data_transfer (record {
    modulo = normal;
    send_window = record { start = 0; size = 2; modulo = normal; current = 0 };
    recv_seq = 0;
  });
  params = params;
  send_data_queue = [];
  recv_data_queue = [];
}

abbrev offered : VcInner Buf
offered = record circuit { send_link = []; state = called request }

is_offered :
    Step {Link = Buf} (λ link frame. (true, link ++ frame)) (new_circuit [] 1 params) offered
unfolding new_circuit handle_in_packet negotiate_called_params set_window_size get_window_size
    set_packet_size get_packet_size
is_offered = handled 0 (some (call_request request)) 5 5 refl

is_accepted : Step {Link = Buf} (λ link frame. (true, link ++ frame)) offered circuit
unfolding accept xotpad.Vc.Client.accept_in xotpad.Vc.Client.send_or_fail
    xotpad.Vc.Engine.send_packet xotpad.Vc.Engine.write_frame xotpad.Packet.Call.put_user_data
    xotpad.X121.is_null xotpad.X121.digits_of xotpad.X121.len Xot.put_u16 Xot.u16_try_from
    create_call_accept start_data_transfer frame_of new Packet.encode encode_call_accept
    encode_call_blocks encode_packet_header encode_addr_block digits put_pairs
    encode_facilities_block encode_facilities encode_loop encode_params encode_packet_size get_code
    check_window_size Xot.encode
is_accepted = accepting (ok tt) refl

Reachable-IsValid_example : IsValid circuit
Reachable-IsValid_example =
    Reachable-IsValid (λ link frame. (true, link ++ frame)) [] 1 params
      (next (next initially is_offered) is_accepted)

circuit_valid : IsValid circuit
circuit_valid =
    Reachable-IsValid (λ link frame. (true, link ++ frame)) [] 1 params
      (next (next initially is_offered) is_accepted)

send-Sends_example :
    Sends
      (λ link frame. (true, link ++ frame))
      circuit
      circuit.state
      circuit_valid
      (7 ∷ [])
      false
      (send (λ link frame. (true, link ++ frame)) (7 ∷ []) false circuit)
send-Sends_example =
    send-Sends (λ link frame. (true, link ++ frame)) circuit (7 ∷ []) false circuit_valid
      (omega arith)

-- ===== src/Tests/RunWitnesses.antt =====
-- The theorem about the loop of a circuit at concrete inputs.
use xotpad.Base.{ℕ, ◌≡◌, refl, true, List, [], ◌∷◌, ◌++◌, Buf}
use xotpad.Seq.{normal}
use xotpad.X121.{null}
use xotpad.Packet as Packet
use xotpad.Packet.Flow.{encode_receive_ready, encode_flow_as}
use xotpad.Packet.Header.{encode_packet_header}
use xotpad.Xot as Xot
use xotpad.Packet.{X25Packet, receive_ready}
use xotpad.Vc.Params.{X25Params}
use xotpad.Vc.Client.{new_circuit}
use xotpad.Vc.Run.{read_loop, run_turns}
use xotpad.Vc.Run.Wire.{sent_bytes, handle_each, run_turns-sent_bytes}
use xotpad.Xot.Stream.{chunks}

abbrev params : X25Params
params = record {
  addr = null;
  modulo = normal;
  send_packet_size = 128;
  send_window_size = 2;
  recv_packet_size = 128;
  recv_window_size = 2;
  t21 = 5;
  t22 = 5;
  t23 = 5;
}

abbrev packets : List X25Packet
packets =
    receive_ready (record { modulo = normal; channel = 1; recv_seq = 0 })
    ∷ receive_ready (record { modulo = normal; channel = 1; recv_seq = 1 })
    ∷ []

-- Their frames, in three pieces.
abbrev reads : List (ℕ × Buf)
reads = (0, 0 ∷ []) ∷ (0, 3 ∷ 16 ∷ 1 ∷ 1 ∷ 0 ∷ []) ∷ (0, 0 ∷ 3 ∷ 16 ∷ 1 ∷ 33 ∷ []) ∷ []

run_turns-sent_bytes_example :
    run_turns {Link = Buf}
      (λ link frame. (true, link ++ frame))
      0
      (read_loop 3 (chunks reads) [])
      (new_circuit [] 1 params)
    ≡ handle_each (λ link frame. (true, link ++ frame)) 0 packets (new_circuit [] 1 params)
unfolding sent_bytes Packet.encode encode_receive_ready encode_flow_as encode_packet_header
    Xot.encode Xot.u16_try_from Xot.put_u16
run_turns-sent_bytes_example =
    run_turns-sent_bytes (λ link frame. (true, link ++ frame)) 0 packets reads
      (new_circuit [] 1 params) (tt, (tt, tt)) refl

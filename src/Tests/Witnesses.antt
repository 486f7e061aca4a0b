-- ===== src/Tests/Witnesses.antt =====
-- The theorems at concrete inputs.
use xotpad.Base.{
  ℕ, ◌+◌, ◌≤◌, ◌≡◌, arith, refl, Bool, true, false, List, [], ◌∷◌, ◌++◌, length, Buf, some, ok,
  Returns, All, IsByte,
}
use xotpad.Seq.{X25Modulo, normal, extended, as_u8, Window, is_open, incr, update_start}
use xotpad.Seq.Counters.{Represents}
use xotpad.X121.{X121Addr, null, from_digits}
use xotpad.X121.Digits.{IsValid}
use xotpad.Facility.{
  X25Facility, packet_size, window_size, encode_facilities, decode_facilities, encode_loop,
  encode_params, encode_packet_size, get_code, decode_loop, decode_facility, decode_packet_size,
  check_window_size,
}
use xotpad.Facility.RoundTrip.{wire_all, decode_facilities-encode}
use xotpad.Facility.Sound.{encode_facilities-decode}
use xotpad.Packet.{call_request, encode, decode}
use xotpad.Packet.Header.{max_packet_len, encode_packet_header}
use xotpad.Packet.Blocks.{encode_addr_block, put_pairs, encode_facilities_block}
use xotpad.Packet.Call.{X25CallRequest, encode_call_request, put_user_data}
use xotpad.Packet.RoundTrip as RoundTrip
use xotpad.Packet.Total.{IsDecoded, decode-Returns}
use xotpad.Xot as Xot
use xotpad.Xot.Frame.{frame}
use xotpad.Xot.Stream.{chunks, IsReceived, recv-frame}
use xotpad.Packet.Flow.{X25ReceiveReady}
use xotpad.Packet.{receive_ready}
use xotpad.Vc.Engine.{update_send_window}
use xotpad.Vc.Handle.{handle_in_packet}
use xotpad.Vc.Engine.Written.{packet_of}
use xotpad.Vc.Handle.Draining.{Drained, handle_all, handle_all-drains}
use xotpad.Vc.Handle.Acknowledging.{handle_in_packet-receive_ready}
use xotpad.Packet.Data.{X25Data}
use xotpad.Packet.{data_packet}
use xotpad.Vc.Handle.Receiving.{after_data, Acknowledges, ready_of, handle_in_packet-data_packet}
use xotpad.Vc.Params.{X25Params}
use xotpad.Vc.Params.Agreement.{Agree, called, calling_back, IsNew, negotiate-Agree, negotiate-new}
use xotpad.Vc.Queue.{SendData, queue_send_data, pop_complete_data}
use xotpad.Vc.Queue.Reassembly.{Carries, pop_complete_data-queue_send_data}
use xotpad.Vc.Engine.{DataTransferState, data_transfer, VcInner, send_queued_data}
use xotpad.Vc.Engine.Sending.{IsSent, send_queued_data-IsSent}

abbrev addr : X121Addr
addr = record { addr = 49 ∷ 50 ∷ 51 ∷ [] }

abbrev facilities : List X25Facility
facilities = packet_size 128 256 ∷ window_size 2 3 ∷ []

abbrev call : X25CallRequest
call = record {
  modulo = normal;
  channel = 1;
  called_addr = addr;
  calling_addr = null;
  facilities = facilities;
  call_user_data = 1 ∷ 0 ∷ 0 ∷ 0 ∷ [];
}

abbrev call_bytes : Buf
call_bytes =
    0x10 ∷ 1 ∷ 0x0b ∷ 0x03 ∷ 0x12 ∷ 0x30 ∷ 6 ∷ 0x42 ∷ 7 ∷ 8 ∷ 0x43 ∷ 2 ∷ 3 ∷ 1 ∷ 0 ∷ 0 ∷ 0 ∷ []

call_encoded : encode (call_request call) [] ≡ ok (17, call_bytes)
unfolding encode encode_call_request encode_packet_header encode_addr_block put_pairs
    encode_facilities_block encode_facilities encode_loop encode_params encode_packet_size get_code
    put_user_data check_window_size xotpad.X121.digits xotpad.X121.digits_of xotpad.X121.to_digit
    xotpad.X121.len
call_encoded = refl

addr_valid : IsValid addr
addr_valid = record { short = omega arith; ascii = refl }

null_valid : IsValid null
null_valid = record { short = omega arith; ascii = refl }

abbrev facility_bytes : Buf
facility_bytes = 0x42 ∷ 7 ∷ 8 ∷ 0x43 ∷ 2 ∷ 3 ∷ []

facilities_encoded : encode_facilities facilities (9 ∷ []) ≡ ok (6, 9 ∷ facility_bytes)
unfolding encode_facilities encode_loop encode_params encode_packet_size get_code check_window_size
facilities_encoded = refl

facilities_decoded : decode_facilities facility_bytes ≡ ok facilities
unfolding decode_facilities decode_loop decode_facility decode_packet_size check_window_size
facilities_decoded = refl

decode-encode_example :
    (17 ≡ length call_bytes)
    × (3 ≤ 17)
    × (17 ≤ max_packet_len → decode call_bytes ≡ ok (call_request call))
decode-encode_example =
    RoundTrip.decode-encode (call_request call)
      (record { called = addr_valid; calling = null_valid; formed = (tt, (tt, tt)) }) call_encoded

decode-Returns_example : Returns IsDecoded (decode (0x10 ∷ 1 ∷ 0x0b ∷ 0xff ∷ 0 ∷ []))
decode-Returns_example =
    decode-Returns (0x10 ∷ 1 ∷ 0x0b ∷ 0xff ∷ 0 ∷ [])
      (omega arith, (omega arith, (omega arith, (omega arith, (omega arith, tt)))))

-- The frame is cut in the middle of its header, and a byte of the next is behind it.
recv-frame_example :
    IsReceived
      (0x10 ∷ 1 ∷ 0xe5 ∷ [])
      (0 ∷ [])
      (Xot.recv (chunks ((0, 3 ∷ 0x10 ∷ 1 ∷ []) ∷ (0xe5, 0 ∷ []) ∷ [])) (0 ∷ 0 ∷ []))
recv-frame_example =
    recv-frame (0x10 ∷ 1 ∷ 0xe5 ∷ []) (0 ∷ []) ((0, 3 ∷ 0x10 ∷ 1 ∷ []) ∷ (0xe5, 0 ∷ []) ∷ [])
      (0 ∷ 0 ∷ []) (omega arith, omega arith) refl

abbrev params : X25Params
params = record {
  addr = addr;
  modulo = normal;
  send_packet_size = 128;
  send_window_size = 2;
  recv_packet_size = 256;
  recv_window_size = 9;
  t21 = 200;
  t22 = 180;
  t23 = 180;
}

abbrev other_params : X25Params
other_params = record params { modulo = extended; send_window_size = 50; recv_window_size = 60 }

negotiate-Agree_example :
    Agree (calling_back 1 addr [] params other_params) (called 1 addr [] params other_params)
negotiate-Agree_example = negotiate-Agree 1 addr [] params other_params

negotiate-new_example :
    IsNew 2 (
      xotpad.Seq.new
        (calling_back 1 addr [] params other_params).send_window_size
        (calling_back 1 addr [] params other_params).modulo)
    × IsNew 7 (
        xotpad.Seq.new
          (called 1 addr [] params other_params).send_window_size
          (called 1 addr [] params other_params).modulo)
negotiate-new_example = negotiate-new 1 addr [] params other_params (omega arith) (omega arith)

pop_complete_data-queue_send_data_example :
    (sent : List SendData) × (queue_send_data 2 (1 ∷ 2 ∷ 3 ∷ []) true [] ≡ ok ([] ++ sent))
    × (All (λ s. length s.user_data ≤ 2) sent)
    × ((received later : List _)
        → Carries sent received
        → pop_complete_data (received ++ later) ≡ (some (1 ∷ 2 ∷ 3 ∷ [], true), later))
pop_complete_data-queue_send_data_example =
    pop_complete_data-queue_send_data 2 (1 ∷ 2 ∷ 3 ∷ []) true [] (omega arith) (λ e. cc)

-- Nine packets were sent and eight acknowledged.
abbrev window : Window
window = record { start = 0; size = 2; modulo = normal; current = 1 }

window_lem : Represents window 8 9
window_lem = record {
  start = refl;
  current = refl;
  positive = omega arith;
  narrow = omega arith;
  ordered = omega arith;
  bounded = omega arith;
}

abbrev transfer : DataTransferState
transfer = record { modulo = normal; send_window = window; recv_seq = 3 }

abbrev two_packets : List SendData
two_packets =
    record { user_data = 1 ∷ []; qualifier = false; more = true }
    ∷ record { user_data = 2 ∷ []; qualifier = false; more = false }
    ∷ []

-- The link is the number of frames that were written to it.
abbrev circuit : VcInner ℕ
circuit = record {
  send_link = 0;
  channel = 1;
  state = data_transfer transfer;
  params = params;
  send_data_queue = two_packets;
  recv_data_queue = [];
}

abbrev count_frames : ℕ → Buf → Bool × ℕ
count_frames written frame = (true, written + 1)

send_queued_data-IsSent_example :
    (n : ℕ) × (vc' : VcInner ℕ) × (send_queued_data count_frames circuit ≡ ok (n, vc'))
    × IsSent count_frames 8 9 n two_packets transfer circuit vc'
send_queued_data-IsSent_example =
    send_queued_data-IsSent count_frames circuit transfer 8 9 refl window_lem

decode_facilities-encode_example :
    (9 ∷ facility_bytes ≡ (9 ∷ []) ++ wire_all facilities)
    × (6 ≡ length (wire_all facilities))
    × (decode_facilities (wire_all facilities) ≡ ok facilities)
decode_facilities-encode_example =
    decode_facilities-encode facilities (9 ∷ []) (tt, (tt, tt)) facilities_encoded

facility_bytes_lem : All IsByte facility_bytes
facility_bytes_lem =
    (omega arith, (omega arith, (omega arith, (omega arith, (omega arith, (omega arith, tt))))))

encode_facilities-decode_example : encode_facilities facilities [] ≡ ok (6, facility_bytes)
encode_facilities-decode_example =
    encode_facilities-decode facility_bytes facility_bytes_lem facilities_decoded

abbrev ready_for_one : X25ReceiveReady
ready_for_one = record { modulo = normal; channel = 1; recv_seq = 1 }

handle_in_packet-receive_ready_example :
    (n : ℕ) × (vc' : VcInner ℕ) × (handle_in_packet count_frames 7
        (some (receive_ready ready_for_one))
        100
        circuit
      ≡ ok (vc', 100))
    × IsSent count_frames 9 9 n two_packets (update_send_window transfer 1).0 circuit vc'
handle_in_packet-receive_ready_example =
    handle_in_packet-receive_ready count_frames circuit transfer 8 9 9 7 100 ready_for_one refl
      window_lem (omega arith) (omega arith) refl

handle_all-drains_example :
    (ps : List X25ReceiveReady) × (ds : List SendData) × (vc' : VcInner ℕ) × (length ps ≤ 2)
    × (handle_all count_frames 7 ps circuit ≡ ok vc')
    × Drained count_frames (packet_of circuit transfer) 9 ds circuit vc'
handle_all-drains_example = handle_all-drains count_frames 7 circuit transfer 8 9 refl window_lem

abbrev third : X25Data
third = record {
  modulo = normal;
  channel = 1;
  send_seq = 3;
  recv_seq = 1;
  qualifier = false;
  delivery = false;
  more = false;
  user_data = 65 ∷ [];
}

handle_in_packet-data_packet_example :
    (n : ℕ) × (vc1 vc' : VcInner ℕ) × (handle_in_packet count_frames 7
        (some (data_packet third))
        100
        circuit
      ≡ ok (vc', 100))
    × (vc'.recv_data_queue ≡ third ∷ [])
    × IsSent count_frames 9 9 n two_packets
        (after_data transfer 3 1)
        (record circuit { recv_data_queue = third ∷ [] })
        vc1
    × Acknowledges count_frames (ready_of count_frames circuit (after_data transfer 3 1)) n vc1 vc'
handle_in_packet-data_packet_example =
    handle_in_packet-data_packet count_frames circuit transfer 8 9 9 7 100 third refl window_lem
      (omega arith) (omega arith) refl refl

-- ===== src/Tests/Runs.antt =====
-- Runs of the definitions at fixed inputs, most of them from the unit tests of the source.
use xotpad.Base.{
  ◌≡◌, refl, [], ◌∷◌, none, some, ok, err, panic, packet_too_short, facilities_not_unique,
}
use xotpad.Seq.{normal, extended, new}
use xotpad.Facility.{
  packet_size, encode_facilities, encode_loop, encode_params, encode_packet_size, get_code,
}
use xotpad.Packet.{decode, decode_as, receive_ready}
use xotpad.Packet.Header.{decode_packet_header}
use xotpad.Packet.Flow.{decode_receive_ready, decode_flow, decode_flow_as, index}
use xotpad.Packet.Call.{X25CallRequest, check_len}
use xotpad.Packet.Clear.{check_gfi}
use xotpad.X121.{null}
use xotpad.Vc.Params.{
  X25Params, negotiate_called_params, get_packet_size, get_window_size, set_packet_size,
  set_window_size,
}
use xotpad.Xot as Xot

-- A frame with one byte of the next behind it.
xot-decode-rest :
    Xot.decode (0 ∷ 0 ∷ 0 ∷ 3 ∷ 0x10 ∷ 1 ∷ 0xe5 ∷ 0 ∷ []) ≡ ok (some (0x10 ∷ 1 ∷ 0xe5 ∷ []), 0 ∷ [])
unfolding Xot.decode Xot.from_be_bytes
xot-decode-rest = refl

xot-decode-header : Xot.decode (0 ∷ 0 ∷ 0 ∷ []) ≡ ok (none, 0 ∷ 0 ∷ 0 ∷ [])
unfolding Xot.decode
xot-decode-header = refl

xot-encode-short : Xot.encode (0 ∷ 1 ∷ []) [] ≡ err (packet_too_short 2)
unfolding Xot.encode
xot-encode-short = refl

decode-receive_ready :
    decode (0x10 ∷ 1 ∷ 0xe1 ∷ [])
    ≡ ok (receive_ready (record { modulo = normal; channel = 1; recv_seq = 7 }))
unfolding decode decode_as decode_packet_header decode_receive_ready decode_flow decode_flow_as
    index check_len check_gfi
decode-receive_ready = refl

facilities-twice :
    encode_facilities (packet_size 128 128 ∷ packet_size 256 256 ∷ []) []
    ≡ err facilities_not_unique
unfolding encode_facilities encode_loop encode_params encode_packet_size get_code
facilities-twice = refl

abbrev wide : X25Params
wide = record {
  addr = null;
  modulo = extended;
  send_packet_size = 128;
  send_window_size = 50;
  recv_packet_size = 128;
  recv_window_size = 50;
  t21 = 200;
  t22 = 180;
  t23 = 180;
}

abbrev narrow_call : X25CallRequest
narrow_call = record {
  modulo = normal;
  channel = 1;
  called_addr = null;
  calling_addr = null;
  facilities = [];
  call_user_data = [];
}

-- A call modulo 8 without a window size facility, at a party configured for modulo 128 with a
-- window of 50: the negotiated parameters make no window.
negotiate-panic :
    new
      (negotiate_called_params narrow_call wide).send_window_size
      (negotiate_called_params narrow_call wide).modulo
    ≡ panic
unfolding new negotiate_called_params get_packet_size get_window_size set_packet_size
    set_window_size
negotiate-panic = refl

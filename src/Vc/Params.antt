-- ===== src/Vc/Params.antt =====
-- The parameters of a virtual circuit and their negotiation: libxotpad/src/x25/params.rs and the
-- functions at the end of vc.rs.
pub mod Agreement
use xotpad.Base.{ℕ, ◌-◌, min, List, [], ◌∷◌, Buf, Option, none, some}
use xotpad.Seq.{X25Modulo, as_u8}
use xotpad.X121.{X121Addr, null}
use xotpad.Facility.{X25Facility, packet_size, window_size}
use xotpad.Packet.Call.{X25CallRequest, X25CallAccept}

pub record X25Params : Type 0 where
  pub addr : X121Addr
  pub modulo : X25Modulo
  pub send_packet_size : ℕ
  pub send_window_size : ℕ
  pub recv_packet_size : ℕ
  pub recv_window_size : ℕ
  pub t21 : ℕ
  pub t22 : ℕ
  pub t23 : ℕ

unfoldable pub create_call_request : ℕ → X121Addr → Buf → X25Params → X25CallRequest
create_call_request channel addr call_user_data params = record {
  modulo = params.modulo;
  channel = channel;
  called_addr = addr;
  calling_addr = params.addr;
  facilities =
      packet_size params.recv_packet_size params.send_packet_size
      ∷ window_size params.recv_window_size params.send_window_size
      ∷ [];
  call_user_data = call_user_data;
}

unfoldable pub create_call_accept : ℕ → X25Params → X25CallAccept
create_call_accept channel params = record {
  modulo = params.modulo;
  channel = channel;
  called_addr = null;
  calling_addr = null;
  facilities =
      packet_size params.send_packet_size params.recv_packet_size
      ∷ window_size params.send_window_size params.recv_window_size
      ∷ [];
  called_user_data = [];
}

unfoldable pub get_packet_size : List X25Facility → Option (ℕ × ℕ)
get_packet_size [] = none
get_packet_size (packet_size from_called from_calling ∷ facilities) =
    some (from_called, from_calling)
get_packet_size (_ ∷ facilities) = get_packet_size facilities

unfoldable pub get_window_size : List X25Facility → Option (ℕ × ℕ)
get_window_size [] = none
get_window_size (window_size from_called from_calling ∷ facilities) =
    some (from_called, from_calling)
get_window_size (_ ∷ facilities) = get_window_size facilities

unfoldable pub clamp_window_size : ℕ → X25Modulo → ℕ
clamp_window_size size modulo = min size (as_u8 modulo - 1)

-- The two `if let` of both negotiations: the first of each pair is for sending, the second for
-- receiving.
unfoldable pub set_packet_size : Option (ℕ × ℕ) → X25Params → X25Params
set_packet_size none params = params
set_packet_size (some (send, recv)) params = record params {
  send_packet_size = send;
  recv_packet_size = recv;
}

unfoldable pub set_window_size : Option (ℕ × ℕ) → X25Params → X25Params
set_window_size none params = params
set_window_size (some (send, recv)) params = record params {
  send_window_size = clamp_window_size send params.modulo;
  recv_window_size = clamp_window_size recv params.modulo;
}

unfoldable pub swap : Option (ℕ × ℕ) → Option (ℕ × ℕ)
swap none = none
swap (some (a, b)) = some (b, a)

-- The calling party sends what is "from calling".
unfoldable pub negotiate_calling_params : X25CallAccept → X25Params → X25Params
negotiate_calling_params call_accept params =
    set_window_size (swap (get_window_size call_accept.facilities)) (
      set_packet_size (swap (get_packet_size call_accept.facilities))
        (record params { modulo = call_accept.modulo }))

unfoldable pub negotiate_called_params : X25CallRequest → X25Params → X25Params
negotiate_called_params call_request params =
    set_window_size (get_window_size call_request.facilities) (
      set_packet_size (get_packet_size call_request.facilities)
        (record params { modulo = call_request.modulo }))

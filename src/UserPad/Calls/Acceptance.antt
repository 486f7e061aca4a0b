-- ===== src/UserPad/Calls/Acceptance.antt =====
-- Which calls are accepted, and that those of this program's PADs are.
use xotpad.Base.{
  ◌≤◌, ◌≡◌, arith, refl, ◌∙◌, Bool, true, not, ◌||◌, ◌++◌, length, ltb-false, take, if◌then◌else◌,
  Buf, none, some, ok,
}
use xotpad.X121.{X121Addr, is_null, starts_with}
use xotpad.Packet.Call.{X25CallRequest}
use xotpad.Vc.Params.{X25Params, create_call_request}
use xotpad.X29.{
  with_call_data, is_pad_protocol, encode_call_user_data, decode_call_user_data, pad_protocol,
  buf_eq,
}
use xotpad.X3.PadParams.{PadParams}
use xotpad.Pad.{Pad, new}
use xotpad.UserPad.Calls.{pad_call, refusal_of, should_accept_call}

-- The address is accepted: the local address is null or begins the called one.
abbrev pub is_local : X25CallRequest → X25Params → Bool
is_local request params = is_null params.addr || starts_with request.called_addr params.addr

-- Whether an incoming call is accepted is always decided. It is exactly if the local address is null or
-- begins the called address, and the call user data begin with the four bytes of the PAD protocol; the
-- refusal is for the address whenever that one does not fit.
pub should_accept_call-decides :
    (request : X25CallRequest) (params : X25Params)
    → should_accept_call request params
      ≡ ok (
          if not (is_local request params)
          then some (13, 67)
          else if buf_eq (take 4 request.call_user_data) pad_protocol
          then none
          else some (13, 64))
unfolding should_accept_call refusal_of decode_call_user_data is_pad_protocol buf_eq
should_accept_call-decides request params = ground (arith)

-- A call that a PAD of this program makes is one that it accepts: for call data of at most twelve bytes,
-- when the circuit's call request is sent as it is, a listener accepts it whose own address is null or
-- begins the called address.
pub should_accept_call-pad_call :
    {Q : Type 0} (addr : X121Addr) (call_data : Buf) (caller listener : X25Params)
    (pad_params : PadParams Q)
    → length call_data ≤ 12
    → is_null listener.addr || starts_with addr listener.addr ≡ true
    → (pad : Pad X25CallRequest Q) × (pad_call {Link = Unit {0}}
          (λ _ channel to user_data params. ok (create_call_request channel to user_data params))
          tt
          1
          addr
          call_data
          caller
          pad_params
          true
        ≡ ok pad)
      × (should_accept_call pad.svc listener ≡ ok none)
unfolding pad_call with_call_data encode_call_user_data create_call_request new buf_eq
should_accept_call-pad_call addr call_data caller listener pad_params short fits = (
  new (create_call_request 1 addr (pad_protocol ++ call_data) caller) pad_params true,
  rw (ltb-false 12 (length call_data) short) refl,
  should_accept_call-decides (create_call_request 1 addr (pad_protocol ++ call_data) caller)
        listener
      ∙ rw fits refl,
)

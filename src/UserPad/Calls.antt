-- ===== src/UserPad/Calls.antt =====
-- Calls that the user makes, and which incoming calls are accepted: src/user_pad.rs, with `Pad::call` of
-- libxotpad/src/pad.rs.
pub mod Acceptance
use xotpad.Base.{
  ℕ, Bool, true, false, not, ◌&&◌, List, [], ◌∷◌, is_empty, if◌then◌else◌, Buf, Option, none, some,
  Result, ok, err, panic, stuck, ◌>>=◌,
}
use xotpad.X121.{X121Addr, is_null, starts_with}
use xotpad.Packet.Call.{X25CallRequest}
use xotpad.Vc.Params.{X25Params}
use xotpad.X29.{
  X29CallUserData, with_call_data, is_pad_protocol, encode_call_user_data, decode_call_user_data,
}
use xotpad.X3.PadParams.{PadParams}
use xotpad.X28.Selection.{X28Addr, full, abbreviated, X28Selection}
use xotpad.Pad.{Pad, new}

module _ {Link S : Type 0} where
  -- `Pad::call`; `svc_call` is `Svc::call`, with the link, the channel, the address, the call user data
  -- and the parameters.
  unfoldable pub pad_call :
      {Q : Type 0}
      → (Link → ℕ → X121Addr → Buf → X25Params → Result S)
      → Link
      → ℕ
      → X121Addr
      → Buf
      → X25Params
      → PadParams Q
      → Bool
      → Result (Pad S Q)
  unfolding with_call_data encode_call_user_data new
  pad_call svc_call link channel addr call_data x25_params pad_params suppress = do
    call_user_data ← with_call_data call_data
    svc ← svc_call link channel addr (encode_call_user_data call_user_data []).1 x25_params
    ok (new svc pad_params suppress)

  -- The only address is dialled, where `connect` is `xot::connect`. An empty list fails an `assert!`;
  -- several addresses, an abbreviated one and facilities are a `todo!`.
  unfoldable pub call_addrs :
      {Q : Type 0}
      → (X121Addr → Result Link)
      → (Link → ℕ → X121Addr → Buf → X25Params → Result S)
      → List X28Addr
      → List (ℕ × Buf)
      → Buf
      → PadParams Q
      → X25Params
      → Result (Pad S Q × X25Params)
  unfolding pad_call
  call_addrs connect svc_call (full addr ∷ []) [] call_data x3_params x25_params = do
    xot_link ← connect addr
    pad ← pad_call svc_call xot_link 1 addr call_data x25_params x3_params true
    ok (pad, x25_params)
  call_addrs connect svc_call _ _ call_data x3_params x25_params = panic

  unfoldable pub call :
      {Q : Type 0}
      → (X121Addr → Result Link)
      → (Link → ℕ → X121Addr → Buf → X25Params → Result S)
      → X28Selection
      → PadParams Q
      → X25Params
      → Result (Pad S Q × X25Params)
  unfolding call_addrs
  call connect svc_call selection x3_params x25_params =
      call_addrs connect svc_call selection.addrs selection.facilities selection.call_user_data
        x3_params x25_params

-- The call user data of an incoming call.
unfoldable pub refusal_of : Result X29CallUserData → Result (Option (ℕ × ℕ))
unfolding is_pad_protocol
refusal_of (ok d) = ok (if is_pad_protocol d then none else some (13, 64))
refusal_of (err _) = ok (some (13, 64))
refusal_of panic = panic
refusal_of stuck = stuck

-- The cause and the diagnostic with which a call is refused.
unfoldable pub should_accept_call : X25CallRequest → X25Params → Result (Option (ℕ × ℕ))
unfolding refusal_of is_null starts_with decode_call_user_data
should_accept_call call_request params =
    if not (is_null params.addr) && not (starts_with call_request.called_addr params.addr)
    then ok (some (13, 67))
    else refusal_of (decode_call_user_data call_request.call_user_data)

-- ===== src/Vc/Params/Agreement.antt =====
-- What the two parties of a call have agreed on after the call request and the call accept.
use xotpad.Base.{ℕ, ◌-◌, ◌≤◌, ◌≡◌, arith, refl, min, Buf, ok, Result}
use xotpad.Seq.{X25Modulo, normal, extended, as_u8, Window, new}
use xotpad.X121.{X121Addr}
use xotpad.Vc.Params.{
  X25Params, create_call_request, create_call_accept, get_packet_size, get_window_size,
  clamp_window_size, set_packet_size, set_window_size, swap, negotiate_calling_params,
  negotiate_called_params,
}

-- What one party sends with is what the other receives with.
pub record Agree (p q : X25Params) : Type 0 where
  pub modulo : p.modulo ≡ q.modulo
  pub packets : p.send_packet_size ≡ q.recv_packet_size
  pub packets_back : p.recv_packet_size ≡ q.send_packet_size
  pub windows : p.send_window_size ≡ q.recv_window_size
  pub windows_back : p.recv_window_size ≡ q.send_window_size

clamp_idem :
    (n : ℕ) (m : X25Modulo) → clamp_window_size (clamp_window_size n m) m ≡ clamp_window_size n m
unfolding clamp_window_size
clamp_idem n m = omega arith

-- The called party's parameters after the call request of the calling party.
abbrev pub called : ℕ → X121Addr → Buf → X25Params → X25Params → X25Params
called channel addr user_data calling own =
    negotiate_called_params (create_call_request channel addr user_data calling) own

-- The calling party's parameters after the called party's answer.
abbrev pub calling_back : ℕ → X121Addr → Buf → X25Params → X25Params → X25Params
calling_back channel addr user_data calling own =
    negotiate_calling_params
      (create_call_accept channel (called channel addr user_data calling own)) calling

-- Once a call was requested and accepted, both parties count modulo the same number, and the
-- packet size and the window with which either sends are those with which the other receives,
-- whatever the two were configured with.
pub negotiate-Agree :
    (channel : ℕ) (addr : X121Addr) (user_data : Buf) (calling own : X25Params)
    → Agree
        (calling_back channel addr user_data calling own)
        (called channel addr user_data calling own)
unfolding negotiate_called_params negotiate_calling_params create_call_request create_call_accept
    get_packet_size get_window_size set_packet_size set_window_size swap
negotiate-Agree channel addr user_data calling own = record {
  modulo = refl;
  packets = refl;
  packets_back = refl;
  windows = clamp_idem calling.send_window_size calling.modulo;
  windows_back = clamp_idem calling.recv_window_size calling.modulo;
}

-- `Window::new` returns a window of this size.
abbrev pub IsNew : ℕ → Result Window → Type 0
IsNew size r = (w : Window) × (r ≡ ok w) × (w.size ≡ size)

new-IsNew : (n size : ℕ) (m : X25Modulo) → 1 ≤ n → n ≤ as_u8 m - 1 → n ≡ size → IsNew size (new n m)
unfolding new
new-IsNew n size normal lo hi e =
    (record { start = 0; size = n; modulo = normal; current = 0 }, ground arith, e)
new-IsNew n size extended lo hi e =
    (record { start = 0; size = n; modulo = extended; current = 0 }, ground arith, e)

module _ (channel : ℕ) (addr : X121Addr) (user_data : Buf) (calling own : X25Params)
    (send : 1 ≤ calling.send_window_size) (recv : 1 ≤ calling.recv_window_size) where
  as_u8_pos : (m : X25Modulo) → 8 ≤ as_u8 m
  as_u8_pos normal = omega arith
  as_u8_pos extended = omega arith

  -- Whenever both windows that the calling party asks for are open, the window that the calling
  -- party makes for sending once the call is accepted, and the one that the called party makes,
  -- pass the assertion of `Window::new`, and have the sizes asked for, up to one less than the
  -- modulus of the call.
  pub negotiate-new :
      IsNew (min calling.send_window_size (as_u8 calling.modulo - 1)) (
        new
          (calling_back channel addr user_data calling own).send_window_size
          (calling_back channel addr user_data calling own).modulo)
      × IsNew (min calling.recv_window_size (as_u8 calling.modulo - 1)) (
          new
            (called channel addr user_data calling own).send_window_size
            (called channel addr user_data calling own).modulo)
  unfolding negotiate_called_params negotiate_calling_params create_call_request create_call_accept
      get_packet_size get_window_size set_packet_size set_window_size swap clamp_window_size
  negotiate-new = (
    new-IsNew _ _ calling.modulo (omega (arith, send, as_u8_pos calling.modulo)) (omega arith)
        (omega arith),
    new-IsNew _ _ calling.modulo (omega (arith, recv, as_u8_pos calling.modulo)) (omega arith)
        (omega arith),
  )

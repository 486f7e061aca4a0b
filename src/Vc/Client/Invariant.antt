-- ===== src/Vc/Client/Invariant.antt =====
-- The steps of a virtual circuit, by its engine and by its client, and what holds in every state that
-- they reach.
pub mod Steps
use xotpad.Base.{
  ℕ, ◌+◌, ◌%◌, ◌≤◌, ◌<◌, ◌≡◌, ◌==◌, arith, refl, ap, sym, subst, ◌∙◌, not, ltb, ◌&&◌, Bool, true,
  false, List, [], ◌∷◌, if◌then◌else◌, Buf, Option, none, some, Result, ok, err, panic, stuck,
  ◌>>=◌, Ensures, holds, raised, panicked, starved, Ensures-bind, Ensures-if, Ensures-intro,
  Ensures-weaken, Bool-cases, inl, inr,
}
use xotpad.Seq.{
  X25Modulo, normal, extended, as_u8, Window, new, is_open, incr, next_seq, update_start,
}
use xotpad.Seq.Counters.{Represents, new-Represents, acknowledged, update_start_sound}
use xotpad.Packet.{X25Packet, data_packet}
use xotpad.Vc.Params.{X25Params}
use xotpad.Vc.Queue.{SendData}
use xotpad.Vc.Engine.{
  DataTransferState, VcState, data_transfer, out_of_order, VcInner, change_state,
  start_data_transfer, data_of, frame_of, write_frame, send_packet, send_then, send_loop,
  send_queued_in, send_queued_data, update_recv_seq, update_send_window,
}
use xotpad.Vc.Engine.Sending.{incr-open}

-- In data transfer the window stands for counters of packets acknowledged and sent, and the window
-- and both sequence numbers are of the modulus that was negotiated.
pub record IsInStep (params : X25Params) (s : DataTransferState) : Type 0 where
  pub acked : ℕ
  pub sent : ℕ
  pub window : Represents s.send_window acked sent
  pub expected : s.recv_seq < as_u8 params.modulo
  pub modulo : s.modulo ≡ params.modulo
  pub window_modulo : s.send_window.modulo ≡ params.modulo

first_number : (modulo : X25Modulo) → 0 < as_u8 modulo
first_number normal = omega arith
first_number extended = omega arith

new-modulo :
    (size : ℕ) (modulo : X25Modulo) {w : Window} → new size modulo ≡ ok w → w.modulo ≡ modulo
unfolding new
new-modulo size modulo h = ground arith

abbrev pub IsValidIn : X25Params → VcState → Type 0
IsValidIn params (data_transfer s) = IsInStep params s
IsValidIn params _ = Unit {0}

module _ {Link : Type 0} where
  abbrev pub IsValid : VcInner Link → Type 0
  IsValid vc = IsValidIn vc.params vc.state

  pub start_data_transfer-IsValid : (vc : VcInner Link) → Ensures IsValid (start_data_transfer vc)
  unfolding start_data_transfer
  start_data_transfer-IsValid vc =
      Ensures-bind (Ensures-intro (new vc.params.send_window_size vc.params.modulo) λ w e. e) λ w e.
        holds (record {
          acked = 0;
          sent = 0;
          window = new-Represents vc.params.send_window_size vc.params.modulo e;
          expected = first_number vc.params.modulo;
          modulo = refl;
          window_modulo = new-modulo vc.params.send_window_size vc.params.modulo e;
        })

next_number : (seq : ℕ) (modulo : X25Modulo) → next_seq seq modulo < as_u8 modulo
unfolding next_seq
next_number seq normal = omega arith
next_number seq extended = omega arith

incr-modulo : (w : Window) → (incr w).0.modulo ≡ w.modulo
unfolding incr
incr-modulo w = ground arith

update_start-modulo : (w : Window) (seq : ℕ) → (update_start w seq).0.modulo ≡ w.modulo
unfolding update_start
update_start-modulo w seq = ground arith

-- A packet in sequence, an acknowledgment and a packet that is sent keep the state in step.
pub update_recv_seq-IsInStep :
    (params : X25Params) (s : DataTransferState) (seq : ℕ)
    → IsInStep params s
    → IsInStep params (update_recv_seq s seq).0
unfolding update_recv_seq
update_recv_seq-IsInStep params s seq i = elim (Bool-cases (not (seq == s.recv_seq))) [
  | inl other ↦ rw other i
  | inr same ↦ rw same record {
    acked = i.acked;
    sent = i.sent;
    window = i.window;
    expected =
        subst (λ (m : X25Modulo). next_seq seq s.modulo < as_u8 m) i.modulo
          (next_number seq s.modulo);
    modulo = i.modulo;
    window_modulo = i.window_modulo;
  }
]

pub update_send_window-IsInStep :
    (params : X25Params) (s : DataTransferState) (seq : ℕ)
    → IsInStep params s
    → not (update_send_window s seq).1 ≡ false
    → IsInStep params (update_send_window s seq).0
unfolding update_send_window
update_send_window-IsInStep params s seq i h = record {
  acked = acknowledged s.send_window i.acked seq;
  sent = i.sent;
  window =
      let (_, _, _, w) =
        update_start_sound s.send_window i.acked i.sent seq i.window (ground arith) in
      w;
  expected = i.expected;
  modulo = i.modulo;
  window_modulo = update_start-modulo s.send_window seq ∙ i.window_modulo;
}

incr-IsInStep :
    (params : X25Params) (s : DataTransferState)
    → IsInStep params s
    → is_open s.send_window ≡ true
    → IsInStep params (record s { send_window = (incr s.send_window).0 })
incr-IsInStep params s i opened = record {
  acked = i.acked;
  sent = i.sent + 1;
  window = incr-open s.send_window i.acked i.sent i.window opened;
  expected = i.expected;
  modulo = i.modulo;
  window_modulo = incr-modulo s.send_window ∙ i.window_modulo;
}

module _ {Link : Type 0} (write_all : Link → Buf → Bool × Link) where
  write_frame-Ensures :
      (r : Result Buf) (vc : VcInner Link)
      → Ensures {A = Bool × VcInner Link}
          (λ (_, vc1). (link : Link) × (vc1 ≡ record vc { send_link = link }))
          (write_frame write_all r vc)
  unfolding write_frame
  write_frame-Ensures (ok frame) vc = holds ((write_all vc.send_link frame).1, refl)
  write_frame-Ensures (err e) vc = holds (vc.send_link, refl)
  write_frame-Ensures panic vc = panicked
  write_frame-Ensures stuck vc = starved

  -- Only the link changes.
  pub send_packet-Ensures :
      (packet : X25Packet) (vc : VcInner Link)
      → Ensures {A = Bool × VcInner Link}
          (λ (_, vc1). (link : Link) × (vc1 ≡ record vc { send_link = link }))
          (send_packet write_all packet vc)
  unfolding send_packet
  send_packet-Ensures packet vc = write_frame-Ensures (frame_of packet) vc

  pub send_then-IsValid :
      (packet : X25Packet) (next : VcInner Link → Result (VcInner Link)) (vc : VcInner Link)
      → ((link : Link) → Ensures IsValid (next (record vc { send_link = link })))
      → Ensures IsValid (send_then write_all packet next vc)
  unfolding send_then
  send_then-IsValid packet next vc k =
      Ensures-bind (send_packet-Ensures packet vc) λ (sent, vc1) (link, e).
        Ensures-if sent
          (λ _. subst (λ (vc2 : VcInner Link). Ensures IsValid (next vc2)) (sym e) (k link))
          λ _. holds tt

  send_loop-IsValid :
      (queue : List SendData) (s : DataTransferState) (count : ℕ) (vc : VcInner Link)
      → IsInStep vc.params s
      → Ensures (λ (_, vc1). IsValid vc1) (send_loop write_all queue s count vc)
  unfolding send_loop
  send_loop-IsValid [] s count vc i = holds i
  send_loop-IsValid (d ∷ queue) s count vc i =
      Ensures-if (is_open s.send_window)
        (λ opened.
          Ensures-bind (send_packet-Ensures (data_packet (data_of d s vc)) vc)
            λ (sent, vc1) (link, e).
              Ensures-if sent
                (λ _.
                  send_loop-IsValid queue (record s { send_window = (incr s.send_window).0 })
                    (count + 1) vc1
                    (subst
                      (λ (vc2 : VcInner Link).
                        IsInStep vc2.params (record s { send_window = (incr s.send_window).0 }))
                      (sym e) (incr-IsInStep vc.params s i opened)))
                λ _. holds tt)
        λ _. holds i

  send_queued_in-IsValid :
      (state : VcState) (vc : VcInner Link)
      → IsValidIn vc.params state
      → Ensures (λ (_, vc1). IsValid vc1) (send_queued_in write_all state vc)
  unfolding send_queued_in
  send_queued_in-IsValid (data_transfer s) vc i = send_loop-IsValid vc.send_data_queue s 0 vc i
  send_queued_in-IsValid _ vc i = panicked

  pub send_queued_data-IsValid :
      (vc : VcInner Link)
      → IsValid vc
      → Ensures (λ (_, vc1). IsValid vc1) (send_queued_data write_all vc)
  unfolding send_queued_data
  send_queued_data-IsValid vc i = send_queued_in-IsValid vc.state vc i

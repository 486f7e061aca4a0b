-- ===== src/Vc/Handle/Acknowledging.antt =====
-- What an acknowledgment from the peer does to the window and to the packets that wait for it.
use xotpad.Base.{ℕ, ◌%◌, ◌≤◌, ◌≡◌, refl, ap, sym, ◌∙◌, subst, Bool, true, Buf, some, ok}
use xotpad.Seq.{as_u8}
use xotpad.Seq.Counters.{Represents, update_start_complete}
use xotpad.Packet.{receive_ready}
use xotpad.Packet.Flow.{X25ReceiveReady}
use xotpad.Vc.Engine.{DataTransferState, data_transfer, VcInner, change_state, update_send_window}
use xotpad.Vc.Engine.Sending.{IsSent, send_queued_data-IsSent}
use xotpad.Vc.Handle.{handle_receive_ready, handle_data_transfer, handle_in, handle_in_packet}

pub update_send_window_complete :
    (s : DataTransferState) (acked sent k : ℕ)
    → Represents s.send_window acked sent
    → acked ≤ k
    → k ≤ sent
    → ((update_send_window s (k % as_u8 s.send_window.modulo)).1 ≡ true)
      × Represents (update_send_window s (k % as_u8 s.send_window.modulo)).0.send_window k sent
unfolding update_send_window
update_send_window_complete s acked sent k r lo hi =
    update_start_complete s.send_window acked sent k r lo hi

module _ {Link : Type 0} (write_all : Link → Buf → Bool × Link) where
  -- In data transfer, with the window standing for `acked` packets acknowledged and `sent` packets
  -- sent, a receive ready that acknowledges `k` packets, from `acked` to `sent`: the handler returns,
  -- leaves the timeout, and moves the window's start to `k`. It writes to the link, in their order and with
  -- the sequence numbers that follow, the packets from the front of the queue for which the window then has
  -- room. Either the next packet then has no frame or is not written, and the link is out of order; or the
  -- circuit is in data transfer, nothing else is written, and the queue is empty or the window closed.
  pub handle_in_packet-receive_ready :
      (vc : VcInner Link) (s : DataTransferState) (acked sent k now timeout : ℕ)
      (p : X25ReceiveReady)
      → vc.state ≡ data_transfer s
      → Represents s.send_window acked sent
      → acked ≤ k
      → k ≤ sent
      → p.recv_seq ≡ k % as_u8 s.send_window.modulo
      → (n : ℕ) × (vc' : VcInner Link) × (handle_in_packet write_all now
            (some (receive_ready p))
            timeout
            vc
          ≡ ok (vc', timeout))
        × IsSent write_all k sent n vc.send_data_queue (update_send_window s p.recv_seq).0 vc vc'
  unfolding handle_in_packet handle_in handle_data_transfer handle_receive_ready
  handle_in_packet-receive_ready vc s acked sent k now timeout p e r lo hi seq =
      let (accepted, moved) = update_send_window_complete s acked sent k r lo hi in
      let s1 = (update_send_window s p.recv_seq).0 in
      let represents : Represents s1.send_window k sent =
        subst (λ m. Represents (update_send_window s m).0.send_window k sent) (sym seq) moved in
      let yes : (update_send_window s p.recv_seq).1 ≡ true =
        ap (λ m. (update_send_window s m).1) seq ∙ accepted in
      let (n, vc', run, i) =
        send_queued_data-IsSent write_all (change_state (data_transfer s1) vc) s1 k sent refl
          represents in
      (
        n,
        vc',
        ap (λ state. handle_in write_all state now (some (receive_ready p)) timeout vc) e
            ∙ rw (yes, run) refl,
        record {
          taken = i.taken;
          left = i.left;
          within = i.within;
          params = i.params;
          channel = i.channel;
          received = i.received;
          link = i.link;
          written = i.written;
          state = i.state;
        },
      )

-- ===== src/Vc/Handle/Receiving.antt =====
-- What a data packet in sequence does: it is queued, and it is acknowledged by a data packet or by a
-- receive ready.
use xotpad.Base.{
  ℕ, zero, suc, ◌%◌, ◌≤◌, ◌≡◌, inl, inr, arith, refl, ap, sym, ◌∙◌, subst, Bool, true, false, not,
  Buf, some, [], ◌∷◌, ◌++◌, ok, ◌>>=◌, if◌then◌else◌, ==-false, ltb, Returns, value, Returns-after,
  Returns-bind, receive_sequence_out_of_range,
}
use xotpad.Seq.{X25Modulo, normal, extended, as_u8, next_seq, update_start}
use xotpad.Seq.Counters.{Represents}
use xotpad.Packet.{X25Packet, receive_ready, data_packet}
use xotpad.Packet as Packet
use xotpad.Packet.Data.{X25Data}
use xotpad.Packet.Flow.{X25ReceiveReady, encode_receive_ready, encode_flow_as}
use xotpad.Vc.Engine.{
  DataTransferState, data_transfer, out_of_order, VcInner, change_state, update_send_window,
  update_recv_seq, queue_recv_data, send_queued_data, frame_of, send_then, receive_ready_in,
  send_receive_ready,
}
use xotpad.Vc.Engine.Written.{Writes, Fails}
use xotpad.Vc.Engine.Sending.{
  IsSent, Tried, send_queued_data-IsSent, header-Returns, xot_encode-Returns, send_packet_lem,
}
use xotpad.Vc.Handle.{
  is_data_transfer, acknowledge, handle_data, handle_data_transfer, handle_in, handle_in_packet,
}
use xotpad.Vc.Handle.Acknowledging.{update_send_window_complete}

encode_flow_as-Returns :
    (m : X25Modulo) (code channel recv_seq : ℕ) (buf : Buf)
    → Returns {A = ℕ × Buf} (λ (n, text). Unit {0}) (encode_flow_as m code channel recv_seq buf)
unfolding encode_flow_as
encode_flow_as-Returns normal code channel recv_seq buf =
    Returns-after (not (ltb 7 recv_seq)) (receive_sequence_out_of_range recv_seq)
      λ _. header-Returns normal 0 channel _ buf
encode_flow_as-Returns extended code channel recv_seq buf =
    Returns-after (not (ltb 127 recv_seq)) (receive_sequence_out_of_range recv_seq)
      λ _. Returns-bind (header-Returns extended 0 channel code buf) λ (n, text) _. value tt

encode_ready-Returns :
    (p : X25ReceiveReady) (buf : Buf)
    → Returns {A = ℕ × Buf} (λ (n, text). Unit {0}) (Packet.encode (receive_ready p) buf)
unfolding Packet.encode encode_receive_ready
encode_ready-Returns p buf = encode_flow_as-Returns p.modulo 0x01 p.channel p.recv_seq buf

frame_of_ready-Returns :
    (p : X25ReceiveReady) → Returns {A = Buf} (λ _. Unit {0}) (frame_of (receive_ready p))
unfolding frame_of
frame_of_ready-Returns p =
    Returns-bind (encode_ready-Returns p [])
      λ (n, buf) _. Returns-bind (xot_encode-Returns buf []) λ (m, frame) _. value tt

update_recv_seq_lem :
    (s : DataTransferState) (seq : ℕ)
    → seq ≡ s.recv_seq
    → update_recv_seq s seq ≡ (record s { recv_seq = next_seq seq s.modulo }, true)
unfolding update_recv_seq
update_recv_seq_lem s seq e = ground arith

-- The state after a data packet with these numbers.
abbrev pub after_data : DataTransferState → ℕ → ℕ → DataTransferState
after_data s send_seq recv_seq = record s {
  send_window = (update_start s.send_window recv_seq).0;
  recv_seq = next_seq send_seq s.modulo;
}

module _ {Link : Type 0} (write_all : Link → Buf → Bool × Link) where
  -- How a received packet is acknowledged after `n` data packets were sent: by these, or by this packet,
  -- unless the link has failed or fails when it is written.
  pub data Acknowledges (packet : X25Packet) (n : ℕ) (vc : VcInner Link)
      : VcInner Link → Type 0 where
    lost : vc.state ≡ out_of_order → Acknowledges packet n vc vc
    carried : 1 ≤ n → Acknowledges packet n vc vc
    written :
        (link : Link)
        → n ≡ 0
        → Writes write_all packet vc.send_link link
        → Acknowledges packet n vc (record vc { send_link = link })
    failed :
        (link : Link)
        → n ≡ 0
        → Fails write_all packet vc.send_link link
        → Acknowledges packet n vc (record vc { send_link = link; state = out_of_order })

  -- The receive ready of a circuit in a state.
  abbrev pub ready_of : VcInner Link → DataTransferState → X25Packet
  ready_of vc s =
      receive_ready
        (record { modulo = vc.params.modulo; channel = vc.channel; recv_seq = s.recv_seq })

  written_or_not :
      (packet : X25Packet) (n : ℕ) (vc : VcInner Link) (link : Link) (sent : Bool)
      → n ≡ 0
      → Tried write_all packet vc sent link
      → (vc' : VcInner Link) × ((if sent
            then ok (record vc { send_link = link })
            else ok (change_state out_of_order (record vc { send_link = link })))
          ≡ ok vc')
        × (vc'.recv_data_queue ≡ vc.recv_data_queue)
        × Acknowledges packet n vc vc'
  written_or_not packet n vc link true none_sent writes =
      (record vc { send_link = link }, refl, refl, written link none_sent writes)
  written_or_not packet n vc link false none_sent fails = (
    change_state out_of_order (record vc { send_link = link }),
    refl,
    refl,
    failed link none_sent fails,
  )

  receive_ready_in-Acknowledges :
      (n : ℕ) (vc : VcInner Link) (s : DataTransferState)
      → n ≡ 0
      → (vc' : VcInner Link) × (receive_ready_in write_all (data_transfer s) vc ≡ ok vc')
        × (vc'.recv_data_queue ≡ vc.recv_data_queue)
        × Acknowledges (ready_of vc s) n vc vc'
  unfolding receive_ready_in send_then
  receive_ready_in-Acknowledges n vc s none_sent =
      let p : X25ReceiveReady = record {
        modulo = vc.params.modulo;
        channel = vc.channel;
        recv_seq = s.recv_seq;
      } in
      let (sent, link, run, result) =
        send_packet_lem write_all (receive_ready p) vc (frame_of_ready-Returns p) in
      rw run (written_or_not (receive_ready p) n vc link sent none_sent result)

  -- In data transfer, or out of order after a failure.
  acknowledge-Acknowledges :
      (n : ℕ) (vc : VcInner Link) (s : DataTransferState)
      → vc.state ≡ data_transfer s
      → (vc' : VcInner Link) × (acknowledge write_all n vc ≡ ok vc')
        × (vc'.recv_data_queue ≡ vc.recv_data_queue)
        × Acknowledges (ready_of vc s) n vc vc'
  unfolding acknowledge send_receive_ready
  acknowledge-Acknowledges zero vc s e =
      let (vc', run, queue, acknowledged) = receive_ready_in-Acknowledges 0 vc s refl in
      (
        vc',
        rw (ap is_data_transfer e) (ap (λ state. receive_ready_in write_all state vc) e ∙ run),
        queue,
        acknowledged,
      )
  acknowledge-Acknowledges (suc n) vc s e = (
    vc,
    rw (ap is_data_transfer e, ==-false (suc n) 0 (omega arith)) refl,
    refl,
    carried (omega arith),
  )

  acknowledge-lost :
      (n : ℕ) (vc : VcInner Link) → vc.state ≡ out_of_order → acknowledge write_all n vc ≡ ok vc
  unfolding acknowledge
  acknowledge-lost n vc e = rw (ap is_data_transfer e) refl

  -- After the packet was queued: what is sent, and the acknowledgment.
  deliver :
      (vc : VcInner Link) (s : DataTransferState) (acked sent : ℕ)
      → vc.state ≡ data_transfer s
      → Represents s.send_window acked sent
      → (n : ℕ) × (vc1 vc' : VcInner Link) × ((send_queued_data write_all vc
            >>= λ (sent_count, vc1). acknowledge write_all sent_count vc1)
          ≡ ok vc')
        × (vc'.recv_data_queue ≡ vc.recv_data_queue)
        × IsSent write_all acked sent n vc.send_data_queue s vc vc1
        × Acknowledges (ready_of vc s) n vc1 vc'
  deliver vc s acked sent e r =
      let (n, vc1, run, i) = send_queued_data-IsSent write_all vc s acked sent e r in
      elim i.state [
        | inl (d, rest, broken, _, _) ↦
            (n, vc1, vc1, rw run (acknowledge-lost n vc1 broken), i.received, i, lost broken)
        | inr (s', at, last, same, modulo, c, why) ↦
            let (vc', more, queue, acknowledged) = acknowledge-Acknowledges n vc1 s' at in
            let packet : ready_of vc1 s' ≡ ready_of vc s = rw (i.params, i.channel, same) refl in
            (
              n,
              vc1,
              vc',
              rw run more,
              queue ∙ i.received,
              i,
              subst (λ q. Acknowledges q n vc1 vc') packet acknowledged,
            )
      ]

  -- In data transfer, with the window standing for `acked` packets acknowledged and `sent` packets
  -- sent, a data packet with the send sequence number that is expected, which acknowledges `k`
  -- packets, from `acked` to `sent`: the handler returns, leaves the timeout, puts the packet behind those
  -- received, and expects the next number. Packets that wait are first sent, as `IsSent` says, with that
  -- number and from a window that starts at `k`. The packet is then acknowledged: data packets were sent; or
  -- none was, and a receive ready with that number is written to the link. Otherwise the link is out of
  -- order, since a packet has no frame or is not written.
  pub handle_in_packet-data_packet :
      (vc : VcInner Link) (s : DataTransferState) (acked sent k now timeout : ℕ) (p : X25Data)
      → vc.state ≡ data_transfer s
      → Represents s.send_window acked sent
      → acked ≤ k
      → k ≤ sent
      → p.send_seq ≡ s.recv_seq
      → p.recv_seq ≡ k % as_u8 s.send_window.modulo
      → (n : ℕ) × (vc1 vc' : VcInner Link) × (handle_in_packet write_all now
            (some (data_packet p))
            timeout
            vc
          ≡ ok (vc', timeout))
        × (vc'.recv_data_queue ≡ vc.recv_data_queue ++ (p ∷ []))
        × IsSent write_all k sent n vc.send_data_queue
            (after_data s p.send_seq p.recv_seq)
            (record vc { recv_data_queue = vc.recv_data_queue ++ (p ∷ []) })
            vc1
        × Acknowledges (ready_of vc (after_data s p.send_seq p.recv_seq)) n vc1 vc'
  unfolding handle_in_packet handle_in handle_data_transfer handle_data queue_recv_data
      update_send_window
  handle_in_packet-data_packet vc s acked sent k now timeout p e r lo hi expected seq =
      let s1 : DataTransferState = record s { recv_seq = next_seq p.send_seq s.modulo } in
      let (accepted, moved) = update_send_window_complete s1 acked sent k r lo hi in
      let s2 = after_data s p.send_seq p.recv_seq in
      let represents : Represents s2.send_window k sent =
        subst (λ m. Represents (update_send_window s1 m).0.send_window k sent) (sym seq) moved in
      let yes : (update_send_window s1 p.recv_seq).1 ≡ true =
        ap (λ m. (update_send_window s1 m).1) seq ∙ accepted in
      let (n, vc1, vc', run, queue, i, acknowledged) =
        deliver (queue_recv_data p (change_state (data_transfer s2) vc)) s2 k sent refl
          represents in
      (
        n,
        vc1,
        vc',
        ap (λ state. handle_in write_all state now (some (data_packet p)) timeout vc) e
            ∙ rw (update_recv_seq_lem s p.send_seq expected, yes, run) refl,
        queue,
        record {
          taken = i.taken;
          left = i.left;
          within = i.within;
          params = i.params;
          channel = i.channel;
          received = i.received;
          link = i.link;
          written = i.written;
          state = i.state;
        },
        acknowledged,
      )

-- ===== src/Vc/Engine/Sending.antt =====
-- `send_queued_data` against the counters that its window stands for.
use xotpad.Base.{
  ℕ, suc, ◌+◌, ◌≤◌, ◌≡◌, ◌⊎◌, inl, inr, arith, refl, ap, sym, ◌∙◌, Bool, true, false, not, List, [],
  ◌∷◌, length, take, drop, ltb, Buf, Result, ok, Returns, value, error, Returns-bind, Returns-after,
  Returns-if, if◌then◌else◌, Bool-cases, subst, packet_too_short, packet_too_long,
  channel_out_of_range, send_sequence_out_of_range, receive_sequence_out_of_range,
}
use xotpad.Seq.{X25Modulo, normal, extended, Window, is_open, incr, seq}
use xotpad.Seq.Counters.{Represents, is_open-Represents, incr-Represents}
use xotpad.Packet.{X25Packet, data_packet}
use xotpad.Packet as Packet
use xotpad.Packet.Header.{min_packet_len, max_packet_len, max_channel, encode_packet_header}
use xotpad.Packet.Data.{
  X25Data, encode_data, encode_data_as, encode_data_normal, encode_data_extended,
}
use xotpad.Xot as Xot
use xotpad.Xot.{u16_try_from}
use xotpad.Vc.Queue.{SendData}
use xotpad.Vc.Engine.Written.{numbered, packet_of, Writes, Fails, WritesAll}
use xotpad.Vc.Engine.{
  DataTransferState, data_transfer, out_of_order, VcInner, frame_of, write_frame, send_packet,
  data_of, send_loop, send_queued_in, send_queued_data,
}

u16_try_from-Returns :
    (n : ℕ) → n ≤ max_packet_len → Returns {A = ℕ} (λ _. Unit {0}) (u16_try_from n)
unfolding u16_try_from
u16_try_from-Returns n h = Returns-if (ltb n 65536) (λ _. value tt) (λ e. absurd (ground arith))

pub xot_encode-Returns :
    (packet buf : Buf) → Returns {A = ℕ × Buf} (λ (n, frame). Unit {0}) (Xot.encode packet buf)
unfolding Xot.encode
xot_encode-Returns packet buf =
    Returns-after (not (ltb (length packet) min_packet_len)) (packet_too_short (length packet)) λ _.
      Returns-after (not (ltb max_packet_len (length packet))) (packet_too_long (length packet))
        λ h. Returns-bind (u16_try_from-Returns (length packet) (ground arith)) λ n _. value tt

pub header-Returns :
    (m : X25Modulo) (overlay channel type : ℕ) (buf : Buf)
    → Returns {A = ℕ × Buf}
        (λ (n, text). Unit {0})
        (encode_packet_header m overlay channel type buf)
unfolding encode_packet_header
header-Returns m overlay channel type buf =
    Returns-after (not (ltb max_channel channel)) (channel_out_of_range channel) λ _. value tt

encode_data_as-Returns :
    (m : X25Modulo) (p : X25Data) (buf : Buf)
    → Returns {A = ℕ × Buf} (λ (n, text). Unit {0}) (encode_data_as m p buf)
unfolding encode_data_as encode_data_normal encode_data_extended
encode_data_as-Returns normal p buf =
    Returns-after (not (ltb 7 p.send_seq)) (send_sequence_out_of_range p.send_seq) λ _.
      Returns-after (not (ltb 7 p.recv_seq)) (receive_sequence_out_of_range p.recv_seq)
        λ _. Returns-bind (header-Returns p.modulo _ p.channel _ buf) λ (n, text) _. value tt
encode_data_as-Returns extended p buf =
    Returns-after (not (ltb 127 p.send_seq)) (send_sequence_out_of_range p.send_seq) λ _.
      Returns-after (not (ltb 127 p.recv_seq)) (receive_sequence_out_of_range p.recv_seq)
        λ _. Returns-bind (header-Returns p.modulo _ p.channel _ buf) λ (n, text) _. value tt

encode-Returns :
    (p : X25Data) (buf : Buf)
    → Returns {A = ℕ × Buf} (λ (n, text). Unit {0}) (Packet.encode (data_packet p) buf)
unfolding Packet.encode encode_data
encode-Returns p buf = encode_data_as-Returns p.modulo p buf

frame_of-Returns : (p : X25Data) → Returns {A = Buf} (λ _. Unit {0}) (frame_of (data_packet p))
unfolding frame_of
frame_of-Returns p =
    Returns-bind (encode-Returns p [])
      λ (n, buf) _. Returns-bind (xot_encode-Returns buf []) λ (m, frame) _. value tt

-- What the loop leaves: it wrote the packets for `n` entries from the front of the queue, in their order
-- and within the window, with the numbers that follow `sent`. It stopped because the next packet was not
-- written, the queue is empty or the window is closed.
pub record IsSent {Link : Type 0} (write_all : Link → Buf → Bool × Link) (acked sent n : ℕ)
    (queue : List SendData) (s : DataTransferState) (vc vc' : VcInner Link) : Type 0 where
  pub taken : n ≤ length queue
  pub left : vc'.send_data_queue ≡ drop n queue
  pub within : sent + n ≤ acked + s.send_window.size
  pub params : vc'.params ≡ vc.params
  pub channel : vc'.channel ≡ vc.channel
  pub received : vc'.recv_data_queue ≡ vc.recv_data_queue
  pub link : Link
  pub written : WritesAll write_all (packet_of vc s) sent (take n queue) vc.send_link link
  pub state :
      ((d : SendData) × (rest : List SendData) × (vc'.state ≡ out_of_order)
        × (vc'.send_data_queue ≡ d ∷ rest)
        × Fails write_all (packet_of vc s (sent + n) d) link vc'.send_link)
      ⊎ ((s' : DataTransferState) × (vc'.state ≡ data_transfer s')
          × (vc'.send_link ≡ link)
          × (s'.recv_seq ≡ s.recv_seq)
          × (s'.send_window.modulo ≡ s.send_window.modulo)
          × Represents s'.send_window acked (sent + n)
          × ((vc'.send_data_queue ≡ []) ⊎ (is_open s'.send_window ≡ false)))

incr-size : (w : Window) → (incr w).0.size ≡ w.size
unfolding incr
incr-size w = ground arith

incr-modulo : (w : Window) → (incr w).0.modulo ≡ w.modulo
unfolding incr
incr-modulo w = ground arith

-- The packet that the loop makes is the one with this number.
data_of-numbered :
    {Link : Type 0} (d : SendData) (s : DataTransferState) (acked sent : ℕ) (vc : VcInner Link)
    → Represents s.send_window acked sent
    → data_packet (data_of d s vc) ≡ packet_of vc s sent d
unfolding data_of seq
data_of-numbered d s acked sent vc r =
    ap
      (λ m. data_packet (record {
        modulo = vc.params.modulo;
        channel = vc.channel;
        send_seq = m;
        recv_seq = s.recv_seq;
        qualifier = d.qualifier;
        delivery = false;
        more = d.more;
        user_data = d.user_data;
      }))
      r.current

-- An open window counts the packet.
pub incr-open :
    (w : Window) (acked sent : ℕ)
    → Represents w acked sent
    → is_open w ≡ true
    → Represents (incr w).0 acked (sent + 1)
incr-open w acked sent r opened =
    let room : ltb sent (acked + w.size) ≡ true =
      sym (is_open-Represents w acked sent r) ∙ opened in
    rw room at (incr-Represents w acked sent r).1

module _ {Link : Type 0} (write_all : Link → Buf → Bool × Link) where
  -- What comes of a packet: it is written, or it is not.
  abbrev pub Tried : X25Packet → VcInner Link → Bool → Link → Type 0
  Tried packet vc true link = Writes write_all packet vc.send_link link
  Tried packet vc false link = Fails write_all packet vc.send_link link

  tried :
      (packet : X25Packet) (vc : VcInner Link) (frame : Buf)
      → frame_of packet ≡ ok frame
      → (done : Bool) (link : Link) → write_all vc.send_link frame ≡ (done, link)
      → Tried packet vc done link
  tried packet vc frame framed true link e = (frame, framed, e)
  tried packet vc frame framed false link e = inr (frame, framed, e)

  write_frame_lem :
      (packet : X25Packet) {r : Result Buf} (vc : VcInner Link)
      → Returns {A = Buf} (λ _. Unit {0}) r
      → frame_of packet ≡ r
      → (sent : Bool) × (link : Link) × (write_frame write_all r vc
          ≡ ok (sent, record vc { send_link = link }))
        × Tried packet vc sent link
  unfolding write_frame
  write_frame_lem packet vc (value {a} h) e =
      let (done, link) = write_all vc.send_link a in
      (done, link, refl, tried packet vc a e done link refl)
  write_frame_lem packet vc (error {e = e1}) e = (false, vc.send_link, refl, inl (e1, e, refl))

  pub send_packet_lem :
      (packet : X25Packet) (vc : VcInner Link)
      → Returns {A = Buf} (λ _. Unit {0}) (frame_of packet)
      → (sent : Bool) × (link : Link) × (send_packet write_all packet vc
          ≡ ok (sent, record vc { send_link = link }))
        × Tried packet vc sent link
  unfolding send_packet
  send_packet_lem packet vc h = write_frame_lem packet vc h refl

  -- A run of the loop that sends from these counters.
  abbrev Runs :
      List SendData
      → DataTransferState
      → ℕ
      → ℕ
      → ℕ
      → VcInner Link
      → Result (ℕ × VcInner Link)
      → Type 0
  Runs queue s count acked sent vc r =
      (n : ℕ) × (vc' : VcInner Link) × (r ≡ ok (count + n, vc'))
      × IsSent write_all acked sent n queue s vc vc'

  stops :
      (queue : List SendData) (s : DataTransferState) (count acked sent : ℕ) (vc : VcInner Link)
      → Represents s.send_window acked sent
      → ((queue ≡ []) ⊎ (is_open s.send_window ≡ false))
      → Runs queue s count acked sent vc
          (ok (count, record vc { state = data_transfer s; send_data_queue = queue }))
  stops queue s count acked sent vc r why = (
    0,
    record vc { state = data_transfer s; send_data_queue = queue },
    ap (λ n. ok (n, record vc { state = data_transfer s; send_data_queue = queue })) (omega arith),
    record {
      taken = omega arith;
      left = refl;
      within = omega (arith, r.bounded);
      params = refl;
      channel = refl;
      received = refl;
      link = vc.send_link;
      written = refl;
      state =
          inr (
            s,
            refl,
            refl,
            refl,
            refl,
            subst (Represents s.send_window acked) (omega arith) r,
            why,
          );
    },
  )

  fails :
      (queue : List SendData) (d : SendData) (s : DataTransferState) (count acked sent : ℕ)
      (link : Link) (vc : VcInner Link)
      → Represents s.send_window acked sent
      → Fails write_all (packet_of vc s sent d) vc.send_link link
      → Runs (d ∷ queue) s count acked sent vc (
          ok (
            count,
            record vc { send_link = link; state = out_of_order; send_data_queue = d ∷ queue },
          ))
  fails queue d s count acked sent link vc r failed = (
    0,
    record vc { send_link = link; state = out_of_order; send_data_queue = d ∷ queue },
    ap
        (λ n.
          ok (n, record vc { send_link = link; state = out_of_order; send_data_queue = d ∷ queue }))
        (omega arith),
    record {
      taken = omega arith;
      left = refl;
      within = omega (arith, r.bounded);
      params = refl;
      channel = refl;
      received = refl;
      link = vc.send_link;
      written = refl;
      state = inl (
        d,
        queue,
        refl,
        refl,
        subst (λ m. Fails write_all (packet_of vc s m d) vc.send_link link) (omega arith) failed,
      );
    },
  )

  -- One packet more than the rest of the loop.
  continues :
      (queue : List SendData) (d : SendData) (s : DataTransferState) (count acked sent : ℕ)
      (link : Link) (vc : VcInner Link) {r : Result (ℕ × VcInner Link)}
      → Writes write_all (packet_of vc s sent d) vc.send_link link
      → Runs queue
          (record s { send_window = (incr s.send_window).0 })
          (count + 1)
          acked
          (sent + 1)
          (record vc { send_link = link })
          r
      → Runs (d ∷ queue) s count acked sent vc r
  continues queue d s count acked sent link vc writes (n, vc', e, i) =
      let kept = incr-modulo s.send_window in
      let packet : X25Modulo → ℕ → SendData → X25Packet =
        λ m. numbered vc.params.modulo m vc.channel s.recv_seq in
      (
        suc n,
        vc',
        e ∙ ap (λ m. ok (m, vc')) (omega arith),
        record {
          taken = omega (arith, i.taken);
          left = i.left;
          within = omega (arith, i.within, incr-size s.send_window);
          params = i.params;
          channel = i.channel;
          received = i.received;
          link = i.link;
          written = (
            link,
            writes,
            subst (λ m. WritesAll write_all (packet m) (sent + 1) (take n queue) link i.link) kept
                i.written,
          );
          state = elim i.state [
            | inl (next, rest, broken, left, failed) ↦ inl (
              next,
              rest,
              broken,
              left,
              subst (λ k. Fails write_all (packet s.send_window.modulo k next) i.link vc'.send_link)
                  (omega arith)
                  (subst (λ m. Fails write_all (packet m (sent + 1 + n) next) i.link vc'.send_link)
                    kept failed),
            )
            | inr (s', at, last, same, modulo, c, why) ↦ inr (
              s',
              at,
              last,
              same,
              modulo ∙ kept,
              subst (Represents s'.send_window acked) (omega arith) c,
              why,
            )
          ];
        },
      )

  sent_or_not :
      (queue : List SendData) (d : SendData) (s : DataTransferState) (count acked sent : ℕ)
      (link : Link) (vc : VcInner Link) {rest : Result (ℕ × VcInner Link)}
      → Represents s.send_window acked sent
      → (done : Bool) → Tried (packet_of vc s sent d) vc done link
      → Runs queue
          (record s { send_window = (incr s.send_window).0 })
          (count + 1)
          acked
          (sent + 1)
          (record vc { send_link = link })
          rest
      → Runs (d ∷ queue) s count acked sent vc (
          if done
          then rest
          else ok (
            count,
            record vc { send_link = link; state = out_of_order; send_data_queue = d ∷ queue },
          ))
  sent_or_not queue d s count acked sent link vc r true writes run =
      continues queue d s count acked sent link vc writes run
  sent_or_not queue d s count acked sent link vc r false failed run =
      fails queue d s count acked sent link vc r failed

  send_loop_lem :
      (queue : List SendData) (s : DataTransferState) (count acked sent : ℕ) (vc : VcInner Link)
      → Represents s.send_window acked sent
      → Runs queue s count acked sent vc (send_loop write_all queue s count vc)
  unfolding send_loop
  send_loop_lem [] s count acked sent vc r = stops [] s count acked sent vc r (inl refl)
  send_loop_lem (d ∷ queue) s count acked sent vc r = elim (Bool-cases (is_open s.send_window)) [
    | inl opened ↦
        let (done, link, e, result) =
          send_packet_lem (data_packet (data_of d s vc)) vc (frame_of-Returns (data_of d s vc)) in
        rw (opened, e)
          (sent_or_not queue d s count acked sent link vc r done
            (subst (λ p. Tried p vc done link) (data_of-numbered d s acked sent vc r) result)
            (send_loop_lem queue (record s { send_window = (incr s.send_window).0 }) (count + 1)
              acked (sent + 1) (record vc { send_link = link })
              (incr-open s.send_window acked sent r opened)))
    | inr closed ↦ rw closed (stops (d ∷ queue) s count acked sent vc r (inr closed))
  ]

  -- In data transfer, with the window's numbers standing for `acked` packets acknowledged and `sent`
  -- packets sent: `send_queued_data` returns the number of packets that it took from the front of
  -- the queue, which the window has room for. Their frames are written to the link in the order of the
  -- queue, as data packets with the sequence numbers that follow and the expected receive sequence number.
  -- Either the next packet then has no frame or is not written, and the link is out of order; or the
  -- window stands for as many packets more, nothing else is written, the state is otherwise as it was,
  -- and the queue is empty or the window closed.
  pub send_queued_data-IsSent :
      (vc : VcInner Link) (s : DataTransferState) (acked sent : ℕ)
      → vc.state ≡ data_transfer s
      → Represents s.send_window acked sent
      → (n : ℕ) × (vc' : VcInner Link) × (send_queued_data write_all vc ≡ ok (n, vc'))
        × IsSent write_all acked sent n vc.send_data_queue s vc vc'
  unfolding send_queued_data send_queued_in
  send_queued_data-IsSent vc s acked sent e r =
      let (n, vc', run, i) = send_loop_lem vc.send_data_queue s 0 acked sent vc r in
      (
        n,
        vc',
        ap (λ state. send_queued_in write_all state vc) e
            ∙ run
            ∙ ap (λ m. ok (m, vc')) (omega arith),
        i,
      )

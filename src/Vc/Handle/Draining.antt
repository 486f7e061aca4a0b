-- ===== src/Vc/Handle/Draining.antt =====
-- A peer that acknowledges what it receives takes all that waits to be sent.
use xotpad.Base.{
  ℕ, zero, suc, ◌+◌, ◌-◌, ◌%◌, ◌≤◌, ◌≡◌, ◌⊎◌, inl, inr, arith, refl, ap, ◌∙◌, Bool, List, [], ◌∷◌,
  ◌++◌, length, length-drop, length-take, length-append, append_assoc, take, drop, take-append-drop,
  subst, Buf, some, Result, ok, ◌>>=◌,
}
use xotpad.Seq.{as_u8, Window, update_start}
use xotpad.Seq.Counters.{Represents, is_open-Represents}
use xotpad.Packet.{X25Packet, receive_ready}
use xotpad.Packet.Flow.{X25ReceiveReady}
use xotpad.Vc.Queue.{SendData}
use xotpad.Vc.Engine.{DataTransferState, data_transfer, out_of_order, VcInner, update_send_window}
use xotpad.Vc.Engine.Written.{numbered, packet_of, Fails, WritesAll, WritesAll-append}
use xotpad.Vc.Engine.Sending.{IsSent}
use xotpad.Vc.Handle.{handle_in_packet}
use xotpad.Vc.Handle.Acknowledging.{handle_in_packet-receive_ready}

update_start-modulo : (w : Window) (seq : ℕ) → (update_start w seq).0.modulo ≡ w.modulo
unfolding update_start
update_start-modulo w seq = ground arith

update_send_window-packet_of :
    {Link : Type 0} (vc : VcInner Link) (s : DataTransferState) (seq : ℕ)
    → packet_of vc (update_send_window s seq).0 ≡ packet_of vc s
unfolding update_send_window
update_send_window-packet_of vc s seq =
    ap (λ m. numbered vc.params.modulo m vc.channel s.recv_seq)
      (update_start-modulo s.send_window seq)

module _ {Link : Type 0} (write_all : Link → Buf → Bool × Link) where
  -- The packets that acknowledge, handled one after the other.
  abbrev pub handle_all : ℕ → List X25ReceiveReady → VcInner Link → Result (VcInner Link)
  handle_all now [] vc = ok vc
  handle_all now (p ∷ ps) vc =
      handle_in_packet write_all now (some (receive_ready p)) 0 vc >>= λ (vc1, timeout).
      handle_all now ps vc1

  -- From `sent` packets sent on, packets for the entries `ds` from the front of the queue were written to
  -- the link, in their order and with the sequence numbers that follow. Either all are, nothing else is written,
  -- and the circuit is in data transfer; or the next one has no frame or is not written, and the link is out of order.
  pub record Drained (packet : ℕ → SendData → X25Packet) (sent : ℕ) (ds : List SendData)
      (vc vc' : VcInner Link) : Type 0 where
    pub all : ds ++ vc'.send_data_queue ≡ vc.send_data_queue
    pub link : Link
    pub written : WritesAll write_all packet sent ds vc.send_link link
    pub done :
        ((vc'.send_data_queue ≡ [])
          × (vc'.send_link ≡ link)
          × (s' : DataTransferState) × (vc'.state ≡ data_transfer s'))
        ⊎ ((d : SendData) × (rest : List SendData) × (vc'.send_data_queue ≡ d ∷ rest)
            × (vc'.state ≡ out_of_order)
            × Fails write_all (packet (sent + length ds) d) link vc'.send_link)

  Writes-packet :
      {packet packet' : ℕ → SendData → X25Packet} (sent : ℕ) (ds : List SendData) (a b : Link)
      → packet ≡ packet'
      → WritesAll write_all packet sent ds a b
      → WritesAll write_all packet' sent ds a b
  Writes-packet sent ds a b e w = subst (λ p. WritesAll write_all p sent ds a b) e w

  -- What one acknowledgment of everything sent leaves is drained, or less than what there was.
  progress :
      (sent n : ℕ) (s : DataTransferState) (vc vc' : VcInner Link)
      → (i : IsSent write_all sent sent n vc.send_data_queue s vc vc')
      → Drained (packet_of vc s) sent (take n vc.send_data_queue) vc vc'
        ⊎ ((s' : DataTransferState) × (vc'.state ≡ data_transfer s')
            × Represents s'.send_window sent (sent + n)
            × (vc'.send_link ≡ i.link)
            × (packet_of vc' s' ≡ packet_of vc s)
            × (1 ≤ n))
  progress sent n s vc vc' i = elim i.state [
    | inl (d, rest, lost, left, failed) ↦ inl (record {
      all = whole;
      link = i.link;
      written = i.written;
      done = inr (
        d,
        rest,
        left,
        lost,
        subst (λ m. Fails write_all (packet_of vc s m d) i.link vc'.send_link)
            (omega (arith, length-take n vc.send_data_queue, i.taken)) failed,
      );
    })
    | inr (s', e, last, seq, modulo, r, inl empty) ↦ inl (record {
      all = whole;
      link = i.link;
      written = i.written;
      done = inl (empty, last, s', e);
    })
    | inr (s', e, last, seq, modulo, r, inr closed) ↦ inr (
      s',
      e,
      r,
      last,
      rw (i.params, i.channel, seq, modulo) refl,
      ground (arith, is_open-Represents s'.send_window sent (sent + n) r),
    )
  ]
    where
      whole : take n vc.send_data_queue ++ vc'.send_data_queue ≡ vc.send_data_queue
      whole =
          ap (λ q. take n vc.send_data_queue ++ q) i.left ∙ take-append-drop n vc.send_data_queue

  -- What was written on one occasion, and what is written after it.
  Drained-after :
      (packet : ℕ → SendData → X25Packet) (sent n : ℕ) (ds : List SendData)
      (vc vc1 vc' : VcInner Link) (link : Link)
      → n ≤ length vc.send_data_queue
      → vc1.send_data_queue ≡ drop n vc.send_data_queue
      → vc1.send_link ≡ link
      → WritesAll write_all packet sent (take n vc.send_data_queue) vc.send_link link
      → Drained packet (sent + n) ds vc1 vc'
      → Drained packet sent (take n vc.send_data_queue ++ ds) vc vc'
  Drained-after packet sent n ds vc vc1 vc' link taken left last first d =
      let queue : List SendData = vc.send_data_queue in
      let count : sent + n ≡ sent + length (take n queue) =
        omega (arith, length-take n queue, taken) in
      record {
        all =
            append_assoc (take n queue) ds vc'.send_data_queue
            ∙ ap (λ q. take n queue ++ q) (d.all ∙ left)
            ∙ take-append-drop n queue;
        link = d.link;
        written =
            WritesAll-append write_all packet sent (take n queue) ds vc.send_link link d.link first
              (subst (λ m. WritesAll write_all packet m ds link d.link) count
                (subst (λ l. WritesAll write_all packet (sent + n) ds l d.link) last d.written));
        done = elim d.done [
          | inl empty ↦ inl empty
          | inr (next, rest, waits, lost, failed) ↦ inr (
            next,
            rest,
            waits,
            lost,
            subst (λ m. Fails write_all (packet m next) d.link vc'.send_link)
                (omega (arith, count, length-append (take n queue) ds)) failed,
          )
        ];
      }

  nothing_left : (queue : List SendData) → length queue ≤ 0 → queue ≡ []
  nothing_left [] h = refl
  nothing_left (d ∷ queue) h = absurd (omega (arith, h))

  drains :
      (m now : ℕ) (vc : VcInner Link) (s : DataTransferState) (acked sent : ℕ)
      → vc.state ≡ data_transfer s
      → Represents s.send_window acked sent
      → length vc.send_data_queue ≤ m
      → (ps : List X25ReceiveReady) × (ds : List SendData) × (vc' : VcInner Link) × (length ps ≤ m)
        × (handle_all now ps vc ≡ ok vc')
        × Drained (packet_of vc s) sent ds vc vc'
  drains zero now vc s acked sent e r short = (
    [],
    [],
    vc,
    omega arith,
    refl,
    record {
      all = refl;
      link = vc.send_link;
      written = refl;
      done = inl (nothing_left vc.send_data_queue short, refl, s, e);
    },
  )
  drains (suc m) now vc s acked sent e r short =
      let p : X25ReceiveReady = record {
        modulo = vc.params.modulo;
        channel = vc.channel;
        recv_seq = sent % as_u8 s.send_window.modulo;
      } in
      let s1 : DataTransferState = (update_send_window s p.recv_seq).0 in
      let (n, vc1, run, i) =
        handle_in_packet-receive_ready write_all vc s acked sent sent now 0 p e r r.ordered
          (omega arith) refl in
      let same : packet_of vc s1 ≡ packet_of vc s = update_send_window-packet_of vc s p.recv_seq in
      elim (progress sent n s1 vc vc1 i) [
        | inl drained ↦ (
          p ∷ [],
          take n vc.send_data_queue,
          vc1,
          omega arith,
          rw run refl,
          subst (λ q. Drained q sent (take n vc.send_data_queue) vc vc1) same drained,
        )
        | inr (s', e', r', last, kept, some_sent) ↦
            let fewer : length vc1.send_data_queue ≡ length vc.send_data_queue - n =
              ap length i.left ∙ length-drop n vc.send_data_queue in
            let less : length vc1.send_data_queue ≤ m = omega (arith, fewer, some_sent, short) in
            let (ps, ds, vc', bound, runs, drained) =
              drains m now vc1 s' sent (sent + n) e' r' less in
            (
              p ∷ ps,
              take n vc.send_data_queue ++ ds,
              vc',
              omega (arith, bound),
              ap (λ x. x >>= λ (vc2, timeout). handle_all now ps vc2) run ∙ runs,
              subst (λ q. Drained q sent (take n vc.send_data_queue ++ ds) vc vc') same
                  (Drained-after (packet_of vc s1) sent n ds vc vc1 vc' i.link i.taken i.left last
                    i.written (subst (λ q. Drained q (sent + n) ds vc1 vc') kept drained)),
            )
      ]

  -- Whatever waits to be sent is sent when the peer keeps acknowledging: in data transfer, with a window that
  -- stands for counters, there are receive readys, at most as many as packets wait, after which the packets
  -- that waited have been written to the link, in their order and with the sequence numbers that follow,
  -- none waits, and the circuit is in data transfer; or those before some packet have been written, that
  -- packet has no frame or is not written, and the link is out of order.
  pub handle_all-drains :
      (now : ℕ) (vc : VcInner Link) (s : DataTransferState) (acked sent : ℕ)
      → vc.state ≡ data_transfer s
      → Represents s.send_window acked sent
      → (ps : List X25ReceiveReady) × (ds : List SendData) × (vc' : VcInner Link) × (length ps
          ≤ length vc.send_data_queue)
        × (handle_all now ps vc ≡ ok vc')
        × Drained (packet_of vc s) sent ds vc vc'
  handle_all-drains now vc s acked sent e r =
      drains (length vc.send_data_queue) now vc s acked sent e r (omega arith)

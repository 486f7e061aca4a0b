-- ===== src/Vc/Queue/Reassembly.antt =====
-- A message that one party queues for sending is the message that the other takes off its queue.
use xotpad.Base.{
  ℕ, zero, suc, ◌≤◌, ◌≡◌, ◌≢◌, arith, refl, ap, ap₂, sym, ◌∙◌, Bool, false, List, [], ◌∷◌, ◌++◌,
  length, take, drop, is_empty, Buf, some, ok, ==-false, length-drop, length-take, take-append-drop,
  append_assoc, append-nil, take-length_append, drop-length_append, All,
}
use xotpad.Packet.Data.{X25Data}
use xotpad.Vc.Queue.{
  SendData, chunks, chunks_with, send_data_of, queue_send_data, position, join, pop_at,
  pop_complete_data,
}

-- The packets received are those sent; their sequence numbers and the rest do not matter.
abbrev pub Carries : List SendData → List X25Data → Type 0
Carries [] [] = Unit {0}
Carries (s ∷ ss) (p ∷ ps) =
    (p.user_data ≡ s.user_data) × (p.qualifier ≡ s.qualifier) × (p.more ≡ s.more) × Carries ss ps
Carries _ _ = ⊥

abbrev pub concat : List Buf → Buf
concat [] = []
concat (packet ∷ packets) = packet ++ concat packets

-- Enough fuel: the packets hold the message in order, and none is longer than the packet size.
pub chunks_with_lem :
    (fuel size : ℕ) (user_data : Buf)
    → 1 ≤ size
    → length user_data ≤ fuel
    → (packets : List Buf) × (chunks_with fuel size user_data ≡ ok packets)
      × (concat packets ≡ user_data)
      × (All (λ packet. length packet ≤ size) packets)
      × (is_empty packets ≡ is_empty user_data)
unfolding chunks_with
chunks_with_lem zero size [] s f = ([], refl, refl, tt, refl)
chunks_with_lem zero size (b ∷ buf) s f = absurd (omega (arith, f))
chunks_with_lem (suc fuel) size [] s f = ([], refl, refl, tt, refl)
chunks_with_lem (suc fuel) size (b ∷ buf) s f =
    let (packets, e, whole, short, _) =
      chunks_with_lem fuel size (drop size (b ∷ buf)) s
        (omega (arith, f, length-drop size (b ∷ buf))) in
    (
      take size (b ∷ buf) ∷ packets,
      rw e refl,
      rw whole (take-append-drop size (b ∷ buf)),
      (omega (arith, length-take size (b ∷ buf)), short),
      refl,
    )

-- The last packet of a message is the first without more to come.
position-Carries :
    (qualifier : Bool) (packet : Buf) (packets : List Buf) (ps later : List X25Data)
    → Carries (send_data_of qualifier (packet ∷ packets)) ps
    → (position (ps ++ later) ≡ some (length packets)) × (length ps ≡ suc (length packets))
unfolding position send_data_of
position-Carries qualifier packet packets [] later c = absurd c
position-Carries qualifier packet [] (p ∷ []) later (d, q, m, c) = (rw m refl, refl)
position-Carries qualifier packet [] (p ∷ p' ∷ ps) later (d, q, m, c) = absurd c
position-Carries qualifier packet (packet' ∷ packets) (p ∷ ps) later (d, q, m, c) =
    let (at, count) = position-Carries qualifier packet' packets ps later c in
    (rw (m, at) refl, ap suc count)

join-Carries :
    (qualifier : Bool) (packets : List Buf) (ps : List X25Data) (user_data : Buf) (q : Bool)
    → Carries (send_data_of qualifier packets) ps
    → q ≡ qualifier
    → join ps user_data q ≡ (user_data ++ concat packets, qualifier)
unfolding join send_data_of
join-Carries qualifier [] [] user_data q c e = rw (append-nil user_data, e) refl
join-Carries qualifier [] (p ∷ ps) user_data q c e = absurd c
join-Carries qualifier (packet ∷ packets) [] user_data q c e = absurd c
join-Carries qualifier (packet ∷ packets) (p ∷ ps) user_data q (d, pq, m, c) e =
    join-Carries qualifier packets ps (user_data ++ p.user_data) p.qualifier c pq
    ∙ rw (d, append_assoc user_data packet (concat packets)) refl

join-first :
    (qualifier : Bool) (packet : Buf) (packets : List Buf) (p : X25Data) (ps : List X25Data)
    → Carries (send_data_of qualifier (packet ∷ packets)) (p ∷ ps)
    → join (p ∷ ps) [] false ≡ (concat (packet ∷ packets), qualifier)
unfolding join send_data_of
join-first qualifier packet packets p ps (d, q, m, c) =
    join-Carries qualifier packets ps p.user_data p.qualifier c q ∙ rw d refl

-- The packets up to the last are taken off, and joined.
pop-whole :
    (qualifier : Bool) (packet : Buf) (packets : List Buf) (p : X25Data) (ps later : List X25Data)
    → Carries (send_data_of qualifier (packet ∷ packets)) (p ∷ ps)
    → suc (length packets) ≡ length (p ∷ ps)
    → pop_at (some (length packets)) ((p ∷ ps) ++ later)
      ≡ (some (concat (packet ∷ packets), qualifier), later)
unfolding pop_at
pop-whole qualifier packet packets p ps later c count =
    let same : length packets ≡ length ps = omega (arith, count) in
    ap (λ n. (some (join (p ∷ take n (ps ++ later)) [] false), drop n (ps ++ later))) same
    ∙ ap₂ (λ us vs. (some (join (p ∷ us) [] false), vs)) (take-length_append ps later)
        (drop-length_append ps later)
    ∙ ap (λ r. (some r, later)) (join-first qualifier packet packets p ps c)

-- What is popped when the packets of one message are at the front.
pop-Carries :
    (qualifier : Bool) (packet : Buf) (packets : List Buf) (ps later : List X25Data)
    → Carries (send_data_of qualifier (packet ∷ packets)) ps
    → pop_complete_data (ps ++ later) ≡ (some (concat (packet ∷ packets), qualifier), later)
unfolding pop_complete_data send_data_of
pop-Carries qualifier packet packets [] later c = absurd c
pop-Carries qualifier packet packets (p ∷ ps) later c =
    let (at, count) = position-Carries qualifier packet packets (p ∷ ps) later c in
    ap (λ i. pop_at i ((p ∷ ps) ++ later)) at
    ∙ pop-whole qualifier packet packets p ps later c (sym count)

pop-packets :
    (qualifier : Bool) (packets : List Buf) (ps later : List X25Data)
    → packets ≢ []
    → Carries (send_data_of qualifier packets) ps
    → pop_complete_data (ps ++ later) ≡ (some (concat packets, qualifier), later)
pop-packets qualifier [] ps later f c = absurd (f refl)
pop-packets qualifier (packet ∷ packets) ps later f c =
    pop-Carries qualifier packet packets ps later c

short-send_data_of :
    (size : ℕ) (qualifier : Bool) (packets : List Buf)
    → All (λ packet. length packet ≤ size) packets
    → All (λ s. length s.user_data ≤ size) (send_data_of qualifier packets)
unfolding send_data_of
short-send_data_of size qualifier [] h = tt
short-send_data_of size qualifier (packet ∷ packets) (h, hs) =
    (h, short-send_data_of size qualifier packets hs)

-- A message of at least one byte, with a packet size of at least one: `send` returns and queues
-- packets behind those that were queued, none of them longer than the packet size; and when a
-- party has these packets, with whatever sequence numbers, at the front of its queue of received
-- packets, it takes the message with its qualifier off the queue and leaves what follows.
pub pop_complete_data-queue_send_data :
    (packet_size : ℕ) (user_data : Buf) (qualifier : Bool) (queue : List SendData)
    → 1 ≤ packet_size
    → user_data ≢ []
    → (sent : List SendData) × (queue_send_data packet_size user_data qualifier queue
        ≡ ok (queue ++ sent))
      × (All (λ s. length s.user_data ≤ packet_size) sent)
      × ((received later : List X25Data)
          → Carries sent received
          → pop_complete_data (received ++ later) ≡ (some (user_data, qualifier), later))
unfolding queue_send_data chunks
pop_complete_data-queue_send_data packet_size user_data qualifier queue s f =
    let (packets, e, whole, short, some_packets) =
      chunks_with_lem (length user_data) packet_size user_data s (omega arith) in
    (
      send_data_of qualifier packets,
      rw (==-false packet_size 0 (omega (arith, s)), e) refl,
      short-send_data_of packet_size qualifier packets short,
      λ received later c.
          rw (sym whole)
            (pop-packets qualifier packets received later (λ e. f (sym whole ∙ rw e refl)) c),
    )

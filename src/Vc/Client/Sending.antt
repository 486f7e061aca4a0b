-- ===== src/Vc/Client/Sending.antt =====
-- What a client's `Svc::send` does in each state of the circuit.
use xotpad.Base.{
  ℕ, ◌≤◌, ◌≡◌, arith, refl, ap, Bool, true, false, List, ◌++◌, length, All, ==-false, not, is_empty,
  subst, [], ◌∷◌, Buf, Result, ok, err, panic, ◌>>=◌, broken_pipe,
}
use xotpad.Vc.Queue.{SendData, queue_send_data, send_data_of, chunks}
use xotpad.Vc.Queue.Reassembly.{concat, chunks_with_lem}
use xotpad.Vc.Engine.{
  DataTransferState, VcState, ready, wait_call_accept, data_transfer, wait_reset_confirm,
  wait_clear_confirm, called, cleared, out_of_order, is_connected, VcInner, send_queued_in,
  send_queued_data,
}
use xotpad.Vc.Engine.Sending.{IsSent, send_queued_data-IsSent}
use xotpad.Vc.Client.{send}
use xotpad.Vc.Client.Invariant.{IsInStep, IsValidIn, IsValid}

-- The entries are the user data, cut into pieces that are not longer than the packet size: each has the
-- qualifier, and all but the last have more to come.
abbrev pub IsCut : ℕ → Bool → List SendData → Buf → Type 0
IsCut packet_size qualifier [] user_data = user_data ≡ []
IsCut packet_size qualifier (d ∷ ds) user_data =
    (rest : Buf) × (user_data ≡ d.user_data ++ rest)
    × (length d.user_data ≤ packet_size)
    × (d.qualifier ≡ qualifier)
    × (d.more ≡ not (is_empty ds))
    × IsCut packet_size qualifier ds rest

is_empty-send_data_of :
    (qualifier : Bool) (packets : List Buf)
    → is_empty packets ≡ is_empty (send_data_of qualifier packets)
unfolding send_data_of
is_empty-send_data_of qualifier [] = refl
is_empty-send_data_of qualifier (packet ∷ packets) = refl

send_data_of-IsCut :
    (packet_size : ℕ) (qualifier : Bool) (packets : List Buf)
    → All (λ packet. length packet ≤ packet_size) packets
    → IsCut packet_size qualifier (send_data_of qualifier packets) (concat packets)
unfolding send_data_of
send_data_of-IsCut packet_size qualifier [] short = refl
send_data_of-IsCut packet_size qualifier (packet ∷ packets) (s, short) = (
  concat packets,
  refl,
  s,
  refl,
  ap not (is_empty-send_data_of qualifier packets),
  send_data_of-IsCut packet_size qualifier packets short,
)

queue_send_data-ok :
    (packet_size : ℕ) (user_data : Buf) (qualifier : Bool) (queue : List SendData)
    → 1 ≤ packet_size
    → (pieces : List SendData) × (queue_send_data packet_size user_data qualifier queue
        ≡ ok (queue ++ pieces))
      × IsCut packet_size qualifier pieces user_data
unfolding queue_send_data chunks
queue_send_data-ok packet_size user_data qualifier queue s =
    let (packets, e, whole, short, _) =
      chunks_with_lem (length user_data) packet_size user_data s (omega arith) in
    (
      send_data_of qualifier packets,
      rw (==-false packet_size 0 (omega (arith, s)), e) refl,
      subst (IsCut packet_size qualifier (send_data_of qualifier packets)) whole
          (send_data_of-IsCut packet_size qualifier packets short),
    )

module _ {Link : Type 0} (write_all : Link → Buf → Bool × Link) where
  -- What comes of a message in a state: in data transfer its pieces are queued, and packets for the front
  -- of the queue are written as far as the window allows; a state that is not connected refuses it; and a circuit
  -- that waits for the confirmation of a reset panics.
  abbrev pub Sends :
      (vc : VcInner Link) (state : VcState)
      → IsValidIn vc.params state
      → Buf
      → Bool
      → Result (VcInner Link × Result (Unit {0}))
      → Type 0
  Sends vc (data_transfer s) i user_data qualifier r =
      (pieces : List SendData) × IsCut vc.params.send_packet_size qualifier pieces user_data
      × (n : ℕ) × (vc' : VcInner Link) × (r ≡ ok (vc', ok tt))
      × IsSent write_all i.acked i.sent n (vc.send_data_queue ++ pieces) s vc vc'
  Sends vc (wait_reset_confirm _) i user_data qualifier r = r ≡ panic
  Sends vc _ i user_data qualifier r = r ≡ ok (vc, err broken_pipe)

  module _ (vc : VcInner Link) (user_data : Buf) (qualifier : Bool) where
    refused :
        is_connected vc.state ≡ false
        → send write_all user_data qualifier vc ≡ ok (vc, err broken_pipe)
    unfolding send
    refused h = rw h refl

    -- A circuit that is connected queues the message, and tries to send.
    accepted :
        (queue : List SendData) {r : Result (ℕ × VcInner Link)}
        → is_connected vc.state ≡ true
        → queue_send_data vc.params.send_packet_size user_data qualifier vc.send_data_queue
          ≡ ok queue
        → send_queued_data write_all (record vc { send_data_queue = queue }) ≡ r
        → send write_all user_data qualifier vc ≡ (r >>= λ (_, vc1). ok (vc1, ok tt))
    unfolding send
    accepted queue h e run = rw (h, e, run) refl

    connected_in : (state : VcState) → vc.state ≡ state → is_connected vc.state ≡ is_connected state
    connected_in state e = ap is_connected e

    in_data_transfer :
        (s : DataTransferState) (i : IsInStep vc.params s)
        → 1 ≤ vc.params.send_packet_size
        → vc.state ≡ data_transfer s
        → Sends vc (data_transfer s) i user_data qualifier (send write_all user_data qualifier vc)
    unfolding is_connected
    in_data_transfer s i size e =
        let (pieces, queued, cut) =
          queue_send_data-ok vc.params.send_packet_size user_data qualifier vc.send_data_queue
            size in
        let queue : List SendData = vc.send_data_queue ++ pieces in
        let (n, vc', run, w) =
          send_queued_data-IsSent write_all (record vc { send_data_queue = queue }) s i.acked i.sent
            e i.window in
        (
          pieces,
          cut,
          n,
          vc',
          accepted queue (connected_in (data_transfer s) e) queued run,
          record {
            taken = w.taken;
            left = w.left;
            within = w.within;
            params = w.params;
            channel = w.channel;
            received = w.received;
            link = w.link;
            written = w.written;
            state = w.state;
          },
        )

    awaiting_reset :
        (start_time : ℕ)
        → 1 ≤ vc.params.send_packet_size
        → vc.state ≡ wait_reset_confirm start_time
        → send write_all user_data qualifier vc ≡ panic
    unfolding is_connected send_queued_data send_queued_in
    awaiting_reset start_time size e =
        let (pieces, queued, cut) =
          queue_send_data-ok vc.params.send_packet_size user_data qualifier vc.send_data_queue
            size in
        let queue : List SendData = vc.send_data_queue ++ pieces in
        accepted queue (connected_in (wait_reset_confirm start_time) e) queued
          (ap (λ state. send_queued_in write_all state (record vc { send_data_queue = queue })) e)

    by_state :
        (state : VcState) (v : IsValidIn vc.params state)
        → 1 ≤ vc.params.send_packet_size
        → vc.state ≡ state
        → Sends vc state v user_data qualifier (send write_all user_data qualifier vc)
    unfolding is_connected
    by_state (data_transfer s) v size e = in_data_transfer s v size e
    by_state (wait_reset_confirm start_time) v size e = awaiting_reset start_time size e
    by_state ready v size e = refused (connected_in ready e)
    by_state (wait_call_accept t) v size e = refused (connected_in (wait_call_accept t) e)
    by_state (wait_clear_confirm t c) v size e = refused (connected_in (wait_clear_confirm t c) e)
    by_state (called p) v size e = refused (connected_in (called p) e)
    by_state (cleared c p) v size e = refused (connected_in (cleared c p) e)
    by_state out_of_order v size e = refused (connected_in out_of_order e)

    -- A message for a valid circuit with a packet size that is not zero: in data transfer, it is cut into
    -- pieces that are not longer than the packet size, which are put behind those that wait, with the
    -- qualifier and with more to come for all but the last. Packets for the front of the queue are written to
    -- the link, in order and with the sequence numbers that follow, until the queue is empty, the window
    -- closed, or a packet has no frame or is not written, when the link is out of order; the call returns
    -- without an error. A circuit that waits for the confirmation of a reset panics; and one that is not
    -- connected refuses the message and stays as it is.
    pub send-Sends :
        (v : IsValid vc)
        → 1 ≤ vc.params.send_packet_size
        → Sends vc vc.state v user_data qualifier (send write_all user_data qualifier vc)
    send-Sends v size = by_state vc.state v size refl

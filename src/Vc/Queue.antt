-- ===== src/Vc/Queue.antt =====
-- The queues of a virtual circuit, in libxotpad/src/x25/vc.rs: a message is cut into packets, and
-- put together again from the packets received.
pub mod Reassembly
use xotpad.Base.{
  ℕ, zero, suc, ◌+◌, ◌==◌, not, Bool, true, false, List, [], ◌∷◌, ◌++◌, length, take, drop,
  is_empty, if◌then◌else◌, Buf, Option, none, some, Result, ok, panic, stuck, ◌>>=◌,
}
use xotpad.Packet.Data.{X25Data}

pub record SendData : Type 0 where
  pub user_data : Buf
  pub qualifier : Bool
  pub more : Bool

-- `slice::chunks`, on fuel; it panics on a size of zero.
unfoldable pub chunks_with : ℕ → ℕ → Buf → Result (List Buf)
chunks_with zero size user_data = if is_empty user_data then ok [] else stuck
chunks_with (suc fuel) size user_data =
    let rest = chunks_with fuel size (drop size user_data) in
    if is_empty user_data then ok [] else (rest >>= λ packets. ok (take size user_data ∷ packets))

unfoldable pub chunks : ℕ → Buf → Result (List Buf)
unfolding chunks_with
chunks size user_data = if size == 0 then panic else chunks_with (length user_data) size user_data

-- The loop of `Svc::send`: all packets but the last have more to come.
unfoldable pub send_data_of : Bool → List Buf → List SendData
send_data_of qualifier [] = []
send_data_of qualifier (packet ∷ packets) =
    record { user_data = packet; qualifier = qualifier; more = not (is_empty packets) }
    ∷ send_data_of qualifier packets

-- `Svc::send` up to its call of `send_queued_data`.
unfoldable pub queue_send_data : ℕ → Buf → Bool → List SendData → Result (List SendData)
unfolding chunks send_data_of
queue_send_data packet_size user_data qualifier queue = do
  packets ← chunks packet_size user_data
  ok (queue ++ send_data_of qualifier packets)

-- `queue.iter().position(|d| !d.more)`
unfoldable pub position : List X25Data → Option ℕ
position [] = none
position (d ∷ queue) = if not d.more then some 0 else mathlib.Core.Option.map suc (position queue)

-- The loop over the drained packets.
unfoldable pub join : List X25Data → Buf → Bool → Buf × Bool
join [] user_data qualifier = (user_data, qualifier)
join (packet ∷ packets) user_data qualifier =
    join packets (user_data ++ packet.user_data) packet.qualifier

unfoldable pub pop_at : Option ℕ → List X25Data → Option (Buf × Bool) × List X25Data
pop_at none queue = (none, queue)
pop_at (some index) queue = (some (join (take (suc index) queue) [] false), drop (suc index) queue)

unfoldable pub pop_complete_data : List X25Data → Option (Buf × Bool) × List X25Data
unfolding position join pop_at
pop_complete_data queue = if is_empty queue then (none, queue) else pop_at (position queue) queue

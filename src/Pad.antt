-- ===== src/Pad.antt =====
-- The packet assembler/disassembler: libxotpad/src/pad.rs. This module has its buffers, the module
-- Remote the X.29 messages.
pub mod Remote
pub mod Writing
pub mod Reading
use xotpad.Base.{
  ℕ, zero, suc, ◌+◌, ◌-◌, Bool, true, false, not, ◌&&◌, ◌||◌, List, [], ◌∷◌, ◌++◌, length, take,
  drop, min, leb, ltb, ◌==◌, is_empty, if◌then◌else◌, Buf, Option, none, some, Result, ok, err,
  panic, stuck, ◌>>=◌,
}
use xotpad.X3.{
  Checked, X3Echo, X3LfInsert, bool_from, is_match, delay, after_recv, after_send, after_echo,
}
use xotpad.X3.PadParams.{PadParams}

-- What a PAD uses of its virtual circuit, `Svc`.
pub record Circuit (S : Type 0) : Type 0 where
  pub send : S → Buf → Bool → S × Result (Unit {0})
  pub flush : S → S × Result (Unit {0})
  pub clear : S → ℕ → ℕ → S × Result (Unit {0})
  pub packet_size : S → ℕ

-- The `Option<Sender<IndicateMessage>>`, and whether the receiver is still there.
pub data IndicateChannel : Type 0 where
  idle : IndicateChannel
  awaited : IndicateChannel
  abandoned : IndicateChannel

-- The queues are shared by the client and the threads, behind locks. `indications` is what was sent
-- to the client and not yet received.
pub record Pad (S Q : Type 0) : Type 0 where
  pub svc : S
  pub params : PadParams Q
  pub should_suppress_echo_when_editing : Bool
  pub send_queue : Buf
  pub send_deadline : Option ℕ
  pub recv_queue : Buf
  pub recv_end : Bool
  pub indicate_channel : IndicateChannel
  pub indications : List (List (ℕ × Checked ℕ))

abbrev pub lf : ℕ
lf = 0x0a

-- A byte and the line feed that may follow it.
abbrev pub with_lf : Bool → ℕ → Buf
with_lf after byte = if after then byte ∷ lf ∷ [] else byte ∷ []

unfoldable pub new : {S Q : Type 0} → S → PadParams Q → Bool → Pad S Q
new svc params suppress = record {
  svc = svc;
  params = params;
  should_suppress_echo_when_editing = suppress;
  send_queue = [];
  send_deadline = none;
  recv_queue = [];
  recv_end = false;
  indicate_channel = idle;
  indications = [];
}

-- The loop of `queue_recv_data`.
unfoldable pub queue_recv_bytes : X3LfInsert → Buf → Buf → Buf
queue_recv_bytes lf_insert [] queue = queue
queue_recv_bytes lf_insert (byte ∷ user_data) queue =
    queue_recv_bytes lf_insert user_data (queue ++ with_lf (after_recv lf_insert byte) byte)

-- `Read::read` into a buffer of this length: the bytes read, or `none` while it waits for some.
unfoldable pub read : {S Q : Type 0} → ℕ → Pad S Q → Pad S Q × Option Buf
read len pad =
    if len == 0
    then (pad, some [])
    else if not (is_empty pad.recv_queue)
    then (record pad { recv_queue = drop len pad.recv_queue }, some (take len pad.recv_queue))
    else if pad.recv_end
    then (pad, some [])
    else (pad, none)

unfoldable pub should_echo_write : {S Q : Type 0} → Pad S Q → Result Bool
should_echo_write pad = do
  echo ← bool_from pad.params.echo.raw
  if not echo then ok false else do
    editing ← bool_from pad.params.editing.raw
    ok (not (editing && pad.should_suppress_echo_when_editing))

-- `?` in a function on a state.
unfoldable pub and_then : {T A : Type 0} → T × Result A → (A → T → T × Result A) → T × Result A
and_then (s, ok a) next = next a s
and_then (s, err e) next = (s, err e)
and_then (s, panic) next = (s, panic)
and_then (s, stuck) next = (s, stuck)

unfoldable pub echo_byte : {S Q : Type 0} → Bool → ℕ → Pad S Q → Pad S Q
echo_byte should_echo byte pad =
    if should_echo
    then record pad {
      recv_queue = pad.recv_queue ++ with_lf (after_echo pad.params.lf_insert byte) byte;
    }
    else pad

unfoldable pub set_deadline : {S Q : Type 0} → Option ℕ → ℕ → Pad S Q → Pad S Q
set_deadline none now pad = pad
set_deadline (some d) now pad =
    if not (is_empty pad.send_queue) then record pad { send_deadline = some (now + d) } else pad

-- After the loop: the deadline of what is left, and the number of bytes.
unfoldable pub written : {S Q : Type 0} → ℕ → ℕ → Pad S Q × Result (Unit {0}) → Pad S Q × Result ℕ
unfolding set_deadline
written now count (pad, ok _) = (set_deadline (delay pad.params.idle) now pad, ok count)
written now count (pad, err e) = (pad, err e)
written now count (pad, panic) = (pad, panic)
written now count (pad, stuck) = (pad, stuck)

module _ {S Q : Type 0} (circuit : Circuit S) where
  -- The queue and its deadline are emptied whether the circuit takes the data or not.
  unfoldable pub send_queued_data : Pad S Q → Pad S Q × Result (Unit {0})
  send_queued_data pad =
      let (svc, result) = circuit.send pad.svc pad.send_queue false in
      (record pad { svc = svc; send_queue = []; send_deadline = none }, result)

  -- One round of the loop of `Write::write`.
  unfoldable pub write_byte : ℕ → Bool → ℕ → Pad S Q → Pad S Q × Result (Unit {0})
  unfolding send_queued_data
  write_byte packet_size should_echo byte pad =
      let pad1 = echo_byte should_echo byte pad in
      let queue = pad1.send_queue ++ with_lf (after_send pad1.params.lf_insert byte) byte in
      let pad2 : Pad S Q = record pad1 { send_queue = queue } in
      if is_match pad2.params.forward byte || leb packet_size (length queue)
      then send_queued_data pad2
      else (pad2, ok tt)

  unfoldable pub write_loop : ℕ → Bool → Buf → Pad S Q → Pad S Q × Result (Unit {0})
  unfolding and_then
  write_loop packet_size should_echo [] pad = (pad, ok tt)
  write_loop packet_size should_echo (byte ∷ buf) pad =
      and_then (write_byte packet_size should_echo byte pad)
        λ _ pad1. write_loop packet_size should_echo buf pad1

  unfoldable pub write_echo : Result Bool → ℕ → Buf → Pad S Q → Pad S Q × Result ℕ
  unfolding written write_loop
  write_echo (ok should_echo) now buf pad =
      written now (length buf) (write_loop (circuit.packet_size pad.svc) should_echo buf pad)
  write_echo (err e) now buf pad = (pad, err e)
  write_echo panic now buf pad = (pad, panic)
  write_echo stuck now buf pad = (pad, stuck)

  -- `Write::write`
  unfoldable pub write : ℕ → Buf → Pad S Q → Pad S Q × Result ℕ
  unfolding write_echo should_echo_write
  write now buf pad =
      if is_empty buf then (pad, ok 0) else write_echo (should_echo_write pad) now buf pad

  -- `Write::flush`
  unfoldable pub flush : Pad S Q → Pad S Q × Result (Unit {0})
  unfolding and_then send_queued_data
  flush pad =
      and_then (send_queued_data pad)
        λ _ pad1. let (svc, result) = circuit.flush pad1.svc in (record pad1 { svc = svc }, result)

  -- One round of the thread that sends what has waited for its deadline; an error ends it.
  unfoldable pub send_idle : ℕ → Pad S Q → Pad S Q × Result (Unit {0})
  unfolding send_queued_data
  send_idle now pad = elim pad.send_deadline [
    | some deadline ↦
        if not (is_empty pad.send_queue) && leb deadline now
        then send_queued_data pad
        else (pad, ok tt)
    | none ↦ (pad, ok tt)
  ]

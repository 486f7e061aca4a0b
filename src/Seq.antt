-- ===== src/Seq.antt =====
-- Packet sequence numbers and the flow control window: libxotpad/src/x25/seq.rs.
-- A u8 is a number below 256, and u8 addition wraps (`% 256`).
pub mod Counters
use xotpad.Base.{
  ℕ, ◌+◌, ◌-◌, ◌%◌, Bool, true, false, not, ◌&&◌, ◌||◌, ltb, leb, ◌==◌, if◌then◌else◌, Result, ok,
  ◌>>◌, assert,
}

pub data X25Modulo : Type 0 where
  normal extended : X25Modulo

-- `modulo as u8`
abbrev pub as_u8 : X25Modulo → ℕ
as_u8 normal = 8
as_u8 extended = 128

unfoldable pub next_seq : ℕ → X25Modulo → ℕ
next_seq seq modulo = (seq + 1) % 256 % as_u8 modulo

pub record Window : Type 0 where
  pub start : ℕ
  pub size : ℕ
  pub modulo : X25Modulo
  pub current : ℕ

-- The source's `Window::new`, with its assertion.
unfoldable pub new : ℕ → X25Modulo → Result Window
new size modulo = do
  assert (ltb 0 size && ltb size (as_u8 modulo))
  ok (record { start = 0; size = size; modulo = modulo; current = 0 })

unfoldable pub is_open : Window → Bool
is_open w = not (w.current == (w.start + w.size) % 256 % as_u8 w.modulo)

unfoldable pub seq : Window → ℕ
seq w = w.current

unfoldable pub incr : Window → Window × Bool
unfolding is_open next_seq
incr w =
    if not (is_open w)
    then (w, false)
    else (record w { current = next_seq w.current w.modulo }, true)

unfoldable pub is_seq_in_range : ℕ → ℕ → ℕ → X25Modulo → Bool
is_seq_in_range seq start end modulo =
    if ltb (as_u8 modulo - 1) seq
    then false
    else if start == end && seq == start
    then true
    else if ltb start end && (leb start seq && leb seq end)
    then true
    else if ltb end start && (leb start seq || leb seq end)
    then true
    else false

unfoldable pub update_start : Window → ℕ → Window × Bool
unfolding is_seq_in_range
update_start w seq =
    if not (is_seq_in_range seq w.start w.current w.modulo)
    then (w, false)
    else (record w { start = seq }, true)

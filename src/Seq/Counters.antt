-- ===== src/Seq/Counters.antt =====
-- The window against unbounded counters: `acked` packets acknowledged, `sent` packets sent.
use xotpad.Base.{ℕ, ◌+◌, ◌-◌, ◌%◌, ◌≤◌, ◌<◌, ◌≡◌, arith, true, false, ltb, ok, if◌then◌else◌}
use xotpad.Seq.{X25Modulo, normal, extended, as_u8, Window, new, is_open, incr, update_start}

-- `w` stands for the counters: its numbers are theirs modulo 8 or 128, and at most `size` packets
-- are outstanding.
pub record Represents (w : Window) (acked sent : ℕ) : Type 0 where
  pub start : w.start ≡ acked % as_u8 w.modulo
  pub current : w.current ≡ sent % as_u8 w.modulo
  pub positive : 0 < w.size
  pub narrow : w.size < as_u8 w.modulo
  pub ordered : acked ≤ sent
  pub bounded : sent ≤ acked + w.size

pub new-Represents :
    (size : ℕ) (modulo : X25Modulo) {w : Window} → new size modulo ≡ ok w → Represents w 0 0
unfolding new
new-Represents size normal h = ground arith
new-Represents size extended h = ground arith

pub is_open-Represents :
    (w : Window) (acked sent : ℕ) → Represents w acked sent → is_open w ≡ ltb sent (acked + w.size)
unfolding is_open
is_open-Represents w acked sent r = ground arith

-- For a window that stands for the counters: a packet is counted, and `incr` returns true, exactly
-- when fewer packets are outstanding than the window has room for.
pub incr-Represents :
    (w : Window) (acked sent : ℕ)
    → Represents w acked sent
    → ((incr w).1 ≡ ltb sent (acked + w.size))
      × Represents (incr w).0 acked (if ltb sent (acked + w.size) then sent + 1 else sent)
unfolding incr
incr-Represents w acked sent r = ground arith

-- The next sequence number of an acknowledgment: `acked` itself or one of those sent since.
abbrev pub acknowledged : Window → ℕ → ℕ → ℕ
acknowledged w acked seq = acked + (seq + as_u8 w.modulo - acked % as_u8 w.modulo) % as_u8 w.modulo

-- For a window that stands for the counters: an acknowledgment up to any number of packets from those
-- acknowledged to those sent is accepted, and the window then stands for that number acknowledged.
pub update_start_complete :
    (w : Window) (acked sent k : ℕ)
    → Represents w acked sent
    → acked ≤ k
    → k ≤ sent
    → ((update_start w (k % as_u8 w.modulo)).1 ≡ true)
      × Represents (update_start w (k % as_u8 w.modulo)).0 k sent
unfolding update_start
update_start_complete w acked sent k r lo hi = ground arith

-- For a window that stands for the counters: an acknowledgment that is accepted is that of a number
-- of packets from those acknowledged to those sent, for which the window then stands.
pub update_start_sound :
    (w : Window) (acked sent seq : ℕ)
    → Represents w acked sent
    → (update_start w seq).1 ≡ true
    → (acked ≤ acknowledged w acked seq)
      × (acknowledged w acked seq ≤ sent)
      × (seq ≡ acknowledged w acked seq % as_u8 w.modulo)
      × Represents (update_start w seq).0 (acknowledged w acked seq) sent
unfolding update_start
update_start_sound w acked sent seq r h = ground arith

pub update_start_refused :
    (w : Window) (seq : ℕ) → (update_start w seq).1 ≡ false → update_start w seq ≡ (w, false)
unfolding update_start
update_start_refused w seq h = ground arith

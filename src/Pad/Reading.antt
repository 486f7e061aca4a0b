-- ===== src/Pad/Reading.antt =====
-- What a client reads is what was received or echoed, in order.
use xotpad.Base.{
  ℕ, ◌<◌, ◌≡◌, ◌⊎◌, inl, inr, arith, refl, ap, sym, ◌∙◌, true, false, [], ◌∷◌, ◌++◌, length, take,
  min, ◌==◌, is_empty, Buf, Bool-cases, Option, none, some, append_assoc, append-nil,
  take-append-drop, length-take, ==→eq,
}
use xotpad.X3.{X3LfInsert, after_recv}
use xotpad.Pad.{Pad, with_lf, queue_recv_bytes, read}
use xotpad.Pad.Writing.Rounds.{expand}

-- Received data are put behind the bytes that wait, each CR with the line feed that the parameters
-- ask for.
pub queue_recv_bytes-expand :
    (lf_insert : X3LfInsert) (user_data queue : Buf)
    → queue_recv_bytes lf_insert user_data queue ≡ queue ++ expand (after_recv lf_insert) user_data
unfolding queue_recv_bytes
queue_recv_bytes-expand lf_insert [] queue = sym (append-nil queue)
queue_recv_bytes-expand lf_insert (byte ∷ user_data) queue =
    queue_recv_bytes-expand lf_insert user_data (queue ++ with_lf (after_recv lf_insert byte) byte)
    ∙ append_assoc queue (with_lf (after_recv lf_insert byte) byte)
        (expand (after_recv lf_insert) user_data)

-- What a call of `read` means: it waits, with nothing to read and the end not seen; or it gives the
-- front of the queue, and nothing only if nothing was asked for or nothing will come.
abbrev pub IsRead : {S Q : Type 0} → ℕ → Pad S Q → Pad S Q × Option Buf → Type 0
IsRead len pad (pad', none) = (pad' ≡ pad) × (pad.recv_queue ≡ []) × (pad.recv_end ≡ false)
IsRead len pad (pad', some text) =
    (text ++ pad'.recv_queue ≡ pad.recv_queue)
    × (length text ≡ min len (length pad.recv_queue))
    × ((len ≡ 0) ⊎ (0 < length text) ⊎ ((pad.recv_queue ≡ []) × (pad.recv_end ≡ true)))

front :
    (len : ℕ) (queue : Buf)
    → (len == 0) ≡ false
    → is_empty queue ≡ false
    → 0 < length (take len queue)
front len [] a h = cc
front len (b ∷ queue) a h = ground (arith, length-take len (b ∷ queue))

is_empty→eq : (queue : Buf) → is_empty queue ≡ true → queue ≡ []
is_empty→eq [] h = refl
is_empty→eq (b ∷ queue) h = cc

nothing : (len : ℕ) (queue : Buf) → queue ≡ [] → ◌≡◌ {A = ℕ} 0 (min len (length queue))
nothing len queue e = omega (arith, ap length e)

module _ {S Q : Type 0} where
  -- A call of `read` gives as many bytes as were asked for, or all that wait, from the front of the
  -- queue, and leaves the others in order. It gives nothing only if nothing was asked for or the end
  -- was seen, and it waits only if the queue is empty and the end was not seen.
  pub read-IsRead : (len : ℕ) (pad : Pad S Q) → IsRead len pad (read len pad)
  unfolding read
  read-IsRead len pad = elim (Bool-cases (len == 0)) [
    | inl none_asked ↦
        rw none_asked (refl, omega (arith, ==→eq len 0 none_asked), inl (==→eq len 0 none_asked))
    | inr asked ↦ elim (Bool-cases (is_empty pad.recv_queue)) [
      | inr some_there ↦
          rw (asked, some_there)
            (
              take-append-drop len pad.recv_queue,
              length-take len pad.recv_queue,
              inr (inl (front len pad.recv_queue asked some_there)),
            )
      | inl no_more ↦
          let e = is_empty→eq pad.recv_queue no_more in
          elim (Bool-cases pad.recv_end) [
            | inl ended ↦
                rw (asked, no_more, ended) (refl, nothing len pad.recv_queue e, inr (inr (e, refl)))
            | inr going ↦ rw (asked, no_more, going) (refl, e, refl)
          ]
    ]
  ]

-- ===== src/Pad/Writing/Rounds.antt =====
-- One round of the loop of `Write::write`, and the loop.
use xotpad.Base.{
  ℕ, ◌<◌, ◌≡◌, ◌≢◌, ◌⊎◌, inl, inr, arith, refl, ap, sym, subst, ◌∙◌, Bool, true, false, ◌||◌, [],
  ◌∷◌, ◌++◌, length, leb, if◌then◌else◌, Buf, Result, ok, err, panic, stuck, append_assoc,
  append-nil,
}
use xotpad.X3.{is_match, after_send, after_echo}
use xotpad.X3.PadParams.{PadParams}
use xotpad.Pad.{
  Circuit, Pad, with_lf, and_then, echo_byte, send_queued_data, write_byte, write_loop,
}

-- The bytes to send, and those to echo.
abbrev pub expand : (ℕ → Bool) → Buf → Buf
expand after [] = []
expand after (byte ∷ buf) = with_lf (after byte) byte ++ expand after buf

abbrev pub echo_of : Bool → (ℕ → Bool) → Buf → Buf
echo_of true after buf = expand after buf
echo_of false after buf = []

ok-cases : (r : Result (Unit {0})) → (r ≡ ok tt) ⊎ (r ≢ ok tt)
ok-cases (ok tt) = inl refl
ok-cases (err e) = inr (λ h. cc)
ok-cases panic = inr (λ h. cc)
ok-cases stuck = inr (λ h. cc)

module _ {S : Type 0} (circuit : Circuit S) (sent : S → Buf) where
  -- What the circuit accepts is behind what it accepted before.
  abbrev pub IsInOrder : Type 0
  IsInOrder =
      (s : S) (buf : Buf)
      → (circuit.send s buf false).1 ≡ ok tt
      → sent (circuit.send s buf false).0 ≡ sent s ++ buf

  module _ {Q : Type 0} where
    -- From `pad` to `pad'` these bytes were sent or queued, and these were echoed.
    pub record IsWritten (text echo : Buf) (pad pad' : Pad S Q) : Type 0 where
      pub kept : sent pad'.svc ++ pad'.send_queue ≡ (sent pad.svc ++ pad.send_queue) ++ text
      pub echoed : pad'.recv_queue ≡ pad.recv_queue ++ echo
      pub params : pad'.params ≡ pad.params

    -- All is written and the queue is shorter than a packet, or the circuit refused something.
    abbrev pub Writes : {A : Type 0} → A → ℕ → Buf → Buf → Pad S Q → Pad S Q × Result A → Type 0
    Writes a size text echo pad (pad', r) =
        ((r ≡ ok a) × IsWritten text echo pad pad' × (length pad'.send_queue < size))
        ⊎ ((s : S) × (buf : Buf) × ((circuit.send s buf false).1 ≢ ok tt) × (r ≢ ok a))

    module _ (in_order : IsInOrder) (size : ℕ) (pos : 0 < size) where
      -- The queue with the new bytes is sent, or kept because it is short.
      sends :
          (text echo : Buf) (pad pad1 : Pad S Q)
          → IsWritten text echo pad pad1
          → Writes tt size text echo pad (send_queued_data circuit pad1)
      unfolding send_queued_data
      sends text echo pad pad1 w = elim (ok-cases (circuit.send pad1.svc pad1.send_queue false).1) [
        | inl taken ↦ inl (
          taken,
          record {
            kept = append-nil _ ∙ in_order pad1.svc pad1.send_queue taken ∙ w.kept;
            echoed = w.echoed;
            params = w.params;
          },
          pos,
        )
        | inr refused ↦ inr (pad1.svc, pad1.send_queue, refused, refused)
      ]

      abbrev echoes : Bool → ℕ → Pad S Q → Buf
      echoes true byte pad = with_lf (after_echo pad.params.lf_insert byte) byte
      echoes false byte pad = []

      echo_byte_lem :
          (b : Bool) (byte : ℕ) (pad : Pad S Q)
          → IsWritten [] (echoes b byte pad) pad (echo_byte b byte pad)
      unfolding echo_byte
      echo_byte_lem true byte pad = record {
        kept = sym (append-nil _);
        echoed = refl;
        params = refl;
      }
      echo_byte_lem false byte pad = record {
        kept = sym (append-nil _);
        echoed = sym (append-nil _);
        params = refl;
      }

      queued :
          (text echo : Buf) (pad pad1 : Pad S Q)
          → IsWritten [] echo pad pad1
          → IsWritten text echo pad (record pad1 { send_queue = pad1.send_queue ++ text })
      queued text echo pad pad1 w = record {
        kept =
            sym (append_assoc (sent pad1.svc) pad1.send_queue text)
            ∙ ap (λ t. t ++ text) (w.kept ∙ append-nil _);
        echoed = w.echoed;
        params = w.params;
      }

      -- The end of a round, on the test for sending.
      round :
          (b : Bool) (text echo : Buf) (pad pad2 : Pad S Q)
          → IsWritten text echo pad pad2
          → (b ≡ false → length pad2.send_queue < size)
          → Writes tt size text echo pad
              (if b then send_queued_data circuit pad2 else (pad2, ok tt))
      round true text echo pad pad2 w short = sends text echo pad pad2 w
      round false text echo pad pad2 w short = inl (refl, w, short refl)

      write_byte_lem :
          (b : Bool) (byte : ℕ) (pad : Pad S Q)
          → Writes tt size
              (with_lf (after_send pad.params.lf_insert byte) byte)
              (echoes b byte pad)
              pad
              (write_byte circuit size b byte pad)
      unfolding write_byte
      write_byte_lem b byte pad =
          let e = echo_byte_lem b byte pad in
          let pad1 : Pad S Q = echo_byte b byte pad in
          let text : Buf = with_lf (after_send pad1.params.lf_insert byte) byte in
          subst
            (λ (params : PadParams Q).
              Writes tt size (with_lf (after_send params.lf_insert byte) byte) (echoes b byte pad)
                pad (write_byte circuit size b byte pad))
            e.params
            (round
              (is_match pad1.params.forward byte || leb size (length (pad1.send_queue ++ text)))
              text (echoes b byte pad) pad (record pad1 { send_queue = pad1.send_queue ++ text })
              (queued text (echoes b byte pad) pad pad1 e)
              λ (h : (is_match pad1.params.forward byte
                    || leb size (length (pad1.send_queue ++ text)))
                  ≡ false).
                ground (arith, h))

      -- One round and the rest.
      joined :
          (text more echo others : Buf) (pad pad1 pad2 : Pad S Q)
          → IsWritten text echo pad pad1
          → IsWritten more others pad1 pad2
          → IsWritten (text ++ more) (echo ++ others) pad pad2
      joined text more echo others pad pad1 pad2 w v = record {
        kept =
            v.kept
            ∙ ap (λ t. t ++ more) w.kept
            ∙ append_assoc (sent pad.svc ++ pad.send_queue) text more;
        echoed =
            v.echoed ∙ ap (λ t. t ++ others) w.echoed ∙ append_assoc pad.recv_queue echo others;
        params = v.params ∙ w.params;
      }

      step :
          (text more echo others : Buf) (pad : Pad S Q)
          (next : Pad S Q → Pad S Q × Result (Unit {0})) (x : Pad S Q × Result (Unit {0}))
          → Writes tt size text echo pad x
          → ((pad1 : Pad S Q)
              → IsWritten text echo pad pad1
              → length pad1.send_queue < size
              → Writes tt size more others pad1 (next pad1))
          → Writes tt size (text ++ more) (echo ++ others) pad (and_then x λ _ pad1. next pad1)
      unfolding and_then
      step text more echo others pad next (pad1, ok tt) (inl (e, w, short)) k =
          elim (k pad1 w short) [
            | inl (done, v, less) ↦
                inl (done, joined text more echo others pad pad1 (next pad1).0 w v, less)
            | inr refused ↦ inr refused
          ]
      step text more echo others pad next (pad1, ok tt) (inr (s, b, refused, ne)) k =
          absurd (ne refl)
      step text more echo others pad next (pad1, err e) (inl (same, w, short)) k = cc
      step text more echo others pad next (pad1, err e) (inr (s, b, refused, ne)) k =
          inr (s, b, refused, ne)
      step text more echo others pad next (pad1, panic) (inl (same, w, short)) k = cc
      step text more echo others pad next (pad1, panic) (inr (s, b, refused, ne)) k =
          inr (s, b, refused, ne)
      step text more echo others pad next (pad1, stuck) (inl (same, w, short)) k = cc
      step text more echo others pad next (pad1, stuck) (inr (s, b, refused, ne)) k =
          inr (s, b, refused, ne)

      pub nothing :
          (b : Bool) (pad : Pad S Q)
          → IsWritten [] (echo_of b (after_echo pad.params.lf_insert) []) pad pad
      nothing true pad = record {
        kept = sym (append-nil _);
        echoed = sym (append-nil _);
        params = refl;
      }
      nothing false pad = record {
        kept = sym (append-nil _);
        echoed = sym (append-nil _);
        params = refl;
      }

      echo_first :
          (b : Bool) (byte : ℕ) (buf : Buf) (pad : Pad S Q)
          → echo_of b (after_echo pad.params.lf_insert) (byte ∷ buf)
            ≡ echoes b byte pad ++ echo_of b (after_echo pad.params.lf_insert) buf
      echo_first true byte buf pad = refl
      echo_first false byte buf pad = refl

      pub write_loop_lem :
          (b : Bool) (buf : Buf) (pad : Pad S Q)
          → length pad.send_queue < size
          → Writes tt size
              (expand (after_send pad.params.lf_insert) buf)
              (echo_of b (after_echo pad.params.lf_insert) buf)
              pad
              (write_loop circuit size b buf pad)
      unfolding write_loop
      write_loop_lem b [] pad short = inl (refl, nothing b pad, short)
      write_loop_lem b (byte ∷ buf) pad short = rw (echo_first b byte buf pad) (
          step (with_lf (after_send pad.params.lf_insert byte) byte)
            (expand (after_send pad.params.lf_insert) buf) (echoes b byte pad)
            (echo_of b (after_echo pad.params.lf_insert) buf) pad
            (λ pad1. write_loop circuit size b buf pad1) (write_byte circuit size b byte pad)
            (write_byte_lem b byte pad)
            λ pad1 w less.
              subst
                (λ (params : PadParams Q).
                  Writes tt size (expand (after_send params.lf_insert) buf)
                    (echo_of b (after_echo params.lf_insert) buf) pad1
                    (write_loop circuit size b buf pad1))
                w.params (write_loop_lem b buf pad1 less))

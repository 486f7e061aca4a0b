-- ===== src/UserPad/CommandLine/Escapes.antt =====
-- Which escape sequences are taken off the command line.
use xotpad.Base.{
  ℕ, suc, ◌+◌, ◌-◌, ◌≡◌, arith, refl, ap, sym, ◌∙◌, Bool, true, false, not, ◌&&◌, [], ◌∷◌, ◌++◌,
  length, length-append, take, take-length_append, contains, all, ◌==◌, if◌then◌else◌, Buf, none,
  append_assoc, append-nil, Result, ok, ◌>>=◌, subst,
}
use xotpad.X3.UserPadParams.{is_char_delete}
use xotpad.UserPad.CommandLine.{
  esc, index, in_escape_sequence, sequence_len, trim_complete_escape_sequence, is_ascii_control,
  echo_trimmed, handle_character, handle_command_input,
}

index-append :
    (before rest : Buf) (n : ℕ) → index (before ++ rest) (length before + n) ≡ index rest n
unfolding index
index-append [] rest n = ap (index rest) (omega arith)
index-append (b ∷ before) rest n =
    ap (index (b ∷ before ++ rest)) {x = suc (length before) + n} {y = suc (length before + n)}
      (omega arith)
    ∙ index-append before rest n

module _ (before : Buf) (a b c : ℕ) where
  abbrev text : Buf
  text = before ++ (a ∷ b ∷ c ∷ [])

  text-length : length text ≡ length before + 3
  text-length = length-append before (a ∷ b ∷ c ∷ [])

  third : index text (length text - 3) ≡ ok a
  unfolding index
  third = ap (index text) (omega (arith, text-length)) ∙ index-append before (a ∷ b ∷ c ∷ []) 0

  second : index text (length text - 2) ≡ ok b
  unfolding index
  second = ap (index text) (omega (arith, text-length)) ∙ index-append before (a ∷ b ∷ c ∷ []) 1

  whole : take (length text - 3) text ≡ before
  whole =
      ap (λ n. take n text) (omega (arith, text-length))
      ∙ take-length_append before (a ∷ b ∷ c ∷ [])

  -- A buffer of three bytes or more loses its last three exactly when they are an escape and two bytes of
  -- which the first is not the letter O; longer sequences stay.
  pub trim_complete_escape_sequence_lem :
      trim_complete_escape_sequence (before ++ (a ∷ b ∷ c ∷ []))
      ≡ ok (
          if a == esc && not (b == b'O')
          then (before, true)
          else (before ++ (a ∷ b ∷ c ∷ []), false))
  unfolding trim_complete_escape_sequence sequence_len
  trim_complete_escape_sequence_lem = ground (arith, text-length, third, second, whole)

-- Printable characters, of which none is an escape.
abbrev pub is_plain : ℕ → Bool
is_plain byte = not (is_ascii_control byte)

plain-esc : (byte : ℕ) → is_plain byte ≡ true → (byte == esc) ≡ false
plain-esc byte h = ground arith

not_control :
    (byte : ℕ) → is_plain byte ≡ true → (is_ascii_control byte && not (byte == esc)) ≡ false
not_control byte h = ground arith

contains-append :
    (xs : Buf) (c : ℕ) (ys : Buf) → contains ys c ≡ true → contains (xs ++ ys) c ≡ true
contains-append [] c ys h = h
contains-append (x ∷ xs) c ys h = ground (arith, contains-append xs c ys h)

not_trimmed :
    (before : Buf) (a b c : ℕ)
    → (a == esc && not (b == b'O')) ≡ false
    → trim_complete_escape_sequence (before ++ (a ∷ b ∷ c ∷ []))
      ≡ ok (before ++ (a ∷ b ∷ c ∷ []), false)
not_trimmed before a b c h = trim_complete_escape_sequence_lem before a b c ∙ rw h refl

plain_end :
    (before more : Buf) (r r' byte : ℕ)
    → all is_plain (r ∷ r' ∷ more) ≡ true
    → let buf = before ++ (r ∷ r' ∷ more ++ (byte ∷ [])) in
      trim_complete_escape_sequence buf ≡ ok (buf, false)
plain_end before [] r r' byte h = not_trimmed before r r' byte (ground (arith, plain-esc r))
plain_end before (m ∷ more) r r' byte h =
    subst (λ (buf : Buf). trim_complete_escape_sequence buf ≡ ok (buf, false))
      (append_assoc before (r ∷ []) (r' ∷ m ∷ more ++ (byte ∷ [])))
      (plain_end (before ++ (r ∷ [])) more r' m byte (ground arith))

-- A buffer in which an escape and an O are followed by printable characters is left alone.
stays :
    (before more : Buf) (byte : ℕ)
    → all is_plain more ≡ true
    → let buf = before ++ (esc ∷ b'O' ∷ more ++ (byte ∷ [])) in
      trim_complete_escape_sequence buf ≡ ok (buf, false)
stays before [] byte h = not_trimmed before esc b'O' byte refl
stays before (r ∷ []) byte h =
    subst (λ (buf : Buf). trim_complete_escape_sequence buf ≡ ok (buf, false))
      (append_assoc before (esc ∷ []) (b'O' ∷ r ∷ byte ∷ []))
      (not_trimmed (before ++ (esc ∷ [])) b'O' r byte refl)
stays before (r ∷ r' ∷ more) byte h =
    subst (λ (buf : Buf). trim_complete_escape_sequence buf ≡ ok (buf, false))
      (append_assoc before (esc ∷ b'O' ∷ []) (r ∷ r' ∷ more ++ (byte ∷ [])))
      (plain_end (before ++ (esc ∷ b'O' ∷ [])) more r r' byte h)

-- The characters typed one after the other: the buffer, and what is written.
unfoldable pub typed : (Buf → Bool) → Bool → Buf → Buf → Result (Buf × Buf)
typed is_utf8 windows buf [] = ok (buf, [])
typed is_utf8 windows buf (byte ∷ bytes) = do
  (buf1, echo, line) ← handle_command_input is_utf8 windows buf byte
  (buf2, echoes) ← typed is_utf8 windows buf1 bytes
  ok (buf2, echo ++ echoes)

no_delete : (windows : Bool) (byte : ℕ) → is_plain byte ≡ true → is_char_delete windows byte ≡ false
unfolding is_char_delete
no_delete windows byte h = ground arith

one_silent :
    (windows : Bool) (before more : Buf) (byte : ℕ)
    → all is_plain more ≡ true
    → is_plain byte ≡ true
    → handle_character windows (before ++ (esc ∷ b'O' ∷ more)) byte
      ≡ ok (before ++ (esc ∷ b'O' ∷ more ++ (byte ∷ [])), [])
unfolding handle_character echo_trimmed in_escape_sequence
one_silent windows before more byte h plain =
    let kept = append_assoc before (esc ∷ b'O' ∷ more) (byte ∷ []) in
    rw
      (
        no_delete windows byte plain,
        not_control byte plain,
        kept,
        stays before more byte h,
        contains-append before esc (esc ∷ b'O' ∷ more ++ (byte ∷ [])) refl,
      )
      refl

pub all-snoc :
    (p : ℕ → Bool) (xs : Buf) (x : ℕ) → all p xs ≡ true → p x ≡ true → all p (xs ++ (x ∷ [])) ≡ true
all-snoc p [] x h k = ground arith
all-snoc p (y ∷ xs) x h k = ground (arith, all-snoc p xs x)

no_return : (byte : ℕ) → is_plain byte ≡ true → (byte == 0x0d) ≡ false
no_return byte h = ground arith

one_hidden :
    (is_utf8 : Buf → Bool) (windows : Bool) (before more : Buf) (byte : ℕ)
    → all is_plain more ≡ true
    → is_plain byte ≡ true
    → handle_command_input is_utf8 windows (before ++ (esc ∷ b'O' ∷ more)) byte
      ≡ ok (before ++ (esc ∷ b'O' ∷ more ++ (byte ∷ [])), [], none)
unfolding handle_command_input
one_hidden is_utf8 windows before more byte h plain =
    rw (no_return byte plain, one_silent windows before more byte h plain) refl

-- When the line holds an escape, an O and printable characters, whatever printable characters are then
-- typed, nothing is shown, and all of it stays in the line, the escape included.
pub typed_silent :
    (is_utf8 : Buf → Bool) (windows : Bool) (before more bytes : Buf)
    → all is_plain more ≡ true
    → all is_plain bytes ≡ true
    → typed is_utf8 windows (before ++ (esc ∷ b'O' ∷ more)) bytes
      ≡ ok (before ++ (esc ∷ b'O' ∷ more ++ bytes), [])
unfolding typed
typed_silent is_utf8 windows before more [] h k =
    ap (λ l. ok (before ++ (esc ∷ b'O' ∷ l), [])) (sym (append-nil more))
typed_silent is_utf8 windows before more (byte ∷ bytes) h k =
    rw
      (
        one_hidden is_utf8 windows before more byte h (ground arith),
        typed_silent is_utf8 windows before (more ++ (byte ∷ [])) bytes
            (all-snoc is_plain more byte h (ground arith)) (ground arith),
        append_assoc more (byte ∷ []) bytes,
      )
      refl

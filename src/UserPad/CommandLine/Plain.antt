-- ===== src/UserPad/CommandLine/Plain.antt =====
-- Printable characters that are typed on a command line without escapes.
use xotpad.Base.{
  ℕ, zero, suc, ◌-◌, ◌<◌, ◌≡◌, arith, refl, Bool, true, false, [], ◌∷◌, ◌++◌, length, contains, all,
  leb, ◌==◌, Buf, none, ok, Bool-cases, inl, inr,
}
use xotpad.X3.UserPadParams.{is_char_delete}
use xotpad.UserPad.CommandLine.{
  esc, index, in_escape_sequence, sequence_len, trim_complete_escape_sequence, echo_trimmed,
  handle_character, handle_command_input,
}
use xotpad.UserPad.CommandLine.Escapes.{is_plain, all-snoc}

index-is_plain :
    (buf : Buf) (n : ℕ)
    → all is_plain buf ≡ true
    → n < length buf
    → (b : ℕ) × (index buf n ≡ ok b) × ((b == esc) ≡ false)
unfolding index
index-is_plain [] n h l = absurd (omega (arith, l))
index-is_plain (b ∷ buf) zero h l = (b, refl, ground arith)
index-is_plain (b ∷ buf) (suc n) h l = index-is_plain buf n (ground arith) (omega arith)

sequence_len-is_plain : (buf : Buf) → all is_plain buf ≡ true → sequence_len buf ≡ ok 0
unfolding sequence_len
sequence_len-is_plain buf h = elim (Bool-cases (leb 3 (length buf))) [
  | inl long ↦
      let (b, e, other) = index-is_plain buf (length buf - 3) h (ground arith) in
      rw (long, e, other) refl
  | inr short ↦ let shorter : leb 4 (length buf) ≡ false = ground arith in rw (short, shorter) refl
]

contains-is_plain : (buf : Buf) → all is_plain buf ≡ true → contains buf esc ≡ false
contains-is_plain [] h = refl
contains-is_plain (b ∷ buf) h = ground (arith, contains-is_plain buf)

-- A printable character is appended and shown.
pub handle_command_input-is_plain :
    (is_utf8 : Buf → Bool) (windows : Bool) (buf : Buf) (byte : ℕ)
    → all is_plain buf ≡ true
    → is_plain byte ≡ true
    → handle_command_input is_utf8 windows buf byte ≡ ok (buf ++ (byte ∷ []), byte ∷ [], none)
unfolding handle_command_input handle_character trim_complete_escape_sequence echo_trimmed
    in_escape_sequence is_char_delete
handle_command_input-is_plain is_utf8 windows buf byte h k =
    let snoc : all is_plain (buf ++ (byte ∷ [])) ≡ true = all-snoc is_plain buf byte h k in
    ground (
      arith,
      sequence_len-is_plain (buf ++ (byte ∷ [])) snoc,
      contains-is_plain (buf ++ (byte ∷ [])) snoc,
    )

-- ===== src/UserPad/CommandLine.antt =====
-- The line of a command that a user types: `handle_command_input` of src/user_pad.rs. Bytes written to the
-- terminal are part of what a function gives; the terminal takes them.
pub mod Escapes
pub mod Plain
use xotpad.Base.{
  ℕ, zero, suc, ◌+◌, ◌-◌, Bool, true, false, not, ◌&&◌, ◌||◌, List, [], ◌∷◌, ◌++◌, length, take,
  contains, all, ltb, leb, ◌==◌, is_empty, if◌then◌else◌, Buf, put_u8, Option, none, some, Result,
  ok, panic, ◌>>=◌,
}
use xotpad.X3.UserPadParams.{is_char_delete}

abbrev pub esc : ℕ
esc = 0x1b

-- `buf[index]`
unfoldable pub index : Buf → ℕ → Result ℕ
index [] n = panic
index (b ∷ buf) zero = ok b
index (b ∷ buf) (suc n) = index buf n

-- What is left, and what is written.
unfoldable pub handle_char_delete : Buf → Buf × Buf
handle_char_delete buf =
    if is_empty buf then (buf, []) else (take (length buf - 1) buf, 0x08 ∷ 0x20 ∷ 0x08 ∷ [])

unfoldable pub in_escape_sequence : Buf → Bool
in_escape_sequence buf = contains buf esc

-- The length of the sequence that ends the buffer.
unfoldable pub sequence_len : Buf → Result ℕ
unfolding index
sequence_len buf =
    if leb 3 (length buf)
    then (index buf (length buf - 3) >>= λ first.
        if not (first == esc)
        then ok 0
        else (index buf (length buf - 2) >>= λ second. ok (if not (second == b'O') then 3 else 0)))
    else if leb 4 (length buf)
    then (index buf (length buf - 4) >>= λ first. ok (if first == esc then 4 else 0))
    else ok 0

unfoldable pub trim_complete_escape_sequence : Buf → Result (Buf × Bool)
unfolding sequence_len
trim_complete_escape_sequence buf = sequence_len buf >>= λ n.
    ok (if ltb 0 n then (take (length buf - n) buf, true) else (buf, false))

abbrev pub is_ascii_control : ℕ → Bool
is_ascii_control byte = ltb byte 0x20 || byte == 0x7f

-- The buffer after a byte was put into it, and what is written.
unfoldable pub echo_trimmed : ℕ → Buf × Bool → Buf × Buf
unfolding in_escape_sequence
echo_trimmed byte (buf, true) = (buf, [])
echo_trimmed byte (buf, false) = (buf, if not (in_escape_sequence buf) then byte ∷ [] else [])

-- `handle_command_input` of a byte that is no carriage return, which gives no line.
unfoldable pub handle_character : Bool → Buf → ℕ → Result (Buf × Buf)
unfolding handle_char_delete trim_complete_escape_sequence echo_trimmed
handle_character windows buf byte =
    if is_char_delete windows byte
    then ok (handle_char_delete buf)
    else if is_ascii_control byte && not (byte == esc)
    then ok (buf, [])
    else (trim_complete_escape_sequence (put_u8 buf byte) >>= λ trimmed.
        ok (echo_trimmed byte trimmed))

-- A line is given by the carriage return; it panics on bytes that are no UTF-8. `is_utf8` says whether
-- `str::from_utf8` accepts them. The buffer, what is written, and the line.
unfoldable pub handle_command_input :
    (Buf → Bool) → Bool → Buf → ℕ → Result (Buf × Buf × Option Buf)
unfolding handle_character
handle_command_input is_utf8 windows buf byte =
    if byte == 0x0d
    then (if is_utf8 buf then ok ([], 0x0d ∷ 0x0a ∷ [], some buf) else panic)
    else (handle_character windows buf byte >>= λ (buf1, echo). ok (buf1, echo, none))

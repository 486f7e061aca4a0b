-- ===== src/X28/Signal.antt =====
-- The signals that the PAD prints: src/x28/signal.rs.
use xotpad.Base.{ℕ, List, [], ◌∷◌, ◌++◌, is_empty, if◌then◌else◌, Buf, Option, none, some}
use xotpad.Packet.Call.{X25CallRequest}
use xotpad.X3.{Checked, valid, invalid}
use xotpad.X28.Text.{codes, u8_to_string}

pub data X28Signal : Type 0 where
  connected : Option X25CallRequest → X28Signal
  cleared : Option (ℕ × ℕ) → X28Signal
  free : X28Signal
  engaged : X28Signal
  local_params : List (ℕ × Checked ℕ) → X28Signal
  remote_params : List (ℕ × Checked ℕ) → X28Signal
  error : X28Signal

abbrev pub clear_cause : ℕ → Buf
clear_cause code = codes "TODO"

unfoldable pub format_value : Checked ℕ → Buf
format_value (valid value) = u8_to_string value
format_value (invalid _) = codes "INV"

-- The loop of `format_params`, behind what is written.
unfoldable pub format_loop : List (ℕ × Checked ℕ) → Buf → Buf
unfolding format_value u8_to_string
format_loop [] s = s
format_loop ((param, value) ∷ params) s = format_loop params (
    (if is_empty s then s else s ++ codes ", ")
    ++ (u8_to_string param ++ (b':' ∷ format_value value)))

unfoldable pub format_params : List (ℕ × Checked ℕ) → Buf
unfolding format_loop
format_params params = format_loop params []

unfoldable pub display : X28Signal → Buf
unfolding format_params u8_to_string
display (connected _) = codes "COM"
display (cleared (some (cause_code, diagnostic_code))) =
    codes "CLR "
    ++ (clear_cause cause_code
        ++ (codes " C:"
            ++ (u8_to_string cause_code ++ (codes " D:" ++ u8_to_string diagnostic_code))))
display (cleared none) = codes "CLR CONF"
display free = codes "FREE"
display engaged = codes "ENGAGED"
display (local_params params) = codes "PAR " ++ format_params params
display (remote_params params) = codes "RPAR " ++ format_params params
display error = codes "ERR"

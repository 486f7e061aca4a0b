-- ===== src/X28/Command.antt =====
-- The commands that a user types: src/x28/command.rs. Text is ASCII.
pub mod Parameters
pub mod Total
pub mod RoundTrip
use xotpad.Base.{
  ℕ, Bool, true, false, not, ◌&&◌, ◌||◌, List, [], ◌∷◌, ◌++◌, is_empty, if◌then◌else◌, Buf, Option,
  none, some, Result, ok, err, panic, stuck, ◌>>=◌, ◌>>◌, guard, selection_required,
  invalid_selection, parameters_required, unrecognized_command, invalid_parameter,
  invalid_parameters_argument, invalid_parameter_value,
}
use xotpad.X29.{buf_eq}
use xotpad.X28.Text.{codes, trim, to_uppercase, split_once, split, u8_from_str}
use xotpad.X28.Selection as Selection
use xotpad.X28.Selection.{X28Selection}

pub data X28Command : Type 0 where
  selection : X28Selection → X28Command
  clear : X28Command
  read : List ℕ → X28Command
  set : List (ℕ × ℕ) → X28Command
  set_read : List (ℕ × ℕ) → X28Command
  remote_read : List ℕ → X28Command
  remote_set_read : List (ℕ × ℕ) → X28Command
  status : X28Command
  invite_clear : X28Command
  help : Buf → X28Command

-- `.map_err(|_| e)`, `let Ok(n) = ... else { return Err(e) }`
unfoldable pub number_or : Result ℕ → Option ℕ → Result ℕ
number_or failure none = failure
number_or failure (some n) = ok n

unfoldable pub parse_read_param : Buf → Result ℕ
unfolding number_or
parse_read_param a = number_or (err invalid_parameter) (u8_from_str (trim a))

-- `collect`, which stops at the first error.
unfoldable pub collect {ℓ} : {A : Type ℓ} → (Buf → Result A) → Buf → List Buf → Result (List A)
collect f piece [] = f piece >>= λ a. ok (a ∷ [])
collect f piece (piece' ∷ pieces) = do a ← f piece; rest ← collect f piece' pieces; ok (a ∷ rest)

unfoldable pub parse_each {ℓ} : {A : Type ℓ} → (Buf → Result A) → Buf → Result (List A)
unfolding collect
parse_each f s = let (piece, pieces) = split b',' s in collect f piece pieces

unfoldable pub parse_read_params : Buf → Result (List ℕ)
unfolding parse_each parse_read_param
parse_read_params s = let t = trim s in if is_empty t then ok [] else parse_each parse_read_param t

unfoldable pub parse_pair : Option (Buf × Buf) → Result (ℕ × ℕ)
unfolding number_or
parse_pair none = err invalid_parameters_argument
parse_pair (some (param, value)) = do
  p ← number_or (err invalid_parameter) (u8_from_str (trim param))
  v ← number_or (err invalid_parameter_value) (u8_from_str (trim value))
  ok (p, v)

unfoldable pub parse_set_param : Buf → Result (ℕ × ℕ)
unfolding parse_pair
parse_set_param a = parse_pair (split_once b':' a)

unfoldable pub parse_set_params : Buf → Result (List (ℕ × ℕ))
unfolding parse_each parse_set_param
parse_set_params s = let t = trim s in if is_empty t then ok [] else parse_each parse_set_param t

-- The error of the selection is replaced; its panic is not.
unfoldable pub selection_or : Result X28Command → Result X28Selection → Result X28Command
selection_or failure (ok s) = ok (selection s)
selection_or failure (err _) = failure
selection_or failure panic = panic
selection_or failure stuck = stuck

unfoldable pub parse_call : Buf → Result X28Command
unfolding selection_or
parse_call rest =
    guard (not (is_empty rest)) selection_required
    >> selection_or (err invalid_selection) (Selection.from_str rest)

unfoldable pub parse_set : (List (ℕ × ℕ) → X28Command) → Buf → Result X28Command
unfolding parse_set_params
parse_set command rest = do
  params ← parse_set_params rest
  guard (not (is_empty params)) parameters_required
  ok (command params)

-- The `match` on the command.
unfoldable pub parse_command : Buf → Buf → Result X28Command
unfolding parse_call parse_set parse_read_params selection_or buf_eq
parse_command command rest =
    let is = λ (name : Buf). buf_eq command name in
    if is (codes "CALL")
    then parse_call rest
    else if is (codes "CLR") || is (codes "CLEAR")
    then ok clear
    else if is (codes "PAR?") || is (codes "PAR") || is (codes "PARAMETER") || is (codes "READ")
    then (parse_read_params rest >>= λ params. ok (read params))
    else if is (codes "SET")
    then parse_set set rest
    else if is (codes "SET?") || is (codes "SETREAD")
    then parse_set set_read rest
    else if is (codes "RPAR?") || is (codes "RREAD")
    then (parse_read_params rest >>= λ params. ok (remote_read params))
    else if is (codes "RSET?") || is (codes "RSETREAD")
    then parse_set remote_set_read rest
    else if is (codes "STAT") || is (codes "STATUS")
    then ok status
    else if is (codes "ICLR") || is (codes "ICLEAR")
    then ok invite_clear
    else if is (codes "HELP")
    then ok (help rest)
    else selection_or (err unrecognized_command) (Selection.from_str command)

-- The parts of `splitn(2, ' ')`.
unfoldable pub parse_parts : Buf → Option (Buf × Buf) → Result X28Command
unfolding parse_command to_uppercase
parse_parts s none = parse_command (to_uppercase s) []
parse_parts s (some (command, rest)) = parse_command (to_uppercase command) rest

unfoldable pub from_str : Buf → Result X28Command
unfolding parse_parts trim split_once
from_str s = let t = trim s in parse_parts t (split_once b' ' t)

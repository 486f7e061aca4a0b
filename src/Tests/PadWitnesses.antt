-- ===== src/Tests/PadWitnesses.antt =====
-- The theorems about the PAD, its parameters and its messages at concrete inputs.
use xotpad.Base.{
  ℕ, ◌≡◌, inl, arith, refl, true, false, List, [], ◌∷◌, ◌++◌, Buf, none, some, ok, Result, err,
  timed_out, panic, Returns,
}
use xotpad.X3.{X3Laws, Checked, valid, is_match, after_send, after_echo}
use xotpad.X3.Forwarding.{is_match-mask}
use xotpad.X3.UserPadParams as UserPadParams
use xotpad.X3.UserPadParams.{UserPadParams, user_params, user_params-Laws}
use xotpad.X3.PadParams.{PadParams, pad_params}
use xotpad.X3.PadParams.Laws.{IsApart, pad_params-Laws}
use xotpad.X29 as X29
use xotpad.X29.{
  X29PadMessage, X29CallUserData, set_read, indicate, with_call_data, encode_call_user_data,
  decode_call_user_data, is_pad_protocol, pad_protocol,
}
use xotpad.X29.Bytes.{bytes}
use xotpad.X29.RoundTrip.{decode-encode_message}
use xotpad.X29.Sound as Sound
use xotpad.X29.Sound.{decode_message-Returns}
use xotpad.Pad as Pad
use xotpad.Pad.{Circuit, Pad, idle, awaited, queue_recv_bytes}
use xotpad.Pad.Writing.{write-IsWritten}
use xotpad.Pad.Writing.Rounds.{Writes}
use xotpad.Pad.Reading as Reading
use xotpad.Pad.Reading.{queue_recv_bytes-expand, read-IsRead}
use xotpad.Pad.Remote.{again, set_read_loop, recv_indicate, set_remote_params, handle_recv}
use xotpad.Pad.Remote.Transmitting.{Transmits, CarriesOut, channel_after, next_after}
use xotpad.Pad.Remote.Responses.{Answers, set_read_loop-Answers}
use xotpad.Pad.Remote.Exchange.{
  set_remote_params-exchange, set_remote_params-panic, set_remote_params-again, handle_recv-late,
}

-- A circuit that keeps what it was given.
abbrev log : Circuit Buf
log = record {
  send = λ s buf q. (s ++ buf, ok tt);
  flush = λ s. (s, ok tt);
  clear = λ s cause code. (s, ok tt);
  packet_size = λ s. 4;
}

abbrev user : UserPadParams
user = record {
  char_delete = record { raw = 127 };
  line_delete = record { raw = 24 };
  line_display = record { raw = 18 };
}

abbrev params : PadParams UserPadParams
params = record {
  echo = record { raw = 1 };
  forward = record { raw = 2 };
  idle = record { raw = 0 };
  lf_insert = record { raw = 7 };
  editing = record { raw = 0 };
  delegate = some user;
}

abbrev pad : Pad Buf UserPadParams
pad = record {
  svc = [];
  params = params;
  should_suppress_echo_when_editing = true;
  send_queue = [];
  send_deadline = none;
  recv_queue = 72 ∷ 105 ∷ [];
  recv_end = false;
  indicate_channel = idle;
  indications = [];
}

abbrev waiting : Pad Buf UserPadParams
waiting = record pad { indicate_channel = awaited }

abbrev request : List (ℕ × ℕ)
request = (3, 126) ∷ (9, 1) ∷ (17, 8) ∷ []

apart : IsApart user_params user_params-Laws
unfolding UserPadParams.get
apart q = (refl, refl, refl, refl, refl)

pad_params-Laws_example : X3Laws (pad_params user_params)
pad_params-Laws_example = pad_params-Laws user_params user_params-Laws apart

is_match-mask_example : is_match (record { raw = 2 }) 13 ≡ true
is_match-mask_example = is_match-mask (record { raw = 2 }) 13 (omega arith)

decode-encode_message_example :
    (X29.encode (set_read ((3, 2) ∷ [])) [] ≡ ok (3, 6 ∷ 3 ∷ 2 ∷ []))
    × (X29.decode (6 ∷ 3 ∷ 2 ∷ []) ≡ ok (set_read ((3, 2) ∷ [])))
decode-encode_message_example = decode-encode_message (set_read ((3, 2) ∷ [])) refl

decode_message-Returns_example :
    Returns (Sound.IsRead (6 ∷ 3 ∷ 2 ∷ [])) (X29.decode (6 ∷ 3 ∷ 2 ∷ []))
decode_message-Returns_example =
    decode_message-Returns (6 ∷ 3 ∷ 2 ∷ []) (omega arith, (omega arith, (omega arith, tt)))

write-IsWritten_example :
    Writes log
      (λ s. s)
      2
      4
      (65 ∷ 13 ∷ 10 ∷ [])
      (65 ∷ 13 ∷ 10 ∷ [])
      pad
      (Pad.write log 0 (65 ∷ 13 ∷ []) pad)
unfolding after_send after_echo
write-IsWritten_example =
    write-IsWritten log (λ s. s) pad (65 ∷ 13 ∷ []) 0 (λ s buf taken. refl)
      (record { echo = omega arith; editing = omega arith }) (omega arith) (omega arith)

read-IsRead_example : Reading.IsRead 1 pad (Pad.read 1 pad)
read-IsRead_example = read-IsRead 1 pad

set_read_loop-Answers_example :
    Answers
      (pad_params user_params)
      (set_read_loop (pad_params user_params) request params).0
      request
      (set_read_loop (pad_params user_params) request params).1
set_read_loop-Answers_example =
    set_read_loop-Answers (pad_params user_params)
      (pad_params-Laws user_params user_params-Laws apart) request params (refl, (refl, (refl, tt)))

set_remote_params-exchange_example :
    let message : Buf = 6 ∷ 3 ∷ 126 ∷ 9 ∷ 1 ∷ 17 ∷ 8 ∷ [] in
    ((svc : Buf) × (result : Result (Unit {0})) × Transmits log message pad.svc svc result
      × (set_remote_params log request pad
          ≡ (record pad { svc = svc; indicate_channel = channel_after result }, result)))
    × ((p : PadParams UserPadParams) × (response : List (ℕ × Checked ℕ)) × (svc : Buf)
        × (result : Result (Unit {0})) × CarriesOut
            (pad_params user_params)
            request
            params
            p
            response
        × Transmits log (bytes (indicate response)) pad.svc svc result
        × (handle_recv log user_params (ok (some (message, true))) pad
            ≡ (record pad { params = p; svc = svc }, next_after result))
        × (handle_recv log user_params (ok (some (bytes (indicate response), true))) waiting
            ≡ (record pad { indications = response ∷ [] }, ok again)))
set_remote_params-exchange_example =
    set_remote_params-exchange log log user_params user_params (3, 126) ((9, 1) ∷ (17, 8) ∷ []) pad
      waiting pad refl refl refl

set_remote_params-panic_example : (set_remote_params log ((200, 1) ∷ []) pad).1 ≡ panic
set_remote_params-panic_example = set_remote_params-panic log ((200, 1) ∷ []) pad (inl refl)

set_remote_params-again_example :
    ((set_remote_params log ((3, 2) ∷ []) (set_remote_params log request pad).0).1 ≡ panic)
    × ((set_remote_params log
          ((3, 2) ∷ [])
          (recv_indicate [] (set_remote_params log request pad).0).0).1
        ≡ panic)
set_remote_params-again_example = set_remote_params-again log request ((3, 2) ∷ []) pad

handle_recv-late_example :
    ((recv_indicate [] waiting).1 ≡ err timed_out)
    × ((handle_recv log user_params
          (ok (some (bytes (indicate ((3, valid 2) ∷ [])), true)))
          (recv_indicate [] waiting).0).1
        ≡ panic)
handle_recv-late_example = handle_recv-late log user_params ((3, valid 2) ∷ []) waiting refl

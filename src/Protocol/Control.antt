-- ===== src/Protocol/Control.antt =====
-- internal/protocol/validation.go: the checks on a message of the control channel.
use go_cli_messenger.Common.{
  ℕ, Bool, true, false, ◌&&◌, ◌||◌, not, ◌==◌, leb, ltb, in_range, if◌then◌else◌, Option, none,
  some, List, [], ◌∷◌, length, Text, codes, text_eq, is_empty,
}
use go_cli_messenger.Protocol.Space.{trim_space}
use go_cli_messenger.Protocol.Message.{
  Json, Capabilities, ControlType, ControlMessage, peer_hello, chat_message, video_keyframe,
  audio_state, session_hangup, unknown, is_known, required_payload, decode_json,
}
use go_cli_messenger.Protocol.Validate.{
  invalid, message_too_large, unknown_type, no_text_chat, bad_profile, no_text, empty_text,
  long_text, no_audio, not_empty, not_json, Result, ok, err, ◌>>◌, check, Validator,
  validate_common,
}

abbrev pub max_control_message_size : ℕ
max_control_message_size = 16384

abbrev pub max_chat_text_size : ℕ
max_chat_text_size = 4096

-- What a first byte of a UTF-8 sequence asks of the bytes after it: a range for each.
abbrev pub tail_range : ℕ × ℕ
tail_range = (0x80, 0xBF)

unfoldable pub lead : ℕ → Option (List (ℕ × ℕ))
lead a =
    if ltb a 0x80
    then some []
    else if ltb a 0xC2
    then none
    else if ltb a 0xE0
    then some (tail_range ∷ [])
    else if a == 0xE0
    then some ((0xA0, 0xBF) ∷ tail_range ∷ [])
    else if a == 0xED
    then some ((0x80, 0x9F) ∷ tail_range ∷ [])
    else if ltb a 0xF0
    then some (tail_range ∷ tail_range ∷ [])
    else if a == 0xF0
    then some ((0x90, 0xBF) ∷ tail_range ∷ tail_range ∷ [])
    else if ltb a 0xF4
    then some (tail_range ∷ tail_range ∷ tail_range ∷ [])
    else if a == 0xF4
    then some ((0x80, 0x8F) ∷ tail_range ∷ tail_range ∷ [])
    else none

utf8_from : List (ℕ × ℕ) → Text → Bool
utf8_from [] [] = true
utf8_from (r ∷ needs) [] = false
utf8_from [] (a ∷ s) = elim (lead a) [ none ↦ false | some needs ↦ utf8_from needs s ]
utf8_from ((lo, hi) ∷ needs) (a ∷ s) = leb lo a && leb a hi && utf8_from needs s

-- utf8.ValidString
unfoldable pub valid_utf8 : Text → Bool
unfolding utf8_from lead
valid_utf8 s = utf8_from [] s

abbrev pub is_profile : Capabilities → Bool
is_profile c =
    in_range 1 200 c.ascii_columns && in_range 1 80 c.ascii_rows && in_range 1 30 c.ascii_fps

abbrev pub check_hello : Option Capabilities → Result (Unit {0})
check_hello none = err (invalid no_text_chat)
check_hello (some c) = do
  check c.text_chat (invalid no_text_chat)
  check (not c.ascii_video || is_profile c) (invalid bad_profile)

abbrev pub check_chat : Option Text → Result (Unit {0})
check_chat none = err (invalid no_text)
check_chat (some text) = do
  check (not (is_empty text)) (invalid empty_text)
  check (valid_utf8 text && leb (length text) max_chat_text_size) (invalid long_text)

abbrev check_audio : Option Bool → Result (Unit {0})
check_audio none = err (invalid no_audio)
check_audio (some muted) = ok tt

-- `len(payload) != 0 && !bytes.Equal(bytes.TrimSpace(payload), []byte("{}"))` is what is refused.
check_empty : Text → Result (Unit {0})
unfolding trim_space
check_empty payload =
    check (is_empty payload || text_eq (trim_space payload) (codes "{}")) (invalid not_empty)

module _ (json : Json) where
  unfoldable pub check_control : ControlType → Text → Result (Unit {0})
  unfolding check_empty required_payload
  check_control peer_hello payload = check_hello (required_payload json.hello payload)
  check_control chat_message payload = check_chat (required_payload json.chat payload)
  check_control audio_state payload = check_audio (required_payload json.audio payload)
  check_control video_keyframe payload = check_empty payload
  check_control session_hangup payload = check_empty payload
  check_control (unknown type) payload = ok tt

  unfoldable pub validate_control : Validator → ControlMessage → Result (Unit {0})
  unfolding check_control
  validate_control v m = do
    validate_common v m.version m.id m.sent_at
    check (is_known m.type) (invalid unknown_type)
    check_control m.type m.payload

  decoded : Validator → Option ControlMessage → Result ControlMessage
  unfolding validate_control
  decoded v none = err (invalid not_json)
  decoded v (some m) = do validate_control v m; ok m

  unfoldable pub decode_control : Text → Validator → Result ControlMessage
  unfolding decoded
  decode_control bytes v = do
    check (leb (length bytes) max_control_message_size) message_too_large
    decoded v (decode_json json.control bytes)

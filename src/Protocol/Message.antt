-- ===== src/Protocol/Message.antt =====
-- The payloads of the messages (internal/protocol/signaling.go and control.go), and the JSON decoder
-- of Go's encoding/json, which is a parameter: a partial function from bytes for each payload type.
use go_cli_messenger.Common.{
  ℤ, ℕ, Bool, true, false, ◌||◌, ◌==◌, if◌then◌else◌, Option, none, some, List, all_of, Text, codes,
  text_eq, is_empty,
}
use go_cli_messenger.Protocol.Signal.{SignalMessage}
use go_cli_messenger.Protocol.Space.{trim_space}

pub record IdentityProof : Type 0 where
  pub public_key : Text
  pub expires_at : ℕ
  pub nonce : Text
  pub signature : Text

pub record Capabilities : Type 0 where
  pub text_chat : Bool
  pub ascii_video : Bool
  pub ascii_columns : ℤ
  pub ascii_rows : ℤ
  pub ascii_fps : ℤ
  pub audio : Bool

pub data ControlType : Type 0 where
  peer_hello chat_message video_keyframe audio_state session_hangup : ControlType
  unknown : Text → ControlType

pub record ControlMessage : Type 0 where
  pub version : ℤ
  pub id : Text
  pub type : ControlType
  pub sent_at : ℕ
  pub payload : Text

unfoldable pub is_known : ControlType → Bool
is_known (unknown s) = false
is_known _ = true

-- `json.Unmarshal` into each payload type, and `decoder.Decode` of a whole message: the value and
-- the bytes that the decoder has not read.
pub record Json : Type 0 where
  pub session_ready : Text → Option (List Text)
  pub sdp : Text → Option Text
  pub candidate : Text → Option Text
  pub proof : Text → Option IdentityProof
  pub hello : Text → Option Capabilities
  pub chat : Text → Option Text
  pub audio : Text → Option Bool
  pub signal : Text → Option (SignalMessage × Text)
  pub control : Text → Option (ControlMessage × Text)

-- `requiredPayload`
unfoldable pub required_payload {ℓ} : {A : Type ℓ} → (Text → Option A) → Text → Option A
unfolding trim_space
required_payload decode raw =
    if is_empty raw || text_eq (trim_space raw) (codes "null") then none else decode raw

-- The space that JSON allows between values.
abbrev is_json_space : ℕ → Bool
is_json_space c = c == 32 || c == 9 || c == 10 || c == 13

-- `decodeJSON`: after the first value, `More` and the second `Decode` let only space pass.
unfoldable pub decode_json {ℓ} : {A : Type ℓ} → (Text → Option (A × Text)) → Text → Option A
decode_json decode data_bytes = elim (decode data_bytes) [
  | none ↦ none
  | some (value, rest) ↦ if all_of is_json_space rest then some value else none
]

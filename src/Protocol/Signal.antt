-- ===== src/Protocol/Signal.antt =====
-- internal/protocol/signaling.go: the signaling message types and their classes.
use go_cli_messenger.Common.{
  ℤ, ℕ, Bool, true, false, ◌&&◌, ◌||◌, not, leb, length, any_of, ◌==◌, Text, codes, has_prefix,
}

abbrev pub protocol_version : ℕ
protocol_version = 2

abbrev pub max_signal_message_size : ℕ
max_signal_message_size = 65536

abbrev pub max_sdp_message_size : ℕ
max_sdp_message_size = 262144

abbrev pub max_ice_candidate_size : ℕ
max_ice_candidate_size = 4096

abbrev pub max_ice_candidates : ℕ
max_ice_candidates = 256

abbrev pub min_base_name_length : ℕ
min_base_name_length = 3

abbrev pub max_base_name_length : ℕ
max_base_name_length = 19

abbrev pub address_suffix_length : ℕ
address_suffix_length = 12

abbrev pub max_address_length : ℕ
max_address_length = 32

-- `unknown` is any other string of the Go type.
pub data SignalType : Type 0 where
  session_hello session_ready session_ping session_pong session_error : SignalType
  presence_query presence_result : SignalType
  call_invite call_ringing call_accept call_decline call_cancel : SignalType
  call_busy call_timeout call_end : SignalType
  webrtc_offer webrtc_answer webrtc_ice webrtc_ice_complete : SignalType
  unknown : Text → SignalType

unfoldable pub is_known : SignalType → Bool
is_known (unknown s) = false
is_known _ = true

unfoldable pub is_sdp : SignalType → Bool
is_sdp webrtc_offer = true
is_sdp webrtc_answer = true
is_sdp _ = false

unfoldable pub requires_call_id : SignalType → Bool
requires_call_id call_invite = true
requires_call_id call_ringing = true
requires_call_id call_accept = true
requires_call_id call_decline = true
requires_call_id call_cancel = true
requires_call_id call_busy = true
requires_call_id call_timeout = true
requires_call_id call_end = true
requires_call_id webrtc_offer = true
requires_call_id webrtc_answer = true
requires_call_id webrtc_ice = true
requires_call_id webrtc_ice_complete = true
requires_call_id _ = false

-- strings.ContainsAny(value, "\r\n\t ")
has_blank : Text → Bool
has_blank = any_of (λ c. c == 13 || c == 10 || c == 9 || c == 32)

unfoldable pub valid_stun_url : Text → Bool
unfolding has_prefix has_blank
valid_stun_url value =
    leb 8 (length value)
    && leb (length value) 512
    && (has_prefix (codes "stun:") value || has_prefix (codes "stuns:") value)
    && not (has_blank value)

unfoldable pub valid_turn_url : Text → Bool
unfolding has_prefix has_blank
valid_turn_url value =
    leb 8 (length value)
    && leb (length value) 512
    && (has_prefix (codes "turn:") value || has_prefix (codes "turns:") value)
    && not (has_blank value)

-- The envelope; `payload` holds the raw JSON bytes.
pub record SignalMessage : Type 0 where
  pub version : ℤ
  pub id : Text
  pub type : SignalType
  pub timestamp : ℕ
  pub call_id : Text
  pub from : Text
  pub to : Text
  pub payload : Text

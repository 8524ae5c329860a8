-- ===== src/Protocol/Validate.antt =====
-- internal/protocol/validation.go: the checks on a signaling message.
use go_cli_messenger.Common.{
  ℤ, is_int, ℕ, ◌+◌, Bool, false, ◌&&◌, ◌||◌, not, ◌==◌, leb, ltb, if◌then◌else◌, Option, none,
  some, List, all_of, length, Text, codes, text_eq, is_empty,
}
use go_cli_messenger.Protocol.Signal.{
  SignalType, SignalMessage, session_hello, session_ready, session_error, call_invite, call_accept,
  webrtc_offer, webrtc_answer, webrtc_ice, is_known, is_sdp, requires_call_id, valid_stun_url,
  protocol_version, max_signal_message_size, max_sdp_message_size, max_ice_candidate_size,
}
use go_cli_messenger.Protocol.Names.{valid_uuid, valid_address}
use go_cli_messenger.Protocol.Space.{trim_space}
use go_cli_messenger.Protocol.Message.{Json, IdentityProof, required_payload, decode_json}

-- One for each `invalid(…)`.
pub data Reason : Type 0 where
  bad_id no_timestamp outside_window unknown_type bad_sender bad_recipient no_call_id : Reason
  no_sender no_addressee neither bad_stun bad_sdp no_candidate candidate_size bad_proof : Reason
  not_json : Reason
  no_text_chat bad_profile no_text empty_text long_text no_audio not_empty : Reason

pub data Error : Type 0 where
  message_too_large unsupported_version : Error
  invalid : Reason → Error

pub data Result {ℓ} (A : Type ℓ) : Type ℓ where
  err : Error → Result A
  ok : A → Result A

infixl 5 ◌>>=◌ ◌>>◌
abbrev pub ◌>>=◌ {ℓ κ} : {V : Type ℓ} {W : Type κ} → Result V → (V → Result W) → Result W
err reason >>= rest = err reason
ok value >>= rest = rest value

-- A check in a chain of them: `if !test { return problem }`.
abbrev pub check : Bool → Error → Result (Unit {0})
check passed problem = if passed then ok tt else err problem

abbrev pub ◌>>◌ {κ} : {W : Type κ} → Result (Unit {0}) → Result W → Result W
first >> second = first >>= λ done. second

-- `Now` is the time that the clock shows; an age of 0 stands for the default.
pub record Validator : Type 0 where
  pub now : ℕ
  pub maximum_age : ℕ
  pub maximum_future : ℕ

abbrev pub or_default : ℕ → ℕ → ℕ
or_default n d = if n == 0 then d else n

abbrev pub day : ℕ
day = 86400000000000

abbrev pub five_minutes : ℕ
five_minutes = 300000000000

-- `!timestamp.Before(now.Add(-maximumAge)) && !timestamp.After(now.Add(maximumFuture))`
abbrev pub in_window : Validator → ℕ → Bool
in_window v timestamp =
    not (ltb (timestamp + or_default v.maximum_age day) v.now)
    && not (ltb (v.now + or_default v.maximum_future five_minutes) timestamp)

unfoldable pub validate_common : Validator → ℤ → Text → ℕ → Result (Unit {0})
validate_common v version id timestamp = do
  check (is_int protocol_version version) unsupported_version
  check (valid_uuid id) (invalid bad_id)
  check (not (timestamp == 0)) (invalid no_timestamp)
  check (in_window v timestamp) (invalid outside_window)

-- `name != "" && name != "server" && !ValidAddress(name)` is what is refused.
abbrev pub is_party : Text → Bool
is_party name = is_empty name || text_eq name (codes "server") || valid_address name

-- The first `switch`: who must be named.
abbrev pub check_parties : SignalType → Text → Text → Result (Unit {0})
check_parties session_hello from to = check (not (is_empty from)) (invalid no_sender)
check_parties session_ready from to = check (not (is_empty to)) (invalid no_addressee)
check_parties session_error from to = check (not (is_empty to)) (invalid no_addressee)
check_parties _ from to = check (not (is_empty from || is_empty to)) (invalid neither)

abbrev pub is_proof : IdentityProof → Bool
is_proof p =
    valid_uuid p.nonce
    && not (p.expires_at == 0)
    && leb 40 (length p.public_key)
    && leb (length p.public_key) 64
    && leb 80 (length p.signature)
    && leb (length p.signature) 128

abbrev pub holds {ℓ} : {A : Type ℓ} → (A → Bool) → Option A → Bool
holds p none = false
holds p (some a) = p a

abbrev pub is_stun_list : List Text → Bool
is_stun_list urls = leb (length urls) 8 && all_of valid_stun_url urls

abbrev pub is_candidate : Text → Bool
is_candidate c = not (is_empty c) && leb (length c) max_ice_candidate_size

module _ (json : Json) where
  check_proof : Text → Result (Unit {0})
  check_proof payload =
      check (holds is_proof (required_payload json.proof payload)) (invalid bad_proof)

  check_sdp : Text → Result (Unit {0})
  check_sdp payload =
      check (holds (λ sdp. not (is_empty (trim_space sdp))) (required_payload json.sdp payload))
        (invalid bad_sdp)

  check_ice : Option Text → Result (Unit {0})
  check_ice none = err (invalid no_candidate)
  check_ice (some c) = check (is_candidate c) (invalid candidate_size)

  -- The second `switch`: what the payload must hold.
  unfoldable pub check_payload : SignalType → Text → Result (Unit {0})
  unfolding check_proof check_sdp check_ice
  check_payload session_ready payload =
      check (is_empty payload || holds is_stun_list (required_payload json.session_ready payload))
        (invalid bad_stun)
  check_payload webrtc_offer payload = check_sdp payload
  check_payload webrtc_answer payload = check_sdp payload
  check_payload webrtc_ice payload = check_ice (required_payload json.candidate payload)
  check_payload session_hello payload = check_proof payload
  check_payload call_invite payload = check_proof payload
  check_payload call_accept payload = check_proof payload
  check_payload _ payload = ok tt

  unfoldable pub validate_signal : Validator → SignalMessage → Result (Unit {0})
  unfolding validate_common check_payload
  validate_signal v m = do
    validate_common v m.version m.id m.timestamp
    check (is_known m.type) (invalid unknown_type)
    check (is_party m.from) (invalid bad_sender)
    check (is_party m.to) (invalid bad_recipient)
    check (not (requires_call_id m.type) || valid_uuid m.call_id) (invalid no_call_id)
    check_parties m.type m.from m.to
    check_payload m.type m.payload

  abbrev pub size_limit : SignalType → ℕ
  size_limit type = if is_sdp type then max_sdp_message_size else max_signal_message_size

  unfoldable pub decoded : Validator → Text → Option SignalMessage → Result SignalMessage
  unfolding validate_signal
  decoded v bytes none = err (invalid not_json)
  decoded v bytes (some m) = do
    check (leb (length bytes) (size_limit m.type)) message_too_large
    validate_signal v m
    ok m

  unfoldable pub decode_signal : Text → Validator → Result SignalMessage
  unfolding decoded
  decode_signal bytes v = do
    check (leb (length bytes) max_sdp_message_size) message_too_large
    decoded v bytes (decode_json json.signal bytes)

-- ===== src/App/Signals.antt =====
-- internal/client/app/app.go: the signals of the peer as messages and back, what is told of the local
-- video, and the servers for ICE. JSON encoding is a parameter beside the decoding.
pub mod Hello
pub mod Usable
use go_cli_messenger.Common.{
  ℕ, ℤ, pos, ◌+◌, Bool, true, false, ◌&&◌, ◌||◌, not, leb, ltb, in_range, if◌then◌else◌, Option,
  none, some, is_some, List, [], ◌∷◌, ◌++◌, all_of, any_of, Text, is_empty,
}
use go_cli_messenger.Protocol.Signal.{
  SignalType, webrtc_offer, webrtc_answer, webrtc_ice, webrtc_ice_complete, valid_turn_url,
}
use go_cli_messenger.Protocol.Message.{Capabilities}
use go_cli_messenger.Terminal.Sanitize.{video_size}
use go_cli_messenger.Peer.Negotiation.{SdpType, offer, answer, other, Description}

-- webrtc.ICECandidateInit
pub record IceCandidate : Type 0 where
  pub candidate : Text
  pub sdp_mid : Option Text
  pub sdp_mline_index : Option ℕ
  pub username_fragment : Option Text

-- protocol.ICEPayload
pub record IcePayload : Type 0 where
  pub candidate : Text
  pub sdp_mid : Option Text
  pub sdp_mline_index : Option ℕ

-- `peer.Signal`, with the candidates as the WebRTC library has them
pub record PeerSignal : Type 0 where
  pub description : Option Description
  pub candidate : Option IceCandidate
  pub ice_complete : Bool

-- `json.Marshal` and `json.Unmarshal` of the two payloads
pub record Payloads : Type 0 where
  pub write_sdp : Text → Text
  pub write_ice : IcePayload → Text
  pub read_sdp : Text → Option Text
  pub read_ice : Text → Option IcePayload

abbrev pub description_signal : SdpType → Text → PeerSignal
description_signal type sdp = record {
  description = some (record { type = type; sdp = sdp });
  candidate = none;
  ice_complete = false;
}

abbrev pub payload_of : IceCandidate → IcePayload
payload_of c = record {
  candidate = c.candidate;
  sdp_mid = c.sdp_mid;
  sdp_mline_index = c.sdp_mline_index;
}

abbrev pub candidate_signal : IcePayload → PeerSignal
candidate_signal p = record {
  description = none;
  candidate = some (record {
    candidate = p.candidate;
    sdp_mid = p.sdp_mid;
    sdp_mline_index = p.sdp_mline_index;
    username_fragment = none;
  });
  ice_complete = false;
}

abbrev pub complete_signal : PeerSignal
complete_signal = record { description = none; candidate = none; ice_complete = true }

abbrev pub description_type : SdpType → SignalType
description_type answer = webrtc_answer
description_type type = webrtc_offer

module _ (j : Payloads) where
  abbrev pub forward_parts :
      Option Description → Option IceCandidate → Bool → Option (SignalType × Text)
  forward_parts (some d) c complete = some (description_type d.type, j.write_sdp d.sdp)
  forward_parts none (some c) complete = some (webrtc_ice, j.write_ice (payload_of c))
  forward_parts none none true = some (webrtc_ice_complete, [])
  forward_parts none none false = none

  -- `forwardPeerSignal`: the type and the payload of the message that is sent
  unfoldable pub forward_signal : PeerSignal → Option (SignalType × Text)
  forward_signal s = forward_parts s.description s.candidate s.ice_complete

  abbrev pub read_description : SdpType → Option Text → Option PeerSignal
  read_description type none = none
  read_description type (some sdp) = some (description_signal type sdp)

  abbrev pub read_candidate : Option IcePayload → Option PeerSignal
  read_candidate none = none
  read_candidate (some p) = some (candidate_signal p)

  -- `decodePeerSignal`
  unfoldable pub decode_signal : SignalType → Text → Option PeerSignal
  decode_signal webrtc_offer payload = read_description offer (j.read_sdp payload)
  decode_signal webrtc_answer payload = read_description answer (j.read_sdp payload)
  decode_signal webrtc_ice payload = read_candidate (j.read_ice payload)
  decode_signal webrtc_ice_complete payload = some complete_signal
  decode_signal type payload = none

pub record VideoConfig : Type 0 where
  pub video : Bool
  pub audio : Bool
  pub columns : ℤ
  pub rows : ℤ
  pub fps : ℤ

-- `if value < 1 || value > max { value = default }`
abbrev pub or_default : ℕ → ℕ → ℤ → ℤ
or_default max default value = if in_range 1 max value then value else pos default

-- `localCapabilities`
unfoldable pub local_capabilities : VideoConfig → Capabilities
local_capabilities c =
    if not c.video
    then record {
      text_chat = true;
      ascii_video = false;
      ascii_columns = pos 0;
      ascii_rows = pos 0;
      ascii_fps = pos 0;
      audio = c.audio;
    }
    else record {
      text_chat = true;
      ascii_video = true;
      ascii_columns = or_default 200 200 c.columns;
      ascii_rows = or_default 80 80 c.rows;
      ascii_fps = or_default 30 15 c.fps;
      audio = c.audio;
    }

-- `VideoSize` of the counts that `localCapabilities` gives, which are positive.
abbrev pub fitted_size : Bool → Option (ℕ × ℕ) → ℤ → ℤ → ℤ × ℤ
fitted_size interactive size (pos columns) (pos rows) =
    let (x, y) = video_size interactive size columns rows in (pos x, pos y)
fitted_size interactive size columns rows = (columns, rows)

-- The capabilities as the hello tells them, with a picture that fits into the terminal.
unfoldable pub told_capabilities : Bool → Option (ℕ × ℕ) → VideoConfig → Capabilities
told_capabilities interactive size config =
    let c = local_capabilities config in
    let fitted = fitted_size interactive size c.ascii_columns c.ascii_rows in
    if c.ascii_video then record c { ascii_columns = fitted.0; ascii_rows = fitted.1 } else c

pub record IceServer : Type 0 where
  pub urls : List Text
  pub username : Text
  pub credential : Text

-- What the request for TURN credentials comes to.
pub data Credentials : Type 0 where
  not_found request_failed : Credentials
  given : ℕ → List IceServer → Credentials

pub data Problem : Type 0 where
  no_credentials expired incomplete no_relay : Problem

pub data Prepared : Type 0 where
  ok : List IceServer → Prepared
  err : Problem → Prepared

-- `iceServers`
unfoldable pub stun_servers : List Text → List IceServer
stun_servers [] = []
stun_servers urls = record { urls = urls; username = []; credential = [] } ∷ []

unfoldable pub turn_urls : List Text → List Text
turn_urls [] = []
turn_urls (u ∷ us) = if valid_turn_url u then u ∷ turn_urls us else turn_urls us

abbrev pub add_server : List Text → IceServer → Prepared → Prepared
add_server [] s rest = rest
add_server urls s (err e) =
    if is_empty s.username || is_empty s.credential then err incomplete else err e
add_server urls s (ok rest) =
    if is_empty s.username || is_empty s.credential
    then err incomplete
    else ok (record { urls = urls; username = s.username; credential = s.credential } ∷ rest)

-- The loop over the servers that are given; the first incomplete one ends it.
unfoldable pub turn_servers : List IceServer → Prepared
unfolding turn_urls
turn_servers [] = ok []
turn_servers (s ∷ servers) = add_server (turn_urls s.urls) s (turn_servers servers)

abbrev pub has_turn : IceServer → Bool
has_turn s = any_of valid_turn_url s.urls

abbrev pub check_relay : Bool → Prepared → Prepared
check_relay relay_only (err e) = err e
check_relay relay_only (ok servers) =
    if not relay_only || any_of has_turn servers then ok servers else err no_relay

abbrev pub joined : List IceServer → Prepared → Prepared
joined stun (err e) = err e
joined stun (ok turn) = ok (stun ++ turn)

abbrev pub obtained : ℕ → Credentials → List IceServer → Prepared
obtained now not_found stun = ok stun
obtained now request_failed stun = err no_credentials
obtained now (given expires_at servers) stun =
    if not (ltb now expires_at) then err expired else joined stun (turn_servers servers)

-- `prepareICEServers`; credentials are asked for where there is an access key.
unfoldable pub prepare_ice_servers : Bool → Bool → ℕ → Credentials → List Text → Prepared
unfolding stun_servers turn_servers
prepare_ice_servers relay_only has_key now credentials stun_urls = check_relay relay_only (
    if has_key
    then obtained now credentials (stun_servers stun_urls)
    else ok (stun_servers stun_urls))

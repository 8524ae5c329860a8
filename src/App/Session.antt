-- ===== src/App/Session.antt =====
-- internal/client/app/app.go: the state of `runSession`, the events that its `select` waits for, and
-- what it does. Whether a call of another component works is part of the event.
use go_cli_messenger.Common.{
  ℕ, Bool, true, false, ◌&&◌, not, if◌then◌else◌, Option, List, [], ◌∷◌, Text, codes,
}
use go_cli_messenger.Protocol.Signal.{SignalType, call_end}
use go_cli_messenger.Peer.Negotiation.{Role, Signal}

-- A size and rate of the video.
pub record Profile : Type 0 where
  pub columns : ℕ
  pub rows : ℕ
  pub fps : ℕ

pub record Session : Type 0 where
  pub role : Role
  pub call_id : Text
  pub audio : Bool
  pub video : Bool
  pub local_profile : Profile
  pub control_open : Bool
  pub signaling_available : Bool
  pub restart_attempted : Bool
  pub timer_on : Bool
  pub peer_error : Bool
  pub muted : Bool
  pub keyframe_requested : Bool
  pub has_encoder : Bool
  pub has_camera : Bool
  pub frames_open : Bool
  pub packets_open : Bool
  pub ended : Bool
  pub route : Text

pub data Control : Type 0 where
  hello : Profile → Control
  chat : Text → Control
  audio_state : Bool → Control
  keyframe hangup : Control

pub data Action : Type 0 where
  send_control : Control → Action
  send_signal : SignalType → Action
  forward apply : Signal → Action
  restart_ice send_audio flush : Action
  send_video : Text → Action
  render : ℕ → ℕ → Text → Action
  encoder : Profile → Action
  open_camera : Profile → Action
  force_keyframe : Action
  show_remote show_local : Text → Action
  notice problem : Action

pub data Reason : Type 0 where
  finished remote_ended cancelled input_failed signaling_lost peer_failed not_recovered : Reason
  bad_signal send_failed bad_payload timed_out server_error restart_failed no_encoder : Reason
  no_ice_servers no_peer not_started : Reason

pub data Outcome : Type 0 where
  goes : Session → List Action → Outcome
  stops : Session → List Action → Reason → Outcome

-- What the decoder makes of a video packet: a picture, which may be a key frame, or an error.
pub data Decoded : Type 0 where
  picture : Bool → ℕ → ℕ → Text → Decoded
  needs_keyframe invalid : Decoded

-- webrtc.PeerConnectionState; new and connecting are `other`.
pub data Connection : Type 0 where
  connected disconnected failed closed other : Connection

-- A message of the server, with the call that it names: a peer signal, decoded if that is possible,
-- or one of the types that the loop knows.
pub data ServerEvent : Type 0 where
  peer_signal : Option Signal → ServerEvent
  call_ended call_timed_out error_message ignored : ServerEvent

-- A control message of the other side; `none` is a payload that is not decoded.
pub data ControlEvent : Type 0 where
  remote_hello : Option (Bool × Profile) → ControlEvent
  remote_chat : Option Text → ControlEvent
  remote_audio : Option Bool → ControlEvent
  remote_keyframe remote_hangup unknown_control : ControlEvent

-- `works` in an event: the send, or the call, that the handler makes succeeds.
pub data Event : Type 0 where
  context_done signals_failed peer_error_due reconnect_due : Event
  camera_frame : Option Text → Event
  camera_stopped : Event
  microphone : Event
  microphone_stopped : Event
  local_signal : Signal → Bool → Event
  video_packet : Decoded → Event
  signals_closed : Event
  server : Text → ServerEvent → Bool → Event
  control_opened : Bool → Event
  control : ControlEvent → Bool → Bool → Event
  audio_opened : Event
  connection : Connection → Text → Bool → Event
  peer_failure : Bool → Event
  line : Text → Bool → Event
  line_failed input_closed : Event

unfoldable pub new_session : Role → Text → Bool → Bool → Bool → Profile → Session
new_session role call_id audio video microphone_works profile = record {
  role = role;
  call_id = call_id;
  audio = audio;
  video = video;
  local_profile = profile;
  control_open = false;
  signaling_available = true;
  restart_attempted = false;
  timer_on = false;
  peer_error = false;
  muted = false;
  keyframe_requested = false;
  has_encoder = false;
  has_camera = false;
  frames_open = false;
  packets_open = audio && microphone_works;
  ended = false;
  route = codes "unknown";
}

-- The deferred end of the call.
unfoldable pub closing : Session → List Action
closing s = if not s.ended && s.signaling_available then send_signal call_end ∷ [] else []

-- ===== src/App/Steps.antt =====
-- `runSession` of internal/client/app/app.go: the cases of its `select`, and its early returns.
pub mod Ending
pub mod Speaking
pub mod Restarts
use go_cli_messenger.Common.{
  ℕ, ◌+◌, Bool, true, false, ◌&&◌, ◌||◌, not, ltb, leb, if◌then◌else◌, Option, none, some, List, [],
  ◌∷◌, ◌++◌, length, Text, codes, text_eq, is_empty,
}
use Prim.Native.Nat.{min}
use go_cli_messenger.Protocol.Signal.{call_end}
use go_cli_messenger.Protocol.Control.{max_chat_text_size}
use go_cli_messenger.AsciiVideo.Wire.{valid_dimensions}
use go_cli_messenger.Peer.Negotiation.{Role, caller, callee, Signal}
use go_cli_messenger.App.Session.{
  Profile, Session, Control, hello, chat, audio_state, keyframe, hangup, Action, send_control,
  send_signal, forward, apply, restart_ice, send_audio, flush, send_video, render, encoder,
  open_camera, force_keyframe, show_remote, show_local, notice, problem, Reason, finished,
  remote_ended, cancelled, input_failed, signaling_lost, peer_failed, not_recovered, bad_signal,
  send_failed, bad_payload, timed_out, server_error, restart_failed, no_encoder, no_ice_servers,
  no_peer, not_started, Outcome, goes, stops, Decoded, picture, needs_keyframe, invalid, Connection,
  connected, disconnected, failed, closed, other, ServerEvent, peer_signal, call_ended,
  call_timed_out, error_message, ignored, ControlEvent, remote_hello, remote_chat, remote_audio,
  remote_keyframe, remote_hangup, unknown_control, Event, context_done, signals_failed,
  peer_error_due, reconnect_due, camera_frame, camera_stopped, microphone, microphone_stopped,
  local_signal, video_packet, signals_closed, server, control_opened, control, audio_opened,
  closing, connection, peer_failure, line, line_failed, input_closed,
}

-- The server is lost: before the peer channel is open that ends the call, later it does not.
abbrev pub lose_signaling : Session → Outcome
lose_signaling s =
    if not s.control_open
    then stops s [] signaling_lost
    else goes (record s { signaling_available = false }) (problem ∷ [])

abbrev pub on_video : Decoded → Session → Outcome
on_video needs_keyframe s =
    if s.control_open && not s.keyframe_requested
    then goes (record s { keyframe_requested = true }) (send_control keyframe ∷ [])
    else goes s []
on_video invalid s = goes s (problem ∷ [])
on_video (picture is_key columns rows cells) s =
    goes (record s { keyframe_requested = s.keyframe_requested && not is_key })
      (render columns rows cells ∷ [])

abbrev pub on_server : ServerEvent → Bool → Session → Outcome
on_server (peer_signal none) works s = stops s [] bad_signal
on_server (peer_signal (some p)) works s =
    if works then goes s (apply p ∷ []) else stops s (apply p ∷ []) bad_signal
on_server call_ended works s = stops (record s { ended = true }) (notice ∷ []) remote_ended
on_server call_timed_out works s = stops (record s { ended = true }) [] timed_out
on_server error_message works s = stops s [] server_error
on_server ignored works s = goes s []

abbrev pub smaller : Profile → Profile → Profile
smaller a b = record {
  columns = min a.columns b.columns;
  rows = min a.rows b.rows;
  fps = min a.fps b.fps;
}

-- The hello of the other side: the camera is opened with what both can do.
abbrev pub on_hello : Bool × Profile → Bool → Session → Outcome
on_hello (shows, theirs) opened s =
    let p = smaller s.local_profile theirs in
    if not (s.video && shows && not s.frames_open && not s.has_camera)
    then goes s (notice ∷ [])
    else if not (valid_dimensions p.columns p.rows)
    then stops s (encoder p ∷ []) no_encoder
    else if opened
    then goes (record s { has_encoder = true; has_camera = true; frames_open = true })
        (encoder p ∷ open_camera p ∷ notice ∷ notice ∷ [])
    else goes (record s { has_encoder = true }) (encoder p ∷ open_camera p ∷ problem ∷ notice ∷ [])

abbrev pub on_hangup : Bool → Session → Outcome
on_hangup works s =
    if not s.signaling_available
    then stops (record s { ended = true }) (notice ∷ []) finished
    else stops (record s { ended = works }) (notice ∷ send_signal call_end ∷ []) finished

abbrev pub on_control : ControlEvent → Bool → Bool → Session → Outcome
on_control (remote_hello none) works opened s = stops s [] bad_payload
on_control (remote_hello (some h)) works opened s = on_hello h opened s
on_control (remote_chat none) works opened s = stops s [] bad_payload
on_control (remote_chat (some text)) works opened s = goes s (show_remote text ∷ [])
on_control (remote_audio none) works opened s = stops s [] bad_payload
on_control (remote_audio (some muted)) works opened s = goes s (notice ∷ [])
on_control remote_keyframe works opened s =
    goes s (if s.has_encoder then force_keyframe ∷ [] else [])
on_control remote_hangup works opened s = on_hangup works s
on_control unknown_control works opened s = goes s []

abbrev pub is_caller : Role → Bool
is_caller caller = true
is_caller callee = false

abbrev pub on_failed : Bool → Session → Outcome
on_failed works s =
    if is_caller s.role && s.signaling_available && not s.restart_attempted
    then (if works
        then goes (record s { restart_attempted = true }) (restart_ice ∷ notice ∷ [])
        else stops (record s { restart_attempted = true }) (restart_ice ∷ []) restart_failed)
    else goes s (notice ∷ [])

abbrev pub on_connection : Connection → Bool → Session → Outcome
on_connection connected works s =
    goes (record s { timer_on = false; restart_attempted = false }) (notice ∷ [])
on_connection disconnected works s =
    if s.timer_on then goes s [] else goes (record s { timer_on = true }) (notice ∷ [])
on_connection failed works s = on_failed works (record s { timer_on = true })
on_connection closed works s = goes (record s { peer_error = true }) []
on_connection other works s = goes s []

abbrev pub on_quit : Bool → Session → Outcome
on_quit works s =
    let said = if s.control_open then send_control hangup ∷ flush ∷ [] else [] in
    if not s.signaling_available
    then stops (record s { ended = true }) said finished
    else if works
    then stops (record s { ended = true }) (said ++ send_signal call_end ∷ []) finished
    else stops s (said ++ send_signal call_end ∷ []) send_failed

abbrev pub on_mute : Bool → Session → Outcome
on_mute works s =
    let t = record s { muted = not s.muted } in
    if not s.audio
    then goes s (notice ∷ [])
    else if works
    then goes t (send_control (audio_state t.muted) ∷ notice ∷ [])
    else stops t (send_control (audio_state t.muted) ∷ []) send_failed

abbrev pub on_text : Text → Bool → Session → Outcome
on_text text works s =
    if not s.control_open
    then goes s (notice ∷ [])
    else if ltb max_chat_text_size (length text)
    then goes s (problem ∷ [])
    else if works
    then goes s (send_control (chat text) ∷ show_local text ∷ [])
    else stops s (send_control (chat text) ∷ []) send_failed

-- A line of the user.
abbrev pub on_line : Text → Bool → Session → Outcome
on_line text works s =
    if is_empty text
    then goes s []
    else if text_eq text (codes "/status")
    then goes s (notice ∷ [])
    else if text_eq text (codes "/mute") || text_eq text (codes "m")
    then on_mute works s
    else if text_eq text (codes "/quit")
    then on_quit works s
    else on_text text works s

unfoldable pub handle : Event → Session → Outcome
unfolding text_eq
handle context_done s = stops s [] cancelled
handle signals_failed s = lose_signaling s
handle peer_error_due s = stops s [] peer_failed
handle reconnect_due s = stops s [] not_recovered
handle (camera_frame none) s = goes s (problem ∷ [])
handle (camera_frame (some packet)) s = goes s (send_video packet ∷ [])
handle camera_stopped s = goes (record s { frames_open = false }) (problem ∷ [])
handle microphone s = goes s (if s.muted then [] else send_audio ∷ [])
handle microphone_stopped s = goes (record s { packets_open = false }) (problem ∷ [])
handle (local_signal p works) s =
    if works then goes s (forward p ∷ []) else stops s (forward p ∷ []) send_failed
handle (video_packet d) s = on_video d s
handle signals_closed s = lose_signaling s
handle (server call_id e works) s =
    if not (is_empty call_id) && not (text_eq call_id s.call_id)
    then goes s []
    else on_server e works s
handle (control_opened works) s =
    let t = record s { control_open = true } in
    if works
    then goes t (send_control (hello s.local_profile) ∷ notice ∷ [])
    else stops t (send_control (hello s.local_profile) ∷ []) send_failed
handle (control e works opened) s = on_control e works opened s
handle audio_opened s = goes s (notice ∷ [])
handle (connection k route works) s = on_connection k works (record s { route = route })
handle (peer_failure is_video) s =
    if is_video then goes s (problem ∷ []) else goes (record s { peer_error = true }) []
handle (line text works) s = on_line text works s
handle line_failed s = stops s [] input_failed
handle input_closed s = stops s (notice ∷ []) finished

-- A channel that is nil is never ready.
unfoldable pub is_ready : Event → Session → Bool
is_ready signals_failed s = s.signaling_available
is_ready signals_closed s = s.signaling_available
is_ready (local_signal p works) s = s.signaling_available
is_ready (server call_id e works) s = s.signaling_available
is_ready peer_error_due s = s.peer_error
is_ready reconnect_due s = s.timer_on
is_ready (camera_frame f) s = s.frames_open
is_ready camera_stopped s = s.frames_open
is_ready microphone s = s.packets_open
is_ready microphone_stopped s = s.packets_open
is_ready e s = true

-- What follows a step.
abbrev pub after :
    Outcome
    → (Session → List Action × Session × Option Reason)
    → List Action × Session × Option Reason
after (goes t did) rest = let (more, u, r) = rest t in (did ++ more, u, r)
after (stops t did r) rest = (did, t, some r)

-- The loop over the events as they come, and why it ended, if it did; the actions in their order.
-- `finished` and `remote_ended` return no error.
unfoldable pub run_session : List Event → Session → List Action × Session × Option Reason
unfolding handle is_ready
run_session [] s = ([], s, none)
run_session (e ∷ es) s =
    let skip = run_session es s in
    let next = after (handle e s) (run_session es) in if is_ready e s then next else skip

-- `runSession` to its end, with what is deferred.
abbrev pub with_closing : List Action × Session × Option Reason → List Action
with_closing (did, s, none) = did
with_closing (did, s, some r) = did ++ closing s

-- What `runSession` does before the end of the call is deferred: the servers, the peer, and the offer
-- of a caller. An error here is returned at once.
abbrev pub set_up : Role → Bool → Bool → Bool → Option Reason
set_up role finds_servers makes_peer starts =
    if not finds_servers
    then some no_ice_servers
    else if not makes_peer
    then some no_peer
    else if is_caller role && not starts
    then some not_started
    else none

abbrev pub unless_failed :
    Option Reason → List Action × Session × Option Reason → List Action × Option Reason
unless_failed (some r) x = ([], some r)
unless_failed none x = (with_closing x, x.2)

-- `runSession`, from its first line on
unfoldable pub whole_session :
    Bool → Bool → Bool → List Event → Session → List Action × Option Reason
unfolding run_session
whole_session finds_servers makes_peer starts es s =
    unless_failed (set_up s.role finds_servers makes_peer starts) (run_session es s)

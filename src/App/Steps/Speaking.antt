-- ===== src/App/Steps/Speaking.antt =====
-- What a session says on the control channel.
use go_cli_messenger.Common.{
  ◌≡◌, Bool, true, ◌&&◌, not, leb, none, some, List, [], ◌∷◌, length, Text, codes, is_empty, arith,
  text_eq,
}
use go_cli_messenger.Protocol.Control.{max_chat_text_size}
use go_cli_messenger.App.Session
use go_cli_messenger.App.Session.{Session, Action, Reason, Outcome, Event}
use go_cli_messenger.App.Steps.{handle}

-- A text that the other side's check on a chat message lets through, and that is no command.
abbrev pub is_sayable : Text → Bool
is_sayable text =
    not (is_empty text)
    && leb (length text) max_chat_text_size
    && not (text_eq text (codes "/status"))
    && not (text_eq text (codes "/mute"))
    && not (text_eq text (codes "m"))
    && not (text_eq text (codes "/quit"))

-- Whether an action may be taken, by whether the channel is open and the microphone muted.
abbrev pub is_proper : Bool → Bool → Action → Bool
is_proper open_now muted (Session.send_control (Session.chat text)) = open_now && is_sayable text
is_proper open_now muted Session.send_audio = not muted
is_proper open_now muted a = true

unfoldable pub all_proper : Bool → Bool → List Action → Bool
all_proper open_now muted [] = true
all_proper open_now muted (a ∷ rest) = is_proper open_now muted a && all_proper open_now muted rest

abbrev pub is_proper_step : Session → Outcome → Bool
is_proper_step s (Session.goes t did) = all_proper s.control_open s.muted did
is_proper_step s (Session.stops t did r) = all_proper s.control_open s.muted did

-- In no state does a session send an empty or too long text, a command, a text before the channel is
-- open, or the microphone's audio while it is muted.
pub handle_proper : (e : Event) (s : Session) → is_proper_step s (handle e s) ≡ true
unfolding handle all_proper
handle_proper (Session.server call_id (Session.peer_signal (some p)) works) s = ground arith
handle_proper (Session.control (Session.remote_hello (some h)) works opened) s = ground arith
handle_proper (Session.control (Session.remote_chat (some text)) works opened) s = ground arith
handle_proper (Session.control (Session.remote_audio (some m)) works opened) s = ground arith
handle_proper (Session.connection Session.other route works) s = ground arith
handle_proper (Session.video_packet Session.invalid) s = ground arith
handle_proper (Session.camera_frame none) s = ground arith
handle_proper e s = ground arith

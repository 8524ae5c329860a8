-- ===== src/Examples/Local.antt =====
-- The daemon and its windows, and the loop of a call.
use go_cli_messenger.Common.{
  ◌≡◌, refl, ◌≤◌, ◌+◌, true, false, none, some, List, [], ◌∷◌, Text, codes, pos, All, lookup,
  text_eq,
}
use go_cli_messenger.Protocol.Message.{Json}
use go_cli_messenger.Protocol.Signal.{
  SignalMessage, SignalType, call_invite, call_end, is_known, requires_call_id,
}
use go_cli_messenger.Protocol.Names.{valid_address, valid_uuid}
use go_cli_messenger.Protocol.Validate.{validate_signal}
use go_cli_messenger.Daemon.Service.{
  Config, PendingCall, Service, new_service, open_terminal, Moment, to_server, close_window,
}
use go_cli_messenger.Daemon.Windows.{incoming, release}
use go_cli_messenger.Daemon.Claims as Claims
use go_cli_messenger.Daemon.Handover.{Allowed, incoming-Allowed}
use go_cli_messenger.Peer.Negotiation.{caller}
use go_cli_messenger.App.Session
use go_cli_messenger.App.Session.{Session, new_session, closing}
use go_cli_messenger.App.Steps.{run_session, whole_session, is_caller}
use go_cli_messenger.App.Steps.Ending.{tells}
use go_cli_messenger.App.Steps.Restarts.{restarts, connects, run_session-restarts}

abbrev config : Config
config = record {
  username = codes "ann-abcdefghijkl";
  behavior = open_terminal;
  do_not_disturb = false;
  invite_limit = 2;
  invite_window = 10;
}

abbrev json : Json
json = record {
  session_ready = λ s. none;
  sdp = λ s. none;
  candidate = λ s. none;
  proof = λ s. none;
  hello = λ s. none;
  chat = λ s. none;
  audio = λ s. none;
  signal = λ s. none;
  control = λ s. none;
}

abbrev moment : Moment
moment = record { now = 63871286400000000000; id = codes "01234567-89ab-4cde-8f01-23456789abcd" }

abbrev call_id : Text
call_id = codes "11234567-89ab-4cde-8f01-23456789abcd"

abbrev message : SignalType → SignalMessage
message type = record {
  version = pos 2;
  id = codes "21234567-89ab-4cde-8f01-23456789abcd";
  type = type;
  timestamp = 63871286400000000000;
  call_id = call_id;
  from = codes "bob-abcdefghijkl";
  to = codes "ann-abcdefghijkl";
  payload = [];
}

abbrev waiting : PendingCall
waiting = record { invite = message call_invite; claimed = false }

abbrev service : Service
service = record new_service { signal = some 1; pending = (call_id, waiting) ∷ [] }

abbrev ops : List Claims.Op
ops =
    Claims.connect 1 []
    ∷ Claims.message true moment (message call_invite)
    ∷ Claims.attaches 5 (some (codes "attach", call_id))
    ∷ Claims.comes call_id 5 moment true none
    ∷ []

run-new_service-Inv_example : Claims.Inv (Claims.run json config ops new_service)
run-new_service-Inv_example = Claims.run-new_service-Inv json config ops

abbrev leaving : SignalMessage
leaving = record (message call_end) {
  from = codes "ann-abcdefghijkl";
  to = codes "bob-abcdefghijkl";
}

-- The message is passed on, and so it was allowed.
incoming-Allowed_example :
    All (Allowed json config moment call_id service) (to_server leaving ∷ close_window 5 ∷ [])
unfolding incoming release lookup text_eq new_service validate_signal valid_uuid is_known
    valid_address requires_call_id
incoming-Allowed_example =
    incoming-Allowed json config moment call_id service 5 true (some (codes "signal", leaving))

abbrev talking : Session
talking = new_session caller call_id true false true (record { columns = 80; rows = 24; fps = 15 })

abbrev events : List Session.Event
events = Session.control_opened true ∷ Session.line (codes "/quit") true ∷ []

quit_told : tells (whole_session true true true events talking).0 ≡ true
unfolding tells whole_session run_session new_session
quit_told = refl

abbrev failing : List Session.Event
failing =
    Session.connection Session.failed (codes "unknown") true
    ∷ Session.connection Session.failed (codes "unknown") true
    ∷ []

run_session-restarts_example :
    (restarts (run_session failing talking).0 ≤ connects failing + 1)
    × (is_caller talking.role ≡ false → restarts (run_session failing talking).0 ≡ 0)
run_session-restarts_example = run_session-restarts failing talking

-- ===== src/App/Steps/Ending.antt =====
-- How a session ends, and what the other side hears of it.
use go_cli_messenger.Common.{
  ◌≡◌, Bool, true, false, ◌&&◌, ◌||◌, not, same_bool, Option, none, some, List, [], ◌∷◌, ◌++◌,
}
use go_cli_messenger.Protocol.Signal.{SignalType, call_end}
use go_cli_messenger.App.Session
use go_cli_messenger.App.Session.{Session, Action, Reason, Outcome, closing}

abbrev pub is_call_end : SignalType → Bool
is_call_end call_end = true
is_call_end type = false

-- Whether a `call.end` is sent to the server.
abbrev pub is_end : Action → Bool
is_end (Session.send_signal t) = is_call_end t
is_end a = false

unfoldable pub tells : List Action → Bool
tells [] = false
tells (a ∷ rest) = is_end a || tells rest

-- The other side, or the server for it, has ended the call.
abbrev pub is_remote : Reason → Bool
is_remote Session.remote_ended = true
is_remote Session.timed_out = true
is_remote r = false

-- Before a session stops it says nothing of the end; when it stops it does where it has to.
abbrev is_fine : Outcome → Bool
is_fine (Session.goes t did) = not (tells did) && not t.ended
is_fine (Session.stops t did r) =
    same_bool (tells (did ++ closing t)) (t.signaling_available && not (is_remote r))

-- The same of a whole run, by how it ended.
abbrev Told : List Action × Session × Option Reason → Type 0
Told (did, t, none) = (tells did ≡ false) × (t.ended ≡ false)
Told (did, t, some r) = tells (did ++ closing t) ≡ (t.signaling_available && not (is_remote r))

-- ===== src/Daemon/Service.antt =====
-- internal/client/daemon/daemon.go: the state of the service, and what it does with the messages of
-- the server. A connection, to the server or to a window, is known by a handle; the messages written
-- to it are effects, and whether a write fails shows as the end of the connection.
use go_cli_messenger.Common.{
  ℕ, ◌+◌, Bool, true, false, ◌&&◌, ◌||◌, not, ◌==◌, leb, ltb, if◌then◌else◌, pos, Option, none,
  some, is_some, List, [], ◌∷◌, ◌++◌, length, Text, Dict, lookup, insert, delete,
}
use go_cli_messenger.Protocol.Message.{Json}
use go_cli_messenger.Protocol.Signal.{
  SignalMessage, SignalType, protocol_version, session_error, call_invite, call_decline,
  call_cancel, call_timeout, call_end,
}
use go_cli_messenger.Protocol.Validate.{Result, ok, err, Validator, validate_signal}

pub data Behavior : Type 0 where
  open_terminal print ignore : Behavior

pub record Config : Type 0 where
  pub username : Text
  pub behavior : Behavior
  pub do_not_disturb : Bool
  pub invite_limit : ℕ
  pub invite_window : ℕ

pub record PendingCall : Type 0 where
  pub invite : SignalMessage
  pub claimed : Bool

-- `sessions` gives the window that handles a call, `invites` the times of a caller's invitations.
pub record Service : Type 0 where
  pub signal : Option ℕ
  pub stun_urls : List Text
  pub pending : Dict PendingCall
  pub sessions : Dict ℕ
  pub invites : Dict (List ℕ)

unfoldable pub new_service : Service
new_service = record { signal = none; stun_urls = []; pending = []; sessions = []; invites = [] }

-- `wireMessage`, by its kind
pub data Wire : Type 0 where
  ready : Text → List Text → SignalMessage → Wire
  signal : SignalMessage → Wire
  error : Wire

pub data Effect : Type 0 where
  to_window : ℕ → Wire → Effect
  close_window : ℕ → Effect
  to_server : SignalMessage → Effect
  launch print_answer : Text → Effect

-- `isTerminalSignal`
unfoldable pub is_terminal_signal : SignalType → Bool
is_terminal_signal call_cancel = true
is_terminal_signal call_decline = true
is_terminal_signal call_timeout = true
is_terminal_signal call_end = true
is_terminal_signal type = false

abbrev pub or_empty : Option (List ℕ) → List ℕ
or_empty none = []
or_empty (some values) = values

-- `value.After(now.Add(-window))`
abbrev pub is_recent : ℕ → ℕ → ℕ → Bool
is_recent window now value = ltb now (value + window)

unfoldable pub recent : ℕ → ℕ → List ℕ → List ℕ
recent window now [] = []
recent window now (v ∷ vs) =
    if is_recent window now v then v ∷ recent window now vs else recent window now vs

-- `allowInviteLocked`
unfoldable pub allow_invite : Config → Text → ℕ → Dict (List ℕ) → Dict (List ℕ) × Bool
unfolding recent
allow_invite c caller now invites =
    let values = recent c.invite_window now (or_empty (lookup caller invites)) in
    if leb c.invite_limit (length values)
    then (insert caller values invites, false)
    else (insert caller (values ++ now ∷ []) invites, true)

-- What `time.Now()` and `uuid.NewString()` give while an event is handled.
pub record Moment : Type 0 where
  pub now : ℕ
  pub id : Text

abbrev pub validator_at : Moment → Validator
validator_at t = record { now = t.now; maximum_age = 0; maximum_future = 0 }

abbrev pub is_ok {ℓ} : {A : Type ℓ} → Result A → Bool
is_ok (ok a) = true
is_ok (err e) = false

abbrev pub add_pending : Bool → SignalMessage → Dict PendingCall → Dict PendingCall
add_pending true invite pending =
    insert invite.call_id (record { invite = invite; claimed = false }) pending
add_pending false invite pending = pending

abbrev pub forget : Text → Service → Service
forget call_id s = record s {
  pending = delete call_id s.pending;
  sessions = delete call_id s.sessions;
}

module _ (json : Json) (c : Config) where
  -- `ValidateSignal` of `NewValidator()`, as `Send` of the signaling client and the service make it
  abbrev pub is_valid : Moment → SignalMessage → Bool
  is_valid t m = is_ok (validate_signal json (validator_at t) m)

  abbrev pub decline_message : Moment → SignalMessage → SignalMessage
  decline_message t invite = record {
    version = pos protocol_version;
    id = t.id;
    type = call_decline;
    timestamp = t.now;
    call_id = invite.call_id;
    from = c.username;
    to = invite.from;
    payload = [];
  }

  -- `send` of a call.decline; a message that is not valid is not sent.
  abbrev pub decline : Moment → SignalMessage → List Effect
  decline t invite =
      if is_valid t (decline_message t invite)
      then to_server (decline_message t invite) ∷ []
      else []

  abbrev pub ignores : Behavior → Bool
  ignores ignore = true
  ignores b = false

  abbrev pub is_unwanted : Bool
  is_unwanted = c.do_not_disturb || ignores c.behavior

  abbrev pub announce : Behavior → Text → List Effect
  announce print call_id = print_answer call_id ∷ []
  announce b call_id = launch call_id ∷ []

  -- `handleInvite`; `verified` is what `VerifyInvitation` says.
  unfoldable pub handle_invite : Bool → Moment → SignalMessage → Service → Service × List Effect
  unfolding allow_invite
  handle_invite verified t invite s =
      let (invites, allowed) = allow_invite c invite.from t.now s.invites in
      let known = is_some (lookup invite.call_id s.pending) in
      let s' = record s {
        invites = invites;
        pending = add_pending (allowed && not known && not is_unwanted) invite s.pending;
      } in
      if not verified
      then (s, decline t invite)
      else if known
      then (s', [])
      else if not allowed || is_unwanted
      then (s', decline t invite)
      else (s', announce c.behavior invite.call_id)

  -- A message for every window.
  unfoldable pub to_all : Wire → Dict ℕ → List Effect
  to_all w [] = []
  to_all w ((call_id, h) ∷ sessions) = to_window h w ∷ to_all w sessions

  abbrev pub pass_on : Option ℕ → SignalMessage → List Effect
  pass_on none m = []
  pass_on (some h) m = to_window h (signal m) ∷ []

  abbrev pub handle_other : SignalMessage → Service → Service × List Effect
  handle_other m s = (
    if is_terminal_signal m.type then forget m.call_id s else s,
    pass_on (lookup m.call_id s.sessions) m,
  )

  abbrev pub handle_type :
      SignalType → Bool → Moment → SignalMessage → Service → Service × List Effect
  handle_type session_error verified t m s = (s, to_all (signal m) s.sessions)
  handle_type call_invite verified t m s = handle_invite verified t m s
  handle_type type verified t m s = handle_other m s

  -- `handleSignal`
  unfoldable pub handle_signal : Bool → Moment → SignalMessage → Service → Service × List Effect
  unfolding is_terminal_signal handle_invite to_all
  handle_signal verified t m s = handle_type m.type verified t m s

-- `setSignal`
unfoldable pub set_signal : ℕ → List Text → Service → Service
set_signal client urls s = record s { signal = some client; stun_urls = urls }

close_all : Dict ℕ → List Effect
close_all [] = []
close_all ((call_id, h) ∷ sessions) = to_window h error ∷ close_window h ∷ close_all sessions

abbrev pub is_current : Option ℕ → ℕ → Bool
is_current none client = false
is_current (some k) client = k == client

-- `clearSignal`
unfoldable pub clear_signal : ℕ → Service → Service × List Effect
unfolding close_all
clear_signal client s = if not (is_current s.signal client) then (s, []) else (
  record s { signal = none; stun_urls = []; pending = []; sessions = [] },
  close_all s.sessions,
)

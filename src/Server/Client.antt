-- ===== src/Server/Client.antt =====
-- `clientConnection` of internal/server/websocket/server.go, and the messages that the server makes.
-- `closing` stands for a started `go c.Close()` that has not run yet.
use go_cli_messenger.Common.{
  ℕ, ◌-◌, ◌*◌, Bool, true, false, ◌&&◌, ◌||◌, not, ltb, if◌then◌else◌, List, [], ◌∷◌, ◌++◌, length,
  Text, codes, pos,
}
use go_cli_messenger.Protocol.Signal.{SignalType, SignalMessage, session_ping}
use go_cli_messenger.RateLimit.{Limiter, new_limiter}
use go_cli_messenger.Seen.{Seen, empty}

-- What the server reads of the world in one step: the time, `uuid.NewString` for the message of a
-- type, to a user, about a call, and `json.Marshal` of its own payloads.
pub record Env : Type 0 where
  pub now : ℕ
  pub new_id : SignalType → Text → Text → Text
  pub ready_payload : List Text → Text
  pub presence_payload : Bool → Text
  pub error_payload : Text → Text → Text

pub record Client : Type 0 where
  pub username : Text
  pub fingerprint : Text
  pub send : List SignalMessage
  pub queue_size : ℕ
  pub done : Bool
  pub closing : Bool
  pub registered : Bool
  pub last_seen : ℕ
  pub seen : Seen
  pub invites : Limiter

unfoldable pub new_client : ℕ → ℕ → ℕ → Client
new_client queue_size invite_limit invite_window = record {
  username = [];
  fingerprint = [];
  send = [];
  queue_size = queue_size;
  done = false;
  closing = false;
  registered = false;
  last_seen = 0;
  seen = empty (queue_size * 4);
  invites = new_limiter invite_limit invite_window;
}

unfoldable pub make_message : Env → SignalType → Text → Text → Text → Text → SignalMessage
make_message env type from to call_id payload = record {
  version = pos 2;
  id = env.new_id type to call_id;
  type = type;
  timestamp = env.now;
  call_id = call_id;
  from = from;
  to = to;
  payload = payload;
}

pub data Delivery : Type 0 where
  sent gone slow : Delivery

abbrev pub has_room : Client → Bool
has_room c = ltb (length c.send) c.queue_size

-- The `select` of `Deliver`: a ready case at random, and the default when none is ready.
unfoldable pub deliver : (Client → Bool) → SignalMessage → Client → Client × Delivery
deliver pick m c =
    if has_room c && (not c.done || pick c)
    then (record c { send = c.send ++ m ∷ [] }, sent)
    else if c.done
    then (c, gone)
    else (record c { closing = true }, slow)

unfoldable pub close : Client → Client
close c = record c { done = true }

unfoldable pub touch : ℕ → Client → Client
touch now c = record c { last_seen = now }

-- One turn of `writeLoop`: a closed client stops it, unless the `select` takes a message that waits
-- (`stop` is false); the message is written, or the write fails and closes the client.
unfoldable pub write_one : Bool → Bool → Client → Client × List SignalMessage
write_one stop written c = elim c.send [
  | [] ↦ (c, [])
  | m ∷ rest ↦
      if c.done && stop
      then (c, [])
      else if written
      then (record c { send = rest }, m ∷ [])
      else (record c { send = rest; done = true }, [])
]

unfoldable pub after_ping : Client × Delivery → Client
after_ping (c, sent) = c
after_ping (c, gone) = record c { done = true }
after_ping (c, slow) = record c { done = true }

-- One tick of `heartbeatLoop`.
unfoldable pub heartbeat : Env → (Client → Bool) → Bool → ℕ → Client → Client
unfolding after_ping
heartbeat env pick stop idle_timeout c =
    if c.done && stop
    then c
    else if ltb idle_timeout (env.now - c.last_seen)
    then record c { done = true }
    else after_ping
        (deliver pick (make_message env session_ping (codes "server") c.username [] []) c)

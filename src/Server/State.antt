-- ===== src/Server/State.antt =====
-- The state of the signaling server (internal/server/websocket/server.go) and what it delivers.
use go_cli_messenger.Common.{
  ℕ, Bool, true, false, ◌==◌, if◌then◌else◌, Option, none, some, List, [], Text, Dict, ℤ,
  positive_or,
}
use go_cli_messenger.Protocol.Signal.{
  SignalType, SignalMessage, session_hello, session_ready, session_error, presence_result,
  call_ringing, call_busy, call_timeout,
}
use go_cli_messenger.RateLimit.{KeyedLimiter, new_keyed}
use go_cli_messenger.Identity.Replay.{ReplayGuard, empty_guard}
use go_cli_messenger.Presence.{Registry, Endpoint, get}
use go_cli_messenger.Calls
use go_cli_messenger.Server.Client.{Client, Delivery, sent, gone, slow, deliver, close, new_client}

-- The configuration as it is given; the timeouts that only start timers are left out.
pub record Config : Type 0 where
  pub queue_size : ℤ
  pub idle_timeout : ℤ
  pub ring_timeout : ℤ
  pub negotiation_timeout : ℤ
  pub cleanup_after : ℤ
  pub invite_limit : ℤ
  pub invite_window : ℤ
  pub stun_urls : List Text

pub record Server : Type 0 where
  pub queue_size : ℕ
  pub idle_timeout : ℕ
  pub invite_limit : ℕ
  pub invite_window : ℕ
  pub stun_urls : List Text
  pub presence : Registry
  pub calls : Calls.Manager
  pub user_invites : KeyedLimiter
  pub suffixes : Dict Text
  pub replays : ReplayGuard
  pub stopped : Bool
  pub clients : ℕ → Client

-- Every handle holds a fresh connection until something happens on it.
unfoldable pub new_server : Config → Server
new_server config =
    let queue_size = positive_or config.queue_size 64 in
    let invite_limit = positive_or config.invite_limit 5 in
    let invite_window = positive_or config.invite_window 60000000000 in
    record {
      queue_size = queue_size;
      idle_timeout = positive_or config.idle_timeout 60000000000;
      invite_limit = invite_limit;
      invite_window = invite_window;
      stun_urls = config.stun_urls;
      presence = [];
      calls = Calls.new (record {
        ring_timeout = config.ring_timeout;
        negotiation_timeout = config.negotiation_timeout;
        cleanup_after = config.cleanup_after;
      });
      user_invites = new_keyed invite_limit invite_window;
      suffixes = [];
      replays = empty_guard;
      stopped = false;
      clients = λ h. new_client queue_size invite_limit invite_window;
    }

-- ErrUnauthorized, ErrRateLimited, ErrPeerOffline, ErrSlowClient, and the errors of the call manager.
pub data Failure : Type 0 where
  unauthorized rate_limited peer_offline slow_client : Failure
  refused_call : Calls.Error → Failure

pub data Outcome : Type 0 where
  done : Outcome
  failed : Failure → Outcome

abbrev pub set_client : ℕ → Client → Server → Server
set_client h c s = record s { clients = λ j. if j == h then c else s.clients j }

abbrev pub outcome : Delivery → Outcome
outcome sent = done
outcome gone = failed peer_offline
outcome slow = failed slow_client

-- `client.Deliver(…)` on the connection with this handle
abbrev pub deliver_client : (Client → Bool) → ℕ → SignalMessage → Server → Server × Outcome
deliver_client pick h m s =
    let (c, result) = deliver pick m (s.clients h) in (set_client h c s, outcome result)

abbrev pub close_client : ℕ → Server → Server
close_client h s = set_client h (close (s.clients h)) s

-- The end of `deliverTo`: whoever does not take the message is closed.
abbrev pub delivered : ℕ → Server × Outcome → Server × Outcome
delivered h (s, done) = (s, done)
delivered h (s, failed e) = (close_client h s, failed peer_offline)

abbrev pub deliver_target :
    (Client → Bool) → Option Endpoint → SignalMessage → Server → Server × Outcome
deliver_target pick none m s = (s, failed peer_offline)
deliver_target pick (some e) m s = delivered e.handle (deliver_client pick e.handle m s)

unfoldable pub deliver_to : (Client → Bool) → Text → SignalMessage → Server → Server × Outcome
deliver_to pick username m s = deliver_target pick (get username s.presence) m s

-- The message types that no client may send.
unfoldable pub server_only : SignalType → Bool
server_only session_hello = true
server_only session_ready = true
server_only session_error = true
server_only presence_result = true
server_only call_ringing = true
server_only call_busy = true
server_only call_timeout = true
server_only _ = false

-- ===== src/Server/Session.antt =====
-- The life of a connection in internal/server/websocket/server.go: `serve` with its handshake and its
-- loop, `disconnect`, the sweep, the heartbeat, the writer and `Shutdown`.
use go_cli_messenger.Common.{
  ℕ, Bool, true, false, not, if◌then◌else◌, Option, none, some, List, [], ◌∷◌, Text, codes, text_eq,
  take, Dict, lookup, insert,
}
use go_cli_messenger.Protocol.Signal.{
  SignalType, SignalMessage, session_hello, session_ready, session_error, call_end, call_timeout,
  address_suffix_length,
}
use go_cli_messenger.Protocol.Message.{Json}
use go_cli_messenger.Protocol.Validate
use go_cli_messenger.Identity.Replay.{accept}
use go_cli_messenger.Identity.Proof.{Crypto, Verification, refused, verified, verify}
use go_cli_messenger.Presence
use go_cli_messenger.Calls
use go_cli_messenger.Seen.{duplicate}
use go_cli_messenger.Server.Client.{Env, Client, make_message, touch}
use go_cli_messenger.Server.State.{
  Server, Failure, Outcome, done, failed, set_client, deliver_client, close_client, deliver_to,
}
use go_cli_messenger.Server.Dispatch.{server_name, error_code, reply, dispatch}

-- Whether the connection goes on after the handshake.
pub data Session : Type 0 where
  joined dropped : Session

abbrev pub same_fingerprint : Text → Option Text → Bool
same_fingerprint fp none = true
same_fingerprint fp (some known) = text_eq known fp

abbrev pub bind_suffix : Text → Option Text → Dict Text → Dict Text
bind_suffix fp none suffixes = insert (take address_suffix_length fp) fp suffixes
bind_suffix fp (some known) suffixes = suffixes

abbrev pub end_call : Env → (Client → Bool) → Text → Text → Calls.Result Text → Server → Server
end_call env pick username call_id (Calls.ok other) s =
    (deliver_to pick other (make_message env call_end username other call_id []) s).0
end_call env pick username call_id (Calls.err e) s = s

-- The loop of `disconnect` over the calls that have ended.
unfoldable pub end_calls : Env → (Client → Bool) → Text → List Calls.Call → Server → Server
end_calls env pick username [] s = s
end_calls env pick username (c ∷ cs) s =
    end_calls env pick username cs (end_call env pick username c.id (Calls.other c username) s)

abbrev pub forget_calls :
    Env → (Client → Bool) → Text → Calls.Manager × List Calls.Call → Server → Server
forget_calls env pick username (n, over) s =
    end_calls env pick username over (record s { calls = n })

abbrev pub endpoint : ℕ → Client → Presence.Endpoint
endpoint h c = record { handle = h; username = c.username }

unfoldable pub disconnect : Env → (Client → Bool) → ℕ → Server → Server
disconnect env pick h s =
    let c = s.clients h in
    let closed = close_client h s in
    let gone : Server = record closed {
      presence = Presence.unregister (endpoint h c) s.presence;
    } in
    if not c.registered
    then closed
    else if s.stopped
    then gone
    else forget_calls env pick c.username (Calls.disconnect c.username env.now s.calls) gone

-- The rest of the handshake, once the client has a name.
abbrev pub enter :
    Env → (Client → Bool) → ℕ → Presence.Registry × Presence.Registered → Server → Server × Session
enter env pick h (r, Presence.username_in_use) s = (s, dropped)
enter env pick h (r, Presence.done) s =
    let c = s.clients h in
    let known : Server =
      set_client h (record c { registered = true; last_seen = env.now })
        (record s { presence = r }) in
    let (s', result) =
      deliver_client pick h
        (make_message env session_ready server_name c.username [] (env.ready_payload s.stun_urls))
        known in
    elim result [ done ↦ (s', joined) | failed e ↦ (s', dropped) ]

-- `fp` is the fingerprint of the proof, which has been accepted.
abbrev pub identify : Env → (Client → Bool) → ℕ → Text → Text → Server → Server × Session
identify env pick h from fp s =
    let known = lookup (take address_suffix_length fp) s.suffixes in
    let c : Client = record (s.clients h) { username = from; fingerprint = fp } in
    let named : Server = set_client h c (record s { suffixes = bind_suffix fp known s.suffixes }) in
    if not (same_fingerprint fp known)
    then (s, dropped)
    else enter env pick h (Presence.register (endpoint h c) s.presence) named

abbrev pub prove : Env → (Client → Bool) → ℕ → Text → Verification → Server → Server × Session
prove env pick h from (refused e) s = (s, dropped)
prove env pick h from (verified p key fp) s =
    let (g, fresh) = accept fp p.nonce p.expires_at env.now s.replays in
    let guarded : Server = record s { replays = g } in
    if fresh then identify env pick h from fp guarded else (guarded, dropped)

abbrev pub is_hello : SignalType → Bool
is_hello session_hello = true
is_hello _ = false

-- `protocol.NewValidator` with the server's clock
abbrev pub server_validator : Env → Validate.Validator
server_validator env = record {
  now = env.now;
  maximum_age = Validate.day;
  maximum_future = Validate.five_minutes;
}

abbrev pub greet :
    Crypto → Env → (Client → Bool) → ℕ → Validate.Result SignalMessage → Server → Server × Session
greet crypto env pick h (Validate.err e) s = (s, dropped)
greet crypto env pick h (Validate.ok m) s =
    if is_hello m.type then prove env pick h m.from (verify crypto m env.now) s else (s, dropped)

abbrev pub settle : Env → (Client → Bool) → ℕ → Server × Session → Server × Session
settle env pick h (s, joined) = (s, joined)
settle env pick h (s, dropped) = (disconnect env pick h s, dropped)

-- The texts of the errors that a client is told.
pub record Texts : Type 0 where
  pub failure : Failure → Text
  pub invalid : Validate.Error → Text

module _ (json : Json) (crypto : Crypto) (texts : Texts) (env : Env) (pick : Client → Bool)
    (h : ℕ) where
  -- The first message of a connection, a text message or not, which lets it in or ends it.
  unfoldable pub hello : Bool → Text → Server → Server × Session
  hello is_text bytes s = settle env pick h (
      if is_text
      then greet crypto env pick h (Validate.decode_signal json bytes (server_validator env)) s
      else (s, dropped))

  unfoldable pub send_error : Text → Text → Server → Server
  send_error code text s =
      (reply crypto env pick h session_error server_name [] (env.error_payload code text) s).0

  abbrev pub answer : Server × Outcome → Server
  answer (s, done) = s
  answer (s, failed e) = send_error (error_code e) (texts.failure e) s

  abbrev pub take_message : Validate.Result SignalMessage → Server → Server
  take_message (Validate.err e) s = send_error (codes "invalid_message") (texts.invalid e) s
  take_message (Validate.ok m) s =
      let c = touch env.now (s.clients h) in
      let (seen, again) = duplicate m.id c.seen in
      let noted = set_client h (record c { seen = seen }) s in
      if again then noted else answer (dispatch crypto env pick h m noted)

  -- One turn of the loop of `serve`.
  unfoldable pub receive : Bool → Text → Server → Server
  receive is_text bytes s =
      if is_text
      then take_message (Validate.decode_signal json bytes (server_validator env)) s
      else send_error (codes "invalid_message") (codes "only text WebSocket messages are accepted")
          s

-- The loop of the sweep over the calls that have expired.
unfoldable pub time_out : Env → (Client → Bool) → List Calls.Call → Server → Server
time_out env pick [] s = s
time_out env pick (c ∷ cs) s =
    let to_caller = make_message env call_timeout c.callee c.caller c.id [] in
    let to_callee = make_message env call_timeout c.caller c.callee c.id [] in
    time_out env pick cs
      (deliver_to pick c.callee to_callee (deliver_to pick c.caller to_caller s).0).0

abbrev pub sweep_calls : Env → (Client → Bool) → Calls.Manager × List Calls.Call → Server → Server
sweep_calls env pick (n, expired) s = time_out env pick expired (record s { calls = n })

unfoldable pub sweep : Env → (Client → Bool) → Server → Server
sweep env pick s = sweep_calls env pick (Calls.expire env.now s.calls) s

abbrev pub close_all : List Presence.Endpoint → Server → Server
close_all [] s = s
close_all (e ∷ es) s = close_all es (close_client e.handle s)

unfoldable pub shutdown : Server → Server
shutdown s = close_all (Presence.endpoints s.presence) (record s { stopped = true })

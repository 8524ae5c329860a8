-- ===== src/Server/Dispatch.antt =====
-- `dispatch`, `verifyBoundProof` and `errorCode` of internal/server/websocket/server.go.
use go_cli_messenger.Common.{
  ℕ, Bool, true, false, not, ◌||◌, if◌then◌else◌, Option, none, some, [], is_some, Text, codes,
  text_eq,
}
use go_cli_messenger.Protocol.Signal.{
  SignalType, SignalMessage, session_ping, session_pong, presence_query, presence_result,
  call_invite, call_ringing, call_accept, call_decline, call_cancel, call_busy, call_end,
  webrtc_offer, webrtc_answer, webrtc_ice, webrtc_ice_complete,
}
use go_cli_messenger.RateLimit.{allow, allow_key}
use go_cli_messenger.Identity.Replay.{accept}
use go_cli_messenger.Identity.Proof.{Crypto, Verification, refused, verified, verify}
use go_cli_messenger.Presence.{Endpoint, get}
use go_cli_messenger.Calls
use go_cli_messenger.Server.Client.{Env, Client, make_message}
use go_cli_messenger.Server.State.{
  Server, Failure, unauthorized, rate_limited, peer_offline, refused_call, Outcome, done, failed,
  set_client, deliver_client, close_client, deliver_to, server_only,
}

abbrev pub server_name : Text
server_name = codes "server"

-- The error codes that a client is told.
unfoldable pub error_code : Failure → Text
error_code unauthorized = codes "unauthorized"
error_code (refused_call Calls.not_participant) = codes "unauthorized"
error_code rate_limited = codes "rate_limited"
error_code peer_offline = codes "peer_offline"
error_code (refused_call Calls.user_busy) = codes "busy"
error_code (refused_call Calls.invalid_transition) = codes "invalid_transition"
error_code (refused_call Calls.candidate_limit) = codes "candidate_limit"
error_code _ = codes "invalid_message"

module _ (crypto : Crypto) (env : Env) (pick : Client → Bool) (h : ℕ) where
  abbrev self : Server → Client
  self s = s.clients h

  -- A message of the server's own to the client.
  abbrev pub reply : SignalType → Text → Text → Text → Server → Server × Outcome
  reply type from call_id payload s =
      deliver_client pick h (make_message env type from (s.clients h).username call_id payload) s

  abbrev pub accept_proof : Verification → Server → Server × Bool
  accept_proof (refused e) s = (s, false)
  accept_proof (verified p key fp) s =
      let (g, fresh) = accept fp p.nonce p.expires_at env.now s.replays in
      if text_eq fp (s.clients h).fingerprint then (record s { replays = g }, fresh) else (s, false)

  -- `verifyBoundProof`: whether the proof is good, and the guard that has then seen it.
  unfoldable pub verify_bound_proof : SignalMessage → Server → Server × Bool
  verify_bound_proof m s = accept_proof (verify crypto m env.now) s

  -- `client.invites.Allow(now)`, then `s.userInvites.Allow(client.username, now)` if the first says yes
  unfoldable pub allow_invite : Server → Server × Bool
  allow_invite s =
      let c = s.clients h in
      let (own, first) = allow env.now c.invites in
      let (users, second) = allow_key c.username env.now s.user_invites in
      let counted = set_client h (record c { invites = own }) s in
      if first then (record counted { user_invites = users }, second) else (counted, false)

  abbrev pub with_calls : Calls.Manager → Server → Server
  with_calls n s = record s { calls = n }

  -- What follows the delivery of an invitation to its addressee.
  abbrev pub announced : ℕ → SignalMessage → Server × Outcome → Server × Outcome
  announced target m (s, done) = reply call_ringing m.to m.call_id [] s
  announced target m (s, failed e) =
      let (n, over) = Calls.disconnect m.to env.now s.calls in
      (with_calls n (close_client target s), failed peer_offline)

  abbrev pub invited :
      Endpoint → SignalMessage → Calls.Manager × Calls.Result Calls.Call → Server → Server × Outcome
  invited target m (n, Calls.ok call) s =
      announced target.handle m (deliver_client pick target.handle m (with_calls n s))
  invited target m (n, Calls.err Calls.user_busy) s =
      reply call_busy m.to m.call_id [] (with_calls n s)
  invited target m (n, Calls.err e) s = (with_calls n s, failed (refused_call e))

  abbrev pub invite_target : Option Endpoint → SignalMessage → Server → Server × Outcome
  invite_target none m s = (s, failed peer_offline)
  invite_target (some target) m s =
      invited target m (Calls.invite m.call_id (s.clients h).username m.to env.now s.calls) s

  abbrev pub invite_allowed : SignalMessage → Server × Bool → Server × Outcome
  invite_allowed m (s, false) = (s, failed rate_limited)
  invite_allowed m (s, true) = invite_target (get m.to s.presence) m s

  abbrev pub invite_proved : SignalMessage → Server × Bool → Server × Outcome
  invite_proved m (s, false) = (s, failed unauthorized)
  invite_proved m (s, true) = invite_allowed m (allow_invite s)

  abbrev pub relayed :
      SignalMessage → Calls.Manager × Calls.Result Calls.Call → Server → Server × Outcome
  relayed m (n, Calls.ok call) s = deliver_to pick m.to m (with_calls n s)
  relayed m (n, Calls.err e) s = (with_calls n s, failed (refused_call e))

  -- A message of a call: the call manager is asked, and then it goes to the addressee as it is.
  unfoldable pub relay : SignalMessage → Server → Server × Outcome
  relay m s =
      relayed m (Calls.transition m.type m.call_id (s.clients h).username m.to env.now s.calls) s

  abbrev pub accept_proved : SignalMessage → Server × Bool → Server × Outcome
  accept_proved m (s, false) = (s, failed unauthorized)
  accept_proved m (s, true) = relay m s

  -- The `switch` of `dispatch`.
  unfoldable pub route : SignalType → SignalMessage → Server → Server × Outcome
  unfolding verify_bound_proof allow_invite relay
  route session_pong m s =
      if not (text_eq m.to server_name) then (s, failed unauthorized) else (s, done)
  route session_ping m s =
      if not (text_eq m.to server_name)
      then (s, failed unauthorized)
      else reply session_pong server_name [] [] s
  route presence_query m s =
      reply presence_result server_name [] (env.presence_payload (is_some (get m.to s.presence))) s
  route call_invite m s = invite_proved m (verify_bound_proof m s)
  route call_accept m s = accept_proved m (verify_bound_proof m s)
  route call_decline m s = relay m s
  route call_cancel m s = relay m s
  route call_end m s = relay m s
  route webrtc_offer m s = relay m s
  route webrtc_answer m s = relay m s
  route webrtc_ice m s = relay m s
  route webrtc_ice_complete m s = relay m s
  route _ m s = (s, failed unauthorized)

  unfoldable pub dispatch : SignalMessage → Server → Server × Outcome
  unfolding route
  dispatch m s =
      if not (text_eq m.from (s.clients h).username) || server_only m.type
      then (s, failed unauthorized)
      else route m.type m s

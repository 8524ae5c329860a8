-- ===== src/Server/Preservation.antt =====
-- The handlers of the server keep its invariant.
use go_cli_messenger.Common.{
  ℕ, refl, Bool, true, false, not, ◌||◌, if◌then◌else◌, inl, inr, Option, none, some, Text, text_eq,
  Bool-cases,
}
use go_cli_messenger.Protocol.Signal.{
  SignalType, SignalMessage, session_ping, session_pong, presence_query, call_invite, call_accept,
  call_decline, call_cancel, call_end, webrtc_offer, webrtc_answer, webrtc_ice, webrtc_ice_complete,
}
use go_cli_messenger.RateLimit.{allow}
use go_cli_messenger.Identity.Replay.Single
use go_cli_messenger.Identity.Proof.{Crypto, Verification, refused, verified, verify}
use go_cli_messenger.Presence
use go_cli_messenger.Calls
use go_cli_messenger.Calls.Preservation
use go_cli_messenger.Server.Client.{Env, Client}
use go_cli_messenger.Server.State.{
  Server, Outcome, done, failed, set_client, deliver_client, close_client, deliver_to, server_only,
}
use go_cli_messenger.Server.Dispatch.{
  accept_proof, verify_bound_proof, allow_invite, announced, invited, invite_target, invite_allowed,
  invite_proved, relayed, relay, accept_proved, route, dispatch, server_name,
}
use go_cli_messenger.Server.World.{Phase}
use go_cli_messenger.Server.Invariant.{
  Inv, with_calls-Inv, with_replays-Inv, with_user_invites-Inv, set_client-Inv, deliver_client-Inv,
  close_client-Inv, deliver_to-Inv,
}

module _ (crypto : Crypto) (env : Env) (pick : Client → Bool) (h : ℕ) (phase : ℕ → Phase) where
  accept_proof-Inv :
      (r : Verification) (s : Server)
      → Inv phase s
      → Inv phase (accept_proof crypto env pick h r s).0
  accept_proof-Inv (refused e) s v = v
  accept_proof-Inv (verified p key fp) s v =
      elim (Bool-cases (text_eq fp (s.clients h).fingerprint)) [
        | inl same ↦ rw same (
            with_replays-Inv phase s v _
              (Single.accept-Inv fp p.nonce p.expires_at env.now s.replays v.replays_ok))
        | inr apart ↦ rw apart v
      ]

  allow_invite-Inv : (s : Server) → Inv phase s → Inv phase (allow_invite crypto env pick h s).0
  unfolding allow_invite
  allow_invite-Inv s v =
      let c = s.clients h in
      let counted-Inv =
        set_client-Inv phase s v h (record c { invites = (allow env.now c.invites).0 })
          (record {
            same_username = refl;
            same_fingerprint = refl;
            same_registered = refl;
            bounded = λ b. b;
            seen_kept = λ w. w;
          }) in
      elim (Bool-cases (allow env.now c.invites).1) [
        | inl holds ↦ rw holds (with_user_invites-Inv phase _ counted-Inv _)
        | inr fails ↦ rw fails counted-Inv
      ]

  announced-Inv :
      (target : ℕ) (m : SignalMessage) (r : Server × Outcome)
      → Inv phase r.0
      → Inv phase (announced crypto env pick h target m r).0
  announced-Inv target m (s, done) v = deliver_client-Inv phase s v pick h _
  announced-Inv target m (s, failed e) v =
      with_calls-Inv phase _ (close_client-Inv phase s v target) _
        (Calls.Preservation.disconnect-Inv m.to env.now s.calls v.calls_ok)

  invited-Inv :
      (target : Presence.Endpoint) (m : SignalMessage) (r : Calls.Manager × Calls.Result Calls.Call)
      (s : Server)
      → Calls.Invariant.Inv r.0
      → Inv phase s
      → Inv phase (invited crypto env pick h target m r s).0
  invited-Inv target m (n, Calls.ok call) s k v =
      announced-Inv target.handle m _
        (deliver_client-Inv phase _ (with_calls-Inv phase s v n k) pick target.handle m)
  invited-Inv target m (n, Calls.err Calls.user_busy) s k v =
      deliver_client-Inv phase _ (with_calls-Inv phase s v n k) pick h _
  invited-Inv target m (n, Calls.err e) s k v = with_calls-Inv phase s v n k

  invite_target-Inv :
      (o : Option Presence.Endpoint) (m : SignalMessage) (s : Server)
      → Inv phase s
      → Inv phase (invite_target crypto env pick h o m s).0
  invite_target-Inv none m s v = v
  invite_target-Inv (some target) m s v =
      invited-Inv target m _ s
        (Calls.Preservation.invite-Inv m.call_id (s.clients h).username m.to env.now s.calls
          v.calls_ok)
        v

  invite_allowed-Inv :
      (m : SignalMessage) (r : Server × Bool)
      → Inv phase r.0
      → Inv phase (invite_allowed crypto env pick h m r).0
  invite_allowed-Inv m (s, false) v = v
  invite_allowed-Inv m (s, true) v = invite_target-Inv (Presence.get m.to s.presence) m s v

  invite_proved-Inv :
      (m : SignalMessage) (r : Server × Bool)
      → Inv phase r.0
      → Inv phase (invite_proved crypto env pick h m r).0
  invite_proved-Inv m (s, false) v = v
  invite_proved-Inv m (s, true) v = invite_allowed-Inv m _ (allow_invite-Inv s v)

  relayed-Inv :
      (m : SignalMessage) (r : Calls.Manager × Calls.Result Calls.Call) (s : Server)
      → Calls.Invariant.Inv r.0
      → Inv phase s
      → Inv phase (relayed crypto env pick h m r s).0
  relayed-Inv m (n, Calls.ok call) s k v =
      deliver_to-Inv phase pick m.to m _ (with_calls-Inv phase s v n k)
  relayed-Inv m (n, Calls.err e) s k v = with_calls-Inv phase s v n k

  relay-Inv :
      (m : SignalMessage) (s : Server) → Inv phase s → Inv phase (relay crypto env pick h m s).0
  unfolding relay
  relay-Inv m s v =
      relayed-Inv m _ s
        (Calls.Preservation.transition-Inv m.type m.call_id (s.clients h).username m.to env.now
          s.calls v.calls_ok)
        v

  accept_proved-Inv :
      (m : SignalMessage) (r : Server × Bool)
      → Inv phase r.0
      → Inv phase (accept_proved crypto env pick h m r).0
  accept_proved-Inv m (s, false) v = v
  accept_proved-Inv m (s, true) v = relay-Inv m s v

  to_server-Inv :
      (to : Text) (s : Server) (r : Server × Outcome)
      → Inv phase s
      → Inv phase r.0
      → Inv phase
          (if◌then◌else◌ {A = Server × Outcome}
            (not (text_eq to server_name))
            (s, failed go_cli_messenger.Server.State.unauthorized)
            r).0
  to_server-Inv to s r v w = elim (Bool-cases (text_eq to server_name)) [
    | inl holds ↦ rw holds w
    | inr fails ↦ rw fails v
  ]

  route-Inv :
      (type : SignalType) (m : SignalMessage) (s : Server)
      → Inv phase s
      → Inv phase (route crypto env pick h type m s).0
  unfolding route
  route-Inv session_pong m s v = to_server-Inv m.to s (s, done) v v
  route-Inv session_ping m s v = to_server-Inv m.to s _ v (deliver_client-Inv phase s v pick h _)
  route-Inv presence_query m s v = deliver_client-Inv phase s v pick h _
  route-Inv call_invite m s v =
      unfold verify_bound_proof in
      invite_proved-Inv m _ (accept_proof-Inv (verify crypto m env.now) s v)
  route-Inv call_accept m s v =
      unfold verify_bound_proof in
      accept_proved-Inv m _ (accept_proof-Inv (verify crypto m env.now) s v)
  route-Inv call_decline m s v = relay-Inv m s v
  route-Inv call_cancel m s v = relay-Inv m s v
  route-Inv call_end m s v = relay-Inv m s v
  route-Inv webrtc_offer m s v = relay-Inv m s v
  route-Inv webrtc_answer m s v = relay-Inv m s v
  route-Inv webrtc_ice m s v = relay-Inv m s v
  route-Inv webrtc_ice_complete m s v = relay-Inv m s v
  route-Inv type m s v = v

  pub dispatch-Inv :
      (m : SignalMessage) (s : Server) → Inv phase s → Inv phase (dispatch crypto env pick h m s).0
  unfolding dispatch
  dispatch-Inv m s v =
      elim (Bool-cases (not (text_eq m.from (s.clients h).username) || server_only m.type)) [
        | inl holds ↦ rw holds v
        | inr fails ↦ rw fails (route-Inv m.type m s v)
      ]

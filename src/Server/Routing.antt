-- ===== src/Server/Routing.antt =====
-- Where the messages of a client go, and whose they are.
use go_cli_messenger.Common.{
  ℕ, ◌≡◌, ◌≢◌, refl, sym, ◌∙◌, subst, inl, inr, Bool, true, false, not, ◌||◌, ==_iff, if◌then◌else◌,
  Option, none, some, Text, text_eq, Bool-cases, arith,
}
use go_cli_messenger.Protocol.Signal.{
  SignalType, SignalMessage, session_ping, session_pong, presence_query, call_invite, call_accept,
  call_decline, call_cancel, call_end, webrtc_offer, webrtc_answer, webrtc_ice, webrtc_ice_complete,
}
use go_cli_messenger.Identity.Proof.{Crypto, Verification, refused, verified, verify}
use go_cli_messenger.Presence
use go_cli_messenger.Calls
use go_cli_messenger.Server.Client.{Env, Client, deliver}
use go_cli_messenger.Server.State.{
  Server, Outcome, done, failed, unauthorized, set_client, deliver_client, deliver_to,
  deliver_target, delivered, server_only,
}
use go_cli_messenger.Server.Dispatch.{
  accept_proof, verify_bound_proof, allow_invite, with_calls, announced, invited, invite_target,
  invite_allowed, invite_proved, relayed, relay, accept_proved, route, dispatch, server_name,
}

-- The connection is not the one that the registry has for the user.
abbrev pub NotOf : ℕ → Option Presence.Endpoint → Type 0
NotOf j none = Unit
NotOf j (some e) = j ≢ e.handle

set_client_frame :
    (h j : ℕ) (c : Client) (s : Server) → j ≢ h → (set_client h c s).clients j ≡ s.clients j
set_client_frame h j c s apart = ground (arith, ==_iff j h)

deliver_to_frame :
    (pick : Client → Bool) (username : Text) (m : SignalMessage) (s : Server) (j : ℕ)
    → NotOf j (Presence.get username s.presence)
    → (deliver_to pick username m s).0.clients j ≡ s.clients j
unfolding deliver_to
deliver_to_frame pick username m s j n = at_target (Presence.get username s.presence) n
  where
    end_of :
        (h : ℕ) (r : Server × Outcome)
        → j ≢ h
        → r.0.clients j ≡ s.clients j
        → (delivered h r).0.clients j ≡ s.clients j
    end_of h (t, done) apart e = e
    end_of h (t, failed x) apart e = set_client_frame h j _ t apart ∙ e

    at_target :
        (o : Option Presence.Endpoint)
        → NotOf j o
        → (deliver_target pick o m s).0.clients j ≡ s.clients j
    at_target none n = refl
    at_target (some e) n =
        end_of e.handle (deliver_client pick e.handle m s) n (set_client_frame e.handle j _ s n)

module _ (crypto : Crypto) (env : Env) (pick : Client → Bool) (h j : ℕ) (apart : j ≢ h) where
  accept_proof_frame :
      (r : Verification) (s : Server)
      → ((accept_proof crypto env pick h r s).0.clients j ≡ s.clients j)
        × ((accept_proof crypto env pick h r s).0.presence ≡ s.presence)
  accept_proof_frame (refused e) s = (refl, refl)
  accept_proof_frame (verified p key fp) s = (ground arith, ground arith)

  allow_invite_frame :
      (s : Server)
      → ((allow_invite crypto env pick h s).0.clients j ≡ s.clients j)
        × ((allow_invite crypto env pick h s).0.presence ≡ s.presence)
  unfolding allow_invite
  allow_invite_frame s = (ground (arith, ==_iff j h), ground arith)

  announced_frame :
      (target : ℕ) (m : SignalMessage) (r : Server × Outcome)
      → j ≢ target
      → (announced crypto env pick h target m r).0.clients j ≡ r.0.clients j
  announced_frame target m (s, done) n = set_client_frame h j _ s apart
  announced_frame target m (s, failed e) n = set_client_frame target j _ s n

  invited_frame :
      (target : Presence.Endpoint) (m : SignalMessage) (r : Calls.Manager × Calls.Result Calls.Call)
      (s : Server)
      → j ≢ target.handle
      → (invited crypto env pick h target m r s).0.clients j ≡ s.clients j
  invited_frame target m (n, Calls.ok call) s a =
      let t = with_calls crypto env pick h n s in
      announced_frame target.handle m (deliver_client pick target.handle m t) a
      ∙ set_client_frame target.handle j (deliver pick m (s.clients target.handle)).0 t a
  invited_frame target m (n, Calls.err Calls.user_busy) s a =
      set_client_frame h j _ (with_calls crypto env pick h n s) apart
  invited_frame target m (n, Calls.err e) s a = refl

  invite_target_frame :
      (o : Option Presence.Endpoint) (m : SignalMessage) (s : Server)
      → NotOf j o
      → (invite_target crypto env pick h o m s).0.clients j ≡ s.clients j
  invite_target_frame none m s n = refl
  invite_target_frame (some e) m s n = invited_frame e m _ s n

  invite_allowed_frame :
      (m : SignalMessage) (r : Server × Bool)
      → NotOf j (Presence.get m.to r.0.presence)
      → (invite_allowed crypto env pick h m r).0.clients j ≡ r.0.clients j
  invite_allowed_frame m (s, false) n = refl
  invite_allowed_frame m (s, true) n = invite_target_frame _ m s n

  invite_proved_frame :
      (m : SignalMessage) (r : Server × Bool)
      → NotOf j (Presence.get m.to r.0.presence)
      → (invite_proved crypto env pick h m r).0.clients j ≡ r.0.clients j
  invite_proved_frame m (s, false) n = refl
  invite_proved_frame m (s, true) n =
      let (same, present) = allow_invite_frame s in
      invite_allowed_frame m (allow_invite crypto env pick h s)
        (subst (λ r. NotOf j (Presence.get m.to r)) (sym present) n)
      ∙ same

  relayed_frame :
      (m : SignalMessage) (r : Calls.Manager × Calls.Result Calls.Call) (s : Server)
      → NotOf j (Presence.get m.to s.presence)
      → (relayed crypto env pick h m r s).0.clients j ≡ s.clients j
  relayed_frame m (n, Calls.ok call) s a =
      deliver_to_frame pick m.to m (with_calls crypto env pick h n s) j a
  relayed_frame m (n, Calls.err e) s a = refl

  accept_proved_frame :
      (m : SignalMessage) (r : Server × Bool)
      → NotOf j (Presence.get m.to r.0.presence)
      → (accept_proved crypto env pick h m r).0.clients j ≡ r.0.clients j
  unfolding relay
  accept_proved_frame m (s, false) n = refl
  accept_proved_frame m (s, true) n = relayed_frame m _ s n

  to_server_frame :
      (to : Text) (s : Server) (r : Server × Outcome)
      → r.0.clients j ≡ s.clients j
      → (if◌then◌else◌ {A = Server × Outcome}
            (not (text_eq to server_name))
            (s, failed unauthorized)
            r).0.clients
          j
        ≡ s.clients j
  to_server_frame to s r e = ground arith

  route_frame :
      (type : SignalType) (m : SignalMessage) (s : Server)
      → NotOf j (Presence.get m.to s.presence)
      → (route crypto env pick h type m s).0.clients j ≡ s.clients j
  unfolding route relay verify_bound_proof
  route_frame session_pong m s n = to_server_frame m.to s (s, done) refl
  route_frame session_ping m s n = to_server_frame m.to s _ (set_client_frame h j _ s apart)
  route_frame presence_query m s n = set_client_frame h j _ s apart
  route_frame call_invite m s n =
      let (same, present) = accept_proof_frame (verify crypto m env.now) s in
      invite_proved_frame m (accept_proof crypto env pick h (verify crypto m env.now) s)
        (subst (λ r. NotOf j (Presence.get m.to r)) (sym present) n)
      ∙ same
  route_frame call_accept m s n =
      let (same, present) = accept_proof_frame (verify crypto m env.now) s in
      accept_proved_frame m (accept_proof crypto env pick h (verify crypto m env.now) s)
        (subst (λ r. NotOf j (Presence.get m.to r)) (sym present) n)
      ∙ same
  route_frame call_decline m s n = relayed_frame m _ s n
  route_frame call_cancel m s n = relayed_frame m _ s n
  route_frame call_end m s n = relayed_frame m _ s n
  route_frame webrtc_offer m s n = relayed_frame m _ s n
  route_frame webrtc_answer m s n = relayed_frame m _ s n
  route_frame webrtc_ice m s n = relayed_frame m _ s n
  route_frame webrtc_ice_complete m s n = relayed_frame m _ s n
  route_frame type m s n = refl

  -- Whatever a client sends, the server changes no connection but the client's own and the one that
  -- the registry has for the message's addressee.
  pub dispatch_frame :
      (m : SignalMessage) (s : Server)
      → NotOf j (Presence.get m.to s.presence)
      → (dispatch crypto env pick h m s).0.clients j ≡ s.clients j
  unfolding dispatch
  dispatch_frame m s n =
      elim (Bool-cases (not (text_eq m.from (s.clients h).username) || server_only m.type)) [
        | inl spoofed ↦ rw spoofed refl
        | inr honest ↦ rw honest (route_frame m.type m s n)
      ]

-- ===== src/Server/Bindings.antt =====
-- What the server does with a message leaves the suffixes of the fingerprints as they are.
use go_cli_messenger.Common.{
  ℕ, ◌≡◌, refl, ◌∙◌, if_intro, Bool, true, false, ◌||◌, not, Option, none, some, Text, text_eq,
  arith,
}
use go_cli_messenger.Protocol.Signal.{
  SignalType, SignalMessage, session_ping, session_pong, presence_query, call_invite, call_accept,
  call_decline, call_cancel, call_end, webrtc_offer, webrtc_answer, webrtc_ice, webrtc_ice_complete,
}
use go_cli_messenger.Identity.Proof.{Crypto, Verification, refused, verified, verify}
use go_cli_messenger.Presence
use go_cli_messenger.Calls
use go_cli_messenger.Server.Client.{Env, Client}
use go_cli_messenger.Server.State.{
  Server, Outcome, done, failed, deliver_client, deliver_to, deliver_target, delivered, server_only,
}
use go_cli_messenger.Server.Dispatch.{
  accept_proof, verify_bound_proof, allow_invite, with_calls, announced, invited, invite_target,
  invite_allowed, invite_proved, relayed, relay, accept_proved, route, dispatch,
}

pub deliver_to-suffixes :
    (pick : Client → Bool) (username : Text) (m : SignalMessage) (s : Server)
    → (deliver_to pick username m s).0.suffixes ≡ s.suffixes
unfolding deliver_to
deliver_to-suffixes pick username m s = at_target (Presence.get username s.presence)
  where
    end_of : (h : ℕ) (r : Server × Outcome) → (delivered h r).0.suffixes ≡ r.0.suffixes
    end_of h (t, done) = refl
    end_of h (t, failed x) = refl

    at_target : (o : Option Presence.Endpoint) → (deliver_target pick o m s).0.suffixes ≡ s.suffixes
    at_target none = refl
    at_target (some e) = end_of e.handle (deliver_client pick e.handle m s)

module _ (crypto : Crypto) (env : Env) (pick : Client → Bool) (h : ℕ) where
  accept_proof-suffixes :
      (r : Verification) (s : Server) → (accept_proof crypto env pick h r s).0.suffixes ≡ s.suffixes
  accept_proof-suffixes (refused e) s = refl
  accept_proof-suffixes (verified p key fp) s = ground arith

  allow_invite-suffixes : (s : Server) → (allow_invite crypto env pick h s).0.suffixes ≡ s.suffixes
  unfolding allow_invite
  allow_invite-suffixes s = ground arith

  announced-suffixes :
      (target : ℕ) (m : SignalMessage) (r : Server × Outcome)
      → (announced crypto env pick h target m r).0.suffixes ≡ r.0.suffixes
  announced-suffixes target m (s, done) = refl
  announced-suffixes target m (s, failed e) = refl

  invited-suffixes :
      (target : Presence.Endpoint) (m : SignalMessage) (r : Calls.Manager × Calls.Result Calls.Call)
      (s : Server)
      → (invited crypto env pick h target m r s).0.suffixes ≡ s.suffixes
  invited-suffixes target m (n, Calls.ok call) s =
      announced-suffixes target.handle m
        (deliver_client pick target.handle m (with_calls crypto env pick h n s))
  invited-suffixes target m (n, Calls.err Calls.user_busy) s = refl
  invited-suffixes target m (n, Calls.err e) s = refl

  invite_target-suffixes :
      (o : Option Presence.Endpoint) (m : SignalMessage) (s : Server)
      → (invite_target crypto env pick h o m s).0.suffixes ≡ s.suffixes
  invite_target-suffixes none m s = refl
  invite_target-suffixes (some e) m s = invited-suffixes e m _ s

  invite_proved-suffixes :
      (m : SignalMessage) (r : Server × Bool)
      → (invite_proved crypto env pick h m r).0.suffixes ≡ r.0.suffixes
  invite_proved-suffixes m (s, false) = refl
  invite_proved-suffixes m (s, true) =
      allowed (allow_invite crypto env pick h s) ∙ allow_invite-suffixes s
    where
      allowed :
          (r : Server × Bool) → (invite_allowed crypto env pick h m r).0.suffixes ≡ r.0.suffixes
      allowed (t, false) = refl
      allowed (t, true) = invite_target-suffixes (Presence.get m.to t.presence) m t

  relayed-suffixes :
      (m : SignalMessage) (r : Calls.Manager × Calls.Result Calls.Call) (s : Server)
      → (relayed crypto env pick h m r s).0.suffixes ≡ s.suffixes
  relayed-suffixes m (n, Calls.ok call) s =
      deliver_to-suffixes pick m.to m (with_calls crypto env pick h n s)
  relayed-suffixes m (n, Calls.err e) s = refl

  accept_proved-suffixes :
      (m : SignalMessage) (r : Server × Bool)
      → (accept_proved crypto env pick h m r).0.suffixes ≡ r.0.suffixes
  unfolding relay
  accept_proved-suffixes m (s, false) = refl
  accept_proved-suffixes m (s, true) = relayed-suffixes m _ s

  route-suffixes :
      (type : SignalType) (m : SignalMessage) (s : Server)
      → (route crypto env pick h type m s).0.suffixes ≡ s.suffixes
  unfolding route relay verify_bound_proof
  route-suffixes session_pong m s = ground arith
  route-suffixes session_ping m s = ground arith
  route-suffixes presence_query m s = refl
  route-suffixes call_invite m s =
      invite_proved-suffixes m (accept_proof crypto env pick h (verify crypto m env.now) s)
      ∙ accept_proof-suffixes (verify crypto m env.now) s
  route-suffixes call_accept m s =
      accept_proved-suffixes m (accept_proof crypto env pick h (verify crypto m env.now) s)
      ∙ accept_proof-suffixes (verify crypto m env.now) s
  route-suffixes call_decline m s = relayed-suffixes m _ s
  route-suffixes call_cancel m s = relayed-suffixes m _ s
  route-suffixes call_end m s = relayed-suffixes m _ s
  route-suffixes webrtc_offer m s = relayed-suffixes m _ s
  route-suffixes webrtc_answer m s = relayed-suffixes m _ s
  route-suffixes webrtc_ice m s = relayed-suffixes m _ s
  route-suffixes webrtc_ice_complete m s = relayed-suffixes m _ s
  route-suffixes type m s = refl

  pub dispatch-suffixes :
      (m : SignalMessage) (s : Server) → (dispatch crypto env pick h m s).0.suffixes ≡ s.suffixes
  unfolding dispatch
  dispatch-suffixes m s =
      if_intro (λ (r : Server × Outcome). r.0.suffixes ≡ s.suffixes)
        (not (text_eq m.from (s.clients h).username) || server_only m.type) _ _ (λ _. refl)
        (λ _. route-suffixes m.type m s)

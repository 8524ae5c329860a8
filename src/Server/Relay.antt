-- ===== src/Server/Relay.antt =====
-- What it takes for a message to get through, and whom it reaches.
use go_cli_messenger.Common.{
  ℕ, ◌≡◌, ◌≢◌, refl, sym, subst, ◌⊎◌, inl, inr, Bool, true, false, not, ◌||◌, if◌then◌else◌, some,
  Text, text_eq, text_eq_iff, Bool-cases, arith, lookup,
}
use go_cli_messenger.Protocol.Signal.{
  SignalType, SignalMessage, call_invite, call_accept, call_decline, call_cancel, call_end,
  webrtc_offer, webrtc_answer, webrtc_ice, webrtc_ice_complete,
}
use go_cli_messenger.Protocol.Message.{IdentityProof}
use go_cli_messenger.Identity.Replay.{accept}
use go_cli_messenger.Identity.Proof.{Crypto, Verification, refused, verified, verify}
use go_cli_messenger.Identity.Proof.Verified.{Verified, verify_iff}
use go_cli_messenger.Calls
use go_cli_messenger.Calls.Invariant
use go_cli_messenger.Calls.Graph.{Role, Plays, Moved, transition-Moved}
use go_cli_messenger.Server.Client.{Env, Client}
use go_cli_messenger.Server.State.{Server, done, failed, unauthorized, server_only}
use go_cli_messenger.Server.Dispatch.{
  accept_proof, verify_bound_proof, with_calls, invite_proved, relayed, relay, accept_proved, route,
  dispatch,
}
use go_cli_messenger.Server.Reached.{Reached, deliver_to-Reached}

-- The messages of a call that go to the other participant as they are.
abbrev pub is_relayed : SignalType → Bool
is_relayed call_accept = true
is_relayed call_decline = true
is_relayed call_cancel = true
is_relayed call_end = true
is_relayed webrtc_offer = true
is_relayed webrtc_answer = true
is_relayed webrtc_ice = true
is_relayed webrtc_ice_complete = true
is_relayed _ = false

-- The messages that carry a proof of identity once a client is in.
abbrev pub is_proved : SignalType → Bool
is_proved call_invite = true
is_proved call_accept = true
is_proved _ = false

-- The call that the message names has its sender and its addressee as its two participants, and the
-- addressee's connection has got it.
abbrev pub Passed : SignalMessage → Server → Server → Type 0
Passed m s t =
    (c : Calls.Call) × (r : Role) × (lookup m.call_id s.calls.calls ≡ some c)
    × Plays r c m.from m.to
    × Reached m.to m s t

-- The proof of the message is good, is by the key that the client came in with, and is fresh.
abbrev pub Proved : Crypto → Env → ℕ → SignalMessage → Server → Type 0
Proved crypto env h m s =
    (p : IdentityProof) × (key : Text) × Verified crypto m env.now p key (s.clients h).fingerprint
    × ((accept (s.clients h).fingerprint p.nonce p.expires_at env.now s.replays).1 ≡ true)

module _ (crypto : Crypto) (env : Env) (pick : Client → Bool) (h : ℕ) where
  relayed-Reached :
      (m : SignalMessage) (r : Calls.Manager × Calls.Result Calls.Call) (s t : Server)
      → relayed crypto env pick h m r s ≡ (t, done)
      → (d : Calls.Call) × (r.1 ≡ Calls.ok d) × Reached m.to m s t
  relayed-Reached m (n, Calls.ok call) s t k =
      (call, refl, deliver_to-Reached pick m.to m (with_calls crypto env pick h n s) t k)
  relayed-Reached m (n, Calls.err e) s t k = absurd (ground arith)

  relay-Passed :
      (m : SignalMessage) (s t : Server)
      → Calls.Invariant.Inv s.calls
      → m.from ≡ (s.clients h).username
      → relay crypto env pick h m s ≡ (t, done)
      → Passed m s t
  unfolding relay
  relay-Passed m s t v own k =
      let moved = Calls.transition m.type m.call_id (s.clients h).username m.to env.now s.calls in
      let (d, good, reached) = relayed-Reached m moved s t k in
      passed moved.0 d reached (
        transition-Moved m.type m.call_id (s.clients h).username m.to env.now s.calls moved.0 d v
          (pair moved d good))
    where
      pair :
          (r : Calls.Manager × Calls.Result Calls.Call) (d : Calls.Call)
          → r.1 ≡ Calls.ok d
          → r ≡ (r.0, Calls.ok d)
      pair (n, x) d e = ground arith

      passed :
          (n : Calls.Manager) (d : Calls.Call)
          → Reached m.to m s t
          → Moved m.type m.call_id (s.clients h).username m.to s.calls n d
          → Passed m s t
      passed n d reached (c, r, held, plays, edge, same, kept) =
          (c, r, held, subst (λ u. Plays r c u m.to) (sym own) plays, reached)

  accept_proof-Proved :
      (m : SignalMessage) (s : Server) (r : Verification)
      → verify crypto m env.now ≡ r
      → (accept_proof crypto env pick h r s).1 ≡ true
      → Proved crypto env h m s
  accept_proof-Proved m s (refused e) q k = absurd (ground arith)
  accept_proof-Proved m s (verified p key fp) q k =
      let same : fp ≡ (s.clients h).fingerprint =
        ground (arith, text_eq_iff fp (s.clients h).fingerprint) in
      (
        p,
        key,
        (verify_iff crypto m env.now p key (s.clients h).fingerprint).0 (cc (q, same)),
        subst (λ f. (accept f p.nonce p.expires_at env.now s.replays).1 ≡ true) same
            (ground (arith, text_eq_iff fp (s.clients h).fingerprint)),
      )

  honest :
      (m : SignalMessage) (s t : Server)
      → dispatch crypto env pick h m s ≡ (t, done)
      → (m.from ≡ (s.clients h).username) × (route crypto env pick h m.type m s ≡ (t, done))
  unfolding dispatch
  honest m s t k =
      elim (Bool-cases (not (text_eq m.from (s.clients h).username) || server_only m.type)) [
        | inl spoofed ↦ absurd (ground arith)
        | inr clean ↦ (ground (arith, text_eq_iff m.from (s.clients h).username), ground arith)
      ]

  invite_proved-true :
      (m : SignalMessage) (r : Server × Bool) (t : Server)
      → invite_proved crypto env pick h m r ≡ (t, done)
      → r.1 ≡ true
  invite_proved-true m (s, true) t k = refl
  invite_proved-true m (s, false) t k = absurd (ground arith)

  accept_proved-true :
      (m : SignalMessage) (r : Server × Bool) (t : Server)
      → accept_proved crypto env pick h m r ≡ (t, done)
      → r.1 ≡ true
  accept_proved-true m (s, true) t k = refl
  accept_proved-true m (s, false) t k = absurd (ground arith)

  accept-Passed :
      (m : SignalMessage) (s t : Server) (r : Verification)
      → Calls.Invariant.Inv s.calls
      → m.from ≡ (s.clients h).username
      → accept_proved crypto env pick h m (accept_proof crypto env pick h r s) ≡ (t, done)
      → Passed m s t
  accept-Passed m s t (refused e) v own k = absurd (ground arith)
  accept-Passed m s t (verified p key fp) v own k =
      at_check (text_eq fp (s.clients h).fingerprint)
        (accept fp p.nonce p.expires_at env.now s.replays).1 k
    where
      at_check :
          (b fresh : Bool)
          → accept_proved crypto env pick h m (
              if◌then◌else◌ {A = Server × Bool} b
                (record s { replays = (accept fp p.nonce p.expires_at env.now s.replays).0 }, fresh)
                (s, false))
            ≡ (t, done)
          → Passed m s t
      at_check true true q =
          relay-Passed m
            (record s { replays = (accept fp p.nonce p.expires_at env.now s.replays).0 }) t v own q
      at_check true false q = absurd (ground arith)
      at_check false fresh q = absurd (ground arith)

  route-Passed :
      (type : SignalType) (m : SignalMessage) (s t : Server)
      → Calls.Invariant.Inv s.calls
      → m.from ≡ (s.clients h).username
      → is_relayed type ≡ true
      → route crypto env pick h type m s ≡ (t, done)
      → Passed m s t
  unfolding route verify_bound_proof
  route-Passed call_accept m s t v own r k = accept-Passed m s t (verify crypto m env.now) v own k
  route-Passed call_decline m s t v own r k = relay-Passed m s t v own k
  route-Passed call_cancel m s t v own r k = relay-Passed m s t v own k
  route-Passed call_end m s t v own r k = relay-Passed m s t v own k
  route-Passed webrtc_offer m s t v own r k = relay-Passed m s t v own k
  route-Passed webrtc_answer m s t v own r k = relay-Passed m s t v own k
  route-Passed webrtc_ice m s t v own r k = relay-Passed m s t v own k
  route-Passed webrtc_ice_complete m s t v own r k = relay-Passed m s t v own k
  route-Passed type m s t v own r k = absurd (ground arith)

  -- A message of a call that the server takes without an error (accept, decline, cancel, end, offer,
  -- answer, candidate or end of candidates) names a call whose two participants are its sender and
  -- its addressee, and it is put, as it is, at the end of the queue of the connection that the
  -- registry has for the addressee.
  pub dispatch-Passed :
      (m : SignalMessage) (s t : Server)
      → Calls.Invariant.Inv s.calls
      → is_relayed m.type ≡ true
      → dispatch crypto env pick h m s ≡ (t, done)
      → Passed m s t
  dispatch-Passed m s t v r k =
      let (own, routed) = honest m s t k in route-Passed m.type m s t v own r routed

  route-Proved :
      (type : SignalType) (m : SignalMessage) (s t : Server)
      → is_proved type ≡ true
      → route crypto env pick h type m s ≡ (t, done)
      → Proved crypto env h m s
  unfolding route verify_bound_proof
  route-Proved call_invite m s t r k =
      accept_proof-Proved m s (verify crypto m env.now) refl (invite_proved-true m _ t k)
  route-Proved call_accept m s t r k =
      accept_proof-Proved m s (verify crypto m env.now) refl (accept_proved-true m _ t k)
  route-Proved type m s t r k = absurd (ground arith)

  -- An invitation or an acceptance that the server takes without an error comes from the client
  -- itself and carries a verified proof of identity, by a key with the fingerprint that the client
  -- came in with, whose nonce the replay guard takes.
  pub dispatch-Proved :
      (m : SignalMessage) (s t : Server)
      → is_proved m.type ≡ true
      → dispatch crypto env pick h m s ≡ (t, done)
      → (m.from ≡ (s.clients h).username) × Proved crypto env h m s
  dispatch-Proved m s t r k =
      let (own, routed) = honest m s t k in (own, route-Proved m.type m s t r routed)

  -- A message whose sender is not the client, or of a type that only the server sends, is refused as
  -- unauthorized, and nothing changes.
  pub dispatch_spoofed :
      (m : SignalMessage) (s : Server)
      → (m.from ≢ (s.clients h).username) ⊎ (server_only m.type ≡ true)
      → dispatch crypto env pick h m s ≡ (s, failed unauthorized)
  unfolding dispatch
  dispatch_spoofed m s (inl foreign) = ground (arith, text_eq_iff m.from (s.clients h).username)
  dispatch_spoofed m s (inr reserved) = ground arith

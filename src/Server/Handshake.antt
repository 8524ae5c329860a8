-- ===== src/Server/Handshake.antt =====
-- The handshake keeps the server's invariant, whether it lets the connection in or not.
use go_cli_messenger.Common.{
  ℕ, ◌≡◌, refl, sym, subst, Bool, true, false, not, if◌then◌else◌, inl, inr, Option, none, some,
  Text, text_eq_iff, text_eq_refl, lookup, take, Option-cases, arith, lookup-insert, Dict,
}
use go_cli_messenger.Protocol.Signal.{SignalMessage}
use go_cli_messenger.Protocol.Message.{Json}
use go_cli_messenger.Protocol.Validate
use go_cli_messenger.Identity.Replay.{accept}
use go_cli_messenger.Identity.Replay.Single
use go_cli_messenger.Identity.Proof.{Crypto, Verification, refused, verified, verify}
use go_cli_messenger.Presence
use go_cli_messenger.Server.Client.{Env, Client}
use go_cli_messenger.Server.State.{Server, Outcome, done, failed, set_client}
use go_cli_messenger.Server.Session.{
  Session, joined, dropped, Texts, same_fingerprint, bind_suffix, endpoint, disconnect, enter,
  identify, prove, is_hello, greet, settle, hello,
}
use go_cli_messenger.Server.World.{Phase, waiting, serving, over}
use go_cli_messenger.Server.Invariant.{Inv, with_replays-Inv, deliver_client-Inv}
use go_cli_messenger.Server.Coming.{upd, Inv-phase, Absent, disconnect-Inv}
use go_cli_messenger.Server.Entering.{
  here, named-Inv, registered-Inv, register_free, register_taken,
}

module _ (env : Env) (pick : Client → Bool) (h : ℕ) (phase : ℕ → Phase) where
  -- A connection that is let in is served; one that is not is over, once it has been disconnected.
  abbrev Ready : Server × Session → Type 0
  Ready (s, joined) = Inv (upd h serving phase) s
  Ready (s, dropped) = Inv (upd h over phase) (disconnect env pick h s)

  drop-Ready : (s : Server) → Inv phase s → Ready (s, dropped)
  drop-Ready s v = disconnect-Inv env pick h phase s v

  greeted-Ready :
      (r : Server × Outcome)
      → Inv (upd h serving phase) r.0
      → Ready (elim r.1 [ done ↦ (r.0, joined) | failed e ↦ (r.0, dropped) ])
  greeted-Ready (s, done) v = v
  greeted-Ready (s, failed e) v =
      Inv-phase (upd h over (upd h serving phase)) (upd h over phase) _
        (disconnect-Inv env pick h (upd h serving phase) s v) (λ u x found served. ground arith)

  module _ (s : Server) (v : Inv phase s) (absent : Absent h s)
      (bound : lookup (take 12 (s.clients h).fingerprint) s.suffixes
        ≡ some (s.clients h).fingerprint) where
    enter-Ready :
        Ready (enter env pick h (Presence.register (endpoint h (s.clients h)) s.presence) s)
    enter-Ready = elim (Option-cases (lookup (s.clients h).username s.presence)) [
      | inr (f, taken) ↦
          subst (λ q. Ready (enter env pick h q s))
            (sym (register_taken (endpoint h (s.clients h)) s.presence f taken)) (drop-Ready s v)
      | inl free ↦
          subst (λ q. Ready (enter env pick h q s))
            (sym (register_free (endpoint h (s.clients h)) s.presence free))
            (greeted-Ready _ (
              deliver_client-Inv (upd h serving phase) _
                (registered-Inv h phase s v absent
                  (record (s.clients h) { registered = true; last_seen = env.now }) (v.queues_ok h)
                  (v.seen_ok h) refl bound free)
                pick h _))
    ]

  if-Ready :
      (b : Bool) (x y : Server × Session)
      → (b ≡ true → Ready x)
      → (b ≡ false → Ready y)
      → Ready (if b then x else y)
  if-Ready true x y f g = f refl
  if-Ready false x y f g = g refl

  bound_after :
      (fp : Text) (suffixes : Dict Text) (o : Option Text)
      → lookup (take 12 fp) suffixes ≡ o
      → same_fingerprint fp o ≡ true
      → lookup (take 12 fp) (bind_suffix fp o suffixes) ≡ some fp
  bound_after fp suffixes none e t =
      ground (arith, lookup-insert (take 12 fp) (take 12 fp) fp suffixes, text_eq_refl (take 12 fp))
  bound_after fp suffixes (some known) e t = ground (arith, text_eq_iff known fp)

  waiting-Absent : (s : Server) → Inv phase s → phase h ≡ waiting → Absent h s
  waiting-Absent s v w u e found q =
      let served = subst (λ j. phase j ≡ serving) q (v.online u e found).is_served in ground arith

  identify-Ready :
      (from fp : Text) (s : Server)
      → Inv phase s
      → phase h ≡ waiting
      → Ready (identify env pick h from fp s)
  identify-Ready from fp s v w =
      let c : Client = record (s.clients h) { username = from; fingerprint = fp } in
      let bound = bind_suffix fp (lookup (take 12 fp) s.suffixes) s.suffixes in
      let base : Server = record s { suffixes = bound } in
      let absent = waiting-Absent s v w in
      if-Ready (not (same_fingerprint fp (lookup (take 12 fp) s.suffixes))) _ _
        (λ collision. drop-Ready s v)
        (λ fits.
          subst
            (λ d. Ready (
              enter env pick h (Presence.register (endpoint h d) s.presence) (set_client h c base)))
            (here h c base)
            (enter-Ready (set_client h c base)
              (named-Inv h phase s v absent c fp (v.queues_ok h) (v.seen_ok h)) absent
              (subst (λ d. lookup (take 12 d.fingerprint) bound ≡ some d.fingerprint)
                (sym (here h c base))
                (bound_after fp s.suffixes (lookup (take 12 fp) s.suffixes) refl (ground arith)))))

  prove-Ready :
      (from : Text) (r : Verification) (s : Server)
      → Inv phase s
      → phase h ≡ waiting
      → Ready (prove env pick h from r s)
  prove-Ready from (refused e) s v w = drop-Ready s v
  prove-Ready from (verified p key fp) s v w =
      let guarded =
        with_replays-Inv phase s v _
          (Single.accept-Inv fp p.nonce p.expires_at env.now s.replays v.replays_ok) in
      if-Ready (accept fp p.nonce p.expires_at env.now s.replays).1 _ _
        (λ fresh. identify-Ready from fp _ guarded w) (λ known. drop-Ready _ guarded)

  module _ (crypto : Crypto) where
    greet-Ready :
        (r : Validate.Result SignalMessage) (s : Server)
        → Inv phase s
        → phase h ≡ waiting
        → Ready (greet crypto env pick h r s)
    greet-Ready (Validate.err e) s v w = drop-Ready s v
    greet-Ready (Validate.ok m) s v w =
        if-Ready (is_hello m.type) _ _
          (λ greets. prove-Ready m.from (verify crypto m env.now) s v w) (λ differs. drop-Ready s v)

  -- What the handshake comes to.
  abbrev pub Settled : Server × Session → Type 0
  Settled (s, joined) = Inv (upd h serving phase) s
  Settled (s, dropped) = Inv (upd h over phase) s

  settle-Settled : (r : Server × Session) → Ready r → Settled (settle env pick h r)
  settle-Settled (s, joined) v = v
  settle-Settled (s, dropped) v = v

  pub hello-Settled :
      (json : Json) (crypto : Crypto) (texts : Texts) (is_text : Bool) (bytes : Text) (s : Server)
      → Inv phase s
      → phase h ≡ waiting
      → Settled (hello json crypto texts env pick h is_text bytes s)
  unfolding hello
  hello-Settled json crypto texts is_text bytes s v w =
      settle-Settled _
        (if-Ready is_text _ _ (λ text. greet-Ready crypto _ s v w) (λ binary. drop-Ready s v))

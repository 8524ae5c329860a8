-- ===== src/Server/Coming.antt =====
-- Connections that come and go: the handshake and the disconnection keep the server's invariant.
use go_cli_messenger.Common.{
  ℕ, ◌≡◌, ◌≢◌, refl, subst, Bool, true, false, not, ◌==◌, ==_iff, if◌then◌else◌, some, List, [],
  ◌∷◌, Text, text_eq_iff, lookup, arith, lookup-delete,
}
use go_cli_messenger.Presence
use go_cli_messenger.Calls
use go_cli_messenger.Calls.Preservation
use go_cli_messenger.Server.Client.{Env, Client}
use go_cli_messenger.Server.State.{Server, close_client}
use go_cli_messenger.Server.Session.{end_call, end_calls, forget_calls, endpoint, disconnect}
use go_cli_messenger.Server.World.{Phase, serving, over}
use go_cli_messenger.Server.Invariant.{Inv, with_calls-Inv, close_client-Inv, deliver_to-Inv}

abbrev pub upd : ℕ → Phase → (ℕ → Phase) → ℕ → Phase
upd h p phase j = if j == h then p else phase j

if-Inv :
    (phase : ℕ → Phase) (b : Bool) (s t : Server)
    → (b ≡ true → Inv phase s)
    → (b ≡ false → Inv phase t)
    → Inv phase (if b then s else t)
if-Inv phase true s t f g = f refl
if-Inv phase false s t f g = g refl

-- Only the phases of the registered connections matter.
pub Inv-phase :
    (phase phase' : ℕ → Phase) (s : Server)
    → Inv phase s
    → ((u : Text) (e : Presence.Endpoint)
        → lookup u s.presence ≡ some e
        → phase e.handle ≡ serving
        → phase' e.handle ≡ serving)
    → Inv phase' s
Inv-phase phase phase' s v f = record {
  calls_ok = v.calls_ok;
  presence_ok = v.presence_ok;
  replays_ok = v.replays_ok;
  queues_ok = v.queues_ok;
  seen_ok = v.seen_ok;
  online = λ u e found.
      let o = v.online u e found in
      record {
        is_served = f u e found o.is_served;
        named = o.named;
        is_registered = o.is_registered;
        suffix_bound = o.suffix_bound;
      };
}

-- No registered user has the connection.
abbrev pub Absent : ℕ → Server → Type 0
Absent h s = (u : Text) (e : Presence.Endpoint) → lookup u s.presence ≡ some e → e.handle ≢ h

pub Inv-Absent :
    (phase : ℕ → Phase) (h : ℕ) (p : Phase) (s : Server)
    → Inv phase s
    → Absent h s
    → Inv (upd h p phase) s
Inv-Absent phase h p s v a =
    Inv-phase phase (upd h p phase) s v
      (λ u e found served. ground (arith, a u e found, ==_iff e.handle h))

module _ (env : Env) (pick : Client → Bool) (h : ℕ) (phase : ℕ → Phase) where
  end_call-Inv :
      (username call_id : Text) (r : Calls.Result Text) (s : Server)
      → Inv phase s
      → Inv phase (end_call env pick username call_id r s)
  end_call-Inv username call_id (Calls.ok other) s v = deliver_to-Inv phase pick other _ s v
  end_call-Inv username call_id (Calls.err e) s v = v

  end_calls-Inv :
      (username : Text) (cs : List Calls.Call) (s : Server)
      → Inv phase s
      → Inv phase (end_calls env pick username cs s)
  unfolding end_calls
  end_calls-Inv username [] s v = v
  end_calls-Inv username (c ∷ cs) s v =
      end_calls-Inv username cs _ (end_call-Inv username c.id (Calls.other c username) s v)

  forget_calls-Inv :
      (username : Text) (r : Calls.Manager × List Calls.Call) (s : Server)
      → Calls.Invariant.Inv r.0
      → Inv phase s
      → Inv phase (forget_calls env pick username r s)
  forget_calls-Inv username (n, cs) s k v =
      end_calls-Inv username cs _ (with_calls-Inv phase s v n k)

-- What is registered after the client's own entry has been taken out.
unregister-lookup :
    (u : Text) (x e : Presence.Endpoint) (r : Presence.Registry)
    → lookup u (Presence.unregister x r) ≡ some e
    → lookup u r ≡ some e
unfolding Presence.unregister
unregister-lookup u x e r found = ground (arith, lookup-delete x.username u r)

unregister-apart :
    (u : Text) (x e : Presence.Endpoint) (r : Presence.Registry)
    → x.username ≡ u
    → lookup u (Presence.unregister x r) ≡ some e
    → e.handle ≢ x.handle
unfolding Presence.unregister
unregister-apart u x e r own found q =
    ground (arith, lookup-delete x.username u r, text_eq_iff x.username u, ==_iff e.handle x.handle)

module _ (h : ℕ) (phase : ℕ → Phase) (s : Server) (v : Inv phase s) where
  unregister_own :
      (u : Text) (e : Presence.Endpoint)
      → lookup u (Presence.unregister (endpoint h (s.clients h)) s.presence) ≡ some e
      → e.handle ≢ h
  unregister_own u e found q =
      let x = endpoint h (s.clients h) in
      let before = unregister-lookup u x e s.presence found in
      unregister-apart u x e s.presence
        (subst (λ j. (s.clients j).username ≡ u) q (v.online u e before).named) found q

  gone-Inv : Inv phase (record (close_client h s) {
    presence = Presence.unregister (endpoint h (s.clients h)) s.presence;
  })
  gone-Inv =
      let c = close_client-Inv phase s v h in
      record {
        calls_ok = c.calls_ok;
        presence_ok = Presence.unregister-Inv _ s.presence v.presence_ok;
        replays_ok = c.replays_ok;
        queues_ok = c.queues_ok;
        seen_ok = c.seen_ok;
        online = λ u e found. c.online u e (unregister-lookup u _ e s.presence found);
      }

  unregistered-Absent : (s.clients h).registered ≡ false → Absent h s
  unregistered-Absent f u e found q =
      let o = subst (λ j. (s.clients j).registered ≡ true) q (v.online u e found).is_registered in
      ground arith

pub disconnect-Inv :
    (env : Env) (pick : Client → Bool) (h : ℕ) (phase : ℕ → Phase) (s : Server)
    → Inv phase s
    → Inv (upd h over phase) (disconnect env pick h s)
unfolding disconnect
disconnect-Inv env pick h phase s v =
    let c = s.clients h in
    if-Inv (upd h over phase) (not c.registered) _ _
      (λ never.
        Inv-Absent phase h over _ (close_client-Inv phase s v h)
          (unregistered-Absent h phase s v (ground arith)))
      (λ known.
        let left = Inv-Absent phase h over _ (gone-Inv h phase s v) (unregister_own h phase s v) in
        if-Inv (upd h over phase) s.stopped _ _ (λ stopped. left)
          (λ running.
            forget_calls-Inv env pick h (upd h over phase) c.username _ _
              (Calls.Preservation.disconnect-Inv c.username env.now s.calls v.calls_ok) left))

-- ===== src/Server/Reached.antt =====
-- Whom a delivery reaches.
use go_cli_messenger.Common.{
  ◌≡◌, refl, subst, Bool, ==_iff, Option, none, some, [], ◌∷◌, ◌++◌, Text, arith,
}
use go_cli_messenger.Protocol.Signal.{SignalMessage}
use go_cli_messenger.Presence
use go_cli_messenger.Server.Client.{Client, Delivery, sent, gone, slow, deliver}
use go_cli_messenger.Server.State.{
  Server, outcome, done, set_client, deliver_to, deliver_target, delivered,
}

deliver-sent :
    (pick : Client → Bool) (m : SignalMessage) (c : Client)
    → (deliver pick m c).1 ≡ sent
    → (deliver pick m c).0.send ≡ c.send ++ m ∷ []
unfolding deliver
deliver-sent pick m c e = ground arith

-- The message is the last in the queue of the user's connection.
abbrev pub Reached : Text → SignalMessage → Server → Server → Type 0
Reached username m s t =
    (e : Presence.Endpoint) × (Presence.get username s.presence ≡ some e)
    × ((t.clients e.handle).send ≡ (s.clients e.handle).send ++ m ∷ [])

pub deliver_to-Reached :
    (pick : Client → Bool) (username : Text) (m : SignalMessage) (s t : Server)
    → deliver_to pick username m s ≡ (t, done)
    → Reached username m s t
unfolding deliver_to
deliver_to-Reached pick username m s t h = at_target (Presence.get username s.presence) refl h
  where
    queued :
        (e : Presence.Endpoint) (d : Delivery)
        → (deliver pick m (s.clients e.handle)).1 ≡ d
        → delivered e.handle
            (set_client e.handle (deliver pick m (s.clients e.handle)).0 s, outcome d)
          ≡ (t, done)
        → (t.clients e.handle).send ≡ (s.clients e.handle).send ++ m ∷ []
    queued e sent q k =
        let same : set_client e.handle (deliver pick m (s.clients e.handle)).0 s ≡ t =
          ground arith in
        subst (λ u. (u.clients e.handle).send ≡ (s.clients e.handle).send ++ m ∷ []) same
          (ground (arith, ==_iff e.handle e.handle, deliver-sent pick m (s.clients e.handle) q))
    queued e gone q k = absurd (ground arith)
    queued e slow q k = absurd (ground arith)

    at_target :
        (o : Option Presence.Endpoint)
        → Presence.get username s.presence ≡ o
        → deliver_target pick o m s ≡ (t, done)
        → Reached username m s t
    at_target none q k = absurd (ground arith)
    at_target (some e) q k = (e, q, queued e (deliver pick m (s.clients e.handle)).1 refl k)

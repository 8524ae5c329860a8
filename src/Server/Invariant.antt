-- ===== src/Server/Invariant.antt =====
-- What holds of the server between two events, and that its primitive updates keep it.
use go_cli_messenger.Common.{
  ℕ, ◌≤◌, ◌≡◌, refl, sym, Bool, true, ◌==◌, ==_iff, Option, none, some, List, [], ◌∷◌, length,
  length-append, Text, take, lookup, arith, Bool-cases, inl, inr,
}
use go_cli_messenger.Protocol.Signal.{SignalMessage}
use go_cli_messenger.Calls
use go_cli_messenger.Calls.Invariant
use go_cli_messenger.Presence
use go_cli_messenger.Seen.Window
use go_cli_messenger.RateLimit.{KeyedLimiter}
use go_cli_messenger.Identity.Replay.{ReplayGuard}
use go_cli_messenger.Identity.Replay.Single
use go_cli_messenger.Server.Client.{Client, new_client, deliver, close, write_one}
use go_cli_messenger.Server.State.{
  Server, Config, new_server, Outcome, done, failed, set_client, deliver_client, close_client,
  deliver_to, deliver_target, delivered,
}
use go_cli_messenger.Server.World.{Phase, waiting, serving}

-- A user that the registry knows: the connection is served, under that name, and the suffix of its
-- key is bound to its key.
pub record Online (p : Phase) (u : Text) (c : Client) (bound : Option Text) : Type 0 where
  pub is_served : p ≡ serving
  pub named : c.username ≡ u
  pub is_registered : c.registered ≡ true
  pub suffix_bound : bound ≡ some c.fingerprint

pub record Inv (phase : ℕ → Phase) (s : Server) : Type 0 where
  pub calls_ok : Calls.Invariant.Inv s.calls
  pub presence_ok : Presence.Inv s.presence
  pub replays_ok : Single.Inv s.replays
  pub queues_ok : (j : ℕ) → length (s.clients j).send ≤ (s.clients j).queue_size
  pub seen_ok : (j : ℕ) → Window.Inv (s.clients j).seen
  pub online :
      (u : Text) (e : Presence.Endpoint)
      → lookup u s.presence ≡ some e
      → Online
          (phase e.handle)
          u
          (s.clients e.handle)
          (lookup (take 12 (s.clients e.handle).fingerprint) s.suffixes)

-- A change of a client that the invariant does not mind.
pub record Kept (c d : Client) : Type 0 where
  pub same_username : d.username ≡ c.username
  pub same_fingerprint : d.fingerprint ≡ c.fingerprint
  pub same_registered : d.registered ≡ c.registered
  pub bounded : length c.send ≤ c.queue_size → length d.send ≤ d.queue_size
  pub seen_kept : Window.Inv c.seen → Window.Inv d.seen

pub new_server-Inv : (config : Config) → Inv (λ h. waiting) (new_server config)
unfolding new_server new_client lookup
new_server-Inv config = record {
  calls_ok = Calls.Invariant.new-Inv _;
  presence_ok = record { keyed = tt; named = λ u e h. absurd (ground arith) };
  replays_ok = Single.empty_guard-Inv;
  queues_ok = λ j. omega arith;
  seen_ok = λ j. Window.empty-Inv _;
  online = λ u e h. absurd (ground arith);
}

pub deliver-Kept :
    (pick : Client → Bool) (m : SignalMessage) (c : Client) → Kept c (deliver pick m c).0
unfolding deliver
deliver-Kept pick m c = record {
  same_username = ground arith;
  same_fingerprint = ground arith;
  same_registered = ground arith;
  bounded = λ h. ground (arith, length-append c.send (m ∷ []));
  seen_kept = λ v. ground arith;
}

pub close-Kept : (c : Client) → Kept c (close c)
unfolding close
close-Kept c = record {
  same_username = refl;
  same_fingerprint = refl;
  same_registered = refl;
  bounded = λ h. h;
  seen_kept = λ v. v;
}

pub write_one-Kept : (stop written : Bool) (c : Client) → Kept c (write_one stop written c).0
unfolding write_one
write_one-Kept stop written c = turn c.send refl
  where
    turn : (q : List SignalMessage) → c.send ≡ q → Kept c (write_one stop written c).0
    turn [] e = rw e (record {
      same_username = refl;
      same_fingerprint = refl;
      same_registered = refl;
      bounded = λ h. h;
      seen_kept = λ v. v;
    })
    turn (m ∷ q) e = rw e (record {
      same_username = ground arith;
      same_fingerprint = ground arith;
      same_registered = ground arith;
      bounded = λ h. ground arith;
      seen_kept = λ v. ground arith;
    })

pub Kept-trans : (a b c : Client) → Kept a b → Kept b c → Kept a c
Kept-trans a b c p q = record {
  same_username = cc (p.same_username, q.same_username);
  same_fingerprint = cc (p.same_fingerprint, q.same_fingerprint);
  same_registered = cc (p.same_registered, q.same_registered);
  bounded = λ h. q.bounded (p.bounded h);
  seen_kept = λ v. q.seen_kept (p.seen_kept v);
}

module _ (phase : ℕ → Phase) (s : Server) (v : Inv phase s) where
  pub with_calls-Inv :
      (n : Calls.Manager) → Calls.Invariant.Inv n → Inv phase (record s { calls = n })
  with_calls-Inv n k = record {
    calls_ok = k;
    presence_ok = v.presence_ok;
    replays_ok = v.replays_ok;
    queues_ok = v.queues_ok;
    seen_ok = v.seen_ok;
    online = v.online;
  }

  pub with_replays-Inv : (g : ReplayGuard) → Single.Inv g → Inv phase (record s { replays = g })
  with_replays-Inv g k = record {
    calls_ok = v.calls_ok;
    presence_ok = v.presence_ok;
    replays_ok = k;
    queues_ok = v.queues_ok;
    seen_ok = v.seen_ok;
    online = v.online;
  }

  pub with_user_invites-Inv : (l : KeyedLimiter) → Inv phase (record s { user_invites = l })
  with_user_invites-Inv l = record {
    calls_ok = v.calls_ok;
    presence_ok = v.presence_ok;
    replays_ok = v.replays_ok;
    queues_ok = v.queues_ok;
    seen_ok = v.seen_ok;
    online = v.online;
  }

  module _ (h : ℕ) (c : Client) (k : Kept (s.clients h) c) where
    at :
        (P : Client → Type 0) (j : ℕ)
        → P (s.clients j)
        → (h ≡ j → P c)
        → P ((set_client h c s).clients j)
    at P j old new = elim (Bool-cases (j == h)) [
      | inl same ↦ rw same (new (sym ((==_iff j h).0 same)))
      | inr apart ↦ rw apart old
    ]

    pub set_client-Inv : Inv phase (set_client h c s)
    set_client-Inv = record {
      calls_ok = v.calls_ok;
      presence_ok = v.presence_ok;
      replays_ok = v.replays_ok;
      queues_ok = λ j.
          at (λ d. length d.send ≤ d.queue_size) j (v.queues_ok j) (λ e. k.bounded (v.queues_ok h));
      seen_ok = λ j. at (λ d. Window.Inv d.seen) j (v.seen_ok j) (λ e. k.seen_kept (v.seen_ok h));
      online = λ u e found.
          at (λ d. Online (phase e.handle) u d (lookup (take 12 d.fingerprint) s.suffixes)) e.handle
            (v.online u e found) (λ q. moved u e found q);
    }
      where
        moved :
            (u : Text) (e : Presence.Endpoint)
            → lookup u s.presence ≡ some e
            → h ≡ e.handle
            → Online (phase e.handle) u c (lookup (take 12 c.fingerprint) s.suffixes)
        moved u e found q =
            let o = v.online u e found in
            record {
              is_served = o.is_served;
              named = cc (k.same_username, o.named, q);
              is_registered = cc (k.same_registered, o.is_registered, q);
              suffix_bound = cc (k.same_fingerprint, o.suffix_bound, q);
            }

  pub deliver_client-Inv :
      (pick : Client → Bool) (h : ℕ) (m : SignalMessage) → Inv phase (deliver_client pick h m s).0
  deliver_client-Inv pick h m =
      set_client-Inv h (deliver pick m (s.clients h)).0 (deliver-Kept pick m (s.clients h))

  pub close_client-Inv : (h : ℕ) → Inv phase (close_client h s)
  close_client-Inv h = set_client-Inv h (close (s.clients h)) (close-Kept (s.clients h))

pub deliver_to-Inv :
    (phase : ℕ → Phase) (pick : Client → Bool) (username : Text) (m : SignalMessage) (s : Server)
    → Inv phase s
    → Inv phase (deliver_to pick username m s).0
unfolding deliver_to
deliver_to-Inv phase pick username m s v = at_target (Presence.get username s.presence)
  where
    end_of : (h : ℕ) (r : Server × Outcome) → Inv phase r.0 → Inv phase (delivered h r).0
    end_of h (t, done) k = k
    end_of h (t, failed e) k = close_client-Inv phase t k h

    at_target : (o : Option Presence.Endpoint) → Inv phase (deliver_target pick o m s).0
    at_target none = v
    at_target (some e) =
        end_of e.handle (deliver_client pick e.handle m s)
          (deliver_client-Inv phase s v pick e.handle m)

-- ===== src/Server/Entering.antt =====
-- A connection that gets its name and enters the registry: both updates keep the server's invariant.
use go_cli_messenger.Common.{
  ℕ, ◌≡◌, ◌≢◌, refl, subst, true, ◌==◌, ==_iff, inl, inr, Option, none, some, Text, text_eq,
  text_eq_iff, lookup, insert, take, Bool-cases, arith, lookup-insert, Dict, length, ◌≤◌,
}
use go_cli_messenger.Presence
use go_cli_messenger.Seen.Window
use go_cli_messenger.Server.Client.{Client}
use go_cli_messenger.Server.State.{Server, set_client}
use go_cli_messenger.Server.Session.{bind_suffix, endpoint}
use go_cli_messenger.Server.World.{Phase, serving}
use go_cli_messenger.Server.Invariant.{Inv, Online}
use go_cli_messenger.Server.Coming.{upd, Absent}

module _ (h : ℕ) (c : Client) (s : Server) where
  pub here : (set_client h c s).clients h ≡ c
  here = ground (arith, ==_iff h h)

  elsewhere : (j : ℕ) → j ≢ h → (set_client h c s).clients j ≡ s.clients j
  elsewhere j apart = ground (arith, ==_iff j h)

  -- A client with the same queue and the same filter.
  everywhere :
      (P : Client → Type 0) (j : ℕ) → P (s.clients j) → P c → P ((set_client h c s).clients j)
  everywhere P j old new = elim (Bool-cases (j == h)) [
    | inl same ↦ rw same new
    | inr apart ↦ rw apart old
  ]

pub register_free :
    (e : Presence.Endpoint) (r : Presence.Registry)
    → lookup e.username r ≡ none
    → Presence.register e r ≡ (insert e.username e r, Presence.done)
unfolding Presence.register
register_free e r free = ground arith

pub register_taken :
    (e : Presence.Endpoint) (r : Presence.Registry) (f : Presence.Endpoint)
    → lookup e.username r ≡ some f
    → Presence.register e r ≡ (r, Presence.username_in_use)
unfolding Presence.register
register_taken e r f taken = ground arith

module _ (h : ℕ) (phase : ℕ → Phase) (s : Server) (v : Inv phase s) (absent : Absent h s) where
  -- The client gets its name, and its suffix is bound.
  pub named-Inv :
      (c : Client) (fp : Text)
      → length c.send ≤ c.queue_size
      → Window.Inv c.seen
      → Inv phase (
          set_client h c
            (record s { suffixes = bind_suffix fp (lookup (take 12 fp) s.suffixes) s.suffixes }))
  named-Inv c fp room filter = record {
    calls_ok = v.calls_ok;
    presence_ok = v.presence_ok;
    replays_ok = v.replays_ok;
    queues_ok = λ j. everywhere h c s (λ d. length d.send ≤ d.queue_size) j (v.queues_ok j) room;
    seen_ok = λ j. everywhere h c s (λ d. Window.Inv d.seen) j (v.seen_ok j) filter;
    online = λ u e found. rw (elsewhere h c s e.handle (absent u e found)) (still u e found);
  }
    where
      bind : Dict Text
      bind = bind_suffix fp (lookup (take 12 fp) s.suffixes) s.suffixes

      kept :
          (k f : Text) (o : Option Text)
          → lookup (take 12 fp) s.suffixes ≡ o
          → lookup k s.suffixes ≡ some f
          → lookup k (bind_suffix fp o s.suffixes) ≡ some f
      kept k f none e b =
          ground (arith, lookup-insert (take 12 fp) k fp s.suffixes, text_eq_iff (take 12 fp) k)
      kept k f (some g) e b = b

      still :
          (u : Text) (e : Presence.Endpoint)
          → lookup u s.presence ≡ some e
          → Online (phase e.handle) u (s.clients e.handle) (
              lookup
                (take 12 (s.clients e.handle).fingerprint)
                (bind_suffix fp (lookup (take 12 fp) s.suffixes) s.suffixes))
      still u e found =
          let o = v.online u e found in
          record {
            is_served = o.is_served;
            named = o.named;
            is_registered = o.is_registered;
            suffix_bound = kept _ _ (lookup (take 12 fp) s.suffixes) refl o.suffix_bound;
          }

  abbrev pub with_entry : Client → Server
  with_entry c = record s { presence = insert c.username (endpoint h c) s.presence }

  abbrev pub register_client : Client → Server
  register_client c = set_client h c (with_entry c)

  abbrev Entered : Client → Text → Presence.Endpoint → Type 0
  Entered c u e =
      let d = (register_client c).clients e.handle in
      Online (upd h serving phase e.handle) u d (lookup (take 12 d.fingerprint) s.suffixes)

  -- The client enters the registry under its name.
  pub registered-Inv :
      (c : Client)
      → length c.send ≤ c.queue_size
      → Window.Inv c.seen
      → c.registered ≡ true
      → lookup (take 12 c.fingerprint) s.suffixes ≡ some c.fingerprint
      → lookup c.username s.presence ≡ none
      → Inv (upd h serving phase) (register_client c)
  registered-Inv c room filter known bound free = record {
    calls_ok = v.calls_ok;
    presence_ok = insert-Inv;
    replays_ok = v.replays_ok;
    queues_ok = λ j. everywhere h c s (λ d. length d.send ≤ d.queue_size) j (v.queues_ok j) room;
    seen_ok = λ j. everywhere h c s (λ d. Window.Inv d.seen) j (v.seen_ok j) filter;
    online = λ u e found. entered u e found;
  }
    where
      insert-Inv : Presence.Inv (insert c.username (endpoint h c) s.presence)
      insert-Inv =
          subst (λ q. Presence.Inv q.0) (register_free (endpoint h c) s.presence free)
            (Presence.register-Inv (endpoint h c) s.presence v.presence_ok)

      own : (u : Text) (e : Presence.Endpoint) → c.username ≡ u → e ≡ endpoint h c → Entered c u e
      own u e name at_h =
          rw (at_h, here h c (with_entry c))
            (record {
              is_served = ground (arith, ==_iff h h);
              named = name;
              is_registered = known;
              suffix_bound = bound;
            })

      others : (u : Text) (e : Presence.Endpoint) → lookup u s.presence ≡ some e → Entered c u e
      others u e found =
          let o = v.online u e found in
          rw (elsewhere h c (with_entry c) e.handle (absent u e found)) (record {
            is_served = ground (arith, ==_iff e.handle h, absent u e found, o.is_served);
            named = o.named;
            is_registered = o.is_registered;
            suffix_bound = o.suffix_bound;
          })

      entered :
          (u : Text) (e : Presence.Endpoint)
          → lookup u (insert c.username (endpoint h c) s.presence) ≡ some e
          → Entered c u e
      entered u e found = elim (Bool-cases (text_eq c.username u)) [
        | inl same ↦
            own u e ((text_eq_iff c.username u).0 same)
              (ground (arith, lookup-insert c.username u (endpoint h c) s.presence))
        | inr apart ↦
            others u e (ground (arith, lookup-insert c.username u (endpoint h c) s.presence))
      ]

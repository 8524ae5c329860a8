-- ===== src/Turn/Issued.antt =====
-- What the client makes of the credentials.
use go_cli_messenger.Common.{
  ℕ, ◌+◌, ◌<◌, ◌≡◌, ◌==◌, refl, ◌∙◌, if_intro, Bool, true, false, ◌||◌, not, ltb, List, [], ◌∷◌,
  ◌++◌, length, all_of, any_of, Text, codes, is_empty, arith, has_prefix,
}
use go_cli_messenger.Common.Decimal.{decimal}
use go_cli_messenger.Protocol.Signal.{valid_stun_url, valid_turn_url}
use go_cli_messenger.App.Signals.{
  IceServer, given, ok, stun_servers, turn_urls, turn_servers, add_server, has_turn,
  prepare_ice_servers, check_relay,
}
use go_cli_messenger.Turn.{Config, Issuer, created, new, unix, stun_part, issue}

-- What `New` makes sure of.
pub record Good (i : Issuer) : Type 0 where
  pub has_urls : length i.urls == 0 ≡ false
  pub turns : all_of valid_turn_url i.urls ≡ true
  pub stuns : all_of valid_stun_url i.stun_urls ≡ true

new-Good : (c : Config) (i : Issuer) → new c ≡ created i → Good i
unfolding new
new-Good c i h = record { has_urls = ground arith; turns = ground arith; stuns = ground arith }

valid_stun_url-valid_turn_url : (v : Text) → valid_stun_url v ≡ true → valid_turn_url v ≡ false
unfolding valid_stun_url valid_turn_url has_prefix
valid_stun_url-valid_turn_url [] h = ground arith
valid_stun_url-valid_turn_url (c ∷ v) h = ground arith

turn_urls-turns : (us : List Text) → all_of valid_turn_url us ≡ true → turn_urls us ≡ us
unfolding turn_urls
turn_urls-turns [] h = refl
turn_urls-turns (u ∷ us) h = ground (arith, turn_urls-turns us)

turn_urls-stuns : (us : List Text) → all_of valid_stun_url us ≡ true → turn_urls us ≡ []
unfolding turn_urls
turn_urls-stuns [] h = refl
turn_urls-stuns (u ∷ us) h = ground (arith, turn_urls-stuns us, valid_stun_url-valid_turn_url u)

any_turn :
    (us : List Text)
    → length us == 0 ≡ false
    → all_of valid_turn_url us ≡ true
    → any_of valid_turn_url us ≡ true
any_turn [] e h = ground arith
any_turn (u ∷ us) e h = ground arith

any_of-last :
    (ss : List IceServer) (s : IceServer)
    → has_turn s ≡ true
    → any_of has_turn (ss ++ s ∷ []) ≡ true
any_of-last [] s h = rw h refl
any_of-last (t ∷ ss) s h = ground (arith, any_of-last ss s h)

is_empty-append : (s t : Text) (c : ℕ) → is_empty (s ++ c ∷ [] ++ t) ≡ false
is_empty-append [] t c = refl
is_empty-append (d ∷ s) t c = refl

-- The relay of an issuer, for the user.
abbrev pub relay_of : (Text → Text → Text) → Issuer → Text → ℕ → IceServer
relay_of mac i username now =
    let name = decimal (unix (now + i.ttl)) ++ codes ":" ++ username in
    record { urls = i.urls; username = name; credential = mac i.secret name }

turn_servers-relay :
    (s : IceServer)
    → length s.urls == 0 ≡ false
    → all_of valid_turn_url s.urls ≡ true
    → is_empty s.username ≡ false
    → is_empty s.credential ≡ false
    → turn_servers (s ∷ []) ≡ ok (s ∷ [])
unfolding turn_servers
turn_servers-relay s full turns user credential = by_urls s.urls full (turn_urls-turns s.urls turns)
  where
    by_urls :
        (us : List Text)
        → length us == 0 ≡ false
        → turn_urls us ≡ us
        → add_server (turn_urls us) s (ok []) ≡ ok (record s { urls = us } ∷ [])
    by_urls [] f h = ground arith
    by_urls (u ∷ us) f h = rw h (ground arith)

turn_servers-stun_part :
    (us : List Text) (servers : List IceServer)
    → all_of valid_stun_url us ≡ true
    → turn_servers (stun_part us ++ servers) ≡ turn_servers servers
unfolding turn_servers
turn_servers-stun_part [] servers h = refl
turn_servers-stun_part (u ∷ us) servers h = rw (turn_urls-stuns (u ∷ us) h) refl

-- The credentials that an issuer gives serve a client, also in relay-only mode, until they expire: it
-- takes its own STUN servers and the one relay of the issuer, with all its addresses.
pub prepare_ice_servers-issue :
    (mac : Text → Text → Text) (c : Config) (i : Issuer) (username : Text) (now later : ℕ)
    (relay_only : Bool) (stun_urls : List Text)
    → ((secret s : Text) → is_empty (mac secret s) ≡ false)
    → new c ≡ created i
    → later < (issue mac i username now).expires_at
    → prepare_ice_servers relay_only true later
        (given (issue mac i username now).expires_at (issue mac i username now).ice_servers)
        stun_urls
      ≡ ok (stun_servers stun_urls ++ relay_of mac i username now ∷ [])
unfolding prepare_ice_servers issue
prepare_ice_servers-issue mac c i username now later relay_only stun_urls mac_full made early =
    let good = new-Good c i made in
    let r = relay_of mac i username now in
    let turns : turn_servers (stun_part i.stun_urls ++ r ∷ []) ≡ ok (r ∷ []) =
      turn_servers-stun_part i.stun_urls (r ∷ []) good.stuns
      ∙ turn_servers-relay r good.has_urls good.turns
          (is_empty-append (decimal (unix (now + i.ttl))) username b':')
          (mac_full i.secret r.username) in
    let relays : any_of has_turn (stun_servers stun_urls ++ r ∷ []) ≡ true =
      any_of-last (stun_servers stun_urls) r (any_turn i.urls good.has_urls good.turns) in
    if_intro (λ x. check_relay relay_only x ≡ ok (stun_servers stun_urls ++ r ∷ []))
      (not (ltb later (now + i.ttl))) _ _ (λ t. ground (arith, early))
      (λ t. rw turns (
        if_intro (λ x. x ≡ ok (stun_servers stun_urls ++ r ∷ []))
          (not relay_only || any_of has_turn (stun_servers stun_urls ++ r ∷ [])) _ _ (λ _. refl)
          (λ f. ground (arith, relays))))

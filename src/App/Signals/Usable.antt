-- ===== src/App/Signals/Usable.antt =====
-- The servers that a call uses.
use mathlib.Core.List.{append-nil}
use go_cli_messenger.Common.{
  ℕ, ◌≡◌, ◌<◌, ◌↔◌, refl, sym, subst, Bool, true, false, ◌||◌, ◌&&◌, not, if◌then◌else◌, if_intro,
  List, [], ◌∷◌, ◌++◌, all_of, any_of, map, Text, arith, ltb, is_empty,
}
use go_cli_messenger.Protocol.Signal.{valid_turn_url}
use go_cli_messenger.App.Signals.{
  IceServer, Credentials, not_found, request_failed, given, Prepared, ok, err, incomplete,
  stun_servers, turn_urls, turn_servers, has_turn, prepare_ice_servers, add_server, check_relay,
  joined, obtained,
}

unfoldable pub keep {ℓ} : {A : Type ℓ} → (A → Bool) → List A → List A
keep p [] = []
keep p (x ∷ xs) = if p x then x ∷ keep p xs else keep p xs

abbrev pub with_valid_urls : IceServer → IceServer
with_valid_urls s = record s { urls = keep valid_turn_url s.urls }

abbrev pub is_full : List Text → Bool
is_full [] = false
is_full (u ∷ us) = true

abbrev pub has_urls : IceServer → Bool
has_urls s = is_full s.urls

abbrev pub has_login : IceServer → Bool
has_login s = not (is_empty s.username) && not (is_empty s.credential)

-- The servers with their valid addresses, if they have any.
abbrev pub relays_of : List IceServer → List IceServer
relays_of servers = keep has_urls (map with_valid_urls servers)

-- The relays that a call may use: none without an access key, or from a server that has none to give;
-- or those of credentials that have not expired, all of which have a name and a password.
pub data Source (has_key : Bool) (now : ℕ) (credentials : Credentials)
    : List IceServer → Type 0 where
  no_key : has_key ≡ false → Source has_key now credentials []
  not_offered : has_key ≡ true → credentials ≡ not_found → Source has_key now credentials []
  fresh :
      (expires_at : ℕ) (servers : List IceServer)
      → has_key ≡ true
      → credentials ≡ given expires_at servers
      → now < expires_at
      → all_of has_login (relays_of servers) ≡ true
      → Source has_key now credentials (relays_of servers)

-- The servers are those for STUN and these relays, and in relay-only mode there is a relay.
pub record Prepares (relay_only has_key : Bool) (now : ℕ) (credentials : Credentials)
    (stun : List IceServer) (servers : List IceServer) : Type 0 where
  pub relays : List IceServer
  pub source : Source has_key now credentials relays
  pub all_servers : servers ≡ stun ++ relays
  pub enough : not relay_only || any_of has_turn servers ≡ true

turn_urls-keep : (us : List Text) → turn_urls us ≡ keep valid_turn_url us
unfolding turn_urls keep
turn_urls-keep [] = refl
turn_urls-keep (u ∷ us) = rw (turn_urls-keep us) refl

abbrev if_complete : List IceServer → Prepared
if_complete relays = if all_of has_login relays then ok relays else err incomplete

add_server-if_complete :
    (urls : List Text) (s : IceServer) (rest : List IceServer)
    → add_server urls s (if_complete rest)
      ≡ if_complete (if is_full urls then record s { urls = urls } ∷ rest else rest)
add_server-if_complete [] s rest = refl
add_server-if_complete (u ∷ us) s rest = by_tests (all_of has_login rest) s.username s.credential
  where
    by_tests :
        (b : Bool) (name word : Text)
        → add_server
            (u ∷ us)
            (record { urls = s.urls; username = name; credential = word })
            (if b then ok rest else err incomplete)
          ≡ (if not (is_empty name) && not (is_empty word) && b
              then ok (record { urls = u ∷ us; username = name; credential = word } ∷ rest)
              else err incomplete)
    by_tests true [] word = refl
    by_tests true (a ∷ name) [] = refl
    by_tests true (a ∷ name) (c ∷ word) = refl
    by_tests false [] word = refl
    by_tests false (a ∷ name) [] = refl
    by_tests false (a ∷ name) (c ∷ word) = refl

turn_servers-relays :
    (servers : List IceServer) → turn_servers servers ≡ if_complete (relays_of servers)
unfolding turn_servers keep
turn_servers-relays [] = refl
turn_servers-relays (s ∷ servers) =
    rw (turn_urls-keep s.urls, turn_servers-relays servers)
      (add_server-if_complete (keep valid_turn_url s.urls) s (relays_of servers))

module _ (relay_only has_key : Bool) (now : ℕ) (credentials : Credentials)
    (stun : List IceServer) where
  abbrev Gives : List IceServer → Prepared → Type 0
  Gives servers x =
      check_relay relay_only x ≡ ok servers
      → Prepares relay_only has_key now credentials stun servers

  prepares :
      (relays servers : List IceServer)
      → Source has_key now credentials relays
      → Gives servers (ok (stun ++ relays))
  prepares relays servers source =
      if_intro (λ x. x ≡ ok servers → Prepares relay_only has_key now credentials stun servers)
        (not relay_only || any_of has_turn (stun ++ relays)) _ _
        (λ enough h.
          let same : stun ++ relays ≡ servers = ground arith in
          record {
            relays = relays;
            source = source;
            all_servers = sym same;
            enough = rw (← same) enough;
          })
        (λ _ h. ground arith)

  alone : (servers : List IceServer) → Source has_key now credentials [] → Gives servers (ok stun)
  alone servers source =
      subst (λ l. Gives servers (ok l)) (append-nil stun) (prepares [] servers source)

  of_credentials :
      (servers : List IceServer) (c : Credentials)
      → has_key ≡ true
      → credentials ≡ c
      → Gives servers (obtained now c stun)
  of_credentials servers not_found k e = alone servers (not_offered k e)
  of_credentials servers request_failed k e = λ h. ground arith
  of_credentials servers (given expires_at all) k e =
      if_intro (Gives servers) (not (ltb now expires_at)) _ _ (λ _ h. ground arith)
        (λ early. rw (turn_servers-relays all) (
          if_intro (λ x. Gives servers (joined stun x)) (all_of has_login (relays_of all)) _ _
            (λ complete.
              prepares (relays_of all) servers (fresh expires_at all k e (ground arith) complete))
            (λ _ h. ground arith)))

  checked :
      (relays servers : List IceServer)
      → servers ≡ stun ++ relays
      → not relay_only || any_of has_turn servers ≡ true
      → check_relay relay_only (ok (stun ++ relays)) ≡ ok servers
  checked relays servers e enough = rw (← e) (ground (arith, enough))

  obtains :
      (relays : List IceServer)
      → Source has_key now credentials relays
      → (if has_key then obtained now credentials stun else ok stun) ≡ ok (stun ++ relays)
  obtains relays (no_key k) = rw (k, append-nil stun) refl
  obtains relays (not_offered k e) = rw (k, e, append-nil stun) refl
  obtains relays (fresh expires_at all k e early complete) =
      rw (k, e, turn_servers-relays all, complete) (ground (arith, early))

-- The servers of a call can be prepared, and are these, exactly if they are those for STUN, as they are
-- configured, with these relays behind them: none without an access key or from a service that offers
-- none, or else the servers of credentials that have not expired, with their valid relay addresses,
-- as far as they have any, all of them with a name and a password; and in relay-only mode there is
-- an address of a relay.
pub prepare_ice_servers_iff :
    (relay_only has_key : Bool) (now : ℕ) (credentials : Credentials) (stun_urls : List Text)
    (servers : List IceServer)
    → (prepare_ice_servers relay_only has_key now credentials stun_urls ≡ ok servers)
      ↔ Prepares relay_only has_key now credentials (stun_servers stun_urls) servers
unfolding prepare_ice_servers
prepare_ice_servers_iff relay_only has_key now credentials stun_urls servers =
    (by_key has_key refl, back)
  where
    stun : List IceServer
    stun = stun_servers stun_urls

    by_key :
        (k : Bool)
        → has_key ≡ k
        → Gives relay_only has_key now credentials stun servers
            (if k then obtained now credentials stun else ok stun)
    by_key true e =
        of_credentials relay_only has_key now credentials stun servers credentials e refl
    by_key false e = alone relay_only has_key now credentials stun servers (no_key e)

    back :
        Prepares relay_only has_key now credentials stun servers
        → check_relay relay_only (if has_key then obtained now credentials stun else ok stun)
          ≡ ok servers
    back p =
        rw (obtains relay_only has_key now credentials stun p.relays p.source)
          (checked relay_only has_key now credentials stun p.relays servers p.all_servers p.enough)

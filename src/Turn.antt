-- ===== src/Turn.antt =====
-- internal/server/turn/issuer.go: the credentials for the TURN servers. HMAC-SHA1 with base64 after it is
-- a parameter.
pub mod Issued
use go_cli_messenger.Common.{
  ℕ, ℤ, pos, ◌+◌, ◌==◌, Bool, true, false, ◌||◌, not, ltb, if◌then◌else◌, List, [], ◌∷◌, ◌++◌,
  length, all_of, Text, codes, positive_or,
}
use Prim.Native.Nat.{◌*◌, ◌-◌, ◌/◌}
use go_cli_messenger.Common.Decimal.{decimal}
use go_cli_messenger.Protocol.Signal.{valid_stun_url, valid_turn_url}
use go_cli_messenger.App.Signals.{IceServer}

-- Times and durations are in nanoseconds, times from the year 1.
pub record Config : Type 0 where
  pub secret : Text
  pub urls : List Text
  pub stun_urls : List Text
  pub ttl : ℤ

pub record Issuer : Type 0 where
  pub secret : Text
  pub urls : List Text
  pub stun_urls : List Text
  pub ttl : ℕ

pub data Problem : Type 0 where
  short_secret no_urls too_many_urls bad_turn_url bad_stun_url bad_lifetime : Problem

pub data Created : Type 0 where
  created : Issuer → Created
  failed : Problem → Created

abbrev one_minute : ℕ
one_minute = 60000000000

-- The last check, of the lifetime.
abbrev with_ttl : Config → ℕ → Created
with_ttl c ttl =
    if ltb ttl one_minute || ltb (60 * one_minute) ttl
    then failed bad_lifetime
    else created (record { secret = c.secret; urls = c.urls; stun_urls = c.stun_urls; ttl = ttl })

-- `New`
unfoldable pub new : Config → Created
new c =
    if ltb (length c.secret) 32
    then failed short_secret
    else if length c.urls == 0
    then failed no_urls
    else if ltb 8 (length c.urls) || ltb 8 (length c.stun_urls)
    then failed too_many_urls
    else if not (all_of valid_turn_url c.urls)
    then failed bad_turn_url
    else if not (all_of valid_stun_url c.stun_urls)
    then failed bad_stun_url
    else with_ttl c (positive_or c.ttl (10 * one_minute))

-- protocol.TURNCredentials
pub record TurnCredentials : Type 0 where
  pub expires_at : ℕ
  pub ice_servers : List IceServer

-- `Unix()`, of a time after 1970
abbrev pub unix : ℕ → ℕ
unix t = t / 1000000000 - 62135596800

abbrev pub stun_part : List Text → List IceServer
stun_part [] = []
stun_part urls = record { urls = urls; username = []; credential = [] } ∷ []

-- `Issue`, with `mac` for the credential that the secret and a user name give.
unfoldable pub issue : (Text → Text → Text) → Issuer → Text → ℕ → TurnCredentials
issue mac i username now =
    let expires_at = now + i.ttl in
    let turn_username = decimal (unix expires_at) ++ codes ":" ++ username in
    record {
      expires_at = expires_at;
      ice_servers =
          stun_part i.stun_urls
          ++ record {
            urls = i.urls;
            username = turn_username;
            credential = mac i.secret turn_username;
          }
            ∷ [];
    }

-- ===== src/Client.antt =====
-- internal/client/signaling/client.go: the client of the server. URLs are parsed, proofs written and
-- frames moved by parameters; what only times a step out or wakes another one is left out.
pub mod Ready
pub mod Reading
use go_cli_messenger.Common.{
  ℕ, ℤ, pos, Bool, true, false, ◌&&◌, ◌||◌, not, ◌==◌, if◌then◌else◌, Option, none, some, is_some,
  List, [], ◌∷◌, ◌++◌, length, Text, codes, text_eq, is_empty, positive_or,
}
use go_cli_messenger.Protocol.Signal.{
  SignalType, SignalMessage, session_hello, session_ready, session_ping, session_pong, call_invite,
  call_accept,
}
use go_cli_messenger.Protocol.Message.{Json, IdentityProof}
use go_cli_messenger.Protocol.Names.{valid_address}
use go_cli_messenger.Protocol.Validate.{Validator, Result, ok, err, validate_signal, decode_signal}
use go_cli_messenger.Identity.Proof.{Crypto, Identity, address_matches_key, sign}

-- url.URL
pub record Url : Type 0 where
  pub scheme : Text
  pub host : Text
  pub hostname : Text

pub record Config : Type 0 where
  pub url : Text
  pub address : Text
  pub access_key : Text
  pub identity : Option Identity
  pub queue_size : ℤ

pub data Problem : Type 0 where
  bad_address no_identity no_url bad_url not_secret : Problem
  no_connection no_hello not_sent not_read unexpected_hello bad_configuration : Problem

abbrev pub is_local : Text → Bool
is_local name =
    text_eq name (codes "localhost")
    || text_eq name (codes "127.0.0.1")
    || text_eq name (codes "::1")

abbrev pub is_websocket : Url → Bool
is_websocket u =
    (text_eq u.scheme (codes "ws") || text_eq u.scheme (codes "wss")) && not (is_empty u.host)

-- The access key goes to a server on this machine, or through TLS.
abbrev pub keeps_secret : Text → Url → Bool
keeps_secret access_key u =
    is_empty access_key || not (text_eq u.scheme (codes "ws")) || is_local u.hostname

abbrev pub check_url : Text → Option Url → Option Problem
check_url access_key none = some bad_url
check_url access_key (some u) =
    if not (is_websocket u)
    then some bad_url
    else if not (keeps_secret access_key u)
    then some not_secret
    else none

abbrev pub owns : Crypto → Text → Option Identity → Bool
owns crypto address none = false
owns crypto address (some i) = address_matches_key crypto address i.public_key

-- The checks of `Connect` before it dials.
unfoldable pub check_config : Crypto → (Text → Option Url) → Config → Option Problem
check_config crypto parse_url c =
    if not (valid_address c.address)
    then some bad_address
    else if not (owns crypto c.address c.identity)
    then some no_identity
    else if is_empty c.url
    then some no_url
    else check_url c.access_key (parse_url c.url)

-- The time and what is drawn for a message, and `json.Marshal` of a proof.
pub record Env : Type 0 where
  pub now : ℕ
  pub id : Text
  pub nonce : Text
  pub write_proof : IdentityProof → Text

abbrev pub signs_itself : SignalType → Bool
signs_itself session_hello = true
signs_itself call_invite = true
signs_itself call_accept = true
signs_itself type = false

abbrev pub message_of : Env → SignalType → Text → Text → Text → Text → SignalMessage
message_of env type from to call_id payload = record {
  version = pos 2;
  id = env.id;
  type = type;
  timestamp = env.now;
  call_id = call_id;
  from = from;
  to = to;
  payload = payload;
}

-- What a read of the connection gives: an error, or a frame, of text or not.
pub data Read : Type 0 where
  read_failed : Read
  frame : Bool → Text → Read

pub data Hello : Type 0 where
  welcome : List Text → Hello
  refused : Problem → Hello

pub record Client : Type 0 where
  pub address : Text
  pub stun_urls : List Text
  pub queue_size : ℕ

pub data Connected : Type 0 where
  connected : Client → Connected
  failed : Problem → Connected

module _ (json : Json) (v : Validator) where
  abbrev pub is_valid : SignalMessage → Bool
  is_valid m = elim (validate_signal json v m) [ ok u ↦ true | err e ↦ false ]

  abbrev pub validated : SignalMessage → Option SignalMessage
  validated m = if is_valid m then some m else none

  -- `NewMessage` with a payload that JSON can encode, or with none; `none` is an error.
  unfoldable pub new_message :
      Crypto → Identity → Env → SignalType → Text → Text → Text → Option Text → Option SignalMessage
  new_message crypto i env type from to call_id (some payload) =
      validated (message_of env type from to call_id payload)
  new_message crypto i env type from to call_id none =
      if not (signs_itself type)
      then validated (message_of env type from to call_id [])
      else elim (sign crypto i type call_id from to env.now env.nonce) [
        | none ↦ none
        | some p ↦ validated (message_of env type from to call_id (env.write_proof p))
      ]

  abbrev pub is_ready : SignalType → Bool
  is_ready session_ready = true
  is_ready type = false

  abbrev configured : Option (List Text) → Hello
  configured none = refused bad_configuration
  configured (some urls) = welcome urls

  abbrev pub on_ready : Text → Bool → Result SignalMessage → Hello
  on_ready address is_text (err e) = refused unexpected_hello
  on_ready address is_text (ok m) =
      if not is_text || not (is_ready m.type) || not (text_eq m.to address)
      then refused unexpected_hello
      else if length m.payload == 0
      then welcome []
      else configured (json.session_ready m.payload)

  -- The answer to the hello.
  unfoldable pub greeted : Text → Read → Hello
  greeted address read_failed = refused not_read
  greeted address (frame is_text bytes) = on_ready address is_text (decode_signal json bytes v)

  abbrev pub with_hello : Config → Hello → Connected
  with_hello c (refused e) = failed e
  with_hello c (welcome urls) =
      connected
        (record { address = c.address; stun_urls = urls; queue_size = positive_or c.queue_size 64 })

  abbrev pub dial : Config → Bool → Option SignalMessage → Bool → Read → Connected
  dial c dialled hello written answer =
      if not dialled
      then failed no_connection
      else if not (is_some hello)
      then failed no_hello
      else if not written
      then failed not_sent
      else with_hello c (greeted c.address answer)

  abbrev pub hello_of : Crypto → Env → Config → Option SignalMessage
  hello_of crypto env c = elim c.identity [
    | none ↦ none
    | some i ↦ new_message crypto i env session_hello c.address [] [] none
  ]

  -- `Connect`: whether the connection is made and the hello written, and what is read then.
  unfoldable pub connect :
      Crypto → (Text → Option Url) → Env → Config → Bool → Bool → Read → Connected
  unfolding check_config new_message greeted
  connect crypto parse_url env c dialled written answer = elim (check_config crypto parse_url c) [
    | some e ↦ failed e
    | none ↦ dial c dialled (hello_of crypto env c) written answer
  ]

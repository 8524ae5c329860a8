-- ===== src/Examples/Connecting.antt =====
-- A client that connects, its messages, and the servers that it is given.
use go_cli_messenger.Common.{
  zero, suc, pos, ◌≡◌, refl, true, false, Option, none, some, List, [], ◌∷◌, ◌++◌, Text, codes,
  text_eq, take, drop, arith,
}
use go_cli_messenger.Protocol.Signal.{
  SignalMessage, session_hello, session_ready, session_ping, is_known, is_sdp, requires_call_id,
  valid_turn_url, valid_stun_url,
}
use go_cli_messenger.Protocol.Message.{Json, IdentityProof, required_payload, decode_json}
use go_cli_messenger.Protocol.Validate.{Validator, validate_signal, decode_signal, decoded}
use go_cli_messenger.Protocol.Names.{valid_address, valid_uuid}
use go_cli_messenger.Protocol.Regex.{matches}
use go_cli_messenger.Identity.Proof.{
  Crypto, Identity, verified, verify, fingerprint, sign, address_matches_key,
}
use go_cli_messenger.App.Signals.{given, ok, stun_servers, prepare_ice_servers}
use go_cli_messenger.Turn
use go_cli_messenger.Turn.{Issuer, issue}
use go_cli_messenger.Turn.Issued.{relay_of, prepare_ice_servers-issue}
use go_cli_messenger.Client
use go_cli_messenger.Client.{Env, Read, frame, new_message, Connected, connected, connect}
use go_cli_messenger.Client.Ready.{Checked, Welcomed, verify-new_message, connect-Welcomed}
use go_cli_messenger.Client.Reading.{
  Heard, Round, all_heard, read_one, new_reader, read_loop, read_loop-Heard,
}
use go_cli_messenger.Daemon.Reconnect.{
  Delays, Attempt, failed, lasted, reconnects, expected, are_within, reconnects-expected,
}
use go_cli_messenger.Examples.Serving
use go_cli_messenger.Examples.Answering.{marked, unmarked, unmarked-marked}

abbrev turn : Turn.Config
turn = record {
  secret = Serving.forty;
  urls = codes "turn:relay.example.org:3478" ∷ [];
  stun_urls = codes "stun:example.org:3478" ∷ [];
  ttl = pos 600000000000;
}

abbrev issuer : Issuer
issuer = record {
  secret = Serving.forty;
  urls = turn.urls;
  stun_urls = turn.stun_urls;
  ttl = 600000000000;
}

created : Turn.new turn ≡ Turn.created issuer
unfolding Turn.new valid_turn_url valid_stun_url
created = refl

abbrev mac : Text → Text → Text
mac secret s = codes "mac"

prepare_ice_servers-issue_example :
    prepare_ice_servers true true Serving.new_year
      (given
        (issue mac issuer Serving.ann Serving.new_year).expires_at
        (issue mac issuer Serving.ann Serving.new_year).ice_servers)
      []
    ≡ ok (stun_servers [] ++ relay_of mac issuer Serving.ann Serving.new_year ∷ [])
prepare_ice_servers-issue_example =
    prepare_ice_servers-issue mac turn issuer Serving.ann Serving.new_year Serving.new_year true []
      (λ secret s. refl) created (unfold issue in omega arith)

abbrev delays : Delays
delays = record { reconnect_min = 1; reconnect_max = 5; stable_connection = 60 }

abbrev attempts : List Attempt
attempts = failed ∷ failed ∷ lasted 3 ∷ failed ∷ lasted 70 ∷ failed ∷ []

reconnects-expected_example :
    (reconnects delays attempts ≡ expected delays 0 attempts)
    × (are_within delays (reconnects delays attempts) ≡ true)
reconnects-expected_example = reconnects-expected delays attempts (omega arith)

abbrev validator : Validator
validator = record { now = Serving.new_year; maximum_age = 0; maximum_future = 0 }

abbrev server : Text
server = codes "server"

-- A server that says that the session is ready, or pings.
abbrev read_signal : Text → Option (SignalMessage × Text)
read_signal (zero ∷ rest) =
    some (record (Serving.message session_ready server Serving.ann []) { payload = [] }, rest)
read_signal (suc n ∷ rest) = some (Serving.message session_ping server Serving.ann [], rest)
read_signal [] = none

-- A proof as its four parts, in place of JSON.
abbrev write_proof : IdentityProof → Text
write_proof p = marked p.public_key (marked p.nonce (marked p.signature (p.expires_at ∷ [])))

abbrev with_expiry : Text → Text → Option (Text × Text) → Option IdentityProof
with_expiry key nonce (some (signature, t ∷ [])) =
    some (record { public_key = key; expires_at = t; nonce = nonce; signature = signature })
with_expiry key nonce o = none

abbrev with_signature : Text → Option (Text × Text) → Option IdentityProof
with_signature key none = none
with_signature key (some (nonce, rest)) = with_expiry key nonce (unmarked rest)

abbrev with_key : Option (Text × Text) → Option IdentityProof
with_key none = none
with_key (some (key, rest)) = with_signature key (unmarked rest)

abbrev read_proof : Text → Option IdentityProof
read_proof s = with_key (unmarked s)

read_proof-write_proof : (p : IdentityProof) → read_proof (write_proof p) ≡ some p
read_proof-write_proof p =
    rw
      (
        unmarked-marked p.public_key (marked p.nonce (marked p.signature (p.expires_at ∷ []))),
        unmarked-marked p.nonce (marked p.signature (p.expires_at ∷ [])),
        unmarked-marked p.signature (p.expires_at ∷ []),
      )
      refl

abbrev crypto : Crypto
crypto = record Serving.crypto {
  decode_proof = read_proof;
  encode_base64 = λ s. take 16 Serving.forty ++ s;
  decode_base64 = λ s. some (drop 16 s);
  ed25519_sign = λ k s. take 32 Serving.forty ++ take 32 Serving.forty;
}

abbrev json : Json
json = record Serving.json { signal = read_signal; proof = read_proof }

abbrev identity : Identity
identity = record {
  public_key = take 32 Serving.forty;
  private_key = take 32 Serving.forty ++ take 32 Serving.forty;
}

abbrev env : Env
env = record {
  now = Serving.new_year;
  id = Serving.uuid;
  nonce = Serving.uuid;
  write_proof = write_proof;
}

abbrev hello : Option SignalMessage
hello = new_message json validator crypto identity env session_hello Serving.ann [] [] none

abbrev config : Client.Config
config = record {
  url = codes "wss://example.org/v1/ws";
  address = Serving.ann;
  access_key = codes "abc";
  identity = some identity;
  queue_size = pos 0;
}

abbrev parse_url : Text → Option Client.Url
parse_url s =
    some
      (record { scheme = codes "wss"; host = codes "example.org"; hostname = codes "example.org" })

abbrev answer : Read
answer = frame true (zero ∷ [])

abbrev client : Client.Client
client = record { address = Serving.ann; stun_urls = []; queue_size = 64 }

welcomed : connect json validator crypto parse_url env config true true answer ≡ connected client
unfolding connect valid_address matches address_matches_key fingerprint text_eq sign validate_signal
    valid_uuid is_known requires_call_id required_payload marked unmarked decode_signal decode_json
    is_sdp
welcomed = refl

connect-Welcomed_example :
    Checked crypto parse_url config × Welcomed json validator Serving.ann answer
connect-Welcomed_example =
    connect-Welcomed json validator crypto parse_url env config true true answer client welcomed

-- A message, a ping that is answered, one that is not, and a message that comes too late.
abbrev rounds : List Round
rounds =
    ((env, true), answer)
    ∷ ((env, true), frame true (1 ∷ []))
    ∷ ((env, false), frame true (1 ∷ []))
    ∷ ((env, true), answer)
    ∷ []

read_loop-Heard_example :
    Heard json validator Serving.ann rounds new_reader
      (read_loop json validator Serving.ann rounds new_reader)
read_loop-Heard_example = read_loop-Heard json validator Serving.ann rounds new_reader refl

heard_before :
    all_heard json validator Serving.ann rounds
    ≡ record (Serving.message session_ready server Serving.ann []) { payload = [] }
      ∷ record (Serving.message session_ready server Serving.ann []) { payload = [] }
      ∷ []
unfolding all_heard decode_signal decode_json decoded validate_signal valid_uuid valid_address
    matches is_sdp is_known requires_call_id required_payload text_eq
heard_before = refl

heard_in_time :
    (read_loop json validator Serving.ann rounds new_reader).events
    ≡ record (Serving.message session_ready server Serving.ann []) { payload = [] } ∷ []
unfolding read_loop read_one decode_signal decode_json decoded validate_signal valid_uuid
    valid_address matches is_sdp is_known requires_call_id required_payload text_eq
heard_in_time = refl

abbrev first_of : Option SignalMessage → SignalMessage
first_of (some m) = m
first_of none = Serving.message session_hello Serving.ann [] []

made : hello ≡ some (first_of hello)
unfolding new_message valid_address matches address_matches_key fingerprint text_eq sign
    validate_signal valid_uuid is_known requires_call_id required_payload marked unmarked
made = refl

owned : address_matches_key crypto Serving.ann identity.public_key ≡ true
unfolding address_matches_key valid_address matches fingerprint text_eq
owned = refl

verify-new_message_example :
    (p : IdentityProof) × (verify crypto (first_of hello) Serving.new_year
      ≡ verified p identity.public_key (fingerprint crypto identity.public_key))
verify-new_message_example =
    verify-new_message json validator crypto identity env session_hello Serving.ann [] []
      (first_of hello) Serving.new_year (λ s. refl) (λ key s. refl) (λ s. refl)
      read_proof-write_proof owned refl made (omega arith) (omega arith)

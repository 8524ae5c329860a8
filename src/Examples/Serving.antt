-- ===== src/Examples/Serving.antt =====
-- A server with a toy key, and two users on it.
use go_cli_messenger.Common.{
  ℕ, ◌≡◌, ◌↔◌, ◌==◌, refl, Bool, true, false, Option, none, some, List, [], ◌∷◌, ◌++◌, length, take,
  leb, if◌then◌else◌, Text, codes, text_eq, lookup, insert, delete, retain, keys, pos,
}
use go_cli_messenger.Protocol.Signal.{
  SignalType, SignalMessage, session_hello, call_invite, call_decline, is_known, is_sdp,
  requires_call_id,
}
use go_cli_messenger.Protocol.Message.{Json, IdentityProof, decode_json, required_payload}
use go_cli_messenger.Protocol.Regex.{matches}
use go_cli_messenger.Protocol.Names.{valid_uuid, valid_address}
use go_cli_messenger.Protocol.Validate.{decode_signal, decoded, validate_signal}
use go_cli_messenger.Identity.Proof.{
  Crypto, verified, fingerprint, verify, decode_public_key, address_matches_key,
}
use go_cli_messenger.Identity.Proof.Verified.{Verified, verify_iff}
use go_cli_messenger.Identity.Proof.Joined.{SameCall, proof_bytes_injective}
use go_cli_messenger.Identity.Replay.{accept, empty_guard, replay_key}
use go_cli_messenger.Calls
use go_cli_messenger.Calls.Preservation
use go_cli_messenger.Calls.Invariant
use go_cli_messenger.Presence
use go_cli_messenger.RateLimit.{new_limiter, new_keyed, allow, allow_key}
use go_cli_messenger.Server.Client.{Env, Client, new_client, deliver, close}
use go_cli_messenger.Server.State.{
  Server, Config, new_server, Outcome, done, set_client, deliver_to, server_only,
}
use go_cli_messenger.Server.Dispatch.{dispatch, route}
use go_cli_messenger.Server.Session.{Texts, hello, disconnect, end_calls, sweep, time_out}
use go_cli_messenger.Server.World.{World, Event, greets, leaves, sweeps, run, step, new_world}
use go_cli_messenger.Server.Running.{WorldInv, run-new_world-Inv}
use go_cli_messenger.Server.Lasting.{suffix_lasts}
use go_cli_messenger.Server.Relay.{Passed, Proved, dispatch-Passed, dispatch-Proved}

abbrev pub ann : Text
ann = codes "ann-abcdefghijkl"

abbrev pub bob : Text
bob = codes "bob-abcdefghijkl"

abbrev pub uuid : Text
uuid = codes "01234567-89ab-4cde-8f01-23456789abcd"

abbrev pub forty : Text
forty = codes "0123456789012345678901234567890123456789"

abbrev pub new_year : ℕ
new_year = 63871286400000000000

abbrev proof : IdentityProof
proof = record {
  public_key = forty;
  expires_at = 63871286460000000000;
  nonce = uuid;
  signature = forty ++ forty;
}

-- Every payload is the proof, every key has one fingerprint, and every signature is good.
abbrev pub crypto : Crypto
crypto = record {
  decode_proof = λ s. some proof;
  encode_base64 = λ s. s;
  decode_base64 = λ s. some (if leb (length s) 64 then take 32 s else take 64 s);
  encode_base32 = λ s. codes "ABCDEFGHIJKLMNOP";
  sha256 = λ s. s;
  ed25519_sign = λ k s. forty ++ forty;
  ed25519_verify = λ k s signature. true;
  format_time = λ t. codes "2025";
}

abbrev pub message : SignalType → Text → Text → Text → SignalMessage
message type from to call_id = record {
  version = pos 2;
  id = uuid;
  type = type;
  timestamp = new_year;
  call_id = call_id;
  from = from;
  to = to;
  payload = codes "p";
}

abbrev read_hello : Text → Option (SignalMessage × Text)
read_hello (c ∷ rest) = some (message session_hello ann [] [], rest)
read_hello [] = none

abbrev pub json : Json
json = record {
  session_ready = λ s. none;
  sdp = λ s. none;
  candidate = λ s. none;
  proof = λ s. some proof;
  hello = λ s. none;
  chat = λ s. none;
  audio = λ s. none;
  signal = read_hello;
  control = λ s. none;
}

abbrev env : Env
env = record {
  now = new_year;
  new_id = λ type to call_id. uuid;
  ready_payload = λ urls. [];
  presence_payload = λ online. [];
  error_payload = λ code text. code;
}

abbrev never : Client → Bool
never c = false

abbrev texts : Texts
texts = record { failure = λ e. []; invalid = λ e. [] }

abbrev config : Config
config = record {
  queue_size = pos 4;
  idle_timeout = pos 100;
  ring_timeout = pos 10;
  negotiation_timeout = pos 20;
  cleanup_after = pos 30;
  invite_limit = pos 5;
  invite_window = pos 60;
  stun_urls = [];
}

abbrev events : List ((Env × (Client → Bool)) × Event)
events = ((env, never), greets 1 true (codes "h")) ∷ ((env, never), sweeps) ∷ []

run-new_world-Inv_example : WorldInv (run json crypto texts (new_world config) events)
run-new_world-Inv_example = run-new_world-Inv json crypto texts config events

verify_iff_example :
    (verify crypto (message call_invite ann bob uuid) new_year
      ≡ verified proof (take 32 forty) (codes "abcdefghijklmnop"))
    ↔ Verified crypto
        (message call_invite ann bob uuid)
        new_year
        proof
        (take 32 forty)
        (codes "abcdefghijklmnop")
verify_iff_example =
    verify_iff crypto (message call_invite ann bob uuid) new_year proof (take 32 forty)
      (codes "abcdefghijklmnop")

proof_bytes_injective_example :
    SameCall crypto call_invite call_invite uuid uuid ann ann bob bob proof proof
proof_bytes_injective_example =
    proof_bytes_injective crypto (λ t. refl) call_invite call_invite uuid uuid ann ann bob bob proof
      proof (unfold is_known in refl) (unfold is_known in refl)
      (record {
        clean_call = refl;
        clean_from = refl;
        clean_to = refl;
        clean_key = refl;
        clean_nonce = refl;
      })
      (record {
        clean_call = refl;
        clean_from = refl;
        clean_to = refl;
        clean_key = refl;
        clean_nonce = refl;
      })
      refl

abbrev ann_line : Presence.Endpoint
ann_line = record { handle = 1; username = ann }

abbrev bob_line : Presence.Endpoint
bob_line = record { handle = 2; username = bob }

abbrev client : Text → Client
client username = record (new_client 4 5 60) {
  username = username;
  fingerprint = codes "abcdefghijklmnop";
  registered = true;
}

-- Ann and Bob are connected; Ann is calling Bob.
abbrev calling : Calls.Manager
calling = (Calls.invite uuid ann bob new_year (new_server config).calls).0

abbrev idle : Server
idle = record (set_client 2 (client bob) (set_client 1 (client ann) (new_server config))) {
  presence = (ann, ann_line) ∷ (bob, bob_line) ∷ [];
}

abbrev ringing : Server
ringing = record idle { calls = calling }

calling-Inv : Calls.Invariant.Inv ringing.calls
calling-Inv =
    Calls.Preservation.invite-Inv uuid ann bob new_year _
      (unfold new_server in Calls.Invariant.new-Inv _)

abbrev declining : Server × Outcome
declining = dispatch crypto env never 2 (message call_decline bob ann uuid) ringing

declined : declining ≡ (declining.0, done)
unfolding dispatch route Calls.invite Calls.transition Calls.apply Calls.other new_server new_client
    server_only deliver deliver_to Presence.get lookup insert delete text_eq Calls.new
declined = refl

dispatch-Passed_example : Passed (message call_decline bob ann uuid) ringing declining.0
dispatch-Passed_example =
    dispatch-Passed crypto env never 2 (message call_decline bob ann uuid) ringing declining.0
      calling-Inv refl declined

abbrev inviting : Server × Outcome
inviting = dispatch crypto env never 1 (message call_invite ann bob uuid) idle

invited : inviting ≡ (inviting.0, done)
unfolding dispatch route Calls.invite new_server new_client server_only deliver Presence.get lookup
    insert retain text_eq Calls.new verify fingerprint decode_public_key address_matches_key
    valid_address accept empty_guard allow allow_key new_limiter new_keyed matches
invited = refl

dispatch-Proved_example :
    (ann ≡ (idle.clients 1).username) × Proved crypto env 1 (message call_invite ann bob uuid) idle
dispatch-Proved_example =
    dispatch-Proved crypto env never 1 (message call_invite ann bob uuid) idle inviting.0 refl
      invited

-- Every payload of one byte is a proof: the byte "q" stands for a second one.
abbrev two_proofs : Crypto
two_proofs = record crypto {
  decode_proof = λ s. some (
      if text_eq s (codes "q")
      then record proof { nonce = codes "89abcdef-89ab-4cde-8f01-23456789abcd" }
      else proof);
}

abbrev read_two : Text → Option (SignalMessage × Text)
read_two [] = none
read_two (c ∷ rest) = some (
  if c == 104
      then message session_hello ann [] []
      else record (message session_hello bob [] []) { payload = codes "q" },
  rest,
)

abbrev two_hellos : Json
two_hellos = record json { signal = read_two }

-- Ann comes.
abbrev morning : List ((Env × (Client → Bool)) × Event)
morning = ((env, never), greets 1 true (codes "h")) ∷ []

-- She leaves, and Bob comes on another connection, with the same key.
abbrev afternoon : List ((Env × (Client → Bool)) × Event)
afternoon =
    ((env, never), leaves 1)
    ∷ ((env, never), greets 2 true (codes "b"))
    ∷ ((env, never), sweeps)
    ∷ []

abbrev noon : World
noon = run two_hellos two_proofs texts (new_world config) morning

abbrev evening : World
evening = run two_hellos two_proofs texts noon afternoon

ann_registered : lookup ann noon.server.presence ≡ some ann_line
unfolding run step new_world new_server hello decode_signal decoded validate_signal decode_json
    required_payload valid_uuid valid_address is_sdp is_known requires_call_id verify fingerprint
    decode_public_key address_matches_key accept empty_guard deliver Presence.register lookup insert
    retain text_eq Calls.new new_client
ann_registered = refl

bob_registered :
    (lookup ann evening.server.presence ≡ none)
    × (lookup bob evening.server.presence ≡ some bob_line)
unfolding run step new_world new_server hello decode_signal decoded validate_signal decode_json
    required_payload valid_uuid valid_address is_sdp is_known requires_call_id verify fingerprint
    decode_public_key address_matches_key accept empty_guard deliver Presence.register lookup insert
    retain delete text_eq Calls.new sweep time_out Calls.expire Calls.expire_each keys new_client
    disconnect end_calls Calls.disconnect Presence.unregister close replay_key
bob_registered = (refl, refl)

same_suffix :
    take 12 (noon.server.clients 1).fingerprint ≡ take 12 (evening.server.clients 2).fingerprint
unfolding run step new_world new_server hello decode_signal decoded validate_signal decode_json
    required_payload valid_uuid valid_address is_sdp is_known requires_call_id verify fingerprint
    decode_public_key address_matches_key accept empty_guard deliver Presence.register lookup insert
    retain delete text_eq Calls.new sweep time_out Calls.expire Calls.expire_each keys new_client
    disconnect end_calls Calls.disconnect Presence.unregister close replay_key
same_suffix = refl

suffix_lasts_example : (noon.server.clients 1).fingerprint ≡ (evening.server.clients 2).fingerprint
suffix_lasts_example =
    suffix_lasts two_hellos two_proofs texts config morning afternoon ann bob ann_line bob_line
      ann_registered bob_registered.1 same_suffix

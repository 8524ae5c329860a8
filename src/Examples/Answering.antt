-- ===== src/Examples/Answering.antt =====
-- An invitation that is answered, a call that is placed, and the signals and servers of a call.
use go_cli_messenger.Common.{
  pos, negsuc, ℕ, zero, suc, ◌≡◌, refl, text_eq, lookup, retain, insert, true, Option, none, some,
  List, [], ◌∷◌, Text, codes,
}
use go_cli_messenger.Protocol.Signal.{
  SignalMessage, valid_turn_url, call_invite, call_ringing, call_accept, presence_result,
}
use go_cli_messenger.Identity.Replay.{empty_guard, accept}
use go_cli_messenger.Identity.Proof.{verify, fingerprint, decode_public_key, address_matches_key}
use go_cli_messenger.Identity.Trust.{observe, sharing}
use go_cli_messenger.Protocol.Space.{trim_space}
use go_cli_messenger.Protocol.Regex.{matches}
use go_cli_messenger.Protocol.Names.{valid_address}
use go_cli_messenger.App.Inviting.{
  Env, Keys, Event, message, line, answer_invitation, says_yes, is_over, answer_event, answer_loop,
  verify_and_observe,
}
use go_cli_messenger.App.Inviting.Answered.{accepts, answers, Consent, answer_invitation_iff}
use go_cli_messenger.App.Placing.{next, Course, run_chat, locate, chat_loop, chat_event, on_answer}
use go_cli_messenger.App.Placing.Agreed.{begins}
use go_cli_messenger.App.Placing.Placed.{Placed, run_chat_iff}
use go_cli_messenger.App.Signals.{
  VideoConfig, told_capabilities, IceServer, given, ok, stun_servers, turn_servers, turn_urls,
  prepare_ice_servers,
}
use go_cli_messenger.App.Signals.Hello.{check_hello-told_capabilities}
use go_cli_messenger.App.Signals.Usable.{Prepares, prepare_ice_servers_iff}
use go_cli_messenger.Protocol.Validate as Validate
use go_cli_messenger.Protocol.Control.{check_hello}
use go_cli_messenger.Examples.Serving

abbrev env : Env
env = record {
  crypto = Serving.crypto;
  server_url = codes "wss://example.org";
  has_identity = true;
  opens = true;
  saves = true;
  now = Serving.new_year;
  later = Serving.new_year;
}

abbrev keys : Keys
keys = record { replays = empty_guard; records = [] }

abbrev invite : SignalMessage
invite = Serving.message call_invite Serving.bob Serving.ann Serving.uuid

abbrev typed : List Event
typed =
    message (Serving.message call_ringing Serving.bob Serving.ann Serving.uuid)
    ∷ line (codes " Yes ") true true
    ∷ []

accepted : answers env invite true (answer_invitation env invite typed keys).1 ≡ true
unfolding accepts answer_invitation verify fingerprint decode_public_key address_matches_key
    valid_address matches accept empty_guard text_eq lookup retain insert observe trim_space
    says_yes is_over answer_event answer_loop verify_and_observe sharing
accepted = refl

answer_invitation_iff_example : Consent env invite true typed keys
answer_invitation_iff_example = (answer_invitation_iff env invite true typed keys).0 accepted

abbrev course : Course
course = record {
  call_id = Serving.uuid;
  asks = true;
  signs = true;
  invites = true;
  answers = next (Serving.message presence_result Serving.bob Serving.ann []) ∷ [];
  events =
      message (Serving.message call_ringing Serving.bob Serving.ann Serving.uuid)
      ∷ line (codes "hello") true true
      ∷ message (Serving.message call_accept Serving.bob Serving.ann Serving.uuid)
      ∷ [];
}

placed : begins (run_chat env (λ s. some true) Serving.bob course keys) ≡ true
unfolding run_chat locate chat_loop chat_event on_answer verify fingerprint decode_public_key
    address_matches_key valid_address matches accept empty_guard text_eq lookup retain insert
    observe trim_space verify_and_observe sharing
placed = refl

run_chat_iff_example : Placed env (λ s. some true) Serving.bob course keys
run_chat_iff_example = (run_chat_iff env (λ s. some true) Serving.bob course keys).0 placed

-- A text with its end marked, in front of a rest.
unfoldable pub marked : Text → Text → Text
marked [] rest = zero ∷ rest
marked (c ∷ s) rest = 1 ∷ c ∷ marked s rest

abbrev after_one : ℕ → Option (Text × Text) → Option (Text × Text)
after_one c none = none
after_one c (some (s, rest)) = some (c ∷ s, rest)

unfoldable pub unmarked : Text → Option (Text × Text)
unmarked (suc n ∷ c ∷ s) = after_one c (unmarked s)
unmarked (zero ∷ rest) = some ([], rest)
unmarked s = none

pub unmarked-marked : (s rest : Text) → unmarked (marked s rest) ≡ some (s, rest)
unfolding marked unmarked
unmarked-marked [] rest = refl
unmarked-marked (c ∷ s) rest = rw (unmarked-marked s rest) refl

abbrev relay : IceServer
relay = record {
  urls = codes "turn:relay.example.org:3478?transport=udp" ∷ codes "http:x" ∷ [];
  username = codes "u";
  credential = codes "c";
}

abbrev stun_urls : List Text
stun_urls = codes "stun:example.org:3478" ∷ []

abbrev used : List IceServer
used =
    record { urls = stun_urls; username = []; credential = [] }
    ∷ record relay { urls = codes "turn:relay.example.org:3478?transport=udp" ∷ [] }
    ∷ []

prepared : prepare_ice_servers true true 5 (given 9 (relay ∷ [])) stun_urls ≡ ok used
unfolding prepare_ice_servers stun_servers turn_servers turn_urls valid_turn_url
prepared = refl

prepare_ice_servers_iff_example :
    Prepares true true 5 (given 9 (relay ∷ [])) (stun_servers stun_urls) used
prepare_ice_servers_iff_example =
    (prepare_ice_servers_iff true true 5 (given 9 (relay ∷ [])) stun_urls used).0 prepared

abbrev odd_config : VideoConfig
odd_config = record { video = true; audio = true; columns = negsuc 4; rows = pos 81; fps = pos 0 }

check_hello-told_capabilities_example :
    check_hello (some (told_capabilities true (some (100, 3)) odd_config)) ≡ Validate.ok tt
check_hello-told_capabilities_example =
    check_hello-told_capabilities true (some (100, 3)) odd_config

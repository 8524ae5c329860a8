-- ===== src/Examples/Wire.antt =====
-- Names and messages as they come over the network.
use go_cli_messenger.Common.{
  ◌≡◌, refl, ◌↔◌, true, false, some, none, [], ◌∷◌, Text, codes, pos, Option, ◌==◌, if◌then◌else◌,
  text_eq,
}
use go_cli_messenger.Protocol.Signal.{
  SignalMessage, presence_query, is_sdp, is_known, requires_call_id,
}
use go_cli_messenger.Protocol.Names.{valid_address, valid_uuid}
use go_cli_messenger.Protocol.Regex.{matches}
use go_cli_messenger.Protocol.Names.Address.{IsCanonical, valid_address_iff}
use go_cli_messenger.Protocol.Message.{Json, decode_json}
use go_cli_messenger.Protocol.Validate.{Validator, ok, validate_signal, decode_signal}
use go_cli_messenger.Protocol.Accepted.{Accepted, validate_signal_iff}

abbrev address : Text
address = codes "ann-abcdefghijkl"

address_taken : valid_address address ≡ true
unfolding valid_address matches
address_taken = refl

short_suffix_refused : valid_address (codes "ann_b-abcdefghijk") ≡ false
unfolding valid_address matches
short_suffix_refused = refl

valid_address_iff_example : (valid_address address ≡ true) ↔ IsCanonical address
valid_address_iff_example = valid_address_iff address

abbrev query : SignalMessage
query = record {
  version = pos 2;
  id = codes "01234567-89ab-4cde-8f01-23456789abcd";
  type = presence_query;
  timestamp = 63871286400000000000;
  call_id = [];
  from = address;
  to = codes "bob-abcdefghijkl";
  payload = [];
}

abbrev validator : Validator
validator = record { now = 63871286400000000000; maximum_age = 0; maximum_future = 0 }

-- A decoder that reads the byte `q` as the query and nothing else.
abbrev read_query : Text → Option (SignalMessage × Text)
read_query (c ∷ rest) = if c == b'q' then some (query, rest) else none
read_query [] = none

abbrev json : Json
json = record {
  session_ready = λ s. none;
  sdp = λ s. none;
  candidate = λ s. none;
  proof = λ s. none;
  hello = λ s. none;
  chat = λ s. none;
  audio = λ s. none;
  signal = read_query;
  control = λ s. none;
}

validate_signal_iff_example :
    (validate_signal json validator query ≡ ok tt) ↔ Accepted json validator query
validate_signal_iff_example = validate_signal_iff json validator query

query_decoded : decode_signal json (codes "q") validator ≡ ok query
unfolding decode_signal decode_json valid_uuid valid_address is_known requires_call_id is_sdp
    text_eq
query_decoded = refl

-- ===== src/Examples/Peering.antt =====
-- A peer and its channels.
use go_cli_messenger.Common.{
  ◌≡◌, refl, if◌then◌else◌, true, false, none, some, List, [], ◌∷◌, ◌++◌, Text, codes, Option,
  all_of, ◌==◌, pos, arith, text_eq,
}
use go_cli_messenger.Protocol.Message.{Json, ControlMessage, chat_message, decode_json, is_known}
use go_cli_messenger.Protocol.Names.{valid_uuid}
use go_cli_messenger.Protocol.Validate as Validate
use go_cli_messenger.Protocol.Control.{decode_control, valid_utf8}
use go_cli_messenger.Seen.{empty}
use go_cli_messenger.Seen.Window.{member, empty-Inv}
use go_cli_messenger.Peer.Negotiation.{
  callee, offer, answer, Signal, no_signal, WebRtc, new_peer, apply_signals, apply_signal,
  apply_description, start_offer, set_remote, set_local, create_answer,
}
use go_cli_messenger.Peer.Negotiation.Ordered.{
  Sound, all_carried, candidates, apply_signals-Ordered,
}
use go_cli_messenger.Peer.Negotiation.Roles.{
  Op, signal, begin, in_role, step, run, run-new_peer-InRole,
}
use go_cli_messenger.Peer.Sending as Sending
use go_cli_messenger.Peer.Sending.Fifo as Fifo
use go_cli_messenger.Peer.Receiving.{Receiver, control_message, on_message, on_messages}
use go_cli_messenger.Peer.Receiving.Once.{on_message_once}

-- A connection that takes everything.
abbrev rtc : WebRtc
rtc = record {
  offers = λ cs restart. some (record { type = offer; sdp = codes "o" });
  answers = λ cs. some (record { type = answer; sdp = codes "a" });
  sets_local = λ cs d. true;
  sets_remote = λ cs d. true;
  adds = λ cs c. true;
  local = λ cs. some (record { type = answer; sdp = codes "a" });
}

-- Two candidates come before the offer, and one after it.
abbrev early : List Signal
early =
    record no_signal { candidate = some (codes "1") }
    ∷ record no_signal { candidate = some (codes "2") }
    ∷ record no_signal { description = some (record { type = offer; sdp = codes "o" }) }
    ∷ record no_signal { candidate = some (codes "3") }
    ∷ []

all_in_order :
    candidates (apply_signals rtc early (new_peer callee)).0.calls
    ≡ codes "1" ∷ codes "2" ∷ codes "3" ∷ []
unfolding apply_signals candidates
all_in_order = refl

apply_signals-Ordered_example :
    let (p, good) = apply_signals rtc early (new_peer callee) in
    Sound rtc p.calls p.remote_description
    × (p.remote_description ≡ true → p.pending ≡ [])
    × (good ≡ true → candidates p.calls ++ p.pending ≡ all_carried early)
apply_signals-Ordered_example = apply_signals-Ordered rtc early callee

-- A callee is told to begin, and gets an answer and then an offer.
abbrev ops : List Op
ops =
    begin false
    ∷ signal (record no_signal { description = some (record { type = answer; sdp = codes "a" }) })
    ∷ signal (record no_signal { description = some (record { type = offer; sdp = codes "o" }) })
    ∷ []

only_offer_taken :
    (run rtc ops (new_peer callee)).calls
    ≡ set_remote (record { type = offer; sdp = codes "o" })
      ∷ create_answer
      ∷ set_local (record { type = answer; sdp = codes "a" })
      ∷ []
unfolding run step apply_signal apply_description start_offer
only_offer_taken = refl

run-new_peer-InRole_example : all_of (in_role callee) (run rtc ops (new_peer callee)).calls ≡ true
run-new_peer-InRole_example = run-new_peer-InRole rtc callee ops

abbrev sending : List Fifo.Op
sending =
    Fifo.queue true (Sending.message (codes "hi"))
    ∷ Fifo.queue true (Sending.flush 1)
    ∷ Fifo.attach
    ∷ Fifo.opened
    ∷ Fifo.turn true
    ∷ Fifo.turn true
    ∷ Fifo.turn true
    ∷ []

run_fifo_example :
    let (s, items) = Fifo.run (λ sent m. true) sending (Sending.start 4, []) in
    (done : List Sending.Item) × Fifo.Inv (λ sent m. true) items done s
run_fifo_example = Fifo.run_fifo (λ sent m. true) 4 sending

abbrev greeting : ControlMessage
greeting = record {
  version = pos 2;
  id = codes "01234567-89ab-4cde-8f01-23456789abcd";
  type = chat_message;
  sent_at = 63871286400000000000;
  payload = codes "hi";
}

-- A decoder that reads the byte `g` as the greeting.
abbrev read_greeting : Text → Option (ControlMessage × Text)
read_greeting (c ∷ rest) = if c == b'g' then some (greeting, rest) else none
read_greeting [] = none

abbrev json : Json
json = record {
  session_ready = λ s. none;
  sdp = λ s. none;
  candidate = λ s. none;
  proof = λ s. none;
  hello = λ s. none;
  chat = λ s. some s;
  audio = λ s. none;
  signal = λ s. none;
  control = read_greeting;
}

abbrev validator : Validate.Validator
validator = record { now = 63871286400000000000; maximum_age = 0; maximum_future = 0 }

greeting_decoded : decode_control json (codes "g") validator ≡ Validate.ok greeting
unfolding decode_control decode_json valid_uuid is_known valid_utf8 text_eq Validate.validate_common
greeting_decoded = refl

abbrev receiver : Receiver
receiver = record { seen_messages = empty 128; events = [] }

on_message_once_example :
    let after = on_message json validator (codes "g") receiver in
    let later = on_messages json validator (codes "x" ∷ []) after in
    (after.events ≡ control_message greeting ∷ [])
    × ((on_message json validator (codes "g") later).events ≡ later.events)
on_message_once_example =
    on_message_once json validator receiver (codes "g") (codes "g") greeting greeting
      (codes "x" ∷ []) (empty-Inv 128) (unfold empty member in refl) greeting_decoded
      greeting_decoded refl (unfold empty in omega arith)

-- ===== src/Peer/Sending.antt =====
-- internal/client/peer/peer.go: `Send`, `Flush` and the loop that hands the queued control messages to
-- the data channel. The messages are validated and encoded before they are queued.
pub mod Fifo
use go_cli_messenger.Common.{
  ℕ, zero, suc, ◌+◌, Bool, true, false, ◌&&◌, ◌||◌, not, ltb, if◌then◌else◌, Option, none, some,
  List, [], ◌∷◌, ◌++◌, length, Text,
}
use go_cli_messenger.Protocol.Message.{Json, ControlMessage}
use go_cli_messenger.Protocol.Validate as Validate
use go_cli_messenger.Protocol.Control.{validate_control, max_control_message_size}

-- `outboundMessage`: a message, or the channel that a flush waits for.
pub data Item : Type 0 where
  message : Text → Item
  flush : ℕ → Item

pub data SendResult : Type 0 where
  sent : SendResult
  invalid : Validate.Error → SendResult
  not_encoded too_large closed waits : SendResult

-- `holding`: the message that the loop has taken and waits to send; `handed`: what the channel got.
pub record Sender : Type 0 where
  pub capacity : ℕ
  pub outbound : List Item
  pub holding : Option Text
  pub is_ready : Bool
  pub has_channel : Bool
  pub is_closed : Bool
  pub has_ended : Bool
  pub handed : List Text
  pub flushed : List ℕ
  pub errors : ℕ

-- The `select` that queues an item; `pick` says which way it goes where both are possible.
unfoldable pub queue_item : Bool → Item → Sender → Sender × SendResult
queue_item pick i s =
    if ltb (length s.outbound) s.capacity && (not s.is_closed || pick)
    then (record s { outbound = s.outbound ++ i ∷ [] }, sent)
    else if s.is_closed
    then (s, closed)
    else (s, waits)

abbrev pub start : ℕ → Sender
start capacity = record {
  capacity = capacity;
  outbound = [];
  holding = none;
  is_ready = false;
  has_channel = false;
  is_closed = false;
  has_ended = false;
  handed = [];
  flushed = [];
  errors = 0;
}

abbrev pub take_item : List Item → Sender → Sender
take_item [] s = s
take_item (flush k ∷ rest) s = record s { outbound = rest; flushed = s.flushed ++ k ∷ [] }
take_item (message m ∷ rest) s = record s { outbound = rest; holding = some m }

-- `sends`: whether the data channel takes a message, by those it got before.
module _ (sends : List Text → Text → Bool) where
  -- A message is sent once the channel is open.
  unfoldable pub send_held : Text → Sender → Sender
  send_held m s =
      if s.has_channel && sends s.handed m
      then record s { holding = none; handed = s.handed ++ m ∷ [] }
      else record s { holding = none; errors = s.errors + 1 }

  abbrev pub advance : Option Text → Sender → Sender
  advance none s = take_item s.outbound s
  advance (some m) s = if s.is_ready then send_held m s else s

  -- One turn of `sendLoop`; a turn in which nothing can be done waits.
  unfoldable pub send_loop : Bool → Sender → Sender
  unfolding send_held
  send_loop pick s =
      if s.has_ended
      then s
      else if s.is_closed && not pick
      then record s { has_ended = true }
      else advance s.holding s

-- `json.Marshal` of a message is a parameter.
module _ (json : Json) (encode : ControlMessage → Option Text) (v : Validate.Validator) where
  abbrev queue_encoded : Bool → Option Text → Sender → Sender × SendResult
  queue_encoded pick none s = (s, not_encoded)
  queue_encoded pick (some bytes) s =
      if ltb max_control_message_size (length bytes)
      then (s, too_large)
      else queue_item pick (message bytes) s

  abbrev queue_checked :
      Bool → ControlMessage → Validate.Result (Unit {0}) → Sender → Sender × SendResult
  queue_checked pick m (Validate.err e) s = (s, invalid e)
  queue_checked pick m (Validate.ok u) s = queue_encoded pick (encode m) s

  -- `Send`
  unfoldable pub send : Bool → ControlMessage → Sender → Sender × SendResult
  unfolding queue_item
  send pick m s = queue_checked pick m (validate_control json v m) s

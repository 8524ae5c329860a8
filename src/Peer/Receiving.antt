-- ===== src/Peer/Receiving.antt =====
-- internal/client/peer/peer.go: what a peer makes of the messages on its control channel. The queue
-- of events has room.
pub mod Once
use go_cli_messenger.Common.{
  ℕ, zero, suc, ◌+◌, ◌*◌, Bool, true, false, if◌then◌else◌, List, [], ◌∷◌, ◌++◌, Text, ℤ,
  positive_or,
}
use go_cli_messenger.Protocol.Message.{Json, ControlMessage}
use go_cli_messenger.Protocol.Validate as Validate
use go_cli_messenger.Protocol.Control.{decode_control}
use go_cli_messenger.Seen.{Seen, empty, duplicate}

-- The events that the control channel gives rise to.
pub data Event : Type 0 where
  control_message : ControlMessage → Event
  failed : Validate.Error → Event

pub record Receiver : Type 0 where
  pub seen_messages : Seen
  pub events : List Event

-- `queueSize * 4` is the limit of the filter.
abbrev pub new_receiver : ℤ → Receiver
new_receiver queue_size = record {
  seen_messages = empty (positive_or queue_size 32 * 4);
  events = [];
}

-- `seen`, which has the statements of the server's filter.
unfoldable pub seen : Text → Seen → Seen × Bool
unfolding duplicate
seen id s = duplicate id s

abbrev pub emit : Event → Receiver → Receiver
emit e r = record r { events = r.events ++ e ∷ [] }

module _ (json : Json) (v : Validate.Validator) where
  abbrev pub on_decoded : Validate.Result ControlMessage → Receiver → Receiver
  on_decoded (Validate.err e) r = emit (failed e) r
  on_decoded (Validate.ok m) r =
      let (s, known) = seen m.id r.seen_messages in
      if known
      then record r { seen_messages = s }
      else emit (control_message m) (record r { seen_messages = s })

  -- The handler of the control channel, `OnMessage`.
  unfoldable pub on_message : Text → Receiver → Receiver
  unfolding seen
  on_message bytes r = on_decoded (decode_control json bytes v) r

  unfoldable pub on_messages : List Text → Receiver → Receiver
  unfolding on_message
  on_messages [] r = r
  on_messages (b ∷ bs) r = on_messages bs (on_message b r)

-- ===== src/Peer/Video.antt =====
-- internal/client/peer/peer.go: frames of the video channel, and the route that is reported. What the
-- WebRTC library tells of a channel and of the selected pair of candidates is an argument.
use go_cli_messenger.Common.{
  ℕ, ◌+◌, Bool, true, false, ◌||◌, not, leb, ltb, if◌then◌else◌, Option, none, some, List, [], ◌∷◌,
  ◌++◌, length, is_empty, Text, codes, text_eq, lookup, Dict,
}
use go_cli_messenger.Peer.Queue.{queue_latest}

pub record VideoChannel : Type 0 where
  pub is_ready : Bool
  pub is_attached : Bool
  pub max_buffered : ℕ
  pub waiting : List Text
  pub sent : List Text
  pub errors : ℕ

-- `channel == nil || channel.BufferedAmount() >= p.maxVideoBufferedAmount`
abbrev is_congested : ℕ → VideoChannel → Bool
is_congested buffered s = not s.is_attached || leb s.max_buffered buffered

-- `SendVideo`
unfoldable pub send_video : ℕ → Text → VideoChannel → VideoChannel × Bool
unfolding queue_latest
send_video buffered frame s =
    if is_empty frame
    then (s, false)
    else if not s.is_ready
    then (s, false)
    else if is_congested buffered s
    then (s, false)
    else (let (q, b) = queue_latest 1 frame s.waiting in (record s { waiting = q }, b))

-- A turn of `videoSendLoop`: a frame that meets a full buffer is dropped.
abbrev send_waiting : ℕ → Bool → List Text → VideoChannel → VideoChannel
send_waiting buffered works [] s = s
send_waiting buffered works (frame ∷ rest) s =
    if is_congested buffered s
    then record s { waiting = rest }
    else if works
    then record s { waiting = rest; sent = s.sent ++ frame ∷ [] }
    else record s { waiting = rest; errors = s.errors + 1 }

unfoldable pub video_send_loop : ℕ → Bool → VideoChannel → VideoChannel
video_send_loop buffered works s =
    if not s.is_ready then s else send_waiting buffered works s.waiting s

-- The handler of a frame that comes in: the waiting frames, and whether an error is reported.
unfoldable pub on_frame : Text → List Text → List Text × Bool
unfolding queue_latest
on_frame frame frames =
    if ltb 65536 (length frame) then (frames, true) else ((queue_latest 1 frame frames).0, false)

pub record Candidate : Type 0 where
  pub is_relay : Bool
  pub protocol : Text
  pub relay_protocol : Text

-- An entry of the statistics on pairs of candidates.
pub record PairStats : Type 0 where
  pub nominated : Bool
  pub succeeded : Bool
  pub local_candidate : Text

-- `selectedRelayProtocol`; the report is read in the order in which the map gives its entries.
unfoldable pub selected_relay_protocol : List PairStats → Dict Candidate → Text
unfolding lookup
selected_relay_protocol [] report = []
selected_relay_protocol (p ∷ ps) report =
    let rest = selected_relay_protocol ps report in
    if not p.nominated || not p.succeeded then rest else elim (lookup p.local_candidate report) [
      | none ↦ rest
      | some c ↦ if is_empty c.relay_protocol then rest else c.relay_protocol
    ]

abbrev or_else : Text → Text → Text
or_else [] t = t
or_else (c ∷ s) t = c ∷ s

abbrev pub unknown_route : Text
unknown_route = codes "unknown"

-- `selectedRoute`, from the two candidates of the selected pair, if there is one
unfoldable pub selected_route :
    Option (Candidate × Candidate) → List PairStats → Dict Candidate → Text
unfolding selected_relay_protocol
selected_route none ps report = unknown_route
selected_route (some (near, far)) ps report =
    if near.is_relay || far.is_relay
    then codes "relay/"
      ++ or_else (selected_relay_protocol ps report)
          (or_else near.protocol (or_else far.protocol unknown_route))
    else codes "direct/" ++ or_else near.protocol (or_else far.protocol unknown_route)

-- The callback for the state of the connection: the route that is remembered, and the one reported.
unfoldable pub on_state_change : Text → Text → Text × Text
unfolding text_eq
on_state_change route remembered =
    let now = if text_eq route unknown_route then remembered else route in
    (now, or_else now unknown_route)

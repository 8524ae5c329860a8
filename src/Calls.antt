-- ===== src/Calls.antt =====
-- internal/server/calls/manager.go: the calls that the signaling server knows of. Time is a number
-- of nanoseconds since Go's zero time, so the zero `time.Time` is 0. A method returns the manager
-- that it leaves beside its result.
pub mod Invariant
pub mod Trace
pub mod Sweep
pub mod Exclusive
pub mod Graph
pub mod Preservation
use go_cli_messenger.Common.{
  ℕ, ◌+◌, Bool, true, false, ◌&&◌, not, Option, none, some, List, [], ◌∷◌, ◌++◌, leb, ◌==◌, is_some,
  if◌then◌else◌, ℤ, positive_or, Text, text_eq, Dict, lookup, insert, delete, keys,
}
use go_cli_messenger.Protocol.Signal.{
  SignalType, call_accept, call_decline, call_cancel, call_end, webrtc_offer, webrtc_answer,
  webrtc_ice, webrtc_ice_complete, max_ice_candidates,
}

pub data Error : Type 0 where
  call_exists call_not_found user_busy not_participant invalid_transition candidate_limit : Error

pub data Result {ℓ} (A : Type ℓ) : Type ℓ where
  ok : A → Result A
  err : Error → Result A

pub data State : Type 0 where
  ringing accepted negotiating connected declined cancelled timed_out ended : State

pub record Call : Type 0 where
  pub id : Text
  pub caller : Text
  pub callee : Text
  pub state : State
  pub created_at : ℕ
  pub updated_at : ℕ
  pub deadline : ℕ
  pub cleanup_at : ℕ
  pub caller_candidates : ℕ
  pub callee_candidates : ℕ

unfoldable pub other : Call → Text → Result Text
other c username =
    if text_eq username c.caller
    then ok c.callee
    else if text_eq username c.callee
    then ok c.caller
    else err not_participant

abbrev pub is_terminal : State → Bool
is_terminal declined = true
is_terminal cancelled = true
is_terminal timed_out = true
is_terminal ended = true
is_terminal _ = false

unfoldable pub terminal : Call → Bool
terminal c = is_terminal c.state

-- The durations as the caller gives them.
pub record Config : Type 0 where
  pub ring_timeout : ℤ
  pub negotiation_timeout : ℤ
  pub cleanup_after : ℤ

-- The durations that `New` settles on, and the two maps behind the mutex.
pub record Manager : Type 0 where
  pub ring_timeout : ℕ
  pub negotiation_timeout : ℕ
  pub cleanup_after : ℕ
  pub calls : Dict Call
  pub active : Dict Text

unfoldable pub new : Config → Manager
new config = record {
  ring_timeout = positive_or config.ring_timeout 45000000000;
  negotiation_timeout = positive_or config.negotiation_timeout 30000000000;
  cleanup_after = positive_or config.cleanup_after 60000000000;
  calls = [];
  active = [];
}

abbrev pub new_call : Text → Text → Text → ℕ → Manager → Call
new_call call_id caller callee now m = record {
  id = call_id;
  caller = caller;
  callee = callee;
  state = ringing;
  created_at = now;
  updated_at = now;
  deadline = now + m.ring_timeout;
  cleanup_at = 0;
  caller_candidates = 0;
  callee_candidates = 0;
}

abbrev pub add_call : Text → Text → Text → ℕ → Manager → Manager
add_call call_id caller callee now m = record m {
  calls = insert call_id (new_call call_id caller callee now m) m.calls;
  active = insert callee call_id (insert caller call_id m.active);
}

unfoldable pub invite : Text → Text → Text → ℕ → Manager → Manager × Result Call
invite call_id caller callee now m =
    if text_eq caller callee
    then (m, err invalid_transition)
    else if is_some (lookup call_id m.calls)
    then (m, err call_exists)
    else if is_some (lookup caller m.active)
    then (m, err user_busy)
    else if is_some (lookup callee m.active)
    then (m, err user_busy)
    else (add_call call_id caller callee now m, ok (new_call call_id caller callee now m))

abbrev pub is_ringing : State → Bool
is_ringing ringing = true
is_ringing _ = false

abbrev pub is_negotiating : State → Bool
is_negotiating negotiating = true
is_negotiating _ = false

abbrev pub is_connected : State → Bool
is_connected connected = true
is_connected _ = false

-- `call.State == StateAccepted || call.State == StateConnected`
abbrev pub takes_offer : State → Bool
takes_offer accepted = true
takes_offer connected = true
takes_offer _ = false

-- `StateAccepted`, `StateNegotiating` or `StateConnected`
abbrev pub is_established : State → Bool
is_established accepted = true
is_established negotiating = true
is_established connected = true
is_established _ = false

abbrev pub set_state : State → ℕ → ℕ → Call → Call
set_state state now deadline c = record c { state = state; updated_at = now; deadline = deadline }

-- The call behind the pointer that `m.calls` holds at `call_id`.
abbrev pub store : Text → Call → Manager → Manager
store call_id c m = record m { calls = insert call_id c m.calls }

abbrev pub finished : State → ℕ → Manager → Call → Call
finished state now m c = record (set_state state now 0 c) { cleanup_at = now + m.cleanup_after }

abbrev pub finish : Text → State → ℕ → Call → Manager → Manager
finish call_id state now c m = record (store call_id (finished state now m c) m) {
  active = delete c.callee (delete c.caller m.active);
}

abbrev pub move : Text → Call → Manager → Manager × Result Call
move call_id c m = (store call_id c m, ok c)

abbrev pub conclude : Text → State → ℕ → Call → Manager → Manager × Result Call
conclude call_id state now c m = (finish call_id state now c m, ok (finished state now m c))

abbrev pub reset_candidates : Call → Call
reset_candidates c =
    if is_connected c.state then record c { caller_candidates = 0; callee_candidates = 0 } else c

add_candidate : Text → Text → ℕ → Call → Manager → Manager × Result Call
add_candidate call_id actor now c m =
    if text_eq actor c.caller
    then (if leb max_ice_candidates c.caller_candidates
        then (m, err candidate_limit)
        else move call_id
            (record c { caller_candidates = c.caller_candidates + 1; updated_at = now }) m)
    else if leb max_ice_candidates c.callee_candidates
    then (m, err candidate_limit)
    else move call_id (record c { callee_candidates = c.callee_candidates + 1; updated_at = now }) m

-- The `switch` of `Transition`, for a call that was found and whose participants fit.
unfoldable pub apply : SignalType → Text → Text → ℕ → Call → Manager → Manager × Result Call
unfolding add_candidate
apply call_accept call_id actor now c m =
    if is_ringing c.state && text_eq actor c.callee
    then move call_id (set_state accepted now (now + m.negotiation_timeout) c) m
    else (m, err invalid_transition)
apply call_decline call_id actor now c m =
    if is_ringing c.state && text_eq actor c.callee
    then conclude call_id declined now c m
    else (m, err invalid_transition)
apply call_cancel call_id actor now c m =
    if is_ringing c.state && text_eq actor c.caller
    then conclude call_id cancelled now c m
    else (m, err invalid_transition)
apply webrtc_offer call_id actor now c m =
    if takes_offer c.state && text_eq actor c.caller
    then move call_id (set_state negotiating now (now + m.negotiation_timeout) (reset_candidates c))
        m
    else (m, err invalid_transition)
apply webrtc_answer call_id actor now c m =
    if is_negotiating c.state && text_eq actor c.callee
    then move call_id (set_state connected now 0 c) m
    else (m, err invalid_transition)
apply webrtc_ice call_id actor now c m =
    if is_established c.state
    then add_candidate call_id actor now c m
    else (m, err invalid_transition)
apply webrtc_ice_complete call_id actor now c m =
    if is_established c.state
    then move call_id (record c { updated_at = now }) m
    else (m, err invalid_transition)
apply call_end call_id actor now c m =
    if is_established c.state then conclude call_id ended now c m else (m, err invalid_transition)
apply _ call_id actor now c m = (m, err invalid_transition)

-- `err != nil || other != recipient`
abbrev pub fits : Result Text → Text → Bool
fits (ok name) recipient = text_eq name recipient
fits (err e) recipient = false

transition_at : Option Call → SignalType → Text → Text → Text → ℕ → Manager → Manager × Result Call
transition_at none type call_id actor recipient now m = (m, err call_not_found)
transition_at (some c) type call_id actor recipient now m =
    if fits (other c actor) recipient
    then apply type call_id actor now c m
    else (m, err not_participant)

unfoldable pub transition : SignalType → Text → Text → Text → ℕ → Manager → Manager × Result Call
unfolding transition_at
transition type call_id actor recipient now m =
    transition_at (lookup call_id m.calls) type call_id actor recipient now m

-- One turn of the loop of `Expire` on the call that is in the map at `id`.
abbrev expire_call : Text → ℕ → Call → Manager → Manager × List Call
expire_call id now c m =
    if is_terminal c.state
    then (if not (c.cleanup_at == 0) && leb c.cleanup_at now
        then (record m { calls = delete id m.calls }, [])
        else (m, []))
    else if not (c.deadline == 0) && leb c.deadline now
    then (finish id timed_out now c m, finished timed_out now m c ∷ [])
    else (m, [])

-- A key that was removed before its turn is skipped.
abbrev pub expire_at : Text → ℕ → Option Call → Manager → Manager × List Call
expire_at id now none m = (m, [])
expire_at id now (some c) m = expire_call id now c m

unfoldable pub expire_one : Text → ℕ → Manager → Manager × List Call
expire_one id now m = expire_at id now (lookup id m.calls) m

-- `range m.calls` visits the keys in an order that Go leaves open: `ids` is that order.
unfoldable pub expire_each : List Text → ℕ → Manager → Manager × List Call
expire_each [] now m = (m, [])
expire_each (id ∷ ids) now m =
    let (m', gone) = expire_one id now m in
    let (m'', rest) = expire_each ids now m' in (m'', gone ++ rest)

unfoldable pub expire : ℕ → Manager → Manager × List Call
expire now m = expire_each (keys m.calls) now m

abbrev disconnect_call : Text → Text → ℕ → Option Call → Manager → Manager × List Call
disconnect_call username call_id now none m = (record m { active = delete username m.active }, [])
disconnect_call username call_id now (some c) m =
    if is_terminal c.state
    then (record m { active = delete username m.active }, [])
    else (finish call_id ended now c m, finished ended now m c ∷ [])

abbrev disconnect_at : Text → ℕ → Option Text → Manager → Manager × List Call
disconnect_at username now none m = (m, [])
disconnect_at username now (some call_id) m =
    disconnect_call username call_id now (lookup call_id m.calls) m

unfoldable pub disconnect : Text → ℕ → Manager → Manager × List Call
disconnect username now m = disconnect_at username now (lookup username m.active) m

unfoldable pub get : Text → Manager → Option Call
get call_id m = lookup call_id m.calls

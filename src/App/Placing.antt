-- ===== src/App/Placing.antt =====
-- internal/client/app/app.go: how a call is placed. Whether a send or a signature works is part of the
-- event or of the course of the call.
pub mod Agreed
pub mod Placed
use go_cli_messenger.Common.{
  ℕ, Bool, true, false, ◌&&◌, ◌||◌, not, if◌then◌else◌, Option, none, some, List, [], ◌∷◌, ◌++◌,
  Text, codes, text_eq, is_empty,
}
use go_cli_messenger.Protocol.Space.{trim_space}
use go_cli_messenger.Protocol.Names.{valid_address}
use go_cli_messenger.Protocol.Signal.{
  SignalType, SignalMessage, presence_query, presence_result, session_error, call_invite,
  call_ringing, call_accept, call_decline, call_cancel, call_busy, call_timeout,
}
use go_cli_messenger.Peer.Negotiation.{caller}
use go_cli_messenger.App.Inviting.{
  Env, Keys, Action, send, show_trust, notice, Reason, cancelled, signals_lost, input_failed,
  sign_failed, send_failed, unauthenticated, bad_target, bad_presence, offline, busy, timed_out,
  server_error, End, finished, failed, session, Event, context_done, signals_failed, message, line,
  line_failed, input_closed, Observation, rejected, observed, verify_and_observe, answer_invitation,
  warning, safety_code, after,
}

-- What `nextSignal` returns.
pub data Next : Type 0 where
  next_failed : Next
  next : SignalMessage → Next

pub data Located : Type 0 where
  waiting online : Located
  not_located : Reason → Located

-- What a message of the server says, with the presence that it holds: it is the end of the search, or
-- the search goes on.
abbrev pub found_out : SignalType → Option Bool → Located
found_out presence_result none = not_located bad_presence
found_out presence_result (some true) = online
found_out presence_result (some false) = not_located offline
found_out session_error presence = not_located server_error
found_out type presence = waiting

abbrev pub or_else : Located → Located → Located
or_else waiting rest = rest
or_else result rest = result

-- The first loop of `RunChat`; `read` is `json.Unmarshal` of the presence.
unfoldable pub locate : (Text → Option Bool) → List Next → Located
locate read [] = waiting
locate read (next_failed ∷ ns) = not_located signals_lost
locate read (next m ∷ ns) = or_else (found_out m.type (read m.payload)) (locate read ns)

abbrev pub cancel_invite : Text → Text → Bool → List Action × Option End
cancel_invite target call_id works =
    if works
    then (send call_cancel target call_id ∷ notice ∷ [], some finished)
    else (send call_cancel target call_id ∷ [], some (failed send_failed))

abbrev pub on_acceptance : Env → Keys × Observation → Keys × (List Action × Option End)
on_acceptance env (keys, rejected) = (keys, ([], some (failed unauthenticated)))
on_acceptance env (keys, observed key r reused) = (
  keys,
  (warning reused ++ show_trust r ∷ safety_code env key ++ notice ∷ [], some (session caller)),
)

-- An answer to the invitation.
unfoldable pub on_answer :
    Env → SignalType → SignalMessage → Keys → Keys × (List Action × Option End)
unfolding verify_and_observe
on_answer env call_ringing m keys = (keys, (notice ∷ [], none))
on_answer env call_accept m keys = on_acceptance env (verify_and_observe env m keys)
on_answer env call_decline m keys = (keys, (notice ∷ [], some finished))
on_answer env call_busy m keys = (keys, ([], some (failed busy)))
on_answer env call_timeout m keys = (keys, ([], some (failed timed_out)))
on_answer env session_error m keys = (keys, ([], some (failed server_error)))
on_answer env type m keys = (keys, ([], none))

-- One round of the second loop of `RunChat`.
unfoldable pub chat_event : Env → Text → Text → Event → Keys → Keys × (List Action × Option End)
unfolding on_answer
chat_event env target call_id context_done keys = (keys, ([], some (failed cancelled)))
chat_event env target call_id signals_failed keys = (keys, ([], some (failed signals_lost)))
chat_event env target call_id (input_closed works) keys = (keys, cancel_invite target call_id works)
chat_event env target call_id line_failed keys = (keys, ([], some (failed input_failed)))
chat_event env target call_id (line text signs works) keys =
    if text_eq (trim_space text) (codes "/quit")
    then (keys, cancel_invite target call_id works)
    else (keys, (notice ∷ [], none))
chat_event env target call_id (message m) keys =
    if not (is_empty m.call_id) && not (text_eq m.call_id call_id)
    then (keys, ([], none))
    else on_answer env m.type m keys

abbrev pub then_chat :
    Keys × (List Action × Option End)
    → (Keys → Keys × (List Action × Option End))
    → Keys × (List Action × Option End)
then_chat (keys, (did, some r)) rest = (keys, (did, some r))
then_chat (keys, (did, none)) rest = let (n, more) = rest keys in (n, after (did, none) more)

unfoldable pub chat_loop : Env → Text → Text → List Event → Keys → Keys × (List Action × Option End)
unfolding chat_event
chat_loop env target call_id [] keys = (keys, ([], none))
chat_loop env target call_id (e ∷ es) keys =
    then_chat (chat_event env target call_id e keys) (chat_loop env target call_id es)

-- The invitation; `signs` and `works` are about its proof and its send.
abbrev pub invite_online :
    Env → Text → Text → Bool → Bool → List Event → Keys → Keys × (List Action × Option End)
invite_online env target call_id signs works es keys =
    if env.has_identity && not signs
    then (keys, ([], some (failed sign_failed)))
    else if works
    then (let (n, more) = chat_loop env target call_id es keys in
        (n, after (send call_invite target call_id ∷ notice ∷ [], none) more))
    else (keys, (send call_invite target call_id ∷ [], some (failed send_failed)))

abbrev pub on_located :
    Env
    → Text
    → Text
    → Bool
    → Bool
    → List Event
    → Keys
    → Located
    → Keys × (List Action × Option End)
on_located env target call_id signs works es keys waiting = (keys, ([], none))
on_located env target call_id signs works es keys (not_located r) = (keys, ([], some (failed r)))
on_located env target call_id signs works es keys online =
    let (n, more) = invite_online env target call_id signs works es keys in
    (n, after (notice ∷ [], none) more)

-- What is the choice of the machine in a call that is placed: the id of the call, whether the query and
-- the invitation are sent and the proof is signed, and what then comes.
pub record Course : Type 0 where
  pub call_id : Text
  pub asks : Bool
  pub signs : Bool
  pub invites : Bool
  pub answers : List Next
  pub events : List Event

-- `RunChat`, once the session with the server is there; `read` is `json.Unmarshal` of the presence.
unfoldable pub run_chat :
    Env → (Text → Option Bool) → Text → Course → Keys → Keys × (List Action × Option End)
unfolding locate chat_loop
run_chat env read target c keys =
    if not (valid_address target)
    then (keys, ([], some (failed bad_target)))
    else if not c.asks
    then (keys, (notice ∷ send presence_query target [] ∷ [], some (failed send_failed)))
    else let (n, more) =
        on_located env target c.call_id c.signs c.invites c.events keys (locate read c.answers) in
      (n, after (notice ∷ send presence_query target [] ∷ [], none) more)

abbrev pub on_heard :
    SignalType
    → Keys × (List Action × Option End)
    → Keys
    → Keys × (List Action × Option End)
    → Keys × (List Action × Option End)
on_heard session_error answered keys rest = (keys, ([], some (failed server_error)))
on_heard call_invite answered keys rest = answered
on_heard type answered keys rest = rest

-- `RunListen`, once the session with the server is there: what it hears, and what then comes to the
-- answer, where a line that was typed before the invitation is the first.
unfoldable pub run_listen : Env → List Next → List Event → Keys → Keys × (List Action × Option End)
run_listen env [] es keys = (keys, ([], none))
run_listen env (next_failed ∷ ns) es keys = (keys, ([], some (failed signals_lost)))
run_listen env (next m ∷ ns) es keys =
    on_heard m.type (answer_invitation env m es keys) keys (run_listen env ns es keys)

-- ===== src/App/Inviting.antt =====
-- internal/client/app/app.go: how an invitation is answered. Whether a signature, a send or the trust store works is
-- part of the event or of the environment.
pub mod Vouched
pub mod Answered
use go_cli_messenger.Common.{
  ℕ, Bool, true, false, ◌&&◌, ◌||◌, not, if◌then◌else◌, Option, none, some, List, [], ◌∷◌, ◌++◌,
  Text, codes, text_eq, is_empty,
}
use go_cli_messenger.Protocol.Space.{trim_space}
use go_cli_messenger.Protocol.Names.{valid_address}
use go_cli_messenger.Protocol.Signal.{
  SignalType, SignalMessage, presence_query, presence_result, session_error, call_invite,
  call_ringing, call_accept, call_decline, call_cancel, call_busy, call_timeout, call_end,
}
use go_cli_messenger.Identity.Proof.{Crypto, Verification, refused, verified, verify, to_lower}
use go_cli_messenger.Identity.Replay.{ReplayGuard, accept}
use go_cli_messenger.Identity.Trust.{TrustRecord, Records, Answer, problem, found, observe}
use go_cli_messenger.Peer.Negotiation.{Role, caller, callee}

-- What a call needs of the configuration and of the machine: the two readings of the clock, and
-- whether the trust store can be opened and saved.
pub record Env : Type 0 where
  pub crypto : Crypto
  pub server_url : Text
  pub has_identity : Bool
  pub opens : Bool
  pub saves : Bool
  pub now : ℕ
  pub later : ℕ

-- `peerReplays` and the trust store
pub record Keys : Type 0 where
  pub replays : ReplayGuard
  pub records : Records

-- `send type to call_id`; what is shown on the terminal is kept as far as it concerns the keys.
pub data Action : Type 0 where
  send : SignalType → Text → Text → Action
  warn : List Text → Action
  show_trust : TrustRecord → Action
  show_safety_code : Text → Action
  notice prompt : Action

pub data Reason : Type 0 where
  cancelled signals_lost input_failed sign_failed send_failed unauthenticated blocked : Reason
  bad_target bad_presence offline busy timed_out server_error : Reason

-- `session role` goes on to runSession.
pub data End : Type 0 where
  finished : End
  failed : Reason → End
  session : Role → End

-- `line text signs works`, `input_closed works`: the proof can be signed, the send works.
pub data Event : Type 0 where
  context_done signals_failed : Event
  message : SignalMessage → Event
  line : Text → Bool → Bool → Event
  line_failed : Event
  input_closed : Bool → Event

pub data Observation : Type 0 where
  rejected : Observation
  observed : Text → TrustRecord → List Text → Observation

abbrev pub recorded :
    Env → Text → Keys → Records × Answer (TrustRecord × List Text) → Keys × Observation
recorded env key keys (n, problem e) = (record keys { records = n }, rejected)
recorded env key keys (n, found (r, reused)) =
    (record keys { records = n }, if env.saves then observed key r reused else rejected)

abbrev pub observe_proof : Env → SignalMessage → Verification → Keys → Keys × Observation
observe_proof env m (refused e) keys = (keys, rejected)
observe_proof env m (verified p key fp) keys =
    let (g, fresh) = accept fp p.nonce p.expires_at env.later keys.replays in
    let used = record keys { replays = g } in
    if not fresh || not env.opens
    then (used, rejected)
    else recorded env key used (observe env.crypto env.server_url m.from key keys.records)

-- `verifyAndObserve`
unfoldable pub verify_and_observe : Env → SignalMessage → Keys → Keys × Observation
verify_and_observe env m keys = observe_proof env m (verify env.crypto m env.now) keys

abbrev pub warning : List Text → List Action
warning [] = []
warning reused = warn reused ∷ []

abbrev pub safety_code : Env → Text → List Action
safety_code env key = if not env.has_identity || is_empty key then [] else show_safety_code key ∷ []

-- `answer == "y" || answer == "yes"`
unfoldable pub says_yes : Text → Bool
says_yes text =
    let answer = to_lower (trim_space text) in
    text_eq answer (codes "y") || text_eq answer (codes "yes")

abbrev pub reply : SignalMessage → SignalType → Action
reply invite type = send type invite.from invite.call_id

abbrev pub accept_invite : Env → SignalMessage → Text → Bool → Bool → List Action × Option End
accept_invite env invite key signs works =
    if env.has_identity && not signs
    then ([], some (failed sign_failed))
    else if works
    then (reply invite call_accept ∷ safety_code env key ++ notice ∷ [], some (session callee))
    else (reply invite call_accept ∷ [], some (failed send_failed))

abbrev pub decline_invite : SignalMessage → Bool → List Action × Option End
decline_invite invite works =
    if works
    then (reply invite call_decline ∷ notice ∷ [], some finished)
    else (reply invite call_decline ∷ [], some (failed send_failed))

unfoldable pub is_over : SignalType → Bool
is_over call_cancel = true
is_over call_end = true
is_over call_timeout = true
is_over type = false

-- One round of the loop in `answerInvitation`; `none` is that it goes on.
unfoldable pub answer_event : Env → SignalMessage → Text → Event → List Action × Option End
answer_event env invite key context_done = ([], some (failed cancelled))
answer_event env invite key signals_failed = ([], some (failed signals_lost))
answer_event env invite key (message m) =
    if text_eq m.call_id invite.call_id && is_over m.type
    then (notice ∷ [], some finished)
    else ([], none)
answer_event env invite key (input_closed works) =
    (reply invite call_decline ∷ notice ∷ [], some finished)
answer_event env invite key line_failed = ([], some (failed input_failed))
answer_event env invite key (line text signs works) =
    if says_yes text then accept_invite env invite key signs works else decline_invite invite works

abbrev pub after : List Action × Option End → List Action × Option End → List Action × Option End
after (did, some r) rest = (did, some r)
after (did, none) (more, r) = (did ++ more, r)

unfoldable pub answer_loop : Env → SignalMessage → Text → List Event → List Action × Option End
unfolding answer_event
answer_loop env invite key [] = ([], none)
answer_loop env invite key (e ∷ es) =
    after (answer_event env invite key e) (answer_loop env invite key es)

abbrev pub answer_observed :
    Env → SignalMessage → List Event → Observation → List Action × Option End
answer_observed env invite es rejected =
    (reply invite call_decline ∷ [], some (failed unauthenticated))
answer_observed env invite es (observed key r reused) =
    if r.blocked
    then (warning reused ++ reply invite call_decline ∷ [], some (failed blocked))
    else after (warning reused ++ show_trust r ∷ notice ∷ prompt ∷ [], none)
        (answer_loop env invite key es)

-- `answerInvitation`
unfoldable pub answer_invitation :
    Env → SignalMessage → List Event → Keys → Keys × (List Action × Option End)
unfolding verify_and_observe answer_loop
answer_invitation env invite es keys =
    let (n, seen) = verify_and_observe env invite keys in (n, answer_observed env invite es seen)

-- `RunIncoming` and `DeclineIncoming`, for an invitation that the daemon has passed on
abbrev pub run_incoming :
    Env → SignalMessage → List Event → Keys → Keys × (List Action × Option End)
run_incoming env invite es keys = answer_invitation env invite es keys

abbrev pub decline_incoming : SignalMessage → Bool → List Action × Option End
decline_incoming invite works =
    (reply invite call_decline ∷ [], some (if works then finished else failed send_failed))

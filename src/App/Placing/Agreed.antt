-- ===== src/App/Placing/Agreed.antt =====
-- How an invitation is answered.
use go_cli_messenger.Common.{
  ◌≡◌, refl, ◌∙◌, sym, if_intro, Bool, true, false, ◌&&◌, ◌||◌, not, if◌then◌else◌, Option, none,
  some, List, [], ◌∷◌, Text, text_eq, is_empty, arith, codes,
}
use go_cli_messenger.Protocol.Space.{trim_space}
use go_cli_messenger.Protocol.Signal.{
  SignalMessage, SignalType, session_error, call_ringing, call_accept, call_decline, call_busy,
  call_timeout,
}
use go_cli_messenger.Peer.Negotiation.{caller}
use go_cli_messenger.App.Inviting
use go_cli_messenger.App.Inviting.{
  Env, Keys, Action, End, Event, Observation, rejected, observed, verify_and_observe, after, Reason,
}
use go_cli_messenger.App.Inviting.Vouched.{Vouched, Observes, observed_iff}
use go_cli_messenger.App.Placing.{on_acceptance, on_answer, chat_event, then_chat, chat_loop}

-- A session is begun as the caller.
abbrev pub begins : Keys × (List Action × Option End) → Bool
begins (keys, (did, some (Inviting.session caller))) = true
begins (keys, (did, r)) = false

-- The types of the messages that answer an invitation, and all others.
abbrev ends_call : SignalType → Bool
ends_call call_accept = true
ends_call call_decline = true
ends_call call_busy = true
ends_call call_timeout = true
ends_call session_error = true
ends_call type = false

-- The invitation stays open: the user does not quit, and no message for this call answers it.
abbrev pub is_idle : Text → Event → Bool
is_idle call_id (Inviting.message m) =
    not (is_empty m.call_id) && not (text_eq m.call_id call_id) || not (ends_call m.type)
is_idle call_id (Inviting.line text signs works) = not (text_eq (trim_space text) (codes "/quit"))
is_idle call_id e = false

-- The first answer to the invitation accepts it, with a proof of a key.
pub data Accepted (env : Env) (call_id : Text) (keys : Keys) : List Event → Type 0 where
  accepts :
      (m : SignalMessage) (key : Text) (es : List Event)
      → is_empty m.call_id || text_eq m.call_id call_id ≡ true
      → m.type ≡ call_accept
      → Vouched env m keys key
      → Accepted env call_id keys (Inviting.message m ∷ es)
  waits :
      (e : Event) (es : List Event)
      → is_idle call_id e ≡ true
      → Accepted env call_id keys es
      → Accepted env call_id keys (e ∷ es)

pub begins-after :
    (did : List Action) (x : Keys × (List Action × Option End))
    → begins (x.0, after (did, none) x.1) ≡ begins x
begins-after did (keys, (more, r)) = refl

abbrev is_observed : Observation → Bool
is_observed rejected = false
is_observed (observed key r reused) = true

abbrev is_acceptance : SignalType → Bool
is_acceptance call_accept = true
is_acceptance type = false

-- What an answer leads to.
abbrev leads : SignalType → Bool → Bool → Bool
leads type vouched goes_on = if is_acceptance type then vouched else not (ends_call type) && goes_on

module _ (env : Env) (target call_id : Text) where
  begins-on_acceptance :
      (x : Keys × Observation) (rest : Keys → Keys × (List Action × Option End))
      → begins (then_chat (on_acceptance env x) rest) ≡ is_observed x.1
  begins-on_acceptance (keys, rejected) rest = refl
  begins-on_acceptance (keys, observed key r reused) rest = refl

  begins-on_answer :
      (type : SignalType) (m : SignalMessage) (keys : Keys)
      (rest : Keys → Keys × (List Action × Option End))
      → begins (then_chat (on_answer env type m keys) rest)
        ≡ leads type (is_observed (verify_and_observe env m keys).1) (begins (rest keys))
  unfolding on_answer
  begins-on_answer call_accept m keys rest =
      begins-on_acceptance (verify_and_observe env m keys) rest
  begins-on_answer call_ringing m keys rest = begins-after (Inviting.notice ∷ []) (rest keys)
  begins-on_answer call_decline m keys rest = refl
  begins-on_answer call_busy m keys rest = refl
  begins-on_answer call_timeout m keys rest = refl
  begins-on_answer session_error m keys rest = refl
  begins-on_answer type m keys rest = begins-after [] (rest keys)

  is_acceptance-call_accept : (type : SignalType) → is_acceptance type ≡ true → type ≡ call_accept
  is_acceptance-call_accept call_accept h = refl
  is_acceptance-call_accept type h = ground arith

  key_of :
      (m : SignalMessage) (keys : Keys)
      → is_observed (verify_and_observe env m keys).1 ≡ true
      → (key : Text) × Vouched env m keys key
  key_of m keys h =
      of_seen (verify_and_observe env m keys).1 h (λ key. (observed_iff env m keys key).0)
    where
      of_seen :
          (o : Observation)
          → is_observed o ≡ true
          → ((key : Text) → Observes env keys key o → Vouched env m keys key)
          → (key : Text) × Vouched env m keys key
      of_seen rejected h f = ground arith
      of_seen (observed key r reused) h f = (key, f key refl)

  seen_by :
      (m : SignalMessage) (keys : Keys) (key : Text)
      → Vouched env m keys key
      → is_observed (verify_and_observe env m keys).1 ≡ true
  seen_by m keys key v =
      of_seen (verify_and_observe env m keys).1 ((observed_iff env m keys key).1 v)
    where
      of_seen : (o : Observation) → Observes env keys key o → is_observed o ≡ true
      of_seen rejected s = absurd s
      of_seen (observed k r reused) s = refl

  abbrev Gives : List Event → Keys → Keys × (List Action × Option End) → Type 0
  Gives es keys x = begins x ≡ true → Accepted env call_id keys es

  pub to_Accepted :
      (keys : Keys) (es : List Event) → Gives es keys (chat_loop env target call_id es keys)
  unfolding chat_loop chat_event
  to_Accepted keys [] = λ h. ground arith
  to_Accepted keys (Inviting.context_done ∷ es) = λ h. ground arith
  to_Accepted keys (Inviting.signals_failed ∷ es) = λ h. ground arith
  to_Accepted keys (Inviting.line_failed ∷ es) = λ h. ground arith
  to_Accepted keys (Inviting.input_closed works ∷ es) = λ h. ground arith
  to_Accepted keys (Inviting.line text signs works ∷ es) =
      if_intro
        (λ x.
          Gives (Inviting.line text signs works ∷ es) keys
            (then_chat x (chat_loop env target call_id es)))
        (text_eq (trim_space text) (codes "/quit")) _ _ (λ t h. ground arith)
        (λ t h. waits (Inviting.line text signs works) es (ground arith) (
          to_Accepted keys es
            (sym (begins-after (Inviting.notice ∷ []) (chat_loop env target call_id es keys)) ∙ h)))
  to_Accepted keys (Inviting.message m ∷ es) =
      if_intro
        (λ x. Gives (Inviting.message m ∷ es) keys (then_chat x (chat_loop env target call_id es)))
        (not (is_empty m.call_id) && not (text_eq m.call_id call_id)) _ _
        (λ t h.
          waits (Inviting.message m) es (ground arith) (
            to_Accepted keys es (sym (begins-after [] (chat_loop env target call_id es keys)) ∙ h)))
        (λ t h.
          answered (to_Accepted keys es) t
            (sym (begins-on_answer m.type m keys (chat_loop env target call_id es)) ∙ h))
    where
      answered :
          Gives es keys (chat_loop env target call_id es keys)
          → not (is_empty m.call_id) && not (text_eq m.call_id call_id) ≡ false
          → leads m.type
              (is_observed (verify_and_observe env m keys).1)
              (begins (chat_loop env target call_id es keys))
            ≡ true
          → Accepted env call_id keys (Inviting.message m ∷ es)
      answered goes_on t =
          if_intro (λ b. b ≡ true → Accepted env call_id keys (Inviting.message m ∷ es))
            (is_acceptance m.type) _ _
            (λ a h.
              let (key, v) = key_of m keys h in
              accepts m key es (ground arith) (is_acceptance-call_accept m.type a) v)
            (λ a h. waits (Inviting.message m) es (ground arith) (goes_on (ground arith)))

  pub of_Accepted :
      (keys : Keys) (es : List Event)
      → Accepted env call_id keys es
      → begins (chat_loop env target call_id es keys) ≡ true
  unfolding chat_loop chat_event
  of_Accepted keys [] h = elim h [ ]
  of_Accepted keys (_ ∷ _) (accepts m key es same type v) =
      if_intro (λ x. begins (then_chat x (chat_loop env target call_id es)) ≡ true)
        (not (is_empty m.call_id) && not (text_eq m.call_id call_id)) _ _ (λ t. ground arith)
        (λ t.
          begins-on_answer m.type m keys (chat_loop env target call_id es)
          ∙ accepted (is_observed (verify_and_observe env m keys).1)
              (begins (chat_loop env target call_id es keys)) m.type type (seen_by m keys key v))
    where
      accepted :
          (vouched more : Bool) (type : SignalType)
          → type ≡ call_accept
          → vouched ≡ true
          → leads type vouched more ≡ true
      accepted vouched more type e h = rw e h
  of_Accepted keys (_ ∷ _) (waits (Inviting.line text signs works) es idle rest) =
      if_intro (λ x. begins (then_chat x (chat_loop env target call_id es)) ≡ true)
        (text_eq (trim_space text) (codes "/quit")) _ _ (λ t. ground arith)
        (λ t.
          begins-after (Inviting.notice ∷ []) (chat_loop env target call_id es keys)
          ∙ of_Accepted keys es rest)
  of_Accepted keys (_ ∷ _) (waits (Inviting.message m) es idle rest) =
      if_intro (λ x. begins (then_chat x (chat_loop env target call_id es)) ≡ true)
        (not (is_empty m.call_id) && not (text_eq m.call_id call_id)) _ _
        (λ t. begins-after [] (chat_loop env target call_id es keys) ∙ of_Accepted keys es rest)
        (λ t.
          begins-on_answer m.type m keys (chat_loop env target call_id es)
          ∙ goes_on (is_observed (verify_and_observe env m keys).1)
              (begins (chat_loop env target call_id es keys)) m.type (ground arith)
              (of_Accepted keys es rest))
    where
      goes_on :
          (vouched more : Bool) (type : SignalType)
          → ends_call type ≡ false
          → more ≡ true
          → leads type vouched more ≡ true
      goes_on vouched more call_accept h k = ground arith
      goes_on vouched more type h k = ground arith
  of_Accepted keys (_ ∷ _) (waits e es idle rest) = ground arith

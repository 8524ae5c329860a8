-- ===== src/App/Placing/Placed.antt =====
-- When a call that is placed leads to a session.
use go_cli_messenger.Common.{
  ◌≡◌, ◌↔◌, refl, ◌∙◌, sym, if_intro, Bool, true, false, ◌&&◌, not, Option, none, some, List, [],
  ◌∷◌, Text, arith,
}
use go_cli_messenger.Protocol.Names.{valid_address}
use go_cli_messenger.Protocol.Signal.{
  SignalMessage, SignalType, presence_query, call_invite, session_error, presence_result,
}
use go_cli_messenger.App.Inviting
use go_cli_messenger.App.Inviting.{
  Env, Keys, Action, End, Event, Observation, rejected, observed, verify_and_observe, after, Reason,
}
use go_cli_messenger.App.Placing
use go_cli_messenger.App.Placing.{
  Next, Located, Course, found_out, or_else, locate, on_acceptance, on_answer, chat_event,
  cancel_invite, then_chat, chat_loop, invite_online, on_located, run_chat,
}
use go_cli_messenger.App.Placing.Agreed.{begins, Accepted, begins-after, to_Accepted, of_Accepted}

abbrev pub is_found : SignalType → Bool
is_found presence_result = true
is_found session_error = true
is_found type = false

-- The target is reported online before anything else is said of it.
pub data Online (read : Text → Option Bool) : List Next → Type 0 where
  is_online :
      (m : SignalMessage) (ns : List Next)
      → m.type ≡ presence_result
      → read m.payload ≡ some true
      → Online read (Placing.next m ∷ ns)
  asks_on :
      (m : SignalMessage) (ns : List Next)
      → not (is_found m.type) ≡ true
      → Online read ns
      → Online read (Placing.next m ∷ ns)

abbrev finds : Located → Bool
finds Placing.online = true
finds l = false

to_Online :
    (read : Text → Option Bool) (ns : List Next) → finds (locate read ns) ≡ true → Online read ns
unfolding locate
to_Online read [] h = ground arith
to_Online read (Placing.next_failed ∷ ns) h = ground arith
to_Online read (Placing.next m ∷ ns) h =
    by_type m.type (read m.payload) refl refl h (to_Online read ns)
  where
    by_type :
        (type : SignalType) (presence : Option Bool)
        → m.type ≡ type
        → read m.payload ≡ presence
        → finds (or_else (found_out type presence) (locate read ns)) ≡ true
        → (finds (locate read ns) ≡ true → Online read ns)
        → Online read (Placing.next m ∷ ns)
    by_type presence_result (some true) e p k f = is_online m ns e p
    by_type presence_result (some false) e p k f = ground arith
    by_type presence_result none e p k f = ground arith
    by_type session_error presence e p k f = ground arith
    by_type type presence e p k f = asks_on m ns (rw e refl) (f k)

of_Online :
    (read : Text → Option Bool) (ns : List Next) → Online read ns → finds (locate read ns) ≡ true
unfolding locate
of_Online read [] h = elim h [ ]
of_Online read (_ ∷ _) (is_online m ns type shown) = by_type m.type (read m.payload) type shown
  where
    by_type :
        (t : SignalType) (presence : Option Bool)
        → t ≡ presence_result
        → presence ≡ some true
        → finds (or_else (found_out t presence) (locate read ns)) ≡ true
    by_type t presence e p = rw (e, p) refl
of_Online read (_ ∷ _) (asks_on m ns idle rest) = by_type m.type idle (of_Online read ns rest)
  where
    by_type :
        (t : SignalType)
        → not (is_found t) ≡ true
        → finds (locate read ns) ≡ true
        → finds (or_else (found_out t (read m.payload)) (locate read ns)) ≡ true
    by_type presence_result h k = ground arith
    by_type session_error h k = ground arith
    by_type t h k = k

-- What leads to a session: the target is an address and online, it is invited, and accepts.
pub record Placed (env : Env) (read : Text → Option Bool) (target : Text) (c : Course) (keys : Keys)
    : Type 0 where
  pub is_target : valid_address target ≡ true
  pub asked : c.asks ≡ true
  pub target_online : Online read c.answers
  pub signed : env.has_identity && not c.signs ≡ false
  pub invited : c.invites ≡ true
  pub accepted : Accepted env c.call_id keys c.events

begins-invite_online :
    (env : Env) (target : Text) (c : Course) (keys : Keys)
    → begins (invite_online env target c.call_id c.signs c.invites c.events keys) ≡ (
        not (env.has_identity && not c.signs)
        && c.invites
        && begins (chat_loop env target c.call_id c.events keys))
begins-invite_online env target c keys =
    if_intro (λ x. begins x ≡ all) (env.has_identity && not c.signs) _ _ (λ t. ground arith)
      (λ t.
        if_intro (λ x. begins x ≡ all) c.invites _ _
          (λ u.
            begins-after (Inviting.send call_invite target c.call_id ∷ Inviting.notice ∷ []) loop
            ∙ ground arith)
          (λ u. ground arith))
  where
    loop : Keys × (List Action × Option End)
    loop = chat_loop env target c.call_id c.events keys

    all : Bool
    all = not (env.has_identity && not c.signs) && c.invites && begins loop

begins-on_located :
    (env : Env) (target : Text) (c : Course) (keys : Keys) (l : Located)
    → begins (on_located env target c.call_id c.signs c.invites c.events keys l)
      ≡ (finds l && begins (invite_online env target c.call_id c.signs c.invites c.events keys))
begins-on_located env target c keys Placing.waiting = refl
begins-on_located env target c keys (Placing.not_located r) = refl
begins-on_located env target c keys Placing.online =
    begins-after (Inviting.notice ∷ [])
      (invite_online env target c.call_id c.signs c.invites c.events keys)

begins-run_chat :
    (env : Env) (read : Text → Option Bool) (target : Text) (c : Course) (keys : Keys)
    → begins (run_chat env read target c keys) ≡ (
        valid_address target
        && c.asks
        && begins (
            on_located env target c.call_id c.signs c.invites c.events keys
              (locate read c.answers)))
unfolding run_chat
begins-run_chat env read target c keys =
    if_intro (λ x. begins x ≡ all) (not (valid_address target)) _ _ (λ t. ground arith)
      (λ t.
        if_intro (λ x. begins x ≡ all) (not c.asks) _ _ (λ u. ground arith)
          (λ u.
            begins-after (Inviting.notice ∷ Inviting.send presence_query target [] ∷ []) located
            ∙ ground arith))
  where
    located : Keys × (List Action × Option End)
    located =
        on_located env target c.call_id c.signs c.invites c.events keys (locate read c.answers)

    all : Bool
    all = valid_address target && c.asks && begins located

-- A call that is placed comes to a session exactly if the target is a valid address, the server takes
-- the query and reports it online before anything else, the invitation can be signed and sent, and the
-- first answer to it is an acceptance with a fresh proof by a key, before the user quits.
pub run_chat_iff :
    (env : Env) (read : Text → Option Bool) (target : Text) (c : Course) (keys : Keys)
    → (begins (run_chat env read target c keys) ≡ true) ↔ Placed env read target c keys
run_chat_iff env read target c keys = (to, from)
  where
    to : begins (run_chat env read target c keys) ≡ true → Placed env read target c keys
    to h =
        let here = sym (begins-run_chat env read target c keys) ∙ h in
        let found = begins-on_located env target c keys (locate read c.answers) in
        let sent = begins-invite_online env target c keys in
        record {
          is_target = ground (arith, here);
          asked = ground (arith, here);
          target_online = to_Online read c.answers (ground (arith, here, found));
          signed = ground (arith, here, found, sent);
          invited = ground (arith, here, found, sent);
          accepted =
              to_Accepted env target c.call_id keys c.events (ground (arith, here, found, sent));
        }

    from : Placed env read target c keys → begins (run_chat env read target c keys) ≡ true
    from p =
        begins-run_chat env read target c keys
        ∙ rw
            (
              begins-on_located env target c keys (locate read c.answers),
              begins-invite_online env target c keys,
              p.is_target,
              p.asked,
              p.signed,
              p.invited,
              of_Online read c.answers p.target_online,
              of_Accepted env target c.call_id keys c.events p.accepted,
            )
            refl

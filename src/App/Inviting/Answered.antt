-- ===== src/App/Inviting/Answered.antt =====
-- When an invitation is accepted.
use go_cli_messenger.Common.{
  ◌≡◌, ◌↔◌, inl, inr, Bool-cases, codes, text_eq_iff, text_eq_refl, none, refl, ◌∙◌, sym, if_intro,
  Bool, true, false, ◌&&◌, ◌||◌, not, same_bool, same_bool-eq, same_bool_refl, Option, some, List,
  [], ◌∷◌, ◌++◌, Text, text_eq, arith,
}
use go_cli_messenger.Protocol.Signal.{
  SignalMessage, SignalType, call_accept, call_decline, call_cancel, call_timeout, call_end,
}
use go_cli_messenger.Protocol.Space.{trim_space}
use go_cli_messenger.Identity.Proof.{to_lower}
use go_cli_messenger.Peer.Negotiation.{callee}
use go_cli_messenger.Identity.Trust.{TrustRecord}
use go_cli_messenger.App.Inviting
use go_cli_messenger.App.Inviting.{
  Env, Keys, Action, End, Event, Observation, rejected, observed, verify_and_observe, says_yes,
  is_over, answer_event, answer_loop, answer_observed, answer_invitation, after, warning,
  safety_code, Reason,
}
use go_cli_messenger.App.Inviting.Vouched.{
  Vouched, Observes, known, observed_iff, KeepsBlock, observed-KeepsBlock,
}

abbrev is_accept : SignalType → Bool
is_accept call_accept = true
is_accept type = false

-- How the answer ends when the acceptance is taken by the server, and when it is not.
abbrev ends_as : Bool → Option End → Bool
ends_as true (some (Inviting.session callee)) = true
ends_as false (some (Inviting.failed Inviting.send_failed)) = true
ends_as works r = false

-- What is typed means yes: in any case, and with space around it.
pub data SaysYes (text : Text) : Type 0 where
  short : to_lower (trim_space text) ≡ codes "y" → SaysYes text
  long : to_lower (trim_space text) ≡ codes "yes" → SaysYes text

-- A message that takes the invitation back.
abbrev pub calls_off : SignalType → Bool
calls_off call_cancel = true
calls_off call_timeout = true
calls_off call_end = true
calls_off type = false

-- Nothing that ends the wait for the user.
abbrev pub is_idle : SignalMessage → Event → Bool
is_idle invite (Inviting.message m) = not (text_eq m.call_id invite.call_id && calls_off m.type)
is_idle invite e = false

-- The first thing that happens is that the user says yes, and the answer can be signed; `works` is
-- whether the server takes the acceptance.
pub data Agreed (env : Env) (invite : SignalMessage) (works : Bool) : List Event → Type 0 where
  agrees :
      (text : Text) (signs : Bool) (es : List Event)
      → SaysYes text
      → env.has_identity && not signs ≡ false
      → Agreed env invite works (Inviting.line text signs works ∷ es)
  waits :
      (e : Event) (es : List Event)
      → is_idle invite e ≡ true
      → Agreed env invite works es
      → Agreed env invite works (e ∷ es)

-- The invitation is by the owner of the key, who is not blocked, and the user agrees.
pub record Consent (env : Env) (invite : SignalMessage) (works : Bool) (es : List Event)
    (keys : Keys) : Type 0 where
  pub key : Text
  pub vouched : Vouched env invite keys key
  pub unblocked : (known env key keys).blocked ≡ false
  pub agreed : Agreed env invite works es

says_yes_iff : (text : Text) → (says_yes text ≡ true) ↔ SaysYes text
unfolding says_yes
says_yes_iff text = (to (text_eq_iff answer (codes "y")) (text_eq_iff answer (codes "yes")), from)
  where
    answer : Text
    answer = to_lower (trim_space text)

    to :
        (text_eq answer (codes "y") ≡ true) ↔ (answer ≡ codes "y")
        → (text_eq answer (codes "yes") ≡ true) ↔ (answer ≡ codes "yes")
        → text_eq answer (codes "y") || text_eq answer (codes "yes") ≡ true
        → SaysYes text
    to a b h = elim (Bool-cases (text_eq answer (codes "y"))) [
      | inl e ↦ short (a.0 e)
      | inr e ↦ long (b.0 (ground arith))
    ]

    from : SaysYes text → text_eq answer (codes "y") || text_eq answer (codes "yes") ≡ true
    from (short e) = ground (arith, (text_eq_iff answer (codes "y")).1 e)
    from (long e) = ground (arith, (text_eq_iff answer (codes "yes")).1 e)

is_over-calls_off : (type : SignalType) → is_over type ≡ calls_off type
unfolding is_over
is_over-calls_off call_cancel = refl
is_over-calls_off call_timeout = refl
is_over-calls_off call_end = refl
is_over-calls_off type = refl

module _ (env : Env) (invite : SignalMessage) where
  -- Whether an acceptance of this call is handed over for the inviter.
  unfoldable pub accepts : List Action → Bool
  accepts [] = false
  accepts (Inviting.send type to call_id ∷ did) =
      is_accept type && text_eq to invite.from && text_eq call_id invite.call_id || accepts did
  accepts (a ∷ did) = accepts did

  accepts-append : (did more : List Action) → accepts (did ++ more) ≡ (accepts did || accepts more)
  unfolding accepts
  accepts-append [] more = refl
  accepts-append (Inviting.send type to call_id ∷ did) more =
      ground (arith, accepts-append did more)
  accepts-append (a ∷ did) more = ground (arith, accepts-append did more)

  -- The acceptance is handed over, and it is sent or not.
  abbrev pub answers : Bool → List Action × Option End → Bool
  answers works x = accepts x.0 && ends_as works x.1

  answers-after :
      (works : Bool) (did : List Action) (x : List Action × Option End)
      → accepts did ≡ false
      → answers works (after (did, none) x) ≡ answers works x
  answers-after works did (more, r) h = ground (arith, accepts-append did more)

-- A line is answered with the acceptance if it says yes and the answer can be signed.
answers-line :
    (env : Env) (invite : SignalMessage) (key : Text) (works sent signs : Bool) (text : Text)
    → answers env invite works (answer_event env invite key (Inviting.line text signs sent))
      ≡ (says_yes text && not (env.has_identity && not signs) && same_bool sent works)
unfolding answer_event accepts
answers-line env invite key true true signs text =
    ground (arith, text_eq_refl invite.from, text_eq_refl invite.call_id)
answers-line env invite key true false signs text = ground arith
answers-line env invite key false true signs text = ground arith
answers-line env invite key false false signs text =
    ground (arith, text_eq_refl invite.from, text_eq_refl invite.call_id)

-- It ends the wait.
line_ends :
    (env : Env) (invite : SignalMessage) (key : Text) (works sent signs : Bool) (text : Text)
    (rest : List Action × Option End)
    → answers env invite works
        (after (answer_event env invite key (Inviting.line text signs sent)) rest)
      ≡ answers env invite works (answer_event env invite key (Inviting.line text signs sent))
unfolding answer_event
line_ends env invite key works true signs text rest = ground arith
line_ends env invite key works false signs text rest = ground arith

module _ (env : Env) (invite : SignalMessage) (key : Text) (works : Bool) where
  to_Agreed :
      (es : List Event)
      → answers env invite works (answer_loop env invite key es) ≡ true
      → Agreed env invite works es
  unfolding answer_loop accepts
  to_Agreed [] h = ground arith
  to_Agreed (Inviting.context_done ∷ es) h = ground arith
  to_Agreed (Inviting.signals_failed ∷ es) h = ground arith
  to_Agreed (Inviting.line_failed ∷ es) h = ground arith
  to_Agreed (Inviting.input_closed sent ∷ es) h = ground arith
  to_Agreed (Inviting.message m ∷ es) h =
      if_intro
        (λ x.
          answers env invite works (after x (answer_loop env invite key es)) ≡ true
          → Agreed env invite works (Inviting.message m ∷ es))
        (text_eq m.call_id invite.call_id && is_over m.type) _ _ (λ _ k. ground arith)
        (λ idle k.
          waits (Inviting.message m) es (ground (arith, is_over-calls_off m.type)) (to_Agreed es k))
        h
  to_Agreed (Inviting.line text signs sent ∷ es) h =
      let said =
        sym (answers-line env invite key works sent signs text)
        ∙ sym (line_ends env invite key works sent signs text (answer_loop env invite key es))
        ∙ h in
      rw (← same_bool-eq sent works (ground (arith, said)))
        (agrees text signs es ((says_yes_iff text).0 (ground (arith, said))) (ground (arith, said)))

  of_Agreed :
      (es : List Event)
      → Agreed env invite works es
      → answers env invite works (answer_loop env invite key es) ≡ true
  unfolding answer_loop
  of_Agreed [] h = elim h [ ]
  of_Agreed (_ ∷ _) (agrees text signs es agreed signed) =
      line_ends env invite key works works signs text (answer_loop env invite key es)
      ∙ answers-line env invite key works works signs text
      ∙ rw ((says_yes_iff text).1 agreed, signed, same_bool_refl works) refl
  of_Agreed (_ ∷ _) (waits (Inviting.message m) es idle rest) =
      if_intro (λ x. answers env invite works (after x (answer_loop env invite key es)) ≡ true)
        (text_eq m.call_id invite.call_id && is_over m.type) _ _
        (λ over. ground (arith, is_over-calls_off m.type, over))
        (λ goes_on.
          answers-after env invite works [] (answer_loop env invite key es) (unfold accepts in refl)
          ∙ of_Agreed es rest)
  of_Agreed (_ ∷ _) (waits e es idle rest) = ground arith

module _ (env : Env) (invite : SignalMessage) (works : Bool) where
  accepts-warning :
      (reused : List Text) (did : List Action)
      → accepts env invite (warning reused ++ did) ≡ accepts env invite did
  unfolding accepts
  accepts-warning [] did = refl
  accepts-warning (other ∷ reused) did = refl

  answers-answer_observed :
      (es : List Event) (key : Text) (r : TrustRecord) (reused : List Text)
      → answers env invite works (answer_observed env invite es (observed key r reused))
        ≡ (not r.blocked && answers env invite works (answer_loop env invite key es))
  unfolding accepts
  answers-answer_observed es key r reused =
      if_intro
        (λ (x : List Action × Option End).
          answers env invite works x
          ≡ (not r.blocked && answers env invite works (answer_loop env invite key es)))
        r.blocked _ _
        (λ t. ground (
          arith,
          t,
          accepts-warning reused (Inviting.send call_decline invite.from invite.call_id ∷ []),
        ))
        (λ t.
          answers-after env invite works
            (warning reused ++ Inviting.show_trust r ∷ Inviting.notice ∷ Inviting.prompt ∷ [])
            (answer_loop env invite key es)
            (accepts-warning reused
              (Inviting.show_trust r ∷ Inviting.notice ∷ Inviting.prompt ∷ []))
          ∙ ground (arith, t))

-- An acceptance of the call is handed over for the inviter exactly if the invitation has a fresh proof by
-- a key that is not blocked, the trust store works, and the first thing that happens is that the
-- user answers yes and the answer can be signed. If the server then takes it (`works`), the session of
-- a callee is begun; if not, the answer ends with that error.
pub answer_invitation_iff :
    (env : Env) (invite : SignalMessage) (works : Bool) (es : List Event) (keys : Keys)
    → (answers env invite works (answer_invitation env invite es keys).1 ≡ true)
      ↔ Consent env invite works es keys
unfolding answer_invitation
answer_invitation_iff env invite works es keys = (
  from (verify_and_observe env invite keys).1 refl (observed-KeepsBlock env invite keys),
  λ c.
      accepted c (verify_and_observe env invite keys).1
        ((observed_iff env invite keys c.key).1 c.vouched) (observed-KeepsBlock env invite keys),
)
  where
    Sends : List Action × Option End → Type 0
    Sends x = answers env invite works x ≡ true

    from :
        (o : Observation)
        → (verify_and_observe env invite keys).1 ≡ o
        → KeepsBlock env keys o
        → Sends (answer_observed env invite es o)
        → Consent env invite works es keys
    from rejected e b h = unfold accepts in ground arith
    from (observed key r reused) e b h =
        let both = sym (answers-answer_observed env invite works es key r reused) ∙ h in
        record {
          key = key;
          vouched = (observed_iff env invite keys key).0 (rw e refl);
          unblocked = sym b ∙ ground (arith, both);
          agreed = to_Agreed env invite key works es (ground (arith, both));
        }

    accepted :
        (c : Consent env invite works es keys) (o : Observation)
        → Observes env keys c.key o
        → KeepsBlock env keys o
        → Sends (answer_observed env invite es o)
    accepted c rejected s b = absurd s
    accepted c (observed key r reused) s b =
        answers-answer_observed env invite works es key r reused
        ∙ rw (b, s, c.unblocked, of_Agreed env invite c.key works es c.agreed) refl

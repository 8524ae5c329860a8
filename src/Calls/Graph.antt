-- ===== src/Calls/Graph.antt =====
-- The life of a call as a diagram: which message of which participant moves a call between which
-- states, and that `Transition` follows it and nothing else.
use go_cli_messenger.Common.{
  ℕ, ◌≡◌, ◌≢◌, refl, subst, inl, inr, true, some, ◌<◌, arith, Text, text_eq, text_eq_iff, lookup,
  insert, lookup-insert_self, lookup-insert_ne, Bool-cases, Option-cases,
}
use go_cli_messenger.Protocol.Signal.{
  SignalType, call_accept, call_decline, call_cancel, call_end, webrtc_offer, webrtc_answer,
  webrtc_ice, webrtc_ice_complete, max_ice_candidates,
}
use go_cli_messenger.Calls.Invariant.{Inv}
use go_cli_messenger.Calls.{
  Call, State, Manager, Result, ok, err, Error, ringing, accepted, negotiating, connected, declined,
  cancelled, ended, is_established, fits, other, apply, transition, transition_at,
}

-- The participant that acts.
pub data Role : Type 0 where
  as_caller as_callee : Role

pub data Live : State → Type 0 where
  live_accepted : Live accepted
  live_negotiating : Live negotiating
  live_connected : Live connected

pub data Edge : SignalType → Role → State → State → Type 0 where
  accept : Edge call_accept as_callee ringing accepted
  decline : Edge call_decline as_callee ringing declined
  cancel : Edge call_cancel as_caller ringing cancelled
  offer : Edge webrtc_offer as_caller accepted negotiating
  restart : Edge webrtc_offer as_caller connected negotiating
  answer : Edge webrtc_answer as_callee negotiating connected
  candidate : {r : Role} {s : State} → Live s → Edge webrtc_ice r s s
  gathered : {r : Role} {s : State} → Live s → Edge webrtc_ice_complete r s s
  hang_up : {r : Role} {s : State} → Live s → Edge call_end r s ended

ruleset edges = (
  accept, decline, cancel, offer, restart, answer, candidate, gathered, hang_up, live_accepted,
  live_negotiating, live_connected,
)

abbrev pub Plays : Role → Call → Text → Text → Type 0
Plays as_caller c actor recipient = (actor ≡ c.caller) × (recipient ≡ c.callee)
Plays as_callee c actor recipient = (actor ≡ c.callee) × (recipient ≡ c.caller)

-- What stays of a call when a message moves it.
pub record SameCall (c d : Call) : Type 0 where
  pub same_id : d.id ≡ c.id
  pub same_caller : d.caller ≡ c.caller
  pub same_callee : d.callee ≡ c.callee
  pub same_created : d.created_at ≡ c.created_at

abbrev pub Moved : SignalType → Text → Text → Text → Manager → Manager → Call → Type 0
Moved type call_id actor recipient m n d =
    (c : Call) × (r : Role) × (lookup call_id m.calls ≡ some c)
    × Plays r c actor recipient
    × Edge type r c.state d.state
    × SameCall c d
    × (lookup call_id n.calls ≡ some d)

role_of :
    (c : Call) (actor recipient : Text)
    → fits (other c actor) recipient ≡ true
    → (r : Role) × Plays r c actor recipient
unfolding other
role_of c actor recipient h = elim (Bool-cases (text_eq actor c.caller)) [
  | inl t ↦ (
    as_caller,
    (ground (arith, text_eq_iff actor c.caller), ground (arith, text_eq_iff c.callee recipient)),
  )
  | inr f ↦ (
    as_callee,
    (
      ground (arith, text_eq_iff actor c.callee),
      ground (arith, text_eq_iff c.caller recipient, text_eq_iff actor c.callee),
    ),
  )
]

module _ (id actor recipient : Text) (now : ℕ) (c : Call) (m n : Manager) (d : Call) where
  stored :
      (type : SignalType) → apply type id actor now c m ≡ (n, ok d) → n.calls ≡ insert id d m.calls
  unfolding apply
  stored call_accept e = ground arith
  stored type e = ground arith

module _ (id actor recipient : Text) (now : ℕ) (c : Call) (m n : Manager) (d : Call)
    (apart : c.caller ≢ c.callee) where
  apply-Edge :
      (type : SignalType) (r : Role)
      → Plays r c actor recipient
      → apply type id actor now c m ≡ (n, ok d)
      → Edge type r c.state d.state
  unfolding apply
  apply-Edge call_accept r p e =
      grind (arith, edges, text_eq_iff actor c.caller, text_eq_iff actor c.callee)
  apply-Edge type r p e =
      grind (arith, edges, text_eq_iff actor c.caller, text_eq_iff actor c.callee)

  apply-stored :
      (type : SignalType) → apply type id actor now c m ≡ (n, ok d) → n.calls ≡ insert id d m.calls
  apply-stored type e = stored id actor recipient now c m n d type e

  apply-SameCall : (type : SignalType) → apply type id actor now c m ≡ (n, ok d) → SameCall c d
  unfolding apply
  apply-SameCall call_accept e = ground arith
  apply-SameCall type e = ground arith

module _ (type : SignalType) (call_id actor recipient : Text) (now : ℕ) (m : Manager) where
  -- A message that is accepted moves the call that it names along an edge of the diagram; its
  -- sender and its addressee are the two participants, in the role that the edge asks for. The
  -- identity of the call stays, and the map holds the call that is returned.
  pub transition-Moved :
      (n : Manager) (d : Call)
      → Inv m
      → transition type call_id actor recipient now m ≡ (n, ok d)
      → Moved type call_id actor recipient m n d
  unfolding transition
  transition-Moved n d v e = elim (Option-cases (lookup call_id m.calls)) [
    | inl gone ↦
        cc (subst (λ o. transition_at o type call_id actor recipient now m ≡ (n, ok d)) gone e)
    | inr (c, held) ↦
        moved c held
          (subst (λ o. transition_at o type call_id actor recipient now m ≡ (n, ok d)) held e)
  ]
    where
      moved :
          (c : Call)
          → lookup call_id m.calls ≡ some c
          → transition_at (some c) type call_id actor recipient now m ≡ (n, ok d)
          → Moved type call_id actor recipient m n d
      moved c held h = elim (Bool-cases (fits (other c actor) recipient)) [
        | inr no_fit ↦ ground arith
        | inl fit ↦
            let (r, plays) = role_of c actor recipient fit in
            let h' : apply type call_id actor now c m ≡ (n, ok d) = ground arith in
            (
              c,
              r,
              held,
              plays,
              apply-Edge call_id actor recipient now c m n d (v.calls_ok call_id c held).distinct
                  type r plays h',
              apply-SameCall call_id actor recipient now c m n d
                  (v.calls_ok call_id c held).distinct type h',
              rw
                  (apply-stored call_id actor recipient now c m n d
                    (v.calls_ok call_id c held).distinct type h')
                  (lookup-insert_self call_id d m.calls),
            )
      ]

  apply_refused :
      (c : Call) (n : Manager) (x : Error) → apply type call_id actor now c m ≡ (n, err x) → n ≡ m
  unfolding apply
  apply_refused c n x e = ground arith

  -- A message that is refused, for whatever reason, changes nothing.
  pub transition_refused :
      (n : Manager) (x : Error) → transition type call_id actor recipient now m ≡ (n, err x) → n ≡ m
  unfolding transition transition_at
  transition_refused n x e = elim (Option-cases (lookup call_id m.calls)) [
    | inl gone ↦ ground arith
    | inr (c, held) ↦ ground (arith, apply_refused c n x)
  ]

module _ (type : SignalType) (call_id actor recipient : Text) (now : ℕ) (m n : Manager)
    (d : Call) where
  -- A message touches no call but the one that it names.
  pub transition_frame :
      (j : Text)
      → call_id ≢ j
      → transition type call_id actor recipient now m ≡ (n, ok d)
      → lookup j n.calls ≡ lookup j m.calls
  unfolding transition transition_at
  transition_frame j h e = elim (Option-cases (lookup call_id m.calls)) [
    | inl gone ↦ absurd (ground arith)
    | inr (c, held) ↦
        rw (stored call_id actor recipient now c m n d type (ground arith))
          (lookup-insert_ne call_id j d m.calls h)
  ]

abbrev pub budget : Role → Call → ℕ
budget as_caller c = c.caller_candidates
budget as_callee c = c.callee_candidates

abbrev pub Reaches : State → Manager × Result Call → Type 0
Reaches t (n, ok d) = d.state ≡ t
Reaches t (n, err x) = ⊥

Live-established : {s : State} → Live s → is_established s ≡ true
Live-established live_accepted = refl
Live-established live_negotiating = refl
Live-established live_connected = refl

module _ (call_id actor recipient : Text) (now : ℕ) (m : Manager) (c : Call) where
  apply-Reaches :
      {type : SignalType} {r : Role} {s t : State}
      → Edge type r s t
      → s ≡ c.state
      → Plays r c actor recipient
      → c.caller ≢ c.callee
      → budget r c < max_ice_candidates
      → Reaches t (apply type call_id actor now c m)
  unfolding apply
  apply-Reaches accept e p h b = ground (arith, text_eq_iff actor c.callee)
  apply-Reaches decline e p h b = ground (arith, text_eq_iff actor c.callee)
  apply-Reaches cancel e p h b = ground (arith, text_eq_iff actor c.caller)
  apply-Reaches offer e p h b = ground (arith, text_eq_iff actor c.caller)
  apply-Reaches restart e p h b = ground (arith, text_eq_iff actor c.caller)
  apply-Reaches answer e p h b = ground (arith, text_eq_iff actor c.callee)
  apply-Reaches (candidate {r = as_caller} l) e p h b =
      ground (arith, Live-established l, text_eq_iff actor c.caller)
  apply-Reaches (candidate {r = as_callee} l) e p h b =
      ground (arith, Live-established l, text_eq_iff actor c.caller)
  apply-Reaches (gathered l) e p h b = ground (arith, Live-established l)
  apply-Reaches (hang_up l) e p h b = ground (arith, Live-established l)

  Plays-fits :
      (r : Role)
      → Plays r c actor recipient
      → c.caller ≢ c.callee
      → fits (other c actor) recipient ≡ true
  unfolding other
  Plays-fits as_caller p h =
      ground (arith, text_eq_iff actor c.caller, text_eq_iff c.callee recipient)
  Plays-fits as_callee p h = ground (
    arith,
    text_eq_iff actor c.caller,
    text_eq_iff actor c.callee,
    text_eq_iff c.caller recipient,
  )

  -- Every edge of the diagram can be taken: from a call in its first state, by the participant in
  -- its role, who addresses the other one and has sent fewer than 256 candidates, the message is
  -- accepted and leaves the call in the edge's second state.
  pub transition-Reaches :
      {type : SignalType} {r : Role} {t : State}
      → Inv m
      → lookup call_id m.calls ≡ some c
      → Plays r c actor recipient
      → Edge type r c.state t
      → budget r c < max_ice_candidates
      → Reaches t (transition type call_id actor recipient now m)
  unfolding transition transition_at
  transition-Reaches {type} {r} {t} v held p e b =
      rw (held, Plays-fits r p (v.calls_ok call_id c held).distinct)
        (apply-Reaches e refl p (v.calls_ok call_id c held).distinct b)

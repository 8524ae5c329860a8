-- ===== src/Peer/Negotiation/Roles.antt =====
-- Who offers and who answers: the caller and the callee never cross.
use go_cli_messenger.Common.{
  ◌≡◌, ◌≢◌, ◌⊎◌, inl, inr, refl, subst, if_intro, Bool, true, false, not, Option, none, some, List,
  [], ◌∷◌, ◌++◌, all_of, Text, arith,
}
use go_cli_messenger.Peer.Negotiation.{
  Role, caller, callee, SdpType, offer, answer, other, Description, Signal, Call, create_offer,
  create_answer, set_local, set_remote, add_candidate, Result, ok, err, WebRtc, Peer, new_peer,
  called, emit_signal, on_candidate, emit_local, set_local_and_emit, create_an_offer, offer_as,
  start_offer, add_one, add_all, flush_candidates, apply_candidate, answer_offer, expects,
  apply_description, apply_one, apply_signal,
}

-- The descriptions of the other side that each side may take.
abbrev pub may_take : Role → SdpType → Bool
may_take caller offer = false
may_take caller answer = true
may_take callee offer = true
may_take callee answer = false
may_take role other = false

-- What each side may ask of the connection.
abbrev pub in_role : Role → Call → Bool
in_role caller (create_offer restart) = true
in_role caller create_answer = false
in_role callee (create_offer restart) = false
in_role callee create_answer = true
in_role role (set_remote d) = may_take role d.type
in_role role (set_local d) = true
in_role role (add_candidate c) = true

-- What happens to a peer.
pub data Op : Type 0 where
  signal : Signal → Op
  begin : Bool → Op
  gathered : Option Text → Op
  close : Op

module _ (w : WebRtc) where
  unfoldable pub step : Op → Peer → Peer
  step (signal s) p = (apply_signal w s p).0
  step (begin restart) p = (start_offer w restart p).0
  step (gathered c) p = on_candidate c p
  step close p = record p { is_closed = true }

  unfoldable pub run : List Op → Peer → Peer
  unfolding step
  run [] p = p
  run (o ∷ ops) p = run ops (step o p)

  module _ (role : Role) where
    record InRole (p : Peer) : Type 0 where
      same : p.role ≡ role
      calls : all_of (in_role role) p.calls ≡ true

    abbrev Both : Peer × Result → Type 0
    Both x = InRole x.0

    all_of-snoc :
        (cs : List Call) (c : Call)
        → all_of (in_role role) cs ≡ true
        → in_role role c ≡ true
        → all_of (in_role role) (cs ++ c ∷ []) ≡ true
    all_of-snoc [] c h k = ground arith
    all_of-snoc (x ∷ cs) c h k = ground (arith, all_of-snoc cs c)

    called-InRole : (c : Call) (p : Peer) → InRole p → in_role role c ≡ true → InRole (called c p)
    called-InRole c p v h = record { same = v.same; calls = all_of-snoc p.calls c v.calls h }

    emit_signal-InRole : (s : Signal) (p : Peer) → InRole p → Both (emit_signal s p)
    unfolding emit_signal
    emit_signal-InRole s p v =
        if_intro Both p.is_closed _ _ (λ _. v) (λ _. record { same = v.same; calls = v.calls })

    set_local_and_emit-InRole :
        (d : Option Description) (c : Call) (p : Peer)
        → InRole p
        → in_role role c ≡ true
        → Both (set_local_and_emit w d c p)
    unfolding set_local_and_emit
    set_local_and_emit-InRole none c p v h = called-InRole c p v h
    set_local_and_emit-InRole (some d) c p v h =
        if_intro Both (w.sets_local (called c p).calls d) _ _
          (λ _. emitted (w.local (called (set_local d) (called c p)).calls)) (λ _. second)
      where
        second : InRole (called (set_local d) (called c p))
        second = called-InRole (set_local d) (called c p) (called-InRole c p v h) refl

        emitted :
            (l : Option Description) → Both (emit_local w l (called (set_local d) (called c p)))
        emitted none = second
        emitted (some l) = emit_signal-InRole _ _ second

    add_all-InRole : (cs : List Text) (p : Peer) → InRole p → Both (add_all w cs p)
    unfolding add_all add_one
    add_all-InRole [] p v = v
    add_all-InRole (c ∷ cs) p v =
        if_intro Both (w.adds p.calls c) _ _
          (λ _.
            add_all-InRole cs (called (add_candidate c) p)
              (called-InRole (add_candidate c) p v refl))
          (λ bad. rw bad (called-InRole (add_candidate c) p v refl))

    answer_offer-InRole :
        (type : SdpType) (x : Peer × Result)
        → (in_role role create_answer ≡ true) ⊎ (type ≢ offer)
        → Both x
        → Both (answer_offer w type x)
    unfolding answer_offer
    answer_offer-InRole offer (p, ok) (inl h) v = set_local_and_emit-InRole _ create_answer p v h
    answer_offer-InRole offer (p, ok) (inr h) v = absurd (h refl)
    answer_offer-InRole offer (p, err e) h v = v
    answer_offer-InRole answer (p, r) h v = v
    answer_offer-InRole other (p, r) h v = v

    apply_description-InRole :
        (d : Description) (p : Peer) → InRole p → Both (apply_description w d p)
    unfolding apply_description flush_candidates
    apply_description-InRole d p v =
        if_intro Both (not (expects p.role d.type)) _ _ (λ _. v)
          (λ h.
            let fits : expects role d.type ≡ true =
              subst (λ r. expects r d.type ≡ true) v.same (ground arith) in
            let asked = called-InRole (set_remote d) p v (by_role role d fits) in
            if_intro Both (w.sets_remote p.calls d) _ _
              (λ _.
                answer_offer-InRole d.type _ (answers role d.type fits)
                  (add_all-InRole p.pending _ (record { same = asked.same; calls = asked.calls })))
              (λ _. asked))
      where
        taken : (r : Role) (t : SdpType) → expects r t ≡ true → may_take r t ≡ true
        taken callee offer h = refl
        taken callee answer h = ground arith
        taken callee other h = ground arith
        taken caller offer h = ground arith
        taken caller answer h = refl
        taken caller other h = ground arith

        by_role :
            (r : Role) (d : Description) → expects r d.type ≡ true → in_role r (set_remote d) ≡ true
        by_role caller d h = taken caller d.type h
        by_role callee d h = taken callee d.type h

        answers :
            (r : Role) (type : SdpType)
            → expects r type ≡ true
            → (in_role r create_answer ≡ true) ⊎ (type ≢ offer)
        answers callee type h = inl refl
        answers caller offer h = cc
        answers caller answer h = inr (λ e. cc)
        answers caller other h = cc

    apply_one-InRole :
        (d : Option Description) (c : Option Text) (complete : Bool) (p : Peer)
        → InRole p
        → Both (apply_one w d c complete p)
    unfolding apply_candidate add_one
    apply_one-InRole none none true p v = v
    apply_one-InRole none none false p v = v
    apply_one-InRole none (some c) true p v = v
    apply_one-InRole none (some c) false p v =
        if_intro Both (not p.remote_description) _ _
          (λ _. record { same = v.same; calls = v.calls })
          (λ _.
            if_intro Both (w.adds p.calls c) _ _ (λ _. called-InRole (add_candidate c) p v refl)
              (λ _. called-InRole (add_candidate c) p v refl))
    apply_one-InRole (some d) none true p v = v
    apply_one-InRole (some d) none false p v = apply_description-InRole d p v
    apply_one-InRole (some d) (some c) complete p v = v

    step-InRole : (o : Op) (p : Peer) → InRole p → InRole (step o p)
    unfolding step apply_signal start_offer create_an_offer on_candidate
    step-InRole (signal s) p v =
        if_intro Both p.is_closed _ _ (λ _. v)
          (λ _. apply_one-InRole s.description s.candidate s.ice_complete p v)
    step-InRole (begin restart) p v = begun p.role v.same
      where
        begun : (r : Role) → r ≡ role → Both (offer_as w r restart p)
        begun callee e = v
        begun caller e =
            if_intro Both p.is_closed _ _ (λ _. v)
              (λ _.
                set_local_and_emit-InRole _ (create_offer restart) p v
                  (subst (λ k. in_role k (create_offer restart) ≡ true) e refl))
    step-InRole (gathered none) p v = emit_signal-InRole _ p v
    step-InRole (gathered (some c)) p v = emit_signal-InRole _ p v
    step-InRole close p v = record { same = v.same; calls = v.calls }

    run-InRole : (ops : List Op) (p : Peer) → InRole p → InRole (run ops p)
    unfolding run
    run-InRole [] p v = v
    run-InRole (o ∷ ops) p v = run-InRole ops (step o p) (step-InRole o p v)

  -- Whatever comes from the other side and however the connection answers, a caller creates only
  -- offers and sets only answers as the remote description; a callee creates only answers and sets
  -- only offers.
  pub run-new_peer-InRole :
      (role : Role) (ops : List Op) → all_of (in_role role) (run ops (new_peer role)).calls ≡ true
  run-new_peer-InRole role ops =
      (run-InRole role ops (new_peer role) (record { same = refl; calls = refl })).calls

-- ===== src/Peer/Negotiation/Ordered.antt =====
-- In which order the candidates of the other side reach the WebRTC connection.
use mathlib.Core.List.{append_assoc, append-nil}
use go_cli_messenger.Common.{
  ◌≡◌, refl, sym, ap, subst, if_intro, ◌∙◌, inl, inr, Bool, true, false, not, Bool-cases, Option,
  none, some, List, [], ◌∷◌, ◌++◌, Text, arith,
}
use go_cli_messenger.Peer.Negotiation.{
  Role, SdpType, offer, answer, other, Description, Signal, no_signal, Call, create_offer,
  create_answer, set_local, set_remote, add_candidate, Result, ok, err, WebRtc, Peer, new_peer,
  is_ok, apply_signals, called, emit_signal, emit_local, set_local_and_emit, add_one, add_all,
  flush_candidates, apply_candidate, answer_offer, expects, apply_description, apply_one,
  apply_signal,
}

is_ok-ok : (r : Result) → is_ok r ≡ true → r ≡ ok
is_ok-ok ok h = refl
is_ok-ok (err e) h = cc

-- The candidates that a signal carries.
abbrev pub carried : Option Text → List Text
carried none = []
carried (some c) = c ∷ []

-- The candidates among the calls, in their order.
unfoldable pub candidates : List Call → List Text
candidates [] = []
candidates (add_candidate c ∷ cs) = c ∷ candidates cs
candidates (x ∷ cs) = candidates cs

pub candidates-append : (xs ys : List Call) → candidates (xs ++ ys) ≡ candidates xs ++ candidates ys
unfolding candidates
candidates-append [] ys = refl
candidates-append (create_offer r ∷ xs) ys = candidates-append xs ys
candidates-append (create_answer ∷ xs) ys = candidates-append xs ys
candidates-append (set_local d ∷ xs) ys = candidates-append xs ys
candidates-append (set_remote d ∷ xs) ys = candidates-append xs ys
candidates-append (add_candidate c ∷ xs) ys = ap (◌∷◌ c) (candidates-append xs ys)

unfoldable pub all_carried : List Signal → List Text
all_carried [] = []
all_carried (s ∷ ss) = carried s.candidate ++ all_carried ss

module _ (w : WebRtc) where
  -- The calls in which no candidate is given before a remote description is in place; the flag says
  -- whether one is.
  pub data Sound : List Call → Bool → Type 0 where
    start : Sound [] false
    described :
        {cs : List Call} {k : Bool} (d : Description)
        → Sound cs k
        → w.sets_remote cs d ≡ true
        → Sound (cs ++ set_remote d ∷ []) true
    not_described :
        {cs : List Call} {k : Bool} (d : Description)
        → Sound cs k
        → w.sets_remote cs d ≡ false
        → Sound (cs ++ set_remote d ∷ []) k
    added : {cs : List Call} (c : Text) → Sound cs true → Sound (cs ++ add_candidate c ∷ []) true
    offered :
        {cs : List Call} {k : Bool} (restart : Bool)
        → Sound cs k
        → Sound (cs ++ create_offer restart ∷ []) k
    answered : {cs : List Call} {k : Bool} → Sound cs k → Sound (cs ++ create_answer ∷ []) k
    set :
        {cs : List Call} {k : Bool} (d : Description)
        → Sound cs k
        → Sound (cs ++ set_local d ∷ []) k

  -- No candidate waits once a description is in place.
  pub record Inv (p : Peer) : Type 0 where
    pub sound : Sound p.calls p.remote_description
    pub drained : p.remote_description ≡ true → p.pending ≡ []

  -- The candidates that have come: those given to the connection, and those that wait.
  abbrev pub received : Peer → List Text
  received p = candidates p.calls ++ p.pending

  -- A step that concerns the local side only.
  record Local (p q : Peer) : Type 0 where
    inv : Inv q
    same : received q ≡ received p

  silent-candidates :
      (c : Call) (p : Peer)
      → candidates (c ∷ []) ≡ []
      → candidates (p.calls ++ c ∷ []) ≡ candidates p.calls
  silent-candidates c p e =
      candidates-append p.calls (c ∷ []) ∙ rw e (append-nil (candidates p.calls))

  called-Local :
      (c : Call) (p : Peer)
      → Inv p
      → Sound (p.calls ++ c ∷ []) p.remote_description
      → candidates (c ∷ []) ≡ []
      → Local p (called c p)
  called-Local c p v s e = record {
    inv = record { sound = s; drained = v.drained };
    same = ap (λ cs. cs ++ p.pending) (silent-candidates c p e);
  }

  Local-trans : {p q r : Peer} → Local p q → Local q r → Local p r
  Local-trans v u = record { inv = u.inv; same = u.same ∙ v.same }

  emit_signal-Local : (s : Signal) (p : Peer) → Inv p → Local p (emit_signal s p).0
  unfolding emit_signal
  emit_signal-Local s p v =
      if_intro (λ (x : Peer × Result). Local p x.0) p.is_closed _ _
        (λ c. record { inv = v; same = refl })
        (λ c. record { inv = record { sound = v.sound; drained = v.drained }; same = refl })

  emit_local-Local : (d : Option Description) (p : Peer) → Inv p → Local p (emit_local w d p).0
  unfolding emit_local
  emit_local-Local none p v = record { inv = v; same = refl }
  emit_local-Local (some d) p v = emit_signal-Local (record no_signal { description = some d }) p v

  set_local_and_emit-Local :
      (d : Option Description) (c : Call) (p : Peer)
      → Inv p
      → Sound (p.calls ++ c ∷ []) p.remote_description
      → candidates (c ∷ []) ≡ []
      → Local p (set_local_and_emit w d c p).0
  unfolding set_local_and_emit
  set_local_and_emit-Local none c p v s e = called-Local c p v s e
  set_local_and_emit-Local (some d) c p v s e =
      let first = called-Local c p v s e in
      let second =
        called-Local (set_local d) (called c p) first.inv (set d s) (unfold candidates in refl) in
      elim (Bool-cases (w.sets_local (p.calls ++ c ∷ []) d)) [
        | inl done ↦
            rw done (Local-trans (Local-trans first second) (emit_local-Local _ _ second.inv))
        | inr bad ↦ rw bad (Local-trans first second)
      ]

  -- What an operation leaves: the invariant, and where it succeeds the candidates received, in order.
  abbrev pub Kept : Peer → List Text → Peer × Result → Type 0
  Kept p new (q, r) = Inv q × (r ≡ ok → received q ≡ received p ++ new)

  Local-Kept : {p q : Peer} (r : Result) → Local p q → Kept p [] (q, r)
  Local-Kept {p} r v = (v.inv, λ e. v.same ∙ sym (append-nil (received p)))

  module _ (c : Text) (p : Peer) (s : Sound p.calls true) (k : p.remote_description ≡ true)
      (e : p.pending ≡ []) where
    added-Inv : Inv (called (add_candidate c) p)
    added-Inv = record {
      sound = subst (Sound (p.calls ++ add_candidate c ∷ [])) (sym k) (added c s);
      drained = λ _. e;
    }

    added-received : received (called (add_candidate c) p) ≡ received p ++ c ∷ []
    added-received = rw e (
        append-nil (candidates (p.calls ++ add_candidate c ∷ []))
        ∙ candidates-append p.calls (add_candidate c ∷ [])
        ∙ rw (append-nil (candidates p.calls)) (unfold candidates in refl))

    add_one-Kept : Kept p (c ∷ []) (add_one w c p)
    unfolding add_one
    add_one-Kept =
        if_intro (Kept p (c ∷ [])) (w.adds p.calls c) _ _ (λ _. (added-Inv, λ _. added-received))
          (λ _. (added-Inv, λ x. added-received))

  add_all-Kept :
      (cs : List Text) (p : Peer)
      → Sound p.calls true
      → p.remote_description ≡ true
      → p.pending ≡ []
      → Kept p cs (add_all w cs p)
  unfolding add_all add_one
  add_all-Kept [] p s k e = (
    record { sound = subst (Sound p.calls) (sym k) s; drained = λ _. e },
    λ _. sym (append-nil (received p)),
  )
  add_all-Kept (c ∷ cs) p s k e =
      let (v, h) = add_all-Kept cs (called (add_candidate c) p) (added c s) k e in
      if_intro (Kept p (c ∷ cs)) (w.adds p.calls c) _ _
        (λ _. (v, λ x. h x ∙ rw (added-received c p s k e) (append_assoc (received p) (c ∷ []) cs)))
        (λ bad. ((add_one-Kept c p s k e).0, rw bad (λ x. cc)))

  flush_candidates-Kept : (p : Peer) → Sound p.calls true → Kept p [] (flush_candidates w p)
  unfolding flush_candidates
  flush_candidates-Kept p s =
      let (v, h) =
        add_all-Kept p.pending (record p { remote_description = true; pending = [] }) s refl refl in
      (v, λ x. h x ∙ rw (append-nil (candidates p.calls)) (sym (append-nil (received p))))

  apply_candidate-Kept : (c : Text) (p : Peer) → Inv p → Kept p (c ∷ []) (apply_candidate w c p)
  unfolding apply_candidate
  apply_candidate-Kept c p v =
      if_intro (Kept p (c ∷ [])) (not p.remote_description) _ _
        (λ no_one. (
          record { sound = v.sound; drained = λ k. ground arith },
          λ _. sym (append_assoc (candidates p.calls) p.pending (c ∷ [])),
        ))
        (λ there.
          add_one-Kept c p (subst (Sound p.calls) (ground arith) v.sound) (ground arith)
            (v.drained (ground arith)))

  answer_offer-Kept :
      (p : Peer) (type : SdpType) (x : Peer × Result)
      → Kept p [] x
      → Kept p [] (answer_offer w type x)
  unfolding answer_offer
  answer_offer-Kept p offer (q, ok) (v, h) =
      let l =
        set_local_and_emit-Local (w.answers q.calls) create_answer q v (answered v.sound)
          (unfold candidates in refl) in
      (l.inv, λ _. l.same ∙ h refl)
  answer_offer-Kept p offer (q, err e) h = h
  answer_offer-Kept p answer (q, r) h = h
  answer_offer-Kept p other (q, r) h = h

  apply_description-Kept :
      (d : Description) (p : Peer) → Inv p → Kept p [] (apply_description w d p)
  unfolding apply_description
  apply_description-Kept d p v =
      if_intro (Kept p []) (not (expects p.role d.type)) _ _ (λ _. (v, λ x. cc))
        (λ _.
          if_intro (Kept p []) (w.sets_remote p.calls d) _ _
            (λ y. answer_offer-Kept p d.type (flush_candidates w (called (set_remote d) p)) (
              let (u, h) =
                flush_candidates-Kept (called (set_remote d) p) (described d v.sound y) in
              (
                u,
                λ x.
                    h x
                    ∙ ap (λ cs. (cs ++ p.pending) ++ [])
                        (silent-candidates (set_remote d) p (unfold candidates in refl)),
              )))
            (λ n. (record { sound = not_described d v.sound n; drained = v.drained }, λ x. cc)))

  apply_one-Kept :
      (d : Option Description) (c : Option Text) (complete : Bool) (p : Peer)
      → Inv p
      → Kept p (carried c) (apply_one w d c complete p)
  apply_one-Kept none none true p v = (v, λ _. sym (append-nil (received p)))
  apply_one-Kept none none false p v = (v, λ x. cc)
  apply_one-Kept none (some c) true p v = (v, λ x. cc)
  apply_one-Kept none (some c) false p v = apply_candidate-Kept c p v
  apply_one-Kept (some d) none true p v = (v, λ x. cc)
  apply_one-Kept (some d) none false p v = apply_description-Kept d p v
  apply_one-Kept (some d) (some c) complete p v = (v, λ x. cc)

  apply_signal-Kept :
      (s : Signal) (p : Peer) → Inv p → Kept p (carried s.candidate) (apply_signal w s p)
  unfolding apply_signal
  apply_signal-Kept s p v =
      if_intro (Kept p (carried s.candidate)) p.is_closed _ _ (λ _. (v, λ x. cc))
        (λ _. apply_one-Kept s.description s.candidate s.ice_complete p v)

  apply_signals-Kept :
      (ss : List Signal) (p : Peer)
      → Inv p
      → Inv (apply_signals w ss p).0
        × ((apply_signals w ss p).1 ≡ true
            → received (apply_signals w ss p).0 ≡ received p ++ all_carried ss)
  unfolding apply_signals all_carried
  apply_signals-Kept [] p v = (v, λ _. sym (append-nil (received p)))
  apply_signals-Kept (s ∷ ss) p v =
      let (u, h) = apply_signal-Kept s p v in
      let (t, g) = apply_signals-Kept ss (apply_signal w s p).0 u in
      (
        t,
        λ x.
            g (ground arith)
            ∙ rw (h (is_ok-ok (apply_signal w s p).1 (ground arith)))
                (append_assoc (received p) (carried s.candidate) (all_carried ss)),
      )

  -- However the WebRTC connection answers, no candidate is given to it before a remote description
  -- is in place, and none waits after that; and as long as every signal is applied without an error,
  -- the candidates given to it, followed by those that wait, are the ones that came, in their order.
  pub apply_signals-Ordered :
      (ss : List Signal) (role : Role)
      → let (p, good) = apply_signals w ss (new_peer role) in
        Sound p.calls p.remote_description
        × (p.remote_description ≡ true → p.pending ≡ [])
        × (good ≡ true → candidates p.calls ++ p.pending ≡ all_carried ss)
  apply_signals-Ordered ss role =
      let (t, g) =
        apply_signals-Kept ss (new_peer role) (record { sound = start; drained = λ _. refl }) in
      (t.sound, t.drained, unfold candidates in g)

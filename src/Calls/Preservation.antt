-- ===== src/Calls/Preservation.antt =====
-- Every operation of the call manager keeps its invariant.
use go_cli_messenger.Common.{
  ℕ, ◌+◌, ◌≡◌, ◌≢◌, refl, ◌⊎◌, inl, inr, Bool, true, false, ◌&&◌, none, some, List, [], ◌∷◌, arith,
  Text, text_eq, text_eq_iff, lookup, delete, Bool-cases, Option-cases, subst, ◌≤◌, not, leb, ◌==◌,
  keys, if◌then◌else◌,
}
use go_cli_messenger.Protocol.Signal.{
  SignalType, call_accept, call_decline, call_cancel, call_end, webrtc_offer, webrtc_answer,
  webrtc_ice, webrtc_ice_complete,
}
use go_cli_messenger.Calls.{
  Call, Manager, Result, err, invalid_transition, declined, cancelled, ended, timed_out, finished,
  is_terminal, is_ringing, is_negotiating, takes_offer, is_established, store, finish, fits, other,
  apply, transition, invite, add_candidate, expire_one, expire_each, expire, disconnect,
}
use go_cli_messenger.Calls.Invariant.{
  Inv, Owns, CallOk, add_call-Inv, store-Inv, finish-Inv, drop-Inv,
}

pub invite-Inv :
    (call_id caller callee : Text) (now : ℕ) (m : Manager)
    → Inv m
    → Inv (invite call_id caller callee now m).0
unfolding invite
invite-Inv call_id caller callee now m v = elim (Bool-cases (text_eq caller callee)) [
  | inl same ↦ rw same v
  | inr apart ↦ rw apart (elim (Option-cases (lookup call_id m.calls)) [
    | inr (c, e) ↦ rw e v
    | inl fresh ↦ rw fresh (elim (Option-cases (lookup caller m.active)) [
      | inr (c, e) ↦ rw e v
      | inl caller_free ↦ rw caller_free (elim (Option-cases (lookup callee m.active)) [
        | inr (c, e) ↦ rw e v
        | inl callee_free ↦ rw callee_free (
            add_call-Inv m v call_id caller callee now
              (λ e. ground (arith, text_eq_iff caller callee)) fresh caller_free callee_free)
      ])
    ])
  ])
]

module _ (m : Manager) (v : Inv m) (id actor : Text) (now : ℕ) (c : Call)
    (held : lookup id m.calls ≡ some c) where
  -- A branch that is refused leaves the manager alone.
  guarded-Inv :
      (test : Bool) (n : Manager) (r : Result Call)
      → (test ≡ true → Inv n)
      → Inv (if◌then◌else◌ {A = Manager × Result Call} test (n, r) (m, err invalid_transition)).0
  guarded-Inv true n r h = h refl
  guarded-Inv false n r h = v

  change :
      (d : Call)
      → d.caller ≡ c.caller
      → d.callee ≡ c.callee
      → is_terminal c.state ≡ false
      → is_terminal d.state ≡ false
      → CallOk id d
      → Inv (store id d m)
  change d e f r t good = store-Inv m v id c held r d good e f t

  add_candidate-Inv : is_established c.state ≡ true → Inv (add_candidate id actor now c m).0
  unfolding add_candidate
  add_candidate-Inv t = ground (
    arith,
    v.calls_ok id c held,
    change (record c { caller_candidates = c.caller_candidates + 1; updated_at = now }) refl refl,
    change (record c { callee_candidates = c.callee_candidates + 1; updated_at = now }) refl refl,
  )

  pub apply-Inv : (type : SignalType) → Inv (apply type id actor now c m).0
  unfolding apply
  apply-Inv call_accept = guarded-Inv (is_ringing c.state && text_eq actor c.callee) _ _ (λ t.
      change _ refl refl (ground arith) refl
        (ground (arith, v.calls_ok id c held, v.negotiation_pos)))
  apply-Inv call_decline =
      guarded-Inv (is_ringing c.state && text_eq actor c.callee) _ _
        (λ t. finish-Inv m v id c held (ground arith) declined refl now)
  apply-Inv call_cancel =
      guarded-Inv (is_ringing c.state && text_eq actor c.caller) _ _
        (λ t. finish-Inv m v id c held (ground arith) cancelled refl now)
  apply-Inv webrtc_offer = guarded-Inv (takes_offer c.state && text_eq actor c.caller) _ _ (λ t.
      change _ (ground arith) (ground arith) (ground arith) refl
        (ground (arith, v.calls_ok id c held, v.negotiation_pos)))
  apply-Inv webrtc_answer =
      guarded-Inv (is_negotiating c.state && text_eq actor c.callee) _ _
        (λ t. change _ refl refl (ground arith) refl (ground (arith, v.calls_ok id c held)))
  apply-Inv webrtc_ice = elim (Bool-cases (is_established c.state)) [
    | inl t ↦ rw t (add_candidate-Inv t)
    | inr t ↦ rw t v
  ]
  apply-Inv webrtc_ice_complete =
      guarded-Inv (is_established c.state) _ _ (λ t.
        change _ refl refl (ground arith) (ground arith) (ground (arith, v.calls_ok id c held)))
  apply-Inv call_end =
      guarded-Inv (is_established c.state) _ _
        (λ t. finish-Inv m v id c held (ground arith) ended refl now)
  apply-Inv _ = v

pub transition-Inv :
    (type : SignalType) (call_id actor recipient : Text) (now : ℕ) (m : Manager)
    → Inv m
    → Inv (transition type call_id actor recipient now m).0
unfolding transition
transition-Inv type call_id actor recipient now m v = elim (Option-cases (lookup call_id m.calls)) [
  | inl e ↦ rw e v
  | inr (c, e) ↦ rw e (elim (Bool-cases (fits (other c actor) recipient)) [
    | inl t ↦ rw t (apply-Inv m v call_id actor now c e type)
    | inr t ↦ rw t v
  ])
]

-- The three ways in which a turn of the sweep ends.
pub expire_cases {ℓ} :
    (P : Manager × List Call → Type ℓ) (id : Text) (now : ℕ) (m : Manager)
    → P (m, [])
    → ((c : Call)
        → lookup id m.calls ≡ some c
        → is_terminal c.state ≡ true
        → c.cleanup_at ≢ 0
        → c.cleanup_at ≤ now
        → P (record m { calls = delete id m.calls }, []))
    → ((c : Call)
        → lookup id m.calls ≡ some c
        → is_terminal c.state ≡ false
        → c.deadline ≢ 0
        → c.deadline ≤ now
        → P (finish id timed_out now c m, finished timed_out now m c ∷ []))
    → P (expire_one id now m)
unfolding expire_one
expire_cases P id now m keep drop over = elim (Option-cases (lookup id m.calls)) [
  | inl e ↦ rw e keep
  | inr (c, e) ↦ rw e (elim (Bool-cases (is_terminal c.state)) [
    | inl t ↦ rw t (elim (Bool-cases (not (c.cleanup_at == 0) && leb c.cleanup_at now)) [
      | inl due ↦ rw due (drop c e t (ground arith) (ground arith))
      | inr early ↦ rw early keep
    ])
    | inr r ↦ rw r (elim (Bool-cases (not (c.deadline == 0) && leb c.deadline now)) [
      | inl due ↦ rw due (over c e r (ground arith) (ground arith))
      | inr early ↦ rw early keep
    ])
  ])
]

pub expire_one-Inv : (id : Text) (now : ℕ) (m : Manager) → Inv m → Inv (expire_one id now m).0
expire_one-Inv id now m v =
    expire_cases (λ r. Inv r.0) id now m v (λ c e t _ _. drop-Inv m v id c e t)
      (λ c e r _ _. finish-Inv m v id c e r timed_out refl now)

pub expire_each-Inv :
    (ids : List Text) (now : ℕ) (m : Manager) → Inv m → Inv (expire_each ids now m).0
unfolding expire_each
expire_each-Inv [] now m v = v
expire_each-Inv (id ∷ ids) now m v =
    expire_each-Inv ids now (expire_one id now m).0 (expire_one-Inv id now m v)

pub expire-Inv : (now : ℕ) (m : Manager) → Inv m → Inv (expire now m).0
unfolding expire
expire-Inv now m v = expire_each-Inv (keys m.calls) now m v

-- A user that no live call owns is not in the map of busy users.
-- The two ways in which a user leaves: free, or with the one call that owns them.
pub disconnect_cases {ℓ} :
    (P : Manager × List Call → Type ℓ) (username : Text) (now : ℕ) (m : Manager)
    → Inv m
    → (lookup username m.active ≡ none → P (m, []))
    → ((id : Text) (c : Call)
        → lookup username m.active ≡ some id
        → lookup id m.calls ≡ some c
        → is_terminal c.state ≡ false
        → (username ≡ c.caller) ⊎ (username ≡ c.callee)
        → P (finish id ended now c m, finished ended now m c ∷ []))
    → P (disconnect username now m)
unfolding disconnect
disconnect_cases P username now m v free busy = elim (Option-cases (lookup username m.active)) [
  | inl e ↦ rw e (free e)
  | inr (id, e) ↦ rw e (elim (Option-cases (lookup id m.calls)) [
    | inl gone ↦ absurd (subst (Owns username) gone (v.owned username id e))
    | inr (c, held) ↦
        let o : Owns username (some c) = subst (Owns username) held (v.owned username id e) in
        rw (held, o.0) (busy id c e held o.0 o.1)
  ])
]

pub disconnect-Inv :
    (username : Text) (now : ℕ) (m : Manager) → Inv m → Inv (disconnect username now m).0
disconnect-Inv username now m v =
    disconnect_cases (λ r. Inv r.0) username now m v (λ _. v)
      (λ id c _ held r _. finish-Inv m v id c held r ended refl now)

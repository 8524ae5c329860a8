-- ===== src/Calls/Trace.antt =====
-- Histories: the server's operations on the call manager in any order.
use go_cli_messenger.Common.{
  ℕ, ◌≡◌, refl, ◌∙◌, ◌⊎◌, inl, inr, true, false, none, some, List, [], ◌∷◌, arith, Text, text_eq,
  text_eq_iff, lookup, lookup-insert, lookup-delete, Bool-cases, keys,
}
use go_cli_messenger.Protocol.Signal.{SignalType}
use go_cli_messenger.Calls.{
  Call, Config, Manager, Result, ok, err, State, is_terminal, new, invite, transition, expire_one,
  expire_each, expire, disconnect, timed_out, ended, finished, new_call,
}
use go_cli_messenger.Calls.Invariant.{Inv, new-Inv}
use go_cli_messenger.Calls.Preservation.{
  invite-Inv, transition-Inv, expire-Inv, disconnect-Inv, expire_cases, disconnect_cases,
}
use go_cli_messenger.Calls.Graph.{
  Role, Edge, accept, decline, cancel, offer, restart, answer, candidate, gathered, hang_up,
  live_accepted, live_negotiating, live_connected, Moved, transition-Moved, transition_refused,
  transition_frame,
}

pub data Op : Type 0 where
  invites : Text → Text → Text → Op
  messages : SignalType → Text → Text → Text → Op
  sweeps : Op
  leaves : Text → Op

unfoldable pub step : Manager → ℕ × Op → Manager
step m (now, invites id caller callee) = (invite id caller callee now m).0
step m (now, messages type id actor recipient) = (transition type id actor recipient now m).0
step m (now, sweeps) = (expire now m).0
step m (now, leaves u) = (disconnect u now m).0

unfoldable pub run : Manager → List (ℕ × Op) → Manager
run m [] = m
run m (o ∷ os) = run (step m o) os

pub step-Inv : (m : Manager) (o : ℕ × Op) → Inv m → Inv (step m o)
unfolding step
step-Inv m (now, invites id a b) v = invite-Inv id a b now m v
step-Inv m (now, messages type id a b) v = transition-Inv type id a b now m v
step-Inv m (now, sweeps) v = expire-Inv now m v
step-Inv m (now, leaves u) v = disconnect-Inv u now m v

run-Inv : (m : Manager) (os : List (ℕ × Op)) → Inv m → Inv (run m os)
unfolding run
run-Inv m [] v = v
run-Inv m (o ∷ os) v = run-Inv (step m o) os (step-Inv m o v)

-- After any history from a fresh manager, whatever its configuration, the invariant holds.
pub run-new-Inv : (config : Config) (os : List (ℕ × Op)) → Inv (run (new config) os)
run-new-Inv config os = run-Inv (new config) os (new-Inv config)

Edge-open : {type : SignalType} {r : Role} {s t : State} → Edge type r s t → is_terminal s ≡ false
Edge-open accept = refl
Edge-open decline = refl
Edge-open cancel = refl
Edge-open offer = refl
Edge-open restart = refl
Edge-open answer = refl
Edge-open (candidate live_accepted) = refl
Edge-open (candidate live_negotiating) = refl
Edge-open (candidate live_connected) = refl
Edge-open (gathered live_accepted) = refl
Edge-open (gathered live_negotiating) = refl
Edge-open (gathered live_connected) = refl
Edge-open (hang_up live_accepted) = refl
Edge-open (hang_up live_negotiating) = refl
Edge-open (hang_up live_connected) = refl

-- The call is unchanged, or dropped from the table.
abbrev pub Rests : Text → Call → Manager → Type 0
Rests id c m = (lookup id m.calls ≡ some c) ⊎ (lookup id m.calls ≡ none)

module _ (id : Text) (c : Call) (over : is_terminal c.state ≡ true) where
  expire_each-Rests :
      (ids : List Text) (now : ℕ) (m : Manager)
      → Rests id c m
      → Rests id c (expire_each ids now m).0
  unfolding expire_each
  expire_each-Rests [] now m h = h
  expire_each-Rests (i ∷ ids) now m h = expire_each-Rests ids now (expire_one i now m).0 (
      expire_cases (λ r. Rests id c r.0) i now m h
        (λ d _ _ _ _. ground (arith, lookup-delete i id m.calls))
        (λ d e t _ _.
          ground
            (arith, lookup-insert i id (finished timed_out now m d) m.calls, text_eq_iff i id)))

  transition-Rests :
      (type : SignalType) (i a b : Text) (now : ℕ) (m : Manager)
      → Inv m
      → lookup id m.calls ≡ some c
      → (r : Manager × Result Call) → transition type i a b now m ≡ r
      → Rests id c r.0
  transition-Rests type i a b now m v h (n, err x) e =
      rw (transition_refused type i a b now m n x e) (inl h)
  transition-Rests type i a b now m v h (n, ok d) e = elim (Bool-cases (text_eq i id)) [
    | inr apart ↦
        inl (transition_frame type i a b now m n d id (λ q. ground (arith, text_eq_iff i id)) e ∙ h)
    | inl same ↦
        absurd (clash ((text_eq_iff i id).0 same) (transition-Moved type i a b now m n d v e))
  ]
    where
      clash : i ≡ id → Moved type i a b m n d → ⊥
      clash q (b_call, r, held, plays, edge, same, kept) =
          ground (arith, Edge-open edge, text_eq_iff i id)

  -- No operation reopens or alters a call that is over: it rests in the table as it is, until a
  -- sweep drops it.
  pub over-Rests :
      (m : Manager) (o : ℕ × Op) → Inv m → lookup id m.calls ≡ some c → Rests id c (step m o)
  unfolding step expire
  over-Rests m (now, invites i a b) v h =
      unfold invite in
      ground (arith, lookup-insert i id (new_call i a b now m) m.calls, text_eq_iff i id)
  over-Rests m (now, messages type i a b) v h = transition-Rests type i a b now m v h _ refl
  over-Rests m (now, sweeps) v h = expire_each-Rests (keys m.calls) now m (inl h)
  over-Rests m (now, leaves u) v h =
      disconnect_cases (λ r. Rests id c r.0) u now m v (λ _. inl h)
        (λ i d _ held running _.
          ground (arith, lookup-insert i id (finished ended now m d) m.calls, text_eq_iff i id))

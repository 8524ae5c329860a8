-- ===== src/Calls/Sweep.antt =====
-- What a sweep of the expired calls leaves behind, and whom it reports.
use go_cli_messenger.Common.{
  ℕ, ◌≡◌, ◌≢◌, refl, ◌⊎◌, inl, inr, Bool, false, ◌&&◌, not, Option, none, some, List, [], ◌∷◌, ◌++◌,
  ◌==◌, leb, arith, Text, text_eq, text_eq_iff, lookup, keys, Dict, lookup-insert, lookup-delete,
  All, subst, Bool-cases, Option-cases, if◌then◌else◌,
}
use go_cli_messenger.Calls.{
  Call, Manager, timed_out, is_terminal, finished, expire_one, expire_each, expire,
}
use go_cli_messenger.Calls.Invariant.{Inv}
use go_cli_messenger.Calls.Preservation.{expire_cases, expire_one-Inv}

-- What the sweep looks for: a finished call whose time in the table is over, or an open one that
-- has passed its deadline.
abbrev pub is_due : ℕ → Call → Bool
is_due now c =
    if is_terminal c.state
    then not (c.cleanup_at == 0) && leb c.cleanup_at now
    else not (c.deadline == 0) && leb c.deadline now

abbrev pub NotDue : ℕ → Option Call → Type 0
NotDue now none = Unit
NotDue now (some c) = is_due now c ≡ false

abbrev pub AnyOf : Text → List Text → Type 0
AnyOf j [] = ⊥
AnyOf j (id ∷ ids) = (id ≡ j) ⊎ AnyOf j ids

module _ (now : ℕ) where
  expire_one_self :
      (id : Text) (m : Manager) → Inv m → NotDue now (lookup id (expire_one id now m).0.calls)
  unfolding expire_one
  expire_one_self id m v = elim (Option-cases (lookup id m.calls)) [
    | inl e ↦ rw (e, e) tt
    | inr (c, e) ↦ ground (
      arith,
      lookup-delete id id m.calls,
      lookup-insert id id (finished timed_out now m c) m.calls,
      text_eq_iff id id,
      v.cleanup_pos,
      e,
    )
  ]

  expire_one_frame :
      (id j : Text) (m : Manager)
      → id ≢ j
      → lookup j (expire_one id now m).0.calls ≡ lookup j m.calls
  expire_one_frame id j m h =
      expire_cases (λ r. lookup j r.0.calls ≡ lookup j m.calls) id now m refl
        (λ c _ _ _ _. ground (arith, lookup-delete id j m.calls, text_eq_iff id j))
        (λ c _ _ _ _.
          ground (arith, lookup-insert id j (finished timed_out now m c) m.calls, text_eq_iff id j))

  expire_one-NotDue :
      (id j : Text) (m : Manager)
      → Inv m
      → NotDue now (lookup j m.calls)
      → NotDue now (lookup j (expire_one id now m).0.calls)
  expire_one-NotDue id j m v h = elim (Bool-cases (text_eq id j)) [
    | inl same ↦ rw (← (text_eq_iff id j).0 same) (expire_one_self id m v)
    | inr apart ↦ rw (expire_one_frame id j m (λ e. ground (arith, text_eq_iff id j))) h
  ]

  expire_each-NotDue :
      (ids : List Text) (j : Text) (m : Manager)
      → Inv m
      → NotDue now (lookup j m.calls) ⊎ AnyOf j ids
      → NotDue now (lookup j (expire_each ids now m).0.calls)
  unfolding expire_each
  expire_each-NotDue [] j m v (inl h) = h
  expire_each-NotDue [] j m v (inr h) = absurd h
  expire_each-NotDue (id ∷ ids) j m v (inl h) =
      expire_each-NotDue ids j (expire_one id now m).0 (expire_one-Inv id now m v)
        (inl (expire_one-NotDue id j m v h))
  expire_each-NotDue (id ∷ ids) j m v (inr (inl e)) =
      expire_each-NotDue ids j (expire_one id now m).0 (expire_one-Inv id now m v)
        (inl (rw (← e) (expire_one_self id m v)))
  expire_each-NotDue (id ∷ ids) j m v (inr (inr h)) =
      expire_each-NotDue ids j (expire_one id now m).0 (expire_one-Inv id now m v) (inr h)

  -- In whatever order the range visits the calls, as long as it visits each, no call that is left in
  -- the table is due: no open call is past its deadline, and no finished one past its time.
  pub expire_each_settles :
      (ids : List Text) (m : Manager)
      → Inv m
      → ((j : Text) (c : Call) → lookup j m.calls ≡ some c → AnyOf j ids)
      → (j : Text) (c : Call) → lookup j (expire_each ids now m).0.calls ≡ some c
      → is_due now c ≡ false
  expire_each_settles ids m v covers j c h = subst (NotDue now) h (
      expire_each-NotDue ids j m v (elim (Option-cases (lookup j m.calls)) [
        | inl e ↦ inl (rw e tt)
        | inr (d, e) ↦ inr (covers j d e)
      ]))

  keys-AnyOf : (j : Text) (m : Dict Call) (c : Call) → lookup j m ≡ some c → AnyOf j (keys m)
  unfolding lookup keys
  keys-AnyOf j [] c h = cc
  keys-AnyOf j ((i, d) ∷ m) c h = elim (Bool-cases (text_eq i j)) [
    | inl same ↦ inl ((text_eq_iff i j).0 same)
    | inr apart ↦ inr (keys-AnyOf j m c (ground arith))
  ]

  -- After a sweep no call in the table is due: no open call is past its deadline, and no finished one
  -- past its time.
  pub expire_settles :
      (m : Manager)
      → Inv m
      → (j : Text) (c : Call) → lookup j (expire now m).0.calls ≡ some c
      → is_due now c ≡ false
  unfolding expire
  expire_settles m v = expire_each_settles (keys m.calls) m v (λ j c. keys-AnyOf j m.calls c)

  expire_one_idle :
      (id : Text) (m : Manager) → NotDue now (lookup id m.calls) → expire_one id now m ≡ (m, [])
  unfolding expire_one
  expire_one_idle id m h = elim (Option-cases (lookup id m.calls)) [
    | inl e ↦ rw e
    | inr (c, e) ↦ ground (arith, subst (NotDue now) e h)
  ]

  expire_each_idle :
      (ids : List Text) (m : Manager)
      → ((j : Text) (c : Call) → lookup j m.calls ≡ some c → is_due now c ≡ false)
      → expire_each ids now m ≡ (m, [])
  unfolding expire_each
  expire_each_idle [] m h = refl
  expire_each_idle (id ∷ ids) m h =
      rw (expire_one_idle id m (at (lookup id m.calls) refl)) (rw (expire_each_idle ids m h))
    where
      at : (o : Option Call) → lookup id m.calls ≡ o → NotDue now (lookup id m.calls)
      at none e = rw e tt
      at (some c) e = rw e (h id c e)

  -- A second sweep at the same time changes nothing and reports nobody.
  pub expire_idem : (m : Manager) → Inv m → expire now (expire now m).0 ≡ ((expire now m).0, [])
  unfolding expire
  expire_idem m v = expire_each_idle _ (expire now m).0 (expire_settles m v)

  abbrev TimedOut : Call → Type 0
  TimedOut c = (c.state ≡ timed_out) × (c.updated_at ≡ now) × (c.deadline ≡ 0)

  All-append : (xs ys : List Call) → All TimedOut xs → All TimedOut ys → All TimedOut (xs ++ ys)
  All-append [] ys hx hy = hy
  All-append (x ∷ xs) ys hx hy = (hx.0, All-append xs ys hx.1 hy)

  -- In whatever order the sweep visits the calls, each call that it reports has timed out now and has
  -- no deadline any more.
  pub expire_each-TimedOut :
      (ids : List Text) (m : Manager) → All TimedOut (expire_each ids now m).1
  unfolding expire_each
  expire_each-TimedOut [] m = tt
  expire_each-TimedOut (id ∷ ids) m =
      All-append (expire_one id now m).1 _
        (expire_cases (λ r. All TimedOut r.1) id now m tt (λ c _ _ _ _. tt)
          (λ c _ _ _ _. ((refl, refl, refl), tt)))
        (expire_each-TimedOut ids (expire_one id now m).0)

-- ===== src/Calls/Exclusive.antt =====
-- A user is in one call at a time.
use go_cli_messenger.Common.{
  ℕ, ◌≡◌, ◌≢◌, ◌↔◌, refl, ap, sym, ◌∙◌, ◌⊎◌, inl, inr, false, none, some, List, [], ◌∷◌, arith,
  Text, text_eq_iff, lookup, delete, lookup-delete, lookup-insert_self, lookup-insert_ne,
  lookup-delete_self, Option-cases, subst,
}
use go_cli_messenger.Calls.{
  Call, Manager, ok, err, ended, user_busy, is_terminal, invite, add_call, new_call, disconnect,
}
use go_cli_messenger.Calls.Invariant.{Inv, Owns}
use go_cli_messenger.Calls.Preservation.{disconnect_cases}

abbrev pub Participates : Text → Call → Type 0
Participates u c = (u ≡ c.caller) ⊎ (u ≡ c.callee)

-- The user takes part in an open call.
abbrev pub InCall : Manager → Text → Type 0
InCall m u =
    (i : Text) × (c : Call) × (lookup i m.calls ≡ some c)
    × (is_terminal c.state ≡ false)
    × Participates u c

module _ (m : Manager) (v : Inv m) where
  busy :
      (u i : Text) (c : Call)
      → lookup i m.calls ≡ some c
      → is_terminal c.state ≡ false
      → Participates u c
      → lookup u m.active ≡ some i
  busy u i c h t (inl e) = ap (λ w. lookup w m.active) e ∙ (v.live i c h t).0
  busy u i c h t (inr e) = ap (λ w. lookup w m.active) e ∙ (v.live i c h t).1

  -- Two open calls with a common participant are one call.
  pub open_call_unique :
      (u i j : Text) (c d : Call)
      → lookup i m.calls ≡ some c
      → lookup j m.calls ≡ some d
      → is_terminal c.state ≡ false
      → is_terminal d.state ≡ false
      → Participates u c
      → Participates u d
      → i ≡ j
  open_call_unique u i j c d hc hd tc td pc pd = cc (busy u i c hc tc pc, busy u j d hd td pd)

  owner : (u i : Text) → lookup u m.active ≡ some i → InCall m u
  owner u i h = elim (Option-cases (lookup i m.calls)) [
    | inl gone ↦ absurd (subst (Owns u) gone (v.owned u i h))
    | inr (c, held) ↦
        let o : Owns u (some c) = subst (Owns u) held (v.owned u i h) in (i, c, held, o.0, o.1)
  ]

  free : (u : Text) → ¬ InCall m u → lookup u m.active ≡ none
  free u h = elim (Option-cases (lookup u m.active)) [
    | inl e ↦ e
    | inr (i, e) ↦ absurd (h (owner u i e))
  ]

  module _ (call_id caller callee : Text) (now : ℕ) (apart : caller ≢ callee)
      (fresh : lookup call_id m.calls ≡ none) where
    busy_of_invite :
        invite call_id caller callee now m ≡ (m, err user_busy) → InCall m caller ⊎ InCall m callee
    unfolding invite
    busy_of_invite e = elim (Option-cases (lookup caller m.active)) [
      | inr (i, h) ↦ inl (owner caller i h)
      | inl h ↦ elim (Option-cases (lookup callee m.active)) [
        | inr (i, k) ↦ inr (owner callee i k)
        | inl k ↦ absurd (ground (arith, text_eq_iff caller callee))
      ]
    ]

    invite_of_busy :
        InCall m caller ⊎ InCall m callee → invite call_id caller callee now m ≡ (m, err user_busy)
    unfolding invite
    invite_of_busy (inl (i, c, h, t, p)) =
        ground (arith, text_eq_iff caller callee, busy caller i c h t p)
    invite_of_busy (inr (i, c, h, t, p)) =
        ground (arith, text_eq_iff caller callee, busy callee i c h t p)

    -- Between two different users and under a fresh id, an invitation is refused as busy, with no
    -- change, exactly when one of the two is in an open call; if neither is, it rings.
    pub invite_busy_iff :
        ((invite call_id caller callee now m ≡ (m, err user_busy))
          ↔ (InCall m caller ⊎ InCall m callee))
        × (¬ InCall m caller
            → ¬ InCall m callee
            → invite call_id caller callee now m
              ≡ (add_call call_id caller callee now m, ok (new_call call_id caller callee now m)))
    unfolding invite
    invite_busy_iff = (
      (busy_of_invite, invite_of_busy),
      λ f g. ground (arith, text_eq_iff caller callee, free caller f, free callee g),
    )

abbrev pub IsOver : Text → ℕ → Manager → Manager × List Call → Type 0
IsOver username now m (n, []) = (lookup username m.active ≡ none) × (n ≡ m)
IsOver username now m (n, c ∷ rest) =
    (rest ≡ [])
    × Participates username c
    × (c.state ≡ ended)
    × (lookup c.caller n.active ≡ none)
    × (lookup c.callee n.active ≡ none)
    × (lookup c.id n.calls ≡ some c)
    × ((j : Text) → j ≢ c.id → lookup j n.calls ≡ lookup j m.calls)
    × ((u : Text) → u ≢ c.caller → u ≢ c.callee → lookup u n.active ≡ lookup u m.active)

-- When a user leaves, either the user was in no call, and nothing changes and nobody is told, or
-- exactly one call is reported: the user takes part in it, it has ended, both participants are free
-- again, and every other call and every other user is left alone.
pub disconnect-IsOver :
    (username : Text) (now : ℕ) (m : Manager)
    → Inv m
    → IsOver username now m (disconnect username now m)
disconnect-IsOver username now m v =
    disconnect_cases (IsOver username now m) username now m v (λ e. (e, refl))
      (λ id c e held r who. (
        refl,
        who,
        refl,
        ground (
          arith,
          lookup-delete c.callee c.caller (delete c.caller m.active),
          lookup-delete c.caller c.caller m.active,
          text_eq_iff c.caller c.caller,
        ),
        lookup-delete_self c.callee (delete c.caller m.active),
        rw ((v.calls_ok id c held).named) (lookup-insert_self id _ m.calls),
        (λ j h.
            lookup-insert_ne id j _ m.calls (λ q. h (sym q ∙ sym (v.calls_ok id c held).named))),
        (λ u p q. ground (
          arith,
          lookup-delete c.callee u (delete c.caller m.active),
          lookup-delete c.caller u m.active,
          text_eq_iff c.caller u,
          text_eq_iff c.callee u,
        )),
      ))

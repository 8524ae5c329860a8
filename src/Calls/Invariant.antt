-- ===== src/Calls/Invariant.antt =====
-- What holds of the call manager between two operations, and that each primitive update keeps it:
-- a new call, a changed call, a finished call and a dropped call.
use go_cli_messenger.Common.{
  ℕ, ◌≡◌, ◌≢◌, ◌⊎◌, true, false, ◌||◌, not, Option, none, some, ◌≤◌, ◌<◌, ◌==◌, arith, Text,
  text_eq_iff, lookup, insert, delete, IsDict, lookup-insert, lookup-delete, insert-IsDict,
  delete-IsDict,
}
use go_cli_messenger.Protocol.Signal.{max_ice_candidates}
use go_cli_messenger.Calls.{
  Call, State, Config, Manager, is_terminal, is_connected, new, new_call, add_call, store, finished,
  finish,
}

-- A stored call: who takes part, its candidate budgets, and which times are set in which state.
pub record CallOk (id : Text) (c : Call) : Type 0 where
  pub named : c.id ≡ id
  pub distinct : c.caller ≢ c.callee
  pub caller_bound : c.caller_candidates ≤ max_ice_candidates
  pub callee_bound : c.callee_candidates ≤ max_ice_candidates
  pub deadline_set : (c.deadline == 0) ≡ (is_connected c.state || is_terminal c.state)
  pub cleanup_set : (c.cleanup_at == 0) ≡ not (is_terminal c.state)

-- The call that a busy user is in.
abbrev pub Owns : Text → Option Call → Type 0
Owns u none = ⊥
Owns u (some c) = (is_terminal c.state ≡ false) × ((u ≡ c.caller) ⊎ (u ≡ c.callee))

pub record Inv (m : Manager) : Type 0 where
  pub ring_pos : 0 < m.ring_timeout
  pub negotiation_pos : 0 < m.negotiation_timeout
  pub cleanup_pos : 0 < m.cleanup_after
  pub keyed : IsDict m.calls
  pub calls_ok : (id : Text) (c : Call) → lookup id m.calls ≡ some c → CallOk id c
  pub live :
      (id : Text) (c : Call)
      → lookup id m.calls ≡ some c
      → is_terminal c.state ≡ false
      → (lookup c.caller m.active ≡ some id) × (lookup c.callee m.active ≡ some id)
  pub owned : (u id : Text) → lookup u m.active ≡ some id → Owns u (lookup id m.calls)

pub new-Inv : (config : Config) → Inv (new config)
unfolding new lookup
new-Inv config = record {
  ring_pos = ground arith;
  negotiation_pos = ground arith;
  cleanup_pos = ground arith;
  keyed = tt;
  calls_ok = λ id c h. cc;
  live = λ id c h t. cc;
  owned = λ u id h. cc;
}

module _ (m : Manager) (v : Inv m) (id : Text) where
  module _ (caller callee : Text) (now : ℕ) (apart : caller ≢ callee)
      (fresh : lookup id m.calls ≡ none) (caller_free : lookup caller m.active ≡ none)
      (callee_free : lookup callee m.active ≡ none) where
    add_call-owned :
        (u j : Text)
        → lookup u (add_call id caller callee now m).active ≡ some j
        → Owns u (lookup j (add_call id caller callee now m).calls)
    add_call-owned u j h = ground (
      arith,
      lookup-insert callee u id (insert caller id m.active),
      lookup-insert caller u id m.active,
      lookup-insert id j (new_call id caller callee now m) m.calls,
      text_eq_iff callee u,
      text_eq_iff caller u,
      text_eq_iff id j,
      v.owned u j,
    )

    add_call-live :
        (j : Text) (c : Call)
        → lookup j (add_call id caller callee now m).calls ≡ some c
        → is_terminal c.state ≡ false
        → (lookup c.caller (add_call id caller callee now m).active ≡ some j)
          × (lookup c.callee (add_call id caller callee now m).active ≡ some j)
    add_call-live j c h t = ground (
      arith,
      lookup-insert callee c.caller id (insert caller id m.active),
      lookup-insert caller c.caller id m.active,
      lookup-insert callee c.callee id (insert caller id m.active),
      lookup-insert caller c.callee id m.active,
      lookup-insert id j (new_call id caller callee now m) m.calls,
      text_eq_iff callee c.caller,
      text_eq_iff caller c.caller,
      text_eq_iff callee c.callee,
      text_eq_iff caller c.callee,
      text_eq_iff id j,
      v.live j c,
    )

    add_call-calls_ok :
        (j : Text) (c : Call)
        → lookup j (add_call id caller callee now m).calls ≡ some c
        → CallOk j c
    add_call-calls_ok j c h = ground (
      arith,
      lookup-insert id j (new_call id caller callee now m) m.calls,
      text_eq_iff id j,
      v.calls_ok j c,
      v.ring_pos,
    )

    pub add_call-Inv : Inv (add_call id caller callee now m)
    add_call-Inv = record {
      ring_pos = v.ring_pos;
      negotiation_pos = v.negotiation_pos;
      cleanup_pos = v.cleanup_pos;
      keyed = insert-IsDict id (new_call id caller callee now m) m.calls v.keyed;
      calls_ok = add_call-calls_ok;
      live = add_call-live;
      owned = add_call-owned;
    }

  module _ (c : Call) (held : lookup id m.calls ≡ some c)
      (running : is_terminal c.state ≡ false) where
    -- A changed call keeps its participants.
    pub store-Inv :
        (d : Call)
        → CallOk id d
        → d.caller ≡ c.caller
        → d.callee ≡ c.callee
        → is_terminal d.state ≡ false
        → Inv (store id d m)
    store-Inv d good e f t = record {
      ring_pos = v.ring_pos;
      negotiation_pos = v.negotiation_pos;
      cleanup_pos = v.cleanup_pos;
      keyed = insert-IsDict id d m.calls v.keyed;
      calls_ok = λ j b h.
          ground (arith, lookup-insert id j d m.calls, text_eq_iff id j, v.calls_ok j b, good);
      live = λ j b h s.
          ground (arith, lookup-insert id j d m.calls, text_eq_iff id j, v.live j b, v.live id c);
      owned = λ u j h. ground (arith, lookup-insert id j d m.calls, text_eq_iff id j, v.owned u j);
    }

    module _ (s : State) (over : is_terminal s ≡ true) (now : ℕ) where
      finish-live :
          (j : Text) (b : Call)
          → lookup j (finish id s now c m).calls ≡ some b
          → is_terminal b.state ≡ false
          → (lookup b.caller (finish id s now c m).active ≡ some j)
            × (lookup b.callee (finish id s now c m).active ≡ some j)
      finish-live j b h t = ground (
        arith,
        lookup-insert id j (finished s now m c) m.calls,
        text_eq_iff id j,
        v.live j b,
        v.live id c,
        lookup-delete c.callee b.caller (delete c.caller m.active),
        lookup-delete c.caller b.caller m.active,
        lookup-delete c.callee b.callee (delete c.caller m.active),
        lookup-delete c.caller b.callee m.active,
        text_eq_iff c.callee b.caller,
        text_eq_iff c.caller b.caller,
        text_eq_iff c.callee b.callee,
        text_eq_iff c.caller b.callee,
      )

      finish-owned :
          (u j : Text)
          → lookup u (finish id s now c m).active ≡ some j
          → Owns u (lookup j (finish id s now c m).calls)
      finish-owned u j h = ground (
        arith,
        lookup-insert id j (finished s now m c) m.calls,
        text_eq_iff id j,
        v.owned u j,
        lookup-delete c.callee u (delete c.caller m.active),
        lookup-delete c.caller u m.active,
        text_eq_iff c.callee u,
        text_eq_iff c.caller u,
      )

      finish-calls_ok :
          (j : Text) (b : Call) → lookup j (finish id s now c m).calls ≡ some b → CallOk j b
      finish-calls_ok j b h = ground (
        arith,
        lookup-insert id j (finished s now m c) m.calls,
        text_eq_iff id j,
        v.calls_ok j b,
        v.calls_ok id c,
        v.cleanup_pos,
      )

      pub finish-Inv : Inv (finish id s now c m)
      finish-Inv = record {
        ring_pos = v.ring_pos;
        negotiation_pos = v.negotiation_pos;
        cleanup_pos = v.cleanup_pos;
        keyed = insert-IsDict id (finished s now m c) m.calls v.keyed;
        calls_ok = finish-calls_ok;
        live = finish-live;
        owned = finish-owned;
      }

  -- Only a call that is over is dropped.
  pub drop-Inv :
      (c : Call)
      → lookup id m.calls ≡ some c
      → is_terminal c.state ≡ true
      → Inv (record m { calls = delete id m.calls })
  drop-Inv c held over = record {
    ring_pos = v.ring_pos;
    negotiation_pos = v.negotiation_pos;
    cleanup_pos = v.cleanup_pos;
    keyed = delete-IsDict id m.calls v.keyed;
    calls_ok =
        λ j b h. ground (arith, lookup-delete id j m.calls, text_eq_iff id j, v.calls_ok j b);
    live = λ j b h s. ground (arith, lookup-delete id j m.calls, text_eq_iff id j, v.live j b);
    owned = λ u j h. ground (arith, lookup-delete id j m.calls, text_eq_iff id j, v.owned u j);
  }

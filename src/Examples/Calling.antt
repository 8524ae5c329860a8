-- ===== src/Examples/Calling.antt =====
-- internal/server/calls/manager.go on a call between two users.
use go_cli_messenger.Common.{
  ℕ, ◌≡◌, refl, ◌↔◌, ◌⊎◌, some, none, List, [], ◌∷◌, pos, Text, codes, text_eq, text_eq_iff,
  text_eq_apart, lookup, insert, delete, arith, false,
}
use go_cli_messenger.Protocol.Signal.{call_accept, call_end, webrtc_offer}
use go_cli_messenger.Calls.{
  Call, Config, Manager, ok, err, ringing, accepted, negotiating, ended, timed_out,
  invalid_transition, user_busy, new, invite, other, transition, apply, expire_one, expire_each,
  disconnect, add_call, new_call,
}
use go_cli_messenger.Calls.Invariant.{Inv}
use go_cli_messenger.Calls.Trace.{Op, invites, messages, step, run, run-new-Inv}
use go_cli_messenger.Calls.Graph.{
  as_callee, accept, Moved, Reaches, transition-Moved, transition-Reaches,
}
use go_cli_messenger.Calls.Exclusive.{InCall, IsOver, invite_busy_iff, disconnect-IsOver}
use go_cli_messenger.Calls.Sweep.{is_due, AnyOf, expire_each_settles}

abbrev ann : Text
ann = codes "ann"

abbrev bob : Text
bob = codes "bob"

abbrev cid : Text
cid = codes "cid"

abbrev first_call : Text
first_call = codes "1"

abbrev second_call : Text
second_call = codes "2"

abbrev config : Config
config = record { ring_timeout = pos 10; negotiation_timeout = pos 20; cleanup_after = pos 30 }

-- Ann calls Bob.
abbrev called : List (ℕ × Op)
called = (5, invites first_call ann bob) ∷ []

-- Bob accepts and Ann offers.
abbrev talked : List (ℕ × Op)
talked =
    (5, invites first_call ann bob)
    ∷ (6, messages call_accept first_call bob ann)
    ∷ (7, messages webrtc_offer first_call ann bob)
    ∷ []

abbrev hung_up : List (ℕ × Op)
hung_up =
    (5, invites first_call ann bob)
    ∷ (6, messages call_accept first_call bob ann)
    ∷ (8, messages call_end first_call ann bob)
    ∷ []

abbrev after : List (ℕ × Op) → Manager
after os = run (new config) os

abbrev rung : Call
rung = record {
  id = first_call;
  caller = ann;
  callee = bob;
  state = ringing;
  created_at = 5;
  updated_at = 5;
  deadline = 15;
  cleanup_at = 0;
  caller_candidates = 0;
  callee_candidates = 0;
}

abbrev taken : Call
taken = record rung { state = accepted; updated_at = 6; deadline = 26 }

abbrev over : Call
over = record rung { state = ended; updated_at = 8; deadline = 0; cleanup_at = 38 }

called-lookup : lookup first_call (after called).calls ≡ some rung
unfolding run step new invite lookup insert text_eq
called-lookup = refl

talked-lookup :
    lookup first_call (after talked).calls
    ≡ some (record rung { state = negotiating; updated_at = 7; deadline = 27 })
unfolding run step new invite transition apply other lookup insert text_eq
talked-lookup = refl

hung_up-lookup : lookup first_call (after hung_up).calls ≡ some over
unfolding run step new invite transition apply other lookup insert delete text_eq
hung_up-lookup = refl

late_answer :
    transition call_accept first_call bob ann 40 (after hung_up)
    ≡ (after hung_up, err invalid_transition)
unfolding run step new invite transition apply other lookup insert delete text_eq
late_answer = refl

run-new-Inv_example : Inv (after talked)
run-new-Inv_example = run-new-Inv config talked

accepting :
    transition call_accept first_call bob ann 6 (after called)
    ≡ ((transition call_accept first_call bob ann 6 (after called)).0, ok taken)
unfolding run step new invite transition apply other lookup insert delete text_eq
accepting = refl

transition-Moved_example :
    Moved call_accept first_call bob ann
      (after called)
      (transition call_accept first_call bob ann 6 (after called)).0
      taken
transition-Moved_example =
    transition-Moved call_accept first_call bob ann 6 (after called)
      (transition call_accept first_call bob ann 6 (after called)).0 taken
      (run-new-Inv config called) accepting

transition-Reaches_example :
    Reaches accepted (transition call_accept first_call bob ann 6 (after called))
transition-Reaches_example =
    transition-Reaches first_call bob ann 6 (after called) rung {type = call_accept} {r = as_callee}
      {t = accepted} (run-new-Inv config called) called-lookup (refl, refl) accept (omega arith)

fresh_id : lookup second_call (after called).calls ≡ none
unfolding run step new invite lookup insert text_eq
fresh_id = refl

invite_busy_iff_example :
    ((invite second_call cid bob 9 (after called) ≡ (after called, err user_busy))
      ↔ (InCall (after called) cid ⊎ InCall (after called) bob))
    × (¬ InCall (after called) cid
        → ¬ InCall (after called) bob
        → invite second_call cid bob 9 (after called) ≡ (
          add_call second_call cid bob 9 (after called),
          ok (new_call second_call cid bob 9 (after called)),
        ))
invite_busy_iff_example =
    invite_busy_iff (after called) (run-new-Inv config called) second_call cid bob 9
      (text_eq_apart cid bob (unfold text_eq in refl)) fresh_id

disconnect-IsOver_example : IsOver bob 9 (after called) (disconnect bob 9 (after called))
disconnect-IsOver_example = disconnect-IsOver bob 9 (after called) (run-new-Inv config called)

only_call :
    (j : Text) (c : Call) → lookup j (after called).calls ≡ some c → AnyOf j (first_call ∷ [])
unfolding run step new invite lookup insert text_eq
only_call j c h = ground (arith, text_eq_iff first_call j)

swept_call :
    lookup first_call (expire_each (first_call ∷ []) 50 (after called)).0.calls
    ≡ some (record rung { state = timed_out; updated_at = 50; deadline = 0; cleanup_at = 80 })
unfolding run step new invite lookup insert text_eq expire_each expire_one delete
swept_call = refl

expire_each_settles_example :
    is_due 50 (record rung { state = timed_out; updated_at = 50; deadline = 0; cleanup_at = 80 })
    ≡ false
expire_each_settles_example =
    expire_each_settles 50 (first_call ∷ []) (after called) (run-new-Inv config called) only_call
      first_call _ swept_call

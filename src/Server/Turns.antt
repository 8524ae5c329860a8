-- ===== src/Server/Turns.antt =====
-- The turns of the serving loop and of the sweep keep the server's invariant.
use go_cli_messenger.Common.{ℕ, refl, Bool, true, false, inl, inr, List, [], ◌∷◌, Text, Bool-cases}
use go_cli_messenger.Protocol.Signal.{SignalMessage}
use go_cli_messenger.Protocol.Message.{Json}
use go_cli_messenger.Protocol.Validate
use go_cli_messenger.Identity.Proof.{Crypto}
use go_cli_messenger.Calls
use go_cli_messenger.Calls.Preservation
use go_cli_messenger.Seen.{duplicate}
use go_cli_messenger.Seen.Window
use go_cli_messenger.Server.Client.{Env, Client, touch}
use go_cli_messenger.Server.State.{Server, Outcome, done, failed}
use go_cli_messenger.Server.Session.{
  Texts, send_error, answer, take_message, receive, time_out, sweep,
}
use go_cli_messenger.Server.World.{Phase}
use go_cli_messenger.Server.Invariant.{
  Inv, with_calls-Inv, set_client-Inv, deliver_client-Inv, deliver_to-Inv,
}
use go_cli_messenger.Server.Preservation.{dispatch-Inv}

module _ (crypto : Crypto) (env : Env) (pick : Client → Bool) (h : ℕ) (phase : ℕ → Phase) where
  module _ (json : Json) (texts : Texts) where
    pub send_error-Inv :
        (code text : Text) (s : Server)
        → Inv phase s
        → Inv phase (send_error json crypto texts env pick h code text s)
    unfolding send_error
    send_error-Inv code text s v = deliver_client-Inv phase s v pick h _

    answer-Inv :
        (r : Server × Outcome) → Inv phase r.0 → Inv phase (answer json crypto texts env pick h r)
    answer-Inv (s, done) v = v
    answer-Inv (s, failed e) v = send_error-Inv _ _ s v

    take_message-Inv :
        (r : Validate.Result SignalMessage) (s : Server)
        → Inv phase s
        → Inv phase (take_message json crypto texts env pick h r s)
    take_message-Inv (Validate.err e) s v = send_error-Inv _ _ s v
    take_message-Inv (Validate.ok m) s v =
        let c = s.clients h in
        let noted-Inv =
          set_client-Inv phase s v h (record (touch env.now c) { seen = (duplicate m.id c.seen).0 })
            (record {
              same_username = unfold touch in refl;
              same_fingerprint = unfold touch in refl;
              same_registered = unfold touch in refl;
              bounded = unfold touch in λ b. b;
              seen_kept = λ w. Window.duplicate-Inv m.id c.seen w;
            }) in
        unfold touch in
        elim (Bool-cases (duplicate m.id c.seen).1) [
          | inl again ↦ rw again noted-Inv
          | inr new ↦ rw new (answer-Inv _ (dispatch-Inv crypto env pick h phase m _ noted-Inv))
        ]

    pub receive-Inv :
        (is_text : Bool) (bytes : Text) (s : Server)
        → Inv phase s
        → Inv phase (receive json crypto texts env pick h is_text bytes s)
    unfolding receive
    receive-Inv true bytes s v = take_message-Inv _ s v
    receive-Inv false bytes s v = send_error-Inv _ _ s v

module _ (env : Env) (pick : Client → Bool) (phase : ℕ → Phase) where
  time_out-Inv :
      (cs : List Calls.Call) (s : Server) → Inv phase s → Inv phase (time_out env pick cs s)
  unfolding time_out
  time_out-Inv [] s v = v
  time_out-Inv (c ∷ cs) s v =
      time_out-Inv cs _
        (deliver_to-Inv phase pick c.callee _ _ (deliver_to-Inv phase pick c.caller _ s v))

  pub sweep-Inv : (s : Server) → Inv phase s → Inv phase (sweep env pick s)
  unfolding sweep
  sweep-Inv s v =
      time_out-Inv _ _
        (with_calls-Inv phase s v _ (Calls.Preservation.expire-Inv env.now s.calls v.calls_ok))

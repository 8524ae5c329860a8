-- ===== src/Server/Suffixes.antt =====
-- A connection's turns, the sweep and `Shutdown` of internal/server/websocket/server.go keep the suffixes
-- of the fingerprints bound to what they are bound to.
use go_cli_messenger.Common.{
  ℕ, ◌≡◌, ◌≢◌, refl, ◌∙◌, ap, if_intro, Bool, true, false, not, if◌then◌else◌, Option, none, some,
  List, [], ◌∷◌, Text, take, Dict, lookup, lookup-insert_ne, arith,
}
use go_cli_messenger.Protocol.Message.{Json}
use go_cli_messenger.Protocol.Validate
use go_cli_messenger.Protocol.Validate.{decode_signal}
use go_cli_messenger.Protocol.Signal.{SignalMessage}
use go_cli_messenger.Identity.Proof.{Crypto, Verification, refused, verified, verify}
use go_cli_messenger.Identity.Replay.{ReplayGuard, accept}
use go_cli_messenger.Presence
use go_cli_messenger.Calls
use go_cli_messenger.Seen.{duplicate}
use go_cli_messenger.Server.Client.{Env, Client, touch}
use go_cli_messenger.Server.State.{Server, Outcome, done, failed, set_client, close_client}
use go_cli_messenger.Server.Dispatch.{dispatch}
use go_cli_messenger.Server.Session.{
  Session, joined, dropped, Texts, hello, receive, disconnect, sweep, shutdown, end_call, end_calls,
  forget_calls, bind_suffix, enter, identify, prove, greet, settle, answer, send_error,
  take_message, time_out, sweep_calls, close_all, same_fingerprint, server_validator, endpoint,
  is_hello,
}
use go_cli_messenger.Server.Bindings.{deliver_to-suffixes, dispatch-suffixes}

-- What is bound in `d` is bound to the same in `e`.
abbrev pub Keeps : Dict Text → Dict Text → Type 0
Keeps d e = (k fp : Text) → lookup k d ≡ some fp → lookup k e ≡ some fp

pub Keeps-eq : (d e : Dict Text) → e ≡ d → Keeps d e
Keeps-eq d e p k fp h = ap (lookup k) p ∙ h

bind_suffix-Keeps :
    (fp : Text) (known : Option Text) (d : Dict Text)
    → lookup (take 12 fp) d ≡ known
    → Keeps d (bind_suffix fp known d)
bind_suffix-Keeps fp none d e k g h = lookup-insert_ne (take 12 fp) k fp d apart ∙ h
  where
    apart : take 12 fp ≢ k
    apart p = cc (e, p, h)
bind_suffix-Keeps fp (some known) d e k g h = h

module _ (env : Env) (pick : Client → Bool) where
  end_call-suffixes :
      (username id : Text) (r : Calls.Result Text) (s : Server)
      → (end_call env pick username id r s).suffixes ≡ s.suffixes
  end_call-suffixes username id (Calls.ok other) s = deliver_to-suffixes pick other _ s
  end_call-suffixes username id (Calls.err e) s = refl

  end_calls-suffixes :
      (username : Text) (cs : List Calls.Call) (s : Server)
      → (end_calls env pick username cs s).suffixes ≡ s.suffixes
  unfolding end_calls
  end_calls-suffixes username [] s = refl
  end_calls-suffixes username (c ∷ cs) s =
      end_calls-suffixes username cs _ ∙ end_call-suffixes username c.id (Calls.other c username) s

  forget_calls-suffixes :
      (username : Text) (r : Calls.Manager × List Calls.Call) (s : Server)
      → (forget_calls env pick username r s).suffixes ≡ s.suffixes
  forget_calls-suffixes username (n, ended) s = end_calls-suffixes username ended _

  pub disconnect-suffixes : (h : ℕ) (s : Server) → (disconnect env pick h s).suffixes ≡ s.suffixes
  unfolding disconnect
  disconnect-suffixes h s =
      let c = s.clients h in
      let gone : Server = record (close_client h s) {
        presence = Presence.unregister (endpoint h c) s.presence;
      } in
      if_intro (λ (t : Server). t.suffixes ≡ s.suffixes) (not (s.clients h).registered) _ _
        (λ _. refl)
        (λ _.
          if_intro (λ (t : Server). t.suffixes ≡ s.suffixes) s.stopped _ _ (λ _. refl)
            (λ _.
              forget_calls-suffixes c.username (Calls.disconnect c.username env.now s.calls) gone))

  time_out-suffixes :
      (cs : List Calls.Call) (s : Server) → (time_out env pick cs s).suffixes ≡ s.suffixes
  unfolding time_out
  time_out-suffixes [] s = refl
  time_out-suffixes (c ∷ cs) s =
      time_out-suffixes cs _
      ∙ deliver_to-suffixes pick c.callee _ _
      ∙ deliver_to-suffixes pick c.caller _ s

  pub sweep-suffixes : (s : Server) → (sweep env pick s).suffixes ≡ s.suffixes
  unfolding sweep
  sweep-suffixes s = swept (Calls.expire env.now s.calls)
    where
      swept :
          (r : Calls.Manager × List Calls.Call) → (sweep_calls env pick r s).suffixes ≡ s.suffixes
      swept (n, expired) = time_out-suffixes expired _

close_all-suffixes :
    (es : List Presence.Endpoint) (s : Server) → (close_all es s).suffixes ≡ s.suffixes
close_all-suffixes [] s = refl
close_all-suffixes (e ∷ es) s = close_all-suffixes es (close_client e.handle s)

pub shutdown-suffixes : (s : Server) → (shutdown s).suffixes ≡ s.suffixes
unfolding shutdown
shutdown-suffixes s = close_all-suffixes (Presence.endpoints s.presence) _

module _ (env : Env) (pick : Client → Bool) (h : ℕ) where
  enter-suffixes :
      (r : Presence.Registry × Presence.Registered) (s : Server)
      → (enter env pick h r s).0.suffixes ≡ s.suffixes
  enter-suffixes (r, Presence.username_in_use) s = refl
  enter-suffixes (r, Presence.done) s = ground arith

  identify-Keeps :
      (from fp : Text) (s : Server) → Keeps s.suffixes (identify env pick h from fp s).0.suffixes
  identify-Keeps from fp s =
      let known = lookup (take 12 fp) s.suffixes in
      let c : Client = record (s.clients h) { username = from; fingerprint = fp } in
      let named : Server =
        set_client h c (record s { suffixes = bind_suffix fp known s.suffixes }) in
      if_intro (λ (r : Server × Session). Keeps s.suffixes r.0.suffixes)
        (not (same_fingerprint fp known)) _ _ (λ _. λ k g e. e)
        (λ _. λ k g e.
          ap (lookup k) (enter-suffixes (Presence.register (endpoint h c) s.presence) named)
          ∙ bind_suffix-Keeps fp known s.suffixes refl k g e)

  prove-Keeps :
      (from : Text) (v : Verification) (s : Server)
      → Keeps s.suffixes (prove env pick h from v s).0.suffixes
  prove-Keeps from (refused e) s = λ k g b. b
  prove-Keeps from (verified p key fp) s =
      guarded (accept fp p.nonce p.expires_at env.now s.replays)
    where
      guarded :
          (r : ReplayGuard × Bool)
          → Keeps s.suffixes
              (if r.1
                then identify env pick h from fp (record s { replays = r.0 })
                else (record s { replays = r.0 }, dropped)).0.suffixes
      guarded (g, true) = identify-Keeps from fp (record s { replays = g })
      guarded (g, false) = λ k f b. b

  greet-Keeps :
      (crypto : Crypto) (r : Validate.Result SignalMessage) (s : Server)
      → Keeps s.suffixes (greet crypto env pick h r s).0.suffixes
  greet-Keeps crypto (Validate.err e) s = λ k g b. b
  greet-Keeps crypto (Validate.ok m) s =
      if_intro (λ (r : Server × Session). Keeps s.suffixes r.0.suffixes) (is_hello m.type) _ _
        (λ _. prove-Keeps m.from (verify crypto m env.now) s) (λ _. λ k g b. b)

  settle-Keeps :
      (d : Dict Text) (r : Server × Session)
      → Keeps d r.0.suffixes
      → Keeps d (settle env pick h r).0.suffixes
  settle-Keeps d (s, joined) v = v
  settle-Keeps d (s, dropped) v =
      λ k g b. ap (lookup k) (disconnect-suffixes env pick h s) ∙ v k g b

  module _ (json : Json) (crypto : Crypto) (texts : Texts) where
    pub hello-Keeps :
        (is_text : Bool) (bytes : Text) (s : Server)
        → Keeps s.suffixes (hello json crypto texts env pick h is_text bytes s).0.suffixes
    unfolding hello
    hello-Keeps true bytes s =
        settle-Keeps s.suffixes _
          (greet-Keeps crypto (decode_signal json bytes (server_validator env)) s)
    hello-Keeps false bytes s = settle-Keeps s.suffixes (s, dropped) (λ k g b. b)

    send_error-suffixes :
        (code text : Text) (s : Server)
        → (send_error json crypto texts env pick h code text s).suffixes ≡ s.suffixes
    unfolding send_error
    send_error-suffixes code text s = refl

    answer-suffixes :
        (r : Server × Outcome) → (answer json crypto texts env pick h r).suffixes ≡ r.0.suffixes
    answer-suffixes (s, done) = refl
    answer-suffixes (s, failed e) = send_error-suffixes _ _ s

    take_message-suffixes :
        (r : Validate.Result SignalMessage) (s : Server)
        → (take_message json crypto texts env pick h r s).suffixes ≡ s.suffixes
    take_message-suffixes (Validate.err e) s = send_error-suffixes _ _ s
    take_message-suffixes (Validate.ok m) s =
        let c = touch env.now (s.clients h) in
        let (seen, again) = duplicate m.id c.seen in
        let noted = set_client h (record c { seen = seen }) s in
        if_intro (λ (t : Server). t.suffixes ≡ s.suffixes) again noted _ (λ _. refl)
          (λ _.
            answer-suffixes (dispatch crypto env pick h m noted)
            ∙ dispatch-suffixes crypto env pick h m noted)

    pub receive-suffixes :
        (is_text : Bool) (bytes : Text) (s : Server)
        → (receive json crypto texts env pick h is_text bytes s).suffixes ≡ s.suffixes
    unfolding receive
    receive-suffixes true bytes s =
        take_message-suffixes (decode_signal json bytes (server_validator env)) s
    receive-suffixes false bytes s = send_error-suffixes _ _ s

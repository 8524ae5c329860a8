-- ===== src/Daemon/Claims.antt =====
-- Which window has a call: a call is taken from the others only while a window has it.
use go_cli_messenger.Common.{
  ℕ, ◌≡◌, refl, if_intro, Bool, true, false, ◌&&◌, ◌||◌, not, if◌then◌else◌, Option, none, some,
  is_some, List, [], ◌∷◌, Text, text_eq, text_eq_iff, Dict, lookup, delete, lookup-insert,
  lookup-delete, arith,
}
use go_cli_messenger.Protocol.Message.{Json}
use go_cli_messenger.Protocol.Signal.{SignalMessage, SignalType, session_error, call_invite}
use go_cli_messenger.Daemon.Service.{
  Config, PendingCall, Service, new_service, Effect, Moment, is_unwanted, add_pending, allow_invite,
  handle_invite, forget, handle_other, handle_type, handle_signal, is_terminal_signal, set_signal,
  clear_signal, is_current,
}
use go_cli_messenger.Daemon.Windows.{
  is_claimed, is_window, unclaim, release, claim, attach, ends_call, forward, incoming,
}

-- A claimed call has a window, a call is kept under its own id, and none is kept without a server.
pub record Inv (s : Service) : Type 0 where
  pub claimed :
      (k : Text) → is_claimed (lookup k s.pending) ≡ true → is_some (lookup k s.sessions) ≡ true
  pub own_id :
      (k : Text) (p : PendingCall) → lookup k s.pending ≡ some p → text_eq p.invite.call_id k ≡ true
  pub connected : (k : Text) → s.signal ≡ none → lookup k s.pending ≡ none

-- What happens to the service. A message of the server comes over the connection in use.
pub data Op : Type 0 where
  connect : ℕ → List Text → Op
  message : Bool → Moment → SignalMessage → Op
  lost : ℕ → Op
  attaches : ℕ → Option (Text × Text) → Op
  comes : Text → ℕ → Moment → Bool → Option (Text × SignalMessage) → Op

module _ (json : Json) (c : Config) where
  unfoldable pub step : Op → Service → Service
  step (connect client urls) s = set_signal client urls s
  step (message verified t m) s =
      if is_some s.signal then (handle_signal json c verified t m s).0 else s
  step (lost client) s = (clear_signal client s).0
  step (attaches h request) s = (attach json c h request s).0
  step (comes call_id h t works m) s = (incoming json c call_id h t works m s).0

  unfoldable pub run : List Op → Service → Service
  unfolding step
  run [] s = s
  run (o ∷ ops) s = run ops (step o s)

  new_service-Inv : Inv new_service
  unfolding new_service lookup
  new_service-Inv = record { claimed = λ k h. cc; own_id = λ k p h. cc; connected = λ k h. refl }

  module _ (s : Service) (v : Inv s) where
    forget-Inv : (call_id : Text) → Inv (forget call_id s)
    forget-Inv call_id = record {
      claimed = λ k h. ground (
        arith,
        lookup-delete call_id k s.pending,
        lookup-delete call_id k s.sessions,
        v.claimed k,
      );
      own_id = λ k p h. ground (arith, lookup-delete call_id k s.pending, v.own_id k p);
      connected = λ k h. ground (arith, lookup-delete call_id k s.pending, v.connected k);
    }

    delete-Inv : (call_id : Text) → Inv (record s { pending = delete call_id s.pending })
    delete-Inv call_id = record {
      claimed = λ k h. ground (arith, lookup-delete call_id k s.pending, v.claimed k);
      own_id = λ k p h. ground (arith, lookup-delete call_id k s.pending, v.own_id k p);
      connected = λ k h. ground (arith, lookup-delete call_id k s.pending, v.connected k);
    }

    -- A call that is new is kept, unclaimed.
    add_pending-Inv :
        (b : Bool) (m : SignalMessage) (invites : Dict (List ℕ))
        → (b ≡ true → is_some (lookup m.call_id s.pending) ≡ false)
        → is_some s.signal ≡ true
        → Inv (record s { invites = invites; pending = add_pending b m s.pending })
    add_pending-Inv false m invites new on = record {
      claimed = v.claimed;
      own_id = v.own_id;
      connected = v.connected;
    }
    add_pending-Inv true m invites new on = record {
      claimed = λ k h. ground (
        arith,
        lookup-insert m.call_id k (record { invite = m; claimed = false }) s.pending,
        v.claimed k,
      );
      own_id = λ k p h. ground (
        arith,
        lookup-insert m.call_id k (record { invite = m; claimed = false }) s.pending,
        v.own_id k p,
      );
      connected = λ k h. ground arith;
    }

    handle_invite-Inv :
        (verified : Bool) (t : Moment) (m : SignalMessage)
        → is_some s.signal ≡ true
        → Inv (handle_invite json c verified t m s).0
    unfolding handle_invite
    handle_invite-Inv verified t m on =
        if_intro Good (not verified) _ _ (λ _. v)
          (λ _.
            if_intro Good (is_some (lookup m.call_id s.pending)) _ _ (λ _. kept)
              (λ _. if_intro Good _ _ _ (λ _. kept) (λ _. kept)))
      where
        Good : Service × List Effect → Type 0
        Good x = Inv x.0

        kept : Inv (record s {
          invites = (allow_invite c m.from t.now s.invites).0;
          pending =
              add_pending
                ((allow_invite c m.from t.now s.invites).1
                  && not (is_some (lookup m.call_id s.pending))
                  && not (is_unwanted json c))
                m
                s.pending;
        })
        kept = add_pending-Inv _ m _ (λ e. ground arith) on

    handle_signal-Inv :
        (verified : Bool) (t : Moment) (m : SignalMessage)
        → is_some s.signal ≡ true
        → Inv (handle_signal json c verified t m s).0
    unfolding handle_signal
    handle_signal-Inv verified t m on = by_type m.type
      where
        other : Inv (handle_other json c m s).0
        other = if_intro Inv (is_terminal_signal m.type) _ _ (λ _. forget-Inv m.call_id) (λ _. v)

        by_type : (type : SignalType) → Inv (handle_type json c type verified t m s).0
        by_type session_error = v
        by_type call_invite = handle_invite-Inv verified t m on
        by_type type = other

    -- The window leaves, and the call can be answered again.
    unclaim-Inv :
        (call_id : Text) (o : Option PendingCall)
        → lookup call_id s.pending ≡ o
        → Inv (record s {
          pending = unclaim call_id o s.pending;
          sessions = delete call_id s.sessions;
        })
    unclaim-Inv call_id none e = record {
      claimed = λ k h.
          ground (arith, lookup-delete call_id k s.sessions, v.claimed k, text_eq_iff call_id k);
      own_id = v.own_id;
      connected = v.connected;
    }
    unclaim-Inv call_id (some p) e = record {
      claimed = λ k h. ground (
        arith,
        lookup-insert call_id k (record p { claimed = false }) s.pending,
        lookup-delete call_id k s.sessions,
        v.claimed k,
      );
      own_id = λ k q h. ground (
        arith,
        lookup-insert call_id k (record p { claimed = false }) s.pending,
        v.own_id k q,
        v.own_id call_id p,
        text_eq_iff call_id k,
        text_eq_iff p.invite.call_id k,
        text_eq_iff p.invite.call_id call_id,
      );
      connected = λ k h. ground (arith, v.connected call_id);
    }

    release-Inv : (call_id : Text) (h : ℕ) → Inv (release call_id h s)
    unfolding release
    release-Inv call_id h =
        if_intro Inv (is_window (lookup call_id s.sessions) h) _ _
          (λ w. unclaim-Inv call_id (lookup call_id s.pending) refl) (λ _. v)

    claim-Inv :
        (call_id : Text) (h : ℕ) (o : Option PendingCall)
        → lookup call_id s.pending ≡ o
        → Inv (claim json c call_id h o s).0
    claim-Inv call_id h none e = v
    claim-Inv call_id h (some p) e =
        if_intro (λ (x : Service × List Effect × Bool). Inv x.0)
          (p.claimed || not (is_some s.signal)) _ _ (λ _. v)
          (λ free. record {
            claimed = λ k g. ground (
              arith,
              lookup-insert call_id k (record p { claimed = true }) s.pending,
              lookup-insert call_id k h s.sessions,
              v.claimed k,
            );
            own_id = λ k q g. ground (
              arith,
              lookup-insert call_id k (record p { claimed = true }) s.pending,
              v.own_id k q,
              v.own_id call_id p,
              text_eq_iff call_id k,
              text_eq_iff p.invite.call_id k,
              text_eq_iff p.invite.call_id call_id,
            );
            connected = λ k g. ground arith;
          })

  abbrev Good : Service × List Effect × Bool → Type 0
  Good x = Inv x.0

  forward-Inv :
      (call_id : Text) (h : ℕ) (works : Bool) (m : SignalMessage) (s : Service)
      → Inv s
      → Good (forward json c call_id h works m s)
  forward-Inv call_id h works m s v =
      if_intro Good (not (is_some s.signal && is_some (lookup call_id s.pending))) _ _
        (λ _. release-Inv s v call_id h)
        (λ _.
          if_intro Good (not works) _ _ (λ _. release-Inv s v call_id h)
            (λ _.
              if_intro Good (ends_call json c m.type) _ _
                (λ _. release-Inv _ (delete-Inv s v call_id) call_id h) (λ _. v)))

  step-Inv : (o : Op) (s : Service) → Inv s → Inv (step o s)
  unfolding step set_signal clear_signal attach incoming lookup
  step-Inv (connect client urls) s v = record {
    claimed = v.claimed;
    own_id = v.own_id;
    connected = λ k h. cc;
  }
  step-Inv (message verified t m) s v =
      if_intro Inv (is_some s.signal) _ _ (λ on. handle_signal-Inv s v verified t m on) (λ _. v)
  step-Inv (lost client) s v =
      if_intro (λ (x : Service × List Effect). Inv x.0) (not (is_current s.signal client)) _ _
        (λ _. v)
        (λ _. record { claimed = λ k h. cc; own_id = λ k p h. cc; connected = λ k h. refl })
  step-Inv (attaches h none) s v = v
  step-Inv (attaches h (some (kind, call_id))) s v =
      if_intro Good _ _ _ (λ _. v) (λ _. claim-Inv s v call_id h (lookup call_id s.pending) refl)
  step-Inv (comes call_id h t works none) s v = release-Inv s v call_id h
  step-Inv (comes call_id h t works (some (kind, m))) s v =
      if_intro Good _ _ _ (λ _. v) (λ _. forward-Inv call_id h works m s v)

  run-Inv : (ops : List Op) (s : Service) → Inv s → Inv (run ops s)
  unfolding run
  run-Inv [] s v = v
  run-Inv (o ∷ ops) s v = run-Inv ops (step o s) (step-Inv o s v)

  -- Whatever the server and the windows do, in any order: a call that is withheld from new windows
  -- has a window, every call is kept under its own id, and no call is kept while there is no
  -- connection to the server.
  pub run-new_service-Inv : (ops : List Op) → Inv (run ops new_service)
  run-new_service-Inv ops = run-Inv ops new_service new_service-Inv

-- ===== src/Daemon/Handover.antt =====
-- What a window may send, and how a call goes from one window to the next.
use go_cli_messenger.Common.{
  ℕ, ◌≡◌, refl, ◌∙◌, if_intro, Bool, true, false, ◌&&◌, ◌||◌, not, Option, none, some, is_some,
  List, [], ◌∷◌, All, Text, codes, text_eq, text_eq_iff, is_empty, lookup, insert, delete,
  lookup-insert_self, arith,
}
use go_cli_messenger.Protocol.Message.{Json}
use go_cli_messenger.Protocol.Signal.{
  SignalMessage, SignalType, call_accept, call_decline, call_end, webrtc_offer, webrtc_answer,
  webrtc_ice, webrtc_ice_complete,
}
use go_cli_messenger.Daemon.Service.{
  Config, PendingCall, Service, ready, error, Effect, to_window, close_window, to_server, Moment,
  is_valid,
}
use go_cli_messenger.Daemon.Windows.{
  release, refuse, claim, attach, ends_call, incoming, is_window_signal, is_addressed,
  valid_local_signal,
}

-- What a window has to say to the other side: the answer to an invitation, the end of the call, and
-- the negotiation of the peers.
pub data FromWindow : SignalType → Type 0 where
  accepts : FromWindow call_accept
  declines : FromWindow call_decline
  ends : FromWindow call_end
  offers : FromWindow webrtc_offer
  answers : FromWindow webrtc_answer
  candidate : FromWindow webrtc_ice
  last_candidate : FromWindow webrtc_ice_complete

module _ (json : Json) (c : Config) (t : Moment) (call_id : Text) (s : Service) where
  -- A message to the server is the window's own: of its call, from the user to the one who invited,
  -- valid, and of a type that a window may send.
  abbrev pub Allowed : Effect → Type 0
  Allowed (to_server m) =
      (is_valid json c t m ≡ true)
      × (m.call_id ≡ call_id)
      × (m.from ≡ c.username)
      × ((p : PendingCall) × (lookup call_id s.pending ≡ some p) × (m.to ≡ p.invite.from))
      × FromWindow m.type
  Allowed e = Unit

  addressed :
      (m : SignalMessage) (o : Option PendingCall)
      → lookup call_id s.pending ≡ o
      → is_addressed json c o m.to ≡ true
      → (p : PendingCall) × (lookup call_id s.pending ≡ some p) × (m.to ≡ p.invite.from)
  addressed m none e h = cc
  addressed m (some p) e h = (p, e, (text_eq_iff m.to p.invite.from).0 h)

  from_window : (type : SignalType) → is_window_signal json c type ≡ true → FromWindow type
  unfolding is_window_signal
  from_window call_accept h = accepts
  from_window call_decline h = declines
  from_window call_end h = ends
  from_window webrtc_offer h = offers
  from_window webrtc_answer h = answers
  from_window webrtc_ice h = candidate
  from_window webrtc_ice_complete h = last_candidate
  from_window type h = ground arith

  valid_local_signal-Allowed :
      (m : SignalMessage) → valid_local_signal json c t call_id m s ≡ true → Allowed (to_server m)
  unfolding valid_local_signal
  valid_local_signal-Allowed m h = (
    ground arith,
    (text_eq_iff m.call_id call_id).0 (ground arith),
    (text_eq_iff m.from c.username).0 (ground arith),
    addressed m (lookup call_id s.pending) refl (ground arith),
    from_window m.type (ground arith),
  )

  -- Whatever a window writes, the service passes on to the server only what the window may send.
  pub incoming-Allowed :
      (h : ℕ) (works : Bool) (m : Option (Text × SignalMessage))
      → All Allowed (incoming json c call_id h t works m s).1
  unfolding incoming
  incoming-Allowed h works none = (tt, tt)
  incoming-Allowed h works (some (kind, m)) =
      if_intro Sent
        (not (text_eq kind (codes "signal")) || not (valid_local_signal json c t call_id m s)) _ _
        (λ _. (tt, tt))
        (λ fine.
          let allowed = valid_local_signal-Allowed m (ground arith) in
          if_intro Sent (not (is_some s.signal && is_some (lookup call_id s.pending))) _ _
            (λ _. (tt, tt))
            (λ _.
              if_intro Sent (not works) _ _ (λ _. (tt, (tt, tt)))
                (λ _.
                  if_intro Sent (ends_call json c m.type) _ _ (λ _. (allowed, (tt, tt)))
                    (λ _. (allowed, tt)))))
    where
      Sent : Service × List Effect × Bool → Type 0
      Sent x = All Allowed x.1

module _ (json : Json) (c : Config) (call_id : Text) (named : is_empty call_id ≡ false) where
  -- The state with the call in the hands of a window.
  abbrev taken : ℕ → PendingCall → Service → Service
  taken h p s = record s {
    pending = insert call_id (record p { claimed = true }) s.pending;
    sessions = insert call_id h s.sessions;
  }

  attach-lookup :
      (h : ℕ) (s : Service) (o : Option PendingCall)
      → lookup call_id s.pending ≡ o
      → attach json c h (some (codes "attach", call_id)) s ≡ claim json c call_id h o s
  unfolding attach text_eq
  attach-lookup h s o e = rw (named, e) refl

  attach_free :
      (h : ℕ) (p : PendingCall) (s : Service)
      → lookup call_id s.pending ≡ some p
      → p.claimed ≡ false
      → is_some s.signal ≡ true
      → attach json c h (some (codes "attach", call_id)) s
        ≡ (taken h p s, to_window h (ready c.username s.stun_urls p.invite) ∷ [], true)
  attach_free h p s e free on = attach-lookup h s (some p) e ∙ ground arith

  attach_claimed :
      (h : ℕ) (p : PendingCall) (s : Service)
      → lookup call_id s.pending ≡ some p
      → p.claimed ≡ true
      → attach json c h (some (codes "attach", call_id)) s ≡ refuse h s
  attach_claimed h p s e own = attach-lookup h s (some p) e ∙ ground arith

  abbrev after_release : ℕ → PendingCall → Service → Service
  after_release h p s = record s {
    sessions = delete call_id (insert call_id h s.sessions);
    pending =
        insert call_id (record p { claimed = false })
          (insert call_id (record p { claimed = true }) s.pending);
  }

  release-taken :
      (h : ℕ) (p : PendingCall) (s : Service)
      → release call_id h (taken h p s) ≡ after_release h p s
  unfolding release
  release-taken h p s =
      rw
        (
          lookup-insert_self call_id h s.sessions,
          lookup-insert_self call_id (record p { claimed = true }) s.pending,
        )
        (ground arith)

  -- While one window has a call, no other gets it; when that window leaves, the next one gets it,
  -- with the invitation as it came.
  pub attach-again :
      (h k : ℕ) (p : PendingCall) (t : Moment) (s : Service)
      → is_some s.signal ≡ true
      → lookup call_id s.pending ≡ some p
      → p.claimed ≡ false
      → let (s1, sent, on1) = attach json c h (some (codes "attach", call_id)) s in
        let (s2, denied, on2) = attach json c k (some (codes "attach", call_id)) s1 in
        let (s3, last, on3) = incoming json c call_id h t true none s2 in
        let (s4, again, on4) = attach json c k (some (codes "attach", call_id)) s3 in
        (sent ≡ to_window h (ready c.username s.stun_urls p.invite) ∷ [])
        × (s2 ≡ s1)
        × (denied ≡ to_window k error ∷ close_window k ∷ [])
        × (again ≡ to_window k (ready c.username s.stun_urls p.invite) ∷ [])
  unfolding incoming
  attach-again h k p t s on e free =
      rw
        (
          attach_free h p s e free on,
          attach_claimed k (record p { claimed = true }) (taken h p s)
              (lookup-insert_self call_id (record p { claimed = true }) s.pending) refl,
          release-taken h p s,
          attach_free k (record p { claimed = false }) (after_release h p s)
              (lookup-insert_self call_id (record p { claimed = false })
                (insert call_id (record p { claimed = true }) s.pending))
              refl on,
        )
        (refl, refl, refl, refl)

-- ===== src/Daemon/Windows.antt =====
-- internal/client/daemon/daemon.go: `handleLocal` in its steps: a window attaches to a call, its
-- messages come in, and it leaves.
use go_cli_messenger.Common.{
  ℕ, Bool, true, false, ◌&&◌, ◌||◌, not, ◌==◌, if◌then◌else◌, Option, none, some, is_some, List, [],
  ◌∷◌, ◌++◌, Text, codes, text_eq, is_empty, Dict, lookup, insert, delete,
}
use go_cli_messenger.Protocol.Message.{Json}
use go_cli_messenger.Protocol.Signal.{
  SignalMessage, SignalType, call_accept, call_decline, call_end, webrtc_offer, webrtc_answer,
  webrtc_ice, webrtc_ice_complete,
}
use go_cli_messenger.Daemon.Service.{
  Config, PendingCall, Service, ready, error, Effect, to_window, close_window, to_server, Moment,
  is_valid,
}

abbrev pub is_claimed : Option PendingCall → Bool
is_claimed none = false
is_claimed (some p) = p.claimed

abbrev pub is_window : Option ℕ → ℕ → Bool
is_window none h = false
is_window (some k) h = k == h

abbrev pub unclaim : Text → Option PendingCall → Dict PendingCall → Dict PendingCall
unclaim call_id none pending = pending
unclaim call_id (some p) pending = insert call_id (record p { claimed = false }) pending

-- `release`
unfoldable pub release : Text → ℕ → Service → Service
release call_id h s =
    if is_window (lookup call_id s.sessions) h
    then record s {
      sessions = delete call_id s.sessions;
      pending = unclaim call_id (lookup call_id s.pending) s.pending;
    }
    else s

-- The return from the loop, with what is deferred.
abbrev pub leave : Text → ℕ → Service → List Effect → Service × List Effect × Bool
leave call_id h s effects = (release call_id h s, effects ++ close_window h ∷ [], false)

abbrev pub refuse : ℕ → Service → Service × List Effect × Bool
refuse h s = (s, to_window h error ∷ close_window h ∷ [], false)

module _ (json : Json) (c : Config) where
  abbrev pub claim : Text → ℕ → Option PendingCall → Service → Service × List Effect × Bool
  claim call_id h none s = refuse h s
  claim call_id h (some p) s = if p.claimed || not (is_some s.signal) then refuse h s else (
    record s {
      pending = insert call_id (record p { claimed = true }) s.pending;
      sessions = insert call_id h s.sessions;
    },
    to_window h (ready c.username s.stun_urls p.invite) ∷ [],
    true,
  )

  -- The first message of a window: its kind and call, if it can be decoded. The flag says whether
  -- the loop goes on.
  unfoldable pub attach : ℕ → Option (Text × Text) → Service → Service × List Effect × Bool
  attach h none s = refuse h s
  attach h (some (kind, call_id)) s =
      if not (text_eq kind (codes "attach")) || is_empty call_id
      then refuse h s
      else claim call_id h (lookup call_id s.pending) s

  unfoldable pub is_window_signal : SignalType → Bool
  is_window_signal call_accept = true
  is_window_signal call_decline = true
  is_window_signal call_end = true
  is_window_signal webrtc_offer = true
  is_window_signal webrtc_answer = true
  is_window_signal webrtc_ice = true
  is_window_signal webrtc_ice_complete = true
  is_window_signal type = false

  abbrev pub is_addressed : Option PendingCall → Text → Bool
  is_addressed none to = false
  is_addressed (some p) to = text_eq to p.invite.from

  -- `validLocalSignal`
  unfoldable pub valid_local_signal : Moment → Text → SignalMessage → Service → Bool
  unfolding is_window_signal
  valid_local_signal t call_id m s =
      is_valid json c t m
      && text_eq m.call_id call_id
      && text_eq m.from c.username
      && is_addressed (lookup call_id s.pending) m.to
      && is_window_signal m.type

  abbrev pub ends_call : SignalType → Bool
  ends_call call_decline = true
  ends_call call_end = true
  ends_call type = false

  -- A message of the window that is passed to the server; `works` says whether `client.Send` does.
  abbrev pub forward : Text → ℕ → Bool → SignalMessage → Service → Service × List Effect × Bool
  forward call_id h works m s =
      if not (is_some s.signal && is_some (lookup call_id s.pending))
      then leave call_id h s []
      else if not works
      then leave call_id h s (to_window h error ∷ [])
      else if ends_call m.type
      then leave call_id h (record s { pending = delete call_id s.pending }) (to_server m ∷ [])
      else (s, to_server m ∷ [], true)

  -- One round of the loop: the end of the connection, or a message with its kind.
  unfoldable pub incoming :
      Text
      → ℕ
      → Moment
      → Bool
      → Option (Text × SignalMessage)
      → Service
      → Service × List Effect × Bool
  unfolding release valid_local_signal
  incoming call_id h t works none s = leave call_id h s []
  incoming call_id h t works (some (kind, m)) s =
      if not (text_eq kind (codes "signal")) || not (valid_local_signal t call_id m s)
      then (s, to_window h error ∷ [], true)
      else forward call_id h works m s

-- ===== src/Peer/Negotiation.antt =====
-- internal/client/peer/peer.go: offers, answers and ICE candidates. The calls on the WebRTC
-- connection are recorded in order, and its answers may depend on those before. The context of the
-- peer does not end within an operation, and the queue of signals has room.
pub mod Ordered
pub mod Roles
use go_cli_messenger.Common.{
  ℕ, zero, suc, ◌+◌, Bool, true, false, ◌&&◌, not, ◌==◌, if◌then◌else◌, Option, none, some, is_some,
  List, [], ◌∷◌, ◌++◌, Text,
}

pub data Role : Type 0 where
  caller callee : Role

-- webrtc.SDPType: pranswer, rollback and an unknown type are `other`.
pub data SdpType : Type 0 where
  offer answer other : SdpType

pub record Description : Type 0 where
  pub type : SdpType
  pub sdp : Text

pub record Signal : Type 0 where
  pub description : Option Description
  pub candidate : Option Text
  pub ice_complete : Bool

-- What is asked of the WebRTC connection.
pub data Call : Type 0 where
  create_offer : Bool → Call
  create_answer : Call
  set_local set_remote : Description → Call
  add_candidate : Text → Call

pub data Error : Type 0 where
  closed unexpected_signal : Error
  refused : Call → Error
  no_local_description : Error

pub data Result : Type 0 where
  ok : Result
  err : Error → Result

-- The answers of the connection, by the calls made so far.
pub record WebRtc : Type 0 where
  pub offers : List Call → Bool → Option Description
  pub answers : List Call → Option Description
  pub sets_local : List Call → Description → Bool
  pub sets_remote : List Call → Description → Bool
  pub adds : List Call → Text → Bool
  pub local : List Call → Option Description

pub record Peer : Type 0 where
  pub role : Role
  pub is_closed : Bool
  pub remote_description : Bool
  pub pending : List Text
  pub calls : List Call
  pub signals : List Signal

abbrev pub is_ok : Result → Bool
is_ok ok = true
is_ok (err e) = false

-- `New`, as far as the negotiation is concerned
abbrev pub new_peer : Role → Peer
new_peer role = record {
  role = role;
  is_closed = false;
  remote_description = false;
  pending = [];
  calls = [];
  signals = [];
}

abbrev pub called : Call → Peer → Peer
called c p = record p { calls = p.calls ++ c ∷ [] }

abbrev pub no_signal : Signal
no_signal = record { description = none; candidate = none; ice_complete = false }

-- `emitSignal`
unfoldable pub emit_signal : Signal → Peer → Peer × Result
emit_signal s p =
    if p.is_closed then (p, err closed) else (record p { signals = p.signals ++ s ∷ [] }, ok)

-- The connection's callback for its own candidates; `none` is the end of them.
unfoldable pub on_candidate : Option Text → Peer → Peer
unfolding emit_signal
on_candidate none p = (emit_signal (record no_signal { ice_complete = true }) p).0
on_candidate (some c) p = (emit_signal (record no_signal { candidate = some c }) p).0

-- The callee takes offers, the caller answers.
abbrev pub expects : Role → SdpType → Bool
expects callee offer = true
expects caller answer = true
expects role type = false

module _ (w : WebRtc) where
  emit_local : Option Description → Peer → Peer × Result
  unfolding emit_signal
  emit_local none p = (p, err no_local_description)
  emit_local (some d) p = emit_signal (record no_signal { description = some d }) p

  -- `SetLocalDescription`, and the description that is then sent to the other side
  set_local_and_emit : Option Description → Call → Peer → Peer × Result
  unfolding emit_local
  set_local_and_emit none c p = (called c p, err (refused c))
  set_local_and_emit (some d) c p =
      let q = called c p in
      if w.sets_local q.calls d
      then emit_local (w.local (called (set_local d) q).calls) (called (set_local d) q)
      else (called (set_local d) q, err (refused (set_local d)))

  unfoldable pub create_an_offer : Bool → Peer → Peer × Result
  unfolding set_local_and_emit
  create_an_offer restart p = set_local_and_emit (w.offers p.calls restart) (create_offer restart) p

  abbrev offer_as : Role → Bool → Peer → Peer × Result
  offer_as callee restart p = (p, err unexpected_signal)
  offer_as caller restart p = if p.is_closed then (p, err closed) else create_an_offer restart p

  -- `Start`, and `RestartICE` where the flag is set
  unfoldable pub start_offer : Bool → Peer → Peer × Result
  unfolding create_an_offer
  start_offer restart p = offer_as p.role restart p

  unfoldable pub add_one : Text → Peer → Peer × Result
  add_one c p =
      if w.adds p.calls c
      then (called (add_candidate c) p, ok)
      else (called (add_candidate c) p, err (refused (add_candidate c)))

  -- The loop over the waiting candidates: the first that is refused ends it.
  pub add_all : List Text → Peer → Peer × Result
  unfolding add_one
  add_all [] p = (p, ok)
  add_all (c ∷ cs) p =
      let rest = add_all cs (called (add_candidate c) p) in
      if w.adds p.calls c then rest else add_one c p

  unfoldable pub flush_candidates : Peer → Peer × Result
  unfolding add_all
  flush_candidates p = add_all p.pending (record p { remote_description = true; pending = [] })

  unfoldable pub apply_candidate : Text → Peer → Peer × Result
  unfolding add_one
  apply_candidate c p =
      if not p.remote_description
      then (record p { pending = p.pending ++ c ∷ [] }, ok)
      else add_one c p

  -- The end of `applyDescription`: an offer is answered.
  answer_offer : SdpType → Peer × Result → Peer × Result
  unfolding set_local_and_emit
  answer_offer offer (p, ok) = set_local_and_emit (w.answers p.calls) create_answer p
  answer_offer type (p, r) = (p, r)

  unfoldable pub apply_description : Description → Peer → Peer × Result
  unfolding flush_candidates answer_offer
  apply_description d p =
      if not (expects p.role d.type)
      then (p, err unexpected_signal)
      else if w.sets_remote p.calls d
      then answer_offer d.type (flush_candidates (called (set_remote d) p))
      else (called (set_remote d) p, err (refused (set_remote d)))

  abbrev apply_one : Option Description → Option Text → Bool → Peer → Peer × Result
  apply_one none none true p = (p, ok)
  apply_one none (some c) false p = apply_candidate c p
  apply_one (some d) none false p = apply_description d p
  apply_one d c complete p = (p, err unexpected_signal)

  -- `ApplySignal`: the signal holds exactly one value
  unfoldable pub apply_signal : Signal → Peer → Peer × Result
  unfolding apply_candidate apply_description
  apply_signal s p =
      if p.is_closed then (p, err closed) else apply_one s.description s.candidate s.ice_complete p

  -- The signals of a conversation, and whether each was applied without an error.
  unfoldable pub apply_signals : List Signal → Peer → Peer × Bool
  unfolding apply_signal
  apply_signals [] p = (p, true)
  apply_signals (s ∷ ss) p =
      let (q, r) = apply_signal s p in let (t, good) = apply_signals ss q in (t, is_ok r && good)

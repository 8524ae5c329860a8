-- ===== src/Client/Reading.antt =====
-- `readLoop` of internal/client/signaling/client.go, while the context of the client lives. A channel
-- that is full is waited for, so that nothing is lost on the way to the application.
use go_cli_messenger.Common.{
  ◌≡◌, refl, sym, ap, ◌∙◌, if_intro, Bool, true, false, any_of, not, if◌then◌else◌, Option, none,
  some, List, [], ◌∷◌, ◌++◌, Text, codes, arith,
}
use mathlib.Core.List.{append-nil, append_assoc}
use go_cli_messenger.Protocol.Signal.{SignalType, SignalMessage, session_ping, session_pong}
use go_cli_messenger.Protocol.Message.{Json}
use go_cli_messenger.Protocol.Validate.{Validator, Result, ok, err, decode_signal}
use go_cli_messenger.Client.{Env, Read, read_failed, frame, message_of, validated}

-- `reported` is that the channel of errors, which keeps one, has one.
pub record Reader : Type 0 where
  pub events : List SignalMessage
  pub pongs : List SignalMessage
  pub reported : Bool
  pub closed : Bool

abbrev pub new_reader : Reader
new_reader = record { events = []; pongs = []; reported = false; closed = false }

abbrev pub is_ping : SignalType → Bool
is_ping session_ping = true
is_ping type = false

-- What a read is to the reader.
pub data Kind : Type 0 where
  lost ignored bad ping : Kind
  for_application : SignalMessage → Kind

abbrev pub Round : Type 0
Round = (Env × Bool) × Read

-- The validator with what its clock shows in this round.
abbrev pub at : Env → Validator → Validator
at env v = record v { now = env.now }

module _ (json : Json) (v : Validator) (address : Text) where
  -- The pong of the client, if it is a valid message.
  abbrev pub pong_of : Env → Option SignalMessage
  pong_of env =
      validated json (at env v) (message_of env session_pong address (codes "server") [] [])

  abbrev answer_ping : Bool → Option SignalMessage → Reader → Reader
  answer_ping works none s = record s { closed = true }
  answer_ping works (some pong) s =
      if works then record s { pongs = s.pongs ++ pong ∷ [] } else record s { closed = true }

  abbrev on_message : Env → Bool → Result SignalMessage → Reader → Reader
  on_message env works (err e) s = record s { reported = true }
  on_message env works (ok m) s =
      if is_ping m.type
      then answer_ping works (pong_of env) s
      else record s { events = s.events ++ m ∷ [] }

  -- One round; `works` is that a pong is sent.
  unfoldable pub read_one : Env → Bool → Read → Reader → Reader
  read_one env works read_failed s = record s { reported = true; closed = true }
  read_one env works (frame is_text bytes) s =
      if is_text then on_message env works (decode_signal json bytes (at env v)) s else s

  unfoldable pub read_loop : List ((Env × Bool) × Read) → Reader → Reader
  unfolding read_one
  read_loop [] s = s
  read_loop (((env, works), r) ∷ rs) s =
      let next = read_one env works r s in if next.closed then next else read_loop rs next

  abbrev kind_of_message : Result SignalMessage → Kind
  kind_of_message (err e) = bad
  kind_of_message (ok m) = if is_ping m.type then ping else for_application m

  abbrev pub kind_of : Env → Read → Kind
  kind_of env read_failed = lost
  kind_of env (frame false bytes) = ignored
  kind_of env (frame true bytes) = kind_of_message (decode_signal json bytes (at env v))

  -- What the application gets of it: the valid message that is not a ping.
  abbrev pub heard : Kind → List SignalMessage
  heard (for_application m) = m ∷ []
  heard kind = []

  abbrev made : Bool → Option SignalMessage → List SignalMessage
  made true (some pong) = pong ∷ []
  made works o = []

  -- The pong that is sent for it.
  abbrev pub answer : Env → Bool → Kind → List SignalMessage
  answer env works ping = made works (pong_of env)
  answer env works kind = []

  abbrev fails : Bool → Option SignalMessage → Bool
  fails works none = true
  fails works (some pong) = not works

  -- The client closes on an error of the connection, and when a ping cannot be answered.
  abbrev pub closes : Env → Bool → Kind → Bool
  closes env works lost = true
  closes env works ping = fails works (pong_of env)
  closes env works kind = false

  abbrev pub closes_at : Round → Bool
  closes_at ((env, works), r) = closes env works (kind_of env r)

  unfoldable pub all_heard : List Round → List SignalMessage
  all_heard [] = []
  all_heard (((env, works), r) ∷ rs) = heard (kind_of env r) ++ all_heard rs

  unfoldable pub all_pongs : List Round → List SignalMessage
  all_pongs [] = []
  all_pongs (((env, works), r) ∷ rs) = answer env works (kind_of env r) ++ all_pongs rs

  -- What a round adds, from a state that is open.
  abbrev Adds : Env → Bool → Kind → Reader → Reader → Type 0
  Adds env works k s t =
      (t.events ≡ s.events ++ heard k)
      × (t.pongs ≡ s.pongs ++ answer env works k)
      × (t.closed ≡ closes env works k)

  answer_ping-Adds :
      (env : Env) (works : Bool) (o : Option SignalMessage) (s : Reader)
      → s.closed ≡ false
      → ((answer_ping works o s).events ≡ s.events ++ [])
        × ((answer_ping works o s).pongs ≡ s.pongs ++ made works o)
        × ((answer_ping works o s).closed ≡ fails works o)
  answer_ping-Adds env works none s h = (sym (append-nil s.events), none_made works, refl)
    where
      none_made : (b : Bool) → s.pongs ≡ s.pongs ++ made b none
      none_made true = sym (append-nil s.pongs)
      none_made false = sym (append-nil s.pongs)
  answer_ping-Adds env true (some pong) s h = (sym (append-nil s.events), refl, h)
  answer_ping-Adds env false (some pong) s h =
      (sym (append-nil s.events), sym (append-nil s.pongs), refl)

  on_message-Adds :
      (env : Env) (works : Bool) (r : Result SignalMessage) (s : Reader)
      → s.closed ≡ false
      → Adds env works (kind_of_message r) s (on_message env works r s)
  on_message-Adds env works (err e) s h = (sym (append-nil s.events), sym (append-nil s.pongs), h)
  on_message-Adds env works (ok m) s h = by_type (is_ping m.type)
    where
      by_type :
          (b : Bool)
          → Adds env works (if b then ping else for_application m) s (
              if b
              then answer_ping works (pong_of env) s
              else record s { events = s.events ++ m ∷ [] })
      by_type true = answer_ping-Adds env works (pong_of env) s h
      by_type false = (refl, sym (append-nil s.pongs), h)

  read_one-Adds :
      (env : Env) (works : Bool) (r : Read) (s : Reader)
      → s.closed ≡ false
      → Adds env works (kind_of env r) s (read_one env works r s)
  unfolding read_one
  read_one-Adds env works read_failed s h =
      (sym (append-nil s.events), sym (append-nil s.pongs), refl)
  read_one-Adds env works (frame true bytes) s h =
      on_message-Adds env works (decode_signal json bytes (at env v)) s h
  read_one-Adds env works (frame false bytes) s h =
      (sym (append-nil s.events), sym (append-nil s.pongs), h)

  -- A round that closes the client adds nothing.
  made-fails : (works : Bool) (o : Option SignalMessage) → fails works o ≡ true → made works o ≡ []
  made-fails true none h = refl
  made-fails false none h = refl
  made-fails true (some pong) h = ground arith
  made-fails false (some pong) h = refl

  closing_adds :
      (env : Env) (works : Bool) (k : Kind)
      → closes env works k ≡ true
      → (heard k ≡ []) × (answer env works k ≡ [])
  closing_adds env works lost h = (refl, refl)
  closing_adds env works ping h = (refl, made-fails works (pong_of env) h)
  closing_adds env works ignored h = ground arith
  closing_adds env works bad h = ground arith
  closing_adds env works (for_application m) h = ground arith

  -- The loop ends at a round that closes the client, or has had all of them.
  abbrev pub Ends : List Round → Reader → Type 0
  Ends [] t = t.closed ≡ false
  Ends (r ∷ rs) t = (closes_at r ≡ true) × (t.closed ≡ true)

  -- The rounds up to the first that closes the client are dealt with.
  pub record Heard (rs : List Round) (s t : Reader) : Type 0 where
    pub dealt_with : List Round
    pub rest : List Round
    pub in_order : rs ≡ dealt_with ++ rest
    pub none_closes : any_of closes_at dealt_with ≡ false
    pub all_events : t.events ≡ s.events ++ all_heard dealt_with
    pub all_answers : t.pongs ≡ s.pongs ++ all_pongs dealt_with
    pub ends : Ends rest t

  -- From a state that is open the loop deals with the reads in order up to the first that closes the
  -- client (an error of the connection, or a ping whose pong is not valid or not sent), or with all:
  -- the application gets exactly the valid messages that are no pings, in order, one pong is sent for
  -- each ping before it, and the client is closed exactly if there is such a read.
  pub read_loop-Heard :
      (rs : List Round) (s : Reader) → s.closed ≡ false → Heard rs s (read_loop rs s)
  unfolding read_loop all_heard all_pongs
  read_loop-Heard [] s h = record {
    dealt_with = [];
    rest = [];
    in_order = refl;
    none_closes = refl;
    all_events = sym (append-nil s.events);
    all_answers = sym (append-nil s.pongs);
    ends = h;
  }
  read_loop-Heard (((env, works), r) ∷ rs) s h =
      let next = read_one env works r s in
      let (events, pongs, ending) = read_one-Adds env works r s h in
      if_intro (Heard (((env, works), r) ∷ rs) s) next.closed _ _
        (λ closed.
          let (no_event, no_pong) = closing_adds env works (kind_of env r) (sym ending ∙ closed) in
          record {
            dealt_with = [];
            rest = ((env, works), r) ∷ rs;
            in_order = refl;
            none_closes = refl;
            all_events = events ∙ ap (λ l. s.events ++ l) no_event;
            all_answers = pongs ∙ ap (λ l. s.pongs ++ l) no_pong;
            ends = (sym ending ∙ closed, closed);
          })
        (λ goes_on.
          let more = read_loop-Heard rs next goes_on in
          record {
            dealt_with = ((env, works), r) ∷ more.dealt_with;
            rest = more.rest;
            in_order = ap (λ l. ((env, works), r) ∷ l) more.in_order;
            none_closes = rw (← ending, goes_on) more.none_closes;
            all_events =
                more.all_events
                ∙ rw events
                    (append_assoc s.events (heard (kind_of env r)) (all_heard more.dealt_with));
            all_answers =
                more.all_answers
                ∙ rw pongs (
                    append_assoc s.pongs (answer env works (kind_of env r))
                      (all_pongs more.dealt_with));
            ends = more.ends;
          })

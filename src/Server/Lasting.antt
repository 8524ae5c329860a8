-- ===== src/Server/Lasting.antt =====
-- The suffix of a fingerprint, which stays bound to the key it was first seen with, whatever the server
-- of internal/server/websocket/server.go goes through.
use go_cli_messenger.Common.{
  ℕ, ◌≡◌, refl, Bool, true, false, if◌then◌else◌, some, List, [], ◌∷◌, Text, take, Dict, lookup,
}
use go_cli_messenger.Protocol.Message.{Json}
use go_cli_messenger.Identity.Proof.{Crypto}
use go_cli_messenger.Presence
use go_cli_messenger.Server.Client.{Env, Client}
use go_cli_messenger.Server.State.{Server, Config, close_client}
use go_cli_messenger.Server.Session.{Session, Texts, hello}
use go_cli_messenger.Server.World.{
  Phase, waiting, serving, over, World, Event, greets, receives, leaves, closes, beats, writes,
  sweeps, stops, greeted, greet_in, receive_in, leave_in, beat_in, step, run, new_world,
}
use go_cli_messenger.Server.Running.{run-Inv, run-new_world-Inv}
use go_cli_messenger.Server.Suffixes.{
  Keeps, Keeps-eq, disconnect-suffixes, sweep-suffixes, shutdown-suffixes, hello-Keeps,
  receive-suffixes,
}

module _ (json : Json) (crypto : Crypto) (texts : Texts) (env : Env) (pick : Client → Bool) where
  greeted-Keeps :
      (h : ℕ) (d : Dict Text) (r : Server × Session) (w : World)
      → Keeps d r.0.suffixes
      → Keeps d (greeted json crypto texts env pick h r w).server.suffixes
  greeted-Keeps h d (s, r) w v = v

  greet_in-Keeps :
      (p : Phase) (h : ℕ) (is_text : Bool) (bytes : Text) (w : World)
      → Keeps w.server.suffixes
          (greet_in json crypto texts env pick p h is_text bytes w).server.suffixes
  greet_in-Keeps waiting h is_text bytes w =
      greeted-Keeps h w.server.suffixes (hello json crypto texts env pick h is_text bytes w.server)
        w (hello-Keeps env pick h json crypto texts is_text bytes w.server)
  greet_in-Keeps p h is_text bytes w = λ k g b. b

  receive_in-suffixes :
      (p : Phase) (h : ℕ) (is_text : Bool) (bytes : Text) (w : World)
      → (receive_in json crypto texts env pick p h is_text bytes w).server.suffixes
        ≡ w.server.suffixes
  receive_in-suffixes serving h is_text bytes w =
      receive-suffixes env pick h json crypto texts is_text bytes w.server
  receive_in-suffixes p h is_text bytes w = refl

  leave_in-suffixes :
      (p : Phase) (h : ℕ) (w : World)
      → (leave_in json crypto texts env pick p h w).server.suffixes ≡ w.server.suffixes
  leave_in-suffixes over h w = refl
  leave_in-suffixes p h w = disconnect-suffixes env pick h w.server

  beat_in-suffixes :
      (p : Phase) (h : ℕ) (stop : Bool) (w : World)
      → (beat_in json crypto texts env pick p h stop w).server.suffixes ≡ w.server.suffixes
  beat_in-suffixes waiting h stop w = refl
  beat_in-suffixes p h stop w = refl

  closes-suffixes :
      (b : Bool) (h : ℕ) (w : World)
      → (if b then record w { server = close_client h w.server } else w).server.suffixes
        ≡ w.server.suffixes
  closes-suffixes true h w = refl
  closes-suffixes false h w = refl

  step-Keeps :
      (event : Event) (w : World)
      → Keeps w.server.suffixes (step json crypto texts env pick event w).server.suffixes
  unfolding step
  step-Keeps (greets h is_text bytes) w = greet_in-Keeps (w.phase h) h is_text bytes w
  step-Keeps (receives h is_text bytes) w =
      Keeps-eq w.server.suffixes _ (receive_in-suffixes (w.phase h) h is_text bytes w)
  step-Keeps (leaves h) w = Keeps-eq w.server.suffixes _ (leave_in-suffixes (w.phase h) h w)
  step-Keeps (closes h) w =
      Keeps-eq w.server.suffixes _ (closes-suffixes (w.server.clients h).closing h w)
  step-Keeps (beats h stop) w = Keeps-eq w.server.suffixes _ (beat_in-suffixes (w.phase h) h stop w)
  step-Keeps (writes h stop written) w = λ k g b. b
  step-Keeps sweeps w = Keeps-eq w.server.suffixes _ (sweep-suffixes env pick w.server)
  step-Keeps stops w = Keeps-eq w.server.suffixes _ (shutdown-suffixes w.server)

module _ (json : Json) (crypto : Crypto) (texts : Texts) where
  run-Keeps :
      (w : World) (events : List ((Env × (Client → Bool)) × Event))
      → Keeps w.server.suffixes (run json crypto texts w events).server.suffixes
  unfolding run
  run-Keeps w [] k g b = b
  run-Keeps w (((env, pick), event) ∷ rest) k g b =
      run-Keeps (step json crypto texts env pick event w) rest k g
        (step-Keeps json crypto texts env pick event w k g b)

  -- If a user is registered on a fresh server after some events, and a user is registered after any
  -- further ones, whether or not the first has left meanwhile, and the suffixes of their keys'
  -- fingerprints are the same, then the fingerprints are the same: a suffix that has let a key in
  -- never lets in another.
  pub suffix_lasts :
      (config : Config) (before after : List ((Env × (Client → Bool)) × Event)) (u v : Text)
      (e f : Presence.Endpoint)
      → lookup u (run json crypto texts (new_world config) before).server.presence ≡ some e
      → lookup v
          (run json crypto texts
            (run json crypto texts (new_world config) before)
            after).server.presence
        ≡ some f
      → take 12
          ((run json crypto texts (new_world config) before).server.clients e.handle).fingerprint
        ≡ take 12
            ((run json crypto texts
                (run json crypto texts (new_world config) before)
                after).server.clients
              f.handle).fingerprint
      → ((run json crypto texts (new_world config) before).server.clients e.handle).fingerprint
        ≡ ((run json crypto texts
              (run json crypto texts (new_world config) before)
              after).server.clients
            f.handle).fingerprint
  suffix_lasts config before after u v e f hu hv same =
      let w = run json crypto texts (new_world config) before in
      let first = run-new_world-Inv json crypto texts config before in
      let a = (first.online u e hu).suffix_bound in
      let b = ((run-Inv json crypto texts w after first).online v f hv).suffix_bound in
      let kept = run-Keeps w after _ _ a in cc (kept, b, same)

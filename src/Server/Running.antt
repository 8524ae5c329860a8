-- ===== src/Server/Running.antt =====
-- The server over any sequence of events.
use go_cli_messenger.Common.{
  ℕ, ◌-◌, ◌≡◌, refl, Bool, true, false, ◌&&◌, ltb, if◌then◌else◌, List, [], ◌∷◌, Text,
}
use go_cli_messenger.Protocol.Message.{Json}
use go_cli_messenger.Identity.Proof.{Crypto}
use go_cli_messenger.Presence
use go_cli_messenger.Server.Client.{Env, Client, Delivery, sent, gone, slow, heartbeat, after_ping}
use go_cli_messenger.Server.State.{Server, Config, close_client}
use go_cli_messenger.Server.Session.{Session, joined, dropped, Texts, shutdown, close_all}
use go_cli_messenger.Server.World.{
  Phase, waiting, serving, over, World, Event, greets, receives, leaves, closes, beats, writes,
  sweeps, stops, greeted, greet_in, receive_in, leave_in, beat_in, step, run, new_world,
}
use go_cli_messenger.Server.Invariant.{
  Inv, Kept, new_server-Inv, deliver-Kept, write_one-Kept, Kept-trans, set_client-Inv,
  close_client-Inv,
}
use go_cli_messenger.Server.Turns.{receive-Inv, sweep-Inv}
use go_cli_messenger.Server.Coming.{disconnect-Inv}
use go_cli_messenger.Server.Handshake.{Settled, hello-Settled}

close_all-Inv :
    (phase : ℕ → Phase) (es : List Presence.Endpoint) (s : Server)
    → Inv phase s
    → Inv phase (close_all es s)
close_all-Inv phase [] s v = v
close_all-Inv phase (e ∷ es) s v = close_all-Inv phase es _ (close_client-Inv phase s v e.handle)

shutdown-Inv : (phase : ℕ → Phase) (s : Server) → Inv phase s → Inv phase (shutdown s)
unfolding shutdown
shutdown-Inv phase s v =
    close_all-Inv phase (Presence.endpoints s.presence) (record s { stopped = true })
      (record {
        calls_ok = v.calls_ok;
        presence_ok = v.presence_ok;
        replays_ok = v.replays_ok;
        queues_ok = v.queues_ok;
        seen_ok = v.seen_ok;
        online = v.online;
      })

Kept-refl : (c : Client) → Kept c c
Kept-refl c = record {
  same_username = refl;
  same_fingerprint = refl;
  same_registered = refl;
  bounded = λ b. b;
  seen_kept = λ w. w;
}

done-Kept : (c : Client) → Kept c (record c { done = true })
done-Kept c = record {
  same_username = refl;
  same_fingerprint = refl;
  same_registered = refl;
  bounded = λ b. b;
  seen_kept = λ w. w;
}

after_ping-Kept : (c : Client) (r : Client × Delivery) → Kept c r.0 → Kept c (after_ping r)
unfolding after_ping
after_ping-Kept c (d, sent) k = k
after_ping-Kept c (d, gone) k = Kept-trans c d _ k (done-Kept d)
after_ping-Kept c (d, slow) k = Kept-trans c d _ k (done-Kept d)

if-Kept : (b : Bool) (a c d : Client) → Kept a c → Kept a d → Kept a (if b then c else d)
if-Kept true a c d k l = k
if-Kept false a c d k l = l

heartbeat-Kept :
    (env : Env) (pick : Client → Bool) (stop : Bool) (idle : ℕ) (c : Client)
    → Kept c (heartbeat env pick stop idle c)
unfolding heartbeat
heartbeat-Kept env pick stop idle c = if-Kept (c.done && stop) c _ _ (Kept-refl c) (
    if-Kept (ltb idle (env.now - c.last_seen)) c _ _ (done-Kept c)
      (after_ping-Kept c _ (deliver-Kept pick _ c)))

abbrev pub WorldInv : World → Type 0
WorldInv w = Inv w.phase w.server

module _ (json : Json) (crypto : Crypto) (texts : Texts) (env : Env) (pick : Client → Bool) where
  greeted-Inv :
      (h : ℕ) (r : Server × Session) (w : World)
      → Settled env pick h w.phase r
      → WorldInv (greeted json crypto texts env pick h r w)
  greeted-Inv h (s, joined) w v = v
  greeted-Inv h (s, dropped) w v = v

  greet_in-Inv :
      (h : ℕ) (is_text : Bool) (bytes : Text) (w : World) (p : Phase)
      → w.phase h ≡ p
      → WorldInv w
      → WorldInv (greet_in json crypto texts env pick p h is_text bytes w)
  greet_in-Inv h is_text bytes w waiting e v =
      greeted-Inv h _ w
        (hello-Settled env pick h w.phase json crypto texts is_text bytes w.server v e)
  greet_in-Inv h is_text bytes w p e v = v

  receive_in-Inv :
      (h : ℕ) (is_text : Bool) (bytes : Text) (w : World) (p : Phase)
      → WorldInv w
      → WorldInv (receive_in json crypto texts env pick p h is_text bytes w)
  receive_in-Inv h is_text bytes w serving v =
      receive-Inv crypto env pick h w.phase json texts is_text bytes w.server v
  receive_in-Inv h is_text bytes w p v = v

  leave_in-Inv :
      (h : ℕ) (w : World) (p : Phase)
      → WorldInv w
      → WorldInv (leave_in json crypto texts env pick p h w)
  leave_in-Inv h w over v = v
  leave_in-Inv h w p v = disconnect-Inv env pick h w.phase w.server v

  beat_in-Inv :
      (h : ℕ) (stop : Bool) (w : World) (p : Phase)
      → WorldInv w
      → WorldInv (beat_in json crypto texts env pick p h stop w)
  beat_in-Inv h stop w waiting v = v
  beat_in-Inv h stop w p v =
      set_client-Inv w.phase w.server v h _ (heartbeat-Kept env pick stop w.server.idle_timeout _)

  pub step-Inv :
      (event : Event) (w : World) → WorldInv w → WorldInv (step json crypto texts env pick event w)
  unfolding step
  step-Inv (greets h is_text bytes) w v = greet_in-Inv h is_text bytes w (w.phase h) refl v
  step-Inv (receives h is_text bytes) w v = receive_in-Inv h is_text bytes w (w.phase h) v
  step-Inv (leaves h) w v = leave_in-Inv h w (w.phase h) v
  step-Inv (closes h) w v = closing (w.server.clients h).closing
    where
      closing :
          (b : Bool) → WorldInv (if b then record w { server = close_client h w.server } else w)
      closing true = close_client-Inv w.phase w.server v h
      closing false = v
  step-Inv (beats h stop) w v = beat_in-Inv h stop w (w.phase h) v
  step-Inv (writes h stop written) w v =
      set_client-Inv w.phase w.server v h _ (write_one-Kept stop written (w.server.clients h))
  step-Inv sweeps w v = sweep-Inv env pick w.phase w.server v
  step-Inv stops w v = shutdown-Inv w.phase w.server v

module _ (json : Json) (crypto : Crypto) (texts : Texts) where
  pub run-Inv :
      (w : World) (events : List ((Env × (Client → Bool)) × Event))
      → WorldInv w
      → WorldInv (run json crypto texts w events)
  unfolding run
  run-Inv w [] v = v
  run-Inv w (((env, pick), event) ∷ rest) v =
      run-Inv (step json crypto texts env pick event w) rest
        (step-Inv json crypto texts env pick event w v)

  -- Whatever happens to a fresh server, with whatever configuration, clocks, ids and choices of the
  -- scheduler: its call manager, registry and replay guard keep their invariants, no queue outgrows
  -- its capacity, every duplicate filter is in step and bounded, and each registered user is served
  -- by the connection that the registry has for him, under that name, with the suffix of the key
  -- bound to that key.
  pub run-new_world-Inv :
      (config : Config) (events : List ((Env × (Client → Bool)) × Event))
      → WorldInv (run json crypto texts (new_world config) events)
  run-new_world-Inv config events =
      run-Inv (new_world config) events (unfold new_world in new_server-Inv config)

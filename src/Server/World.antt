-- ===== src/Server/World.antt =====
-- The server of internal/server/websocket/server.go as it runs: its goroutines' turns as events, in any
-- order.
use go_cli_messenger.Common.{ℕ, ◌==◌, Bool, if◌then◌else◌, List, [], ◌∷◌, Text}
use go_cli_messenger.Protocol.Message.{Json}
use go_cli_messenger.Identity.Proof.{Crypto}
use go_cli_messenger.Server.Client.{Env, Client, write_one, heartbeat}
use go_cli_messenger.Server.State.{Server, Config, new_server, set_client, close_client}
use go_cli_messenger.Server.Session.{
  Session, joined, dropped, Texts, hello, receive, disconnect, sweep, shutdown,
}

-- Where the goroutine of a connection is in `serve`.
pub data Phase : Type 0 where
  waiting serving over : Phase

pub record World : Type 0 where
  pub server : Server
  pub phase : ℕ → Phase

pub data Event : Type 0 where
  greets receives : ℕ → Bool → Text → Event
  leaves closes : ℕ → Event
  beats : ℕ → Bool → Event
  writes : ℕ → Bool → Bool → Event
  sweeps stops : Event

abbrev pub set_phase : ℕ → Phase → World → World
set_phase h p w = record w { phase = λ j. if j == h then p else w.phase j }

abbrev pub settled : Session → Phase
settled joined = serving
settled dropped = over

module _ (json : Json) (crypto : Crypto) (texts : Texts) (env : Env) (pick : Client → Bool) where
  abbrev pub greeted : ℕ → Server × Session → World → World
  greeted h (s, r) w = set_phase h (settled r) (record w { server = s })

  abbrev pub greet_in : Phase → ℕ → Bool → Text → World → World
  greet_in waiting h is_text bytes w =
      greeted h (hello json crypto texts env pick h is_text bytes w.server) w
  greet_in _ h is_text bytes w = w

  abbrev pub receive_in : Phase → ℕ → Bool → Text → World → World
  receive_in serving h is_text bytes w = record w {
    server = receive json crypto texts env pick h is_text bytes w.server;
  }
  receive_in _ h is_text bytes w = w

  abbrev pub leave_in : Phase → ℕ → World → World
  leave_in over h w = w
  leave_in _ h w = set_phase h over (record w { server = disconnect env pick h w.server })

  -- The heartbeat starts when the client has been let in.
  abbrev pub beat_in : Phase → ℕ → Bool → World → World
  beat_in waiting h stop w = w
  beat_in _ h stop w = record w {
    server =
        set_client h (heartbeat env pick stop w.server.idle_timeout (w.server.clients h)) w.server;
  }

  -- What happens to a server, one event at a time.
  unfoldable pub step : Event → World → World
  step (greets h is_text bytes) w = greet_in (w.phase h) h is_text bytes w
  step (receives h is_text bytes) w = receive_in (w.phase h) h is_text bytes w
  step (leaves h) w = leave_in (w.phase h) h w
  step (closes h) w =
      if (w.server.clients h).closing then record w { server = close_client h w.server } else w
  step (beats h stop) w = beat_in (w.phase h) h stop w
  step (writes h stop written) w = record w {
    server = set_client h (write_one stop written (w.server.clients h)).0 w.server;
  }
  step sweeps w = record w { server = sweep env pick w.server }
  step stops w = record w { server = shutdown w.server }

-- The moment of an event: what the server reads of the world, and the scheduler's choice.
unfoldable pub run : Json → Crypto → Texts → World → List ((Env × (Client → Bool)) × Event) → World
run json crypto texts w [] = w
run json crypto texts w (((env, pick), event) ∷ rest) =
    run json crypto texts (step json crypto texts env pick event w) rest

unfoldable pub new_world : Config → World
new_world config = record { server = new_server config; phase = λ h. waiting }

-- ===== src/Server.antt =====
-- internal/server/websocket/server.go: the signaling server. Its state holds the components and the
-- connections, each under its handle. What the server takes from outside comes as an argument: the
-- clock, fresh ids, the JSON of its payloads (`Env`), and which way Go's `select` goes when a client
-- is closed but its queue has room (`pick`).
pub mod Client
pub mod State
pub mod Dispatch
pub mod Session
pub mod World
pub mod Invariant
pub mod Preservation
pub mod Coming
pub mod Turns
pub mod Entering
pub mod Handshake
pub mod Running
pub mod Bindings
pub mod Suffixes
pub mod Lasting
pub mod Routing
pub mod Reached
pub mod Relay

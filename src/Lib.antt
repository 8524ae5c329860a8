-- ===== src/Lib.antt =====
-- termcall: a peer-to-peer caller for the terminal with a signaling service, in Go. This library models
-- the parts that decide something, and what they promise to each other.
--
-- The program's parts. A client proves who it is with a signed message and is entered in the registry
-- of connected users. Each message that it sends is decoded and validated, filtered for duplicates, and
-- then, for a call, limited in rate and applied to the call manager, which keeps who is in a call with
-- whom. A client places a call or answers one, alone or through a daemon that holds the connection to
-- the server and hands a call over to a terminal window. The application loop of a call then runs
-- between the server, the peer, the camera and microphone and the terminal: the peer negotiates a WebRTC
-- connection through the server and carries control messages and compressed text pictures, which the
-- terminal draws beside the chat.
--
-- Which file models what (paths from the repository's root):
--   Protocol and its children: internal/protocol. Signal has the message types and their classes
--     (IsSDP, RequiresCallID, ValidSTUNURL), Names the patterns of names (ValidAddress, ValidBaseName,
--     validUUID) over the expressions of Regex, Message the payloads and decodeJSON, Validate the
--     checks on a signaling message (ValidateSignal, DecodeSignal) and Control those on a control
--     message (ValidateControl, DecodeControl).
--   Calls: internal/server/calls/manager.go. The Manager is a record of the two maps; new, invite,
--     transition, expire, disconnect and get are its methods. Calls/Invariant and Calls/Preservation
--     have what holds between two operations, Calls/Graph the state diagram, Calls/Trace histories.
--   RateLimit: internal/server/websocket/ratelimit.go, allow and allow_key for the two Allow methods.
--   Seen: the duplicate filter of a connection, in internal/server/websocket/server.go.
--   Presence: internal/server/presence/registry.go.
--   Server: internal/server/websocket/server.go. Client has a connection (Deliver, Close, writeLoop,
--     heartbeatLoop), State the server and deliverTo, Dispatch dispatch and verifyBoundProof, Session
--     the handshake and the loop of serve, disconnect, the sweep and Shutdown, World the goroutines'
--     turns as events. Server/Invariant to Server/Running have the invariant, Server/Bindings,
--     Server/Suffixes and Server/Lasting the suffixes of the fingerprints, Server/Routing and
--     Server/Relay who gets what.
--   Identity/Proof: Sign, Verify, proofBytes, Fingerprint and the addresses of
--     internal/identity/identity.go; Identity/Safety its SafetyCode.
--   Identity/Trust: the TrustStore of internal/identity/trust.go, less its file.
--   Identity/Replay: the ReplayGuard of internal/identity/trust.go.
--   AsciiVideo: internal/client/asciivideo/codec.go. Wire has marshal and unmarshal, Delta encodeDelta
--     and applyDelta, Codec the Encoder and the Decoder; Convert is FromGray of convert.go beside it.
--   Turn: New and Issue of internal/server/turn/issuer.go; Turn/Issued puts them together with the client.
--   Client: internal/client/signaling/client.go. The parent has Connect and NewMessage, Client/Reading
--     readLoop, Client/Ready what a connection and its messages rest on.
--   Terminal: internal/client/terminal/terminal.go. Sanitize has Sanitize, RightAlign and the lines of the
--     chat over the characters of Runes, Video RenderVideo and its update, Screen a terminal that runs
--     what is written.
--   Peer: internal/client/peer/peer.go. Negotiation has the descriptions and candidates, Channels the
--     data channels that are taken, Sending Send, Flush and sendLoop, Receiving the control messages that
--     come in, Queue queueLatest, Video the frames and the route.
--   Daemon: internal/client/daemon/daemon.go. Service has the messages of the server, Windows handleLocal
--     (wireMessage is in client.go), Claims, Handover and Invitations what holds of them, Reconnect the
--     waits of Run.
--   App: internal/client/app/app.go. Session and Steps are runSession from its first line, Inviting
--     answerInvitation and verifyAndObserve, Placing RunChat and RunListen, Signals the signals of the peer, the capabilities
--     and prepareICEServers.
--   Common: lists of bytes, maps as association lists, Boolean tests. Examples: runs on small inputs.
--
-- How the code is read. A method takes the state and returns the new one beside its result; the mutex
-- around it makes it one step. Strings and byte slices are lists of bytes. A time is a number of
-- nanoseconds since Go's zero time, so the zero time is 0; a duration that the code replaces by a
-- default when it is not positive is an integer until then. Words on the wire and the sequence numbers
-- wrap at their width. The order in which Go visits a map is an argument where it can be observed.
-- The JSON decoder is a parameter, a partial function from bytes for each type; so are Ed25519, SHA-256,
-- base32, base64, HMAC, the parsing of URLs and the printing of times. A handler of the server is one
-- step; clocks, fresh ids and the choices of Go's select are its arguments. On the client a `select` is a
-- list of the events that it receives, in any order, and an event says whether the send, the signature
-- or the call of a library in its handler succeeds; a frame comes with the time at which it is
-- validated. What a handler does is a list of actions. The WebRTC
-- library is a record of the calls on it and an argument for its answers.
--
-- Fuel. encode_delta and apply_delta scan with an index; their loops run on the length of what is left,
-- which each turn shortens. Sanitize runs on the length of the text, since a round takes a byte at least;
-- the columns of a row are drawn on one more than their number, since a round moves a column on; a
-- decimal numeral of n is written on n + 1, more than it has digits; trimming runs on the length. The other
-- loops are structural.
--
-- What is not modelled: the key file, the file of the trust store, profiles, the access gate, the HTTP
-- handlers, the launcher, the client's side of the daemon's socket and its request for TURN credentials, and
-- the setting up of the peer's connection and of the audio; sockets, files, processes, flags,
-- cryptography, WebRTC and GStreamer are outside of what the functions here decide.
pub mod Common
pub mod Protocol
pub mod Calls
pub mod RateLimit
pub mod Seen
pub mod Identity
pub mod AsciiVideo
pub mod Presence
pub mod Server
pub mod Turn
pub mod Client
pub mod Terminal
pub mod Peer
pub mod Daemon
pub mod App
pub mod Examples

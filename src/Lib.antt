-- ===== src/Lib.antt =====
-- Verification of the sharing daemon: the discovery and the pairing of devices on a LAN, the store of
-- the devices that are trusted, the relay of WebRTC signals between daemons that trust one another,
-- and the socket over which a browser extension drives all this.
--
-- The parts, and how they interact. A daemon keeps a trust store (daemon/config/trust.go), a file of
-- the tokens that it shares with other devices. The peer plane (daemon/peer) dials other daemons and
-- answers them over a WebSocket. A caller with the stored token is connected at once; any other
-- caller is offered a pairing, at most five times a minute and source (daemon/peer/ratelimit.go).
-- Both ends derive a code of six digits (daemon/protocol/pairing.go), both humans compare it and
-- accept, and the responder mints the token. Over a paired socket only signals travel, in the frames
-- of daemon/protocol/messages.go. Discovery (daemon/discovery) reads what other daemons publish over
-- mDNS, and reports who comes and goes; the server (daemon/server) keeps a roster of them, marks who
-- is paired from the trust store, pushes the list to the extension, passes the extension's requests
-- on to the peer plane and what the peer plane reports back to the extension. The identity that a
-- daemon publishes is kept by daemon/config/config.go.
--
-- Files and the code they model:
--   Base: what the modules share. Base/Dict is Go's map, as a list of keys and values without
--     duplicates; Base/Sorting is sort.Slice; Base/Time is time.Time and time.Duration in nanoseconds;
--     Base/Int is Go's int.
--   RateLimit: `rateLimiter` of daemon/peer/ratelimit.go. RateLimit/Prune has its lemmas,
--     RateLimit/Refinement a log of granted attempts as the specification, RateLimit/Budget the
--     consequence for every window.
--   Protocol: daemon/protocol. Protocol/Constants, Protocol/Types and Protocol/Errors for the
--     vocabulary; Protocol/Json for encoding/json on objects of strings, integers and Booleans, with
--     its case-insensitive names and its last-wins duplicates; Protocol/Hex and Protocol/Code for
--     daemon/protocol/pairing.go; Protocol/PeerMessages and Protocol/ControlMessages for the
--     messages and `Validate`; Protocol/Wire for what is written and read; Protocol/Wire/RoundTrip
--     and Protocol/Pushes for proofs.
--   Trust: daemon/config/trust.go. Trust/Disk is `writeLocked`, call by call, with what is flushed to
--     the device and what a power loss would cut off; Trust/Order the two orders; Trust/Store the methods of `TrustStore`; Trust/Load is `LoadTrustStoreAt`.
--     Trust/Invariant, Trust/Verify and Trust/Persistence are the proofs.
--   Peer: daemon/peer. Peer/State is `Manager` with its sockets and pairings, each pointer a number
--     under which the object stands in a store. Peer/Addr is the part of package net that is used,
--     Peer/Conn conn.go, Peer/Registry the live sockets, handshake slots and addresses of peer.go,
--     Peer/Pending and Peer/Driver pairing.go, Peer/Frames the frame loop, Peer/Listener listener.go,
--     Peer/Dialer dialer.go, Peer/Reconnect `scheduleReconnect`, Peer/Relay `SendSignal`, `Forget`
--     and `Remember`, Peer/Shutdown `closeAllConns`. Peer/Quiet, Peer/Outcome, Peer/Consent and
--     Peer/Round are about the driver of a pairing; Peer/Silent and Peer/Delivery about the
--     signals handed over; Peer/Unpromoted and Peer/Admission about authentication; Peer/Agreement
--     about the code on both screens; Peer/Forgetting, Peer/Reporting, Peer/Sending, Peer/Slots
--     and Peer/Backoff about one operation each; Peer/Straggler about `Forget` during a pairing.
--   Discovery: daemon/discovery. Discovery/Txt and Discovery/Instance are mdns.go; Discovery/Net is the
--     part of package net that is used; Discovery/Address is `addrPref` and Discovery/Browser
--     `observe` and `sweep` of browse.go. Discovery/Identity is about what is published,
--     Discovery/Label about names, Discovery/Choice about `pick`; Discovery/Mirror,
--     Discovery/Folding and Discovery/Events about the events of a run. Discovery/Advertiser is
--     advertise.go, with a server of zeroconf as a number; Discovery/Registration and
--     Discovery/Closing are about it.
--   Server: daemon/server. Server/Roster and Server/Snapshot are devices.go; Server/Hub is `Server`,
--     `hub` and `client`, with the interface `PeerRouter` to the peer plane; Server/Reports has the
--     methods of `peer.Handler`, through which the peer plane reports to all clients while it works on
--     a request and at any other time; Server/Requests, Server/Control and Server/Dispatch are the
--     rest of websocket.go, Server/Http is http.go. Server/Invariant, Server/Sweeping, Server/Listing,
--     Server/Shown, Server/Debounce and Server/Pushed are about the roster; Server/Asked,
--     Server/Answers, Server/Served and Server/Guards about requests; Server/Revocation fills the
--     interface with the manager of Peer and is about unpairing; Server/Origins is about the pages
--     that may use the daemon.
--   Daemon: `consumeDiscovery` of daemon/cmd/daemon/main.go; Daemon/Following is about the roster and
--     the browser together, Daemon/Banner has `mdnsInstanceName` and is about it.
--   Config: daemon/config/config.go; Config/Repair is about what `Load` repairs and
--     Config/Stability about restarts.
--   Tests: examples of the theorems at concrete inputs.
--
-- How the code is modelled. A method is a function from the state to the state and its results. A
-- goroutine is a sequence of rounds: `drive` is one round of `runPairing`, with the ready case of its
-- select as an argument, and `on_read` one round of `frameLoop`, with what was read. The code holds
-- the mutex for each access to a table of `Manager`; a round is taken as one step. Nothing runs on
-- fuel: every loop is a recursion on a list or a number, that of a reconnect on the attempts that are
-- left of six. The clock, the bytes of crypto/rand, SHA-256, the outcome of each system call, of
-- websocket.Accept and of websocket.Dial are arguments.
--
-- Not modelled: of daemon/cmd all but `consumeDiscovery` and `mdnsInstanceName`; of daemon/discovery
-- the loops that pump channels around zeroconf, and the fingerprint of the interfaces; of
-- daemon/server and daemon/peer the writer goroutines, keepalives, timeouts of reads, setting up the
-- HTTP servers; the time that a comparison of tokens takes; the browser extension. The cleaning
-- of paths and the redirects of http.ServeMux are not modelled either. url.Parse, uuid.Validate and
-- net.IP.String are arguments.
pub mod Base
pub mod RateLimit
pub mod Protocol
pub mod Config
pub mod Discovery
pub mod Server
pub mod Daemon
pub mod Trust
pub mod Peer
pub mod Tests

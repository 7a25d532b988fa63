-- ===== src/Server/Hub.antt =====
-- The server's state, and the clients that it pushes to: `Server` of daemon/server/http.go, `hub` and
-- `client` of daemon/server/websocket.go.
use sharing.Base.{
  ℕ, suc, String, Bool, true, Option, none, some, List, [], ◌∷◌, ◌++◌, map, ltb, ◌==◌,
  if◌then◌else◌,
}
use sharing.Protocol.Types.{Device, SelfDevice}
use sharing.Protocol.PeerMessages.{PeerSignal}
use sharing.Protocol.ControlMessages.{ServerMessage, devices}
use sharing.Trust.Store.{TrustStore}
use sharing.Peer.State.{PairDecision, PeerError, HandlerCall}
use sharing.Server.Roster.{Roster, stop_device_timer}
use sharing.Server.Snapshot

abbrev pub send_buffer : ℕ
send_buffer = 32

abbrev pub status_policy_violation : ℕ
status_policy_violation = 1008

-- `client`. `id` stands for the pointer; `sent` is what was queued, in order, of which the last
-- `unsent` frames wait for the writer; `closed` is the status that it was closed with.
pub record Client : Type 0 where
  pub id : ℕ
  pub sent : List ServerMessage
  pub unsent : ℕ
  pub cancelled : Bool
  pub closed : Option ℕ

-- `PeerRouter`, on a peer layer with the state `P`. The layer and the server share the trust store,
-- which is read through `trust_of` and written through `with_trust`. `error_text` is the text of an
-- error, which names what the error is about. `reported` has the calls of the handler that an
-- operation has made, in order, from the state before it to the state after it.
pub record PeerRouter (P : Type 0) : Type 0 where
  pub start_pairing : Device → P → P × Option PeerError
  pub confirm : PairDecision → P → P × Option PeerError
  pub forget : String → P → P × Option PeerError
  pub send_signal : String → PeerSignal → P → P × Option PeerError
  pub error_text : PeerError → String
  pub trust_of : P → TrustStore
  pub with_trust : TrustStore → P → P
  pub reported : P → P → List HandlerCall

-- `Server`; `running` is that `peers` is not nil.
pub record Server (P : Type 0) : Type 0 where
  pub self : SelfDevice
  pub roster : Roster
  pub peers : P
  pub running : Bool
  pub clients : List Client

-- `closeWith` of a client: it is closed once, and cancelled.
unfoldable pub close_client : ℕ → Client → Client
close_client status c = record c {
  closed = elim c.closed [ none ↦ some status | some s ↦ some s ];
  cancelled = true;
}

-- `client.enqueue`
unfoldable pub push : ServerMessage → Client → Client
push msg c =
    if c.cancelled
    then c
    else if ltb c.unsent send_buffer
    then record c { sent = c.sent ++ msg ∷ []; unsent = suc c.unsent }
    else close_client status_policy_violation c

-- `hub.add`
unfoldable add_client : Client → List Client → List Client
add_client c cs = c ∷ cs

-- `hub.remove`
unfoldable remove_client : ℕ → List Client → List Client
remove_client id [] = []
remove_client id (c ∷ cs) = let rest = remove_client id cs in if c.id == id then rest else c ∷ rest

-- `hub.closeAll`
unfoldable pub close_all : List Client → List Client
close_all cs = map (close_client 1001) cs

-- `Broadcast`, on the clients of the hub.
unfoldable pub broadcast : ServerMessage → List Client → List Client
broadcast msg cs = map (push msg) cs

-- `c.enqueue` for one client of the hub.
unfoldable pub reply : ℕ → ServerMessage → List Client → List Client
reply id msg cs = map (λ c. if c.id == id then push msg c else c) cs

module _ {P : Type 0} (router : PeerRouter P) where
  -- `Devices` of the server.
  unfoldable pub server_devices : ℕ → Server P → List Device
  server_devices now s = Snapshot.devices (router.trust_of s.peers) now s.roster

  -- `BroadcastDevices`
  unfoldable pub broadcast_devices : ℕ → Server P → Server P
  broadcast_devices now s =
      let s' = record s { roster = stop_device_timer s.roster } in
      record s' { clients = broadcast (devices (server_devices now s')) s'.clients }

  -- `flushDevices`, which the timer calls.
  unfoldable pub flush_devices : ℕ → Server P → Server P
  flush_devices now s =
      let s' = record s { roster = record s.roster { dev_timer = none } } in
      record s' { clients = broadcast (devices (server_devices now s')) s'.clients }

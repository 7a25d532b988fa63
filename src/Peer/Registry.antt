-- ===== src/Peer/Registry.antt =====
-- The registry of live sockets, the handshake slots and the address book of daemon/peer/peer.go, and
-- `teardown` and `rememberInbound` of daemon/peer/listener.go.
use sharing.Base.{
  ℕ, ◌+◌, ◌-◌, String, Bool, true, false, ◌&&◌, not, Option, none, some, leb, ltb, ◌==◌, str_eq,
  if◌then◌else◌,
}
use sharing.Base.Dict.{is_some}
use sharing.Protocol.Constants.{peer_state_offline}
use sharing.Peer.State.{Manager, on_peer_state, emit, set_conn, assign, ended}
use sharing.Peer.Conn.{hard_close, close_with}

abbrev pub max_pending_handshakes : ℕ
max_pending_handshakes = 64

-- `websocket.StatusNormalClosure`
abbrev pub status_normal_closure : ℕ
status_normal_closure = 1000

-- The socket that `registerConn` evicts.
unfoldable pub evict : Option ℕ → ℕ → Manager → Manager
evict none c m = m
evict (some old) c m =
    if old == c then m else close_with old status_normal_closure "replaced by a newer connection" m

-- `registerConn`
unfoldable pub register_conn : ℕ → Manager → Manager
unfolding evict
register_conn c m =
    let id = (m.sockets c).remote_id in
    if str_eq id ""
    then m
    else evict (m.conns id) c (record m { conns = assign m.conns id (some c) })

-- `m.conns[id] == c`
abbrev is_conn : Option ℕ → ℕ → Bool
is_conn none c = false
is_conn (some old) c = old == c

-- `unregisterConn`
unfoldable pub unregister_conn : ℕ → Manager → Manager × Bool
unregister_conn c m =
    let id = (m.sockets c).remote_id in
    if str_eq id ""
    then (m, false)
    else if is_conn (m.conns id) c
    then (record m { conns = assign m.conns id none }, true)
    else (m, false)

-- `liveConn`
unfoldable pub live_conn : String → Manager → Manager × Option ℕ
live_conn id m = elim (m.conns id) [
  | none ↦ (m, none)
  | some c ↦
      if (m.sockets c).cancelled
      then (record m { conns = assign m.conns id none }, none)
      else (m, some c)
]

-- `IsConnected`
unfoldable pub is_connected : String → Manager → Manager × Bool
unfolding live_conn
is_connected id m = let (m', c) = live_conn id m in (m', is_some c)

-- `acquireHandshake`
unfoldable pub acquire_handshake : Manager → Manager × Bool
acquire_handshake m =
    if leb max_pending_handshakes m.handshakes
    then (m, false)
    else (record m { handshakes = m.handshakes + 1 }, true)

-- `releaseHandshake`
unfoldable pub release_handshake : Manager → Manager
release_handshake m = if ltb 0 m.handshakes then record m { handshakes = m.handshakes - 1 } else m

-- `release`, the `sync.OnceFunc` that one inbound socket holds.
unfoldable pub release : ℕ → Manager → Manager
unfolding release_handshake
release c m =
    if (m.sockets c).holds_slot
    then release_handshake (set_conn c (record (m.sockets c) { holds_slot = false }) m)
    else m

-- `rememberAddr`
unfoldable pub remember_addr : String → String → Manager → Manager
remember_addr id addr m = record m { addrs = assign m.addrs id (some addr) }

-- `teardown`; the reader of the socket has returned.
unfoldable pub teardown : ℕ → Manager → Manager
unfolding unregister_conn hard_close
teardown c m =
    let (m₁, was_live) = unregister_conn c m in
    let m₂ = hard_close c m₁ in
    let m₃ = set_conn c (record (m₂.sockets c) { stage = ended }) m₂ in
    let id = (m.sockets c).remote_id in
    if was_live && not (str_eq id "") then emit (on_peer_state id peer_state_offline "") m₃ else m₃

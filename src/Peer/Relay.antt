-- ===== src/Peer/Relay.antt =====
-- `SendSignal`, `Forget` and `Remember` of daemon/peer/peer.go.
use sharing.Base.{ℕ, String, Bool, false, ◌||◌, not, Option, none, some, str_eq, if◌then◌else◌}
use sharing.Protocol.Constants.{
  pair_reason_declined, status_offline, peer_state_offline, peer_close_unauthorized,
  type_peer_signal,
}
use sharing.Protocol.Types.{Device}
use sharing.Protocol.PeerMessages.{PeerSignal, validate_peer_signal}
use sharing.Protocol.Wire.{marshal_peer_signal}
use sharing.Trust.Store.{remove, is_paired}
use sharing.Peer.State.{
  Manager, ev_cancelled, on_peer_state, PeerError, peer_unreachable, not_paired, invalid_message,
  other, Env, emit,
}
use sharing.Peer.Conn.{enqueue, close_with}
use sharing.Peer.Registry.{unregister_conn, live_conn, is_connected, remember_addr}
use sharing.Peer.Reconnect.{schedule_reconnect}
use sharing.Peer.Pending.{push_event}
use sharing.Peer.Dialer.{ensure_conn, dial_address}
use sharing.Peer.Frames.{Read}

-- `if msg.From == "" { msg.From = m.self.ID }`
unfoldable pub attributed : String → PeerSignal → PeerSignal
attributed self_id msg = record msg { from = if str_eq msg.from "" then self_id else msg.from }

-- The socket that `ensureConn` gave takes the frame.
unfoldable pub relay_on :
    PeerSignal → Manager × Option PeerError × Option ℕ → Manager × Option PeerError
relay_on msg (m, some e, c) = (m, some e)
relay_on msg (m, none, none) = (m, some peer_unreachable)
relay_on msg (m, none, some c) =
    let (m', sent) = enqueue c (marshal_peer_signal msg) m in
    (m', if sent then none else some peer_unreachable)

-- `SendSignal`
unfoldable pub send_signal :
    Env → String → PeerSignal → Bool → Read → Manager → Manager × Option PeerError
unfolding attributed relay_on
send_signal env id msg reached read m =
    let msg' = attributed m.self.id msg in
    if str_eq id ""
    then (m, some (other "peer: SendSignal requires a device id"))
    else if not (str_eq msg.type type_peer_signal)
    then (m, some (other "peer: refusing to relay a frame over the peer plane"))
    else if not (str_eq msg'.from m.self.id)
    then (m, some (other "peer: refusing to relay a signal attributed to another device"))
    else elim (validate_peer_signal msg') [
      | some e ↦ (m, some (invalid_message e))
      | none ↦
          if not (is_paired m.trust id)
          then (m, some not_paired)
          else relay_on msg' (ensure_conn env id reached read m)
    ]

-- An in-flight pairing is told first.
unfoldable pub cancel_pairing : String → Manager → Manager
cancel_pairing id m = elim (m.pending id) [
  | none ↦ m
  | some p ↦ push_event p (ev_cancelled pair_reason_declined) m
]

-- The live socket is dropped, if there is one.
unfoldable pub drop_conn : Option ℕ → Manager → Manager
drop_conn none m = m
drop_conn (some c) m =
    close_with c peer_close_unauthorized "device unpaired" (unregister_conn c m).0

unfoldable pub drop_live : String → Manager → Manager
unfolding drop_conn
drop_live id m = let (m₁, live) = live_conn id m in drop_conn live m₁

-- `Forget`; the errors of the trust store are passed on.
unfoldable pub forget : Env → String → Manager → Manager × Option PeerError
unfolding cancel_pairing drop_live
forget env id m =
    if str_eq id ""
    then (m, some (other "peer: Forget requires a device id"))
    else let m₁ = cancel_pairing id m in
      let (trust', removed, failed) = remove env.faults id m₁.trust in
      let m₂ = drop_live id (record m₁ { trust = trust' }) in
      (
        if removed then emit (on_peer_state id peer_state_offline "unpaired") m₂ else m₂,
        elim failed [ none ↦ none | some e ↦ some (other "trust store") ],
      )

-- `Remember`; the flag is whether a reconnect is started.
unfoldable remember : Device → Manager → Manager × Bool
remember dev m =
    if str_eq dev.id "" || str_eq dev.id m.self.id || str_eq dev.address ""
    then (m, false)
    else let m₁ = remember_addr dev.id (dial_address dev) m in
      if str_eq dev.status status_offline || not (is_paired m₁.trust dev.id)
      then (m₁, false)
      else let (m₂, live) = is_connected dev.id m₁ in
        if live then (m₂, false) else schedule_reconnect dev.id m₂

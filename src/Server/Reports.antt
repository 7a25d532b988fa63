-- ===== src/Server/Reports.antt =====
-- What the peer layer reports to the clients: the methods of `peer.Handler` of
-- daemon/server/websocket.go. The layer calls them while it works on a request, too.
use sharing.Base.{ℕ, Option, none, some, List, [], ◌∷◌}
use sharing.Protocol.PeerMessages.{PeerSignal}
use sharing.Protocol.ControlMessages.{
  ServerMessage, pair_code, pair_result, peer_state, to_offer_push, to_answer_push, to_ice_push,
}
use sharing.Peer.State.{HandlerCall, on_pair_code, on_pair_result, on_peer_state, on_signal}
use sharing.Server.Hub.{PeerRouter, Server, broadcast, broadcast_devices}

module _ {P : Type 0} (router : PeerRouter P) where
  -- The first push that the signal has, if any.
  unfoldable pub signal_push : PeerSignal → Option ServerMessage
  signal_push m = elim (to_offer_push m) [
    | some p ↦ some p
    | none ↦ elim (to_answer_push m) [ some p ↦ some p | none ↦ to_ice_push m ]
  ]

  -- The methods of `peer.Handler`: `OnPairCode`, `OnPairResult`, `OnPeerState` and `OnSignal`.
  unfoldable pub handle_call : ℕ → HandlerCall → Server P → Server P
  unfolding signal_push
  handle_call now (on_pair_code id name code direction) s = record s {
    clients = broadcast (pair_code id code direction name) s.clients;
  }
  handle_call now (on_pair_result id paired reason) s =
      broadcast_devices router now
        (record s { clients = broadcast (pair_result id paired reason) s.clients })
  handle_call now (on_peer_state id state message) s = record s {
    clients = broadcast (peer_state id state message) s.clients;
  }
  handle_call now (on_signal m) s = elim (signal_push m) [
    | none ↦ s
    | some p ↦ record s { clients = broadcast p s.clients }
  ]

  -- Several calls, in their order.
  unfoldable pub handle_calls : ℕ → List HandlerCall → Server P → Server P
  handle_calls now [] s = s
  handle_calls now (x ∷ xs) s = handle_calls now xs (handle_call now x s)

  -- The peer layer has worked on a request, and has called the handler meanwhile.
  unfoldable pub take_over : ℕ → P → Server P → Server P
  unfolding handle_calls
  take_over now peers s =
      handle_calls now (router.reported s.peers peers) (record s { peers = peers })

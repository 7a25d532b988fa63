-- ===== src/Peer/Slots.antt =====
-- The handshake slots of daemon/peer/peer.go, as `handlePeer` of daemon/peer/listener.go takes them.
use sharing.Base.{◌+◌, false, ◌&&◌, str_eq, ltb, if◌then◌else◌, ◌≤◌, String, Bool, arith, true, ◌≡◌}
use sharing.Peer.State.{Manager}
use sharing.Peer.Conn.{new_conn}
use sharing.Peer.Registry.{acquire_handshake, release_handshake, max_pending_handshakes}
use sharing.Peer.Listener.{handle_peer, Upgrade, socket}

-- Whether a request became a socket.
abbrev pub is_upgraded : Upgrade → Bool
is_upgraded (socket c) = true
is_upgraded _ = false

-- `handlePeer` takes on a socket exactly if the request is a GET without an Origin, fewer than 64
-- handshakes are in progress and the upgrade succeeds; it takes one slot for that socket and none
-- otherwise, so that at most 64 are taken if at most 64 were.
pub handle_peer-slots :
    (is_get : Bool) (origin remote_addr : String) (upgraded : Bool) (m : Manager)
    → m.handshakes ≤ max_pending_handshakes
    → (is_upgraded (handle_peer is_get origin remote_addr upgraded m).1
        ≡ (is_get && str_eq origin "" && ltb m.handshakes max_pending_handshakes && upgraded))
      × ((handle_peer is_get origin remote_addr upgraded m).0.handshakes ≡ (
          if is_upgraded (handle_peer is_get origin remote_addr upgraded m).1
          then m.handshakes + 1
          else m.handshakes))
      × ((handle_peer is_get origin remote_addr upgraded m).0.handshakes ≤ max_pending_handshakes)
unfolding handle_peer acquire_handshake release_handshake new_conn
handle_peer-slots is_get origin remote_addr upgraded m h =
    (ground arith, ground arith, ground arith)

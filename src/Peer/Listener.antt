-- ===== src/Peer/Listener.antt =====
-- The responder half of the peer plane, daemon/peer/listener.go.
use sharing.Base.{ℕ, String, Bool, true, false, not, Option, none, some, str_eq, if◌then◌else◌}
use sharing.Base.Int.{◌==◌}
use sharing.Base.Dict.{is_some}
use sharing.Protocol.Constants.{
  protocol_version, default_peer_port, pair_direction_incoming, pair_reason_protocol_mismatch,
  pair_reason_rate_limited, pair_reason_internal, pair_reason_busy, peer_state_online,
  peer_state_pairing, peer_close_protocol_mismatch, peer_close_rate_limited, peer_close_bad_frame,
  peer_close_pair_rejected, peer_close_unauthorized, type_peer_hello,
}
use sharing.Protocol.Json.{Frame, unmarshal}
use sharing.Protocol.Code.{code}
use sharing.Protocol.PeerMessages.{
  PeerHello, validate_peer_hello, new_peer_ready, new_peer_pair_required, new_peer_pair_reject,
}
use sharing.Protocol.Wire.{
  Envelope, decode_envelope, peer_hello_fields, marshal_peer_ready, marshal_peer_pair_required,
  marshal_peer_pair_reject,
}
use sharing.RateLimit.{allow}
use sharing.Trust.Store.{verify_token, touch, rename, new_token}
use sharing.Peer.State.{
  Stage, handshake, serving, Manager, on_pair_code, on_peer_state, Env, emit, set_conn,
}
use sharing.Peer.Addr.{split_host, join_host_port, itoa, source_key}
use sharing.Peer.Conn.{new_conn, set_remote, enqueue, close_with}
use sharing.Peer.Registry.{
  register_conn, acquire_handshake, release_handshake, release, remember_addr, teardown,
}
use sharing.Peer.Pending.{new_pairing, begin_pairing, end_pairing}
use sharing.Peer.Driver.{start_driver}
use sharing.Peer.Frames.{Read, frame, binary, failed}

-- What a request on /peer comes to: an HTTP error, a failed upgrade, or a socket.
pub data Upgrade : Type 0 where
  http_error : ℕ → Upgrade
  not_upgraded : Upgrade
  socket : ℕ → Upgrade

-- `handlePeer` up to `serveInbound`; the flags tell whether the method is GET and whether
-- `websocket.Accept` succeeds.
unfoldable pub handle_peer : Bool → String → String → Bool → Manager → Manager × Upgrade
handle_peer is_get origin remote_addr upgraded m =
    if not is_get
    then (m, http_error 405)
    else if not (str_eq origin "")
    then (m, http_error 403)
    else let (m₁, acquired) = acquire_handshake m in
      if not acquired
      then (m₁, http_error 503)
      else if not upgraded
      then (release_handshake m₁, not_upgraded)
      else let (m₂, c) = new_conn false remote_addr m₁ in
        (set_conn c (record (m₂.sockets c) { holds_slot = true; stage = handshake }) m₂, socket c)

-- `readHello` after the second unmarshal.
unfoldable pub check_hello : ℕ → Option PeerHello → Manager → Manager × Option PeerHello
check_hello c none m = (close_with c peer_close_bad_frame "malformed peer:hello" m, none)
check_hello c (some hello) m =
    if not (hello.protocol_version == protocol_version)
    then (
      close_with c peer_close_protocol_mismatch "protocol version mismatch"
          (enqueue c (marshal_peer_pair_reject (new_peer_pair_reject pair_reason_protocol_mismatch))
            m).0,
      none,
    )
    else if is_some (validate_peer_hello hello)
    then (close_with c peer_close_bad_frame "invalid peer:hello" m, none)
    else (m, some hello)

-- `readHello` after the envelope is decoded.
unfoldable pub open_hello : ℕ → Option Envelope → Frame → Manager → Manager × Option PeerHello
open_hello c none data' m =
    (close_with c peer_close_bad_frame "first frame must be peer:hello" m, none)
open_hello c (some env) data' m =
    if not (str_eq env.type type_peer_hello)
    then (close_with c peer_close_bad_frame "first frame must be peer:hello" m, none)
    else check_hello c (unmarshal peer_hello_fields data') m

-- `readHello`
unfoldable pub read_hello : ℕ → Read → Manager → Manager × Option PeerHello
unfolding check_hello open_hello
read_hello c failed m = (close_with c peer_close_bad_frame "expected peer:hello" m, none)
read_hello c binary m = (close_with c peer_close_bad_frame "expected peer:hello" m, none)
read_hello c (frame data') m = open_hello c (decode_envelope data') data' m

-- `rememberInbound`
unfoldable remember_inbound : ℕ → Manager → Manager
remember_inbound c m =
    let id = (m.sockets c).remote_id in
    if str_eq id ""
    then m
    else if is_some (m.addrs id)
    then m
    else elim (split_host (m.sockets c).remote_addr) [
      | none ↦ m
      | some host ↦ remember_addr id (join_host_port host (itoa default_peer_port)) m
    ]

-- The reader goroutine returns: `release` and `teardown` are deferred.
abbrev pub leave : ℕ → Manager → Manager
leave c m = teardown c (release c m)

-- The socket goes over to the frame loop.
abbrev pub serve : ℕ → Manager → Manager
serve c m = set_conn c (record (m.sockets c) { stage = serving }) m

-- `Touch` and `Rename` of a peer that authenticated; their errors are only logged.
unfoldable refresh_peer : Env → PeerHello → Manager → Manager
refresh_peer env hello m =
    let t = (touch env.faults env.now hello.device_id m.trust).0 in
    record m {
      trust =
          if not (str_eq hello.name "")
          then (rename env.faults hello.device_id hello.name t).0
          else t;
    }

-- `acceptAuthenticated`
unfoldable accept_authenticated : Env → ℕ → PeerHello → Manager → Manager
unfolding refresh_peer remember_inbound
accept_authenticated env c hello m =
    let (m₁, sent) = enqueue c (marshal_peer_ready (new_peer_ready m.self)) m in
    if not sent
    then leave c m₁
    else let m₂ = register_conn c (set_conn c (record (m₁.sockets c) { paired = true }) m₁) in
      let m₃ = refresh_peer env hello (remember_inbound c (release c m₂)) in
      serve c (emit (on_peer_state hello.device_id peer_state_online "") m₃)

-- A pairing attempt is refused: the reason goes out, and the socket is closed.
unfoldable pub refuse : ℕ → String → ℕ → String → Manager → Manager
refuse c reason status text m = leave c (
    close_with c status text
      (enqueue c (marshal_peer_pair_reject (new_peer_pair_reject reason)) m).0)

-- `offerPairing` once the rate limit let the attempt through and a nonce was drawn.
unfoldable pub open_pairing : Env → ℕ → PeerHello → String → Manager → Manager
open_pairing env c hello nonce m =
    let digits = code env.sum256 m.self.id hello.device_id nonce in
    let (m₁, p) =
      new_pairing hello.device_id hello.name pair_direction_incoming true digits (some c) m in
    let (m₂, busy) = begin_pairing p m₁ in
    if is_some busy
    then refuse c pair_reason_busy peer_close_pair_rejected
        "a pairing with this device is already in progress" m₂
    else let (m₃, sent) =
        enqueue c (marshal_peer_pair_required (new_peer_pair_required digits nonce)) m₂ in
      if not sent
      then leave c (end_pairing p m₃)
      else let m₄ = emit (on_peer_state hello.device_id peer_state_pairing "") (release c m₃) in
        let m₅ = emit (on_pair_code hello.device_id hello.name digits pair_direction_incoming) m₄ in
        serve c (start_driver p m₅)

-- `offerPairing`; `NewNonce` has the form of `NewToken`.
unfoldable pub offer_pairing : Env → ℕ → PeerHello → Manager → Manager
unfolding refuse open_pairing
offer_pairing env c hello m =
    let (limiter', allowed) = allow m.limiter (source_key (m.sockets c).remote_addr) env.now in
    let m₁ = record m { limiter = limiter' } in
    if not allowed
    then refuse c pair_reason_rate_limited peer_close_rate_limited "too many pairing attempts" m₁
    else elim (new_token env.nonce_bytes) [
      | none ↦ refuse c pair_reason_internal peer_close_pair_rejected "internal error" m₁
      | some nonce ↦ open_pairing env c hello nonce m₁
    ]

-- `serveInbound` once the hello was read.
unfoldable pub admit : Env → ℕ → PeerHello → Manager → Manager
unfolding accept_authenticated offer_pairing
admit env c hello m =
    if str_eq hello.device_id m.self.id
    then leave c (close_with c peer_close_unauthorized "device id collision" m)
    else if verify_token m.trust hello.device_id hello.token
    then accept_authenticated env c hello m
    else offer_pairing env c hello m

abbrev pub admit_or_leave : Env → ℕ → Manager × Option PeerHello → Manager
admit_or_leave env c (m, none) = leave c m
admit_or_leave env c (m, some hello) = admit env c hello (set_remote c hello.device_id hello.name m)

abbrev pub is_handshake : Stage → Bool
is_handshake handshake = true
is_handshake _ = false

-- `serveInbound` up to the frame loop, on what was read first.
unfoldable pub serve_inbound : Env → ℕ → Read → Manager → Manager
unfolding read_hello admit
serve_inbound env c read m =
    if is_handshake (m.sockets c).stage then admit_or_leave env c (read_hello c read m) else m

-- ===== src/Peer/Dialer.antt =====
-- The dialling half of the peer plane, daemon/peer/dialer.go. The outcome of `websocket.Dial` and
-- the first frame that is read are arguments.
use sharing.Base.{
  ℕ, String, Bool, true, false, ◌&&◌, not, Option, none, some, str_eq, ◌==◌, if◌then◌else◌,
}
use sharing.Base.Dict.{is_some}
use sharing.Protocol.Constants.{
  default_peer_port, pair_direction_outgoing, pair_reason_declined, pair_reason_unreachable,
  pair_reason_internal, pair_reason_code_mismatch, peer_state_pairing, peer_state_online,
  peer_state_error, peer_close_bad_frame, peer_close_pair_required, type_peer_ready,
  type_peer_pair_required, type_peer_pair_reject,
}
use sharing.Protocol.Json.{Frame, unmarshal}
use sharing.Protocol.Code.{code}
use sharing.Protocol.Types.{Device}
use sharing.Protocol.PeerMessages.{
  PeerPairRequired, PeerPairReject, new_peer_hello, validate_peer_pair_required,
}
use sharing.Protocol.Wire.{
  Envelope, decode_envelope, peer_pair_required_fields, peer_pair_reject_fields, marshal_peer_hello,
}
use sharing.Trust.Store.{get_peer, touch}
use sharing.Peer.State.{
  serving, handshake, Manager, on_pair_code, on_peer_state, PeerError, peer_unreachable, not_paired,
  other, Env, emit, set_conn, set_pairing, assign,
}
use sharing.Peer.Addr.{join_host_port, itoa}
use sharing.Peer.Conn.{new_conn, set_remote, enqueue, close_with, hard_close}
use sharing.Peer.Registry.{register_conn, live_conn, remember_addr, teardown}
use sharing.Peer.Pending.{new_pairing, begin_pairing, end_pairing}
use sharing.Peer.Driver.{fail_pairing, start_driver}
use sharing.Peer.Frames.{Read, frame, binary, failed}

-- `host:port` of a device; port 0 stands for the default one.
abbrev pub dial_address : Device → String
dial_address dev =
    join_host_port dev.address (itoa (if dev.port == 0 then default_peer_port else dev.port))

-- `StartPairing` up to the goroutine; the flag is the early cancellation of the context. The result
-- is the error, or the pairing that was registered.
unfoldable pub start_pairing : Bool → Device → Manager → Manager × Option PeerError × Option ℕ
start_pairing cancelled dev m =
    if cancelled
    then (m, some (other "context canceled"), none)
    else if str_eq dev.id ""
    then (m, some (other "peer: StartPairing requires a device id"), none)
    else if str_eq dev.id m.self.id
    then (m, some (other "peer: refusing to pair a device with itself"), none)
    else if str_eq dev.address ""
    then (m, some peer_unreachable, none)
    else let m₁ = remember_addr dev.id (dial_address dev) m in
      let (m₂, p) = new_pairing dev.id dev.name pair_direction_outgoing false "" none m₁ in
      let (m₃, busy) = begin_pairing p m₂ in
      elim busy [ some e ↦ (m₃, some e, none) | none ↦ (m₃, none, some p) ]

-- `abortPairing`
unfoldable pub abort_pairing : ℕ → String → Bool → Manager → Manager
abort_pairing p reason notify_peer m = fail_pairing p reason notify_peer (end_pairing p m)

-- `dial`; `none` is the error.
unfoldable pub dial : Bool → String → String → String → String → Manager → Manager × Option ℕ
dial reached addr remote_id remote_name token m =
    if not reached
    then (m, none)
    else let (m₁, c) = new_conn true addr m in
      let m₂ = set_remote c remote_id remote_name m₁ in
      let m₃ = set_conn c (record (m₂.sockets c) { stage = handshake }) m₂ in
      let (m₄, sent) = enqueue c (marshal_peer_hello (new_peer_hello m.self token)) m₃ in
      if sent then (m₄, some c) else (hard_close c m₄, none)

-- The answer peer:pair:required, after the second unmarshal. The code is derived from the nonce and
-- the two ids, and the code on the wire only has to agree with it.
unfoldable pub on_pair_required : Env → ℕ → ℕ → Option PeerPairRequired → Manager → Manager
on_pair_required env p c none m = teardown c (abort_pairing p pair_reason_internal true m)
on_pair_required env p c (some msg) m =
    let v = m.pairings p in
    let digits = code env.sum256 m.self.id v.device_id msg.nonce in
    if is_some (validate_peer_pair_required msg)
    then teardown c (abort_pairing p pair_reason_internal true m)
    else if not (str_eq msg.code "") && not (str_eq msg.code digits)
    then teardown c (abort_pairing p pair_reason_code_mismatch true m)
    else let m₁ = set_pairing p (record v { code = digits }) m in
      let m₂ = emit (on_pair_code v.device_id v.name digits pair_direction_outgoing) m₁ in
      let m₃ = start_driver p m₂ in set_conn c (record (m₃.sockets c) { stage = serving }) m₃

-- The answer peer:pair:reject, after the second unmarshal.
unfoldable on_pair_reject : ℕ → ℕ → Option PeerPairReject → Manager → Manager
on_pair_reject p c none m = teardown c (abort_pairing p pair_reason_internal false m)
on_pair_reject p c (some msg) m =
    let reason = if str_eq msg.reason "" then pair_reason_declined else msg.reason in
    teardown c (abort_pairing p reason false m)

-- The switch of `pairOutbound`.
unfoldable outbound_switch : Env → ℕ → ℕ → Option Envelope → Frame → Manager → Manager
unfolding on_pair_required on_pair_reject
outbound_switch env p c none data' m = teardown c (abort_pairing p pair_reason_internal true m)
outbound_switch env p c (some e) data' m =
    if str_eq e.type type_peer_pair_required
    then on_pair_required env p c (unmarshal peer_pair_required_fields data') m
    else if str_eq e.type type_peer_pair_reject
    then on_pair_reject p c (unmarshal peer_pair_reject_fields data') m
    else teardown c (abort_pairing p pair_reason_internal true m)

-- The first read of `pairOutbound`.
unfoldable pub outbound_answer : Env → ℕ → ℕ → Read → Manager → Manager
unfolding outbound_switch
outbound_answer env p c failed m = teardown c (abort_pairing p pair_reason_unreachable false m)
outbound_answer env p c binary m = teardown c (abort_pairing p pair_reason_unreachable false m)
outbound_answer env p c (frame data') m = outbound_switch env p c (decode_envelope data') data' m

-- `pairOutbound` up to the frame loop.
unfoldable pair_outbound : Env → ℕ → String → Bool → Read → Manager → Manager
unfolding outbound_answer
pair_outbound env p addr reached read m =
    let v = m.pairings p in
    let m₁ = emit (on_peer_state v.device_id peer_state_pairing "") m in
    let (m₂, dialled) = dial reached addr v.device_id v.name "" m₁ in
    elim dialled [
      | none ↦ abort_pairing p pair_reason_unreachable false m₂
      | some c ↦ outbound_answer env p c read (set_pairing p (record v { conn = some c }) m₂)
    ]

-- The answer peer:ready to a hello with a token.
unfoldable on_ready : Env → String → ℕ → Manager → Manager
on_ready env id c m =
    let m₁ = register_conn c (set_conn c (record (m.sockets c) { paired = true }) m) in
    let m₂ = set_conn c (record (m₁.sockets c) { stage = serving }) m₁ in
    let m₃ = record m₂ { trust = (touch env.faults env.now id m₂.trust).0 } in
    emit (on_peer_state id peer_state_online "") m₃

-- The switch of `ensureConn`.
unfoldable ensure_switch :
    Env → String → ℕ → Option Envelope → Manager → Manager × Option PeerError × Option ℕ
unfolding on_ready
ensure_switch env id c none m = (
  close_with c peer_close_bad_frame "unreadable handshake response" m,
  some peer_unreachable,
  none,
)
ensure_switch env id c (some e) m =
    if str_eq e.type type_peer_ready
    then (on_ready env id c m, none, some c)
    else if str_eq e.type type_peer_pair_required
    then (
      emit
          (on_peer_state id peer_state_error
            "the peer no longer recognises this device; pair again")
          (close_with c peer_close_pair_required "peer requires pairing" m),
      some not_paired,
      none,
    )
    else if str_eq e.type type_peer_pair_reject
    then (hard_close c m, some peer_unreachable, none)
    else (
      close_with c peer_close_bad_frame "unexpected handshake response" m,
      some peer_unreachable,
      none,
    )

unfoldable ensure_answer : Env → String → ℕ → Read → Manager → Manager × Option PeerError × Option ℕ
unfolding ensure_switch
ensure_answer env id c failed m = (hard_close c m, some peer_unreachable, none)
ensure_answer env id c binary m = (hard_close c m, some peer_unreachable, none)
ensure_answer env id c (frame data') m = ensure_switch env id c (decode_envelope data') m

-- `ensureConn` by the caller that dials, once it has entered itself in `dialing`.
unfoldable ensure_dial :
    Env → String → Bool → Read → Manager → Manager × Option PeerError × Option ℕ
unfolding ensure_answer
ensure_dial env id reached read m = elim (get_peer m.trust id) [
  | none ↦ (m, some not_paired, none)
  | some trusted ↦ elim (m.addrs id) [
    | none ↦ (m, some peer_unreachable, none)
    | some addr ↦
        let (m₁, dialled) = dial reached addr id trusted.name trusted.token m in
        elim dialled [
          | none ↦ (m₁, some peer_unreachable, none)
          | some c ↦ ensure_answer env id c read m₁
        ]
  ]
]

-- The deferred removal from `dialing`.
abbrev undial :
    String → Manager × Option PeerError × Option ℕ → Manager × Option PeerError × Option ℕ
undial id (m, e, c) = (record m { dialing = assign m.dialing id none }, e, c)

-- A caller that found another one dialling wakes up and looks again.
unfoldable ensure_woken : String → Manager → Manager × Option PeerError × Option ℕ
ensure_woken id m =
    let (m', live) = live_conn id m in
    elim live [ some c ↦ (m', none, some c) | none ↦ (m', some peer_unreachable, none) ]

-- `ensureConn`. The dial is done in one piece, and the wait for another caller's dial takes no time:
-- the state is the one in which the caller wakes up.
unfoldable pub ensure_conn :
    Env → String → Bool → Read → Manager → Manager × Option PeerError × Option ℕ
unfolding ensure_dial ensure_woken
ensure_conn env id reached read m =
    let (m₁, live) = live_conn id m in
    elim live [
      | some c ↦ (m₁, none, some c)
      | none ↦
          if is_some (m₁.dialing id)
          then ensure_woken id m₁
          else undial id (
              ensure_dial env id reached read
                (record m₁ { dialing = assign m₁.dialing id (some tt) }))
    ]

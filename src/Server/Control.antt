-- ===== src/Server/Control.antt =====
-- What the extension asks of the daemon: the handlers of daemon/server/websocket.go. `c` is the
-- client that asks.
use sharing.Base.{ℕ, String, Bool, not, ◌||◌, Option, none, some, str_eq, ◌==◌, if◌then◌else◌}
use sharing.Protocol.Constants.{
  status_offline, pair_reason_declined, err_code_internal, err_code_invalid_request,
  err_code_unknown_device, err_code_device_offline, err_code_not_paired, err_code_already_paired,
  err_code_pair_failed, err_code_peer_unreachable,
}
use sharing.Protocol.Types.{Device}
use sharing.Protocol.PeerMessages.{PeerSignal}
use sharing.Protocol.ControlMessages.{
  PairStart, PairConfirm, PairForget, validate_pair_start, validate_pair_confirm,
  validate_pair_forget, error,
}
use sharing.Trust.Disk.{Faults}
use sharing.Trust.Store.{is_paired, remove}
use sharing.Peer.State.{
  PairDecision, PeerError, not_paired, peer_unreachable, no_pending_pairing, pair_timeout,
  pair_in_progress, invalid_message, other,
}
use sharing.Server.Snapshot.{device, known_device}
use sharing.Server.Hub.{PeerRouter, Server, reply, broadcast_devices}
use sharing.Server.Reports.{take_over}

-- `peerErrorCode`, with the text of the error.
unfoldable pub peer_error_code : PeerError → String → String → String × String
peer_error_code not_paired text fallback_code = (err_code_not_paired, "device is not paired")
peer_error_code peer_unreachable text fallback_code =
    (err_code_peer_unreachable, "could not reach the device")
peer_error_code no_pending_pairing text fallback_code =
    (err_code_invalid_request, "no pairing is waiting for a decision on that device")
peer_error_code pair_timeout text fallback_code = (err_code_pair_failed, "pairing timed out")
peer_error_code (invalid_message i) text fallback_code = (err_code_invalid_request, text)
peer_error_code pair_in_progress text fallback_code = (fallback_code, text)
peer_error_code (other s) text fallback_code = (fallback_code, text)

-- What an extension may not dial: a device that is offline, or has no address or port.
unfoldable pub undialable : Device → Bool
undialable d = str_eq d.status status_offline || str_eq d.address "" || d.port == 0

module _ {P : Type 0} (router : PeerRouter P) where
  -- `c.enqueue(protocol.NewError(reqID, code, message))`
  unfoldable pub refuse : ℕ → String → String → String → Server P → Server P
  refuse c req_id code message s = record s {
    clients = reply c (error req_id code message) s.clients;
  }

  -- What a handler does with the result of the peer layer, which has called the handler already: the
  -- error is answered with its code.
  unfoldable pub settle_peer : ℕ → ℕ → String → String → P × Option PeerError → Server P → Server P
  settle_peer now c req_id fallback_code (peers, none) s = take_over router now peers s
  settle_peer now c req_id fallback_code (peers, some e) s =
      let (code, detail) = peer_error_code e (router.error_text e) fallback_code in
      refuse c req_id code detail (take_over router now peers s)

  -- The end of `handlePairStart`, for a device that is in the roster.
  unfoldable pub start_known : ℕ → ℕ → String → String → Device → Server P → Server P
  start_known now c req_id device_id dev s =
      if undialable dev
      then refuse c req_id err_code_device_offline
          "device has not been seen recently enough to dial" s
      else if is_paired (router.trust_of s.peers) device_id
      then refuse c req_id err_code_already_paired
          "device is already paired; forget it first to pair again" s
      else if not s.running
      then refuse c req_id err_code_internal "peer layer is not running" s
      else settle_peer now c req_id err_code_pair_failed (router.start_pairing dev s.peers) s

  -- `handlePairStart`
  unfoldable pub handle_pair_start : ℕ → ℕ → String → PairStart → Server P → Server P
  handle_pair_start now c req_id msg s = elim (validate_pair_start msg) [
    | some text ↦ refuse c req_id err_code_invalid_request text s
    | none ↦
        if str_eq msg.device_id s.self.id
        then refuse c req_id err_code_invalid_request "cannot pair a device with itself" s
        else elim (device (router.trust_of s.peers) now msg.device_id s.roster) [
          | none ↦
              refuse c req_id err_code_unknown_device "no device with that id has been discovered" s
          | some dev ↦ start_known now c req_id msg.device_id dev s
        ]
  ]

  -- `handlePairConfirm`
  unfoldable pub handle_pair_confirm : ℕ → ℕ → String → PairConfirm → Server P → Server P
  handle_pair_confirm now c req_id msg s = elim (validate_pair_confirm msg) [
    | some text ↦ refuse c req_id err_code_invalid_request text s
    | none ↦
        if not s.running
        then refuse c req_id err_code_internal "peer layer is not running" s
        else let decision : PairDecision = record {
          device_id = msg.device_id;
          accept = msg.accept;
          reason = if msg.accept then "" else pair_reason_declined;
        } in
          settle_peer now c req_id err_code_pair_failed (router.confirm decision s.peers) s
  ]

  -- What `handlePairForget` does with the result: an error is answered, and all clients see the list
  -- otherwise.
  unfoldable pub settle_forget : ℕ → ℕ → String → P × Option PeerError → Server P → Server P
  settle_forget now c req_id (peers, none) s =
      broadcast_devices router now (take_over router now peers s)
  settle_forget now c req_id (peers, some e) s =
      settle_peer now c req_id err_code_internal (peers, some e) s

  -- `handlePairForget` without a peer layer.
  unfoldable pub forget_degraded : Faults → ℕ → ℕ → String → String → Server P → Server P
  forget_degraded fails now c req_id device_id s =
      let (trust, found, failed) = remove fails device_id (router.trust_of s.peers) in
      let s' = record s { peers = router.with_trust trust s.peers } in
      elim failed [
        | none ↦ broadcast_devices router now s'
        | some e ↦ refuse c req_id err_code_internal "could not update the trust store" s'
      ]

  -- `handlePairForget`
  unfoldable pub handle_pair_forget : Faults → ℕ → ℕ → String → PairForget → Server P → Server P
  handle_pair_forget fails now c req_id msg s = elim (validate_pair_forget msg) [
    | some text ↦ refuse c req_id err_code_invalid_request text s
    | none ↦
        if s.running
        then settle_forget now c req_id (router.forget msg.device_id s.peers) s
        else forget_degraded fails now c req_id msg.device_id s
  ]

  -- `relaySignal`
  unfoldable pub relay_signal : ℕ → ℕ → String → String → PeerSignal → Server P → Server P
  relay_signal now c req_id to frame s =
      if str_eq to s.self.id
      then refuse c req_id err_code_invalid_request "cannot signal this device to itself" s
      else if not (known_device (router.trust_of s.peers) to s.roster)
      then refuse c req_id err_code_unknown_device "no discovered or paired device with that id" s
      else if not s.running
      then refuse c req_id err_code_internal "peer layer is not running" s
      else settle_peer now c req_id err_code_peer_unreachable (router.send_signal to frame s.peers)
          s

-- ===== src/Server/Dispatch.antt =====
-- A client's frame: `readLoop` and `dispatch` of daemon/server/websocket.go.
use Prim.Native.String.{◌++◌}
use sharing.Base.{ℕ, String, not, Option, none, some, str_eq, if◌then◌else◌}
use sharing.Base.Int.{ℤ, ◌==◌}
use sharing.Protocol.Constants
use sharing.Protocol.Constants.{protocol_version}
use sharing.Protocol.Json.{Frame, unmarshal}
use sharing.Protocol.PeerMessages.{
  new_peer_signal_offer, new_peer_signal_answer, new_peer_signal_ice,
}
use sharing.Protocol.ControlMessages.{
  pong, devices, new_ready, validate_signal_offer, validate_signal_answer, validate_signal_ice,
}
use sharing.Protocol.Wire.{Envelope, decode_envelope}
use sharing.Trust.Disk.{Faults}
use sharing.Server.Roster.{sweep_devices}
use sharing.Server.Hub.{PeerRouter, Server, reply, server_devices}
use sharing.Server.Requests.{
  hello_fields, ping_fields, pair_start_fields, pair_forget_fields, pair_confirm_fields,
  signal_offer_fields, signal_answer_fields, signal_ice_fields,
}
use sharing.Server.Control.{
  refuse, handle_pair_start, handle_pair_confirm, handle_pair_forget, relay_signal,
}

-- The outcome of `conn.Read`: an error, a frame that is no text, or a text frame.
pub data ClientRead : Type 0 where
  read_failed binary_frame : ClientRead
  text_frame : Frame → ClientRead

module _ {P : Type 0} (router : PeerRouter P) where
  -- A body that does not decode.
  unfoldable pub malformed : ℕ → String → String → Server P → Server P
  malformed c req_id what s =
      refuse router c req_id Constants.err_code_bad_json ("malformed " ++ what ++ " message") s

  -- The case of a hello; `mismatch` is the text that names both versions.
  unfoldable pub on_hello : (ℤ → String) → ℕ → Frame → String → Server P → Server P
  unfolding malformed
  on_hello mismatch c raw req_id s = elim (unmarshal hello_fields raw) [
    | none ↦ malformed c req_id "hello" s
    | some msg ↦
        if not (msg.protocol_version == protocol_version)
        then refuse router c req_id Constants.err_code_protocol_mismatch
            (mismatch msg.protocol_version) s
        else record s { clients = reply c (new_ready req_id s.self) s.clients }
  ]

  unfoldable pub on_ping : ℕ → Frame → String → Server P → Server P
  unfolding malformed
  on_ping c raw req_id s = elim (unmarshal ping_fields raw) [
    | none ↦ malformed c req_id "ping" s
    | some msg ↦ record s { clients = reply c (pong req_id msg.t) s.clients }
  ]

  unfoldable pub on_refresh : ℕ → ℕ → Server P → Server P
  on_refresh now c s =
      let s' = record s { roster = sweep_devices (router.trust_of s.peers) now s.roster } in
      record s' { clients = reply c (devices (server_devices router now s')) s'.clients }

  unfoldable pub on_offer : ℕ → ℕ → Frame → String → Server P → Server P
  unfolding malformed
  on_offer now c raw req_id s = elim (unmarshal signal_offer_fields raw) [
    | none ↦ malformed c req_id "signal:offer" s
    | some msg ↦ elim (validate_signal_offer msg) [
      | some text ↦ refuse router c req_id Constants.err_code_invalid_request text s
      | none ↦ relay_signal router now c req_id msg.to (new_peer_signal_offer s.self.id msg.sdp) s
    ]
  ]

  unfoldable pub on_answer : ℕ → ℕ → Frame → String → Server P → Server P
  unfolding malformed
  on_answer now c raw req_id s = elim (unmarshal signal_answer_fields raw) [
    | none ↦ malformed c req_id "signal:answer" s
    | some msg ↦ elim (validate_signal_answer msg) [
      | some text ↦ refuse router c req_id Constants.err_code_invalid_request text s
      | none ↦ relay_signal router now c req_id msg.to (new_peer_signal_answer s.self.id msg.sdp) s
    ]
  ]

  unfoldable pub on_ice : ℕ → ℕ → Frame → String → Server P → Server P
  unfolding malformed
  on_ice now c raw req_id s = elim (unmarshal signal_ice_fields raw) [
    | none ↦ malformed c req_id "signal:ice" s
    | some msg ↦ elim (validate_signal_ice msg) [
      | some text ↦ refuse router c req_id Constants.err_code_invalid_request text s
      | none ↦
          let frame = new_peer_signal_ice s.self.id msg.candidate msg.sdp_mid msg.sdp_mline_index in
          relay_signal router now c req_id msg.to frame s
    ]
  ]

  unfoldable pub on_pair_start : ℕ → ℕ → Frame → String → Server P → Server P
  unfolding malformed
  on_pair_start now c raw req_id s = elim (unmarshal pair_start_fields raw) [
    | none ↦ malformed c req_id "pair:start" s
    | some msg ↦ handle_pair_start router now c req_id msg s
  ]

  unfoldable pub on_pair_confirm : ℕ → ℕ → Frame → String → Server P → Server P
  unfolding malformed
  on_pair_confirm now c raw req_id s = elim (unmarshal pair_confirm_fields raw) [
    | none ↦ malformed c req_id "pair:confirm" s
    | some msg ↦ handle_pair_confirm router now c req_id msg s
  ]

  unfoldable pub on_pair_forget : Faults → ℕ → ℕ → Frame → String → Server P → Server P
  unfolding malformed
  on_pair_forget fails now c raw req_id s = elim (unmarshal pair_forget_fields raw) [
    | none ↦ malformed c req_id "pair:forget" s
    | some msg ↦ handle_pair_forget router fails now c req_id msg s
  ]

  -- The `switch` of `dispatch`.
  unfoldable pub dispatch_on :
      (ℤ → String) → Faults → ℕ → ℕ → Frame → Envelope → Server P → Server P
  unfolding on_hello on_ping on_refresh on_offer on_answer on_ice on_pair_start on_pair_confirm
      on_pair_forget
  dispatch_on mismatch fails now c raw env s =
      if str_eq env.type Constants.type_hello
      then on_hello mismatch c raw env.id s
      else if str_eq env.type Constants.type_ping
      then on_ping c raw env.id s
      else if str_eq env.type Constants.type_devices_refresh
      then on_refresh now c s
      else if str_eq env.type Constants.type_pair_start
      then on_pair_start now c raw env.id s
      else if str_eq env.type Constants.type_pair_confirm
      then on_pair_confirm now c raw env.id s
      else if str_eq env.type Constants.type_pair_forget
      then on_pair_forget fails now c raw env.id s
      else if str_eq env.type Constants.type_signal_offer
      then on_offer now c raw env.id s
      else if str_eq env.type Constants.type_signal_answer
      then on_answer now c raw env.id s
      else if str_eq env.type Constants.type_signal_ice
      then on_ice now c raw env.id s
      else refuse router c env.id Constants.err_code_unknown_type
          ("unsupported message type: " ++ env.type) s

  -- `dispatch`
  unfoldable pub dispatch : (ℤ → String) → Faults → ℕ → ℕ → Frame → Server P → Server P
  unfolding dispatch_on
  dispatch mismatch fails now c raw s = elim (decode_envelope raw) [
    | none ↦
        refuse router c "" Constants.err_code_bad_json "message is not a valid protocol envelope" s
    | some env ↦ dispatch_on mismatch fails now c raw env s
  ]

  -- One round of `readLoop`; `none` is that it returns.
  unfoldable pub read_loop :
      (ℤ → String) → Faults → ℕ → ℕ → ClientRead → Server P → Option (Server P)
  unfolding dispatch
  read_loop mismatch fails now c read_failed s = none
  read_loop mismatch fails now c binary_frame s = some (
      refuse router c "" Constants.err_code_bad_json "expected a UTF-8 text frame containing JSON"
        s)
  read_loop mismatch fails now c (text_frame raw) s = some (dispatch mismatch fails now c raw s)

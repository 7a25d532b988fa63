-- ===== src/Server/Asked.antt =====
-- What a frame of the extension asks of the peer layer: daemon/server/websocket.go.
use sharing.Base.{ℕ, String, ◌≡◌, true, none, some, str_eq, if◌then◌else◌}
use sharing.Protocol.Constants
use sharing.Protocol.Constants.{protocol_version}
use sharing.Protocol.Json.{Frame, unmarshal}
use sharing.Protocol.Types.{Device}
use sharing.Protocol.PeerMessages.{
  new_peer_signal_offer, new_peer_signal_answer, new_peer_signal_ice,
}
use sharing.Server.Snapshot.{device}
use sharing.Protocol.ControlMessages.{
  PairStart, PairConfirm, PairForget, SignalOfferRequest, SignalAnswerRequest, SignalIceRequest,
}
use sharing.Protocol.Wire.{Envelope, decode_envelope}
use sharing.Server.Hub.{PeerRouter, Server}
use sharing.Server.Requests.{
  pair_start_fields, pair_forget_fields, pair_confirm_fields, signal_offer_fields,
  signal_answer_fields, signal_ice_fields,
}
use sharing.Server.Answers.{RouterCall, call_start, call_confirm, call_signal}

-- The id of the request in a frame.
abbrev pub frame_id : Frame → String
frame_id raw = elim (decode_envelope raw) [ none ↦ "" | some env ↦ env.id ]

-- The frame is an envelope of the type.
abbrev pub IsTyped : Frame → Envelope → String → Type 0
IsTyped raw env type = (decode_envelope raw ≡ some env) × (str_eq env.type type ≡ true)

module _ {P : Type 0} (router : PeerRouter P) (now : ℕ) (s : Server P) (raw : Frame) where
  -- What a frame asks of the peer layer, from its type and its body: a pairing with the device as the
  -- roster has it, an answer to a pairing, or a signal from this daemon.
  pub data Asked : RouterCall → Type 0 where
    asked_start :
        (env : Envelope) (msg : PairStart) (dev : Device)
        → IsTyped raw env Constants.type_pair_start
        → unmarshal pair_start_fields raw ≡ some msg
        → device (router.trust_of s.peers) now msg.device_id s.roster ≡ some dev
        → Asked (call_start dev)
    asked_confirm :
        (env : Envelope) (msg : PairConfirm)
        → IsTyped raw env Constants.type_pair_confirm
        → unmarshal pair_confirm_fields raw ≡ some msg
        → Asked (
            call_confirm (record {
              device_id = msg.device_id;
              accept = msg.accept;
              reason = if msg.accept then "" else Constants.pair_reason_declined;
            }))
    asked_offer :
        (env : Envelope) (msg : SignalOfferRequest)
        → IsTyped raw env Constants.type_signal_offer
        → unmarshal signal_offer_fields raw ≡ some msg
        → Asked (call_signal msg.to (new_peer_signal_offer s.self.id msg.sdp))
    asked_answer :
        (env : Envelope) (msg : SignalAnswerRequest)
        → IsTyped raw env Constants.type_signal_answer
        → unmarshal signal_answer_fields raw ≡ some msg
        → Asked (call_signal msg.to (new_peer_signal_answer s.self.id msg.sdp))
    asked_ice :
        (env : Envelope) (msg : SignalIceRequest)
        → IsTyped raw env Constants.type_signal_ice
        → unmarshal signal_ice_fields raw ≡ some msg
        → Asked (
            call_signal msg.to
              (new_peer_signal_ice s.self.id msg.candidate msg.sdp_mid msg.sdp_mline_index))

  -- The frame asks to forget the device.
  pub record AskedToForget (id : String) : Type 0 where
    pub envelope : Envelope
    pub msg : PairForget
    pub typed : IsTyped raw envelope Constants.type_pair_forget
    pub decoded : unmarshal pair_forget_fields raw ≡ some msg
    pub device_id : msg.device_id ≡ id

-- ===== src/Server/Requests.antt =====
-- `json.Unmarshal` of a client's frame into the struct of its type: daemon/protocol/messages.go.
use sharing.Base.{Option, some}
use sharing.Protocol.Json.{Members, string_field, int_field, bool_field, ◌>>=◌}
use sharing.Protocol.ControlMessages.{
  Hello, Ping, PairStart, PairForget, PairConfirm, SignalOfferRequest, SignalAnswerRequest,
  SignalIceRequest,
}

unfoldable pub hello_fields : Members → Option Hello
hello_fields ms = do
  type ← string_field "type" ms
  id ← string_field "id" ms
  protocol_version ← int_field "protocolVersion" ms
  client ← string_field "client" ms
  client_version ← string_field "clientVersion" ms
  some (record {
    type = type;
    id = id;
    protocol_version = protocol_version;
    client = client;
    client_version = client_version;
  })

unfoldable pub ping_fields : Members → Option Ping
ping_fields ms = do
  type ← string_field "type" ms
  id ← string_field "id" ms
  t ← int_field "t" ms
  some (record { type = type; id = id; t = t })

unfoldable pub pair_start_fields : Members → Option PairStart
pair_start_fields ms = do
  type ← string_field "type" ms
  id ← string_field "id" ms
  device_id ← string_field "deviceId" ms
  some (record { type = type; id = id; device_id = device_id })

unfoldable pub pair_forget_fields : Members → Option PairForget
pair_forget_fields ms = do
  type ← string_field "type" ms
  id ← string_field "id" ms
  device_id ← string_field "deviceId" ms
  some (record { type = type; id = id; device_id = device_id })

unfoldable pub pair_confirm_fields : Members → Option PairConfirm
pair_confirm_fields ms = do
  type ← string_field "type" ms
  id ← string_field "id" ms
  device_id ← string_field "deviceId" ms
  accept ← bool_field "accept" ms
  some (record { type = type; id = id; device_id = device_id; accept = accept })

unfoldable pub signal_offer_fields : Members → Option SignalOfferRequest
signal_offer_fields ms = do
  type ← string_field "type" ms
  id ← string_field "id" ms
  to ← string_field "to" ms
  sdp ← string_field "sdp" ms
  some (record { type = type; id = id; to = to; sdp = sdp })

unfoldable pub signal_answer_fields : Members → Option SignalAnswerRequest
signal_answer_fields ms = do
  type ← string_field "type" ms
  id ← string_field "id" ms
  to ← string_field "to" ms
  sdp ← string_field "sdp" ms
  some (record { type = type; id = id; to = to; sdp = sdp })

unfoldable pub signal_ice_fields : Members → Option SignalIceRequest
signal_ice_fields ms = do
  type ← string_field "type" ms
  id ← string_field "id" ms
  to ← string_field "to" ms
  candidate ← string_field "candidate" ms
  sdp_mid ← string_field "sdpMid" ms
  sdp_mline_index ← int_field "sdpMLineIndex" ms
  some (record {
    type = type;
    id = id;
    to = to;
    candidate = candidate;
    sdp_mid = sdp_mid;
    sdp_mline_index = sdp_mline_index;
  })

-- ===== src/Protocol/Wire.antt =====
-- Frames of the peer plane: `DecodeEnvelope`, the second `json.Unmarshal` into the concrete struct,
-- and `json.Marshal` of each message. The member names are the struct tags of
-- daemon/protocol/messages.go.
pub mod RoundTrip
use sharing.Base.{
  String, Bool, true, false, Option, none, some, List, [], ◌∷◌, ◌++◌, str_eq, if◌then◌else◌, ◌≡◌,
  refl,
}
use sharing.Base.Int.{ℤ, pos}
use sharing.Protocol.Json.{
  Value, str, num, Members, Frame, object, string_field, int_field, unmarshal, ◌>>=◌,
}
use sharing.Protocol.PeerMessages.{
  PeerHello, PeerReady, PeerPairRequired, PeerPairAccept, PeerPaired, PeerPairReject, PeerSignal,
}

-- `Envelope`
pub record Envelope : Type 0 where
  pub type : String
  pub id : String

unfoldable envelope_fields : Members → Option Envelope
unfolding string_field
envelope_fields ms = do
  type ← string_field "type" ms
  id ← string_field "id" ms
  some (record { type = type; id = id })

-- An envelope with no type is refused.
unfoldable with_type : Envelope → Option Envelope
with_type env = if str_eq env.type "" then none else some env

-- `DecodeEnvelope`
unfoldable pub decode_envelope : Frame → Option Envelope
unfolding unmarshal envelope_fields with_type
decode_envelope frame = do env ← unmarshal envelope_fields frame; with_type env

unfoldable pub peer_hello_fields : Members → Option PeerHello
unfolding string_field int_field
peer_hello_fields ms = do
  type ← string_field "type" ms
  device_id ← string_field "deviceId" ms
  name ← string_field "name" ms
  platform ← string_field "platform" ms
  version ← string_field "version" ms
  protocol_version ← int_field "protocolVersion" ms
  token ← string_field "token" ms
  some (record {
    type = type;
    device_id = device_id;
    name = name;
    platform = platform;
    version = version;
    protocol_version = protocol_version;
    token = token;
  })

unfoldable pub peer_pair_required_fields : Members → Option PeerPairRequired
unfolding string_field
peer_pair_required_fields ms = do
  type ← string_field "type" ms
  code ← string_field "code" ms
  nonce ← string_field "nonce" ms
  some (record { type = type; code = code; nonce = nonce })

unfoldable pub peer_pair_accept_fields : Members → Option PeerPairAccept
unfolding string_field
peer_pair_accept_fields ms = do
  type ← string_field "type" ms
  device_id ← string_field "deviceId" ms
  some (record { type = type; device_id = device_id })

unfoldable pub peer_paired_fields : Members → Option PeerPaired
unfolding string_field
peer_paired_fields ms = do
  type ← string_field "type" ms
  token ← string_field "token" ms
  some (record { type = type; token = token })

unfoldable pub peer_pair_reject_fields : Members → Option PeerPairReject
unfolding string_field
peer_pair_reject_fields ms = do
  type ← string_field "type" ms
  reason ← string_field "reason" ms
  some (record { type = type; reason = reason })

unfoldable pub peer_signal_fields : Members → Option PeerSignal
unfolding string_field int_field
peer_signal_fields ms = do
  type ← string_field "type" ms
  from ← string_field "from" ms
  kind ← string_field "kind" ms
  sdp ← string_field "sdp" ms
  candidate ← string_field "candidate" ms
  sdp_mid ← string_field "sdpMid" ms
  sdp_mline_index ← int_field "sdpMLineIndex" ms
  some (record {
    type = type;
    from = from;
    kind = kind;
    sdp = sdp;
    candidate = candidate;
    sdp_mid = sdp_mid;
    sdp_mline_index = sdp_mline_index;
  })

-- A member with `omitempty`.
unfoldable omit_empty : String → String → Members
omit_empty name s = if str_eq s "" then [] else (name, str s) ∷ []

-- `json.Marshal`
unfoldable pub marshal_peer_hello : PeerHello → Frame
unfolding omit_empty
marshal_peer_hello m = object (
    ("type", str m.type)
    ∷ ("deviceId", str m.device_id)
    ∷ ("name", str m.name)
    ∷ ("platform", str m.platform)
    ∷ ("version", str m.version)
    ∷ ("protocolVersion", num m.protocol_version)
    ∷ omit_empty "token" m.token)

unfoldable pub marshal_peer_ready : PeerReady → Frame
marshal_peer_ready m =
    object (("type", str m.type) ∷ ("deviceId", str m.device_id) ∷ ("name", str m.name) ∷ [])

unfoldable pub marshal_peer_pair_required : PeerPairRequired → Frame
marshal_peer_pair_required m =
    object (("type", str m.type) ∷ ("code", str m.code) ∷ ("nonce", str m.nonce) ∷ [])

unfoldable pub marshal_peer_pair_accept : PeerPairAccept → Frame
marshal_peer_pair_accept m = object (("type", str m.type) ∷ ("deviceId", str m.device_id) ∷ [])

unfoldable pub marshal_peer_paired : PeerPaired → Frame
marshal_peer_paired m = object (("type", str m.type) ∷ ("token", str m.token) ∷ [])

unfoldable pub marshal_peer_pair_reject : PeerPairReject → Frame
marshal_peer_pair_reject m = object (("type", str m.type) ∷ ("reason", str m.reason) ∷ [])

unfoldable pub marshal_peer_signal : PeerSignal → Frame
marshal_peer_signal m = object (
    ("type", str m.type)
    ∷ ("from", str m.from)
    ∷ ("kind", str m.kind)
    ∷ ("sdp", str m.sdp)
    ∷ ("candidate", str m.candidate)
    ∷ ("sdpMid", str m.sdp_mid)
    ∷ ("sdpMLineIndex", num m.sdp_mline_index)
    ∷ [])

-- ===== src/Protocol/PeerMessages.antt =====
-- The peer-plane messages of daemon/protocol/messages.go, their constructors and `Validate` methods.
use sharing.Base.{String, not, ◌&&◌, Option, none, some, str_eq, if◌then◌else◌}
use sharing.Base.Int.{ℤ, pos, ◌==◌}
use sharing.Protocol.Constants.{
  protocol_version, pair_reason_declined, signal_kind_offer, signal_kind_answer, signal_kind_ice,
  type_peer_hello, type_peer_ready, type_peer_pair_required, type_peer_pair_accept,
  type_peer_paired, type_peer_pair_reject, type_peer_signal,
}
use sharing.Protocol.Hex.{valid_nonce_format, valid_token_format}
use sharing.Protocol.Code.{valid_code_format}
use sharing.Protocol.Errors.{
  Invalid, missing, missing_for, bad_token, bad_nonce, bad_code, unknown_kind,
}
use sharing.Protocol.Types.{SelfDevice}

-- `PeerHelloMessage`
pub record PeerHello : Type 0 where
  pub type : String
  pub device_id : String
  pub name : String
  pub platform : String
  pub version : String
  pub protocol_version : ℤ
  pub token : String

-- `NewPeerHello`
unfoldable pub new_peer_hello : SelfDevice → String → PeerHello
new_peer_hello self token = record {
  type = type_peer_hello;
  device_id = self.id;
  name = self.name;
  platform = self.platform;
  version = self.version;
  protocol_version = protocol_version;
  token = token;
}

-- `PeerHelloMessage.Validate`; the result is the error, or `none` for nil.
unfoldable pub validate_peer_hello : PeerHello → Option Invalid
validate_peer_hello m =
    if str_eq m.device_id ""
    then some (missing type_peer_hello "deviceId")
    else if not (m.protocol_version == protocol_version)
    then some (Invalid.version m.protocol_version)
    else if not (str_eq m.token "") && not (valid_token_format m.token)
    then some (bad_token type_peer_hello)
    else none

-- `PeerReadyMessage`
pub record PeerReady : Type 0 where
  pub type : String
  pub device_id : String
  pub name : String

-- `NewPeerReady`
unfoldable pub new_peer_ready : SelfDevice → PeerReady
new_peer_ready self = record { type = type_peer_ready; device_id = self.id; name = self.name }

-- `PeerPairRequiredMessage`
pub record PeerPairRequired : Type 0 where
  pub type : String
  pub code : String
  pub nonce : String

-- `NewPeerPairRequired`
unfoldable pub new_peer_pair_required : String → String → PeerPairRequired
new_peer_pair_required code nonce = record {
  type = type_peer_pair_required;
  code = code;
  nonce = nonce;
}

-- `PeerPairRequiredMessage.Validate`
unfoldable pub validate_peer_pair_required : PeerPairRequired → Option Invalid
validate_peer_pair_required m =
    if not (valid_nonce_format m.nonce)
    then some (bad_nonce type_peer_pair_required)
    else if not (str_eq m.code "") && not (valid_code_format m.code)
    then some (bad_code type_peer_pair_required)
    else none

-- `PeerPairAcceptMessage`
pub record PeerPairAccept : Type 0 where
  pub type : String
  pub device_id : String

-- `NewPeerPairAccept`
unfoldable pub new_peer_pair_accept : String → PeerPairAccept
new_peer_pair_accept self_id = record { type = type_peer_pair_accept; device_id = self_id }

-- `PeerPairAcceptMessage.Validate`
unfoldable pub validate_peer_pair_accept : PeerPairAccept → Option Invalid
validate_peer_pair_accept m =
    if str_eq m.device_id "" then some (missing type_peer_pair_accept "deviceId") else none

-- `PeerPairedMessage`
pub record PeerPaired : Type 0 where
  pub type : String
  pub token : String

-- `NewPeerPaired`
unfoldable pub new_peer_paired : String → PeerPaired
new_peer_paired token = record { type = type_peer_paired; token = token }

-- `PeerPairedMessage.Validate`
unfoldable pub validate_peer_paired : PeerPaired → Option Invalid
validate_peer_paired m =
    if not (valid_token_format m.token) then some (bad_token type_peer_paired) else none

-- `PeerPairRejectMessage`
pub record PeerPairReject : Type 0 where
  pub type : String
  pub reason : String

-- `NewPeerPairReject`
unfoldable pub new_peer_pair_reject : String → PeerPairReject
new_peer_pair_reject reason = record {
  type = type_peer_pair_reject;
  reason = if str_eq reason "" then pair_reason_declined else reason;
}

-- `PeerSignalMessage`
pub record PeerSignal : Type 0 where
  pub type : String
  pub from : String
  pub kind : String
  pub sdp : String
  pub candidate : String
  pub sdp_mid : String
  pub sdp_mline_index : ℤ

-- `NewPeerSignalOffer`
unfoldable pub new_peer_signal_offer : String → String → PeerSignal
new_peer_signal_offer from sdp = record {
  type = type_peer_signal;
  from = from;
  kind = signal_kind_offer;
  sdp = sdp;
  candidate = "";
  sdp_mid = "";
  sdp_mline_index = pos 0;
}

-- `NewPeerSignalAnswer`
unfoldable pub new_peer_signal_answer : String → String → PeerSignal
new_peer_signal_answer from sdp = record {
  type = type_peer_signal;
  from = from;
  kind = signal_kind_answer;
  sdp = sdp;
  candidate = "";
  sdp_mid = "";
  sdp_mline_index = pos 0;
}

-- `NewPeerSignalICE`
unfoldable pub new_peer_signal_ice : String → String → String → ℤ → PeerSignal
new_peer_signal_ice from candidate sdp_mid sdp_mline_index = record {
  type = type_peer_signal;
  from = from;
  kind = signal_kind_ice;
  sdp = "";
  candidate = candidate;
  sdp_mid = sdp_mid;
  sdp_mline_index = sdp_mline_index;
}

-- `PeerSignalMessage.Validate`
unfoldable pub validate_peer_signal : PeerSignal → Option Invalid
validate_peer_signal m =
    if str_eq m.from ""
    then some (missing type_peer_signal "from")
    else if str_eq m.kind signal_kind_offer
    then (if str_eq m.sdp "" then some (missing_for m.kind "sdp") else none)
    else if str_eq m.kind signal_kind_answer
    then (if str_eq m.sdp "" then some (missing_for m.kind "sdp") else none)
    else if str_eq m.kind signal_kind_ice
    then (if str_eq m.candidate "" then some (missing_for m.kind "candidate") else none)
    else some (unknown_kind m.kind)

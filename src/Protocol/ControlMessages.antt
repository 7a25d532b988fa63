-- ===== src/Protocol/ControlMessages.antt =====
-- The control-plane messages of daemon/protocol/messages.go, their constructors and `Validate`
-- methods, and the conversion of a peer signal into the push that a client expects.
use Prim.Native.String.{◌++◌}
use sharing.Base.{String, Bool, not, Option, none, some, List, str_eq, if◌then◌else◌}
use sharing.Base.Int.{ℤ}
use sharing.Protocol.Constants.{
  protocol_version, signal_kind_offer, signal_kind_answer, signal_kind_ice, type_ready, type_pong,
  type_error, type_devices, type_pair_code, type_pair_result, type_peer_state, type_pair_start,
  type_pair_confirm, type_pair_forget, type_signal_offer, type_signal_answer, type_signal_ice,
}
use sharing.Protocol.Types.{Device, SelfDevice}
use sharing.Protocol.PeerMessages.{PeerSignal}

-- `HelloMessage`
pub record Hello : Type 0 where
  pub type : String
  pub id : String
  pub protocol_version : ℤ
  pub client : String
  pub client_version : String

-- `PingMessage`
pub record Ping : Type 0 where
  pub type : String
  pub id : String
  pub t : ℤ

-- `PairStartMessage`
pub record PairStart : Type 0 where
  pub type : String
  pub id : String
  pub device_id : String

-- `PairForgetMessage`
pub record PairForget : Type 0 where
  pub type : String
  pub id : String
  pub device_id : String

-- `PairConfirmMessage`
pub record PairConfirm : Type 0 where
  pub type : String
  pub id : String
  pub device_id : String
  pub accept : Bool

-- `err.Error()` of `invalid("<type> requires a non-empty <field>")`.
unfoldable pub required : String → String → String
required type field = "invalid message: " ++ type ++ " requires a non-empty " ++ field

-- `PairStartMessage.Validate`; the result is the text of the error, or `none` for nil.
unfoldable pub validate_pair_start : PairStart → Option String
validate_pair_start m =
    if str_eq m.device_id "" then some (required type_pair_start "deviceId") else none

-- `PairConfirmMessage.Validate`
unfoldable pub validate_pair_confirm : PairConfirm → Option String
validate_pair_confirm m =
    if str_eq m.device_id "" then some (required type_pair_confirm "deviceId") else none

-- `PairForgetMessage.Validate`
unfoldable pub validate_pair_forget : PairForget → Option String
validate_pair_forget m =
    if str_eq m.device_id "" then some (required type_pair_forget "deviceId") else none

-- `SignalOfferRequest`
pub record SignalOfferRequest : Type 0 where
  pub type : String
  pub id : String
  pub to : String
  pub sdp : String

-- `SignalAnswerRequest`
pub record SignalAnswerRequest : Type 0 where
  pub type : String
  pub id : String
  pub to : String
  pub sdp : String

-- `SignalICERequest`
pub record SignalIceRequest : Type 0 where
  pub type : String
  pub id : String
  pub to : String
  pub candidate : String
  pub sdp_mid : String
  pub sdp_mline_index : ℤ

-- `SignalOfferRequest.Validate`
unfoldable pub validate_signal_offer : SignalOfferRequest → Option String
validate_signal_offer m =
    if str_eq m.to ""
    then some (required type_signal_offer "to")
    else if str_eq m.sdp ""
    then some (required type_signal_offer "sdp")
    else none

-- `SignalAnswerRequest.Validate`
unfoldable pub validate_signal_answer : SignalAnswerRequest → Option String
validate_signal_answer m =
    if str_eq m.to ""
    then some (required type_signal_answer "to")
    else if str_eq m.sdp ""
    then some (required type_signal_answer "sdp")
    else none

-- `SignalICERequest.Validate`
unfoldable pub validate_signal_ice : SignalIceRequest → Option String
validate_signal_ice m =
    if str_eq m.to ""
    then some (required type_signal_ice "to")
    else if str_eq m.candidate ""
    then some (required type_signal_ice "candidate")
    else none

-- What the daemon sends to a client: `ReadyMessage`, `PongMessage`, `ErrorMessage`,
-- `DevicesMessage`, `PairCodeMessage`, `PairResultMessage`, `PeerStateMessage`, `SignalOfferPush`,
-- `SignalAnswerPush` and `SignalICEPush`, without the type that each of them carries.
pub data ServerMessage : Type 0 where
  ready : String → ℤ → SelfDevice → ServerMessage
  pong : String → ℤ → ServerMessage
  error : String → String → String → ServerMessage
  devices : List Device → ServerMessage
  pair_code : String → String → String → String → ServerMessage
  pair_result : String → Bool → String → ServerMessage
  peer_state : String → String → String → ServerMessage
  offer_push : String → String → ServerMessage
  answer_push : String → String → ServerMessage
  ice_push : String → String → String → ℤ → ServerMessage

-- The `type` field of each.
unfoldable type_of : ServerMessage → String
type_of (ready id v self) = type_ready
type_of (pong id t) = type_pong
type_of (error id code message) = type_error
type_of (devices ds) = type_devices
type_of (pair_code id code direction name) = type_pair_code
type_of (pair_result id paired reason) = type_pair_result
type_of (peer_state id state message) = type_peer_state
type_of (offer_push from sdp) = type_signal_offer
type_of (answer_push from sdp) = type_signal_answer
type_of (ice_push from candidate mid index) = type_signal_ice

-- `NewReady`
unfoldable pub new_ready : String → SelfDevice → ServerMessage
new_ready id self = ready id protocol_version self

-- `ToOfferPush`; `none` is the false `ok`.
unfoldable pub to_offer_push : PeerSignal → Option ServerMessage
to_offer_push m =
    if not (str_eq m.kind signal_kind_offer) then none else some (offer_push m.from m.sdp)

-- `ToAnswerPush`
unfoldable pub to_answer_push : PeerSignal → Option ServerMessage
to_answer_push m =
    if not (str_eq m.kind signal_kind_answer) then none else some (answer_push m.from m.sdp)

-- `ToICEPush`
unfoldable pub to_ice_push : PeerSignal → Option ServerMessage
to_ice_push m =
    if not (str_eq m.kind signal_kind_ice)
    then none
    else some (ice_push m.from m.candidate m.sdp_mid m.sdp_mline_index)

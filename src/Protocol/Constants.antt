-- ===== src/Protocol/Constants.antt =====
-- The constants of daemon/protocol/messages.go and daemon/protocol/pairing.go.
use sharing.Base.{ℕ, ◌*◌, String}
use sharing.Base.Int.{ℤ, pos}
use sharing.Base.Time.{second, minute}

-- Versions.
abbrev pub protocol_version : ℤ
protocol_version = pos 2

abbrev pub app_version : String
app_version = "0.1.0"

-- Network defaults and hard limits.
abbrev pub default_peer_port : ℕ
default_peer_port = 8766

abbrev peer_pair_attempts_per_window : ℕ
peer_pair_attempts_per_window = 5

abbrev peer_pair_rate_window : ℕ
peer_pair_rate_window = minute

abbrev pub device_online_ttl : ℕ
device_online_ttl = 30 * second

-- Pairing values.
abbrev pub code_digits : ℕ
code_digits = 6

abbrev pub code_modulus : ℕ
code_modulus = 1000000

abbrev pub nonce_bytes : ℕ
nonce_bytes = 16

abbrev pub nonce_hex_len : ℕ
nonce_hex_len = nonce_bytes * 2

abbrev pub token_bytes : ℕ
token_bytes = 32

abbrev pub token_hex_len : ℕ
token_hex_len = token_bytes * 2

-- Platform values.
abbrev pub platform_windows : String
platform_windows = "windows"

abbrev pub platform_darwin : String
platform_darwin = "darwin"

abbrev pub platform_linux : String
platform_linux = "linux"

abbrev pub platform_unknown : String
platform_unknown = "unknown"

-- Device status values.
abbrev pub status_online : String
status_online = "online"

abbrev pub status_offline : String
status_offline = "offline"

-- PeerState values.
abbrev pub peer_state_offline : String
peer_state_offline = "offline"

abbrev pub peer_state_online : String
peer_state_online = "online"

abbrev pub peer_state_pairing : String
peer_state_pairing = "pairing"

abbrev pub peer_state_paired : String
peer_state_paired = "paired"

abbrev pub peer_state_error : String
peer_state_error = "error"

-- PairDirection values.
abbrev pub pair_direction_outgoing : String
pair_direction_outgoing = "outgoing"

abbrev pub pair_direction_incoming : String
pair_direction_incoming = "incoming"

-- SignalKind values.
abbrev pub signal_kind_offer : String
signal_kind_offer = "offer"

abbrev pub signal_kind_answer : String
signal_kind_answer = "answer"

abbrev pub signal_kind_ice : String
signal_kind_ice = "ice"

-- Pairing failure reasons.
abbrev pub pair_reason_declined : String
pair_reason_declined = "declined"

abbrev pub pair_reason_timeout : String
pair_reason_timeout = "timeout"

abbrev pub pair_reason_code_mismatch : String
pair_reason_code_mismatch = "code_mismatch"

abbrev pub pair_reason_rate_limited : String
pair_reason_rate_limited = "rate_limited"

abbrev pub pair_reason_busy : String
pair_reason_busy = "busy"

abbrev pub pair_reason_protocol_mismatch : String
pair_reason_protocol_mismatch = "protocol_mismatch"

abbrev pub pair_reason_unreachable : String
pair_reason_unreachable = "unreachable"

abbrev pub pair_reason_internal : String
pair_reason_internal = "internal"

-- Message type discriminators.
abbrev pub type_hello : String
type_hello = "hello"

abbrev pub type_ping : String
type_ping = "ping"

abbrev pub type_ready : String
type_ready = "ready"

abbrev pub type_pong : String
type_pong = "pong"

abbrev pub type_error : String
type_error = "error"

abbrev pub type_devices : String
type_devices = "devices"

abbrev pub type_devices_refresh : String
type_devices_refresh = "devices:refresh"

abbrev pub type_pair_start : String
type_pair_start = "pair:start"

abbrev pub type_pair_confirm : String
type_pair_confirm = "pair:confirm"

abbrev pub type_pair_forget : String
type_pair_forget = "pair:forget"

abbrev pub type_pair_code : String
type_pair_code = "pair:code"

abbrev pub type_pair_result : String
type_pair_result = "pair:result"

abbrev pub type_peer_state : String
type_peer_state = "peer:state"

abbrev pub type_signal_offer : String
type_signal_offer = "signal:offer"

abbrev pub type_signal_answer : String
type_signal_answer = "signal:answer"

abbrev pub type_signal_ice : String
type_signal_ice = "signal:ice"

abbrev pub type_peer_hello : String
type_peer_hello = "peer:hello"

abbrev pub type_peer_ready : String
type_peer_ready = "peer:ready"

abbrev pub type_peer_pair_required : String
type_peer_pair_required = "peer:pair:required"

abbrev pub type_peer_pair_accept : String
type_peer_pair_accept = "peer:pair:accept"

abbrev pub type_peer_paired : String
type_peer_paired = "peer:paired"

abbrev pub type_peer_pair_reject : String
type_peer_pair_reject = "peer:pair:reject"

abbrev pub type_peer_signal : String
type_peer_signal = "peer:signal"

-- Error codes of an ErrorMessage.
abbrev pub err_code_unknown_type : String
err_code_unknown_type = "unknown_type"

abbrev pub err_code_bad_json : String
err_code_bad_json = "bad_json"

abbrev pub err_code_protocol_mismatch : String
err_code_protocol_mismatch = "protocol_mismatch"

abbrev pub err_code_internal : String
err_code_internal = "internal"

abbrev pub err_code_invalid_request : String
err_code_invalid_request = "invalid_request"

abbrev pub err_code_unknown_device : String
err_code_unknown_device = "unknown_device"

abbrev pub err_code_device_offline : String
err_code_device_offline = "device_offline"

abbrev pub err_code_not_paired : String
err_code_not_paired = "not_paired"

abbrev pub err_code_already_paired : String
err_code_already_paired = "already_paired"

abbrev pub err_code_pair_in_progress : String
err_code_pair_in_progress = "pair_in_progress"

abbrev pub err_code_pair_failed : String
err_code_pair_failed = "pair_failed"

abbrev pub err_code_rate_limited : String
err_code_rate_limited = "rate_limited"

abbrev pub err_code_peer_unreachable : String
err_code_peer_unreachable = "peer_unreachable"

-- Keys of the mDNS TXT record.
abbrev pub txt_key_id : String
txt_key_id = "id"

abbrev pub txt_key_name : String
txt_key_name = "name"

abbrev pub txt_key_version : String
txt_key_version = "ver"

abbrev pub txt_key_protocol : String
txt_key_protocol = "proto"

abbrev pub txt_key_platform : String
txt_key_platform = "plat"

-- Close codes of the peer listener.
abbrev pub peer_close_protocol_mismatch : ℕ
peer_close_protocol_mismatch = 4000

abbrev pub peer_close_pair_required : ℕ
peer_close_pair_required = 4001

abbrev pub peer_close_rate_limited : ℕ
peer_close_rate_limited = 4002

abbrev pub peer_close_bad_frame : ℕ
peer_close_bad_frame = 4003

abbrev pub peer_close_pair_rejected : ℕ
peer_close_pair_rejected = 4004

abbrev pub peer_close_unauthorized : ℕ
peer_close_unauthorized = 4005

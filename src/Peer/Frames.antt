-- ===== src/Peer/Frames.antt =====
-- Frames off the wire: `frameLoop` and `handleSignalFrame` of daemon/peer/peer.go, and
-- `handlePairingFrame` of daemon/peer/pairing.go. `on_read` is one round of the loop.
use sharing.Base.{
  ℕ, String, Bool, true, false, not, Option, none, some, str_eq, ◌==◌, if◌then◌else◌,
}
use sharing.Base.Dict.{is_some}
use sharing.Protocol.Constants.{
  pair_reason_declined, peer_close_bad_frame, type_peer_signal, type_peer_pair_accept,
  type_peer_paired, type_peer_pair_reject,
}
use sharing.Protocol.Json.{Frame, unmarshal}
use sharing.Protocol.PeerMessages.{
  PeerSignal, PeerPairAccept, PeerPaired, PeerPairReject, validate_peer_signal,
  validate_peer_pair_accept, validate_peer_paired,
}
use sharing.Protocol.Wire.{
  Envelope, decode_envelope, peer_signal_fields, peer_pair_accept_fields, peer_paired_fields,
  peer_pair_reject_fields,
}
use sharing.Peer.State.{Stage, serving, ev_accept, ev_reject, ev_paired, Manager, on_signal, emit}
use sharing.Peer.Conn.{close_with}
use sharing.Peer.Registry.{teardown, release}
use sharing.Peer.Pending.{push_event}

-- What reading a socket gives: a text frame, a binary one, or an error.
pub data Read : Type 0 where
  frame : Frame → Read
  binary failed : Read

-- The socket is closed for a bad frame, and may not continue.
abbrev pub bad_frame : ℕ → String → Manager → Manager × Bool
bad_frame c reason m = (close_with c peer_close_bad_frame reason m, false)

-- `handleSignalFrame` after the second unmarshal.
unfoldable pub accept_signal : ℕ → Option PeerSignal → Manager → Manager × Bool
accept_signal c none m = bad_frame c "malformed peer:signal" m
accept_signal c (some msg) m =
    if is_some (validate_peer_signal msg)
    then bad_frame c "invalid peer:signal" m
    else if not (str_eq msg.from (m.sockets c).remote_id)
    then bad_frame c "signal from a mismatched device id" m
    else (emit (on_signal msg) m, true)

-- `handleSignalFrame`
unfoldable pub handle_signal_frame : ℕ → Envelope → Frame → Manager → Manager × Bool
unfolding accept_signal
handle_signal_frame c env data' m =
    if not (str_eq env.type type_peer_signal)
    then bad_frame c "only peer:signal is accepted on a paired socket" m
    else accept_signal c (unmarshal peer_signal_fields data') m

-- The three cases of the switch of `handlePairingFrame`, after the second unmarshal.
unfoldable pub accept_pair_accept : ℕ → ℕ → Option PeerPairAccept → Manager → Manager × Bool
accept_pair_accept c p none m = bad_frame c "malformed peer:pair:accept" m
accept_pair_accept c p (some msg) m =
    if is_some (validate_peer_pair_accept msg)
    then bad_frame c "malformed peer:pair:accept" m
    else if not (str_eq msg.device_id (m.sockets c).remote_id)
    then bad_frame c "accept from a mismatched device id" m
    else (push_event p ev_accept m, true)

unfoldable pub accept_paired : ℕ → ℕ → Option PeerPaired → Manager → Manager × Bool
accept_paired c p none m = bad_frame c "malformed peer:paired" m
accept_paired c p (some msg) m =
    if is_some (validate_peer_paired msg)
    then bad_frame c "malformed peer:paired" m
    else (push_event p (ev_paired msg.token) m, true)

unfoldable pub accept_pair_reject : ℕ → ℕ → Option PeerPairReject → Manager → Manager × Bool
accept_pair_reject c p none m = bad_frame c "malformed peer:pair:reject" m
accept_pair_reject c p (some msg) m =
    let reason = if str_eq msg.reason "" then pair_reason_declined else msg.reason in
    (push_event p (ev_reject reason) m, true)

-- The switch of `handlePairingFrame`.
unfoldable pub pairing_switch : ℕ → ℕ → Envelope → Frame → Manager → Manager × Bool
unfolding accept_pair_accept accept_paired accept_pair_reject
pairing_switch c p env data' m =
    if str_eq env.type type_peer_pair_accept
    then accept_pair_accept c p (unmarshal peer_pair_accept_fields data') m
    else if str_eq env.type type_peer_paired
    then accept_paired c p (unmarshal peer_paired_fields data') m
    else if str_eq env.type type_peer_pair_reject
    then accept_pair_reject c p (unmarshal peer_pair_reject_fields data') m
    else bad_frame c "unexpected frame during pairing" m

-- `p.socket() == c`
abbrev pub is_socket : Option ℕ → ℕ → Bool
is_socket none c = false
is_socket (some d) c = d == c

-- `handlePairingFrame`
unfoldable pub handle_pairing_frame : ℕ → Envelope → Frame → Manager → Manager × Bool
unfolding pairing_switch
handle_pairing_frame c env data' m = elim (m.pending (m.sockets c).remote_id) [
  | none ↦ bad_frame c "no pairing in progress" m
  | some p ↦
      if not (is_socket (m.pairings p).conn c)
      then bad_frame c "stale pairing socket" m
      else pairing_switch c p env data' m
]

-- A frame in the loop, after the envelope is decoded.
unfoldable pub handle_frame : ℕ → Option Envelope → Frame → Manager → Manager × Bool
handle_frame c none data' m = bad_frame c "frame is not a valid protocol envelope" m
handle_frame c (some env) data' m =
    if (m.sockets c).paired
    then handle_signal_frame c env data' m
    else handle_pairing_frame c env data' m

-- The loop goes on, or its goroutine returns through the deferred calls.
abbrev pub continue_or_end : ℕ → Manager × Bool → Manager
continue_or_end c (m, more) = if more then m else teardown c (release c m)

unfoldable pub loop_round : ℕ → Read → Manager → Manager
unfolding handle_frame
loop_round c failed m = teardown c (release c m)
loop_round c binary m = continue_or_end c (bad_frame c "binary frames are not accepted" m)
loop_round c (frame data') m = continue_or_end c (handle_frame c (decode_envelope data') data' m)

abbrev pub is_serving : Stage → Bool
is_serving serving = true
is_serving _ = false

-- One round of `frameLoop`, if the socket is in it.
unfoldable pub on_read : ℕ → Read → Manager → Manager
unfolding loop_round
on_read c read m = if is_serving (m.sockets c).stage then loop_round c read m else m

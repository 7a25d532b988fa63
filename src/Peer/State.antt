-- ===== src/Peer/State.antt =====
-- The state of daemon/peer: the `Manager` of peer.go, with the sockets (`conn` of conn.go) and the
-- pairings (`pairing` of pairing.go) that it points to. A pointer is a number, under which the
-- object stands in a store; two pointers are the same object exactly if the numbers are equal.
use sharing.Base.{ℕ, String, Bool, Option, List, ◌∷◌, ◌==◌, str_eq, if◌then◌else◌}
use sharing.Protocol.Json.{Frame}
use sharing.Protocol.Types.{SelfDevice}
use sharing.Protocol.Errors.{Invalid}
use sharing.Protocol.PeerMessages.{PeerSignal}
use sharing.Trust.Disk.{Faults}
use sharing.Trust.Store.{TrustStore}
use sharing.RateLimit.{RateLimiter}

-- A map from texts, and a store of objects.
abbrev pub Table : Type 0 → Type 0
Table V = String → Option V

abbrev pub assign : {V : Type 0} → Table V → String → Option V → Table V
assign {V} t k v = λ j. if str_eq k j then v else t j

abbrev pub Store : Type 0 → Type 0
Store V = ℕ → V

abbrev pub store : {V : Type 0} → Store V → ℕ → V → Store V
store {V} s i v = λ j. if i == j then v else s j

-- `outFrame`
pub data OutFrame : Type 0 where
  text : Frame → OutFrame
  close : ℕ → String → OutFrame

-- Who reads the socket: nobody yet, the handshake, the frame loop, or nobody any more.
pub data Stage : Type 0 where
  fresh handshake serving ended : Stage

-- `conn`. `out` is what was queued, in order, of which the last `unsent` frames wait for the writer;
-- `cancelled` is the state of its context, `tracked` its place in `Manager.all`, and `holds_slot`
-- whether the handshake slot is still to be released.
pub record Conn : Type 0 where
  pub outbound : Bool
  pub remote_addr : String
  pub remote_id : String
  pub remote_name : String
  pub out : List OutFrame
  pub unsent : ℕ
  pub cancelled : Bool
  pub tracked : Bool
  pub paired : Bool
  pub holds_slot : Bool
  pub stage : Stage

-- `PairDecision`
pub record PairDecision : Type 0 where
  pub device_id : String
  pub accept : Bool
  pub reason : String

-- `pairEvent`, by its kind.
pub data PairEvent : Type 0 where
  ev_accept : PairEvent
  ev_reject ev_cancelled : String → PairEvent
  ev_paired : String → PairEvent

-- Whether the driver goroutine of a pairing is still to start, runs, or has returned.
pub data Phase : Type 0 where
  waiting running finished : Phase

-- `pairing`, with the two flags that are the driver's local variables.
pub record Pairing : Type 0 where
  pub device_id : String
  pub name : String
  pub direction : String
  pub responder : Bool
  pub code : String
  pub conn : Option ℕ
  pub decision : Option PairDecision
  pub remote : List PairEvent
  pub done : Bool
  pub phase : Phase
  pub local_accepted : Bool
  pub remote_accepted : Bool

-- The calls of `Handler`.
pub data HandlerCall : Type 0 where
  on_pair_code : String → String → String → String → HandlerCall
  on_pair_result : String → Bool → String → HandlerCall
  on_peer_state : String → String → String → HandlerCall
  on_signal : PeerSignal → HandlerCall

-- The errors that the control plane tells apart; `other` is any other one.
pub data PeerError : Type 0 where
  not_paired peer_unreachable no_pending_pairing pair_timeout pair_in_progress : PeerError
  invalid_message : Invalid → PeerError
  other : String → PeerError

-- `Manager`. `calls` are the handler's calls, newest first.
pub record Manager : Type 0 where
  pub self : SelfDevice
  pub trust : TrustStore
  pub limiter : RateLimiter
  pub conns : Table ℕ
  pub pending : Table ℕ
  pub addrs : Table String
  pub dialing : Table (Unit {0})
  pub reconnects : Table (Unit {0})
  pub handshakes : ℕ
  pub sockets : Store Conn
  pub next_conn : ℕ
  pub pairings : Store Pairing
  pub next_pairing : ℕ
  pub calls : List HandlerCall

-- What an operation takes from outside: the clock, the bytes of crypto/rand for a nonce and for a
-- token, which system calls fail, and SHA-256.
pub record Env : Type 0 where
  pub now : ℕ
  pub nonce_bytes : Option (List ℕ)
  pub token_bytes : Option (List ℕ)
  pub faults : Faults
  pub sum256 : String → List ℕ

abbrev pub emit : HandlerCall → Manager → Manager
emit call m = record m { calls = call ∷ m.calls }

abbrev pub set_conn : ℕ → Conn → Manager → Manager
set_conn c v m = record m { sockets = store m.sockets c v }

abbrev pub set_pairing : ℕ → Pairing → Manager → Manager
set_pairing p v m = record m { pairings = store m.pairings p v }

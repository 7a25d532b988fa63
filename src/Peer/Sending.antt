-- ===== src/Peer/Sending.antt =====
-- `SendSignal` of daemon/peer/peer.go: what goes out over the peer plane.
use mathlib.Core.Path.{subst}
use sharing.Base.{
  ℕ, String, ◌≡◌, Bool, true, false, Option, none, some, [], ◌∷◌, ◌++◌, arith, eq_iff, refl, str_eq,
  if◌then◌else◌, ◌⊎◌, ap, sym, ◌∙◌,
}
use sharing.Protocol.Constants.{type_peer_signal}
use sharing.Protocol.PeerMessages.{PeerSignal, validate_peer_signal}
use sharing.Protocol.Wire.{marshal_peer_signal}
use sharing.Trust.Store.{is_paired}
use sharing.Peer.State.{Manager, Env, PeerError, text}
use sharing.Peer.Conn.{enqueue}
use sharing.Peer.Dialer.{ensure_conn}
use sharing.Peer.Frames.{Read}
use sharing.Peer.Relay.{attributed, relay_on, send_signal}

-- The frame is the last that was queued on a socket, after what was queued there before.
pub record IsQueued (sent : PeerSignal) (m m' : Manager) (c : ℕ) : Type 0 where
  pub alive : (m.sockets c).cancelled ≡ false
  pub queued : (m'.sockets c).out ≡ (m.sockets c).out ++ text (marshal_peer_signal sent) ∷ []

-- What has been sent: on the socket that `ensureConn` gave for the device, the signal as this daemon's
-- own.
pub record IsSent (env : Env) (id : String) (msg : PeerSignal) (reached : Bool) (read : Read)
    (m m' : Manager) : Type 0 where
  pub paired : is_paired m.trust id ≡ true
  pub typed : msg.type ≡ type_peer_signal
  pub own : (msg.from ≡ "") ⊎ (msg.from ≡ m.self.id)
  pub valid : validate_peer_signal (record msg { from = m.self.id }) ≡ none
  pub before : Manager
  pub socket : ℕ
  pub given : ensure_conn env id reached read m ≡ (before, none, some socket)
  pub frame : IsQueued (record msg { from = m.self.id }) before m' socket

relay_on-IsQueued :
    (sent : PeerSignal) (r : Manager × Option PeerError × Option ℕ)
    → (relay_on sent r).1 ≡ none
    → (m : Manager) × (c : ℕ) × (r ≡ (m, none, some c)) × IsQueued sent m (relay_on sent r).0 c
unfolding relay_on enqueue
relay_on-IsQueued sent (m, some e, c) h = cc h
relay_on-IsQueued sent (m, none, none) h = cc h
relay_on-IsQueued sent (m, none, some c) h =
    (m, c, refl, record { alive = ground arith; queued = ground arith })

-- The guards of `SendSignal`, all passed.
record Passed (env : Env) (id : String) (msg : PeerSignal) (reached : Bool) (read : Read)
    (m : Manager) : Type 0 where
  paired : is_paired m.trust id ≡ true
  typed : str_eq msg.type type_peer_signal ≡ true
  own : str_eq (attributed m.self.id msg).from m.self.id ≡ true
  valid : validate_peer_signal (attributed m.self.id msg) ≡ none
  relayed :
      send_signal env id msg reached read m
      ≡ relay_on (attributed m.self.id msg) (ensure_conn env id reached read m)

send_signal-Passed :
    (env : Env) (id : String) (msg : PeerSignal) (reached : Bool) (read : Read) (m : Manager)
    → (send_signal env id msg reached read m).1 ≡ none
    → Passed env id msg reached read m
unfolding send_signal
send_signal-Passed env id msg reached read m h = record {
  paired = ground arith;
  typed = ground arith;
  own = ground arith;
  valid = ground arith;
  relayed = ground arith;
}

sender :
    (from self : String)
    → str_eq (if str_eq from "" then self else from) self ≡ true
    → (from ≡ "") ⊎ (from ≡ self)
sender from self h = ground (arith, eq_iff from "", eq_iff from self)

attributed_lem :
    (self : String) (msg : PeerSignal)
    → str_eq (attributed self msg).from self ≡ true
    → attributed self msg ≡ record msg { from = self }
unfolding attributed
attributed_lem self msg h =
    ap (λ f. record msg { from = f }) ((eq_iff (attributed self msg).from self).0 h)

-- A signal that is sent without an error has been queued, as the last frame, on the live socket that
-- `ensureConn` gave for a paired device, with this daemon as its sender: it named this daemon or none,
-- is of the type peer:signal, and is valid.
pub send_signal-IsSent :
    (env : Env) (id : String) (msg : PeerSignal) (reached : Bool) (read : Read) (m : Manager)
    → (send_signal env id msg reached read m).1 ≡ none
    → IsSent env id msg reached read m (send_signal env id msg reached read m).0
unfolding attributed
send_signal-IsSent env id msg reached read m h =
    let g = send_signal-Passed env id msg reached read m h in
    let same = attributed_lem m.self.id msg g.own in
    let sent : PeerSignal = record msg { from = m.self.id } in
    let to_ = g.relayed ∙ ap (λ f. relay_on f (ensure_conn env id reached read m)) same in
    let (before, c, given, queued) =
      relay_on-IsQueued sent (ensure_conn env id reached read m) (ap (λ r. r.1) (sym to_) ∙ h) in
    record {
      paired = g.paired;
      typed = (eq_iff msg.type type_peer_signal).0 g.typed;
      own = sender msg.from m.self.id g.own;
      valid = ap validate_peer_signal (sym same) ∙ g.valid;
      before = before;
      socket = c;
      given = given;
      frame = subst (λ r. IsQueued sent before r.0 c) (sym to_) queued;
    }

-- ===== src/Peer/Silent.antt =====
-- The calls of `OnSignal` by the parts of daemon/peer/peer.go and daemon/peer/pairing.go that end a
-- socket or handle a frame of a pairing.
use sharing.Base.{
  ℕ, String, ◌≡◌, ◌∙◌, Bool, true, false, not, ◌&&◌, Option, none, some, arith, List, [], ◌∷◌,
  str_eq, ap, if◌then◌else◌,
}
use sharing.Protocol.Json.{Frame, unmarshal}
use sharing.Protocol.PeerMessages.{
  PeerSignal, validate_peer_pair_accept, validate_peer_paired, PeerPairAccept, PeerPaired,
  PeerPairReject, validate_peer_signal,
}
use sharing.Protocol.Wire.{Envelope, peer_signal_fields}
use sharing.Peer.State.{
  Manager, HandlerCall, PairEvent, ev_accept, ev_paired, on_signal, on_pair_code, on_pair_result,
  on_peer_state,
}
use sharing.Protocol.Constants.{
  peer_close_bad_frame, type_peer_pair_accept, type_peer_paired, type_peer_pair_reject,
}
use sharing.Base.Dict.{is_some}
use sharing.Peer.Conn.{hard_close}
use sharing.Peer.Registry.{teardown, release, unregister_conn, release_handshake}
use sharing.Peer.Pending.{push_event}
use sharing.Peer.Frames.{
  Read, frame, accept_pair_accept, accept_paired, accept_pair_reject, pairing_switch,
  handle_pairing_frame, bad_frame, is_socket,
}
use sharing.Peer.Quiet.{
  Quiet, Quiet-trans, close_with-Quiet, unregister_conn-Quiet, hard_close-Quiet,
}

-- The messages of the calls of `OnSignal`, newest first.
unfoldable pub signals : List HandlerCall → List PeerSignal
signals [] = []
signals (on_signal msg ∷ calls) = msg ∷ signals calls
signals (on_pair_code _ _ _ _ ∷ calls) = signals calls
signals (on_pair_result _ _ _ ∷ calls) = signals calls
signals (on_peer_state _ _ _ ∷ calls) = signals calls

-- The socket is in the frame loop and paired, the frame read holds the message, its sender is the
-- remote device of the socket, and the message is valid.
pub record Authentic (c : ℕ) (read : Read) (m : Manager) (msg : PeerSignal) : Type 0 where
  pub data' : Frame
  pub was_read : read ≡ frame data'
  pub decoded : unmarshal peer_signal_fields data' ≡ some msg
  pub is_paired : (m.sockets c).paired ≡ true
  pub sender : msg.from ≡ (m.sockets c).remote_id
  pub is_valid : validate_peer_signal msg ≡ none

-- Nothing more is handed over.
pub record Silent (m m' : Manager) : Type 0 where
  pub unheard : signals m'.calls ≡ signals m.calls

abbrev Quiet-Silent : {m m' : Manager} → Quiet m m' → Silent m m'
Quiet-Silent q = record { unheard = ap signals q.calls }

Silent-trans : {m m' m'' : Manager} → Silent m m' → Silent m' m'' → Silent m m''
Silent-trans s t = record { unheard = t.unheard ∙ s.unheard }

if-Silent :
    {m m₁ m₂ : Manager} (b : Bool) → Silent m m₁ → Silent m m₂ → Silent m (if b then m₁ else m₂)
if-Silent true s t = s
if-Silent false s t = t

closed-Silent : (c : ℕ) (m : Manager) → Silent m (hard_close c (unregister_conn c m).0)
closed-Silent c m = Quiet-Silent (Quiet-trans (unregister_conn-Quiet c m) (hard_close-Quiet c _))

calls-release : (c : ℕ) (m : Manager) → (release c m).calls ≡ m.calls
unfolding release release_handshake
calls-release c m = ground arith

push_event-Silent : (p : ℕ) (ev : PairEvent) (m : Manager) → Silent m (push_event p ev m)
unfolding push_event
push_event-Silent p ev m = record { unheard = ground arith }

teardown-Silent : (c : ℕ) (m : Manager) → Silent m (teardown c m)
unfolding teardown signals
teardown-Silent c m =
    if-Silent ((unregister_conn c m).1 && not (str_eq (m.sockets c).remote_id ""))
      (record { unheard = (closed-Silent c m).unheard })
      (record { unheard = (closed-Silent c m).unheard })

-- The loop ends.
pub leave-Silent : (c : ℕ) (m : Manager) → Silent m (teardown c (release c m))
leave-Silent c m =
    Silent-trans (record { unheard = ap signals (calls-release c m) })
      (teardown-Silent c (release c m))

pub bad_frame-Silent : (c : ℕ) (reason : String) (m : Manager) → Silent m (bad_frame c reason m).0
bad_frame-Silent c reason m = Quiet-Silent (close_with-Quiet c peer_close_bad_frame reason m)

-- The result of a handler of frames, after which nothing more is handed over.
pub record SilentResult (m : Manager) (r : Manager × Bool) : Type 0 where
  pub silent : Silent m r.0

if-SilentResult :
    {m : Manager} {r₁ r₂ : Manager × Bool} (b : Bool)
    → SilentResult m r₁
    → SilentResult m r₂
    → SilentResult m (if b then r₁ else r₂)
if-SilentResult true s t = s
if-SilentResult false s t = t

abbrev pub refused : (c : ℕ) (reason : String) (m : Manager) → SilentResult m (bad_frame c reason m)
refused c reason m = record { silent = bad_frame-Silent c reason m }

abbrev pushed : (p : ℕ) (ev : PairEvent) (m : Manager) → SilentResult m (push_event p ev m, true)
pushed p ev m = record { silent = push_event-Silent p ev m }

accept_pair_accept-Silent :
    (c p : ℕ) (o : Option PeerPairAccept) (m : Manager)
    → SilentResult m (accept_pair_accept c p o m)
unfolding accept_pair_accept
accept_pair_accept-Silent c p none m = refused c _ m
accept_pair_accept-Silent c p (some msg) m =
    if-SilentResult (is_some (validate_peer_pair_accept msg)) (refused c _ m) (
      if-SilentResult (not (str_eq msg.device_id (m.sockets c).remote_id)) (refused c _ m)
        (pushed p ev_accept m))

accept_paired-Silent :
    (c p : ℕ) (o : Option PeerPaired) (m : Manager) → SilentResult m (accept_paired c p o m)
unfolding accept_paired
accept_paired-Silent c p none m = refused c _ m
accept_paired-Silent c p (some msg) m =
    if-SilentResult (is_some (validate_peer_paired msg)) (refused c _ m)
      (pushed p (ev_paired msg.token) m)

accept_pair_reject-Silent :
    (c p : ℕ) (o : Option PeerPairReject) (m : Manager)
    → SilentResult m (accept_pair_reject c p o m)
unfolding accept_pair_reject
accept_pair_reject-Silent c p none m = refused c _ m
accept_pair_reject-Silent c p (some msg) m = pushed p _ m

pairing_switch-Silent :
    (c p : ℕ) (env : Envelope) (data' : Frame) (m : Manager)
    → SilentResult m (pairing_switch c p env data' m)
unfolding pairing_switch
pairing_switch-Silent c p env data' m =
    if-SilentResult (str_eq env.type type_peer_pair_accept) (accept_pair_accept-Silent c p _ m) (
      if-SilentResult (str_eq env.type type_peer_paired) (accept_paired-Silent c p _ m) (
        if-SilentResult (str_eq env.type type_peer_pair_reject) (accept_pair_reject-Silent c p _ m)
          (refused c _ m)))

pub handle_pairing_frame-Silent :
    (c : ℕ) (env : Envelope) (data' : Frame) (m : Manager)
    → SilentResult m (handle_pairing_frame c env data' m)
unfolding handle_pairing_frame
handle_pairing_frame-Silent c env data' m =
    elim (m.pending (m.sockets c).remote_id)
      as (λ o. SilentResult m (elim o [
        | none ↦ bad_frame c "no pairing in progress" m
        | some p ↦
            if not (is_socket (m.pairings p).conn c)
            then bad_frame c "stale pairing socket" m
            else pairing_switch c p env data' m
      ])) [
        | none ↦ refused c _ m
        | some p ↦
            if-SilentResult (not (is_socket (m.pairings p).conn c)) (refused c _ m)
              (pairing_switch-Silent c p env data' m)
      ]

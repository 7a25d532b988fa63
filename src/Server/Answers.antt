-- ===== src/Server/Answers.antt =====
-- No request goes unanswered: daemon/server/websocket.go.
use sharing.Base.{
  ℕ, String, ◌≡◌, refl, Bool, true, false, not, Option, none, some, List, str_eq, if◌then◌else◌,
  Option-cases, inl, inr,
}
use sharing.Base.Int.{ℤ}
use sharing.Protocol.Constants.{pair_reason_declined}
use sharing.Protocol.Types.{Device, SelfDevice}
use sharing.Protocol.PeerMessages.{PeerSignal}
use sharing.Protocol.ControlMessages.{
  ServerMessage, devices, pong, error, new_ready, PairStart, PairConfirm, PairForget,
  validate_pair_start, validate_pair_confirm, validate_pair_forget,
}
use sharing.Trust.Disk.{Faults}
use sharing.Trust.Store.{TrustStore, TrustError, remove, is_paired}
use sharing.Peer.State.{PairDecision, PeerError}
use sharing.Server.Snapshot.{device, known_device}
use sharing.Server.Hub.{PeerRouter, Server, reply, broadcast_devices}
use sharing.Server.Reports.{take_over}
use sharing.Server.Control.{
  refuse, settle_peer, start_known, undialable, handle_pair_start, handle_pair_confirm,
  settle_forget, forget_degraded, handle_pair_forget, relay_signal,
}

-- What the peer layer is asked to do, but for forgetting a device.
pub data RouterCall : Type 0 where
  call_start : Device → RouterCall
  call_confirm : PairDecision → RouterCall
  call_signal : String → PeerSignal → RouterCall

-- A message that answers the request with the id; a list has no id.
pub data IsReply (req_id : String) : ServerMessage → Type 0 where
  reply_ready : (self : SelfDevice) → IsReply req_id (new_ready req_id self)
  reply_pong : (t : ℤ) → IsReply req_id (pong req_id t)
  reply_error : (code text : String) → IsReply req_id (error req_id code text)
  reply_devices : (ds : List Device) → IsReply req_id (devices ds)

module _ {P : Type 0} (router : PeerRouter P) where
  unfoldable pub run_router : RouterCall → P → P × Option PeerError
  run_router (call_start d) p = router.start_pairing d p
  run_router (call_confirm d) p = router.confirm d p
  run_router (call_signal to m) p = router.send_signal to m p

  -- A device is forgotten where the peer layer does not run.
  abbrev pub removed : Faults → String → Server P → TrustStore × Bool × Option TrustError
  removed fails id s = remove fails id (router.trust_of s.peers)

  abbrev pub without : Faults → String → Server P → Server P
  without fails id s = record s { peers = router.with_trust (removed fails id s).0 s.peers }

  -- What becomes of a request of the client `c` that asks for the calls in `Asks`, and to forget the
  -- devices in `Forgets`.
  pub data Answered (fails : Faults) (now c : ℕ) (req_id : String) (Asks : RouterCall → Type 0)
      (Forgets : String → Type 0) (s s' : Server P) : Type 0 where
    replied :
        (msg : ServerMessage)
        → IsReply req_id msg
        → s'.peers ≡ s.peers
        → s'.clients ≡ reply c msg s.clients
        → Answered fails now c req_id Asks Forgets s s'
    taken_on :
        (call : RouterCall) (peers : P)
        → Asks call
        → run_router call s.peers ≡ (peers, none)
        → s' ≡ take_over router now peers s
        → Answered fails now c req_id Asks Forgets s s'
    failed :
        (call : RouterCall) (peers : P) (e : PeerError) (code text : String)
        → Asks call
        → run_router call s.peers ≡ (peers, some e)
        → s' ≡ refuse router c req_id code text (take_over router now peers s)
        → Answered fails now c req_id Asks Forgets s s'
    forgotten :
        (id : String) (peers : P)
        → Forgets id
        → router.forget id s.peers ≡ (peers, none)
        → s' ≡ broadcast_devices router now (take_over router now peers s)
        → Answered fails now c req_id Asks Forgets s s'
    not_forgotten :
        (id : String) (peers : P) (e : PeerError) (code text : String)
        → Forgets id
        → router.forget id s.peers ≡ (peers, some e)
        → s' ≡ refuse router c req_id code text (take_over router now peers s)
        → Answered fails now c req_id Asks Forgets s s'
    dropped :
        (id : String)
        → Forgets id
        → (removed fails id s).2 ≡ none
        → s' ≡ broadcast_devices router now (without fails id s)
        → Answered fails now c req_id Asks Forgets s s'
    not_dropped :
        (id : String) (e : TrustError) (code text : String)
        → Forgets id
        → (removed fails id s).2 ≡ some e
        → s' ≡ refuse router c req_id code text (without fails id s)
        → Answered fails now c req_id Asks Forgets s s'

module _ {P : Type 0} (router : PeerRouter P) (fails : Faults) (now c : ℕ) (req_id : String)
    (Asks : RouterCall → Type 0) (Forgets : String → Type 0) (s : Server P) where
  abbrev Done : Server P → Type 0
  Done s' = Answered router fails now c req_id Asks Forgets s s'

  pub if-Answered :
      (b : Bool) (s₁ s₂ : Server P)
      → (b ≡ true → Done s₁)
      → (b ≡ false → Done s₂)
      → Done (if b then s₁ else s₂)
  if-Answered true s₁ s₂ h k = h refl
  if-Answered false s₁ s₂ h k = k refl

  pub refuse-Answered : (code message : String) → Done (refuse router c req_id code message s)
  unfolding refuse
  refuse-Answered code message = replied _ (reply_error code message) refl refl

  settle_peer-Answered :
      (call : RouterCall) (fallback_code : String) (r : P × Option PeerError)
      → Asks call
      → run_router router call s.peers ≡ r
      → Done (settle_peer router now c req_id fallback_code r s)
  unfolding settle_peer
  settle_peer-Answered call fallback_code (peers, none) q e = taken_on call peers q e refl
  settle_peer-Answered call fallback_code (peers, some x) q e = failed call peers x _ _ q e refl

  start_known-Answered :
      (device_id : String) (dev : Device)
      → Asks (call_start dev)
      → Done (start_known router now c req_id device_id dev s)
  unfolding start_known run_router
  start_known-Answered device_id dev q =
      if-Answered (undialable dev) _ _ (λ h. refuse-Answered _ _)
        (λ h.
          if-Answered (is_paired (router.trust_of s.peers) device_id) _ _ (λ h. refuse-Answered _ _)
            (λ h.
              if-Answered (not s.running) _ _ (λ h. refuse-Answered _ _)
                (λ h. settle_peer-Answered (call_start dev) _ _ q refl)))

  pub handle_pair_start-Answered :
      (msg : PairStart)
      → ((dev : Device)
          → device (router.trust_of s.peers) now msg.device_id s.roster ≡ some dev
          → Asks (call_start dev))
      → Done (handle_pair_start router now c req_id msg s)
  unfolding handle_pair_start
  handle_pair_start-Answered msg q = elim (Option-cases (validate_pair_start msg)) [
    | inr (text, e) ↦ rw (e, handle_pair_start) (refuse-Answered _ _)
    | inl e ↦
        rw (e, handle_pair_start)
          (if-Answered (str_eq msg.device_id s.self.id) _ _ (λ h. refuse-Answered _ _)
            (λ h.
              elim (Option-cases (device (router.trust_of s.peers) now msg.device_id s.roster)) [
                | inl o ↦ rw o (refuse-Answered _ _)
                | inr (dev, o) ↦ rw o (start_known-Answered msg.device_id dev (q dev o))
              ]))
  ]

  pub handle_pair_confirm-Answered :
      (msg : PairConfirm)
      → Asks (
          call_confirm (record {
            device_id = msg.device_id;
            accept = msg.accept;
            reason = if msg.accept then "" else pair_reason_declined;
          }))
      → Done (handle_pair_confirm router now c req_id msg s)
  unfolding handle_pair_confirm run_router
  handle_pair_confirm-Answered msg q = elim (Option-cases (validate_pair_confirm msg)) [
    | inr (text, e) ↦ rw (e, handle_pair_confirm) (refuse-Answered _ _)
    | inl e ↦
        rw (e, handle_pair_confirm)
          (if-Answered (not s.running) _ _ (λ h. refuse-Answered _ _)
            (λ h. settle_peer-Answered (call_confirm _) _ _ q refl))
  ]

  settle_forget-Answered :
      (id : String) (r : P × Option PeerError)
      → Forgets id
      → router.forget id s.peers ≡ r
      → Done (settle_forget router now c req_id r s)
  unfolding settle_forget settle_peer
  settle_forget-Answered id (peers, none) q e = forgotten id peers q e refl
  settle_forget-Answered id (peers, some x) q e = not_forgotten id peers x _ _ q e refl

  forget_degraded-Answered :
      (id : String) → Forgets id → Done (forget_degraded router fails now c req_id id s)
  unfolding forget_degraded
  forget_degraded-Answered id q =
      elim (Option-cases (remove fails id (router.trust_of s.peers)).2) [
        | inl e ↦ rw (e, forget_degraded) (dropped id q e refl)
        | inr (x, e) ↦ rw (e, forget_degraded) (not_dropped id x _ _ q e refl)
      ]

  pub handle_pair_forget-Answered :
      (msg : PairForget)
      → Forgets msg.device_id
      → Done (handle_pair_forget router fails now c req_id msg s)
  unfolding handle_pair_forget
  handle_pair_forget-Answered msg q = elim (Option-cases (validate_pair_forget msg)) [
    | inr (text, e) ↦ rw (e, handle_pair_forget) (refuse-Answered _ _)
    | inl e ↦
        rw (e, handle_pair_forget)
          (if-Answered s.running _ _
            (λ h. settle_forget-Answered msg.device_id (router.forget msg.device_id s.peers) q refl)
            (λ h. forget_degraded-Answered msg.device_id q))
  ]

  pub relay_signal-Answered :
      (to : String) (frame : PeerSignal)
      → Asks (call_signal to frame)
      → Done (relay_signal router now c req_id to frame s)
  unfolding relay_signal run_router
  relay_signal-Answered to frame q =
      if-Answered (str_eq to s.self.id) _ _ (λ h. refuse-Answered _ _)
        (λ h.
          if-Answered (not (known_device (router.trust_of s.peers) to s.roster)) _ _
            (λ h. refuse-Answered _ _)
            (λ h.
              if-Answered (not s.running) _ _ (λ h. refuse-Answered _ _)
                (λ h. settle_peer-Answered (call_signal to frame) _ _ q refl)))

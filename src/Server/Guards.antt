-- ===== src/Server/Guards.antt =====
-- What reaches the peer layer: the guards of `handlePairStart` of daemon/server/websocket.go.
use sharing.Base.{
  ℕ, String, ◌≡◌, refl, true, false, not, Option, none, some, str_eq, Bool-cases, Option-cases, inl,
  inr, ◌⊎◌, arith, List, [], ◌∷◌, ◌∙◌,
}
use sharing.Protocol.Types.{Device}
use sharing.Protocol.ControlMessages.{PairStart, validate_pair_start}
use sharing.Trust.Store.{is_paired}
use sharing.Peer.State.{
  PeerError, HandlerCall, on_pair_code, on_pair_result, on_peer_state, on_signal,
}
use sharing.Server.Snapshot.{device}
use sharing.Server.Hub.{PeerRouter, Server, broadcast_devices}
use sharing.Server.Reports.{signal_push, handle_call, handle_calls, take_over}
use sharing.Server.Control.{refuse, settle_peer, undialable, start_known, handle_pair_start}

module _ {P : Type 0} (router : PeerRouter P) where
  -- A pairing that is started is one with another device, which is in the roster, online and with an
  -- address, and is not paired yet.
  pub record IsStarted (now : ℕ) (device_id : String) (s s' : Server P) : Type 0 where
    pub dev : Device
    pub found : device (router.trust_of s.peers) now device_id s.roster ≡ some dev
    pub foreign : str_eq device_id s.self.id ≡ false
    pub dialable : undialable dev ≡ false
    pub unpaired : is_paired (router.trust_of s.peers) device_id ≡ false
    pub running : s.running ≡ true
    pub started : s'.peers ≡ (router.start_pairing dev s.peers).0

  -- What the peer layer reports does not reach back into it.
  peers-handle_call :
      (now : ℕ) (x : HandlerCall) (s : Server P) → (handle_call router now x s).peers ≡ s.peers
  unfolding handle_call broadcast_devices
  peers-handle_call now (on_pair_code id name code direction) s = refl
  peers-handle_call now (on_pair_result id paired reason) s = refl
  peers-handle_call now (on_peer_state id state message) s = refl
  peers-handle_call now (on_signal m) s = elim (Option-cases (signal_push router m)) [
    | inl e ↦ rw (e, handle_call) refl
    | inr (p, e) ↦ rw (e, handle_call) refl
  ]

  pub peers-handle_calls :
      (now : ℕ) (xs : List HandlerCall) (s : Server P)
      → (handle_calls router now xs s).peers ≡ s.peers
  unfolding handle_calls
  peers-handle_calls now [] s = refl
  peers-handle_calls now (x ∷ xs) s = peers-handle_calls now xs _ ∙ peers-handle_call now x s

  peers-settle_peer :
      (now c : ℕ) (req_id fallback_code : String) (r : P × Option PeerError) (s : Server P)
      → (settle_peer router now c req_id fallback_code r s).peers ≡ r.0
  unfolding settle_peer refuse take_over
  peers-settle_peer now c req_id fallback_code (peers, none) s =
      peers-handle_calls now (router.reported s.peers peers) (record s { peers = peers })
  peers-settle_peer now c req_id fallback_code (peers, some e) s =
      peers-handle_calls now (router.reported s.peers peers) (record s { peers = peers })

  start_known-guarded :
      (now c : ℕ) (req_id device_id : String) (dev : Device) (s : Server P)
      → device (router.trust_of s.peers) now device_id s.roster ≡ some dev
      → str_eq device_id s.self.id ≡ false
      → ((start_known router now c req_id device_id dev s).peers ≡ s.peers)
        ⊎ IsStarted now device_id s (start_known router now c req_id device_id dev s)
  unfolding start_known refuse
  start_known-guarded now c req_id device_id dev s found foreign =
      elim (Bool-cases (undialable dev)) [
        | inl d ↦ rw d (inl refl)
        | inr d ↦ elim (Bool-cases (is_paired (router.trust_of s.peers) device_id)) [
          | inl p ↦ rw (d, p) (inl refl)
          | inr p ↦ elim (Bool-cases (not s.running)) [
            | inl r ↦ rw (d, p, r) (inl refl)
            | inr r ↦
                rw (d, p, r)
                  (inr (record {
                    dev = dev;
                    found = found;
                    foreign = foreign;
                    dialable = d;
                    unpaired = p;
                    running = ground arith;
                    started = peers-settle_peer now c req_id _ (router.start_pairing dev s.peers) s;
                  }))
          ]
        ]
      ]

  -- A request to pair reaches the peer layer only for a device other than this one, which is in the
  -- roster, was seen recently, has an address and a port, and is not paired; otherwise the peer layer
  -- is left as it is.
  pub handle_pair_start-guarded :
      (now c : ℕ) (req_id : String) (msg : PairStart) (s : Server P)
      → ((handle_pair_start router now c req_id msg s).peers ≡ s.peers)
        ⊎ IsStarted now msg.device_id s (handle_pair_start router now c req_id msg s)
  unfolding handle_pair_start refuse
  handle_pair_start-guarded now c req_id msg s = elim (Option-cases (validate_pair_start msg)) [
    | inr (text, e) ↦ rw (e, handle_pair_start) (inl refl)
    | inl e ↦ elim (Bool-cases (str_eq msg.device_id s.self.id)) [
      | inl i ↦ rw (e, handle_pair_start) (rw i (inl refl))
      | inr i ↦ elim (Option-cases (device (router.trust_of s.peers) now msg.device_id s.roster)) [
        | inl o ↦ rw (e, handle_pair_start) (rw (i, o) (inl refl))
        | inr (dev, o) ↦
            rw (e, handle_pair_start)
              (rw (i, o) (start_known-guarded now c req_id msg.device_id dev s o i))
      ]
    ]
  ]

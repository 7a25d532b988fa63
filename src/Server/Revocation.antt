-- ===== src/Server/Revocation.antt =====
-- Forgetting a device, from the request of the extension to the list that it gets:
-- daemon/server/websocket.go on top of daemon/peer and of daemon/config/trust.go.
use sharing.Base.{
  ℕ, String, ◌≡◌, refl, Bool, true, false, Option, none, some, str_eq, eq_refl, if◌then◌else◌, ◌∙◌,
  ap, Option-cases, inl, inr, sym, List, [], ◌∷◌, length, take, ◌-◌, arith,
}
use sharing.Base.Dict.{get, is_some, get-delete}
use mathlib.Core.List.{reverse}
use sharing.Base.Sorting.{find}
use sharing.Protocol.Constants.{peer_state_offline}
use sharing.Protocol.Types.{Device}
use sharing.Protocol.ControlMessages.{PairForget, devices, peer_state, validate_pair_forget}
use sharing.Trust.Disk.{Faults, TrustedPeer}
use sharing.Trust.Store.{TrustStore, is_paired, remove, verify_token}
use sharing.Trust.Verify.{verify_token-remove}
use sharing.Trust.Invariant.{IsValid, peers-remove, remove-IsValid}
use sharing.Peer.State.{Manager, Env, PeerError, HandlerCall, on_peer_state}
use sharing.Peer.Frames.{Read}
use sharing.Peer.Dialer.{start_pairing}
use sharing.Peer.Pending.{confirm}
use sharing.Peer.Relay.{forget, send_signal}
use sharing.Peer.Forgetting.{forget-trust}
use sharing.Peer.Reporting.{forget-calls, forget-removed}
use sharing.Server.Snapshot
use sharing.Server.Hub.{PeerRouter, Server, Client, broadcast, broadcast_devices, server_devices}
use sharing.Server.Roster.{stop_device_timer, Roster}
use sharing.Server.Reports.{take_over, handle_calls, handle_call}
use sharing.Server.Control.{settle_forget, handle_pair_forget}
use sharing.Server.Invariant.{IsRoster}
use sharing.Server.Listing.{id_of}
use sharing.Server.Shown.{seen_as, find-devices}

-- The handler's calls from one state of the manager to a later one, in order.
unfoldable pub reported_calls : Manager → Manager → List HandlerCall
reported_calls m m' = reverse (take (length m'.calls - length m.calls) m'.calls)

-- `*Manager` as the `PeerRouter` of the server: the clock and the rest of the environment, the text of
-- an error, and whether a dial reaches the peer and what is read from it.
abbrev pub manager_router : Env → (PeerError → String) → Bool → Read → PeerRouter Manager
manager_router env text reached read = record {
  start_pairing = λ dev m. let (m', e, p) = start_pairing false dev m in (m', e);
  confirm = confirm;
  forget = forget env;
  send_signal = λ id msg m. send_signal env id msg reached read m;
  error_text = text;
  trust_of = λ m. m.trust;
  with_trust = λ trust m. record m { trust = trust };
  reported = reported_calls;
}

is_paired-remove :
    (fails : Faults) (id : String) (trust : TrustStore)
    → is_paired (remove fails id trust).0 id ≡ false
unfolding is_paired
is_paired-remove fails id trust = rw peers-remove (elim (Option-cases (get trust.peers id)) [
  | inl e ↦ rw e (rw e)
  | inr (p, e) ↦ rw e (rw (get-delete trust.peers id id, eq_refl id))
])

abbrev paired_of : Option Device → Bool
paired_of none = false
paired_of (some d) = d.paired

-- What is shown of a device that the trust store does not have.
seen_as-unpaired :
    (trust : TrustStore) (now : ℕ) (k : String) (o : Option Device) (p : Option TrustedPeer)
    → is_paired trust k ≡ false
    → is_some p ≡ false
    → paired_of (seen_as trust now k o p) ≡ false
seen_as-unpaired trust now k none none h q = refl
seen_as-unpaired trust now k none (some p) h q = cc q
seen_as-unpaired trust now k (some c) p h q = h

-- The list that is shown, where the trust store does not have the device.
devices-unpaired :
    (self_id : String) (trust : TrustStore) (now : ℕ) (r : Roster) (k : String) (d : Device)
    → IsRoster self_id r.dev_by_id
    → IsValid trust.peers
    → is_paired trust k ≡ false
    → find id_of k (Snapshot.devices trust now r) ≡ some d
    → d.paired ≡ false
unfolding is_paired
devices-unpaired self_id trust now r k d v w h e =
    ap paired_of (sym e ∙ find-devices self_id trust now r v w k)
    ∙ seen_as-unpaired trust now k (get r.dev_by_id k) (get trust.peers k) h h

if_true : {A : Type 0} (b : Bool) (x y : A) → b ≡ true → (if b then x else y) ≡ x
if_true true x y h = refl
if_true false x y h = cc h

module _ {P : Type 0} (router : PeerRouter P) (now c : ℕ) (req_id : String) where
  settle_forget-success :
      (r : P × Option PeerError) (s : Server P)
      → r.1 ≡ none
      → settle_forget router now c req_id r s
        ≡ broadcast_devices router now (take_over router now r.0 s)
  unfolding settle_forget
  settle_forget-success (p, none) s h = refl
  settle_forget-success (p, some e) s h = cc h

  handle_pair_forget-success :
      (fails : Faults) (msg : PairForget) (s : Server P)
      → str_eq msg.device_id "" ≡ false
      → s.running ≡ true
      → (router.forget msg.device_id s.peers).1 ≡ none
      → handle_pair_forget router fails now c req_id msg s
        ≡ broadcast_devices router now
            (take_over router now (router.forget msg.device_id s.peers).0 s)
  unfolding handle_pair_forget validate_pair_forget
  handle_pair_forget-success fails msg s named runs ok =
      let r = router.forget msg.device_id s.peers in
      rw (named, handle_pair_forget)
        (if_true s.running (settle_forget router now c req_id r s) _ runs
          ∙ settle_forget-success r s ok)

-- The removal that does not fail removes what was there.
remove-found :
    (fails : Faults) (id : String) (trust : TrustStore)
    → (remove fails id trust).2 ≡ none
    → (remove fails id trust).1 ≡ is_paired trust id
unfolding remove is_paired
remove-found fails id trust h = ground arith

newest :
    (x : HandlerCall) (xs : List HandlerCall) → take (length (x ∷ xs) - length xs) (x ∷ xs) ≡ x ∷ []
newest x xs = let n : length (x ∷ xs) - length xs ≡ 1 = omega arith in ap (λ k. take k (x ∷ xs)) n

nothing_new : (xs : List HandlerCall) → take (length xs - length xs) xs ≡ []
nothing_new xs = let n : length xs - length xs ≡ 0 = omega arith in ap (λ k. take k xs) n

-- The handler's call, if there was one.
reported_calls-if :
    (b : Bool) (x : HandlerCall) (m m' : Manager)
    → m'.calls ≡ (if b then x ∷ m.calls else m.calls)
    → reported_calls m m' ≡ (if b then x ∷ [] else [])
unfolding reported_calls
reported_calls-if true x m m' e = rw e (ap reverse (newest x m.calls))
reported_calls-if false x m m' e = rw e (ap reverse (nothing_new m.calls))

-- What all clients get from the peer layer before the list: that a device which was paired is offline.
abbrev pub told : String → Server Manager → List Client
told id s =
    if is_paired s.peers.trust id
    then broadcast (peer_state id peer_state_offline "unpaired") s.clients
    else s.clients

take_over-if :
    (router : PeerRouter Manager) (now : ℕ) (b : Bool) (id : String) (peers : Manager)
    (s : Server Manager)
    → router.reported s.peers peers
      ≡ (if b then on_peer_state id peer_state_offline "unpaired" ∷ [] else [])
    → take_over router now peers s ≡ record s {
      peers = peers;
      clients =
          if b
          then broadcast (peer_state id peer_state_offline "unpaired") s.clients
          else s.clients;
    }
unfolding take_over handle_calls handle_call
take_over-if router now true id peers s e = rw e refl
take_over-if router now false id peers s e = rw e refl

-- What a client is shown, and the peer plane accepts, when a device has been forgotten.
pub record IsRevoked (device_id : String) (s s' : Server Manager) : Type 0 where
  pub shown : List Device
  pub listed : s'.clients ≡ broadcast (devices shown) (told device_id s)
  pub unpaired : (d : Device) → find id_of device_id shown ≡ some d → d.paired ≡ false
  pub refused : (t : String) → verify_token s'.peers.trust device_id t ≡ false

-- When a request to forget a device, which the trust store can write, has been handled, every client
-- has been told that the device is offline, if it was paired, and then sent the list, in which the
-- device is not marked as paired, if it is there at all; and no token is accepted for it.
pub handle_pair_forget-IsRevoked :
    (env : Env) (text : PeerError → String) (reached : Bool) (read : Read) (now c : ℕ)
    (req_id : String) (msg : PairForget) (s : Server Manager)
    → str_eq msg.device_id "" ≡ false
    → s.running ≡ true
    → (forget env msg.device_id s.peers).1 ≡ none
    → IsRoster s.self.id s.roster.dev_by_id
    → IsValid s.peers.trust.peers
    → IsRevoked msg.device_id s
        (handle_pair_forget (manager_router env text reached read) env.faults now c req_id msg s)
unfolding broadcast_devices server_devices stop_device_timer
handle_pair_forget-IsRevoked env text reached read now c req_id msg s named runs ok v w =
    let router = manager_router env text reached read in
    let id = msg.device_id in
    let trust' = (forget env id s.peers).0.trust in
    let same = forget-trust env id s.peers named in
    let valid : IsValid trust'.peers = rw same (remove-IsValid env.faults s.peers.trust w id) in
    let unpaired : is_paired trust' id ≡ false =
      rw same (is_paired-remove env.faults id s.peers.trust) in
    let found = remove-found env.faults id s.peers.trust (forget-removed env id s.peers named ok) in
    let call = on_peer_state id peer_state_offline "unpaired" in
    let calls =
      forget-calls env id s.peers named
      ∙ ap (λ b. if b then call ∷ s.peers.calls else s.peers.calls) found in
    let b = is_paired s.peers.trust id in
    let over =
      take_over-if router now b id (forget env id s.peers).0 s
        (reported_calls-if b call s.peers (forget env id s.peers).0 calls) in
    rw (handle_pair_forget-success router now c req_id env.faults msg s named runs ok, over)
      (record {
        shown = Snapshot.devices trust' now (stop_device_timer s.roster);
        listed = refl;
        unpaired = λ d e.
            devices-unpaired s.self.id trust' now (stop_device_timer s.roster) id d v valid unpaired
              e;
        refused = λ t.
            ap (λ q. verify_token q id t) same
            ∙ verify_token-remove env.faults id s.peers.trust id t
            ∙ rw (eq_refl id);
      })

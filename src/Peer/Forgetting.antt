-- ===== src/Peer/Forgetting.antt =====
-- `Forget` of daemon/peer/peer.go: what is left of a device that was unpaired.
use sharing.Protocol.Constants.{peer_state_offline}
use sharing.Base.{
  sym, ℕ, String, ◌≡◌, refl, ◌∙◌, ap, sym, true, false, Option, none, some, arith, str_eq, eq_refl,
  if◌then◌else◌,
}
use sharing.Trust.Store.{verify_token, remove}
use sharing.Trust.Verify.{verify_token-remove}
use sharing.Peer.State.{Manager, Env, assign, emit, on_peer_state}
use sharing.Peer.Conn.{close_with}
use sharing.Peer.Registry.{live_conn, unregister_conn}
use sharing.Peer.Pending.{push_event}
use sharing.Peer.Relay.{cancel_pairing, drop_live, forget, drop_conn}
use sharing.Peer.Quiet.{
  close_with-Quiet, live_conn-Quiet, unregister_conn-Quiet, Quiet, Quiet-refl, Quiet-trans,
}

drop_conn-Quiet : (o : Option ℕ) (m : Manager) → Quiet m (drop_conn o m)
unfolding drop_conn
drop_conn-Quiet none m = Quiet-refl m
drop_conn-Quiet (some c) m = Quiet-trans (unregister_conn-Quiet c m) (close_with-Quiet c _ _ _)

pub drop_live-Quiet : (id : String) (m : Manager) → Quiet m (drop_live id m)
unfolding drop_live
drop_live-Quiet id m =
    Quiet-trans (live_conn-Quiet id m) (drop_conn-Quiet (live_conn id m).1 (live_conn id m).0)

pub cancel_pairing-trust : (id : String) (m : Manager) → (cancel_pairing id m).trust ≡ m.trust
unfolding cancel_pairing push_event
cancel_pairing-trust id m = ground arith

close_with-conns :
    (c status : ℕ) (reason : String) (m : Manager) → (close_with c status reason m).conns ≡ m.conns
unfolding close_with
close_with-conns c status reason m = ground arith

-- The socket that is live is registered under the id of its remote device.
unregister_conn-conns :
    (id : String) (c : ℕ) (m : Manager)
    → m.conns id ≡ some c
    → (m.sockets c).remote_id ≡ id
    → str_eq id "" ≡ false
    → (unregister_conn c m).0.conns id ≡ none
unfolding unregister_conn
unregister_conn-conns id c m e owner h = ground (arith, eq_refl id)

drop_conn-conns :
    (id : String) (c : ℕ) (m : Manager)
    → m.conns id ≡ some c
    → (m.sockets c).remote_id ≡ id
    → str_eq id "" ≡ false
    → (drop_conn (some c) m).conns id ≡ none
unfolding drop_conn
drop_conn-conns id c m e owner h =
    ap (λ t. t id) (close_with-conns c _ _ (unregister_conn c m).0)
    ∙ unregister_conn-conns id c m e owner h

-- What `liveConn` finds.
data Found (id : String) (m : Manager) (r : Manager × Option ℕ) : Type 0 where
  nobody : r.1 ≡ none → r.0.conns id ≡ none → Found id m r
  live : (c : ℕ) → r ≡ (m, some c) → m.conns id ≡ some c → Found id m r

live_conn-Found : (id : String) (m : Manager) → Found id m (live_conn id m)
unfolding live_conn
live_conn-Found id m = go (m.conns id) refl
  where
    go :
        (o : Option ℕ)
        → m.conns id ≡ o
        → Found id m (elim o [
          | none ↦ (m, none)
          | some c ↦
              if (m.sockets c).cancelled
              then (record m { conns = assign m.conns id none }, none)
              else (m, some c)
        ])
    go none e = nobody refl e
    go (some c) e =
        elim (m.sockets c).cancelled
          as (λ b.
            Found id m
              (if b then (record m { conns = assign m.conns id none }, none) else (m, some c))) [
                | true ↦ nobody refl (ground (arith, eq_refl id))
                | false ↦ live c refl e
              ]

-- No socket is the live one of the device any more.
drop_live-conns :
    (id : String) (m : Manager)
    → ((c : ℕ) → m.conns id ≡ some c → (m.sockets c).remote_id ≡ id)
    → str_eq id "" ≡ false
    → (drop_live id m).conns id ≡ none
unfolding drop_live drop_conn
drop_live-conns id m owner h = elim (live_conn-Found id m) [
  | nobody e f ↦ rw e f
  | live c e f ↦ rw e (drop_conn-conns id c m f (owner c f) h)
]

cancel_pairing-sockets :
    (id : String) (m : Manager)
    → ((cancel_pairing id m).sockets ≡ m.sockets) × ((cancel_pairing id m).conns ≡ m.conns)
unfolding cancel_pairing push_event
cancel_pairing-sockets id m = (ground arith, ground arith)

cancelled-owner :
    (id : String) (m : Manager)
    → ((c : ℕ) → m.conns id ≡ some c → (m.sockets c).remote_id ≡ id)
    → (c : ℕ) → (cancel_pairing id m).conns id ≡ some c
    → ((cancel_pairing id m).sockets c).remote_id ≡ id
cancelled-owner id m owner c e =
    let kept = cancel_pairing-sockets id m in
    ap (λ t. (t c).remote_id) kept.0 ∙ owner c (ap (λ t. t id) (sym kept.1) ∙ e)

-- The manager once the trust store has dropped the device.
abbrev pub dropped : Env → String → Manager → Manager
dropped env id m =
    let m₁ = cancel_pairing id m in
    drop_live id (record m₁ { trust = (remove env.faults id m₁.trust).0 })

forget-dropped :
    (env : Env) (id : String) (m : Manager)
    → str_eq id "" ≡ false
    → ((forget env id m).0.trust ≡ (dropped env id m).trust)
      × ((forget env id m).0.conns ≡ (dropped env id m).conns)
unfolding forget
forget-dropped env id m e =
    let removed = (remove env.faults id (cancel_pairing id m).trust).1 in
    rw e
      (elim removed
        as (λ b.
          ((if b
              then emit (on_peer_state id peer_state_offline "unpaired") (dropped env id m)
              else dropped env id m).trust
            ≡ (dropped env id m).trust)
          × ((if b
                then emit (on_peer_state id peer_state_offline "unpaired") (dropped env id m)
                else dropped env id m).conns
              ≡ (dropped env id m).conns)) [ true ↦ (refl, refl) | false ↦ (refl, refl) ])

dropped-trust :
    (env : Env) (id : String) (m : Manager)
    → (dropped env id m).trust ≡ (remove env.faults id m.trust).0
dropped-trust env id m =
    (drop_live-Quiet id _).trust ∙ ap (λ t. (remove env.faults id t).0) (cancel_pairing-trust id m)

-- A pairing in flight is left with what `cancel_pairing` made of it.
pub forget-pairings :
    (env : Env) (id : String) (m : Manager)
    → str_eq id "" ≡ false
    → (forget env id m).0.pairings ≡ (cancel_pairing id m).pairings
unfolding forget
forget-pairings env id m e =
    let q = drop_live-Quiet id (record (cancel_pairing id m) {
      trust = (remove env.faults id (cancel_pairing id m).trust).0;
    }) in
    rw e
      (elim (remove env.faults id (cancel_pairing id m).trust).1
        as (λ b.
          (if b
            then emit (on_peer_state id peer_state_offline "unpaired") (dropped env id m)
            else dropped env id m).pairings
          ≡ (cancel_pairing id m).pairings) [ true ↦ q.pairings | false ↦ q.pairings ])

-- The trust store after `Forget` is the one after `Remove`.
pub forget-trust :
    (env : Env) (id : String) (m : Manager)
    → str_eq id "" ≡ false
    → (forget env id m).0.trust ≡ (remove env.faults id m.trust).0
forget-trust env id m e = (forget-dropped env id m e).0 ∙ dropped-trust env id m

-- After `Forget`, no token is accepted for the device, whether the write of the trust store failed or
-- not, and no socket is its live one; for every other device the same tokens are accepted as before.
-- The live socket is supposed to be registered under the id of its remote device.
pub forget-forgets :
    (env : Env) (id : String) (m : Manager)
    → ((c : ℕ) → m.conns id ≡ some c → (m.sockets c).remote_id ≡ id)
    → str_eq id "" ≡ false
    → ((j t : String)
        → verify_token (forget env id m).0.trust j t
          ≡ (if str_eq id j then false else verify_token m.trust j t))
      × ((forget env id m).0.conns id ≡ none)
forget-forgets env id m owner e = (
  λ j t.
      ap (λ s. verify_token s j t) (forget-trust env id m e)
      ∙ verify_token-remove env.faults id m.trust j t,
  ap (λ t. t id) (forget-dropped env id m e).1
      ∙ drop_live-conns id _ (cancelled-owner id m owner) e,
)

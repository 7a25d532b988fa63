-- ===== src/Peer/Reporting.antt =====
-- What `Forget` of daemon/peer/peer.go reports to the handler.
use sharing.Protocol.Constants.{peer_state_offline}
use sharing.Base.{
  sym, String, ◌≡◌, refl, ◌∙◌, ap, sym, true, false, Option, none, some, ◌∷◌, arith, str_eq,
  if◌then◌else◌,
}
use sharing.Trust.Store.{TrustError, remove}
use sharing.Peer.State.{Manager, Env, emit, on_peer_state, other}
use sharing.Peer.Pending.{push_event}
use sharing.Peer.Relay.{cancel_pairing, forget}
use sharing.Peer.Forgetting.{drop_live-Quiet, cancel_pairing-trust, dropped}

no_failure :
    (o : Option TrustError)
    → (elim o [ none ↦ none | some e ↦ some (other "trust store") ]) ≡ none
    → o ≡ none
no_failure none h = refl
no_failure (some e) h = cc h

cancel_pairing-calls : (id : String) (m : Manager) → (cancel_pairing id m).calls ≡ m.calls
unfolding cancel_pairing push_event
cancel_pairing-calls id m = ground arith

dropped-calls : (env : Env) (id : String) (m : Manager) → (dropped env id m).calls ≡ m.calls
dropped-calls env id m = (drop_live-Quiet id _).calls ∙ cancel_pairing-calls id m

-- What `Forget` reports: that a device which was removed from the trust store is offline.
pub forget-calls :
    (env : Env) (id : String) (m : Manager)
    → str_eq id "" ≡ false
    → (forget env id m).0.calls ≡ (
        if (remove env.faults id m.trust).1
        then on_peer_state id peer_state_offline "unpaired" ∷ m.calls
        else m.calls)
unfolding forget
forget-calls env id m e =
    let call = on_peer_state id peer_state_offline "unpaired" in
    rw e
      (elim (remove env.faults id (cancel_pairing id m).trust).1
        as (λ b.
          (if b then emit call (dropped env id m) else dropped env id m).calls
          ≡ (if b then call ∷ m.calls else m.calls)) [
            | true ↦ ap (λ l. call ∷ l) (dropped-calls env id m)
            | false ↦ dropped-calls env id m
          ])
    ∙ ap (λ t. if (remove env.faults id t).1 then call ∷ m.calls else m.calls)
        (cancel_pairing-trust id m)

-- The write of the trust store did not fail.
pub forget-removed :
    (env : Env) (id : String) (m : Manager)
    → str_eq id "" ≡ false
    → (forget env id m).1 ≡ none
    → (remove env.faults id m.trust).2 ≡ none
unfolding forget
forget-removed env id m e h =
    ap (λ t. (remove env.faults id t).2) (sym (cancel_pairing-trust id m))
    ∙ no_failure (remove env.faults id (cancel_pairing id m).trust).2 (rw (e, forget) at h)

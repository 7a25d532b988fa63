-- ===== src/Peer/Outcome.antt =====
-- How a pairing of daemon/peer/pairing.go ends: `failPairing` and `completePairing`, followed by the
-- return of the driver.
use sharing.Base.{
  sym, ℕ, String, ◌≡◌, refl, ◌∙◌, ap, Bool, true, false, not, Option, none, some, arith, List, [],
  ◌∷◌, if◌then◌else◌,
}
use sharing.Base.Dict.{is_some}
use sharing.Protocol.Constants.{pair_reason_internal, peer_state_paired}
use sharing.Protocol.Hex.{valid_token_format}
use sharing.Trust.Store.{TrustStore, TrustError, add}
use sharing.Peer.State.{
  Manager, HandlerCall, on_signal, on_pair_code, on_pair_result, on_peer_state, Env, finished, emit,
}
use sharing.Peer.Pending.{end_pairing}
use sharing.Peer.Driver.{
  or_declined, failure_state, fail_pairing, promote, complete_pairing, finish,
}
use sharing.Peer.Quiet.{reject_socket-Quiet, promote-Quiet}

-- The calls of `OnPairResult`, newest first.
pub results : List HandlerCall → List (String × Bool × String)
results [] = []
results (on_pair_result id ok reason ∷ calls) = (id, ok, reason) ∷ results calls
results (on_signal _ ∷ calls) = results calls
results (on_pair_code _ _ _ _ ∷ calls) = results calls
results (on_peer_state _ _ _ ∷ calls) = results calls

results-failure_state :
    (id reason : String) (calls : List HandlerCall)
    → results (failure_state id reason ∷ calls) ≡ results calls
unfolding failure_state results
results-failure_state id reason calls = ground arith

-- `failPairing` reports one failure and leaves the trust store and the pairings alone.
pub fail_pairing-results :
    (p : ℕ) (reason : String) (notify : Bool) (m : Manager)
    → results (fail_pairing p reason notify m).calls
      ≡ ((m.pairings p).device_id, false, or_declined reason) ∷ results m.calls
unfolding fail_pairing results
fail_pairing-results p reason notify m =
    let q = reject_socket-Quiet (m.pairings p).conn (or_declined reason) notify m in
    results-failure_state (m.pairings p).device_id (or_declined reason) _
    ∙ ap (λ calls. ((m.pairings p).device_id, false, or_declined reason) ∷ results calls) q.calls

pub fail_pairing-trust :
    (p : ℕ) (reason : String) (notify : Bool) (m : Manager)
    → (fail_pairing p reason notify m).trust ≡ m.trust
unfolding fail_pairing
fail_pairing-trust p reason notify m =
    (reject_socket-Quiet (m.pairings p).conn (or_declined reason) notify m).trust

pub finish-calls : (p : ℕ) (m : Manager) → (finish p m).calls ≡ m.calls
unfolding finish end_pairing
finish-calls p m = ground arith

pub finish-trust : (p : ℕ) (m : Manager) → (finish p m).trust ≡ m.trust
unfolding finish end_pairing
finish-trust p m = ground arith

pub finish-phase : (p : ℕ) (m : Manager) → ((finish p m).pairings p).phase ≡ finished
unfolding finish end_pairing
finish-phase p m = ground arith

-- The verdict of `completePairing` when `Add` gave `added`.
pub record Completed (added : TrustStore × Option TrustError) (p : ℕ) (m m' : Manager)
    : Type 0 where
  pub trusts : m'.trust ≡ added.0
  pub reason : String
  pub reports :
      results m'.calls ≡ ((m.pairings p).device_id, not (is_some added.1), reason) ∷ results m.calls

-- What stands below the call of `Add`.
report-Completed :
    (p : ℕ) (token : String) (announce : Bool) (m : Manager) (trust' : TrustStore)
    (failed : Option TrustError)
    → Completed
        (trust', failed)
        p
        m
        (elim failed [
          | some e ↦ fail_pairing p pair_reason_internal true (record m { trust = trust' })
          | none ↦ emit (on_peer_state (m.pairings p).device_id peer_state_paired "") (
              emit
                (on_pair_result (m.pairings p).device_id true "")
                (promote (m.pairings p).conn token announce (record m { trust = trust' })))
        ])
unfolding results
report-Completed p token announce m trust' (some e) = record {
  trusts = fail_pairing-trust p _ true (record m { trust = trust' });
  reason = or_declined pair_reason_internal;
  reports = fail_pairing-results p _ true (record m { trust = trust' });
}
report-Completed p token announce m trust' none =
    let q = promote-Quiet (m.pairings p).conn token announce (record m { trust = trust' }) in
    record {
      trusts = q.trust;
      reason = "";
      reports = ap (λ calls. ((m.pairings p).device_id, true, "") ∷ results calls) q.calls;
    }

-- `Add` refuses a malformed token.
add-malformed :
    (env : Env) (id name token : String) (s : TrustStore)
    → valid_token_format token ≡ false
    → ((add env.faults env.now id name token s).0 ≡ s)
      × (is_some (add env.faults env.now id name token s).1 ≡ true)
unfolding add
add-malformed env id name token s e = ground arith

pub complete_pairing-Completed :
    (env : Env) (p : ℕ) (token : String) (announce : Bool) (m : Manager)
    → Completed
        (add env.faults env.now (m.pairings p).device_id (m.pairings p).name token m.trust)
        p
        m
        (complete_pairing env p token announce m)
unfolding complete_pairing
complete_pairing-Completed env p token announce m = go (valid_token_format token) refl
  where
    go :
        (b : Bool)
        → valid_token_format token ≡ b
        → Completed
            (add env.faults env.now (m.pairings p).device_id (m.pairings p).name token m.trust)
            p
            m
            (if not b
              then fail_pairing p pair_reason_internal true m
              else (let (trust', failed) =
                    add env.faults env.now
                      (m.pairings p).device_id
                      (m.pairings p).name
                      token
                      m.trust in
                  let m₁ = record m { trust = trust' } in
                  elim failed [
                    | some e ↦ fail_pairing p pair_reason_internal true m₁
                    | none ↦ emit (on_peer_state (m.pairings p).device_id peer_state_paired "") (
                        emit
                          (on_pair_result (m.pairings p).device_id true "")
                          (promote (m.pairings p).conn token announce m₁))
                  ]))
    go true e = report-Completed p token announce m _ _
    go false e =
        let bad = add-malformed env (m.pairings p).device_id (m.pairings p).name token m.trust e in
        record {
          trusts = fail_pairing-trust p _ true m ∙ sym bad.0;
          reason = or_declined pair_reason_internal;
          reports =
              fail_pairing-results p _ true m
              ∙ ap
                  (λ b.
                    ((m.pairings p).device_id, not b, or_declined pair_reason_internal)
                    ∷ results m.calls)
                  (sym bad.1);
        }

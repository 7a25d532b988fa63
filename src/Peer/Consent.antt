-- ===== src/Peer/Consent.antt =====
-- What the driver of a pairing in daemon/peer/pairing.go needs before it trusts a device, and the
-- ends that a round of it comes to.
use sharing.Base.{
  ℕ, String, ◌≡◌, refl, ◌∙◌, ap, Bool, true, false, not, ◌&&◌, none, some, arith, List, ◌∷◌,
  if◌then◌else◌,
}
use sharing.Base.Dict.{is_some}
use sharing.Protocol.Constants.{pair_reason_internal}
use sharing.Trust.Store.{add, new_token}
use sharing.Peer.State.{
  Manager, PairDecision, PairEvent, ev_accept, ev_paired, Env, running, finished,
}
use sharing.Peer.Driver.{
  or_declined, fail_pairing, complete_pairing, finish, settle, Ready, decision, remote,
}
use sharing.Peer.Outcome.{
  results, fail_pairing-results, fail_pairing-trust, finish-calls, finish-trust, finish-phase,
  complete_pairing-Completed,
}

-- The local human has accepted, now or in an earlier round.
pub data LocalConsent (p : ℕ) (ready : Ready) (m : Manager) : Type 0 where
  earlier : (m.pairings p).local_accepted ≡ true → LocalConsent p ready m
  now :
      (d : PairDecision)
      → ready ≡ decision
      → (m.pairings p).decision ≡ some d
      → d.accept ≡ true
      → LocalConsent p ready m

-- The device at the other end has accepted: the one that asked sent its acceptance, now or in an
-- earlier round, or the one that was asked sends the token now.
pub data RemoteConsent (p : ℕ) (ready : Ready) (m : Manager) : Type 0 where
  earlier :
      (m.pairings p).responder ≡ true
      → (m.pairings p).remote_accepted ≡ true
      → RemoteConsent p ready m
  now :
      (evs : List PairEvent)
      → (m.pairings p).responder ≡ true
      → ready ≡ remote
      → (m.pairings p).remote ≡ ev_accept ∷ evs
      → RemoteConsent p ready m
  token :
      (t : String) (evs : List PairEvent)
      → (m.pairings p).responder ≡ false
      → ready ≡ remote
      → (m.pairings p).remote ≡ ev_paired t ∷ evs
      → RemoteConsent p ready m

-- What a round of a running driver comes to. It goes on, having reported nothing; or it returns with
-- exactly one report: of a failure that leaves the trust store alone, or, with both consents, of
-- whether the device was added to it.
pub data Round (env : Env) (p : ℕ) (ready : Ready) (m m' : Manager) : Type 0 where
  goes_on :
      (m'.pairings p).phase ≡ running
      → results m'.calls ≡ results m.calls
      → m'.trust ≡ m.trust
      → Round env p ready m m'
  fails :
      (reason : String)
      → (m'.pairings p).phase ≡ finished
      → results m'.calls ≡ ((m.pairings p).device_id, false, reason) ∷ results m.calls
      → m'.trust ≡ m.trust
      → Round env p ready m m'
  completes :
      (token reason : String)
      → LocalConsent p ready m
      → RemoteConsent p ready m
      → (m'.pairings p).phase ≡ finished
      → m'.trust
        ≡ (add env.faults env.now (m.pairings p).device_id (m.pairings p).name token m.trust).0
      → results m'.calls
        ≡ (
          (m.pairings p).device_id,
          not (
              is_some
                (add env.faults env.now
                  (m.pairings p).device_id
                  (m.pairings p).name
                  token
                  m.trust).1),
          reason,
        )
          ∷ results m.calls
      → Round env p ready m m'

-- Nothing that counts has happened to the pairing yet.
pub record Same (p : ℕ) (m m₁ : Manager) : Type 0 where
  pub device_id : (m₁.pairings p).device_id ≡ (m.pairings p).device_id
  pub name : (m₁.pairings p).name ≡ (m.pairings p).name
  pub responder : (m₁.pairings p).responder ≡ (m.pairings p).responder
  pub phase : (m₁.pairings p).phase ≡ running
  pub trust : m₁.trust ≡ m.trust
  pub calls : m₁.calls ≡ m.calls

pub fail-Round :
    (env : Env) (p : ℕ) (ready : Ready) (reason : String) (notify : Bool) (m m₁ : Manager)
    → Same p m m₁
    → Round env p ready m (finish p (fail_pairing p reason notify m₁))
fail-Round env p ready reason notify m m₁ s =
    let failed = fail_pairing p reason notify m₁ in
    fails (or_declined reason) (finish-phase p failed)
      (ap results (finish-calls p failed)
        ∙ fail_pairing-results p reason notify m₁
        ∙ rw (s.device_id, s.calls) refl)
      (finish-trust p failed ∙ fail_pairing-trust p reason notify m₁ ∙ s.trust)

pub complete-Round :
    (env : Env) (p : ℕ) (ready : Ready) (t : String) (announce : Bool) (m m₁ : Manager)
    → Same p m m₁
    → LocalConsent p ready m
    → RemoteConsent p ready m
    → Round env p ready m (finish p (complete_pairing env p t announce m₁))
complete-Round env p ready t announce m m₁ s local_ok remote_ok =
    let m₂ = complete_pairing env p t announce m₁ in
    let c = complete_pairing-Completed env p t announce m₁ in
    completes t c.reason local_ok remote_ok (finish-phase p m₂)
      (finish-trust p m₂ ∙ c.trusts ∙ rw (s.device_id, s.name, s.trust) refl)
      (ap results (finish-calls p m₂) ∙ c.reports ∙ rw (s.device_id, s.name, s.trust, s.calls) refl)

-- The pairing is still in progress.
pub goes_on-Same :
    (env : Env) (p : ℕ) (ready : Ready) (m m₁ : Manager) → Same p m m₁ → Round env p ready m m₁
goes_on-Same env p ready m m₁ s = goes_on s.phase (ap results s.calls) s.trust

pub if-Round :
    {env : Env} {p : ℕ} {ready : Ready} {m m₁ m₂ : Manager} (b : Bool)
    → (b ≡ true → Round env p ready m m₁)
    → (b ≡ false → Round env p ready m m₂)
    → Round env p ready m (if b then m₁ else m₂)
if-Round true h k = h refl
if-Round false h k = k refl

-- The flags of a pairing whose token is minted now.
both-flags :
    (responder local_accepted remote_accepted : Bool)
    → (responder && local_accepted && remote_accepted) ≡ true
    → (responder ≡ true) × (local_accepted ≡ true) × (remote_accepted ≡ true)
both-flags responder local_accepted remote_accepted e = ground arith

pub settle-Round :
    (env : Env) (p : ℕ) (ready : Ready) (m m₁ : Manager)
    → Same p m m₁
    → ((m₁.pairings p).local_accepted ≡ true → LocalConsent p ready m)
    → ((m₁.pairings p).responder ≡ true
        → (m₁.pairings p).remote_accepted ≡ true
        → RemoteConsent p ready m)
    → Round env p ready m (settle env p m₁)
unfolding settle
settle-Round env p ready m m₁ s local_ok remote_ok =
    let v = m₁.pairings p in
    if-Round (v.responder && v.local_accepted && v.remote_accepted)
      (λ e.
        let flags = both-flags v.responder v.local_accepted v.remote_accepted e in
        elim (new_token env.token_bytes)
          as (λ o. Round env p ready m (elim o [
            | none ↦ finish p (fail_pairing p pair_reason_internal true m₁)
            | some t ↦ finish p (complete_pairing env p t true m₁)
          ])) [
            | none ↦ fail-Round env p ready _ true m m₁ s
            | some t ↦
                complete-Round env p ready t true m m₁ s (local_ok flags.1)
                  (remote_ok flags.0 flags.2)
          ])
      (λ e. goes_on-Same env p ready m m₁ s)

-- ===== src/Peer/Round.antt =====
-- One round of the driver of a pairing, `runPairing` of daemon/peer/pairing.go: what it needs before
-- it trusts a device, and what it reports.
use sharing.Base.{
  ℕ, ◌≡◌, refl, ◌∙◌, ap, sym, true, false, not, Option, none, some, arith, List, [], ◌∷◌,
  if◌then◌else◌,
}
use sharing.Protocol.Constants.{pair_reason_internal, pair_reason_unreachable}
use sharing.Protocol.Json.{Frame}
use sharing.Peer.State.{
  Manager, Pairing, PairDecision, PairEvent, ev_accept, ev_reject, ev_cancelled, ev_paired, Env,
  running, set_pairing,
}
use sharing.Peer.Conn.{enqueue}
use sharing.Peer.Driver.{
  fail_pairing, finish, settle, on_decision, on_event, Ready, ctx_done, sock_done, timer, decision,
  remote, select, drive, is_running,
}
use sharing.Peer.Quiet.{enqueue-Quiet}
use sharing.Peer.Consent.{
  LocalConsent, RemoteConsent, Round, Same, fail-Round, complete-Round, goes_on-Same, if-Round,
  settle-Round,
}

pub set_pairing_self : (p : ℕ) (v : Pairing) (m : Manager) → (set_pairing p v m).pairings p ≡ v
set_pairing_self p v m = ground arith

-- Only what waits for the driver was taken out.
record Taken (p : ℕ) (m m₁ : Manager) : Type 0 where
  same : Same p m m₁
  local_flag : (m₁.pairings p).local_accepted ≡ (m.pairings p).local_accepted
  remote_flag : (m₁.pairings p).remote_accepted ≡ (m.pairings p).remote_accepted

-- A change of the pairing that keeps what `Same` speaks of.
set_pairing-Same :
    (p : ℕ) (v : Pairing) (m m₁ : Manager)
    → Same p m m₁
    → v.device_id ≡ (m₁.pairings p).device_id
    → v.name ≡ (m₁.pairings p).name
    → v.responder ≡ (m₁.pairings p).responder
    → v.phase ≡ (m₁.pairings p).phase
    → Same p m (set_pairing p v m₁)
set_pairing-Same p v m m₁ s e₁ e₂ e₃ e₄ =
    let self = set_pairing_self p v m₁ in
    record {
      device_id = ap (λ w. w.device_id) self ∙ e₁ ∙ s.device_id;
      name = ap (λ w. w.name) self ∙ e₂ ∙ s.name;
      responder = ap (λ w. w.responder) self ∙ e₃ ∙ s.responder;
      phase = ap (λ w. w.phase) self ∙ e₄ ∙ s.phase;
      trust = s.trust;
      calls = s.calls;
    }

enqueue-Same : (c p : ℕ) (f : Frame) (m m₁ : Manager) → Same p m m₁ → Same p m (enqueue c f m₁).0
enqueue-Same c p f m m₁ s =
    let q = enqueue-Quiet c f m₁ in
    let pairing = ap (λ t. t p) q.pairings in
    record {
      device_id = ap (λ w. w.device_id) pairing ∙ s.device_id;
      name = ap (λ w. w.name) pairing ∙ s.name;
      responder = ap (λ w. w.responder) pairing ∙ s.responder;
      phase = ap (λ w. w.phase) pairing ∙ s.phase;
      trust = q.trust ∙ s.trust;
      calls = q.calls ∙ s.calls;
    }

-- The local human accepts for the first time.
accept-Round :
    (env : Env) (p : ℕ) (d : PairDecision) (m m₁ : Manager)
    → Same p m m₁
    → (m₁.pairings p).remote_accepted ≡ (m.pairings p).remote_accepted
    → (m.pairings p).decision ≡ some d
    → d.accept ≡ true
    → Round env p decision m (settle env p m₁)
accept-Round env p d m m₁ s flag e accepted =
    settle-Round env p decision m m₁ s (λ _. LocalConsent.now d refl e accepted)
      (λ r a. RemoteConsent.earlier (sym s.responder ∙ r) (sym flag ∙ a))

-- The acceptance goes out, if there is a socket, and the pairing is settled.
announce-Round :
    (env : Env) (p : ℕ) (d : PairDecision) (f : Frame) (o : Option ℕ) (m m₁ : Manager)
    → Same p m m₁
    → (m₁.pairings p).remote_accepted ≡ (m.pairings p).remote_accepted
    → (m.pairings p).decision ≡ some d
    → d.accept ≡ true
    → Round env p decision m (elim o [
      | none ↦ settle env p m₁
      | some c ↦
          let (m₂, sent) = enqueue c f m₁ in
          if sent
          then settle env p m₂
          else finish p (fail_pairing p pair_reason_unreachable false m₂)
    ])
announce-Round env p d f none m m₁ s flag e accepted = accept-Round env p d m m₁ s flag e accepted
announce-Round env p d f (some c) m m₁ s flag e accepted =
    let s' = enqueue-Same c p f m m₁ s in
    let pairing = ap (λ t. (t p).remote_accepted) (enqueue-Quiet c f m₁).pairings in
    if-Round (enqueue c f m₁).1
      (λ _. accept-Round env p d m (enqueue c f m₁).0 s' (pairing ∙ flag) e accepted)
      (λ _. fail-Round env p decision _ false m (enqueue c f m₁).0 s')

on_decision-Round :
    (env : Env) (p : ℕ) (d : PairDecision) (m m₁ : Manager)
    → Taken p m m₁
    → (m.pairings p).decision ≡ some d
    → Round env p decision m (on_decision env p d m₁)
unfolding on_decision
on_decision-Round env p d m m₁ t e =
    let v = record (m₁.pairings p) { local_accepted = true } in
    let s = set_pairing-Same p v m m₁ t.same refl refl refl refl in
    let flag = ap (λ w. w.remote_accepted) (set_pairing_self p v m₁) ∙ t.remote_flag in
    if-Round (not d.accept) (λ _. fail-Round env p decision _ true m m₁ t.same)
      (λ accepted.
        if-Round (m₁.pairings p).local_accepted (λ _. goes_on-Same env p decision m m₁ t.same)
          (λ _.
            announce-Round env p d _ (m₁.pairings p).conn m (set_pairing p v m₁) s flag e
              (ground arith)))

on_event-Round :
    (env : Env) (p : ℕ) (ev : PairEvent) (evs : List PairEvent) (m m₁ : Manager)
    → Taken p m m₁
    → (m.pairings p).remote ≡ ev ∷ evs
    → Round env p remote m (on_event env p ev m₁)
unfolding on_event
on_event-Round env p ev_accept evs m m₁ t e =
    let v = record (m₁.pairings p) { remote_accepted = true } in
    let s = set_pairing-Same p v m m₁ t.same refl refl refl refl in
    settle-Round env p remote m (set_pairing p v m₁) s
      (λ a.
        LocalConsent.earlier
          (sym (ap (λ w. w.local_accepted) (set_pairing_self p v m₁) ∙ t.local_flag) ∙ a))
      (λ r _. RemoteConsent.now evs (sym s.responder ∙ r) refl e)
on_event-Round env p (ev_reject reason) evs m m₁ t e = fail-Round env p remote _ false m m₁ t.same
on_event-Round env p (ev_cancelled reason) evs m m₁ t e = fail-Round env p remote _ true m m₁ t.same
on_event-Round env p (ev_paired t') evs m m₁ t e =
    if-Round (m₁.pairings p).responder (λ _. fail-Round env p remote _ true m m₁ t.same)
      (λ asked.
        if-Round (not (m₁.pairings p).local_accepted)
          (λ _. fail-Round env p remote _ true m m₁ t.same)
          (λ accepted.
            complete-Round env p remote t' false m m₁ t.same
              (LocalConsent.earlier (sym t.local_flag ∙ ground arith))
              (RemoteConsent.token t' evs (sym t.same.responder ∙ asked) refl e)))

Same-refl : (p : ℕ) (m : Manager) → (m.pairings p).phase ≡ running → Same p m m
Same-refl p m e = record {
  device_id = refl;
  name = refl;
  responder = refl;
  phase = e;
  trust = refl;
  calls = refl;
}

-- The driver takes something out of one of the buffers of the pairing.
take-Taken :
    (p : ℕ) (d : Option PairDecision) (evs : List PairEvent) (m : Manager)
    → (m.pairings p).phase ≡ running
    → Taken p m (set_pairing p (record (m.pairings p) { decision = d; remote = evs }) m)
take-Taken p d evs m e =
    let v = record (m.pairings p) { decision = d; remote = evs } in
    record {
      same = set_pairing-Same p v m m (Same-refl p m e) refl refl refl refl;
      local_flag = ap (λ w. w.local_accepted) (set_pairing_self p v m);
      remote_flag = ap (λ w. w.remote_accepted) (set_pairing_self p v m);
    }

select-Round :
    (env : Env) (p c : ℕ) (ready : Ready) (m : Manager)
    → (m.pairings p).phase ≡ running
    → Round env p ready m (select env p c ready m)
unfolding select
select-Round env p c ctx_done m e = fail-Round env p ctx_done _ true m m (Same-refl p m e)
select-Round env p c timer m e = fail-Round env p timer _ true m m (Same-refl p m e)
select-Round env p c sock_done m e =
    if-Round (m.sockets c).cancelled (λ _. fail-Round env p sock_done _ false m m (Same-refl p m e))
      (λ _. goes_on-Same env p sock_done m m (Same-refl p m e))
select-Round env p c decision m e = go (m.pairings p).decision refl
  where
    go :
        (o : Option PairDecision)
        → (m.pairings p).decision ≡ o
        → Round env p decision m (elim o [
          | none ↦ m
          | some d ↦
              on_decision env p d (set_pairing p (record (m.pairings p) { decision = none }) m)
        ])
    go none _ = goes_on-Same env p decision m m (Same-refl p m e)
    go (some d) q = on_decision-Round env p d m _ (take-Taken p none (m.pairings p).remote m e) q
select-Round env p c remote m e = go (m.pairings p).remote refl
  where
    go :
        (o : List PairEvent)
        → (m.pairings p).remote ≡ o
        → Round env p remote m (elim o [
          | [] ↦ m
          | ev ∷ evs ↦ on_event env p ev (set_pairing p (record (m.pairings p) { remote = evs }) m)
        ])
    go [] _ = goes_on-Same env p remote m m (Same-refl p m e)
    go (ev ∷ evs) q =
        on_event-Round env p ev evs m _ (take-Taken p (m.pairings p).decision evs m e) q

-- A round of a running driver either goes on, with no report and the trust store as it was, or
-- returns with exactly one report about the device of the pairing. The trust store changes only in a
-- round that returns, by `Add` for that device, and only if the local human has accepted and so has
-- the other end; the report is then whether `Add` succeeded. Any other report is of a failure.
pub drive-Round :
    (env : Env) (p : ℕ) (ready : Ready) (m : Manager)
    → (m.pairings p).phase ≡ running
    → Round env p ready m (drive env p ready m)
unfolding drive
drive-Round env p ready m e =
    if-Round (is_running (m.pairings p).phase)
      (λ _.
        elim (m.pairings p).conn
          as (λ o. Round env p ready m (elim o [
            | none ↦ finish p (fail_pairing p pair_reason_internal false m)
            | some c ↦ select env p c ready m
          ])) [
            | none ↦ fail-Round env p ready _ false m m (Same-refl p m e)
            | some c ↦ select-Round env p c ready m e
          ])
      (λ _. goes_on-Same env p ready m m (Same-refl p m e))

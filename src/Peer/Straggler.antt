-- ===== src/Peer/Straggler.antt =====
-- `Forget` of daemon/peer/peer.go against a pairing whose acceptance waits for the driver already.
use sharing.Peer.Round.{set_pairing_self}
use sharing.Protocol.Constants.{pair_reason_internal, pair_reason_declined}
use sharing.Base.{
  ℕ, String, ◌≡◌, ◌∙◌, ap, true, false, none, some, arith, List, [], ◌∷◌, ◌++◌, str_eq, eq_refl,
  if◌then◌else◌, ltb, length,
}
use sharing.Protocol.Hex.{valid_token_format}
use sharing.Trust.Store.{add, new_token, verify_token}
use sharing.Trust.Verify.{verify_token-add}
use sharing.Peer.State.{Manager, PairEvent, ev_accept, running, Env, set_pairing, ev_cancelled}
use sharing.Peer.Pending.{push_event, event_buffer}
use sharing.Peer.Driver.{
  settle, on_event, drive, select, remote, complete_pairing, finish, is_running, fail_pairing,
}
use sharing.Peer.Relay.{cancel_pairing, forget}
use sharing.Peer.Outcome.{finish-trust, complete_pairing-Completed}
use sharing.Peer.Forgetting.{forget-pairings}

-- The responder's human has accepted, and so has the far side, whose acceptance waits in the buffer.
pub record Accepted (p c : ℕ) (id : String) (m : Manager) : Type 0 where
  pub device_id : (m.pairings p).device_id ≡ id
  pub phase : (m.pairings p).phase ≡ running
  pub conn : (m.pairings p).conn ≡ some c
  pub responder : (m.pairings p).responder ≡ true
  pub local_accepted : (m.pairings p).local_accepted ≡ true
  pub rest : List PairEvent
  pub remote : (m.pairings p).remote ≡ ev_accept ∷ rest

settle-trust :
    (env : Env) (p : ℕ) (t : String) (m : Manager)
    → (m.pairings p).responder ≡ true
    → (m.pairings p).local_accepted ≡ true
    → (m.pairings p).remote_accepted ≡ true
    → new_token env.token_bytes ≡ some t
    → (settle env p m).trust
      ≡ (add env.faults env.now (m.pairings p).device_id (m.pairings p).name t m.trust).0
unfolding settle
settle-trust env p t m r l a e =
    rw (r, l, a, e)
      (finish-trust p (complete_pairing env p t true m)
        ∙ (complete_pairing-Completed env p t true m).trusts)

select-remote :
    (env : Env) (p c : ℕ) (id : String) (m : Manager) (h : Accepted p c id m)
    → select env p c remote m
      ≡ on_event env p ev_accept (set_pairing p (record (m.pairings p) { remote = h.rest }) m)
unfolding select
select-remote env p c id m h =
    ap
      (λ o. elim o as (λ o'. Manager) [
        | [] ↦ m
        | ev ∷ evs ↦ on_event env p ev (set_pairing p (record (m.pairings p) { remote = evs }) m)
      ])
      h.remote

drive-select :
    (env : Env) (p c : ℕ) (id : String) (m : Manager) (h : Accepted p c id m)
    → drive env p remote m ≡ select env p c remote m
unfolding drive
drive-select env p c id m h =
    ap
      (λ phase.
        if is_running phase
        then (elim (m.pairings p).conn as (λ o. Manager) [
          | none ↦ finish p (fail_pairing p pair_reason_internal false m)
          | some d ↦ select env p d remote m
        ])
        else m)
      h.phase
    ∙ ap
        (λ o. elim o as (λ o'. Manager) [
          | none ↦ finish p (fail_pairing p pair_reason_internal false m)
          | some d ↦ select env p d remote m
        ])
        h.conn

-- The driver takes the acceptance, mints the token and trusts the device.
drive-trust :
    (env : Env) (p c : ℕ) (id t : String) (m : Manager)
    → Accepted p c id m
    → new_token env.token_bytes ≡ some t
    → (drive env p remote m).trust ≡ (add env.faults env.now id (m.pairings p).name t m.trust).0
unfolding on_event
drive-trust env p c id t m h e =
    let v = record (m.pairings p) { remote = h.rest } in
    let m₁ = set_pairing p v m in
    let w = record (m₁.pairings p) { remote_accepted = true } in
    let m₂ = set_pairing p w m₁ in
    let taken = set_pairing_self p v m in
    let marked = set_pairing_self p w m₁ in
    ap (λ x. x.trust) (drive-select env p c id m h ∙ select-remote env p c id m h)
    ∙ settle-trust env p t m₂
        (ap (λ q. q.responder) marked ∙ ap (λ q. q.responder) taken ∙ h.responder)
        (ap (λ q. q.local_accepted) marked ∙ ap (λ q. q.local_accepted) taken ∙ h.local_accepted)
        (ap (λ q. q.remote_accepted) marked) e
    ∙ ap (λ i. (add env.faults env.now i (m₂.pairings p).name t m.trust).0)
        (ap (λ q. q.device_id) marked ∙ ap (λ q. q.device_id) taken ∙ h.device_id)
    ∙ ap (λ n. (add env.faults env.now id n t m.trust).0)
        (ap (λ q. q.name) marked ∙ ap (λ q. q.name) taken)

-- Behind the acceptance, an event is queued or dropped.
push_event-Accepted :
    (p c : ℕ) (id : String) (ev : PairEvent) (m : Manager)
    → Accepted p c id m
    → Accepted p c id (push_event p ev m)
unfolding push_event
push_event-Accepted p c id ev m h =
    let v = record (m.pairings p) { remote = (m.pairings p).remote ++ ev ∷ [] } in
    let self = set_pairing_self p v m in
    elim (ltb (length (m.pairings p).remote) event_buffer)
      as (λ b. Accepted p c id (if b then set_pairing p v m else m)) [
        | true ↦ record {
          device_id = ap (λ q. q.device_id) self ∙ h.device_id;
          phase = ap (λ q. q.phase) self ∙ h.phase;
          conn = ap (λ q. q.conn) self ∙ h.conn;
          responder = ap (λ q. q.responder) self ∙ h.responder;
          local_accepted = ap (λ q. q.local_accepted) self ∙ h.local_accepted;
          rest = h.rest ++ ev ∷ [];
          remote = ap (λ q. q.remote) self ∙ ap (λ r. r ++ ev ∷ []) h.remote;
        }
        | false ↦ h
      ]

cancel_pairing-push_event :
    (p : ℕ) (id : String) (m : Manager)
    → m.pending id ≡ some p
    → cancel_pairing id m ≡ push_event p (ev_cancelled pair_reason_declined) m
unfolding cancel_pairing
cancel_pairing-push_event p id m e =
    ap
      (λ o. elim o as (λ o'. Manager) [
        | none ↦ m
        | some q ↦ push_event q (ev_cancelled pair_reason_declined) m
      ])
      e

same_pairings-Accepted :
    (p c : ℕ) (id : String) (m m' : Manager)
    → m'.pairings ≡ m.pairings
    → Accepted p c id m
    → Accepted p c id m'
same_pairings-Accepted p c id m m' e h = record {
  device_id = ap (λ t. (t p).device_id) e ∙ h.device_id;
  phase = ap (λ t. (t p).phase) e ∙ h.phase;
  conn = ap (λ t. (t p).conn) e ∙ h.conn;
  responder = ap (λ t. (t p).responder) e ∙ h.responder;
  local_accepted = ap (λ t. (t p).local_accepted) e ∙ h.local_accepted;
  rest = h.rest;
  remote = ap (λ t. (t p).remote) e ∙ h.remote;
}

-- `Forget` comes too late for a pairing in flight that both ends have accepted, when the driver has
-- not read the acceptance of the far side yet: the round that reads it mints a token, and the token
-- is accepted from the device that was forgotten.
pub forget-drive_paired :
    (env env' : Env) (p c : ℕ) (id token : String) (m : Manager)
    → str_eq id "" ≡ false
    → m.pending id ≡ some p
    → Accepted p c id m
    → new_token env'.token_bytes ≡ some token
    → valid_token_format token ≡ true
    → verify_token (drive env' p remote (forget env id m).0).trust id token ≡ true
forget-drive_paired env env' p c id token m named pending h minted formed =
    let m' = (forget env id m).0 in
    let pushed = push_event p (ev_cancelled pair_reason_declined) m in
    let kept =
      same_pairings-Accepted p c id pushed m'
        (forget-pairings env id m named
          ∙ ap (λ x. x.pairings) (cancel_pairing-push_event p id m pending))
        (push_event-Accepted p c id (ev_cancelled pair_reason_declined) m h) in
    ap (λ s. verify_token s id token) (drive-trust env' p c id token m' kept minted)
    ∙ verify_token-add env'.faults env'.now id (m'.pairings p).name token m'.trust id token named
        formed
    ∙ ground (arith, eq_refl id, eq_refl token)

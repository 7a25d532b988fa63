-- ===== src/Peer/Driver.antt =====
-- The pairing state machine of daemon/peer/pairing.go: `runPairing`, `completePairing` and
-- `failPairing`. The driver is a goroutine that selects over five sources; `drive` is one round of
-- its loop, with the source that the select chose.
use sharing.Base.{
  ℕ, String, Bool, true, false, ◌&&◌, ◌||◌, not, Option, none, some, [], ◌∷◌, str_eq, if◌then◌else◌,
}
use Prim.Native.String.{◌++◌}
use sharing.Protocol.Constants.{
  pair_reason_declined, pair_reason_timeout, pair_reason_unreachable, pair_reason_internal,
  peer_state_offline, peer_state_error, peer_state_paired, peer_close_pair_rejected,
}
use sharing.Protocol.Hex.{valid_token_format}
use sharing.Protocol.PeerMessages.{new_peer_pair_reject, new_peer_pair_accept, new_peer_paired}
use sharing.Protocol.Wire.{marshal_peer_pair_reject, marshal_peer_pair_accept, marshal_peer_paired}
use sharing.Trust.Store.{add, new_token}
use sharing.Peer.State.{
  PairDecision, PairEvent, ev_accept, ev_reject, ev_cancelled, ev_paired, Phase, running, finished,
  Manager, HandlerCall, on_pair_result, on_peer_state, Env, emit, set_conn, set_pairing,
}
use sharing.Peer.Conn.{enqueue, close_with}
use sharing.Peer.Registry.{register_conn}
use sharing.Peer.Pending.{end_pairing}

-- What a failure tells the peer, if there is a socket.
unfoldable pub reject_socket : Option ℕ → String → Bool → Manager → Manager
reject_socket none reason notify_peer m = m
reject_socket (some c) reason notify_peer m =
    let m' =
      if notify_peer
      then (enqueue c (marshal_peer_pair_reject (new_peer_pair_reject reason)) m).0
      else m in
    close_with c peer_close_pair_rejected ("pairing rejected: " ++ reason) m'

abbrev pub or_declined : String → String
or_declined reason = if str_eq reason "" then pair_reason_declined else reason

-- The state that a failure shows.
unfoldable pub failure_state : String → String → HandlerCall
failure_state id reason =
    if str_eq reason pair_reason_declined || str_eq reason pair_reason_timeout
    then on_peer_state id peer_state_offline ""
    else on_peer_state id peer_state_error reason

-- `failPairing`
unfoldable pub fail_pairing : ℕ → String → Bool → Manager → Manager
unfolding reject_socket
fail_pairing p reason notify_peer m =
    let v = m.pairings p in
    let r = or_declined reason in
    let m₁ = reject_socket v.conn r notify_peer m in
    emit (failure_state v.device_id r) (emit (on_pair_result v.device_id false r) m₁)

-- The socket is authenticated and registered, and the responder hands the token over. A failed
-- delivery is only logged.
unfoldable pub promote : Option ℕ → String → Bool → Manager → Manager
promote none token announce m = m
promote (some c) token announce m =
    let m₁ = register_conn c (set_conn c (record (m.sockets c) { paired = true }) m) in
    if announce then (enqueue c (marshal_peer_paired (new_peer_paired token)) m₁).0 else m₁

-- `completePairing`
unfoldable pub complete_pairing : Env → ℕ → String → Bool → Manager → Manager
unfolding promote
complete_pairing env p token announce m =
    let v = m.pairings p in
    if not (valid_token_format token)
    then fail_pairing p pair_reason_internal true m
    else let (trust', failed) = add env.faults env.now v.device_id v.name token m.trust in
      let m₁ = record m { trust = trust' } in
      elim failed [
        | some e ↦ fail_pairing p pair_reason_internal true m₁
        | none ↦
            emit (on_peer_state v.device_id peer_state_paired "")
              (emit (on_pair_result v.device_id true "") (promote v.conn token announce m₁))
      ]

-- The driver returns; `endPairing` is deferred.
unfoldable pub finish : ℕ → Manager → Manager
finish p m =
    let m' = end_pairing p m in set_pairing p (record (m'.pairings p) { phase = finished }) m'

-- What stands below the select: the responder mints the token once both humans have accepted.
unfoldable pub settle : Env → ℕ → Manager → Manager
unfolding finish
settle env p m =
    let v = m.pairings p in
    if v.responder && v.local_accepted && v.remote_accepted
    then (elim (new_token env.token_bytes) [
      | none ↦ finish p (fail_pairing p pair_reason_internal true m)
      | some token ↦ finish p (complete_pairing env p token true m)
    ])
    else m

-- `case d := <-p.decision`, with the buffer already emptied.
unfoldable pub on_decision : Env → ℕ → PairDecision → Manager → Manager
unfolding settle
on_decision env p d m =
    let v = m.pairings p in
    if not d.accept
    then finish p (fail_pairing p (or_declined d.reason) true m)
    else if v.local_accepted
    then m
    else let m₁ = set_pairing p (record v { local_accepted = true }) m in
      elim v.conn [
        | none ↦ settle env p m₁
        | some c ↦
            let (m₂, sent) =
              enqueue c (marshal_peer_pair_accept (new_peer_pair_accept m.self.id)) m₁ in
            if sent
            then settle env p m₂
            else finish p (fail_pairing p pair_reason_unreachable false m₂)
      ]

-- `case ev := <-p.remote`, with the event already taken out of the buffer.
unfoldable pub on_event : Env → ℕ → PairEvent → Manager → Manager
unfolding settle
on_event env p ev_accept m =
    settle env p (set_pairing p (record (m.pairings p) { remote_accepted = true }) m)
on_event env p (ev_reject reason) m = finish p (fail_pairing p reason false m)
on_event env p (ev_cancelled reason) m = finish p (fail_pairing p reason true m)
on_event env p (ev_paired token) m =
    let v = m.pairings p in
    if v.responder
    then finish p (fail_pairing p pair_reason_internal true m)
    else if not v.local_accepted
    then finish p (fail_pairing p pair_reason_internal true m)
    else finish p (complete_pairing env p token false m)

-- The sources of the select.
pub data Ready : Type 0 where
  ctx_done sock_done timer decision remote : Ready

-- The case that the select chose; a source that is not ready is not chosen.
unfoldable pub select : Env → ℕ → ℕ → Ready → Manager → Manager
unfolding on_decision on_event
select env p c ctx_done m = finish p (fail_pairing p pair_reason_internal true m)
select env p c sock_done m =
    if (m.sockets c).cancelled then finish p (fail_pairing p pair_reason_unreachable false m) else m
select env p c timer m = finish p (fail_pairing p pair_reason_timeout true m)
select env p c decision m =
    let v = m.pairings p in
    elim v.decision [
      | none ↦ m
      | some d ↦ on_decision env p d (set_pairing p (record v { decision = none }) m)
    ]
select env p c remote m =
    let v = m.pairings p in
    elim v.remote [
      | [] ↦ m
      | ev ∷ evs ↦ on_event env p ev (set_pairing p (record v { remote = evs }) m)
    ]

-- Whether the driver goroutine is in its loop.
abbrev pub is_running : Phase → Bool
is_running running = true
is_running _ = false

-- One round of `runPairing`.
unfoldable pub drive : Env → ℕ → Ready → Manager → Manager
unfolding select
drive env p ready m =
    let v = m.pairings p in
    if is_running v.phase
    then (elim v.conn [
      | none ↦ finish p (fail_pairing p pair_reason_internal false m)
      | some c ↦ select env p c ready m
    ])
    else m

-- `go m.runPairing(ctx, p)`
unfoldable pub start_driver : ℕ → Manager → Manager
start_driver p m = set_pairing p (record (m.pairings p) { phase = running }) m

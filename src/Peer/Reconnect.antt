-- ===== src/Peer/Reconnect.antt =====
-- The background reconnect of daemon/peer/peer.go: `scheduleReconnect` and the goroutine that it
-- starts.
use sharing.Base.{
  ℕ, zero, suc, ◌+◌, ◌*◌, ◌/◌, String, Bool, true, false, not, none, some, List, [], ◌∷◌, ltb,
  if◌then◌else◌,
}
use sharing.Base.Dict.{is_some}
use sharing.Base.Time.{second}
use sharing.Trust.Store.{is_paired}
use sharing.Peer.State.{Manager, Env, assign}
use sharing.Peer.Registry.{is_connected}
use sharing.Peer.Dialer.{ensure_conn}
use sharing.Peer.Frames.{Read}

abbrev pub reconnect_initial_delay : ℕ
reconnect_initial_delay = 500000000

abbrev pub reconnect_max_delay : ℕ
reconnect_max_delay = 30 * second

abbrev pub max_reconnect_attempts : ℕ
max_reconnect_attempts = 6

-- What one attempt meets: `rand.Int64N`, whether the context ends the wait, and what the dial and
-- the first read give.
pub record Attempt : Type 0 where
  pub int64_n : ℕ → ℕ
  pub cancelled : Bool
  pub reached : Bool
  pub read : Read
  pub env : Env

-- The delay after a failed attempt.
unfoldable pub next_delay : ℕ → ℕ
next_delay delay =
    let doubled = delay * 2 in
    if ltb reconnect_max_delay doubled then reconnect_max_delay else doubled

-- The loop of the goroutine, for `n` more attempts, with the durations that its timers were set to.
unfoldable pub reconnect_loop : ℕ → (ℕ → Attempt) → ℕ → String → Manager → Manager × List ℕ
unfolding next_delay
reconnect_loop zero attempts delay id m = (m, [])
reconnect_loop (suc n) attempts delay id m =
    let a = attempts n in
    let wait = delay + a.int64_n (delay / 2 + 1) in
    if a.cancelled
    then (m, wait ∷ [])
    else if not (is_paired m.trust id)
    then (m, wait ∷ [])
    else let (m₁, live) = is_connected id m in
      if live
      then (m₁, wait ∷ [])
      else let (m₂, e, c) = ensure_conn a.env id a.reached a.read m₁ in
        elim e [
          | none ↦ (m₂, wait ∷ [])
          | some e' ↦
              let (m₃, waits) = reconnect_loop n attempts (next_delay delay) id m₂ in
              (m₃, wait ∷ waits)
        ]

-- `scheduleReconnect`; the flag tells whether the goroutine is started.
unfoldable pub schedule_reconnect : String → Manager → Manager × Bool
schedule_reconnect id m =
    if is_some (m.reconnects id)
    then (m, false)
    else (record m { reconnects = assign m.reconnects id (some tt) }, true)

-- The goroutine, with its deferred removal.
unfoldable pub reconnect : (ℕ → Attempt) → String → Manager → Manager × List ℕ
unfolding reconnect_loop
reconnect attempts id m =
    let (m', waits) = reconnect_loop max_reconnect_attempts attempts reconnect_initial_delay id m in
    (record m' { reconnects = assign m'.reconnects id none }, waits)

-- ===== src/Peer/Backoff.antt =====
-- How long and how often the reconnect of daemon/peer/peer.go waits.
use sharing.Trust.Store.{is_paired}
use sharing.Peer.Dialer.{ensure_conn}
use sharing.Peer.Registry.{is_connected}
use sharing.Peer.State.{Manager}
use sharing.Base.{
  ℕ, ◌+◌, ◌*◌, ◌/◌, ◌≤◌, ◌<◌, arith, zero, suc, String, Bool, true, false, not, none, some, List,
  [], ◌∷◌, All, length, if◌then◌else◌,
}
use sharing.Peer.Reconnect.{
  next_delay, reconnect_initial_delay, reconnect_max_delay, Attempt, reconnect_loop, reconnect,
  max_reconnect_attempts,
}

-- A wait of the loop: at least the first delay, at most one and a half of the longest.
abbrev pub InRange : ℕ → Type 0
InRange wait = (reconnect_initial_delay ≤ wait) × (wait * 2 ≤ reconnect_max_delay * 3)

-- A delay of the loop.
abbrev IsDelay : ℕ → Type 0
IsDelay delay = (reconnect_initial_delay ≤ delay) × (delay ≤ reconnect_max_delay)

next_delay-IsDelay : (delay : ℕ) → IsDelay delay → IsDelay (next_delay delay)
unfolding next_delay
next_delay-IsDelay delay h = ground arith

wait-InRange : (delay r : ℕ) → IsDelay delay → r < delay / 2 + 1 → InRange (delay + r)
wait-InRange delay r h lt = (omega arith, omega arith)

-- At most `n` timers were set, each to a wait in the range.
record Bounded (n : ℕ) (r : Manager × List ℕ) : Type 0 where
  count : length r.1 ≤ n
  ranges : All InRange r.1

if-Bounded :
    {n : ℕ} {r₁ r₂ : Manager × List ℕ} (b : Bool)
    → Bounded n r₁
    → Bounded n r₂
    → Bounded n (if b then r₁ else r₂)
if-Bounded true h k = h
if-Bounded false h k = k

-- The loop ends with this attempt.
last_attempt : (n wait : ℕ) (m : Manager) → InRange wait → Bounded (suc n) (m, wait ∷ [])
last_attempt n wait m h = record { count = omega arith; ranges = (h, tt) }

reconnect_loop-Bounded :
    (n : ℕ) (attempts : ℕ → Attempt) (delay : ℕ) (id : String) (m : Manager)
    → ((i k : ℕ) → 0 < k → (attempts i).int64_n k < k)
    → IsDelay delay
    → Bounded n (reconnect_loop n attempts delay id m)
unfolding reconnect_loop
reconnect_loop-Bounded zero attempts delay id m random d = record {
  count = omega arith;
  ranges = tt;
}
reconnect_loop-Bounded (suc n) attempts delay id m random d =
    let a = attempts n in
    let wait = delay + a.int64_n (delay / 2 + 1) in
    let in_range =
      wait-InRange delay (a.int64_n (delay / 2 + 1)) d (random n (delay / 2 + 1) (omega arith)) in
    let m₁ = (is_connected id m).0 in
    let r = ensure_conn a.env id a.reached a.read m₁ in
    if-Bounded a.cancelled (last_attempt n wait m in_range) (
      if-Bounded (not (is_paired m.trust id)) (last_attempt n wait m in_range) (
        if-Bounded (is_connected id m).1 (last_attempt n wait m₁ in_range)
          (elim r.1
            as (λ e. Bounded (suc n) (elim e [
              | none ↦ (r.0, wait ∷ [])
              | some e' ↦
                  let (m₃, waits) = reconnect_loop n attempts (next_delay delay) id r.0 in
                  (m₃, wait ∷ waits)
            ])) [
              | none ↦ last_attempt n wait r.0 in_range
              | some e' ↦
                  let h =
                    reconnect_loop-Bounded n attempts (next_delay delay) id r.0 random
                      (next_delay-IsDelay delay d) in
                  record { count = omega (arith, h.count); ranges = (in_range, h.ranges) }
            ])))

-- A reconnect sets at most six timers, each to at least 500 ms and at most 45 s, if `rand.Int64N`
-- gives a number below its argument, whatever the dials and the first reads give.
pub reconnect-bounded :
    (attempts : ℕ → Attempt) (id : String) (m : Manager)
    → ((i k : ℕ) → 0 < k → (attempts i).int64_n k < k)
    → (length (reconnect attempts id m).1 ≤ max_reconnect_attempts)
      × All InRange (reconnect attempts id m).1
unfolding reconnect
reconnect-bounded attempts id m random =
    let h =
      reconnect_loop-Bounded max_reconnect_attempts attempts reconnect_initial_delay id m random
        (omega arith, omega arith) in
    (h.count, h.ranges)

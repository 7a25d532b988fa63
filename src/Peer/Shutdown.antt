-- ===== src/Peer/Shutdown.antt =====
-- `closeAllConns` of daemon/peer/peer.go. The sockets are closed in parallel there, each without
-- regard to the others; here they are closed one after the other.
use sharing.Base.{
  ==_iff, ℕ, zero, suc, ◌≡◌, false, ◌||◌, arith, ◌==◌, if◌then◌else◌, ◌<◌, ◌∙◌, ltb, lt→ltb,
}
use sharing.Peer.State.{Manager}
use sharing.Peer.Conn.{close_with}

-- `websocket.StatusGoingAway`
abbrev status_going_away : ℕ
status_going_away = 1001

-- The socket `c` is closed, if it is still tracked.
unfoldable close_tracked : ℕ → Manager → Manager
close_tracked c m =
    if (m.sockets c).tracked then close_with c status_going_away "daemon shutting down" m else m

unfoldable close_below : ℕ → Manager → Manager
close_below zero m = m
close_below (suc n) m = close_below n (close_tracked n m)

-- `closeAllConns`
unfoldable pub close_all_conns : Manager → Manager
unfolding close_below close_tracked
close_all_conns m = close_below m.next_conn m

close_tracked-flags :
    (c n : ℕ) (m : Manager)
    → (((close_tracked n m).sockets c).tracked ≡ (if c == n then false else (m.sockets c).tracked))
      × (((close_tracked n m).sockets c).cancelled ≡ (
          if c == n
          then (m.sockets c).tracked || (m.sockets c).cancelled
          else (m.sockets c).cancelled))
unfolding close_tracked close_with
close_tracked-flags c n m = (ground (arith, ==_iff c n), ground (arith, ==_iff c n))

close_below-flags :
    (c n : ℕ) (m : Manager)
    → (((close_below n m).sockets c).tracked ≡ (if ltb c n then false else (m.sockets c).tracked))
      × (((close_below n m).sockets c).cancelled ≡ (
          if ltb c n
          then (m.sockets c).tracked || (m.sockets c).cancelled
          else (m.sockets c).cancelled))
unfolding close_below
close_below-flags c zero m = (ground arith, ground arith)
close_below-flags c (suc n) m =
    let h = close_below-flags c n (close_tracked n m) in
    let step = close_tracked-flags c n m in
    (h.0 ∙ ground (arith, step.0, ==_iff c n), h.1 ∙ ground (arith, step.0, step.1, ==_iff c n))

-- After `closeAllConns` no socket that was ever made is tracked, and exactly the sockets that were
-- tracked or cancelled before are cancelled.
pub close_all_conns-flags :
    (m : Manager) (c : ℕ)
    → c < m.next_conn
    → (((close_all_conns m).sockets c).tracked ≡ false)
      × (((close_all_conns m).sockets c).cancelled
          ≡ ((m.sockets c).tracked || (m.sockets c).cancelled))
unfolding close_all_conns
close_all_conns-flags m c h =
    let flags = close_below-flags c m.next_conn m in
    (ground (arith, flags.0, lt→ltb c m.next_conn), ground (arith, flags.1, lt→ltb c m.next_conn))

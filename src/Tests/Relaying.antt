-- ===== src/Tests/Relaying.antt =====
-- Signals, slots and unpairing between a laptop and a phone.
use sharing.Peer.Shutdown.{close_all_conns, close_all_conns-flags}
use sharing.Peer.Backoff.{InRange, reconnect-bounded}
use sharing.Peer.Reconnect.{Attempt, reconnect, max_reconnect_attempts}
use sharing.Base.{
  ℕ, ◌+◌, ◌≤◌, String, ◌≡◌, refl, true, false, ◌&&◌, none, some, str_eq, ltb, arith, if◌then◌else◌,
  ◌<◌, length, All, ◌||◌,
}
use sharing.Base.Int.{pos}
use sharing.Base.Dict.{get}
use sharing.Protocol.PeerMessages.{PeerSignal, new_peer_signal_ice, validate_peer_signal}
use sharing.Protocol.Wire.{marshal_peer_signal}
use sharing.Trust.Store.{is_paired, verify_token}
use sharing.Peer.State.{Manager, serving, assign}
use sharing.Peer.Conn.{enqueue}
use sharing.Peer.Registry.{live_conn, max_pending_handshakes}
use sharing.Peer.Frames.{Read, frame, failed, on_read}
use sharing.Peer.Listener.{handle_peer}
use sharing.Peer.Dialer.{ensure_conn}
use sharing.Peer.Relay.{relay_on, send_signal, forget}
use sharing.Peer.Delivery.{Heard, on_read-Heard}
use sharing.Peer.Sending.{IsSent, send_signal-IsSent}
use sharing.Peer.Slots.{is_upgraded, handle_peer-slots}
use sharing.Peer.Forgetting.{forget-forgets}
use sharing.Tests.Fixtures.{env, laptop, phone_store, socket_to, pairing_with, manager}

-- The phone is paired and connected, by the socket 0.
abbrev connected : Manager
connected =
    record (manager laptop phone_store (socket_to "phone" true serving) (pairing_with "" true)) {
      conns = assign (λ id. none) "phone" (some 0);
    }

abbrev candidate : String → PeerSignal
candidate from = new_peer_signal_ice from "candidate:1" "0" (pos 1)

abbrev incoming : Read
incoming = frame (marshal_peer_signal (candidate "phone"))

on_read-Heard_example : Heard 0 incoming connected (on_read 0 incoming connected)
on_read-Heard_example = on_read-Heard 0 incoming connected

sent : (send_signal env "phone" (candidate "") false failed connected).1 ≡ none
unfolding send_signal relay_on ensure_conn live_conn enqueue is_paired get validate_peer_signal
    new_peer_signal_ice
sent = refl

send_signal-IsSent_example :
    IsSent env "phone"
      (candidate "")
      false
      failed
      connected
      (send_signal env "phone" (candidate "") false failed connected).0
send_signal-IsSent_example =
    send_signal-IsSent env "phone" (candidate "") false failed connected sent

handle_peer-slots_example :
    (is_upgraded (handle_peer true "" "10.0.0.1:9" true connected).1
      ≡ (true && str_eq "" "" && ltb connected.handshakes max_pending_handshakes && true))
    × ((handle_peer true "" "10.0.0.1:9" true connected).0.handshakes ≡ (
        if is_upgraded (handle_peer true "" "10.0.0.1:9" true connected).1
        then connected.handshakes + 1
        else connected.handshakes))
    × ((handle_peer true "" "10.0.0.1:9" true connected).0.handshakes ≤ max_pending_handshakes)
handle_peer-slots_example = handle_peer-slots true "" "10.0.0.1:9" true connected (omega arith)

phone_registered :
    (c : ℕ) → connected.conns "phone" ≡ some c → (connected.sockets c).remote_id ≡ "phone"
phone_registered c e = refl

forget-forgets_example :
    ((j t : String)
      → verify_token (forget env "phone" connected).0.trust j t
        ≡ (if str_eq "phone" j then false else verify_token connected.trust j t))
    × ((forget env "phone" connected).0.conns "phone" ≡ none)
forget-forgets_example = forget-forgets env "phone" connected phone_registered refl

-- Every dial fails, and the jitter is none.
abbrev failing : ℕ → Attempt
failing i = record {
  int64_n = λ k. 0;
  cancelled = false;
  reached = false;
  read = failed;
  env = env;
}

failing_random : (i k : ℕ) → 0 < k → (failing i).int64_n k < k
failing_random i k h = h

-- The phone is paired and not connected, and its address is known.
abbrev known : Manager
known =
    record (manager laptop phone_store (socket_to "phone" true serving) (pairing_with "" true)) {
      addrs = assign (λ id. none) "phone" (some "192.168.1.7:8766");
    }

reconnect-bounded_example :
    (length (reconnect failing "phone" known).1 ≤ max_reconnect_attempts)
    × All InRange (reconnect failing "phone" known).1
reconnect-bounded_example = reconnect-bounded failing "phone" known failing_random

close_all_conns-flags_example :
    (((close_all_conns connected).sockets 0).tracked ≡ false)
    × (((close_all_conns connected).sockets 0).cancelled
        ≡ ((connected.sockets 0).tracked || (connected.sockets 0).cancelled))
close_all_conns-flags_example = close_all_conns-flags connected 0 (omega arith)

-- ===== src/Daemon.antt =====
-- What ties the parts together in daemon/cmd/daemon/main.go: the events of discovery reach the roster.
use sharing.Base.{ℕ, String, List, [], ◌∷◌}
use sharing.Discovery.Browser.{Event, event_add, event_update, event_remove}
use sharing.Server.Roster.{Roster, upsert_device, remove_device}
pub mod Following
pub mod Banner

-- The switch of `consumeDiscovery`; an `Event` has no other kind.
unfoldable pub consume_event : String → ℕ → Event → Roster → Roster
consume_event self_id now (event_add d) r = upsert_device self_id now d r
consume_event self_id now (event_update d) r = upsert_device self_id now d r
consume_event self_id now (event_remove d) r = remove_device now d.id r

-- The loop of `consumeDiscovery`, with the time at which each event is read from the channel.
unfoldable pub consume_discovery : String → List (ℕ × Event) → Roster → Roster
consume_discovery self_id [] r = r
consume_discovery self_id ((now, e) ∷ es) r =
    consume_discovery self_id es (consume_event self_id now e r)

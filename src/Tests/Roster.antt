-- ===== src/Tests/Roster.antt =====
-- The roster, with a tablet on the air and a phone that is paired.
use sharing.Base.{◌≡◌, [], ◌∷◌, ◌*◌, ◌+◌}
use sharing.Base.Dict.{get}
use sharing.Base.Sorting.{find}
use sharing.Base.Time.{second}
use sharing.Server.Roster.{sweep_devices}
use sharing.Server.Snapshot.{devices}
use sharing.Server.Invariant.{IsRoster}
use sharing.Server.Sweeping.{survivor, get-sweep_devices}
use sharing.Server.Listing.{id_of}
use sharing.Server.Shown.{seen_as, find-devices}
use sharing.Server.Debounce.{call_upsert, call_sweep, run_roster, new_roster, run_roster-IsRoster}
use sharing.Tests.Fixtures.{
  phone_store, phone-IsValid, tablet, tablet_roster, tablet-IsRoster, noon,
}

run_roster-IsRoster_example :
    IsRoster "laptop"
      (run_roster "laptop"
        ((noon, call_upsert tablet) ∷ (noon + second, call_sweep phone_store) ∷ [])
        new_roster).dev_by_id
run_roster-IsRoster_example =
    run_roster-IsRoster "laptop"
      ((noon, call_upsert tablet) ∷ (noon + second, call_sweep phone_store) ∷ [])

get-sweep_devices_example :
    get (sweep_devices phone_store (noon + 61 * second) tablet_roster).dev_by_id "tablet"
    ≡ survivor phone_store (noon + 61 * second) "tablet" (get tablet_roster.dev_by_id "tablet")
get-sweep_devices_example =
    get-sweep_devices "laptop" phone_store (noon + 61 * second) tablet_roster "tablet"
      tablet-IsRoster

find-devices_example :
    find id_of "phone" (devices phone_store noon tablet_roster)
    ≡ seen_as phone_store noon "phone"
        (get tablet_roster.dev_by_id "phone")
        (get phone_store.peers "phone")
find-devices_example =
    find-devices "laptop" phone_store noon tablet_roster tablet-IsRoster phone-IsValid "phone"

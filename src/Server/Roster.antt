-- ===== src/Server/Roster.antt =====
-- The device roster of daemon/server/devices.go. An operation is a function of the roster, the
-- clock, the id of this device and the trust store, which `New` never leaves nil.
use sharing.Base.{
  ℕ, ◌*◌, ◌+◌, ◌-◌, ◌/◌, String, Bool, true, false, not, ◌&&◌, ◌||◌, Option, none, some, List, [],
  ◌∷◌, length, ltb, leb, ◌==◌, str_eq, if◌then◌else◌,
}
use sharing.Base.Dict.{Dict, get, put, delete, is_some}
use sharing.Base.Time.{millisecond, second, unix_milli}
use sharing.Protocol.Constants.{device_online_ttl, status_online, status_offline, platform_unknown}
use sharing.Protocol.Types.{Device}
use sharing.Trust.Store.{TrustStore, paired_ids}

abbrev pub devices_debounce : ℕ
devices_debounce = 200 * millisecond

abbrev pub devices_max_delay : ℕ
devices_max_delay = 1500 * millisecond

abbrev pub device_drop_after : ℕ
device_drop_after = 2 * device_online_ttl

-- In milliseconds.
abbrev pub last_seen_epsilon : ℕ
last_seen_epsilon = 10 * second / millisecond

-- `timeMillis`
unfoldable pub time_millis : ℕ → ℕ
time_millis t = if t == 0 then 0 else unix_milli t

-- `staleAt`
unfoldable pub stale_at : ℕ → ℕ → Bool
stale_at last_seen now = ltb (last_seen + device_online_ttl / millisecond) now

-- `devByID`, `devTimer` with the time at which it fires, and `devWindow`.
pub record Roster : Type 0 where
  pub dev_by_id : Dict Device
  pub dev_timer : Option ℕ
  pub dev_window : ℕ

-- `normaliseDevice`; an empty id is refused by its callers.
unfoldable pub normalise_device : String → ℕ → Device → Device
normalise_device self_id now d =
    if str_eq d.id self_id
    then record {
      id = "";
      name = "";
      address = "";
      port = 0;
      platform = "";
      version = "";
      status = "";
      paired = false;
      last_seen = 0;
    }
    else record d {
      last_seen = if d.last_seen == 0 then unix_milli now else d.last_seen;
      status = if str_eq d.status "" then status_online else d.status;
      platform = if str_eq d.platform "" then platform_unknown else d.platform;
      name = if str_eq d.name "" then d.id else d.name;
      paired = false;
    }

-- `deviceChanged`
unfoldable pub device_changed : Device → Device → Bool
device_changed prev next =
    not (str_eq prev.name next.name)
    || not (str_eq prev.address next.address)
    || not (prev.port == next.port)
    || not (str_eq prev.platform next.platform)
    || not (str_eq prev.version next.version)
    || not (str_eq prev.status next.status)
    || leb last_seen_epsilon (next.last_seen - prev.last_seen)

-- `scheduleDevicesBroadcast`
unfoldable pub schedule_devices_broadcast : ℕ → Roster → Roster
schedule_devices_broadcast now r = elim r.dev_timer [
  | none ↦ record r { dev_window = now; dev_timer = some (now + devices_debounce) }
  | some deadline ↦
      if ltb (now - r.dev_window) devices_max_delay
      then record r { dev_timer = some (now + devices_debounce) }
      else r
]

-- The end of each operation: a push is scheduled if something changed.
unfoldable pub push_if : Bool → ℕ → Roster → Roster
push_if changed now r = if changed then schedule_devices_broadcast now r else r

-- The loop of `SetDevices` that builds the new map.
unfoldable pub normalise_all : String → ℕ → List Device → Dict Device → Dict Device
normalise_all self_id now [] next = next
normalise_all self_id now (d ∷ ds) next =
    let d' = normalise_device self_id now d in
    normalise_all self_id now ds (if str_eq d'.id "" then next else put next d'.id d')

-- Whether a sighting is new, or differs from what is stored.
unfoldable pub is_news : Option Device → Device → Bool
is_news none d = true
is_news (some prev) d = device_changed prev d

-- The loop of `SetDevices` that compares the maps.
unfoldable pub any_news : Dict Device → Dict Device → Bool
any_news old [] = false
any_news old ((id, d) ∷ next) = is_news (get old id) d || any_news old next

-- `SetDevices`
unfoldable pub set_devices : String → ℕ → List Device → Roster → Roster
set_devices self_id now ds r =
    let next = normalise_all self_id now ds [] in
    let changed = not (length next == length r.dev_by_id) || any_news r.dev_by_id next in
    push_if changed now (record r { dev_by_id = next })

-- The entry that `UpsertDevice` writes.
unfoldable pub upserted : Option Device → Device → Device
upserted none d = d
upserted (some prev) d =
    if device_changed prev d then d else record prev { last_seen = d.last_seen; status = d.status }

-- `UpsertDevice`
unfoldable pub upsert_device : String → ℕ → Device → Roster → Roster
upsert_device self_id now d r =
    let d' = normalise_device self_id now d in
    if str_eq d'.id ""
    then r
    else let prev = get r.dev_by_id d'.id in
      push_if (is_news prev d') now
        (record r { dev_by_id = put r.dev_by_id d'.id (upserted prev d') })

-- `RemoveDevice`
unfoldable pub remove_device : ℕ → String → Roster → Roster
remove_device now device_id r =
    if str_eq device_id ""
    then r
    else push_if (is_some (get r.dev_by_id device_id)) now
        (record r { dev_by_id = delete r.dev_by_id device_id })

-- `paired[id]` on the set that `PairedIDs` returns.
unfoldable pub mem : List String → String → Bool
mem [] k = false
mem (j ∷ js) k = str_eq j k || mem js k

-- Whether `SweepDevices` deletes an entry: it is not paired, and was last seen too long ago.
unfoldable pub drops : List String → ℕ → String → Device → Bool
drops paired now id d =
    not (mem paired id) && ltb (d.last_seen + device_drop_after / millisecond) now

-- Whether an entry that is kept goes offline.
unfoldable pub goes_offline : ℕ → Device → Bool
goes_offline now d = not (str_eq d.status status_offline) && stale_at d.last_seen now

-- What `SweepDevices` leaves of an entry.
unfoldable pub swept : List String → ℕ → String → Device → Option Device
swept paired now id d =
    if drops paired now id d
    then none
    else some (if goes_offline now d then record d { status = status_offline } else d)

-- The entry that the loop of `SweepDevices` leaves, if any, before the others.
unfoldable pub keep : String → Option Device → Dict Device → Dict Device
keep id none m = m
keep id (some d) m = (id, d) ∷ m

-- The loop of `SweepDevices`.
unfoldable pub sweep_entries : List String → ℕ → Dict Device → Dict Device × Bool
sweep_entries paired now [] = ([], false)
sweep_entries paired now ((id, d) ∷ m) =
    let (rest, changed) = sweep_entries paired now m in
    (keep id (swept paired now id d) rest, drops paired now id d || goes_offline now d || changed)

-- `SweepDevices`
unfoldable pub sweep_devices : TrustStore → ℕ → Roster → Roster
sweep_devices trust now r =
    let (m, changed) = sweep_entries (paired_ids trust) (unix_milli now) r.dev_by_id in
    push_if changed now (record r { dev_by_id = m })

-- `stopDeviceTimer`
unfoldable pub stop_device_timer : Roster → Roster
stop_device_timer r = record r { dev_timer = none }

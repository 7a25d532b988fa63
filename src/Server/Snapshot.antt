-- ===== src/Server/Snapshot.antt =====
-- What an extension sees of the roster: `Devices`, `device` and `knownDevice` of
-- daemon/server/devices.go.
use sharing.Base.{
  ℕ, String, Bool, true, false, not, ◌||◌, Option, none, some, List, [], ◌∷◌, ◌++◌, str_eq,
  if◌then◌else◌,
}
use sharing.Base.Dict.{Dict, get, values, is_some}
use sharing.Base.Sorting.{sort}
use sharing.Base.Text.{str_gt}
use sharing.Protocol.Constants.{status_offline, platform_unknown}
use sharing.Protocol.Types.{Device}
use sharing.Trust.Disk.{TrustedPeer}
use sharing.Trust.Store.{TrustStore, is_paired, paired_ids, list}
use sharing.Server.Roster.{Roster, time_millis, stale_at, mem}
use sharing.Base.Time.{unix_milli}

-- What `Devices` shows of an entry.
unfoldable pub stamped : List String → ℕ → String → Device → Device
stamped paired now id d = record d {
  paired = mem paired id;
  status = if stale_at d.last_seen now then status_offline else d.status;
}

-- The first loop of `Devices`.
unfoldable pub stamp_all : List String → ℕ → Dict Device → Dict Device
stamp_all paired now [] = []
stamp_all paired now ((id, d) ∷ m) = (id, stamped paired now id d) ∷ stamp_all paired now m

-- What `Devices` shows of a paired device that is not on the air.
unfoldable pub absent : TrustedPeer → Device
absent p = record {
  id = p.device_id;
  name = p.name;
  address = "";
  port = 0;
  platform = platform_unknown;
  version = "";
  status = status_offline;
  paired = true;
  last_seen = time_millis p.last_seen;
}

-- The second loop of `Devices`.
unfoldable pub add_absent : Dict Device → List TrustedPeer → List Device
add_absent seen [] = []
add_absent seen (p ∷ ps) =
    let rest = add_absent seen ps in
    if is_some (get seen p.device_id) then rest else absent p ∷ rest

-- The order of `Devices`: by name, then by id.
unfoldable pub device_less : Device → Device → Bool
device_less a b = if not (str_eq a.name b.name) then str_gt b.name a.name else str_gt b.id a.id

-- `Devices`
unfoldable pub devices : TrustStore → ℕ → Roster → List Device
devices trust now r =
    let paired = paired_ids trust in
    sort device_less (
      values (stamp_all paired (unix_milli now) r.dev_by_id) ++ add_absent r.dev_by_id (list trust))

-- `device`
unfoldable pub device : TrustStore → ℕ → String → Roster → Option Device
device trust now device_id r =
    if str_eq device_id "" then none else elim (get r.dev_by_id device_id) [
      | none ↦ none
      | some d ↦ some (record d {
        paired = is_paired trust device_id;
        status = if stale_at d.last_seen (unix_milli now) then status_offline else d.status;
      })
    ]

-- `knownDevice`
unfoldable pub known_device : TrustStore → String → Roster → Bool
known_device trust device_id r =
    if str_eq device_id ""
    then false
    else is_paired trust device_id || is_some (get r.dev_by_id device_id)

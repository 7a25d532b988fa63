-- ===== src/Trust/Order.antt =====
-- The two orders of daemon/config/trust.go.
use sharing.Base.{String, Bool, not, str_eq, if◌then◌else◌}
use sharing.Base.Text.{str_gt}
use sharing.Trust.Disk.{TrustedPeer}

-- The key of a record.
abbrev pub device_id_of : TrustedPeer → String
device_id_of p = p.device_id

-- `peers[i].DeviceID < peers[j].DeviceID`
unfoldable pub by_id : TrustedPeer → TrustedPeer → Bool
by_id p q = str_gt q.device_id p.device_id

-- The order of `List`: by name, then by device id.
unfoldable pub by_name : TrustedPeer → TrustedPeer → Bool
by_name p q =
    if not (str_eq p.name q.name) then str_gt q.name p.name else str_gt q.device_id p.device_id

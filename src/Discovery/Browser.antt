-- ===== src/Discovery/Browser.antt =====
-- What the browser remembers of each peer, and the events that it reports: `observe` and `sweep` of
-- daemon/discovery/browse.go.
use sharing.Base.{
  ℕ, ◌+◌, ◌-◌, ◌/◌, String, Bool, ◌&&◌, ◌||◌, not, Option, none, some, List, [], ◌∷◌, ltb, leb,
  ◌==◌, str_eq, if◌then◌else◌,
}
use sharing.Base.Dict.{Dict, get, put, delete}
use sharing.Base.Int.{ℤ, pos, negsuc}
use sharing.Base.Sorting.{sort}
use sharing.Base.Text.{str_gt}
use sharing.Base.Time.{unix_milli}
use sharing.Protocol.Constants.{device_online_ttl, status_offline, txt_key_id}
use sharing.Protocol.Types.{Device}
use sharing.Discovery.Txt.{parse_txt, field, is_self, device_from_txt}
use sharing.Discovery.Net.{Ip}
use sharing.Discovery.Address.{AddrPref, pick}

abbrev pub device_ttl : ℕ
device_ttl = device_online_ttl

abbrev pub emit_refresh_after : ℕ
emit_refresh_after = device_ttl / 3

-- `Event`, by its kind; the time of the event is the clock of the call.
pub data Event : Type 0 where
  event_add event_update event_remove : Device → Event

-- `zeroconf.ServiceEntry`, as far as it is read.
pub record ServiceEntry : Type 0 where
  pub text : List String
  pub port : ℤ
  pub addr_ipv4 : List Ip
  pub addr_ipv6 : List Ip

-- `sighting`
pub record Sighting : Type 0 where
  pub device : Device
  pub seen : ℕ
  pub emitted : ℕ

-- `browser`
pub record Browser : Type 0 where
  pub self_id : String
  pub known : Dict Sighting
  pub pref : AddrPref
  pub pref_at : ℕ
  pub refresh_every : ℕ

-- The guard on the port.
unfoldable pub usable_port : ℤ → Option ℕ
usable_port (pos n) = if n == 0 || ltb 65535 n then none else some n
usable_port (negsuc n) = none

-- The renewal of the local view; `fresh` is what `localAddrPref` returns now.
unfoldable pub refresh_pref : AddrPref → ℕ → Browser → Browser
refresh_pref fresh now b =
    if ltb 0 b.refresh_every && leb b.refresh_every (now - b.pref_at)
    then record b { pref = fresh; pref_at = now }
    else b

-- `changed` of `observe`.
unfoldable pub visibly_changed : Device → Device → Bool
visibly_changed prev dev =
    not (str_eq prev.address dev.address)
    || not (prev.port == dev.port)
    || not (str_eq prev.name dev.name)
    || not (str_eq prev.version dev.version)
    || not (str_eq prev.platform dev.platform)
    || not (str_eq prev.status dev.status)

-- The end of `observe`, when the device has been read, from what was known of it.
unfoldable pub fold_sighting :
    String → ℕ → Device → Option Sighting → Browser → Browser × Option Event
fold_sighting id now dev none b = (
  record b { known = put b.known id (record { device = dev; seen = now; emitted = now }) },
  some (event_add dev),
)
fold_sighting id now dev (some prev) b =
    if not (visibly_changed prev.device dev) && ltb (now - prev.emitted) emit_refresh_after
    then (
      record b {
        known = put b.known id (record { device = dev; seen = now; emitted = prev.emitted });
      },
      none,
    )
    else (
      record b { known = put b.known id (record { device = dev; seen = now; emitted = now }) },
      some (event_update dev),
    )

-- The middle of `observe`: the port is usable, and the address is chosen.
unfoldable pub observe_at :
    (Ip → String) → ℕ → ServiceEntry → String → ℕ → Browser → Browser × Option Event
observe_at ip_text now entry id port b = elim (pick b.pref entry.addr_ipv4 entry.addr_ipv6) [
  | none ↦ (b, none)
  | some addr ↦
      let dev = device_from_txt entry.text (ip_text addr) port (unix_milli now) in
      fold_sighting id now dev (get b.known id) b
]

-- `observe`; `ip_text` is `net.IP.String`, and a nil entry is not modelled.
unfoldable pub observe :
    (Ip → String) → AddrPref → ℕ → ServiceEntry → Browser → Browser × Option Event
observe ip_text fresh now entry b =
    if is_self entry.text b.self_id
    then (b, none)
    else let id = field (parse_txt entry.text) txt_key_id in
      if str_eq id "" then (b, none) else elim (usable_port entry.port) [
        | none ↦ (b, none)
        | some port ↦ observe_at ip_text now entry id port (refresh_pref fresh now b)
      ]

-- `now.Sub(s.seen) > DeviceTTL`
unfoldable pub is_expired : ℕ → Sighting → Bool
is_expired now s = ltb (s.seen + device_ttl) now

-- The first loop of `sweep`.
unfoldable pub expired_ids : ℕ → Dict Sighting → List String
expired_ids now [] = []
expired_ids now ((id, s) ∷ known) =
    let rest = expired_ids now known in if is_expired now s then id ∷ rest else rest

-- The order of `sort.Strings`.
abbrev pub text_less : String → String → Bool
text_less a b = str_gt b a

-- The second loop of `sweep`. Each id is one of the table, as it comes from it.
unfoldable pub retire : List String → Dict Sighting → Dict Sighting × List Event
retire [] known = (known, [])
retire (id ∷ ids) known = elim (get known id) [
  | none ↦ retire ids known
  | some s ↦
      let (left, events) = retire ids (delete known id) in
      (left, event_remove (record s.device { status = status_offline }) ∷ events)
]

-- `sweep`
unfoldable pub sweep : ℕ → Browser → Browser × List Event
sweep now b =
    let (left, events) = retire (sort text_less (expired_ids now b.known)) b.known in
    (record b { known = left }, events)

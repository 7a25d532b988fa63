-- ===== src/Discovery/Txt.antt =====
-- The identity that a daemon publishes: the TXT record, the device that it is read as and the name of
-- the instance, of daemon/discovery/mdns.go.
use Prim.Native.String.{◌++◌}
use sharing.Base.{
  ℕ, String, Bool, false, ◌||◌, Option, none, some, List, [], ◌∷◌, str_eq, if◌then◌else◌,
}
use sharing.Base.Dict.{Dict, get, put, is_some}
use sharing.Protocol.Constants.{
  app_version, platform_windows, platform_darwin, platform_linux, platform_unknown, status_online,
  txt_key_id, txt_key_name, txt_key_version, txt_key_protocol, txt_key_platform,
}
use sharing.Protocol.Types.{Device, SelfDevice}
use sharing.Peer.Addr.{cut, itoa}

-- `TXTRecord`; the protocol's version is 2.
unfoldable pub txt_record : SelfDevice → List String
txt_record self =
    let platform = if str_eq self.platform "" then platform_unknown else self.platform in
    let version = if str_eq self.version "" then app_version else self.version in
    (txt_key_id ++ "=" ++ self.id)
    ∷ (txt_key_name ++ "=" ++ self.name)
    ∷ (txt_key_version ++ "=" ++ version)
    ∷ (txt_key_protocol ++ "=" ++ itoa 2)
    ∷ (txt_key_platform ++ "=" ++ platform)
    ∷ []

-- What the loop of `parseTXT` does with one text that has the key and the value.
unfoldable pub parse_pair : String → Option String → Dict String → Dict String
parse_pair key none fields = fields
parse_pair key (some value) fields =
    if str_eq key "" || is_some (get fields key) then fields else put fields key value

-- The loop of `parseTXT`.
unfoldable pub parse_all : List String → Dict String → Dict String
parse_all [] fields = fields
parse_all (kv ∷ txt) fields =
    let (key, value) = cut b'=' kv in parse_all txt (parse_pair key value fields)

-- `parseTXT`
unfoldable pub parse_txt : List String → Dict String
parse_txt txt = parse_all txt []

-- `fields[key]`, which is the empty text for a missing key.
abbrev pub field : Dict String → String → String
field fields key = elim (get fields key) [ none ↦ "" | some value ↦ value ]

-- The `switch` of `DeviceFromTXT`.
unfoldable pub known_platform : String → String
known_platform platform =
    if str_eq platform platform_windows
      || str_eq platform platform_darwin
      || str_eq platform platform_linux
    then platform
    else platform_unknown

-- `DeviceFromTXT`, with the text of the address, empty where the address is nil.
unfoldable pub device_from_txt : List String → String → ℕ → ℕ → Device
device_from_txt txt address port last_seen =
    let fields = parse_txt txt in
    record {
      id = field fields txt_key_id;
      name = field fields txt_key_name;
      address = address;
      port = port;
      platform = known_platform (field fields txt_key_platform);
      version = field fields txt_key_version;
      status = status_online;
      paired = false;
      last_seen = last_seen;
    }

-- `isSelf`
unfoldable pub is_self : List String → String → Bool
is_self txt self_id =
    if str_eq self_id "" then false else str_eq (field (parse_txt txt) txt_key_id) self_id

-- ===== src/Config.antt =====
-- The identity of the daemon: `Config` of daemon/config/config.go, with its file. JSON encoding and
-- decoding of a `Config` are taken to be inverse to one another; uuid.Validate is an argument, as are
-- the clock, what os.Hostname gives, and which system calls fail.
use sharing.Base.{
  ℕ, String, Bool, true, false, not, ◌&&◌, ◌||◌, Option, none, some, ◌==◌, str_eq, if◌then◌else◌,
}
use sharing.Base.Time.{second, truncate}
use sharing.Protocol.Constants.{
  app_version, platform_windows, platform_darwin, platform_linux, platform_unknown,
}
use sharing.Protocol.Types.{SelfDevice}
pub mod Repair
pub mod Stability

-- `Config`
pub record Config : Type 0 where
  pub device_id : String
  pub name : String
  pub created_at : ℕ

-- What a file holds; `garbled` is what json.Unmarshal refuses.
pub data ConfigFile : Type 0 where
  garbled : ConfigFile
  complete : Config → ConfigFile

-- config.json and config.json.tmp.
pub record ConfigDisk : Type 0 where
  pub file : Option ConfigFile
  pub temp : Option ConfigFile

-- The system calls of `Load` and `Save`.
pub data ConfigCall : Type 0 where
  find_dir read_file make_dir write_file rename_file remove_temp set_mode : ConfigCall

-- What `Load` takes from outside. `new_uuid` is what uuid.NewString returns.
pub record ConfigEnv : Type 0 where
  pub now : ℕ
  pub new_uuid : String
  pub valid_uuid : String → Bool
  pub hostname : Option String
  pub fails : ConfigCall → Bool

-- `Save`, with the call that failed, if any. A failed write may have left any part of the data.
unfoldable pub save : (ConfigCall → Bool) → Config → ConfigDisk → ConfigDisk × Option ConfigCall
save fails cfg d =
    if fails find_dir
    then (d, some find_dir)
    else if fails make_dir
    then (d, some make_dir)
    else if fails write_file
    then (record d { temp = some garbled }, some write_file)
    else if fails rename_file
    then (
      record d { temp = if fails remove_temp then some (complete cfg) else none },
      some rename_file,
    )
    else let d' = record d { file = some (complete cfg); temp = none } in
      (d', if fails set_mode then some set_mode else none)

-- `read`; `none` is any of its errors, all of which `Load` treats alike but for the log.
unfoldable pub read_config : Bool → Option ConfigFile → Option Config
read_config unreadable none = none
read_config unreadable (some garbled) = none
read_config unreadable (some (complete cfg)) = if unreadable then none else some cfg

-- `defaultName`
unfoldable pub default_name : Option String → String
default_name none = "Sharing Device"
default_name (some host) = if str_eq host "" then "Sharing Device" else host

-- The time of creation that `Load` gives.
abbrev pub created : ConfigEnv → ℕ
created env = truncate env.now second

-- What `Load` begins with.
unfoldable pub loaded : ConfigEnv → ConfigDisk → Config × Bool
loaded env d = elim (read_config (env.fails read_file) d.file) [
  | none ↦ (record { device_id = ""; name = ""; created_at = created env }, true)
  | some cfg ↦ (cfg, false)
]

-- The repair of the id, with the flag `dirty`.
unfoldable pub repair_id : ConfigEnv → Config × Bool → Config × Bool
repair_id env (cfg, dirty) =
    if str_eq cfg.device_id "" || not (env.valid_uuid cfg.device_id)
    then (record cfg { device_id = env.new_uuid }, true)
    else (cfg, dirty)

-- The name that was asked for.
unfoldable pub override_name : String → Config × Bool → Config × Bool
override_name name (cfg, dirty) =
    if not (str_eq name "") && not (str_eq name cfg.name)
    then (record cfg { name = name }, true)
    else (cfg, dirty)

-- The repair of the name.
unfoldable pub repair_name : ConfigEnv → Config × Bool → Config × Bool
repair_name env (cfg, dirty) =
    if str_eq cfg.name ""
    then (record cfg { name = default_name env.hostname }, true)
    else (cfg, dirty)

-- The repair of the time of creation.
unfoldable pub repair_created : ConfigEnv → Config × Bool → Config × Bool
repair_created env (cfg, dirty) =
    if cfg.created_at == 0 then (record cfg { created_at = created env }, true) else (cfg, dirty)

-- The configuration that `Load` arrives at, and whether it is to be written.
unfoldable pub repaired : ConfigEnv → String → ConfigDisk → Config × Bool
repaired env name d =
    repair_created env (repair_name env (override_name name (repair_id env (loaded env d))))

-- The end of `Load`: the configuration is written, if it has changed.
unfoldable pub keep_config : ConfigEnv → Config × Bool → ConfigDisk → ConfigDisk × Option Config
keep_config env (cfg, false) d = (d, some cfg)
keep_config env (cfg, true) d =
    let (d', failed) = save env.fails cfg d in
    (d', elim failed [ none ↦ some cfg | some call ↦ none ])

-- `Load`, with the name of the flag --name; `none` is an error.
unfoldable pub load : ConfigEnv → String → ConfigDisk → ConfigDisk × Option Config
load env name d = if env.fails find_dir then (d, none) else keep_config env (repaired env name d) d

-- `Platform`
unfoldable pub platform : String → String
platform goos =
    if str_eq goos "windows"
    then platform_windows
    else if str_eq goos "darwin"
    then platform_darwin
    else if str_eq goos "linux"
    then platform_linux
    else platform_unknown

-- `SelfDevice`
unfoldable pub self_device : String → Config → SelfDevice
self_device goos cfg = record {
  id = cfg.device_id;
  name = cfg.name;
  version = app_version;
  platform = platform goos;
}

-- ===== src/Tests/Configuration.antt =====
-- Two starts of a daemon, the first of which finds a garbled file.
use sharing.Protocol.Types.{SelfDevice}
use sharing.Discovery.Instance.{instance_name, size}
use sharing.Daemon.Banner.{mdns_instance_name, is_clean, mdns_instance_name-eq-instance_name}
use sharing.Base.{◌≡◌, refl, false, none, some, str_eq, arith, true}
use sharing.Config.{
  Config, ConfigDisk, garbled, ConfigEnv, save, load, loaded, read_config, repaired, repair_id,
  override_name, repair_name, repair_created, keep_config,
}
use sharing.Config.Repair.{IsComplete}
use sharing.Config.Stability.{load-stable}
use sharing.Tests.Fixtures.{noon}

abbrev first_start : ConfigEnv
first_start = record {
  now = noon;
  new_uuid = "9ca55654-0000-4000-8000-000000000000";
  valid_uuid = λ s. str_eq s "9ca55654-0000-4000-8000-000000000000";
  hostname = none;
  fails = λ call. false;
}

abbrev next_start : ConfigEnv
next_start = record first_start { new_uuid = "another" }

abbrev garbled_disk : ConfigDisk
garbled_disk = record { file = some garbled; temp = none }

abbrev generated : Config
generated = record {
  device_id = "9ca55654-0000-4000-8000-000000000000";
  name = "Laptop";
  created_at = 63900000000000000000;
}

first_loaded : (load first_start "Laptop" garbled_disk).1 ≡ some generated
unfolding load loaded read_config repaired repair_id override_name repair_name repair_created
    keep_config save
first_loaded = refl

load-stable_example :
    IsComplete first_start.valid_uuid generated
    × (load next_start "" (load first_start "Laptop" garbled_disk).0
        ≡ ((load first_start "Laptop" garbled_disk).0, some generated))
load-stable_example =
    load-stable first_start next_start "Laptop" garbled_disk generated refl refl (omega arith)
      first_loaded refl refl refl

-- A device as `Load` generates it.
abbrev named : SelfDevice
named = record {
  id = "9ca55654-0000-4000-8000-000000000000";
  name = "Ada's laptop";
  version = "1.0.0";
  platform = "linux";
}

uuid_clean : is_clean true named.id ≡ true
uuid_clean = refl

mdns_instance_name-eq-instance_name_example :
    mdns_instance_name named.name named.id ≡ instance_name named
unfolding size
mdns_instance_name-eq-instance_name_example =
    mdns_instance_name-eq-instance_name named uuid_clean (omega arith)

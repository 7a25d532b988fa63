-- ===== src/Server/Sweeping.antt =====
-- What the ageing of the roster keeps and drops: `SweepDevices` of daemon/server/devices.go.
use sharing.Base.{
  ℕ, ◌+◌, ◌&&◌, String, ◌≡◌, refl, Bool, true, false, not, Option, none, some, List, [], ◌∷◌,
  str_eq, arith, eq_iff, ap, if◌then◌else◌, Bool-cases, inl, inr, ◌∙◌, ltb,
}
use sharing.Base.Dict
use sharing.Base.Dict.{Dict, get, IsMap, keys, is_some}
use sharing.Protocol.Constants.{status_offline}
use sharing.Protocol.Types.{Device}
use sharing.Trust.Store.{TrustStore, paired_ids, is_paired}
use sharing.Server.Roster.{
  Roster, sweep_devices, sweep_entries, swept, keep, mem, stale_at, drops, goes_offline,
}
use sharing.Base.Time.{unix_milli}
use sharing.Server.Invariant.{IsShown, IsRoster, dev_by_id-push_if}

-- The set of paired ids has the ids of the trust store.
mem-keys : {V : Type 0} (m : Dict V) (k : String) → mem (keys m) k ≡ is_some (get m k)
unfolding mem keys get
mem-keys [] k = refl
mem-keys ((j, v) ∷ m) k = ground (arith, mem-keys m k)

pub mem-paired_ids :
    (trust : TrustStore) (k : String) → mem (paired_ids trust) k ≡ is_paired trust k
unfolding paired_ids is_paired
mem-paired_ids trust k = mem-keys trust.peers k

abbrev sweep_option : List String → ℕ → String → Option Device → Option Device
sweep_option paired now k none = none
sweep_option paired now k (some d) = swept paired now k d

get-keep :
    (j : String) (o : Option Device) (m : Dict Device) (k : String)
    → get m j ≡ none
    → get (keep j o m) k ≡ (if str_eq j k then o else get m k)
unfolding keep get
get-keep j none m k h = ground (arith, eq_iff j k)
get-keep j (some d) m k h = refl

get-sweep_entries :
    (paired : List String) (now : ℕ) (m : Dict Device) (k : String)
    → IsMap m
    → get (sweep_entries paired now m).0 k ≡ sweep_option paired now k (get m k)
unfolding sweep_entries get
get-sweep_entries paired now [] k u = refl
get-sweep_entries paired now ((j, d) ∷ m) k u =
    let rest = (sweep_entries paired now m).0 in
    let fresh : get rest j ≡ none = get-sweep_entries paired now m j u.1 ∙ rw u.0 in
    rw (get-keep j (swept paired now j d) rest k fresh) (elim (Bool-cases (str_eq j k)) [
      | inl e ↦ rw e (ap (λ i. swept paired now i d) ((eq_iff j k).0 e))
      | inr e ↦ rw e (get-sweep_entries paired now m k u.1)
    ])

module _ (self_id : String) (paired : List String) (now : ℕ) where
  keep_offline :
      (k : String) (d : Device) (b : Bool)
      → IsShown self_id k d
      → IsShown self_id k (if b then record d { status = status_offline } else d)
  keep_offline k d true s = record {
    keyed = s.keyed;
    identified = s.identified;
    foreign = s.foreign;
    named = s.named;
    placed = s.placed;
    rated = refl;
    unstamped = s.unstamped;
  }
  keep_offline k d false s = s

  keep-All :
      (k : String) (d : Device) (m : Dict Device)
      → IsShown self_id k d
      → Dict.All (IsShown self_id) m
      → Dict.All (IsShown self_id) (keep k (swept paired now k d) m)
  unfolding keep swept
  keep-All k d m s h = elim (Bool-cases (drops paired now k d)) [
    | inl e ↦ rw e h
    | inr e ↦ rw e (keep_offline k d (goes_offline now d) s, h)
  ]

  keep-IsMap :
      (k : String) (o : Option Device) (m : Dict Device)
      → get m k ≡ none
      → IsMap m
      → IsMap (keep k o m)
  unfolding keep
  keep-IsMap k none m h u = u
  keep-IsMap k (some d) m h u = (h, u)

  sweep_entries-IsRoster :
      (m : Dict Device) → IsRoster self_id m → IsRoster self_id (sweep_entries paired now m).0
  unfolding sweep_entries
  sweep_entries-IsRoster [] v = v
  sweep_entries-IsRoster ((j, d) ∷ m) v =
      let w = sweep_entries-IsRoster m (record { is_map = v.is_map.1; shown = v.shown.1 }) in
      let rest = (sweep_entries paired now m).0 in
      record {
        is_map =
            keep-IsMap j (swept paired now j d) rest
              (get-sweep_entries paired now m j v.is_map.1 ∙ rw v.is_map.0) w.is_map;
        shown = keep-All j d rest v.shown.0 w.shown;
      }

pub sweep_devices-IsRoster :
    (self_id : String) (trust : TrustStore) (now : ℕ) (r : Roster)
    → IsRoster self_id r.dev_by_id
    → IsRoster self_id (sweep_devices trust now r).dev_by_id
unfolding sweep_devices
sweep_devices-IsRoster self_id trust now r v =
    rw dev_by_id-push_if
      (sweep_entries-IsRoster self_id (paired_ids trust) (unix_milli now) r.dev_by_id v)

-- What a sweep leaves of the entry of a device.
abbrev pub survivor : TrustStore → ℕ → String → Option Device → Option Device
survivor trust now k none = none
survivor trust now k (some d) =
    if not (is_paired trust k) && ltb (d.last_seen + 60000) (unix_milli now)
    then none
    else some (
        if ltb (d.last_seen + 30000) (unix_milli now)
        then record d { status = status_offline }
        else d)

survivor_lem :
    (trust : TrustStore) (now : ℕ) (k : String) (o : Option Device)
    → sweep_option (paired_ids trust) (unix_milli now) k o ≡ survivor trust now k o
unfolding swept drops goes_offline stale_at
survivor_lem trust now k none = refl
survivor_lem trust now k (some d) =
    rw mem-paired_ids (ground (arith, eq_iff d.status status_offline))

-- A sweep drops exactly the devices that are not paired and were last seen more than 60 seconds ago
-- (30 seconds after they went stale), so never a paired one, and marks exactly the others that were
-- last seen more than 30 seconds ago as offline; all else stays as it was.
pub get-sweep_devices :
    (self_id : String) (trust : TrustStore) (now : ℕ) (r : Roster) (k : String)
    → IsRoster self_id r.dev_by_id
    → get (sweep_devices trust now r).dev_by_id k ≡ survivor trust now k (get r.dev_by_id k)
unfolding sweep_devices
get-sweep_devices self_id trust now r k v =
    rw
      (
        dev_by_id-push_if,
        get-sweep_entries (paired_ids trust) (unix_milli now) r.dev_by_id k v.is_map,
      )
      (survivor_lem trust now k (get r.dev_by_id k))

-- ===== src/Server/Shown.antt =====
-- What the list that the extension shows has in it: `Devices` of daemon/server/devices.go.
use sharing.Base.{
  ℕ, ◌+◌, ◌==◌, ltb, String, ◌≡◌, refl, true, false, Option, none, some, List, [], ◌∷◌, ◌++◌, arith,
  eq_iff, if◌then◌else◌, ◌∙◌, sym, ap, All, Option-cases, inl, inr,
}
use mathlib.Core.Path.{subst}
use sharing.Base.Dict
use sharing.Base.Dict.{Dict, get, IsMap, values, All-of_get, All-get}
use sharing.Base.Sorting.{
  find, IsSorted, Distinct, orelse, find-sort, sort-Distinct, sort-IsSorted, find-append,
  append-Distinct, find-values, values-Distinct,
}
use sharing.Base.Text.{str_gt_asymm}
use sharing.Protocol.Types.{Device}
use sharing.Trust.Disk.{TrustedPeer}
use sharing.Trust.Order.{by_name, device_id_of}
use sharing.Trust.Store.{TrustStore, paired_ids, is_paired, list}
use sharing.Trust.Invariant.{IsValid}
use sharing.Trust.Persistence.{usable-keyed}
use sharing.Server.Roster.{Roster, stale_at, time_millis}
use sharing.Base.Time.{unix_milli}
use sharing.Server.Snapshot.{stamped, stamp_all, absent, add_absent, device_less, devices}
use sharing.Server.Invariant.{IsShown, IsRoster}
use sharing.Server.Sweeping.{mem-paired_ids}
use sharing.Server.Listing.{
  id_of, stamp_option, get-stamp_all, stamp_all-IsMap, stamp_all-All, absent_option,
  find-add_absent, add_absent-Distinct,
}

-- What the extension sees of a device, from the roster and the trust store.
abbrev pub seen_as : TrustStore → ℕ → String → Option Device → Option TrustedPeer → Option Device
seen_as trust now k none none = none
seen_as trust now k none (some p) = some (record {
  id = p.device_id;
  name = p.name;
  address = "";
  port = 0;
  platform = "unknown";
  version = "";
  status = "offline";
  paired = true;
  last_seen = if p.last_seen == 0 then 0 else unix_milli p.last_seen;
})
seen_as trust now k (some d) p = some (record d {
  paired = is_paired trust k;
  status = if ltb (d.last_seen + 30000) (unix_milli now) then "offline" else d.status;
})

seen_as_lem :
    (trust : TrustStore) (now : ℕ) (k : String) (o : Option Device) (p : Option TrustedPeer)
    → orelse (absent_option o p) (stamp_option (paired_ids trust) (unix_milli now) k o)
      ≡ seen_as trust now k o p
unfolding stamped stale_at absent time_millis
seen_as_lem trust now k none none = refl
seen_as_lem trust now k none (some p) = refl
seen_as_lem trust now k (some d) p = rw mem-paired_ids

device_less_asymm : (a b : Device) → device_less a b ≡ true → device_less b a ≡ false
unfolding device_less
device_less_asymm a b h = ground (
  arith,
  eq_iff a.name b.name,
  eq_iff b.name a.name,
  str_gt_asymm b.name a.name,
  str_gt_asymm b.id a.id,
)

-- The trust store has each device once.
list-Distinct : (trust : TrustStore) → IsValid trust.peers → Distinct device_id_of (list trust)
unfolding list
list-Distinct trust v =
    sort-Distinct by_name device_id_of (values trust.peers)
      (values-Distinct device_id_of trust.peers v.is_map (usable-keyed trust.peers v.usable))

find-list :
    (trust : TrustStore) (k : String)
    → IsValid trust.peers
    → find device_id_of k (list trust) ≡ get trust.peers k
unfolding list
find-list trust k v =
    let keyed = usable-keyed trust.peers v.usable in
    find-sort by_name device_id_of (values trust.peers) k
      (values-Distinct device_id_of trust.peers v.is_map keyed)
    ∙ find-values device_id_of trust.peers k v.is_map keyed

-- The values of a map have what its entries have.
values-All :
    (P : String → Device → Type 0) (m : Dict Device)
    → Dict.All P m
    → Dict.All (λ k d. d.id ≡ k) m
    → All (λ d. P d.id d) (values m)
unfolding values
values-All P [] h e = tt
values-All P ((k, d) ∷ m) h e = (subst (λ i. P i d) (sym e.0) h.0, values-All P m h.1 e.1)

module _ (self_id : String) (trust : TrustStore) (now : ℕ) (r : Roster)
    (v : IsRoster self_id r.dev_by_id) (w : IsValid trust.peers) where
  abbrev shown : Dict Device
  shown = stamp_all (paired_ids trust) (unix_milli now) r.dev_by_id

  shown-keyed : Dict.All (λ k d. d.id ≡ k) shown
  shown-keyed =
      stamp_all-All (paired_ids trust) (unix_milli now) (λ k d. d.id ≡ k)
        (λ k d h. unfold stamped in h) r.dev_by_id
        (All-of_get (λ k d. d.id ≡ k) r.dev_by_id v.is_map
          (λ k d e. (All-get (IsShown self_id) r.dev_by_id k d v.shown e).keyed))

  abbrev missing : List Device
  missing = add_absent r.dev_by_id (list trust)

  find-missing :
      (k : String) → find id_of k missing ≡ absent_option (get r.dev_by_id k) (get trust.peers k)
  find-missing k = find-add_absent r.dev_by_id (list trust) k ∙ rw (find-list trust k w)

  shown-IsMap : IsMap shown
  shown-IsMap = stamp_all-IsMap (paired_ids trust) (unix_milli now) r.dev_by_id v.is_map

  disjoint_lem :
      (k : String) (d : Device)
      → get shown k ≡ some d
      → absent_option (get r.dev_by_id k) (get trust.peers k) ≡ none
  disjoint_lem k d e = elim (Option-cases (get r.dev_by_id k)) [
    | inl q ↦ cc (
      e,
      get-stamp_all (paired_ids trust) (unix_milli now) r.dev_by_id k,
      ap (stamp_option (paired_ids trust) (unix_milli now) k) q,
    )
    | inr (c, q) ↦ rw q
  ]

  -- No device comes from both loops.
  disjoint : All (λ d. find id_of d.id missing ≡ none) (values shown)
  disjoint =
      values-All (λ k d. find id_of k missing ≡ none) shown
        (All-of_get (λ k d. find id_of k missing ≡ none) shown shown-IsMap
          (λ k d e. find-missing k ∙ disjoint_lem k d e))
        shown-keyed

  entries-Distinct : Distinct id_of (values shown ++ missing)
  entries-Distinct =
      append-Distinct id_of (values shown) missing disjoint
        (values-Distinct id_of shown shown-IsMap shown-keyed)
        (add_absent-Distinct r.dev_by_id (list trust) (list-Distinct trust w))

  -- The list that the extension shows has each device of the roster, and each paired device that is
  -- not in the roster as an offline one without an address, and no other. A device of the roster is
  -- marked as paired exactly if the trust store has it, whatever the roster says; it is offline if it
  -- was last seen more than 30 seconds ago, and has the status that the roster holds otherwise.
  pub find-devices :
      (k : String)
      → find id_of k (devices trust now r)
        ≡ seen_as trust now k (get r.dev_by_id k) (get trust.peers k)
  unfolding devices
  find-devices k =
      find-sort device_less id_of (values shown ++ missing) k entries-Distinct
      ∙ find-append id_of (values shown) missing k
      ∙ rw
          (
            find-missing,
            find-values id_of shown k shown-IsMap shown-keyed,
            get-stamp_all (paired_ids trust) (unix_milli now) r.dev_by_id k,
          )
          (seen_as_lem trust now k (get r.dev_by_id k) (get trust.peers k))

  -- The list has no device twice, and is sorted by name, then by id.
  devices-Distinct-IsSorted :
      Distinct id_of (devices trust now r) × IsSorted device_less (devices trust now r)
  unfolding devices
  devices-Distinct-IsSorted = (
    sort-Distinct device_less id_of (values shown ++ missing) entries-Distinct,
    sort-IsSorted device_less device_less_asymm (values shown ++ missing),
  )

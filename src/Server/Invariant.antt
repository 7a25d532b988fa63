-- ===== src/Server/Invariant.antt =====
-- What holds of the roster of daemon/server/devices.go between two calls.
use sharing.Base.{
  ℕ, String, ◌≡◌, refl, Bool, false, some, List, [], ◌∷◌, str_eq, arith, eq_iff, if◌then◌else◌,
  Bool-cases, Option-cases, sym, ◌∙◌, inl, inr,
}
use sharing.Base.Dict
use sharing.Base.Dict.{
  Dict, get, put, delete, IsMap, put-IsMap, delete-IsMap, All-put, All-delete, All-get, get-put,
  get-delete,
}
use sharing.Protocol.Constants.{platform_unknown, status_online}
use sharing.Protocol.Types.{Device}
use sharing.Server.Roster.{
  Roster, normalise_device, normalise_all, device_changed, upserted, schedule_devices_broadcast,
  push_if, set_devices, upsert_device, remove_device,
}

-- A device that may stand under the id: it is another one than this, it has a name, a platform and a
-- status, and it is not marked as paired.
pub record IsShown (self_id id : String) (d : Device) : Type 0 where
  pub keyed : d.id ≡ id
  pub identified : str_eq id "" ≡ false
  pub foreign : str_eq id self_id ≡ false
  pub named : str_eq d.name "" ≡ false
  pub placed : str_eq d.platform "" ≡ false
  pub rated : str_eq d.status "" ≡ false
  pub unstamped : d.paired ≡ false

pub record IsRoster (self_id : String) (m : Dict Device) : Type 0 where
  pub is_map : IsMap m
  pub shown : Dict.All (IsShown self_id) m

-- A field with a default is not empty.
defaulted : (s t : String) → str_eq t "" ≡ false → str_eq (if str_eq s "" then t else s) "" ≡ false
defaulted s t h = elim (Bool-cases (str_eq s "")) [ inl e ↦ rw e h | inr e ↦ rw e e ]

pub normalise_device-IsShown :
    (self_id : String) (now : ℕ) (d : Device)
    → str_eq (normalise_device self_id now d).id "" ≡ false
    → IsShown self_id (normalise_device self_id now d).id (normalise_device self_id now d)
unfolding normalise_device
normalise_device-IsShown self_id now d h = elim (Bool-cases (str_eq d.id self_id)) [
  | inl e ↦ cc (rw (e, normalise_device) at h)
  | inr e ↦
      rw (e, normalise_device)
        (record {
          keyed = refl;
          identified = rw (e, normalise_device) at h;
          foreign = e;
          named = defaulted d.name d.id (rw (e, normalise_device) at h);
          placed = defaulted d.platform platform_unknown refl;
          rated = defaulted d.status status_online refl;
          unstamped = refl;
        })
]

pub dev_by_id-push_if :
    (changed : Bool) (now : ℕ) (r : Roster) → (push_if changed now r).dev_by_id ≡ r.dev_by_id
unfolding push_if schedule_devices_broadcast
dev_by_id-push_if changed now r = ground arith

module _ (self_id : String) (m : Dict Device) (v : IsRoster self_id m) where
  put-IsRoster : (k : String) (d : Device) → IsShown self_id k d → IsRoster self_id (put m k d)
  put-IsRoster k d s = record {
    is_map = put-IsMap m k d v.is_map;
    shown = All-put (IsShown self_id) m k d v.shown s;
  }

  delete-IsRoster : (k : String) → IsRoster self_id (delete m k)
  delete-IsRoster k = record {
    is_map = delete-IsMap m k v.is_map;
    shown = All-delete (IsShown self_id) m k v.shown;
  }

pub empty-IsRoster : (self_id : String) → IsRoster self_id []
empty-IsRoster self_id = record { is_map = tt; shown = tt }

normalise_all-IsRoster :
    (self_id : String) (now : ℕ) (ds : List Device) (next : Dict Device)
    → IsRoster self_id next
    → IsRoster self_id (normalise_all self_id now ds next)
unfolding normalise_all
normalise_all-IsRoster self_id now [] next v = v
normalise_all-IsRoster self_id now (d ∷ ds) next v =
    let d' = normalise_device self_id now d in
    normalise_all-IsRoster self_id now ds _ (elim (Bool-cases (str_eq d'.id "")) [
      | inl e ↦ rw e v
      | inr e ↦
          rw e (put-IsRoster self_id next v d'.id d' (normalise_device-IsShown self_id now d e))
    ])

-- A sighting that is no news is already stored, up to its time.
same_device :
    (p d : Device)
    → p.id ≡ d.id
    → p.paired ≡ d.paired
    → device_changed p d ≡ false
    → record p { last_seen = d.last_seen; status = d.status } ≡ d
unfolding device_changed
same_device p d i q h = ground (
  arith,
  eq_iff p.name d.name,
  eq_iff p.address d.address,
  eq_iff p.platform d.platform,
  eq_iff p.version d.version,
)

-- Whichever branch `UpsertDevice` takes, the sighting itself is what it stores.
pub upserted_lem :
    (self_id k : String) (m : Dict Device) (d : Device)
    → IsRoster self_id m
    → IsShown self_id k d
    → upserted (get m k) d ≡ d
unfolding upserted
upserted_lem self_id k m d v s = elim (Option-cases (get m k)) [
  | inl e ↦ rw (e, upserted)
  | inr (p, e) ↦ elim (Bool-cases (device_changed p d)) [
    | inl c ↦ rw (e, upserted) (rw c)
    | inr c ↦
        let u = All-get (IsShown self_id) m k p v.shown e in
        rw (e, upserted)
          (rw c (same_device p d (u.keyed ∙ sym s.keyed) (u.unstamped ∙ sym s.unstamped) c))
  ]
]

module _ (self_id : String) (now : ℕ) (r : Roster) where
  pub set_devices-IsRoster :
      (ds : List Device) → IsRoster self_id (set_devices self_id now ds r).dev_by_id
  unfolding set_devices
  set_devices-IsRoster ds =
      rw dev_by_id-push_if (normalise_all-IsRoster self_id now ds [] (empty-IsRoster self_id))

  pub upsert_device-IsRoster :
      (d : Device)
      → IsRoster self_id r.dev_by_id
      → IsRoster self_id (upsert_device self_id now d r).dev_by_id
  unfolding upsert_device
  upsert_device-IsRoster d v =
      let d' = normalise_device self_id now d in
      elim (Bool-cases (str_eq d'.id "")) [
        | inl e ↦ rw e v
        | inr e ↦
            let s = normalise_device-IsShown self_id now d e in
            rw e (
              rw (dev_by_id-push_if, upserted_lem self_id d'.id r.dev_by_id d' v s)
                (put-IsRoster self_id r.dev_by_id v d'.id d' s))
      ]

  pub remove_device-IsRoster :
      (device_id : String)
      → IsRoster self_id r.dev_by_id
      → IsRoster self_id (remove_device now device_id r).dev_by_id
  unfolding remove_device
  remove_device-IsRoster device_id v = elim (Bool-cases (str_eq device_id "")) [
    | inl e ↦ rw e v
    | inr e ↦ rw e (rw dev_by_id-push_if (delete-IsRoster self_id r.dev_by_id v device_id))
  ]

-- After a sighting of another device, the roster has that sighting, its blanks filled in, and
-- nothing else has changed, whether the sighting was news or not.
pub get-upsert_device :
    (self_id : String) (now : ℕ) (d : Device) (r : Roster) (k : String)
    → IsRoster self_id r.dev_by_id
    → str_eq d.id "" ≡ false
    → str_eq d.id self_id ≡ false
    → get (upsert_device self_id now d r).dev_by_id k
      ≡ (if str_eq d.id k then some (normalise_device self_id now d) else get r.dev_by_id k)
unfolding upsert_device normalise_device
get-upsert_device self_id now d r k v named other =
    let d' = normalise_device self_id now d in
    let same : d'.id ≡ d.id = rw (other, normalise_device) in
    let e : str_eq d'.id "" ≡ false = rw same named in
    rw e (
      rw
        (
          dev_by_id-push_if,
          upserted_lem self_id d'.id r.dev_by_id d' v (normalise_device-IsShown self_id now d e),
        )
        (rw (get-put r.dev_by_id d'.id k d') (rw same)))

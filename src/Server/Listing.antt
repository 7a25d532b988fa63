-- ===== src/Server/Listing.antt =====
-- The two loops of `Devices` of daemon/server/devices.go.
use sharing.Base.{
  ℕ, String, ◌≡◌, refl, Option, none, some, List, [], ◌∷◌, str_eq, arith, eq_iff, Bool-cases,
  Option-cases, inl, inr, ◌∙◌, ap,
}
use sharing.Base.Dict
use sharing.Base.Dict.{Dict, get, IsMap, values, is_some, All-of_get}
use sharing.Base.Sorting.{find, Distinct}
use sharing.Protocol.Types.{Device}
use sharing.Trust.Disk.{TrustedPeer}
use sharing.Trust.Order.{device_id_of}
use sharing.Server.Snapshot.{stamped, stamp_all, absent, add_absent}

-- The key of a device.
abbrev pub id_of : Device → String
id_of d = d.id

-- The first loop treats each entry on its own.
abbrev pub stamp_option : List String → ℕ → String → Option Device → Option Device
stamp_option paired now k none = none
stamp_option paired now k (some d) = some (stamped paired now k d)

module _ (paired : List String) (now : ℕ) where
  pub get-stamp_all :
      (m : Dict Device) (k : String)
      → get (stamp_all paired now m) k ≡ stamp_option paired now k (get m k)
  unfolding stamp_all get
  get-stamp_all [] k = refl
  get-stamp_all ((j, d) ∷ m) k = elim (Bool-cases (str_eq j k)) [
    | inl e ↦ rw e (ap (λ i. some (stamped paired now i d)) ((eq_iff j k).0 e))
    | inr e ↦ rw e (get-stamp_all m k)
  ]

  pub stamp_all-IsMap : (m : Dict Device) → IsMap m → IsMap (stamp_all paired now m)
  unfolding stamp_all
  stamp_all-IsMap [] u = tt
  stamp_all-IsMap ((j, d) ∷ m) u = (get-stamp_all m j ∙ rw u.0, stamp_all-IsMap m u.1)

  pub stamp_all-All :
      (P : String → Device → Type 0)
      → ((k : String) (d : Device) → P k d → P k (stamped paired now k d))
      → (m : Dict Device) → Dict.All P m
      → Dict.All P (stamp_all paired now m)
  unfolding stamp_all
  stamp_all-All P f [] h = tt
  stamp_all-All P f ((j, d) ∷ m) h = (f j d h.0, stamp_all-All P f m h.1)

-- The second loop leaves out what the first has shown.
abbrev pub absent_option : Option Device → Option TrustedPeer → Option Device
absent_option (some d) p = none
absent_option none none = none
absent_option none (some p) = some (absent p)

pub find-add_absent :
    (seen : Dict Device) (ps : List TrustedPeer) (k : String)
    → find id_of k (add_absent seen ps) ≡ absent_option (get seen k) (find device_id_of k ps)
unfolding find add_absent absent
find-add_absent seen [] k = ground arith
find-add_absent seen (p ∷ ps) k =
    ground (arith, find-add_absent seen ps k, eq_iff p.device_id k, ap (get seen))

pub add_absent-Distinct :
    (seen : Dict Device) (ps : List TrustedPeer)
    → Distinct device_id_of ps
    → Distinct id_of (add_absent seen ps)
unfolding add_absent
add_absent-Distinct seen [] d = tt
add_absent-Distinct seen (p ∷ ps) d = elim (Option-cases (get seen p.device_id)) [
  | inl e ↦ rw e (
    unfold absent in find-add_absent seen ps p.device_id ∙ rw (e, d.0),
    add_absent-Distinct seen ps d.1,
  )
  | inr (q, e) ↦ rw e (add_absent-Distinct seen ps d.1)
]

-- ===== src/Trust/Persistence.antt =====
-- What is on disk against what is in memory: `writeLocked` replaces the file as a whole or not at
-- all, and what it wrote is read back as the map that it was written from.
use sharing.Base.{
  String, ◌≡◌, refl, Bool, true, false, ◌⊎◌, Option, none, some, List, [], ◌∷◌, All, str_eq, eq_iff,
  arith, ◌∙◌,
}
use sharing.Base.Dict
use sharing.Base.Dict.{Dict, get, put, values, get-put, IsMap}
use sharing.Protocol.Hex.{valid_token_format}
use sharing.Trust.Disk.{
  TrustedPeer, Disk, Content, partial, unflushed, whole, Faults, write_locked, last_disk,
}
use sharing.Base.Sorting.{sort, find, sort-All, find-sort, find-values, values-Distinct}
use sharing.Trust.Order.{by_id, device_id_of}
use sharing.Trust.Store.{persist, snapshot_locked}
use sharing.Trust.Load.{load_entry, load_peers, load_trust_store_at}
use sharing.Trust.Invariant.{IsValid, IsUsable}

-- What is read after a power loss: of a file that was not flushed, a part is left.
abbrev pub survivor : Option Content → Option Content
survivor none = none
survivor (some partial) = some partial
survivor (some (unflushed peers)) = some partial
survivor (some (whole peers)) = some (whole peers)

-- The file is as before, or it holds the whole snapshot; and so it is after a power loss.
abbrev pub IsOldOrNew : Disk → List TrustedPeer → Disk → Type 0
IsOldOrNew before peers d =
    ((d.file ≡ before.file) ⊎ (d.file ≡ some (whole peers)))
    × ((survivor d.file ≡ survivor before.file) ⊎ (survivor d.file ≡ some (whole peers)))

-- After each call of a write, whichever call fails, the file is the old one or has the whole snapshot;
-- and if the power is lost then, so that what was not flushed is cut off, what is left of the file is
-- what would have been left of the old one, or the whole snapshot.
pub write_locked_atomic :
    (fails : Faults) (peers : List TrustedPeer) (d : Disk)
    → All (IsOldOrNew d peers) (write_locked fails peers d).0
unfolding write_locked
write_locked_atomic fails peers d = ground arith

-- A write that reports no error has put the snapshot on disk and left no temporary file.
write_locked_success :
    (fails : Faults) (peers : List TrustedPeer) (d : Disk)
    → (write_locked fails peers d).1 ≡ none
    → last_disk d (write_locked fails peers d).0
      ≡ record d { file = some (whole peers); temp = none }
unfolding write_locked last_disk
write_locked_success fails peers d h = ground arith

-- A record that the load keeps.
abbrev Kept : TrustedPeer → Type 0
Kept p = (str_eq p.device_id "" ≡ false) × (valid_token_format p.token ≡ true)

orelse : Option TrustedPeer → Option TrustedPeer → Option TrustedPeer
orelse none o = o
orelse (some p) o = some p

get-load_peers :
    (ps : List TrustedPeer) (peers : Dict TrustedPeer) (k : String)
    → All Kept ps
    → get (load_peers peers ps) k ≡ orelse (find device_id_of k ps) (get peers k)
unfolding load_peers find orelse
get-load_peers [] peers k h = refl
get-load_peers (p ∷ ps) peers k h = ground (
  arith,
  h.0,
  get-load_peers ps (load_entry peers p) k h.1,
  get-put peers p.device_id k p,
  eq_iff p.device_id k,
)

values-Kept : (m : Dict TrustedPeer) → Dict.All IsUsable m → All Kept (values m)
unfolding values
values-Kept [] h = tt
values-Kept ((j, p) ∷ m) h = ((rw h.0.keyed h.0.named, h.0.token_formed), values-Kept m h.1)

pub usable-keyed :
    (m : Dict TrustedPeer) → Dict.All IsUsable m → Dict.All (λ k p. p.device_id ≡ k) m
usable-keyed [] h = tt
usable-keyed ((j, p) ∷ m) h = (h.0.keyed, usable-keyed m h.1)

-- The snapshot that is written has the records of the map.
find-snapshot :
    (m : Dict TrustedPeer) (k : String)
    → IsValid m
    → find device_id_of k (sort by_id (values m)) ≡ get m k
find-snapshot m k v =
    let keyed = usable-keyed m v.usable in
    find-sort by_id device_id_of (values m) k (values-Distinct device_id_of m v.is_map keyed)
    ∙ find-values device_id_of m k v.is_map keyed

-- Loading what a successful write of a valid map has left gives that map back, for every device.
pub load-persist :
    (fails : Faults) (peers : Dict TrustedPeer) (d : Disk) (quarantine_fails : Bool) (k : String)
    → IsValid peers
    → (persist fails peers d).1 ≡ none
    → get (load_trust_store_at false quarantine_fails (persist fails peers d).0.disk).peers k
      ≡ get peers k
unfolding persist load_trust_store_at
load-persist fails peers d quarantine_fails k v h =
    rw (write_locked_success fails (snapshot_locked peers) d (ground arith)) (
      unfold snapshot_locked orelse get in
      get-load_peers (sort by_id (values peers)) [] k
        (sort-All by_id Kept (values peers) (values-Kept peers v.usable))
      ∙ ground (arith, find-snapshot peers k v))

-- ===== src/Trust/Verify.antt =====
-- Which credentials `VerifyToken` of daemon/config/trust.go accepts.
use sharing.Base.{
  ℕ, String, ◌≡◌, ◌↔◌, refl, Bool, ◌||◌, List, true, false, Option, none, some, str_eq, eq_iff,
  arith, if◌then◌else◌, Bool-cases, Option-cases, inl, inr,
}
use sharing.Base.Dict.{Dict, is_some, get, put, get-put, get-delete, All-get}
use sharing.Protocol.Hex.{valid_token_format}
use sharing.Trust.Disk.{
  TrustedPeer, Disk, Faults, mkdir, create_temp, write, sync, close, write_locked, last_disk,
  rename as rename_call,
}
use sharing.Trust.Store.{
  TrustStore, persist, snapshot_locked, add, remove, verify_token, touch, rename,
}
use sharing.Trust.Invariant.{IsValid, IsUsable, peers-remove}

-- What `VerifyToken` answers when it has looked the device up.
abbrev accepts : Option TrustedPeer → String → Bool
accepts none token = false
accepts (some p) token = str_eq p.token token

verify_token_lem :
    (s : TrustStore) (device_id token : String)
    → verify_token s device_id token ≡ accepts (get s.peers device_id) token
unfolding verify_token
verify_token_lem s device_id token = ground arith

accepts_iff :
    (o : Option TrustedPeer) (token : String)
    → (accepts o token ≡ true) ↔ ((p : TrustedPeer) × (o ≡ some p) × (p.token ≡ token))
accepts_iff none token = (λ h. cc h, λ (p, e, t). cc e)
accepts_iff (some q) token =
    (λ h. (q, refl, (eq_iff q.token token).0 h), λ (p, e, t). ground (arith, eq_iff q.token token))

-- A token is accepted exactly if it is the one that is stored for that device.
pub verify_token_iff :
    (s : TrustStore) (device_id token : String)
    → (verify_token s device_id token ≡ true)
      ↔ ((p : TrustedPeer) × (get s.peers device_id ≡ some p) × (p.token ≡ token))
verify_token_iff s device_id token = rw verify_token_lem (accepts_iff (get s.peers device_id) token)

-- In a valid store no ill-formed token is ever accepted, so the empty token of a peer that has none
-- is not, and no device without an id.
pub verify_token_formed :
    (s : TrustStore) (device_id token : String)
    → IsValid s.peers
    → verify_token s device_id token ≡ true
    → (valid_token_format token ≡ true) × (str_eq device_id "" ≡ false)
verify_token_formed s device_id token v h =
    let (p, e, t) = (verify_token_iff s device_id token).0 h in
    let u = All-get IsUsable s.peers device_id p v.usable e in (rw (← t) u.token_formed, u.named)

-- After `Add` of acceptable arguments the device has that token and no other, and the other devices
-- are as before; this is so also where the write fails, and `Add` reports an error.
pub verify_token-add :
    (fails : Faults) (now : ℕ) (device_id name token : String) (s : TrustStore) (j t : String)
    → str_eq device_id "" ≡ false
    → valid_token_format token ≡ true
    → verify_token (add fails now device_id name token s).0 j t
      ≡ (if str_eq device_id j then str_eq token t else verify_token s j t)
unfolding add persist
verify_token-add fails now device_id name token s j t h k =
    rw (h, k) (simp (verify_token_lem, get-put) (ground arith))

-- After `Remove` no token is accepted for the device, and the other devices are as before, whether
-- the write failed or not.
pub verify_token-remove :
    (fails : Faults) (device_id : String) (s : TrustStore) (j t : String)
    → verify_token (remove fails device_id s).0 j t
      ≡ (if str_eq device_id j then false else verify_token s j t)
verify_token-remove fails device_id s j t =
    simp (verify_token_lem, peers-remove)
      (ground (arith, eq_iff device_id j, get-delete s.peers device_id j))

-- A record with the token of the one that it replaces.
accepts-put :
    (peers : Dict TrustedPeer) (k : String) (p q : TrustedPeer) (j t : String)
    → get peers k ≡ some p
    → q.token ≡ p.token
    → accepts (get (put peers k q) j) t ≡ accepts (get peers j) t
accepts-put peers k p q j t e h = rw get-put (ground (arith, eq_iff k j))

-- `Touch` and `Rename` change no credential, whether the device is known or not and whatever fails.
pub verify_token-touch-rename :
    (fails : Faults) (now : ℕ) (device_id name : String) (s : TrustStore) (j t : String)
    → (verify_token (touch fails now device_id s).0 j t ≡ verify_token s j t)
      × (verify_token (rename fails device_id name s).0 j t ≡ verify_token s j t)
unfolding touch rename persist
verify_token-touch-rename fails now device_id name s j t =
    simp verify_token_lem (elim (Option-cases (get s.peers device_id)) [
      | inl e ↦ (rw (e, touch), rw (e, rename))
      | inr (p, e) ↦ (
        rw (e, touch) (accepts-put s.peers device_id p _ j t e refl),
        rw (e, rename)
            (elim (Bool-cases (str_eq p.name name)) [
              | inl n ↦ rw n
              | inr n ↦ rw n (accepts-put s.peers device_id p _ j t e refl)
            ]),
      )
    ])

-- A call of `writeLocked` fails before trusted.json has been replaced.
abbrev pub fails_early : Faults → Bool
fails_early fails =
    fails mkdir
    || fails create_temp
    || fails write
    || fails sync
    || fails close
    || fails rename_call

write_locked_early :
    (fails : Faults) (peers : List TrustedPeer) (d : Disk)
    → fails_early fails ≡ true
    → (is_some (write_locked fails peers d).1 ≡ true)
      × ((last_disk d (write_locked fails peers d).0).file ≡ d.file)
unfolding write_locked last_disk
write_locked_early fails peers d h = (ground arith, ground arith)

persist_early :
    (fails : Faults) (peers : Dict TrustedPeer) (d : Disk)
    → fails_early fails ≡ true
    → (is_some (persist fails peers d).1 ≡ true) × ((persist fails peers d).0.disk.file ≡ d.file)
unfolding persist
persist_early fails peers d h =
    let e = write_locked_early fails (snapshot_locked peers) d h in (ground (arith, e.0), e.1)

add_early :
    (fails : Faults) (now : ℕ) (device_id name token : String) (s : TrustStore)
    → str_eq device_id "" ≡ false
    → valid_token_format token ≡ true
    → fails_early fails ≡ true
    → (is_some (add fails now device_id name token s).1 ≡ true)
      × ((add fails now device_id name token s).0.disk.file ≡ s.disk.file)
unfolding add
add_early fails now device_id name token s named formed h =
    rw (named, formed) (persist_early fails _ s.disk h)

-- Where a call of the write fails before the file is replaced, `Add` reports an error, but the device
-- is trusted all the same, and the file on disk is the old one: the map was changed before the write,
-- and nothing takes the change back, so that memory and disk disagree.
pub add_failed_still_trusted :
    (fails : Faults) (now : ℕ) (device_id name token : String) (s : TrustStore)
    → str_eq device_id "" ≡ false
    → valid_token_format token ≡ true
    → fails_early fails ≡ true
    → (is_some (add fails now device_id name token s).1 ≡ true)
      × (verify_token (add fails now device_id name token s).0 device_id token ≡ true)
      × ((add fails now device_id name token s).0.disk.file ≡ s.disk.file)
add_failed_still_trusted fails now device_id name token s named formed h =
    let e = add_early fails now device_id name token s named formed h in
    (
      e.0,
      rw (verify_token-add fails now device_id name token s device_id token named formed)
          (ground (arith, eq_iff device_id device_id, eq_iff token token)),
      e.1,
    )

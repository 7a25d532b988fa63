-- ===== src/Trust/Store.antt =====
-- The operations of `TrustStore` in daemon/config/trust.go.
use sharing.Base.{
  ℕ, String, Bool, true, false, ◌&&◌, not, Option, none, some, List, [], ◌∷◌, length, str_eq,
  if◌then◌else◌,
}
use sharing.Base.Dict.{Dict, get, put, delete, values, keys, is_some}
use sharing.Base.Time.{second, truncate}
use sharing.Protocol.Hex.{valid_token_format, encode_to_string}
use sharing.Trust.Disk.{TrustedPeer, Disk, Call, Faults, write_locked, last_disk}
use sharing.Base.Sorting.{sort}
use sharing.Trust.Order.{by_id, by_name}

-- `TrustStore`
pub record TrustStore : Type 0 where
  pub peers : Dict TrustedPeer
  pub disk : Disk

-- The errors of the store's methods.
pub data TrustError : Type 0 where
  device_id_required bad_token : TrustError
  no_such_peer : String → TrustError
  write_failed : Call → TrustError

-- `Len`
unfoldable pub len : TrustStore → ℕ
len s = length s.peers

-- `Get`
unfoldable pub get_peer : TrustStore → String → Option TrustedPeer
get_peer s device_id = get s.peers device_id

-- `IsPaired`
unfoldable pub is_paired : TrustStore → String → Bool
is_paired s device_id = is_some (get s.peers device_id)

-- `List`
unfoldable pub list : TrustStore → List TrustedPeer
list s = sort by_name (values s.peers)

-- `PairedIDs`
unfoldable pub paired_ids : TrustStore → List String
paired_ids s = keys s.peers

-- `snapshotLocked`
unfoldable pub snapshot_locked : Dict TrustedPeer → List TrustedPeer
snapshot_locked peers = sort by_id (values peers)

-- The persisting half of each method: the snapshot of the new map is written.
unfoldable pub persist : Faults → Dict TrustedPeer → Disk → TrustStore × Option TrustError
unfolding last_disk
persist fails peers d =
    let (trace, failed) = write_locked fails (snapshot_locked peers) d in
    (
      record { peers = peers; disk = last_disk d trace },
      elim failed [ none ↦ none | some c ↦ some (write_failed c) ],
    )

-- `Add`. The record that the source returns beside a nil error is the stored one.
unfoldable pub add :
    Faults → ℕ → String → String → String → TrustStore → TrustStore × Option TrustError
add fails now device_id name token s =
    if str_eq device_id ""
    then (s, some device_id_required)
    else if not (valid_token_format token)
    then (s, some bad_token)
    else let now' = truncate now second in
      let peer : TrustedPeer = record {
        device_id = device_id;
        name = name;
        token = token;
        paired_at = now';
        last_seen = now';
      } in
      persist fails (put s.peers device_id peer) s.disk

-- The result of `Remove`: whether the device was there, and the error.
unfoldable pub remove : Faults → String → TrustStore → TrustStore × Bool × Option TrustError
remove fails device_id s =
    if not (is_some (get s.peers device_id))
    then (s, false, none)
    else let (s', failed) = persist fails (delete s.peers device_id) s.disk in
      elim failed [ none ↦ (s', true, none) | some e ↦ (s', false, some e) ]

-- `Touch`
unfoldable pub touch : Faults → ℕ → String → TrustStore → TrustStore × Option TrustError
touch fails now device_id s = elim (get s.peers device_id) [
  | none ↦ (s, some (no_such_peer device_id))
  | some peer ↦
      persist fails (put s.peers device_id (record peer { last_seen = truncate now second })) s.disk
]

-- `Rename`
unfoldable pub rename : Faults → String → String → TrustStore → TrustStore × Option TrustError
rename fails device_id name s = elim (get s.peers device_id) [
  | none ↦ (s, some (no_such_peer device_id))
  | some peer ↦
      if str_eq peer.name name
      then (s, none)
      else persist fails (put s.peers device_id (record peer { name = name })) s.disk
]

-- `dummyToken`
abbrev zeros : List ℕ
zeros =
    0 ∷ 0 ∷ 0 ∷ 0 ∷ 0 ∷ 0 ∷ 0 ∷ 0 ∷ 0 ∷ 0 ∷ 0 ∷ 0 ∷ 0 ∷ 0 ∷ 0 ∷ 0 ∷ 0 ∷ 0 ∷ 0 ∷ 0 ∷ 0 ∷ 0 ∷ 0 ∷ 0
    ∷ 0 ∷ 0 ∷ 0 ∷ 0 ∷ 0 ∷ 0 ∷ 0 ∷ 0 ∷ []

unfoldable pub dummy_token : String
dummy_token = encode_to_string zeros

-- `TokensEqual`; `subtle.ConstantTimeCompare` decides whether the bytes are the same.
unfoldable tokens_equal : String → String → Bool
tokens_equal a b = str_eq a b

-- The token that `VerifyToken` compares against.
unfoldable pub want : Option TrustedPeer → String
want none = dummy_token
want (some peer) = peer.token

-- `VerifyToken`
unfoldable pub verify_token : TrustStore → String → String → Bool
unfolding want tokens_equal
verify_token s device_id token =
    let peer = get s.peers device_id in
    let equal = tokens_equal (want peer) token in is_some peer && equal

-- `NewToken`: the bytes that crypto/rand gives, if it does.
unfoldable pub new_token : Option (List ℕ) → Option String
new_token none = none
new_token (some bytes) = some (encode_to_string bytes)

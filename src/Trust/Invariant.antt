-- ===== src/Trust/Invariant.antt =====
-- What holds of the trust store between two calls: each device is stored once, under its own
-- non-empty id, with a well-formed token. Every method of daemon/config/trust.go keeps it, whether
-- it fails or not, and loading establishes it from any file.
use sharing.Base.{
  ℕ, String, ◌≡◌, refl, Bool, true, false, List, [], ◌∷◌, str_eq, arith, if◌then◌else◌, Bool-cases,
  Option-cases, inl, inr,
}
use sharing.Base.Dict
use sharing.Base.Dict.{
  Dict, is_some, get, put, delete, IsMap, put-IsMap, delete-IsMap, All-put, All-delete, All-get,
}
use sharing.Protocol.Hex.{valid_token_format}
use sharing.Trust.Disk.{TrustedPeer, Disk, Content, partial, unflushed, whole, Faults}
use sharing.Trust.Store.{TrustStore, persist, add, remove, touch, rename}
use sharing.Trust.Load.{load_entry, load_peers, load_content, load_trust_store_at}

-- A record that can be looked up by the key and can authenticate a peer.
pub record IsUsable (key : String) (p : TrustedPeer) : Type 0 where
  pub keyed : p.device_id ≡ key
  pub named : str_eq key "" ≡ false
  pub token_formed : valid_token_format p.token ≡ true

pub record IsValid (peers : Dict TrustedPeer) : Type 0 where
  pub is_map : IsMap peers
  pub usable : Dict.All IsUsable peers

put-IsValid :
    (peers : Dict TrustedPeer) (k : String) (p : TrustedPeer)
    → IsValid peers
    → IsUsable k p
    → IsValid (put peers k p)
put-IsValid peers k p v u = record {
  is_map = put-IsMap peers k p v.is_map;
  usable = All-put IsUsable peers k p v.usable u;
}

delete-IsValid : (peers : Dict TrustedPeer) (k : String) → IsValid peers → IsValid (delete peers k)
delete-IsValid peers k v = record {
  is_map = delete-IsMap peers k v.is_map;
  usable = All-delete IsUsable peers k v.usable;
}

-- The map after a removal; whether the write failed makes no difference to it.
pub peers-remove :
    (fails : Faults) (device_id : String) (s : TrustStore)
    → (remove fails device_id s).0.peers
      ≡ (if is_some (get s.peers device_id) then delete s.peers device_id else s.peers)
unfolding remove persist
peers-remove fails device_id s = ground arith

module _ (fails : Faults) (s : TrustStore) (valid : IsValid s.peers) where
  pub add-IsValid :
      (now : ℕ) (device_id name token : String)
      → IsValid (add fails now device_id name token s).0.peers
  unfolding add persist
  add-IsValid now device_id name token = elim (Bool-cases (str_eq device_id "")) [
    | inl e ↦ rw e valid
    | inr e ↦ elim (Bool-cases (valid_token_format token)) [
      | inl t ↦
          rw (e, t)
            (put-IsValid s.peers device_id _ valid
              (record { keyed = refl; named = e; token_formed = t }))
      | inr t ↦ rw (e, t) valid
    ]
  ]

  pub remove-IsValid : (device_id : String) → IsValid (remove fails device_id s).0.peers
  remove-IsValid device_id = rw peers-remove (elim (Bool-cases (is_some (get s.peers device_id))) [
    | inl e ↦ rw e (delete-IsValid s.peers device_id valid)
    | inr e ↦ rw e valid
  ])

  pub touch-IsValid : (now : ℕ) (device_id : String) → IsValid (touch fails now device_id s).0.peers
  unfolding touch persist
  touch-IsValid now device_id = elim (Option-cases (get s.peers device_id)) [
    | inl e ↦ rw (e, touch) valid
    | inr (p, e) ↦
        let u = All-get IsUsable s.peers device_id p valid.usable e in
        rw (e, touch)
          (put-IsValid s.peers device_id _ valid
            (record { keyed = u.keyed; named = u.named; token_formed = u.token_formed }))
  ]

  pub rename-IsValid : (device_id name : String) → IsValid (rename fails device_id name s).0.peers
  unfolding rename persist
  rename-IsValid device_id name = elim (Option-cases (get s.peers device_id)) [
    | inl e ↦ rw (e, rename) valid
    | inr (p, e) ↦ elim (Bool-cases (str_eq p.name name)) [
      | inl n ↦ rw (e, rename) (rw n valid)
      | inr n ↦
          let u = All-get IsUsable s.peers device_id p valid.usable e in
          rw (e, rename)
            (rw n (
              put-IsValid s.peers device_id _ valid
                (record { keyed = u.keyed; named = u.named; token_formed = u.token_formed })))
    ]
  ]

load_entry-IsValid :
    (peers : Dict TrustedPeer) (p : TrustedPeer) → IsValid peers → IsValid (load_entry peers p)
unfolding load_entry
load_entry-IsValid peers p v = elim (Bool-cases (str_eq p.device_id "")) [
  | inl e ↦ rw e v
  | inr e ↦ elim (Bool-cases (valid_token_format p.token)) [
    | inl t ↦
        rw (e, t)
          (put-IsValid peers p.device_id p v (record { keyed = refl; named = e; token_formed = t }))
    | inr t ↦ rw (e, t) v
  ]
]

load_peers-IsValid :
    (ps : List TrustedPeer) (peers : Dict TrustedPeer)
    → IsValid peers
    → IsValid (load_peers peers ps)
unfolding load_peers
load_peers-IsValid [] peers v = v
load_peers-IsValid (p ∷ ps) peers v =
    load_peers-IsValid ps (load_entry peers p) (load_entry-IsValid peers p v)

empty-IsValid : IsValid []
empty-IsValid = record { is_map = tt; usable = tt }

load_content-IsValid :
    (quarantine_fails : Bool) (content : Content) (d : Disk)
    → IsValid (load_content quarantine_fails content d).peers
unfolding load_content
load_content-IsValid quarantine_fails partial d = empty-IsValid
load_content-IsValid quarantine_fails (unflushed ps) d = load_peers-IsValid ps [] empty-IsValid
load_content-IsValid quarantine_fails (whole ps) d = load_peers-IsValid ps [] empty-IsValid

-- Whatever the file holds, and whatever fails, what is loaded satisfies the invariant.
load-IsValid :
    (unreadable quarantine_fails : Bool) (d : Disk)
    → IsValid (load_trust_store_at unreadable quarantine_fails d).peers
unfolding load_trust_store_at
load-IsValid unreadable quarantine_fails d = elim (Option-cases d.file) [
  | inl e ↦ rw (e, load_trust_store_at) empty-IsValid
  | inr (content, e) ↦ elim (Bool-cases unreadable) [
    | inl u ↦ rw (e, load_trust_store_at) (rw u empty-IsValid)
    | inr u ↦ rw (e, load_trust_store_at) (rw u (load_content-IsValid quarantine_fails content d))
  ]
]

-- A call of one of the store's mutating methods, with the outcome of each system call.
pub data StoreCall : Type 0 where
  call_add : Faults → ℕ → String → String → String → StoreCall
  call_remove : Faults → String → StoreCall
  call_touch : Faults → ℕ → String → StoreCall
  call_rename : Faults → String → String → StoreCall

unfoldable pub run_call : StoreCall → TrustStore → TrustStore
run_call (call_add fails now device_id name token) s = (add fails now device_id name token s).0
run_call (call_remove fails device_id) s = (remove fails device_id s).0
run_call (call_touch fails now device_id) s = (touch fails now device_id s).0
run_call (call_rename fails device_id name) s = (rename fails device_id name s).0

unfoldable pub run_calls : List StoreCall → TrustStore → TrustStore
run_calls [] s = s
run_calls (c ∷ cs) s = run_calls cs (run_call c s)

run_call-IsValid : (c : StoreCall) (s : TrustStore) → IsValid s.peers → IsValid (run_call c s).peers
unfolding run_call
run_call-IsValid (call_add fails now id name token) s v = add-IsValid fails s v now id name token
run_call-IsValid (call_remove fails id) s v = remove-IsValid fails s v id
run_call-IsValid (call_touch fails now id) s v = touch-IsValid fails s v now id
run_call-IsValid (call_rename fails id name) s v = rename-IsValid fails s v id name

run_calls-IsValid :
    (cs : List StoreCall) (s : TrustStore) → IsValid s.peers → IsValid (run_calls cs s).peers
unfolding run_calls
run_calls-IsValid [] s v = v
run_calls-IsValid (c ∷ cs) s v = run_calls-IsValid cs (run_call c s) (run_call-IsValid c s v)

-- From whatever is on disk, readable or not, every sequence of calls keeps the invariant, whichever
-- system calls fail.
pub run_calls-load-IsValid :
    (unreadable quarantine_fails : Bool) (d : Disk) (cs : List StoreCall)
    → IsValid (run_calls cs (load_trust_store_at unreadable quarantine_fails d)).peers
run_calls-load-IsValid u q d cs = run_calls-IsValid cs _ (load-IsValid u q d)

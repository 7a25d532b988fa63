-- ===== src/Tests/Store.antt =====
-- The trust store at concrete calls.
use sharing.Base.{All, ◌≡◌, ◌↔◌, refl, true, false, none, some, [], ◌∷◌, str_eq, if◌then◌else◌}
use sharing.Base.Dict.{get, is_some}
use sharing.Protocol.Hex.{valid_token_format}
use sharing.Trust.Disk.{TrustedPeer, Faults, sync, write_locked}
use sharing.Trust.Store.{persist, verify_token, add, remove, touch, rename}
use sharing.Trust.Load.{load_trust_store_at}
use sharing.Trust.Invariant.{IsValid, call_add, call_remove, run_calls, run_calls-load-IsValid}
use sharing.Trust.Verify.{
  verify_token_iff, verify_token_formed, verify_token-add, verify_token-remove,
  verify_token-touch-rename, add_failed_still_trusted,
}
use sharing.Trust.Persistence.{IsOldOrNew, write_locked_atomic, load-persist}
use sharing.Tests.Fixtures.{
  token, phone-IsValid, no_faults, chmod_fails, empty_disk, empty_store, phone_store,
}

verify_token_iff_example :
    (verify_token phone_store "phone" token ≡ true)
    ↔ ((p : TrustedPeer) × (get phone_store.peers "phone" ≡ some p) × (p.token ≡ token))
verify_token_iff_example = verify_token_iff phone_store "phone" token

phone_accepted : verify_token phone_store "phone" token ≡ true
unfolding verify_token get
phone_accepted = refl

verify_token_formed_example : (valid_token_format token ≡ true) × (str_eq "phone" "" ≡ false)
verify_token_formed_example =
    verify_token_formed phone_store "phone" token phone-IsValid phone_accepted

token_formed : valid_token_format token ≡ true
unfolding valid_token_format
token_formed = refl

verify_token-add_example :
    verify_token (add no_faults 7 "tablet" "Tablet" token phone_store).0 "phone" token ≡ (
      if str_eq "tablet" "phone"
      then str_eq token token
      else verify_token phone_store "phone" token)
verify_token-add_example =
    verify_token-add no_faults 7 "tablet" "Tablet" token phone_store "phone" token refl token_formed

token_revoked :
    verify_token (remove no_faults "phone" phone_store).0 "phone" token
    ≡ (if str_eq "phone" "phone" then false else verify_token phone_store "phone" token)
token_revoked = verify_token-remove no_faults "phone" phone_store "phone" token

token_kept :
    (verify_token (touch no_faults 7 "phone" phone_store).0 "phone" token
      ≡ verify_token phone_store "phone" token)
    × (verify_token (rename no_faults "phone" "Mobile" phone_store).0 "phone" token
        ≡ verify_token phone_store "phone" token)
token_kept = verify_token-touch-rename no_faults 7 "phone" "Mobile" phone_store "phone" token

abbrev sync_fails : Faults
sync_fails sync = true
sync_fails _ = false

add_failed_still_trusted_example :
    (is_some (add sync_fails 7 "phone" "Phone" token empty_store).1 ≡ true)
    × (verify_token (add sync_fails 7 "phone" "Phone" token empty_store).0 "phone" token ≡ true)
    × ((add sync_fails 7 "phone" "Phone" token empty_store).0.disk.file ≡ empty_store.disk.file)
add_failed_still_trusted_example =
    add_failed_still_trusted sync_fails 7 "phone" "Phone" token empty_store refl token_formed refl

run_calls-load-IsValid_example :
    IsValid
      (run_calls
        (call_add chmod_fails 7 "tablet" "Tablet" token ∷ call_remove no_faults "phone" ∷ [])
        (load_trust_store_at false false phone_store.disk)).peers
run_calls-load-IsValid_example =
    run_calls-load-IsValid false false phone_store.disk
      (call_add chmod_fails 7 "tablet" "Tablet" token ∷ call_remove no_faults "phone" ∷ [])

write_locked_atomic_example :
    All (IsOldOrNew phone_store.disk []) (write_locked chmod_fails [] phone_store.disk).0
write_locked_atomic_example = write_locked_atomic chmod_fails [] phone_store.disk

phone_persisted : (persist no_faults phone_store.peers empty_disk).1 ≡ none
unfolding persist write_locked
phone_persisted = refl

load-persist_example :
    get
      (load_trust_store_at false false
        (persist no_faults phone_store.peers empty_disk).0.disk).peers
      "phone"
    ≡ get phone_store.peers "phone"
load-persist_example =
    load-persist no_faults phone_store.peers empty_disk false "phone" phone-IsValid phone_persisted

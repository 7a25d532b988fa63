-- ===== src/Trust/Load.antt =====
-- `LoadTrustStoreAt` of daemon/config/trust.go.
use sharing.Base.{Bool, not, ◌||◌, none, some, List, [], ◌∷◌, str_eq, if◌then◌else◌}
use sharing.Base.Dict.{Dict, put}
use sharing.Protocol.Hex.{valid_token_format}
use sharing.Trust.Disk.{TrustedPeer, Content, partial, unflushed, whole, Disk, quarantine}
use sharing.Trust.Store.{TrustStore}

-- One entry of the file.
unfoldable pub load_entry : Dict TrustedPeer → TrustedPeer → Dict TrustedPeer
load_entry peers p =
    if str_eq p.device_id "" || not (valid_token_format p.token)
    then peers
    else put peers p.device_id p

-- The loop over the entries of the file.
unfoldable pub load_peers : Dict TrustedPeer → List TrustedPeer → Dict TrustedPeer
unfolding load_entry
load_peers peers [] = peers
load_peers peers (p ∷ ps) = load_peers (load_entry peers p) ps

-- What is loaded when the file could be read.
unfoldable pub load_content : Bool → Content → Disk → TrustStore
unfolding load_peers quarantine
load_content quarantine_fails partial d = record {
  peers = [];
  disk = quarantine quarantine_fails partial d;
}
load_content quarantine_fails (unflushed ps) d = record { peers = load_peers [] ps; disk = d }
load_content quarantine_fails (whole ps) d = record { peers = load_peers [] ps; disk = d }

-- `LoadTrustStoreAt`. The path is not empty, and a file that is there may be unreadable; the second
-- flag tells whether the quarantine fails.
unfoldable pub load_trust_store_at : Bool → Bool → Disk → TrustStore
unfolding load_content
load_trust_store_at unreadable quarantine_fails d = elim d.file [
  | none ↦ record { peers = []; disk = d }
  | some content ↦
      if unreadable
      then record { peers = []; disk = d }
      else load_content quarantine_fails content d
]

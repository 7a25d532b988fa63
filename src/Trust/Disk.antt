-- ===== src/Trust/Disk.antt =====
-- Persistence of daemon/config/trust.go: `writeLocked` and `quarantine`. A file holds either the
-- whole of an encoded `trustFile`, flushed to the device or not yet, or a part of one; JSON encoding
-- and decoding of a `trustFile` are taken to be inverse to one another.
use sharing.Base.{ℕ, String, Bool, Option, none, some, List, [], ◌∷◌, if◌then◌else◌}

-- `TrustedPeer`
pub record TrustedPeer : Type 0 where
  pub device_id : String
  pub name : String
  pub token : String
  pub paired_at : ℕ
  pub last_seen : ℕ

-- What a file holds; `partial` is what json.Unmarshal refuses, and `unflushed` is read like `whole`,
-- but does not outlast a power loss.
pub data Content : Type 0 where
  partial : Content
  unflushed whole : List TrustedPeer → Content

-- trusted.json, the temporary file beside it, and trusted.json.corrupt.
pub record Disk : Type 0 where
  pub file : Option Content
  pub temp : Option Content
  pub corrupt : Option Content

-- The system calls of `writeLocked`; `remove` is the removal of the temporary file on a failure.
pub data Call : Type 0 where
  mkdir create_temp write sync close rename chmod remove : Call

-- Which calls fail.
abbrev pub Faults : Type 0
Faults = Call → Bool

-- What `Sync` makes of a file.
unfoldable pub flush : Content → Content
flush partial = partial
flush (unflushed peers) = whole peers
flush (whole peers) = whole peers

-- `os.Rename` of the temporary file over trusted.json.
unfoldable pub replace : Option Content → Disk → Disk
replace none d = d
replace (some content) d = record d { file = some content; temp = none }

-- What a call leaves on the disk when it succeeds.
unfoldable pub perform : Call → List TrustedPeer → Disk → Disk
unfolding flush replace
perform mkdir peers d = d
perform create_temp peers d = record d { temp = some partial }
perform write peers d = record d { temp = some (unflushed peers) }
perform sync peers d = record d { temp = elim d.temp [ none ↦ none | some c ↦ some (flush c) ] }
perform close peers d = d
perform rename peers d = replace d.temp d
perform chmod peers d = d
perform remove peers d = record d { temp = none }

-- `os.Remove(tmpName)`; its failure is only logged.
unfoldable cleanup : Faults → Disk → Disk
unfolding perform
cleanup fails d = if fails remove then d else perform remove [] d

-- `writeLocked`, with the disk after each call that changed it, newest first, and the call that
-- failed, if any. A failed write may have left any part of the data.
unfoldable pub write_locked : Faults → List TrustedPeer → Disk → List Disk × Option Call
unfolding cleanup perform
write_locked fails peers d =
    let created = perform create_temp peers d in
    let written = perform write peers created in
    let synced = perform sync peers written in
    let renamed = perform rename peers synced in
    if fails mkdir
    then (d ∷ [], some mkdir)
    else if fails create_temp
    then (d ∷ [], some create_temp)
    else if fails write
    then (cleanup fails created ∷ created ∷ d ∷ [], some write)
    else if fails sync
    then (cleanup fails written ∷ written ∷ created ∷ d ∷ [], some sync)
    else if fails close
    then (cleanup fails synced ∷ synced ∷ written ∷ created ∷ d ∷ [], some close)
    else if fails rename
    then (cleanup fails synced ∷ synced ∷ written ∷ created ∷ d ∷ [], some rename)
    else if fails chmod
    then (renamed ∷ synced ∷ written ∷ created ∷ d ∷ [], some chmod)
    else (renamed ∷ synced ∷ written ∷ created ∷ d ∷ [], none)

-- The disk when `writeLocked` returns.
unfoldable pub last_disk : Disk → List Disk → Disk
last_disk d [] = d
last_disk d (e ∷ trace) = e

-- `quarantine`; the argument tells whether the write fails.
unfoldable pub quarantine : Bool → Content → Disk → Disk
quarantine fails content d = if fails then d else record d { corrupt = some content }

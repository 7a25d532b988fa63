-- ===== src/Protocol/Errors.antt =====
-- What a `Validate` method of a peer-plane message reports (daemon/protocol/messages.go). Each
-- constructor is one text of `invalid`, with the values that the text is formatted from; the texts
-- themselves are only logged.
use sharing.Base.{String}
use sharing.Base.Int.{ℤ}

-- `missing type field` is "<type> requires a non-empty <field>", and `missing_for kind field` is
-- "peer:signal kind <kind> requires a non-empty <field>".
pub data Invalid : Type 0 where
  missing missing_for : String → String → Invalid
  version : ℤ → Invalid
  bad_token bad_nonce bad_code : String → Invalid
  unknown_kind : String → Invalid

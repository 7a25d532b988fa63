-- ===== src/Protocol/Types.antt =====
-- The shared value types of daemon/protocol/messages.go.
use sharing.Base.{ℕ, String, Bool}

-- `Device`. `last_seen` is in epoch milliseconds; the daemon takes it from its own clock only, which
-- is taken not to stand before 1970.
pub record Device : Type 0 where
  pub id : String
  pub name : String
  pub address : String
  pub port : ℕ
  pub platform : String
  pub version : String
  pub status : String
  pub paired : Bool
  pub last_seen : ℕ

-- `SelfDevice`
pub record SelfDevice : Type 0 where
  pub id : String
  pub name : String
  pub version : String
  pub platform : String

-- ===== src/Tests/Fixtures.antt =====
-- Data for the examples.
use sharing.Base.{String, Bool, true, false, none, some, [], ◌∷◌, ℕ, ◌*◌, refl}
use sharing.Protocol.Types.{SelfDevice, Device}
use sharing.Trust.Disk.{TrustedPeer, Disk, whole, Faults, chmod}
use sharing.Trust.Store.{TrustStore}
use sharing.Peer.State.{Manager, Conn, Pairing, Env, Stage, running}
use sharing.Base.Time.{second}
use sharing.Base.Dict.{get}
use sharing.Server.Roster.{Roster}
use sharing.Server.Invariant.{IsRoster}
use sharing.Trust.Invariant.{IsValid}
use sharing.Protocol.Hex.{valid_token_format}

abbrev pub token : String
token = "00112233445566778899aabbccddeeff00112233445566778899aabbccddeeff"

abbrev pub nonce : String
nonce = "00112233445566778899aabbccddeeff"

abbrev pub no_faults : Faults
no_faults call = false

-- Only the change of the mode fails.
abbrev pub chmod_fails : Faults
chmod_fails chmod = true
chmod_fails _ = false

abbrev pub phone_peer : TrustedPeer
phone_peer = record {
  device_id = "phone";
  name = "Phone";
  token = token;
  paired_at = 0;
  last_seen = 0;
}

abbrev pub empty_disk : Disk
empty_disk = record { file = none; temp = none; corrupt = none }

abbrev pub empty_store : TrustStore
empty_store = record { peers = []; disk = empty_disk }

abbrev pub phone_store : TrustStore
phone_store = record {
  peers = ("phone", phone_peer) ∷ [];
  disk = record empty_disk { file = some (whole (phone_peer ∷ [])) };
}

abbrev pub laptop : SelfDevice
laptop = record { id = "laptop"; name = "Laptop"; version = "1.0.0"; platform = "linux" }

abbrev pub phone : SelfDevice
phone = record { id = "phone"; name = "Phone"; version = "1.0.0"; platform = "linux" }

abbrev pub env : Env
env = record {
  now = 1000;
  nonce_bytes = some (1 ∷ 2 ∷ 3 ∷ []);
  token_bytes = some (
      0 ∷ 17 ∷ 34 ∷ 51 ∷ 68 ∷ 85 ∷ 102 ∷ 119 ∷ 136 ∷ 153 ∷ 170 ∷ 187 ∷ 204 ∷ 221 ∷ 238 ∷ 255 ∷ 0
      ∷ 17 ∷ 34 ∷ 51 ∷ 68 ∷ 85 ∷ 102 ∷ 119 ∷ 136 ∷ 153 ∷ 170 ∷ 187 ∷ 204 ∷ 221 ∷ 238 ∷ 255 ∷ []);
  faults = no_faults;
  sum256 = λ material. 18 ∷ 52 ∷ 86 ∷ 120 ∷ [];
}

-- A socket to a device.
abbrev pub socket_to : String → Bool → Stage → Conn
socket_to id paired stage = record {
  outbound = false;
  remote_addr = "192.168.1.7:50000";
  remote_id = id;
  remote_name = id;
  out = [];
  unsent = 0;
  cancelled = false;
  tracked = true;
  paired = paired;
  holds_slot = false;
  stage = stage;
}

-- A pairing of which the other end is known.
abbrev pub pairing_with : String → Bool → Pairing
pairing_with id responder = record {
  device_id = id;
  name = id;
  direction = "incoming";
  responder = responder;
  code = "123456";
  conn = some 0;
  decision = none;
  remote = [];
  done = false;
  phase = running;
  local_accepted = false;
  remote_accepted = false;
}

-- A manager with one socket and one pairing.
abbrev pub manager : SelfDevice → TrustStore → Conn → Pairing → Manager
manager self trust socket pairing = record {
  self = self;
  trust = trust;
  limiter = record { limit = 5; window = 60000000000; hits = [] };
  conns = λ id. none;
  pending = λ id. none;
  addrs = λ id. none;
  dialing = λ id. none;
  reconnects = λ id. none;
  handshakes = 0;
  sockets = λ c. socket;
  next_conn = 1;
  pairings = λ p. pairing;
  next_pairing = 1;
  calls = [];
}

-- A time in 2025.
abbrev pub noon : ℕ
noon = 63900000000 * second

abbrev pub tablet : Device
tablet = record {
  id = "tablet";
  name = "Tablet";
  address = "192.168.1.9";
  port = 8766;
  platform = "linux";
  version = "0.1.0";
  status = "online";
  paired = false;
  last_seen = 1764403200000;
}

abbrev pub tablet_roster : Roster
tablet_roster = record { dev_by_id = ("tablet", tablet) ∷ []; dev_timer = none; dev_window = 0 }

pub tablet-IsRoster : IsRoster "laptop" tablet_roster.dev_by_id
unfolding get
tablet-IsRoster = record {
  is_map = (refl, tt);
  shown = (
    record {
      keyed = refl;
      identified = refl;
      foreign = refl;
      named = refl;
      placed = refl;
      rated = refl;
      unstamped = refl;
    },
    tt,
  );
}

pub phone-IsValid : IsValid phone_store.peers
unfolding valid_token_format get
phone-IsValid = record {
  is_map = (refl, tt);
  usable = (record { keyed = refl; named = refl; token_formed = refl }, tt);
}

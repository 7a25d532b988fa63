-- ===== src/Tests/Control.antt =====
-- Requests of an extension on the laptop.
use sharing.Base.{◌+◌, ◌*◌, arith, ◌≡◌, refl, true, false, none, some, [], ◌∷◌, ◌⊎◌, String, Option}
use sharing.Base.Dict.{get}
use sharing.Protocol.Json.{Frame, object, str}
use sharing.Protocol.ControlMessages.{PairStart, PairForget}
use sharing.Trust.Store.{remove, persist}
use sharing.Trust.Disk.{write_locked}
use sharing.Peer.State.{Manager, serving}
use sharing.Peer.Frames.{failed}
use sharing.Peer.Relay.{forget}
use sharing.Server.Hub.{Server, Client, PeerRouter}
use sharing.Server.Control.{handle_pair_start, handle_pair_forget}
use sharing.Server.Served.{Served}
use sharing.Server.Guards.{IsStarted, handle_pair_start-guarded}
use sharing.Server.Revocation.{manager_router, IsRevoked, handle_pair_forget-IsRevoked}
use sharing.Base.Time.{second}
use sharing.Server.Debounce.{call_upsert, call_remove, run_roster, new_roster}
use sharing.Server.Pushed.{IsOnTime, IsPushed, upsert_device-flush_devices}
use sharing.Server.Http.{Url, Request, origin_allowed, with_cors}
use sharing.Server.Origins.{is_upgraded, welcome, with_cors-guarded}
use sharing.Tests.Fixtures.{
  tablet, env, laptop, phone_store, socket_to, pairing_with, manager, noon, tablet_roster,
  tablet-IsRoster, phone-IsValid,
}

abbrev peers : Manager
peers = manager laptop phone_store (socket_to "phone" true serving) (pairing_with "" true)

abbrev router : PeerRouter Manager
router = manager_router env (λ e. "failed") false failed

abbrev popup : Client
popup = record { id = 0; sent = []; unsent = 0; cancelled = false; closed = none }

abbrev server : Server Manager
server = record {
  self = laptop;
  roster = tablet_roster;
  peers = peers;
  running = true;
  clients = popup ∷ [];
}

abbrev pair_start : Frame
pair_start = object (("type", str "pair:start") ∷ ("id", str "1") ∷ ("deviceId", str "tablet") ∷ [])

abbrev start_tablet : PairStart
start_tablet = record { type = "pair:start"; id = "1"; device_id = "tablet" }

handle_pair_start-guarded_example :
    ((handle_pair_start router noon 0 "1" start_tablet server).peers ≡ server.peers)
    ⊎ IsStarted router noon "tablet" server
        (handle_pair_start router noon 0 "1" start_tablet server)
handle_pair_start-guarded_example = handle_pair_start-guarded router noon 0 "1" start_tablet server

abbrev forget_phone : PairForget
forget_phone = record { type = "pair:forget"; id = "2"; device_id = "phone" }

phone_removed : (forget env "phone" peers).1 ≡ none
unfolding forget remove get persist write_locked
phone_removed = refl

handle_pair_forget-IsRevoked_example :
    IsRevoked "phone" server (handle_pair_forget router env.faults noon 0 "2" forget_phone server)
handle_pair_forget-IsRevoked_example =
    handle_pair_forget-IsRevoked env (λ e. "failed") false failed noon 0 "2" forget_phone server
      refl refl phone_removed tablet-IsRoster phone-IsValid

-- The tablet comes, goes and comes back within two seconds; no push was pending before.
abbrev early : Server Manager
early = record server { roster = new_roster }

early-IsOnTime : IsOnTime noon early.roster
early-IsOnTime = record { opened = omega arith; soon = λ deadline e. cc e }

upsert_device-flush_devices_example : IsPushed router noon (record early {
  roster =
      run_roster "laptop"
        ((noon, call_upsert tablet)
          ∷ (noon + second, call_remove "tablet")
          ∷ (noon + 2 * second, call_upsert tablet)
          ∷ [])
        early.roster;
})
unfolding get
upsert_device-flush_devices_example =
    upsert_device-flush_devices router "laptop" noon tablet
      ((noon + second, call_remove "tablet") ∷ (noon + 2 * second, call_upsert tablet) ∷ []) early
      early-IsOnTime refl refl refl

abbrev parse : String → Option Url
parse origin = some (record {
  scheme = "https";
  user = false;
  path = "";
  raw_query = "";
  fragment = "";
  hostname = "example.com";
  port = "";
})

abbrev page_request : Request
page_request = record { method = "GET"; path = "/ws"; origin = "https://example.com" }

with_cors-guarded_example :
    (is_upgraded (with_cors parse true 0 noon page_request).answer ≡ true
      → welcome parse page_request.origin ≡ true)
    × ((origin : String)
        → (with_cors parse true 0 noon page_request).allow_origin ≡ some origin
        → (origin ≡ page_request.origin) × (origin_allowed parse page_request.origin ≡ true))
with_cors-guarded_example = with_cors-guarded parse true 0 noon page_request

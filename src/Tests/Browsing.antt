-- ===== src/Tests/Browsing.antt =====
-- Discovery of a phone by a laptop.
use sharing.Base.{
  ap, ℕ, true, ◌≤◌, ltb, ◌≡◌, refl, false, none, some, [], ◌∷◌, ◌++◌, ◌*◌, ◌+◌, ◌⊎◌, List, All,
}
use sharing.Base.Int.{pos}
use sharing.Base.Time.{second}
use sharing.Discovery.Txt.{txt_record}
use sharing.Discovery.Net.{Ip}
use sharing.Discovery.Address.{AddrPref, score, pick}
use sharing.Discovery.Choice.{IsFirstBest, pick-IsFirstBest}
use sharing.Discovery.Browser.{ServiceEntry, Browser}
use sharing.Discovery.Mirror.{Follows}
use sharing.Discovery.Events.{BrowseStep, entry_arrives, ticks, browse, browse-mirrored}
use sharing.Base.Dict.{get}
use sharing.Discovery.Browser.{Event}
use sharing.Discovery.Mirror.{mirrored_looks}
use sharing.Server.Debounce.{new_roster}
use sharing.Daemon.{consume_discovery}
use sharing.Daemon.Following.{events_read, known_face, get-consume_discovery}
use sharing.Discovery.Advertiser.{
  AdvertiserStep, tick, advance, done, close, advertise, advertiser_run, healthy, on_tick, go_on,
  close_server, on_done, shut_down, advertiser_step,
}
use sharing.Discovery.Registration.{count, held, in_hand, one}
use sharing.Discovery.Closing.{started, advertiser_run-shut}
use sharing.Tests.Fixtures.{phone, noon}

-- This machine has the address 192.168.1.2, through which it routes, and a virtual adapter.
abbrev home : AddrPref
home = record {
  nets =
      record { ip = 192 ∷ 168 ∷ 1 ∷ 2 ∷ []; ones = 24 }
      ∷ record { ip = 192 ∷ 168 ∷ 56 ∷ 1 ∷ []; ones = 24 }
      ∷ [];
  own = (192 ∷ 168 ∷ 1 ∷ 2 ∷ []) ∷ (192 ∷ 168 ∷ 56 ∷ 1 ∷ []) ∷ [];
  primary = some (record { ip = 192 ∷ 168 ∷ 1 ∷ 2 ∷ []; ones = 24 });
}

-- The phone advertises a virtual adapter like that one before its own address.
abbrev advertised : List Ip
advertised = (192 ∷ 168 ∷ 56 ∷ 1 ∷ []) ∷ (192 ∷ 168 ∷ 1 ∷ 7 ∷ []) ∷ []

lan_address : pick home advertised [] ≡ some (192 ∷ 168 ∷ 1 ∷ 7 ∷ [])
unfolding pick
lan_address = refl

pick-IsFirstBest_example :
    ((pick home advertised [] ≡ none) × All (λ j. score home j ≡ none) (advertised ++ []))
    ⊎ ((ip : Ip) × (pick home advertised [] ≡ some ip) × IsFirstBest home (advertised ++ []) ip)
pick-IsFirstBest_example = pick-IsFirstBest home advertised []

abbrev answer : ServiceEntry
answer = record { text = txt_record phone; port = pos 8766; addr_ipv4 = advertised; addr_ipv6 = [] }

abbrev browser : Browser
browser = record {
  self_id = "laptop";
  known = [];
  pref = home;
  pref_at = noon;
  refresh_every = 10 * second;
}

abbrev steps : List BrowseStep
steps = entry_arrives home noon answer ∷ ticks (noon + 5 * second) ∷ ticks (noon + 35 * second) ∷ []

browse-mirrored_example :
    Follows
      (browse (λ ip. "192.168.1.7") steps browser).0.known
      []
      (browse (λ ip. "192.168.1.7") steps browser).1
browse-mirrored_example = browse-mirrored (λ ip. "192.168.1.7") steps browser refl

-- The daemon reads each event at once.
abbrev at_once : List Event → List (ℕ × Event)
at_once [] = []
at_once (e ∷ es) = (noon, e) ∷ at_once es

events_read-at_once : (es : List Event) → events_read (at_once es) ≡ es
events_read-at_once [] = refl
events_read-at_once (e ∷ es) = ap (λ l. e ∷ l) (events_read-at_once es)

abbrev arrival : List BrowseStep
arrival = entry_arrives home noon answer ∷ ticks (noon + 5 * second) ∷ []

abbrev heard : List Event
heard = (browse (λ ip. "192.168.1.7") arrival browser).1

get-consume_discovery_example :
    mirrored_looks (get (consume_discovery "laptop" (at_once heard) new_roster).dev_by_id phone.id)
    ≡ known_face (get (browse (λ ip. "192.168.1.7") arrival browser).0.known phone.id)
get-consume_discovery_example =
    get-consume_discovery (λ ip. "192.168.1.7") arrival browser "laptop" (at_once heard) phone.id
      refl (events_read-at_once heard) refl refl

-- The network changes, and the advertisement is closed while the watcher registers again.
abbrev life : List AdvertiserStep
life = tick "eth0" ∷ advance true ∷ advance true ∷ close ∷ advance true ∷ done ∷ []

advertise_started : advertise false true "wlan0" phone 8766 ≡ some (started "wlan0")
unfolding advertise
advertise_started = refl

both_shut_down : (advertiser_run life (started "wlan0")).shut ≡ 1 ∷ 0 ∷ []
unfolding advertiser_run advertiser_step on_tick go_on close_server on_done shut_down healthy
both_shut_down = refl

advertiser_run-shut_example :
    (count 1 (advertiser_run life (started "wlan0")).shut
        + held 1 (advertiser_run life (started "wlan0")).srv
        + in_hand 1 (advertiser_run life (started "wlan0")).watch
      ≡ one (ltb 1 (advertiser_run life (started "wlan0")).next))
    × (one (advertiser_run life (started "wlan0")).closed
          + held 1 (advertiser_run life (started "wlan0")).srv
        ≤ 1)
advertiser_run-shut_example =
    advertiser_run-shut false true "wlan0" phone 8766 (started "wlan0") life 1 advertise_started

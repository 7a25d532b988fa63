-- ===== src/Discovery/Advertiser.antt =====
-- The advertisement of this daemon: `Advertise` and the `advertiser` of
-- daemon/discovery/advertise.go. zeroconf.Register numbers its servers; the steps of `reregister`
-- between two locks are steps of their own, between which `Close` or a cancelled context may come.
use sharing.Base.{
  ℕ, suc, String, Bool, true, false, not, ◌&&◌, ◌||◌, Option, none, some, List, [], ◌∷◌, str_eq,
  ltb, ◌==◌, if◌then◌else◌,
}
use sharing.Base.Dict.{is_some}
use sharing.Protocol.Types.{SelfDevice}

-- Where the watcher is: it waits for a tick; or it is about to shut down the server that it took, to
-- register, or to keep what it has registered; or it has returned.
pub data Watch : Type 0 where
  idle returned : Watch
  taking_down : Option ℕ → String → Watch
  registering : String → Watch
  adopting : ℕ → String → Watch

-- `advertiser`, with the watcher. `next` counts what zeroconf has registered, and `shut` has the
-- servers that were shut down, the latest first. The instance name, the TXT record and the port, which
-- each registration passes to zeroconf, never change.
pub record Advertiser : Type 0 where
  pub srv : Option ℕ
  pub closed : Bool
  pub fingerprint : String
  pub watch : Watch
  pub next : ℕ
  pub shut : List ℕ

-- `srv.Shutdown()`, if there is a server.
unfoldable pub shut_down : Option ℕ → List ℕ → List ℕ
shut_down none shut = shut
shut_down (some n) shut = n ∷ shut

-- `Advertise`: `cancelled` is that the context has ended, `registered` that zeroconf registers, and
-- `fingerprint` is what the watcher starts from; `none` is an error.
unfoldable pub advertise : Bool → Bool → String → SelfDevice → ℕ → Option Advertiser
advertise cancelled registered fingerprint self peer_port =
    if str_eq self.id ""
    then none
    else if peer_port == 0 || ltb 65535 peer_port
    then none
    else if cancelled
    then none
    else if not registered
    then none
    else some (record {
      srv = some 0;
      closed = false;
      fingerprint = fingerprint;
      watch = idle;
      next = 1;
      shut = [];
    })

-- `healthy`
unfoldable pub healthy : Advertiser → Bool
healthy a = is_some a.srv && not a.closed

-- A tick of `watch`, and the first lock of `reregister`.
unfoldable pub on_tick : String → Advertiser → Advertiser
on_tick current a =
    if str_eq current a.fingerprint && healthy a
    then a
    else if a.closed
    then a
    else record a { srv = none; watch = taking_down a.srv current }

-- What `reregister` does next; `registered` is whether zeroconf.Register succeeds.
unfoldable pub go_on : Bool → Watch → Advertiser → Advertiser
go_on registered idle a = a
go_on registered returned a = a
go_on registered (taking_down old current) a = record a {
  shut = shut_down old a.shut;
  watch = registering current;
}
go_on registered (registering current) a =
    if registered
    then record a { next = suc a.next; watch = adopting a.next current }
    else record a { watch = idle }
go_on registered (adopting n current) a =
    if a.closed
    then record a { shut = shut_down (some n) a.shut; watch = idle }
    else record a { srv = some n; fingerprint = current; watch = idle }

-- `closeServer`
unfoldable pub close_server : Advertiser → Advertiser
close_server a =
    if a.closed then a else record a { closed = true; srv = none; shut = shut_down a.srv a.shut }

-- The watcher's `case <-ctx.Done()`.
unfoldable pub on_done : Advertiser → Advertiser
on_done a = record (close_server a) { watch = returned }

-- A tick with the fingerprint of the interfaces, the next step of `reregister`, the end of the
-- context, and `closeServer` of `Close`. A tick and the end of the context wait for the watcher.
pub data AdvertiserStep : Type 0 where
  tick : String → AdvertiserStep
  advance : Bool → AdvertiserStep
  done close : AdvertiserStep

abbrev pub is_idle : Watch → Bool
is_idle idle = true
is_idle _ = false

unfoldable pub advertiser_step : AdvertiserStep → Advertiser → Advertiser
advertiser_step (tick current) a = if is_idle a.watch then on_tick current a else a
advertiser_step (advance registered) a = go_on registered a.watch a
advertiser_step done a = if is_idle a.watch then on_done a else a
advertiser_step close a = close_server a

unfoldable pub advertiser_run : List AdvertiserStep → Advertiser → Advertiser
advertiser_run [] a = a
advertiser_run (s ∷ ss) a = advertiser_run ss (advertiser_step s a)

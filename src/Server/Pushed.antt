-- ===== src/Server/Pushed.antt =====
-- The push that a sighting leads to: daemon/server/devices.go, up to the clients.
use sharing.Base.{
  ℕ, ◌+◌, ◌≤◌, String, ◌≡◌, refl, false, none, some, List, ◌∷◌, arith, str_eq, Option-cases, inl,
  inr,
}
use sharing.Base.Dict.{get}
use sharing.Protocol.Types.{Device}
use sharing.Protocol.ControlMessages.{devices}
use sharing.Server.Roster.{Roster, devices_debounce, devices_max_delay}
use sharing.Server.Snapshot
use sharing.Server.Hub.{PeerRouter, Server, broadcast, server_devices, flush_devices}
use sharing.Server.Debounce.{
  RosterCall, call_upsert, run_roster, run_roster_call, IsPending, run_roster-IsPending,
  upsert_device-IsPending,
}

-- If a push is pending, its window has opened, and it comes at most 1.7 seconds after that.
pub record IsOnTime (now : ℕ) (r : Roster) : Type 0 where
  pub opened : r.dev_window ≤ now
  pub soon :
      (deadline : ℕ)
      → r.dev_timer ≡ some deadline
      → deadline ≤ r.dev_window + (devices_max_delay + devices_debounce)

-- The timer is set, for 1.7 seconds after `now` or earlier, and when it fires, every client is sent the
-- list of the devices as they are then.
pub record IsPushed {P : Type 0} (router : PeerRouter P) (now : ℕ) (s : Server P) : Type 0 where
  pub deadline : ℕ
  pub armed : s.roster.dev_timer ≡ some deadline
  pub soon : deadline ≤ now + (devices_max_delay + devices_debounce)
  pub flushed :
      (flush_devices router deadline s).clients
      ≡ broadcast
          (devices (
            Snapshot.devices
              (router.trust_of s.peers)
              deadline
              (record s.roster { dev_timer = none })))
          s.clients

pending-IsPushed :
    {P : Type 0} (router : PeerRouter P) (opened now : ℕ) (s : Server P)
    → opened ≤ now
    → IsPending opened s.roster
    → IsPushed router now s
unfolding flush_devices server_devices
pending-IsPushed router opened now s h p = record {
  deadline = p.deadline;
  armed = p.armed;
  soon = omega (arith, p.soon, h);
  flushed = refl;
}

-- A push was pending already when the device was sighted.
already :
    (now : ℕ) (r : Roster) (deadline : ℕ)
    → IsOnTime now r
    → r.dev_timer ≡ some deadline
    → IsPending r.dev_window r
already now r deadline t e = record {
  window = refl;
  deadline = deadline;
  armed = e;
  soon = t.soon deadline e;
}

-- A device that is sighted for the first time is pushed to every client at most 1.7 seconds later: the
-- timer is set from then on, for that time or earlier, whether it was set already (which is supposed to
-- be on time) or not, and whatever changes come in until it fires, and in whatever number, none of them
-- puts it off past that, and none takes it back; when it fires, every client is sent the list.
pub upsert_device-flush_devices :
    {P : Type 0} (router : PeerRouter P) (self_id : String) (now : ℕ) (d : Device)
    (cs : List (ℕ × RosterCall)) (s : Server P)
    → IsOnTime now s.roster
    → get s.roster.dev_by_id d.id ≡ none
    → str_eq d.id "" ≡ false
    → str_eq d.id self_id ≡ false
    → IsPushed router now
        (record s { roster = run_roster self_id ((now, call_upsert d) ∷ cs) s.roster })
unfolding run_roster run_roster_call
upsert_device-flush_devices router self_id now d cs s t new named other =
    elim (Option-cases s.roster.dev_timer) [
      | inl idle ↦ pending-IsPushed router now now _ (omega arith) (
          run_roster-IsPending now self_id cs _
            (upsert_device-IsPending self_id now d s.roster idle new named other))
      | inr (deadline, e) ↦ pending-IsPushed router s.roster.dev_window now _ t.opened (
          run_roster-IsPending s.roster.dev_window self_id ((now, call_upsert d) ∷ cs) s.roster
            (already now s.roster deadline t e))
    ]

-- ===== src/Server/Debounce.antt =====
-- The roster of daemon/server/devices.go over time: its invariant, and the pushes that its changes
-- wait for.
use sharing.Base.{
  ℕ, ◌+◌, ◌≤◌, String, ◌≡◌, refl, Bool, true, false, none, some, List, [], ◌∷◌, arith, inl, inr,
  Bool-cases, ltb, str_eq, ◌-◌,
}
use sharing.Base.Dict
use sharing.Base.Dict.{get}
use sharing.Protocol.Types.{Device}
use sharing.Trust.Store.{TrustStore}
use sharing.Server.Roster.{
  Roster, devices_debounce, devices_max_delay, schedule_devices_broadcast, push_if, set_devices,
  normalise_device, upsert_device, remove_device, sweep_devices, is_news,
}
use sharing.Server.Invariant.{
  IsRoster, empty-IsRoster, set_devices-IsRoster, upsert_device-IsRoster, remove_device-IsRoster,
}
use sharing.Server.Sweeping.{sweep_devices-IsRoster}

-- A call of one of the operations that change the roster.
pub data RosterCall : Type 0 where
  call_set : List Device → RosterCall
  call_upsert : Device → RosterCall
  call_remove : String → RosterCall
  call_sweep : TrustStore → RosterCall

unfoldable pub run_roster_call : String → ℕ → RosterCall → Roster → Roster
run_roster_call self_id now (call_set ds) r = set_devices self_id now ds r
run_roster_call self_id now (call_upsert d) r = upsert_device self_id now d r
run_roster_call self_id now (call_remove device_id) r = remove_device now device_id r
run_roster_call self_id now (call_sweep trust) r = sweep_devices trust now r

-- Calls at their times, in any order of the times.
unfoldable pub run_roster : String → List (ℕ × RosterCall) → Roster → Roster
run_roster self_id [] r = r
run_roster self_id ((now, c) ∷ cs) r = run_roster self_id cs (run_roster_call self_id now c r)

-- What `New` makes.
abbrev pub new_roster : Roster
new_roster = record { dev_by_id = []; dev_timer = none; dev_window = 0 }

run_roster_call-IsRoster :
    (self_id : String) (now : ℕ) (c : RosterCall) (r : Roster)
    → IsRoster self_id r.dev_by_id
    → IsRoster self_id (run_roster_call self_id now c r).dev_by_id
unfolding run_roster_call
run_roster_call-IsRoster self_id now (call_set ds) r v = set_devices-IsRoster self_id now r ds
run_roster_call-IsRoster self_id now (call_upsert d) r v = upsert_device-IsRoster self_id now r d v
run_roster_call-IsRoster self_id now (call_remove k) r v = remove_device-IsRoster self_id now r k v
run_roster_call-IsRoster self_id now (call_sweep trust) r v =
    sweep_devices-IsRoster self_id trust now r v

run_roster-keeps :
    (self_id : String) (cs : List (ℕ × RosterCall)) (r : Roster)
    → IsRoster self_id r.dev_by_id
    → IsRoster self_id (run_roster self_id cs r).dev_by_id
unfolding run_roster
run_roster-keeps self_id [] r v = v
run_roster-keeps self_id ((now, c) ∷ cs) r v =
    run_roster-keeps self_id cs _ (run_roster_call-IsRoster self_id now c r v)

-- Whatever discovery reports, and however the roster is aged, it has each device once, under its own
-- id, never this device or one without an id, each with a name, a platform and a status, and none of
-- them marked as paired.
pub run_roster-IsRoster :
    (self_id : String) (cs : List (ℕ × RosterCall))
    → IsRoster self_id (run_roster self_id cs new_roster).dev_by_id
run_roster-IsRoster self_id cs = run_roster-keeps self_id cs new_roster (empty-IsRoster self_id)

-- A push is pending since the window opened, and comes at most 1.7 seconds after that.
pub record IsPending (opened : ℕ) (r : Roster) : Type 0 where
  pub window : r.dev_window ≡ opened
  pub deadline : ℕ
  pub armed : r.dev_timer ≡ some deadline
  pub soon : deadline ≤ opened + (devices_max_delay + devices_debounce)

schedule-IsPending :
    (opened now : ℕ) (r : Roster)
    → IsPending opened r
    → IsPending opened (schedule_devices_broadcast now r)
unfolding schedule_devices_broadcast
schedule-IsPending opened now r p = elim (Bool-cases (ltb (now - r.dev_window) devices_max_delay)) [
  | inl e ↦
      rw (p.armed, schedule_devices_broadcast)
        (rw e (record {
          window = p.window;
          deadline = now + devices_debounce;
          armed = refl;
          soon = ground (arith, p.window);
        }))
  | inr e ↦ rw (p.armed, schedule_devices_broadcast) (rw e p)
]

push_if-IsPending :
    (opened : ℕ) (changed : Bool) (now : ℕ) (r : Roster)
    → IsPending opened r
    → IsPending opened (push_if changed now r)
unfolding push_if
push_if-IsPending opened true now r p = schedule-IsPending opened now r p
push_if-IsPending opened false now r p = p

-- The map does not matter to a pending push.
IsPending-map :
    (opened : ℕ) (r : Roster) (m : Dict.Dict Device)
    → IsPending opened r
    → IsPending opened (record r { dev_by_id = m })
IsPending-map opened r m p = record {
  window = p.window;
  deadline = p.deadline;
  armed = p.armed;
  soon = p.soon;
}

run_roster_call-IsPending :
    (opened : ℕ) (self_id : String) (now : ℕ) (c : RosterCall) (r : Roster)
    → IsPending opened r
    → IsPending opened (run_roster_call self_id now c r)
unfolding run_roster_call set_devices upsert_device remove_device sweep_devices
run_roster_call-IsPending opened self_id now (call_set ds) r p =
    push_if-IsPending opened _ now _ (IsPending-map opened r _ p)
run_roster_call-IsPending opened self_id now (call_upsert d) r p =
    elim (Bool-cases (str_eq (normalise_device self_id now d).id "")) [
      | inl e ↦ rw e p
      | inr e ↦ rw e (push_if-IsPending opened _ now _ (IsPending-map opened r _ p))
    ]
run_roster_call-IsPending opened self_id now (call_remove k) r p = elim (Bool-cases (str_eq k "")) [
  | inl e ↦ rw e p
  | inr e ↦ rw e (push_if-IsPending opened _ now _ (IsPending-map opened r _ p))
]
run_roster_call-IsPending opened self_id now (call_sweep trust) r p =
    push_if-IsPending opened _ now _ (IsPending-map opened r _ p)

-- A pending push stays pending: whatever changes come in before it, and however many, none of them
-- puts it off past 1.7 seconds after the window opened, and none takes it back.
pub run_roster-IsPending :
    (opened : ℕ) (self_id : String) (cs : List (ℕ × RosterCall)) (r : Roster)
    → IsPending opened r
    → IsPending opened (run_roster self_id cs r)
unfolding run_roster
run_roster-IsPending opened self_id [] r p = p
run_roster-IsPending opened self_id ((now, c) ∷ cs) r p =
    run_roster-IsPending opened self_id cs _ (run_roster_call-IsPending opened self_id now c r p)

pub upsert_device-IsPending :
    (self_id : String) (now : ℕ) (d : Device) (r : Roster)
    → r.dev_timer ≡ none
    → get r.dev_by_id d.id ≡ none
    → str_eq d.id "" ≡ false
    → str_eq d.id self_id ≡ false
    → IsPending now (upsert_device self_id now d r)
unfolding upsert_device normalise_device is_news push_if schedule_devices_broadcast
upsert_device-IsPending self_id now d r idle new named other =
    rw (other, named, new)
      (rw (idle, schedule_devices_broadcast)
        (record {
          window = refl;
          deadline = now + devices_debounce;
          armed = refl;
          soon = omega arith;
        }))

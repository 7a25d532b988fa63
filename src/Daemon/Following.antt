-- ===== src/Daemon/Following.antt =====
-- The roster against the browser: `consumeDiscovery` of daemon/cmd/daemon/main.go between
-- daemon/discovery/browse.go and daemon/server/devices.go.
use mathlib.Core.Path.{subst}
use sharing.Base.{
  ℕ, String, ◌≡◌, refl, Bool, true, false, Option, none, some, List, [], ◌∷◌, str_eq, arith, eq_iff,
  if◌then◌else◌, Bool-cases, Option-cases, inl, inr, sym, ap, ◌∙◌,
}
use sharing.Base.Dict.{Dict, get, put, delete, get-put, get-delete, is_some}
use sharing.Protocol.Constants.{platform_unknown, status_online}
use sharing.Protocol.Types.{Device}
use sharing.Discovery.Net.{Ip}
use sharing.Discovery.Browser.{Event, event_add, event_update, event_remove, Sighting, Browser}
use sharing.Discovery.Mirror.{looks, mirrored_looks, known_looks, apply_event, apply_events}
use sharing.Discovery.Events.{BrowseStep, browse, browse-mirrored}
use sharing.Server.Roster.{Roster, normalise_device, upsert_device, remove_device}
use sharing.Server.Invariant.{
  IsRoster, empty-IsRoster, get-upsert_device, upsert_device-IsRoster, remove_device-IsRoster,
  dev_by_id-push_if,
}
use sharing.Server.Debounce.{new_roster}
use sharing.Daemon.{consume_event, consume_discovery}

-- How a device looks in the roster: its blanks are filled in, and nobody is marked as paired.
abbrev pub face : Device → Device
face d = record d {
  last_seen = 0;
  status = if str_eq d.status "" then status_online else d.status;
  platform = if str_eq d.platform "" then platform_unknown else d.platform;
  name = if str_eq d.name "" then d.id else d.name;
  paired = false;
}

abbrev faced : Option Device → Option Device
faced none = none
faced (some d) = some (face d)

abbrev pub known_face : Option Sighting → Option Device
known_face none = none
known_face (some s) = some (face s.device)

record Reflects (self_id : String) (r : Roster) (m : Dict Device) : Type 0 where
  pub roster : IsRoster self_id r.dev_by_id
  pub same :
      (k : String)
      → str_eq k "" ≡ false
      → str_eq k self_id ≡ false
      → mirrored_looks (get r.dev_by_id k) ≡ faced (get m k)

looks-normalise_device :
    (self_id : String) (now : ℕ) (d : Device)
    → str_eq d.id self_id ≡ false
    → looks (normalise_device self_id now d) ≡ face d
unfolding normalise_device
looks-normalise_device self_id now d other = rw other refl

module _ (self_id : String) (now : ℕ) (d : Device) (r : Roster) where
  upsert_device_own : str_eq d.id self_id ≡ true → upsert_device self_id now d r ≡ r
  unfolding upsert_device normalise_device
  upsert_device_own own = rw own refl

  upsert_device_nameless :
      str_eq d.id self_id ≡ false → str_eq d.id "" ≡ true → upsert_device self_id now d r ≡ r
  unfolding upsert_device normalise_device
  upsert_device_nameless other nameless = rw other (rw nameless refl)

  -- A sighting changes nothing of the other devices.
  get-upsert_device_other :
      (k : String)
      → IsRoster self_id r.dev_by_id
      → str_eq d.id k ≡ false
      → get (upsert_device self_id now d r).dev_by_id k ≡ get r.dev_by_id k
  get-upsert_device_other k v h = elim (Bool-cases (str_eq d.id self_id)) [
    | inl own ↦ rw (upsert_device_own own) refl
    | inr other ↦ elim (Bool-cases (str_eq d.id "")) [
      | inl nameless ↦ rw (upsert_device_nameless other nameless) refl
      | inr named ↦ rw (get-upsert_device self_id now d r k v named other) (rw h refl)
    ]
  ]

  upsert_device-Reflects :
      (m : Dict Device)
      → Reflects self_id r m
      → Reflects self_id (upsert_device self_id now d r) (put m d.id d)
  upsert_device-Reflects m a = record {
    roster = upsert_device-IsRoster self_id now r d a.roster;
    same = λ k named other. elim (Bool-cases (str_eq d.id k)) [
      | inl h ↦
          let e = (eq_iff d.id k).0 h in
          let here = ap (λ i. str_eq i self_id) e ∙ other in
          rw
            (
              get-upsert_device self_id now d r k a.roster (ap (λ i. str_eq i "") e ∙ named) here,
              get-put m d.id k d,
            )
            (rw h (ap some (looks-normalise_device self_id now d here)))
      | inr h ↦
          rw (get-upsert_device_other k a.roster h, get-put m d.id k d)
            (rw h (a.same k named other))
    ];
  }

get-remove_device :
    (now : ℕ) (device_id k : String) (r : Roster)
    → str_eq k "" ≡ false
    → get (remove_device now device_id r).dev_by_id k
      ≡ (if str_eq device_id k then none else get r.dev_by_id k)
unfolding remove_device
get-remove_device now device_id k r named = elim (Bool-cases (str_eq device_id "")) [
  | inl e ↦ rw e (ground (arith, eq_iff device_id "", eq_iff device_id k))
  | inr e ↦ rw e (rw (dev_by_id-push_if) (get-delete r.dev_by_id device_id k))
]

same-if :
    (b : Bool) (o p : Option Device)
    → mirrored_looks o ≡ faced p
    → mirrored_looks (if b then none else o) ≡ faced (if b then none else p)
same-if true o p h = refl
same-if false o p h = h

remove_device-Reflects :
    (self_id : String) (now : ℕ) (device_id : String) (r : Roster) (m : Dict Device)
    → Reflects self_id r m
    → Reflects self_id (remove_device now device_id r) (delete m device_id)
remove_device-Reflects self_id now device_id r m a = record {
  roster = remove_device-IsRoster self_id now r device_id a.roster;
  same = λ k named other.
      rw (get-remove_device now device_id k r named, get-delete m device_id k)
        (same-if (str_eq device_id k) (get r.dev_by_id k) (get m k) (a.same k named other));
}

-- A guarded change of the map that went through is that change.
passed : (b : Bool) (m m' : Dict Device) → (if b then some m else none) ≡ some m' → m ≡ m'
passed true m m' e = cc e
passed false m m' e = cc e

passed_not : (b : Bool) (m m' : Dict Device) → (if b then none else some m) ≡ some m' → m ≡ m'
passed_not true m m' e = cc e
passed_not false m m' e = cc e

consume_event-Reflects :
    (self_id : String) (now : ℕ) (e : Event) (r : Roster) (m m' : Dict Device)
    → apply_event e m ≡ some m'
    → Reflects self_id r m
    → Reflects self_id (consume_event self_id now e r) m'
unfolding apply_event consume_event
consume_event-Reflects self_id now (event_add d) r m m' h a =
    subst (Reflects self_id _) (passed_not (is_some (get m d.id)) (put m d.id d) m' h)
      (upsert_device-Reflects self_id now d r m a)
consume_event-Reflects self_id now (event_update d) r m m' h a =
    subst (Reflects self_id _) (passed (is_some (get m d.id)) (put m d.id d) m' h)
      (upsert_device-Reflects self_id now d r m a)
consume_event-Reflects self_id now (event_remove d) r m m' h a =
    subst (Reflects self_id _) (passed (is_some (get m d.id)) (delete m d.id) m' h)
      (remove_device-Reflects self_id now d.id r m a)

-- The events in the order in which they are read.
abbrev pub events_read : List (ℕ × Event) → List Event
events_read [] = []
events_read ((now, e) ∷ es) = e ∷ events_read es

consume_discovery-Reflects :
    (self_id : String) (es : List (ℕ × Event)) (r : Roster) (m m' : Dict Device)
    → apply_events (events_read es) m ≡ some m'
    → Reflects self_id r m
    → Reflects self_id (consume_discovery self_id es r) m'
unfolding apply_events consume_discovery
consume_discovery-Reflects self_id [] r m m' h a = subst (Reflects self_id r) (passed true m m' h) a
consume_discovery-Reflects self_id ((now, e) ∷ es) r m m' h a =
    elim (Option-cases (apply_event e m)) [
      | inl c ↦ cc (rw (c, apply_events) at h)
      | inr (n, c) ↦
          consume_discovery-Reflects self_id es _ n m' (rw (c, apply_events) at h)
            (consume_event-Reflects self_id now e r m n c a)
    ]

nothing-Reflects : (self_id : String) → Reflects self_id new_roster []
unfolding get
nothing-Reflects self_id = record { roster = empty-IsRoster self_id; same = λ k named other. refl }

-- A device looks the same to the browser and in its events, so it has the same face.
face-looks :
    (o : Option Sighting) (p : Option Device)
    → known_looks o ≡ mirrored_looks p
    → known_face o ≡ faced p
face-looks none none h = refl
face-looks none (some d) h = cc h
face-looks (some s) none h = cc h
face-looks (some s) (some d) h = ap faced h

-- Whatever arrives from the network, whenever the browser's table is aged and whenever the daemon
-- reads the events from the channel: once it has read them all, the roster has every other device
-- that the browser knows and no other, each with the address, the port and the version that the
-- browser last saw, and its blanks filled in.
pub get-consume_discovery :
    (ip_text : Ip → String) (ss : List BrowseStep) (b : Browser) (self_id : String)
    (es : List (ℕ × Event)) (k : String)
    → b.known ≡ []
    → events_read es ≡ (browse ip_text ss b).1
    → str_eq k "" ≡ false
    → str_eq k self_id ≡ false
    → mirrored_looks (get (consume_discovery self_id es new_roster).dev_by_id k)
      ≡ known_face (get (browse ip_text ss b).0.known k)
get-consume_discovery ip_text ss b self_id es k fresh read named other =
    let f = browse-mirrored ip_text ss b fresh in
    let a =
      consume_discovery-Reflects self_id es new_roster [] f.mirror
        (ap (λ l. apply_events l []) read ∙ f.applied) (nothing-Reflects self_id) in
    a.same k named other ∙ sym (face-looks _ (get f.mirror k) (f.agrees.same k))

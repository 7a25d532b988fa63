-- ===== src/Discovery/Mirror.antt =====
-- The events of the browser against its table: daemon/discovery/browse.go. A consumer that keeps a
-- map of its own by the events has the devices that the browser knows.
use sharing.Base.{
  String, ◌≡◌, refl, Bool, true, false, Option, none, some, List, [], ◌∷◌, arith, str_eq, eq_iff,
  if◌then◌else◌, Bool-cases, Option-cases, inl, inr, ◌∙◌, sym, ap, ◌++◌,
}
use sharing.Base.Dict.{Dict, get, put, delete, get-put, get-delete, is_some}
use sharing.Protocol.Types.{Device}
use sharing.Discovery.Browser.{Event, event_add, event_update, event_remove, Sighting}

-- What the consumer makes of an event; `none` is that the event does not fit its map: an add of a
-- device that it has, or an update or a removal of one that it has not.
unfoldable pub apply_event : Event → Dict Device → Option (Dict Device)
apply_event (event_add d) m = if is_some (get m d.id) then none else some (put m d.id d)
apply_event (event_update d) m = if is_some (get m d.id) then some (put m d.id d) else none
apply_event (event_remove d) m = if is_some (get m d.id) then some (delete m d.id) else none

unfoldable pub apply_events : List Event → Dict Device → Option (Dict Device)
apply_events [] m = some m
apply_events (e ∷ es) m = elim (apply_event e m) [ none ↦ none | some m' ↦ apply_events es m' ]

pub single_add :
    (d : Device) (m : Dict Device)
    → get m d.id ≡ none
    → apply_events (event_add d ∷ []) m ≡ some (put m d.id d)
unfolding apply_events apply_event
single_add d m e = rw (e, apply_events)

pub single_update :
    (d : Device) (m : Dict Device) (p : Device)
    → get m d.id ≡ some p
    → apply_events (event_update d ∷ []) m ≡ some (put m d.id d)
unfolding apply_events apply_event
single_update d m p e = rw (e, apply_events)

pub single_remove :
    (d : Device) (rest : List Event) (m : Dict Device) (p : Device)
    → get m d.id ≡ some p
    → apply_events (event_remove d ∷ rest) m ≡ apply_events rest (delete m d.id)
unfolding apply_events apply_event
single_remove d rest m p e = rw (e, apply_events)

pub apply_events-append :
    (es rest : List Event) (m m' : Dict Device)
    → apply_events es m ≡ some m'
    → apply_events (es ++ rest) m ≡ apply_events rest m'
unfolding apply_events
apply_events-append [] rest m m' e = let same : m ≡ m' = ground arith in ap (apply_events rest) same
apply_events-append (x ∷ es) rest m m' e = elim (Option-cases (apply_event x m)) [
  | inl h ↦ cc (rw (h, apply_events) at e)
  | inr (n, h) ↦ rw (h, apply_events) (apply_events-append es rest n m' (rw (h, apply_events) at e))
]

-- A device but for the time at which it was seen, which an update that is held back leaves behind.
abbrev pub looks : Device → Device
looks d = record d { last_seen = 0 }

abbrev pub known_looks : Option Sighting → Option Device
known_looks none = none
known_looks (some s) = some (looks s.device)

abbrev pub mirrored_looks : Option Device → Option Device
mirrored_looks none = none
mirrored_looks (some d) = some (looks d)

-- The map of the consumer has the devices that the browser knows, and each looks the same in both.
pub record Agrees (known : Dict Sighting) (m : Dict Device) : Type 0 where
  pub keyed : (k : String) (s : Sighting) → get known k ≡ some s → s.device.id ≡ k
  pub unpaired : (k : String) (s : Sighting) → get known k ≡ some s → s.device.paired ≡ false
  pub same : (k : String) → known_looks (get known k) ≡ mirrored_looks (get m k)

-- What the consumer has after the events of a step.
pub record Follows (known : Dict Sighting) (m : Dict Device) (events : List Event) : Type 0 where
  pub mirror : Dict Device
  pub applied : apply_events events m ≡ some mirror
  pub agrees : Agrees known mirror

looks-if :
    (b : Bool) (o o' : Option Sighting) (p p' : Option Device)
    → known_looks o ≡ mirrored_looks p
    → known_looks o' ≡ mirrored_looks p'
    → known_looks (if b then o else o') ≡ mirrored_looks (if b then p else p')
looks-if true o o' p p' h k = h
looks-if false o o' p p' h k = k

module _ (known : Dict Sighting) (m : Dict Device) (a : Agrees known m) where
  pub quiet-Follows : Follows known m []
  unfolding apply_events
  quiet-Follows = record { mirror = m; applied = refl; agrees = a }

  -- A sighting that is reported.
  pub put-Agrees :
      (k : String) (s : Sighting) (d : Device)
      → s.device.id ≡ k
      → s.device.paired ≡ false
      → looks s.device ≡ looks d
      → Agrees (put known k s) (put m k d)
  put-Agrees k s d i q l = record {
    keyed = λ j t e. ground (arith, get-put known k j s, a.keyed j t, eq_iff k j);
    unpaired = λ j t e. ground (arith, get-put known k j s, a.unpaired j t);
    same = λ j.
        rw (get-put known k j s, get-put m k j d)
          (looks-if (str_eq k j) (some s) (get known j) (some d) (get m j) (ap some l) (a.same j));
  }

  -- A sighting that is not reported.
  pub put-Agrees_quiet :
      (k : String) (s : Sighting) (d : Device)
      → s.device.id ≡ k
      → s.device.paired ≡ false
      → get m k ≡ some d
      → looks s.device ≡ looks d
      → Agrees (put known k s) m
  put-Agrees_quiet k s d i q e l = record {
    keyed = λ j t e. ground (arith, get-put known k j s, a.keyed j t, eq_iff k j);
    unpaired = λ j t e. ground (arith, get-put known k j s, a.unpaired j t);
    same = λ j. rw (get-put known k j s) (elim (Bool-cases (str_eq k j)) [
      | inl h ↦ rw h (ap some l ∙ ap mirrored_looks (sym e ∙ ap (get m) ((eq_iff k j).0 h)))
      | inr h ↦ rw h (a.same j)
    ]);
  }

  pub delete-Agrees : (k : String) → Agrees (delete known k) (delete m k)
  delete-Agrees k = record {
    keyed = λ j t e. ground (arith, get-delete known k j, a.keyed j t);
    unpaired = λ j t e. ground (arith, get-delete known k j, a.unpaired j t);
    same = λ j.
        rw (get-delete known k j, get-delete m k j)
          (looks-if (str_eq k j) none (get known j) none (get m j) refl (a.same j));
  }

  -- What the consumer has for a device that the browser knows, and for one that it does not.
  pub mirror_known :
      (k : String) (s : Sighting)
      → get known k ≡ some s
      → (d : Device) × (get m k ≡ some d) × (looks s.device ≡ looks d)
  mirror_known k s e = elim (Option-cases (get m k)) [
    | inl h ↦ cc (ap known_looks e, a.same k, ap mirrored_looks h)
    | inr (d, h) ↦ (d, h, ground (arith, ap known_looks e, a.same k, ap mirrored_looks h))
  ]

  pub mirror_unknown : (k : String) → get known k ≡ none → get m k ≡ none
  mirror_unknown k e = elim (Option-cases (get m k)) [
    | inl h ↦ h
    | inr (d, h) ↦ cc (ap known_looks e, a.same k, ap mirrored_looks h)
  ]

pub nothing-Agrees : Agrees [] []
unfolding get
nothing-Agrees = record { keyed = λ k s e. cc e; unpaired = λ k s e. cc e; same = λ k. refl }

-- ===== src/Discovery/Folding.antt =====
-- The events of one sighting and of one retirement, against the map of a consumer:
-- daemon/discovery/browse.go.
use sharing.Base.{
  ℕ, String, ◌≡◌, refl, false, not, ◌&&◌, ◌-◌, Option, none, some, List, [], ◌∷◌, arith, eq_iff,
  Bool-cases, Option-cases, inl, inr, ◌∙◌, sym, ap, ltb,
}
use sharing.Base.Dict.{Dict, get, put, delete}
use sharing.Protocol.Constants.{status_offline}
use sharing.Protocol.Types.{Device}
use sharing.Discovery.Browser.{
  Event, Sighting, Browser, emit_refresh_after, visibly_changed, fold_sighting, retire,
}
use sharing.Discovery.Mirror.{
  apply_event, apply_events, looks, Agrees, Follows, quiet-Follows, put-Agrees, put-Agrees_quiet,
  delete-Agrees, mirror_known, mirror_unknown, single_add, single_update, single_remove,
}

-- The event of `observe`, if there is one.
abbrev pub emitted : Option Event → List Event
emitted none = []
emitted (some e) = e ∷ []

-- A sighting that changes nothing that can be seen.
looks-unchanged :
    (p d : Device)
    → p.id ≡ d.id
    → p.paired ≡ d.paired
    → visibly_changed p d ≡ false
    → looks d ≡ looks p
unfolding visibly_changed
looks-unchanged p d i q h = ground (
  arith,
  eq_iff p.address d.address,
  eq_iff p.name d.name,
  eq_iff p.version d.version,
  eq_iff p.platform d.platform,
  eq_iff p.status d.status,
)

module _ (b : Browser) (m : Dict Device) (a : Agrees b.known m) (now : ℕ) (dev : Device)
    (q : dev.paired ≡ false) where
  add-Follows :
      get b.known dev.id ≡ none
      → Follows
          (fold_sighting dev.id now dev none b).0.known
          m
          (emitted (fold_sighting dev.id now dev none b).1)
  unfolding fold_sighting apply_events apply_event
  add-Follows e =
      let s : Sighting = record { device = dev; seen = now; emitted = now } in
      record {
        mirror = put m dev.id dev;
        applied = single_add dev m (mirror_unknown b.known m a dev.id e);
        agrees = put-Agrees b.known m a dev.id s dev refl q refl;
      }

  update-Follows :
      (prev : Sighting)
      → get b.known dev.id ≡ some prev
      → Follows
          (fold_sighting dev.id now dev (some prev) b).0.known
          m
          (emitted (fold_sighting dev.id now dev (some prev) b).1)
  unfolding fold_sighting apply_events apply_event
  update-Follows prev e =
      let (d, has, same) = mirror_known b.known m a dev.id prev e in
      elim (Bool-cases
        (not (visibly_changed prev.device dev) && ltb (now - prev.emitted) emit_refresh_after)) [
          | inl h ↦ rw h (record {
            mirror = m;
            applied = refl;
            agrees =
                put-Agrees_quiet b.known m a dev.id
                  (record { device = dev; seen = now; emitted = prev.emitted }) d refl q has
                  (looks-unchanged prev.device dev (a.keyed dev.id prev e)
                      (a.unpaired dev.id prev e ∙ sym q) (ground arith)
                    ∙ same);
          })
          | inr h ↦ rw h (record {
            mirror = put m dev.id dev;
            applied = single_update dev m d has;
            agrees =
                put-Agrees b.known m a dev.id (record { device = dev; seen = now; emitted = now })
                  dev refl q refl;
          })
        ]

  pub fold_sighting-Follows :
      (o : Option Sighting)
      → get b.known dev.id ≡ o
      → Follows
          (fold_sighting dev.id now dev o b).0.known
          m
          (emitted (fold_sighting dev.id now dev o b).1)
  fold_sighting-Follows none e = add-Follows e
  fold_sighting-Follows (some prev) e = update-Follows prev e

-- The events of a retirement, before which the browser knew each device under its id.
pub retire-Follows :
    (ids : List String) (known : Dict Sighting) (m : Dict Device)
    → Agrees known m
    → Follows (retire ids known).0 m (retire ids known).1
unfolding retire
retire-Follows [] known m a = quiet-Follows known m a
retire-Follows (id ∷ ids) known m a = elim (Option-cases (get known id)) [
  | inl e ↦ rw (e, retire) (retire-Follows ids known m a)
  | inr (s, e) ↦
      let (d, has, same) = mirror_known known m a id s e in
      let f = retire-Follows ids (delete known id) (delete m id) (delete-Agrees known m a id) in
      rw (e, retire)
        (record {
          mirror = f.mirror;
          applied =
              single_remove (record s.device { status = status_offline }) _ m d
                (ap (get m) (a.keyed id s e) ∙ has)
              ∙ ap (λ j. apply_events (retire ids (delete known id)).1 (delete m j))
                  (a.keyed id s e)
              ∙ f.applied;
          agrees = f.agrees;
        })
]

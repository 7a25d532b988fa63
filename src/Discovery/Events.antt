-- ===== src/Discovery/Events.antt =====
-- The events of `Browse` of daemon/discovery/browse.go over a whole run.
use sharing.Base.{
  ℕ, String, ◌≡◌, refl, some, List, [], ◌∷◌, ◌++◌, arith, str_eq, Bool-cases, Option-cases, inl,
  inr, ◌∙◌,
}
use sharing.Base.Dict.{Dict, get}
use sharing.Base.Sorting.{sort}
use sharing.Base.Time.{unix_milli}
use sharing.Protocol.Constants.{txt_key_id}
use sharing.Protocol.Types.{Device}
use sharing.Discovery.Txt.{parse_txt, field, is_self, device_from_txt}
use sharing.Discovery.Net.{Ip}
use sharing.Discovery.Address.{AddrPref, pick}
use sharing.Discovery.Browser.{
  Event, ServiceEntry, Sighting, Browser, usable_port, refresh_pref, observe_at, observe,
  expired_ids, sweep, text_less,
}
use sharing.Discovery.Mirror.{
  apply_events, Agrees, Follows, quiet-Follows, apply_events-append, nothing-Agrees,
}
use sharing.Discovery.Folding.{emitted, fold_sighting-Follows, retire-Follows}

known-refresh_pref :
    (fresh : AddrPref) (now : ℕ) (b : Browser) → (refresh_pref fresh now b).known ≡ b.known
unfolding refresh_pref
known-refresh_pref fresh now b = ground arith

-- A step of `Browse`: an entry that arrives, with the local view as it is then, or a tick.
pub data BrowseStep : Type 0 where
  entry_arrives : AddrPref → ℕ → ServiceEntry → BrowseStep
  ticks : ℕ → BrowseStep

module _ (ip_text : Ip → String) where
  unfoldable pub browse_step : BrowseStep → Browser → Browser × List Event
  browse_step (entry_arrives fresh now entry) b =
      let (b', e) = observe ip_text fresh now entry b in (b', emitted e)
  browse_step (ticks now) b = sweep now b

  unfoldable pub browse : List BrowseStep → Browser → Browser × List Event
  browse [] b = (b, [])
  browse (s ∷ ss) b =
      let (b', es) = browse_step s b in let (b'', rest) = browse ss b' in (b'', es ++ rest)

  observe_at-Follows :
      (now : ℕ) (entry : ServiceEntry) (port : ℕ) (b : Browser) (m : Dict Device)
      → Agrees b.known m
      → let result =
          observe_at ip_text now entry (field (parse_txt entry.text) txt_key_id) port b in
        Follows result.0.known m (emitted result.1)
  unfolding observe_at device_from_txt
  observe_at-Follows now entry port b m a =
      elim (Option-cases (pick b.pref entry.addr_ipv4 entry.addr_ipv6)) [
        | inl e ↦ rw (e, observe_at) (quiet-Follows b.known m a)
        | inr (addr, e) ↦
            let dev = device_from_txt entry.text (ip_text addr) port (unix_milli now) in
            rw (e, observe_at) (fold_sighting-Follows b m a now dev refl (get b.known dev.id) refl)
      ]

  observe-Follows :
      (fresh : AddrPref) (now : ℕ) (entry : ServiceEntry) (b : Browser) (m : Dict Device)
      → Agrees b.known m
      → Follows
          (observe ip_text fresh now entry b).0.known
          m
          (emitted (observe ip_text fresh now entry b).1)
  unfolding observe
  observe-Follows fresh now entry b m a = elim (Bool-cases (is_self entry.text b.self_id)) [
    | inl e ↦ rw e (quiet-Follows b.known m a)
    | inr e ↦ elim (Bool-cases (str_eq (field (parse_txt entry.text) txt_key_id) "")) [
      | inl h ↦ rw (e, h) (quiet-Follows b.known m a)
      | inr h ↦ elim (Option-cases (usable_port entry.port)) [
        | inl o ↦ rw (e, h, o) (quiet-Follows b.known m a)
        | inr (port, o) ↦
            rw (e, h, o)
              (observe_at-Follows now entry port (refresh_pref fresh now b) m
                (rw known-refresh_pref a))
      ]
    ]
  ]

  browse_step-Follows :
      (s : BrowseStep) (b : Browser) (m : Dict Device)
      → Agrees b.known m
      → Follows (browse_step s b).0.known m (browse_step s b).1
  unfolding browse_step sweep
  browse_step-Follows (entry_arrives fresh now entry) b m a = observe-Follows fresh now entry b m a
  browse_step-Follows (ticks now) b m a =
      retire-Follows (sort text_less (expired_ids now b.known)) b.known m a

  append-Follows :
      (known : Dict Sighting) (m m' : Dict Device) (es rest : List Event)
      → apply_events es m ≡ some m'
      → Follows known m' rest
      → Follows known m (es ++ rest)
  append-Follows known m m' es rest e f = record {
    mirror = f.mirror;
    applied = apply_events-append es rest m m' e ∙ f.applied;
    agrees = f.agrees;
  }

  browse-Follows :
      (ss : List BrowseStep) (b : Browser) (m : Dict Device)
      → Agrees b.known m
      → Follows (browse ss b).0.known m (browse ss b).1
  unfolding browse
  browse-Follows [] b m a = quiet-Follows b.known m a
  browse-Follows (s ∷ ss) b m a =
      let f = browse_step-Follows s b m a in
      append-Follows _ m f.mirror (browse_step s b).1 _ f.applied
        (browse-Follows ss (browse_step s b).0 f.mirror f.agrees)

  -- From an empty table, whatever arrives and whenever the table is aged, a consumer that keeps a
  -- map of its own by the events finds each of them in place - it is told to add only what it has
  -- not, and to update or remove only what it has - and its map has the devices that the browser
  -- knows, each looking the same but for the time at which it was seen.
  pub browse-mirrored :
      (ss : List BrowseStep) (b : Browser)
      → b.known ≡ []
      → Follows (browse ss b).0.known [] (browse ss b).1
  browse-mirrored ss b e = browse-Follows ss b [] (rw e nothing-Agrees)

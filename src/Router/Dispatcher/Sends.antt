-- ===== src/Router/Dispatcher/Sends.antt =====
-- The sends of a whole dispatch.
use mathlib.Core.Path.{subst}
use geodineum_comms.Prelude.{
  String, ◌≡◌, refl, ap, inl, inr, Bool, true, false, Option, none, some, List, Bool-cases,
  if◌then◌else◌,
}
use geodineum_comms.Errors.{CommsError, Result, ok, err}
use geodineum_comms.Message.{CommsMessage}
use geodineum_comms.Settings.{SiteSettings}
use geodineum_comms.Settings.Store.{SettingsStore, get_settings, cached, loaded}
use geodineum_comms.Prelude.Dict.{lookup}
use geodineum_comms.Router.Channel.{Sent, Providers, World, MessageDispatcher, send_block}
use geodineum_comms.Router.Channel.Gate.{Grows, same, more, Grows-map}
use geodineum_comms.Router.Target.{Target, continue, in_world}
use geodineum_comms.Router.Target.Choice.{Chooses, IsPermitted, target_of-Chooses}
use geodineum_comms.Router.Dispatcher.{dispatch_to, with_settings, dispatch_filtered}
use geodineum_comms.Router.Dispatcher.Allowed.{IsAllowed, dispatch_to-Grows}

-- Reading the settings leaves the counters and the links as they are.
record SameBooks (s t : SettingsStore) : Type 0 where
  counters : t.counters ≡ s.counters
  links : t.links ≡ s.links

get_settings-SameBooks : (site : String) (s : SettingsStore) → SameBooks s (get_settings site s).0
unfolding get_settings
get_settings-SameBooks site s = from_cache (lookup site s.cache)
  where
    from_loaded : (o : Option (Option SiteSettings)) → SameBooks s (loaded site s o).0
    from_loaded none = record { counters = refl; links = refl }
    from_loaded (some none) = record { counters = refl; links = refl }
    from_loaded (some (some x)) = record { counters = refl; links = refl }

    from_valkey :
        (b : Bool) (x : CommsError)
        → SameBooks s (if b then loaded site s (lookup site s.stored) else (s, err x)).0
    from_valkey true x = from_loaded (lookup site s.stored)
    from_valkey false x = record { counters = refl; links = refl }

    from_cache :
        (o : Option SiteSettings)
        → SameBooks s
            (cached s o (
              if s.reads
              then loaded site s (lookup site s.stored)
              else (s, err (CommsError.valkey s.failure)))).0
    from_cache none = from_valkey s.reads (CommsError.valkey s.failure)
    from_cache (some x) = record { counters = refl; links = refl }

module _ (p : Providers) (d : MessageDispatcher) (message : CommsMessage)
    (only : Option (List String)) where
  IsPermitted-SameBooks :
      (settings : SiteSettings) (w w' : World)
      → SameBooks w.store w'.store
      → IsPermitted settings message w'
      → IsPermitted settings message w
  IsPermitted-SameBooks settings w w' b q = record {
    of_type = q.of_type;
    below_cap = rw (← b.counters) q.below_cap;
  }

  IsAllowed-SameBooks :
      (settings : SiteSettings) (w w' : World) (s : Sent)
      → SameBooks w.store w'.store
      → IsAllowed p d message only w' settings s
      → IsAllowed p d message only w settings s
  IsAllowed-SameBooks settings w w' s b h = record {
    open_gate = h.open_gate;
    registered = h.registered;
    enabled = h.enabled;
    of_message = h.of_message;
    narrowed = h.narrowed;
    to_site = h.to_site;
    to_one = λ to e t.
        let (c, r, q) = h.to_one to e t in (c, r, IsPermitted-SameBooks settings w w' b q);
    to_account = λ to consumer e t.
        let (c, q, f) = h.to_account to consumer e t in
        (
          c,
          IsPermitted-SameBooks settings w w' b q,
          λ site l. let (chat, r, k) = f site l in (chat, r, rw (← b.links) k),
        );
  }

  -- A send that the settings of an enabled site allow.
  pub record IsAllowedBySite (w : World) (s : Sent) : Type 0 where
    pub settings : SiteSettings
    pub from_store : (get_settings message.site_id w.store).1 ≡ ok (some settings)
    pub site_enabled : settings.enabled ≡ true
    pub allowed : IsAllowed p d message only w settings s

  dispatch_chosen :
      (settings : SiteSettings) (w : World) (r : World × Result Target)
      → Chooses d p settings message w r
      → Grows
          (IsAllowed p d message only w settings)
          w.sent
          (continue (dispatch_to p d settings message only) r).0.sent
  dispatch_chosen settings w (w', err e) c = rw c.quiet same
  dispatch_chosen settings w (w', ok t) c =
      subst
        (λ l.
          Grows (IsAllowed p d message only w settings) l
            (dispatch_to p d settings message only t w').0.sent)
        c.quiet (dispatch_to-Grows p d message only w settings w' t (c.suits t refl))

  with_settings-Grows :
      (w : World) (s : SettingsStore) (found : Option SiteSettings)
      → get_settings message.site_id w.store ≡ (s, ok found)
      → Grows
          (IsAllowedBySite w)
          w.sent
          (with_settings p d message only found (record w { store = s })).0.sent
  with_settings-Grows w s none e = same
  with_settings-Grows w s (some settings) e = elim (Bool-cases settings.enabled) [
    | inr off ↦ rw off same
    | inl on ↦ simp on (
        Grows-map
          (λ x h. record {
            settings = settings;
            from_store = ap (λ r. r.1) e;
            site_enabled = on;
            allowed = IsAllowed-SameBooks settings w (record w { store = s }) x (books e) h;
          })
          (dispatch_chosen settings (record w { store = s }) _
            (target_of-Chooses d p settings message (record w { store = s }) message.to refl)))
  ]
    where
      books :
          {o : Option SiteSettings}
          → get_settings message.site_id w.store ≡ (s, ok o)
          → SameBooks w.store s
      books e' = rw e' at (get_settings-SameBooks message.site_id w.store)

  found-Grows :
      (w : World) (r : SettingsStore × Result (Option SiteSettings))
      → get_settings message.site_id w.store ≡ r
      → Grows
          (IsAllowedBySite w)
          w.sent
          (continue (with_settings p d message only) (in_world w r)).0.sent
  found-Grows w (s, err e) h = same
  found-Grows w (s, ok found) h = with_settings-Grows w s found h

  -- Every send of a dispatch is allowed by the settings of its site, which are enabled: past the
  -- delivery switch and the environment gate, over a registered, enabled channel, of those that a retry is
  -- restricted to. A message for everyone goes only over channels that its instructions name, or without
  -- them the first rule for its type, or else that the site has enabled, and only to recipients whose
  -- filters take it; an addressed one only to that person by email or that account by Telegram.
  pub dispatch_filtered_sends :
      (w : World) → Grows (IsAllowedBySite w) w.sent (dispatch_filtered p d message only w).0.sent
  unfolding dispatch_filtered
  dispatch_filtered_sends w = found-Grows w (get_settings message.site_id w.store) refl

  blocked_sent :
      (w : World) (marker : String) (l : List Sent)
      → send_block d.delivery_off d.allow_nonprod_send message.environment ≡ some marker
      → Grows (IsAllowedBySite w) w.sent l
      → l ≡ w.sent
  blocked_sent w marker l b same = refl
  blocked_sent w marker l b (more a g) = absurd (closed a.allowed.open_gate)
    where
      closed : send_block d.delivery_off d.allow_nonprod_send message.environment ≡ none → ⊥
      closed o = cc

  -- With delivery off, or for a message that is not of production without the daemon's leave, no
  -- channel's `send` is called, whatever the settings and the message say.
  pub dispatch_blocked :
      (w : World) (marker : String)
      → send_block d.delivery_off d.allow_nonprod_send message.environment ≡ some marker
      → (dispatch_filtered p d message only w).0.sent ≡ w.sent
  dispatch_blocked w marker b = blocked_sent w marker _ b (dispatch_filtered_sends w)

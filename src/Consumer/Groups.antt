-- ===== src/Consumer/Groups.antt =====
-- Which streams of src/consumer/stream_reader.rs have the consumer group: XREADGROUP fails as a whole if
-- one of the streams that it names has none.
use geodineum_comms.Prelude.{
  String, ◌≡◌, refl, true, false, none, List, [], ◌∷◌, eqb, ltb, ◌||◌, ◌-◌, if◌then◌else◌, arith,
  inl, inr, ◌≢◌, Bool-cases, eq_iff, ◌==◌,
}
use geodineum_comms.Prelude.Texts.{contains}
use geodineum_comms.Errors.{CommsError, Result, ok, err}
use geodineum_comms.Consumer.Discovery.{SiteDiscovery, discover_sites, discovered, get_stream_key}
use geodineum_comms.Consumer.Reading.{
  StreamConsumer, Answers, ensure_consumer_group, go_on, ensure_groups, grouped, with_sites,
  sync_groups, next_try, maybe_rediscover,
}

-- every stream that is read has the group
abbrev pub IsCovered : StreamConsumer → Type 0
IsCovered c =
    (site : String)
    → contains site c.site_discovery.known_sites ≡ true
    → contains (get_stream_key site c.site_discovery) c.groups ≡ true

err≢ok : {A : Type 0} {a : A} {e : CommsError} → err e ≢ ok a
err≢ok q = cc

Covers : SiteDiscovery → List String → List String → Type 0
Covers d sites groups =
    (site : String) → contains site sites ≡ true → contains (get_stream_key site d) groups ≡ true

Keeps : List String → List String → Type 0
Keeps before groups = (key : String) → contains key before ≡ true → contains key groups ≡ true

ensure_consumer_group-Keeps :
    (a : Answers) (key : String) (groups : List String)
    → Keeps groups (ensure_consumer_group a key groups).0
unfolding ensure_consumer_group Keeps
ensure_consumer_group-Keeps a key groups other h = ground arith

ensure_consumer_group_adds :
    (a : Answers) (key : String) (groups : List String)
    → (ensure_consumer_group a key groups).1 ≡ ok tt
    → contains key (ensure_consumer_group a key groups).0 ≡ true
unfolding ensure_consumer_group
ensure_consumer_group_adds a key groups h = ground (arith, eq_iff key key)

-- the loop's result covers its sites, and keeps what was there
record IsGrouped (d : SiteDiscovery) (sites before : List String)
    (r : List String × Result (Unit {0})) : Type 0 where
  keeps : Keeps before r.0
  covers : r.1 ≡ ok tt → Covers d sites r.0

Covers-cons :
    (d : SiteDiscovery) (site : String) (sites groups : List String)
    → contains (get_stream_key site d) groups ≡ true
    → Covers d sites groups
    → Covers d (site ∷ sites) groups
unfolding Covers
Covers-cons d site sites groups h hs other m = elim (Bool-cases (site == other)) [
  | inl same ↦ rw (← (eq_iff site other).0 same) h
  | inr differ ↦ hs other (rw differ at m)
]

go_on-IsGrouped :
    (a : Answers) (d : SiteDiscovery) (site : String) (sites before : List String)
    (r : List String × Result (Unit {0}))
    → Keeps before r.0
    → (r.1 ≡ ok tt → contains (get_stream_key site d) r.0 ≡ true)
    → IsGrouped d sites r.0 (ensure_groups a d sites r.0)
    → IsGrouped d (site ∷ sites) before (go_on (ensure_groups a d sites) r)
unfolding Keeps
go_on-IsGrouped a d site sites before (groups, ok u) k h g = record {
  keeps = λ key m. g.keeps key (k key m);
  covers = λ e. Covers-cons d site sites _ (g.keeps _ (h refl)) (g.covers e);
}
go_on-IsGrouped a d site sites before (groups, err e) k h g = record {
  keeps = k;
  covers = λ q. absurd (err≢ok q);
}

ensure_groups-IsGrouped :
    (a : Answers) (d : SiteDiscovery) (sites groups : List String)
    → IsGrouped d sites groups (ensure_groups a d sites groups)
unfolding ensure_groups Keeps Covers
ensure_groups-IsGrouped a d [] groups = record {
  keeps = λ key m. m;
  covers = λ e site m. absurd (no_member m);
}
  where
    no_member : false ≡ true → ⊥
    no_member q = cc
ensure_groups-IsGrouped a d (site ∷ sites) groups =
    go_on-IsGrouped a d site sites groups (ensure_consumer_group a (get_stream_key site d) groups)
      (ensure_consumer_group-Keeps a (get_stream_key site d) groups)
      (ensure_consumer_group_adds a (get_stream_key site d) groups)
      (ensure_groups-IsGrouped a d sites _)

grouped-IsCovered :
    (a : Answers) (c : StreamConsumer) (r : List String × Result (Unit {0}))
    → IsGrouped c.site_discovery c.site_discovery.known_sites c.groups r
    → (grouped a c r).1 ≡ ok tt
    → IsCovered (grouped a c r).0
unfolding Covers
grouped-IsCovered a c (groups, ok u) g e = g.covers refl
grouped-IsCovered a c (groups, err x) g e = absurd (err≢ok e)

synced-IsCovered :
    (a : Answers) (c : StreamConsumer) (keys : Result (List String))
    → (with_sites a c (discover_sites keys a.meta c.site_discovery)).1 ≡ ok tt
    → IsCovered (with_sites a c (discover_sites keys a.meta c.site_discovery)).0
unfolding discover_sites
synced-IsCovered a c (err e) h = absurd (err≢ok h)
synced-IsCovered a c (ok keys) h =
    let d = record c.site_discovery { known_sites = discovered keys a.meta } in
    grouped-IsCovered a (record c { site_discovery = d }) _
      (ensure_groups-IsGrouped a d d.known_sites c.groups) h

-- Where a refresh of the streams succeeds, every stream that the consumer then reads has the group.
pub sync_groups-IsCovered :
    (a : Answers) (c : StreamConsumer) → (sync_groups a c).1 ≡ ok tt → IsCovered (sync_groups a c).0
unfolding sync_groups
sync_groups-IsCovered a c h = synced-IsCovered a c a.keys h

abbrev pub NoGroupFails : Answers → Type 0
NoGroupFails a = (key : String) → a.no_group key ≡ none

ensure_consumer_group_ok :
    (a : Answers) (key : String) (groups : List String)
    → NoGroupFails a
    → (ensure_consumer_group a key groups).1 ≡ ok tt
unfolding ensure_consumer_group
ensure_consumer_group_ok a key groups n = ground (arith, n key)

go_on_ok :
    (f : List String → List String × Result (Unit {0})) (r : List String × Result (Unit {0}))
    → r.1 ≡ ok tt
    → ((groups : List String) → (f groups).1 ≡ ok tt)
    → (go_on f r).1 ≡ ok tt
go_on_ok f (groups, ok u) h hs = hs groups
go_on_ok f (groups, err e) h hs = h

ensure_groups_ok :
    (a : Answers) (d : SiteDiscovery) (sites groups : List String)
    → NoGroupFails a
    → (ensure_groups a d sites groups).1 ≡ ok tt
unfolding ensure_groups
ensure_groups_ok a d [] groups n = refl
ensure_groups_ok a d (site ∷ sites) groups n =
    go_on_ok (ensure_groups a d sites) (ensure_consumer_group a (get_stream_key site d) groups)
      (ensure_consumer_group_ok a (get_stream_key site d) groups n)
      (λ others. ensure_groups_ok a d sites others n)

grouped_ok :
    (a : Answers) (c : StreamConsumer) (r : List String × Result (Unit {0}))
    → r.1 ≡ ok tt
    → (grouped a c r).1 ≡ ok tt
grouped_ok a c (groups, ok u) h = refl
grouped_ok a c (groups, err e) h = h

next_try_ok :
    (a : Answers) (r : StreamConsumer × Result (Unit {0}))
    → r.1 ≡ ok tt
    → IsCovered r.0
    → IsCovered (next_try a r)
next_try_ok a (c, ok u) h k = k
next_try_ok a (c, err e) h k = absurd (err≢ok h)

next_try-IsCovered :
    (a : Answers) (c : StreamConsumer) (keys : Result (List String))
    → NoGroupFails a
    → IsCovered c
    → IsCovered (next_try a (with_sites a c (discover_sites keys a.meta c.site_discovery)))
unfolding discover_sites
next_try-IsCovered a c (err e) n h = h
next_try-IsCovered a c (ok keys) n h = next_try_ok a _ fine (synced-IsCovered a c (ok keys) fine)
  where
    fine : (with_sites a c (discover_sites (ok keys) a.meta c.site_discovery)).1 ≡ ok tt
    fine =
        let d = record c.site_discovery { known_sites = discovered keys a.meta } in
        grouped_ok a (record c { site_discovery = d }) (ensure_groups a d d.known_sites c.groups)
          (ensure_groups_ok a d d.known_sites c.groups n)

-- A round keeps it so that every stream that is read has the group, a scan of ValKey that fails
-- included, as long as the group can be made on every stream that has none.
pub maybe_rediscover-IsCovered :
    (a : Answers) (c : StreamConsumer)
    → NoGroupFails a
    → IsCovered c
    → IsCovered (maybe_rediscover a c)
unfolding maybe_rediscover sync_groups
maybe_rediscover-IsCovered a c n h =
    elim (eqb c.discovery_interval 0 || ltb (a.now - c.last_discovery) c.discovery_interval)
      as (λ early. IsCovered (
        if early
        then c
        else next_try a (with_sites a c (discover_sites a.keys a.meta c.site_discovery)))) [
          | true ↦ h
          | false ↦ next_try-IsCovered a c a.keys n h
        ]

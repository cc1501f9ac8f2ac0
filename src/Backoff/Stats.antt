-- ===== src/Backoff/Stats.antt =====
-- The statistics of `BackoffTracker` account for every site once.
use geodineum_comms.Prelude.{ℕ, ◌+◌, String, ◌≡◌, [], ◌∷◌, arith, length}
use geodineum_comms.Prelude.Dict.{Dict}
use geodineum_comms.Backoff.{
  SiteBackoffState, BackoffTracker, BackoffStats, no_stats, count_site, stats_from, stats,
}

classes : BackoffStats → ℕ
classes n = n.healthy + n.in_backoff + n.unhealthy

classes-count_site :
    (now : ℕ) (t : BackoffTracker) (site : String) (s : SiteBackoffState) (n : BackoffStats)
    → classes (count_site now t site s n) ≡ classes n + 1
unfolding classes count_site
classes-count_site now t site s n = ground arith

classes-stats_from :
    (now : ℕ) (t : BackoffTracker) (n : BackoffStats) (m : Dict SiteBackoffState)
    → classes (stats_from now t n m) ≡ classes n + length m
unfolding stats_from
classes-stats_from now t n [] = omega arith
classes-stats_from now t n ((site, s) ∷ m) = omega (
  arith,
  classes-stats_from now t (count_site now t site s n) m,
  classes-count_site now t site s n,
)

-- Every site is healthy, in backoff or unhealthy, and is counted in one class.
pub stats_partition :
    (now : ℕ) (t : BackoffTracker)
    → (stats now t).healthy + (stats now t).in_backoff + (stats now t).unhealthy
      ≡ (stats now t).total_sites
unfolding stats classes
stats_partition now t = omega (arith, classes-stats_from now t no_stats t.states)

-- ===== src/Retry/Attempts.antt =====
-- How the attempts of a message are counted, and when it is given up.
use geodineum_comms.Prelude.{
  ℕ, ◌+◌, ◌*◌, ◌%◌, ◌^◌, ◌≤◌, ◌<◌, String, ◌==◌, eq_refl, ◌≡◌, inl, inr, true, false, Option, none,
  some, arith, leb, Bool-cases, refl, ap, ◌∙◌, List,
}
use geodineum_comms.Prelude.Dict.{lookup, insert, remove, lookup-insert, lookup-remove}
use geodineum_comms.Settings.{RetrySettings}
use geodineum_comms.Retry.{
  RetryState, Entry, Store, Reply, ok, err, Commands, Failure, retry_key, get_retry_state,
  clear_retry_state, calculate_next_retry, failed_again, fresh, save, gave_up, schedule,
  from_loaded, record_failure, get_due_retries, due_from, Scan, ttl_secs,
}
use geodineum_comms.Retry.Due.{Has, due-alive}
use geodineum_comms.Retry.Delay.{InRange, final_delay_bounds}

-- Every state in ValKey has had fewer failures than the limit.
abbrev pub IsBounded : ℕ → Store → Type 0
IsBounded limit m =
    (key : String) (e : Entry) (s : RetryState)
    → lookup key m ≡ some e
    → e.state ≡ some s
    → s.attempts < limit

-- All commands succeed.
abbrev pub reachable : Commands
reachable = record { get = true; set = true; expire = true; del = true }

remove-IsBounded :
    (limit : ℕ) (k : String) (m : Store) → IsBounded limit m → IsBounded limit (remove k m)
remove-IsBounded limit k m h key e s p q = ground (arith, h key e s, lookup-remove k key m)

insert-IsBounded :
    (limit : ℕ) (k : String) (s : RetryState) (x : Option ℕ) (m : Store)
    → s.attempts < limit
    → IsBounded limit m
    → IsBounded limit (insert k (record { state = some s; expires = x }) m)
insert-IsBounded limit k s x m low h key e t p q = ground (
  arith,
  h key e t,
  lookup-insert k key (let n : Entry = record { state = some s; expires = x } in n) m,
)

gave_up-store : (r : Store × Reply (Unit {0})) → (gave_up r).0 ≡ r.0
gave_up-store (m, ok u) = refl
gave_up-store (m, err e) = refl

pub clear-IsBounded :
    (c : Commands) (limit : ℕ) (site id : String) (m : Store)
    → IsBounded limit m
    → IsBounded limit (clear_retry_state c site id m).0
unfolding clear_retry_state
clear-IsBounded c limit site id m h = elim (Bool-cases c.del) [
  | inl done ↦ rw done (remove-IsBounded limit (retry_key site id) m h)
  | inr failed ↦ rw failed h
]

save-IsBounded :
    (c : Commands) (now : ℕ) (settings : RetrySettings) (key : String) (s : RetryState) (m : Store)
    → s.attempts < settings.max_attempts
    → IsBounded settings.max_attempts m
    → IsBounded settings.max_attempts (save c now settings key s m).0
unfolding save
save-IsBounded c now settings key s m low h = elim (Bool-cases c.set) [
  | inl done ↦ rw done (insert-IsBounded settings.max_attempts key s _ m low h)
  | inr failed ↦ rw failed h
]

module _ (gen_range : ℕ → ℕ) (c : Commands) (now : ℕ) (settings : RetrySettings) where
  schedule-IsBounded :
      (f : Failure) (s : RetryState) (m : Store)
      → IsBounded settings.max_attempts m
      → IsBounded settings.max_attempts (schedule gen_range c now settings f s m).0
  unfolding schedule
  schedule-IsBounded f s m h =
      elim (Bool-cases (leb settings.max_attempts (failed_again now f s).attempts)) [
        | inl stop ↦ rw (stop, gave_up-store) (clear-IsBounded c _ f.site_id f.message_id m h)
        | inr more ↦ rw more (save-IsBounded c now settings _ _ m (ground arith) h)
      ]

  from_loaded-IsBounded :
      (f : Failure) (m : Store) (r : Reply (Option RetryState))
      → IsBounded settings.max_attempts m
      → IsBounded settings.max_attempts
          (from_loaded (λ s. schedule gen_range c now settings f s m) (fresh now f) m r).0
  from_loaded-IsBounded f m (ok none) h = schedule-IsBounded f (fresh now f) m h
  from_loaded-IsBounded f m (ok (some s)) h = schedule-IsBounded f s m h
  from_loaded-IsBounded f m (err e) h = h

  -- No failure, of any message, brings a state with as many failures as the limit into ValKey,
  -- whatever commands fail.
  pub record_failure-IsBounded :
      (f : Failure) (m : Store)
      → IsBounded settings.max_attempts m
      → IsBounded settings.max_attempts (record_failure gen_range c now settings f m).0
  unfolding record_failure
  record_failure-IsBounded f m h =
      from_loaded-IsBounded f m (get_retry_state c now f.site_id f.message_id m) h

abbrev pub state_of : Option RetryState → ℕ → Failure → RetryState
state_of none now f = fresh now f
state_of (some s) now f = s

module _ (gen_range : ℕ → ℕ) (now : ℕ) (settings : RetrySettings) (f : Failure) (m : Store)
    (old : Option RetryState)
    (loaded : get_retry_state reachable now f.site_id f.message_id m ≡ ok old) where
  abbrev attempts' : ℕ
  attempts' = ((state_of old now f).attempts + 1) % 2 ^ 32

  abbrev outcome : Store × Reply (Option RetryState)
  outcome = record_failure gen_range reachable now settings f m

  outcome_lem : outcome ≡ schedule gen_range reachable now settings f (state_of old now f) m
  unfolding record_failure
  outcome_lem =
      rw loaded
        (elim old
          as (λ o.
            from_loaded (λ s. schedule gen_range reachable now settings f s m) (fresh now f) m
              (ok o)
            ≡ schedule gen_range reachable now settings f (state_of o now f) m) [
              | none ↦ refl
              | some s ↦ refl
            ])

  -- With ValKey at hand, the failure that reaches the limit gives the message up: nothing is
  -- returned and its key is gone, so that the next failure starts from none again.
  pub record_failure_gives_up :
      settings.max_attempts ≤ attempts'
      → (outcome.1 ≡ ok none)
        × ((later : ℕ) → get_retry_state reachable later f.site_id f.message_id outcome.0 ≡ ok none)
  record_failure_gives_up h = rw outcome_lem (
      unfold schedule failed_again clear_retry_state get_retry_state in
      ground (
        arith,
        lookup-remove (retry_key f.site_id f.message_id) (retry_key f.site_id f.message_id) m,
        eq_refl (retry_key f.site_id f.message_id),
      ))

  scheduled : RetryState
  scheduled = record (failed_again now f (state_of old now f)) {
    next_retry = calculate_next_retry gen_range now attempts' settings;
  }

  stored : Entry
  stored = record { state = some scheduled; expires = some (now + ttl_secs settings * 1000) }

  key : String
  key = retry_key f.site_id f.message_id

  outcome_more :
      attempts' < settings.max_attempts → outcome ≡ (insert key stored m, ok (some scheduled))
  unfolding key stored scheduled
  outcome_more h = rw outcome_lem (unfold schedule failed_again save in ground arith)

  -- With ValKey at hand, a failure below the limit is returned and kept with one more attempt and
  -- the channels that failed; it is there until ValKey drops it, and if the largest delay is a second
  -- or more the time of the retry comes before that.
  pub record_failure_schedules :
      attempts' < settings.max_attempts
      → InRange gen_range
      → (s : RetryState) × (outcome.1 ≡ ok (some s))
        × (s.attempts ≡ attempts')
        × (s.failed_channels ≡ f.failed_channels)
        × (s.last_error ≡ some f.error)
        × ((later : ℕ)
            → later < now + ttl_secs settings * 1000
            → get_retry_state reachable later f.site_id f.message_id outcome.0 ≡ ok (some s))
        × (1 ≤ settings.max_delay_secs
            → settings.max_delay_secs < 2 ^ 62
            → s.next_retry < now + ttl_secs settings * 1000)
  unfolding scheduled failed_again
  record_failure_schedules h r = (
    scheduled,
    rw (outcome_more h),
    refl,
    refl,
    refl,
    λ later t. rw (outcome_more h) (
        unfold get_retry_state stored key in
        ground (arith, lookup-insert key key stored m, eq_refl key)),
    λ p q.
        unfold calculate_next_retry ttl_secs in
        ground (arith, (final_delay_bounds gen_range attempts' settings r).3 p),
  )

  -- A failure of one message leaves what is kept under any other key.
  pub record_failure_frame :
      (other : String)
      → (retry_key f.site_id f.message_id == other) ≡ false
      → lookup other outcome.0 ≡ lookup other m
  unfolding stored scheduled
  record_failure_frame other ne = rw outcome_lem (
      unfold schedule failed_again save clear_retry_state in
      ground (
        arith,
        lookup-remove (retry_key f.site_id f.message_id) other m,
        lookup-insert (retry_key f.site_id f.message_id) other stored m,
      ))

  -- A retry is scheduled with ValKey at hand: once its time has come and until ValKey drops it, which is
  -- twice the largest delay later if that is below 2^62 seconds, it is among the due ones of every call
  -- that can scan the keys and read its own.
  pub retry_becomes_due :
      (s : RetryState) (later : ℕ) (scan : Scan)
      → attempts' < settings.max_attempts
      → settings.max_delay_secs < 2 ^ 62
      → outcome.1 ≡ ok (some s)
      → s.next_retry ≤ later
      → later < now + settings.max_delay_secs * 2 * 1000
      → scan.scanned ≡ true
      → scan.gets (retry_key f.site_id f.message_id) ≡ true
      → (found : List RetryState) × (get_due_retries scan later outcome.0 ≡ ok found) × Has s found
  unfolding stored get_due_retries
  retry_becomes_due s later scan h small e due t scanned g =
      let same : scheduled ≡ s = cc (outcome_more h, e) in
      let still : later < now + ttl_secs settings * 1000 = unfold ttl_secs in ground arith in
      rw (outcome_more h) (
        due_from scan.gets later (insert key stored m),
        rw scanned refl,
        due-alive scan.gets later key stored stored s (insert key stored m) (unfold key in g)
            (lookup-insert key key stored m ∙ rw eq_refl) (ground arith) (ap some same) due,
      )

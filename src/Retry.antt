-- ===== src/Retry.antt =====
-- `RetryManager` of src/retry/manager.rs: the failed dispatches that wait for another try, kept in
-- ValKey under one key for each message. Times are in milliseconds. ValKey is the dictionary of
-- these keys; a command of it succeeds or fails as `Commands` says.
pub mod Delay
pub mod Attempts
pub mod Due
use geodineum_comms.Prelude.{
  ℕ, suc, ◌+◌, ◌-◌, ◌*◌, ◌/◌, ◌%◌, ◌^◌, min, max, String, Bool, true, false, Option, none, some,
  List, [], ◌∷◌, ltb, leb, if◌then◌else◌,
}
use Prim.Native.String.{◌++◌}
use geodineum_comms.Prelude.Dict.{Dict, lookup, insert, remove}
use geodineum_comms.Settings.{RetrySettings}

pub record RetryState : Type 0 where
  pub message_id : String
  pub site_id : String
  pub stream_key : String
  pub stream_entry_id : String
  pub attempts : ℕ  -- u32
  pub last_attempt : ℕ
  pub next_retry : ℕ
  pub last_error : Option String
  pub failed_channels : List String

-- A value of ValKey: `none` where its JSON is no `RetryState`; and when ValKey drops it.
pub record Entry : Type 0 where
  pub state : Option RetryState
  pub expires : Option ℕ

abbrev pub Store : Type 0
Store = Dict Entry

-- the variants of `CommsError` that these calls give
pub data Fault : Type 0 where
  valkey serialization : Fault

pub data Reply {ℓ} (A : Type ℓ) : Type ℓ where
  ok : A → Reply A
  err : Fault → Reply A

-- Which of the commands of one call ValKey carries out.
pub record Commands : Type 0 where
  pub get : Bool
  pub set : Bool
  pub expire : Bool
  pub del : Bool

unfoldable pub retry_key : String → String → String
retry_key site_id message_id = "{" ++ site_id ++ "}:comms:retry:" ++ message_id

-- What `GET` sees at a time: an entry that has expired is gone.
abbrev pub alive : ℕ → Option Entry → Option Entry
alive now none = none
alive now (some e) = elim e.expires [ none ↦ some e | some t ↦ if leb t now then none else some e ]

abbrev pub decode : Option Entry → Reply (Option RetryState)
decode none = ok none
decode (some e) = elim e.state [ none ↦ err serialization | some s ↦ ok (some s) ]

unfoldable pub get_retry_state : Commands → ℕ → String → String → Store → Reply (Option RetryState)
get_retry_state c now site_id message_id m =
    if c.get then decode (alive now (lookup (retry_key site_id message_id) m)) else err valkey

unfoldable pub clear_retry_state : Commands → String → String → Store → Store × Reply (Unit {0})
clear_retry_state c site_id message_id m =
    if c.del then (remove (retry_key site_id message_id) m, ok tt) else (m, err valkey)

-- The capped exponential delay of `calculate_next_retry`, in seconds; the product wraps as u64.
unfoldable pub delay_secs : ℕ → RetrySettings → ℕ
delay_secs attempts s = min (s.base_delay_secs * 2 ^ min attempts 10 % 2 ^ 64) s.max_delay_secs

-- `(delay_secs as f64 * 0.2) as i64`, the whole part of a fifth
abbrev pub jitter_range : ℕ → ℕ
jitter_range delay = delay / 5

-- `calculate_next_retry`. `gen_range r` stands for `thread_rng().gen_range(-r..=r)`, moved up by `r`.
unfoldable pub final_delay : (ℕ → ℕ) → ℕ → RetrySettings → ℕ
final_delay gen_range attempts s =
    let delay = delay_secs attempts s in
    let r = jitter_range delay in if ltb 0 r then max (delay + gen_range r - r) 1 else max delay 1

unfoldable pub calculate_next_retry : (ℕ → ℕ) → ℕ → ℕ → RetrySettings → ℕ
calculate_next_retry gen_range now attempts s = now + final_delay gen_range attempts s * 1000

-- One failed dispatch, as the caller reports it.
pub record Failure : Type 0 where
  pub message_id : String
  pub site_id : String
  pub stream_key : String
  pub stream_entry_id : String
  pub error : String
  pub failed_channels : List String

-- the state that a first failure starts from
unfoldable pub fresh : ℕ → Failure → RetryState
fresh now f = record {
  message_id = f.message_id;
  site_id = f.site_id;
  stream_key = f.stream_key;
  stream_entry_id = f.stream_entry_id;
  attempts = 0;
  last_attempt = now;
  next_retry = now;
  last_error = none;
  failed_channels = [];
}

unfoldable pub failed_again : ℕ → Failure → RetryState → RetryState
failed_again now f s = record s {
  attempts = (s.attempts + 1) % 2 ^ 32;
  last_attempt = now;
  last_error = some f.error;
  failed_channels = f.failed_channels;
}

-- `(max_delay_secs * 2) as i64`, in seconds: the product wraps as u64, and from 2^63 on it is a negative
-- number, with which `EXPIRE` drops the key at once, as with 0.
unfoldable pub ttl_secs : RetrySettings → ℕ
ttl_secs settings =
    let ttl = settings.max_delay_secs * 2 % 2 ^ 64 in if ltb ttl (2 ^ 63) then ttl else 0

-- `conn.set`, then `conn.expire(..).ok()`
unfoldable pub save :
    Commands → ℕ → RetrySettings → String → RetryState → Store → Store × Reply (Option RetryState)
save c now settings key s m =
    let expires = if c.expire then some (now + ttl_secs settings * 1000) else none in
    if c.set
    then (insert key (record { state = some s; expires = expires }) m, ok (some s))
    else (m, err valkey)

abbrev pub gave_up : Store × Reply (Unit {0}) → Store × Reply (Option RetryState)
gave_up (m, ok u) = (m, ok none)
gave_up (m, err e) = (m, err e)

-- the part of `record_failure` behind the load
unfoldable pub schedule :
    (ℕ → ℕ)
    → Commands
    → ℕ
    → RetrySettings
    → Failure
    → RetryState
    → Store
    → Store × Reply (Option RetryState)
schedule gen_range c now settings f old m =
    let s = failed_again now f old in
    if leb settings.max_attempts s.attempts
    then gave_up (clear_retry_state c f.site_id f.message_id m)
    else save c now settings (retry_key f.site_id f.message_id)
        (record s { next_retry = calculate_next_retry gen_range now s.attempts settings }) m

abbrev pub from_loaded :
    (RetryState → Store × Reply (Option RetryState))
    → RetryState
    → Store
    → Reply (Option RetryState)
    → Store × Reply (Option RetryState)
from_loaded go new m (ok none) = go new
from_loaded go new m (ok (some s)) = go s
from_loaded go new m (err e) = (m, err e)

unfoldable pub record_failure :
    (ℕ → ℕ) → Commands → ℕ → RetrySettings → Failure → Store → Store × Reply (Option RetryState)
record_failure gen_range c now settings f m =
    from_loaded (λ s. schedule gen_range c now settings f s m) (fresh now f) m
      (get_retry_state c now f.site_id f.message_id m)

-- one round of the loop of `get_due_retries`, over the keys that the scan gave
abbrev pub due_state : ℕ → Option Entry → List RetryState → List RetryState
due_state now none rest = rest
due_state now (some e) rest = elim e.state [
  | none ↦ rest
  | some s ↦ if leb s.next_retry now then s ∷ rest else rest
]

-- the loop over the keys, of which `gets` tells whose `GET` succeeds
unfoldable pub due_from : (String → Bool) → ℕ → Store → List RetryState
due_from gets now [] = []
due_from gets now ((key, e) ∷ m) =
    let rest = due_from gets now m in
    if gets key then due_state now (alive now (some e)) rest else rest

-- What one call of `get_due_retries` reaches: the scan of the keys, and the `GET` of each.
pub record Scan : Type 0 where
  pub scanned : Bool
  pub gets : String → Bool

unfoldable pub get_due_retries : Scan → ℕ → Store → Reply (List RetryState)
get_due_retries c now m = if c.scanned then ok (due_from c.gets now m) else err valkey

unfoldable pub record_success : Commands → String → String → Store → Store × Reply (Unit {0})
record_success = clear_retry_state

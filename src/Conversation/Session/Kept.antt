-- ===== src/Conversation/Session/Kept.antt =====
-- How long a session of src/inbound/conversation_state.rs lasts, and what is left of one that failed.
use Prim.Native.String.{String}
use geodineum_comms.Prelude.{
  ℕ, ◌+◌, ◌≡◌, refl, ap, ◌∙◌, some_inj, true, false, none, some, List, [], ◌∷◌, eq_refl, arith,
}
use geodineum_comms.Prelude.Dict.{Dict, lookup, insert, lookup-insert}
use geodineum_comms.Prelude.Chars.{decimal, decimal_from}
use geodineum_comms.Prelude.Tests.{from_secs}
use geodineum_comms.Prelude.{◌≤◌}
use geodineum_comms.Errors.{valkey, ok, err}
use geodineum_comms.Conversation.{
  Chats, Clock, Reached, session_timeout_secs, ConvState, conv_key, hgetall, hset, parse_conv_state,
  insert_all, expiry_of,
}
use geodineum_comms.Conversation.Session.{
  new_session, session_fields, create_session, is_timed_out, session_of, get_or_create, state_of,
  get,
}

-- a hash that is there for good
abbrev pub IsLasting : Clock → String → Chats → Type 0
IsLasting c key s = expiry_of c.now (lookup key s.hashes) ≡ none

written :
    (c later : Clock) (key : String) (values : List (String × String)) (s : Chats)
    → IsLasting c key s
    → hgetall later.now key (hset c.now key values s) ≡ insert_all values (hgetall c.now key s)
unfolding hgetall hset
written c later key values s h = simp (lookup-insert, eq_refl key) (rw h refl)

state_of_found :
    (default_pipeline key value : String) (fields : Dict String)
    → lookup key fields ≡ some value
    → state_of default_pipeline fields ≡ some (parse_conv_state fields default_pipeline)
unfolding lookup
state_of_found default_pipeline key value [] h = ground arith
state_of_found default_pipeline key value (field ∷ fields) h = refl

parsed_session :
    (c : Clock) (default_pipeline chat_id operator_id operator_name : String) (fields : Dict String)
    → parse_conv_state
        (insert_all
          (session_fields (new_session c default_pipeline chat_id operator_id operator_name))
          fields)
        default_pipeline
      ≡ new_session c default_pipeline chat_id operator_id operator_name
unfolding parse_conv_state insert_all decimal decimal_from
parsed_session c default_pipeline chat_id operator_id operator_name fields = simp lookup-insert refl

get_written :
    (c later : Clock) (r : Reached) (default_pipeline chat_id site_id : String)
    (values : List (String × String)) (s : Chats) (key value : String)
    → r.hgetall ≡ true
    → IsLasting c (conv_key site_id chat_id) s
    → lookup key (insert_all values (hgetall c.now (conv_key site_id chat_id) s)) ≡ some value
    → get later r default_pipeline chat_id site_id (hset c.now (conv_key site_id chat_id) values s)
      ≡ ok (
          some (
            parse_conv_state
              (insert_all values (hgetall c.now (conv_key site_id chat_id) s))
              default_pipeline))
unfolding get
get_written c later r default_pipeline chat_id site_id values s key value g l h =
    simp (g, written c later (conv_key site_id chat_id) values s l)
      (ap ok (state_of_found default_pipeline key value _ h))

-- A session that was created is read back as it was made, at any later time.
pub get-create_session :
    (c later : Clock) (r again : Reached)
    (default_pipeline chat_id site_id operator_id operator_name : String) (s : Chats)
    → r.write ≡ true
    → again.hgetall ≡ true
    → IsLasting c (conv_key site_id chat_id) s
    → get later again default_pipeline chat_id site_id
        (create_session c r default_pipeline chat_id site_id operator_id operator_name s).0
      ≡ ok (some (new_session c default_pipeline chat_id operator_id operator_name))
unfolding create_session
get-create_session c later r again default_pipeline chat_id site_id operator_id operator_name s w g
      l =
    let state = new_session c default_pipeline chat_id operator_id operator_name in
    let before = hgetall c.now (conv_key site_id chat_id) s in
    rw w (
      get_written c later again default_pipeline chat_id site_id (session_fields state) s
        "session_id" state.session_id g l (written_id before)
      ∙ ap (λ x. ok (some x))
          (parsed_session c default_pipeline chat_id operator_id operator_name before))
  where
    written_id :
        (fields : Dict String)
        → lookup "session_id" (
            insert_all
              (session_fields (new_session c default_pipeline chat_id operator_id operator_name))
              fields)
          ≡ some (new_session c default_pipeline chat_id operator_id operator_name).session_id
    written_id fields = unfold insert_all in simp lookup-insert refl

touched_state :
    (default_pipeline stamp : String) (fields : Dict String)
    → parse_conv_state (insert_all (("last_activity", stamp) ∷ []) fields) default_pipeline
      ≡ record (parse_conv_state fields default_pipeline) { last_activity = stamp }
unfolding parse_conv_state insert_all
touched_state default_pipeline stamp fields = simp lookup-insert refl

session_of_live :
    (c : Clock) (r : Reached) (default_pipeline chat_id site_id operator_id operator_name : String)
    (fields : Dict String) (s : Chats) (state : ConvState)
    → state_of default_pipeline fields ≡ some state
    → is_timed_out c state ≡ false
    → session_of c r default_pipeline chat_id site_id operator_id operator_name fields s
      ≡ (s, ok state)
session_of_live c r default_pipeline chat_id site_id operator_id operator_name [] s state h o = cc
session_of_live c r default_pipeline chat_id site_id operator_id operator_name (field ∷ fields) s
      state h o =
    let same : parse_conv_state (field ∷ fields) default_pipeline ≡ state = some_inj h in
    simp (same, o) refl

touched_at :
    (stamp : String) (fields : Dict String)
    → lookup "last_activity" (insert_all (("last_activity", stamp) ∷ []) fields) ≡ some stamp
unfolding insert_all
touched_at stamp fields = simp lookup-insert refl

state_of_parsed :
    (default_pipeline : String) (fields : Dict String) (state : ConvState)
    → state_of default_pipeline fields ≡ some state
    → parse_conv_state fields default_pipeline ≡ state
state_of_parsed default_pipeline [] state h = cc
state_of_parsed default_pipeline (field ∷ fields) state h = some_inj h

get_found :
    (c : Clock) (r : Reached) (default_pipeline chat_id site_id : String) (s : Chats)
    (state : ConvState)
    → r.hgetall ≡ true
    → get c r default_pipeline chat_id site_id s ≡ ok (some state)
    → state_of default_pipeline (hgetall c.now (conv_key site_id chat_id) s) ≡ some state
unfolding get
get_found c r default_pipeline chat_id site_id s state g h = ground (arith, g, h)

get_or_create_live :
    (c : Clock) (r : Reached) (default_pipeline chat_id site_id operator_id operator_name : String)
    (s : Chats) (state : ConvState)
    → r.touch ≡ true
    → state_of default_pipeline (hgetall c.now (conv_key site_id chat_id) s) ≡ some state
    → is_timed_out c state ≡ false
    → get_or_create c r default_pipeline chat_id site_id operator_id operator_name s
      ≡ (hset c.now (conv_key site_id chat_id) (("last_activity", c.stamp) ∷ []) s, ok state)
unfolding get_or_create
get_or_create_live c r default_pipeline chat_id site_id operator_id operator_name s state t h o =
    simp t (
      session_of_live c r default_pipeline chat_id site_id operator_id operator_name
        (hgetall c.now (conv_key site_id chat_id) s) _ state h o)

abbrev with_activity : String → ConvState → ConvState
with_activity stamp state = record state { last_activity = stamp }

not_timed_out :
    (c : Clock) (state : ConvState) (last : ℕ)
    → c.read_stamp state.last_activity ≡ some last
    → c.now_nanos ≤ last + from_secs session_timeout_secs
    → is_timed_out c state ≡ false
unfolding is_timed_out
not_timed_out c state last q n = ground (arith, q, n)

-- A session is kept as long as no more than half an hour, 1800 seconds, has passed since its last
-- activity: it is given as it was, and only its time of the last activity is new.
pub get_or_create_keeps :
    (c later : Clock) (r again : Reached)
    (default_pipeline chat_id site_id operator_id operator_name : String) (s : Chats)
    (state : ConvState)
    → r.touch ≡ true
    → r.hgetall ≡ true
    → again.hgetall ≡ true
    → IsLasting c (conv_key site_id chat_id) s
    → get c r default_pipeline chat_id site_id s ≡ ok (some state)
    → (last : ℕ) → c.read_stamp state.last_activity ≡ some last
    → c.now_nanos ≤ last + 1_800_000_000_000
    → ((get_or_create c r default_pipeline chat_id site_id operator_id operator_name s).1
        ≡ ok state)
      × (get later again default_pipeline chat_id site_id
            (get_or_create c r default_pipeline chat_id site_id operator_id operator_name s).0
          ≡ ok (some (record state { last_activity = c.stamp })))
get_or_create_keeps c later r again default_pipeline chat_id site_id operator_id operator_name s
      state t g a l h last q n =
    let o = not_timed_out c state last q (omega arith) in
    let key = conv_key site_id chat_id in
    let before = hgetall c.now key s in
    let found = get_found c r default_pipeline chat_id site_id s state g h in
    let live =
      get_or_create_live c r default_pipeline chat_id site_id operator_id operator_name s state t
        found o in
    (
      ap (λ x. x.1) live,
      ap (λ x. get later again default_pipeline chat_id site_id x.0) live
          ∙ (get_written c later again default_pipeline chat_id site_id
                (("last_activity", c.stamp) ∷ []) s "last_activity" c.stamp a l
                (touched_at c.stamp before)
              ∙ ap (λ x. ok (some x))
                  (touched_state default_pipeline c.stamp before
                    ∙ ap (λ (x : ConvState). with_activity c.stamp x)
                        (state_of_parsed default_pipeline before state found))),
    )

-- what the fields of a chat give that has a time of activity and nothing else
abbrev pub half_session : String → String → ConvState
half_session default_pipeline stamp = record {
  pipeline = default_pipeline;
  session_id = "";
  last_command = "";
  last_activity = stamp;
  operator_id = "";
  operator_name = "";
  message_count = 0;
}

half_parsed :
    (default_pipeline stamp : String) (fields : Dict String)
    → fields ≡ ("last_activity", stamp) ∷ []
    → state_of default_pipeline fields ≡ some (half_session default_pipeline stamp)
unfolding parse_conv_state lookup
half_parsed default_pipeline stamp fields h = rw h refl

-- Where a chat has no session and only the write of the new one fails, the next message within half an
-- hour is given a session whose id is empty.
pub get_or_create_half :
    (c later : Clock) (r again : Reached)
    (default_pipeline chat_id site_id operator_id operator_name : String) (s : Chats)
    → r.touch ≡ true
    → r.write ≡ false
    → again.touch ≡ true
    → IsLasting c (conv_key site_id chat_id) s
    → hgetall c.now (conv_key site_id chat_id) s ≡ []
    → (last : ℕ) → later.read_stamp c.stamp ≡ some last
    → later.now_nanos ≤ last + from_secs session_timeout_secs
    → ((get_or_create c r default_pipeline chat_id site_id operator_id operator_name s).1
        ≡ err (valkey r.failure))
      × ((get_or_create later again default_pipeline chat_id site_id operator_id operator_name
            (get_or_create c r default_pipeline chat_id site_id operator_id operator_name s).0).1
          ≡ ok (half_session default_pipeline c.stamp))
unfolding create_session
get_or_create_half c later r again default_pipeline chat_id site_id operator_id operator_name s t w
      t' l e last q n =
    (
      ap (λ x. x.1) failed,
      ap
            (λ x.
              (get_or_create later again default_pipeline chat_id site_id operator_id operator_name
                x.0).1)
            failed
          ∙ ap (λ x. x.1) next,
    )
  where
    touched : Chats
    touched = hset c.now (conv_key site_id chat_id) (("last_activity", c.stamp) ∷ []) s

    failed :
        get_or_create c r default_pipeline chat_id site_id operator_id operator_name s
        ≡ (touched, err (valkey r.failure))
    failed = unfold get_or_create in simp (t, e, w) refl

    next :
        get_or_create later again default_pipeline chat_id site_id operator_id operator_name touched
        ≡ (
          hset later.now (conv_key site_id chat_id) (("last_activity", later.stamp) ∷ []) touched,
          ok (half_session default_pipeline c.stamp),
        )
    next =
        get_or_create_live later again default_pipeline chat_id site_id operator_id operator_name
          touched _ t'
          (half_parsed default_pipeline c.stamp _ (
            written c later (conv_key site_id chat_id) (("last_activity", c.stamp) ∷ []) s l
            ∙ ap (λ fields. insert_all (("last_activity", c.stamp) ∷ []) fields) e
            ∙ unfold insert_all insert in refl))
          (not_timed_out later (half_session default_pipeline c.stamp) last q n)

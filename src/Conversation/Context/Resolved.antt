-- ===== src/Conversation/Context/Resolved.antt =====
-- What a typed reply resolves: src/inbound/conversation_state.rs, from track_context to resolve_reply.
use Prim.Native.String.{String}
use geodineum_comms.Prelude.{
  ℕ, ◌+◌, ◌≡◌, refl, Bool, true, false, Option, none, some, List, [], ◌∷◌, any, ◌==◌, eq_iff,
  eq_refl, arith, ap, sym, ◌∙◌, ◌<◌,
}
use geodineum_comms.Prelude.Dict.{Dict, lookup, insert, remove, lookup-insert, lookup-remove}
use geodineum_comms.Prelude.Chars.{trim}
use geodineum_comms.Errors.{valkey, ok, err}
use geodineum_comms.Conversation.{
  Chats, Clock, Codec, Reached, ContextResolution, context_ttl_secs, ctx_key, active_ctx_key,
  hgetall, hset, expire, insert_all,
}
use geodineum_comms.Conversation.Context.{
  context_fields, tracked, track_context, live_context, is_option, resolution_of, resolve_in,
  resolve_reply,
}

-- what a chat's last context is, as far as it is still known
abbrev pub pointer : Clock → String → String → Chats → Option String
pointer c site_id chat_id s = live_context c.now (lookup (active_ctx_key site_id chat_id) s.active)

no_pointer :
    (c : Clock) (j : Codec) (r : Reached) (chat_id site_id reply_text : String) (s : Chats)
    → r.get ≡ true
    → lookup (active_ctx_key site_id chat_id) s.active ≡ none
    → resolve_reply c j r chat_id site_id reply_text s ≡ (s, ok none)
unfolding resolve_reply
no_pointer c j r chat_id site_id reply_text s g h = simp (g, h) refl

-- What a resolved reply was resolved by.
pub record IsResolved (c : Clock) (j : Codec) (site_id chat_id reply_text : String) (s : Chats)
    (found : ContextResolution) (t : Chats) : Type 0 where
  pub of_chat : pointer c site_id chat_id s ≡ some found.context_id
  pub of_context :
      found
      ≡ resolution_of j
          (hgetall c.now (ctx_key site_id found.context_id) s)
          found.context_id
          reply_text
  pub is_offered :
      is_option j (hgetall c.now (ctx_key site_id found.context_id) s) reply_text ≡ true
  pub cleared : t ≡ record s { active = remove (active_ctx_key site_id chat_id) s.active }

resolve_in_lem :
    (j : Codec) (r : Reached) (active_key context_id reply_text : String) (fields : Dict String)
    (s : Chats) (found : ContextResolution)
    → (resolve_in j r active_key context_id reply_text fields s).1 ≡ ok (some found)
    → (found ≡ resolution_of j fields context_id reply_text)
      × (is_option j fields reply_text ≡ true)
      × ((resolve_in j r active_key context_id reply_text fields s).0
          ≡ record s { active = remove active_key s.active })
resolve_in_lem j r active_key context_id reply_text [] s found h = ground arith
resolve_in_lem j r active_key context_id reply_text (field ∷ fields) s found h = ground arith

-- A reply is resolved only by the last alert of its chat, if that is still known and offers it, to the
-- component and the stream of that alert; then the chat has no alert any more, and nothing else changes.
pub resolve_reply-IsResolved :
    (c : Clock) (j : Codec) (r : Reached) (chat_id site_id reply_text : String) (s : Chats)
    (found : ContextResolution)
    → (resolve_reply c j r chat_id site_id reply_text s).1 ≡ ok (some found)
    → IsResolved c j site_id chat_id reply_text s found
        (resolve_reply c j r chat_id site_id reply_text s).0
unfolding resolve_reply
resolve_reply-IsResolved c j r chat_id site_id reply_text s found h =
    by_calls r.get r.hgetall refl refl _ refl
  where
    by_calls :
        (g f : Bool)
        → r.get ≡ g
        → r.hgetall ≡ f
        → (o : Option String) → pointer c site_id chat_id s ≡ o
        → IsResolved c j site_id chat_id reply_text s found
            (resolve_reply c j r chat_id site_id reply_text s).0
    by_calls false f eg ef o eo = absurd (refused (rw eg at h))
      where
        refused : err (valkey r.failure) ≡ ok (some found) → ⊥
        refused q = cc
    by_calls true f eg ef none eo = absurd (refused (simp (eg, eo) at h))
      where
        refused : ok none ≡ ok (some found) → ⊥
        refused q = cc
    by_calls true false eg ef (some id) eo = absurd (refused (simp (eg, eo, ef) at h))
      where
        refused : err (valkey r.failure) ≡ ok (some found) → ⊥
        refused q = cc
    by_calls true true eg ef (some id) eo =
        let (q, k, t) =
          resolve_in_lem j r (active_ctx_key site_id chat_id) id reply_text _ s found
            (simp (eg, eo, ef) at h) in
        simp (eg, eo, ef)
          (record {
            of_chat = eo ∙ ap some (sym (ap (λ x. x.context_id) q));
            of_context = simp (ap (λ x. x.context_id) q) q;
            is_offered = simp (ap (λ x. x.context_id) q) k;
            cleared = t;
          })

-- Once a reply was resolved, no reply of its chat is resolved again, at any time, until another alert
-- is tracked for the chat.
pub resolve_reply_once :
    (c later : Clock) (j : Codec) (r again : Reached) (chat_id site_id reply_text other : String)
    (s : Chats) (found : ContextResolution)
    → (resolve_reply c j r chat_id site_id reply_text s).1 ≡ ok (some found)
    → again.get ≡ true
    → (resolve_reply later j again chat_id site_id other
        (resolve_reply c j r chat_id site_id reply_text s).0).1
      ≡ ok none
resolve_reply_once c later j r again chat_id site_id reply_text other s found h g =
    ap (λ x. x.1) (no_pointer later j again chat_id site_id other _ g gone)
  where
    gone :
        lookup
          (active_ctx_key site_id chat_id)
          (resolve_reply c j r chat_id site_id reply_text s).0.active
        ≡ none
    gone = rw ((resolve_reply-IsResolved c j r chat_id site_id reply_text s found h).cleared) (
        rw
          (lookup-remove (active_ctx_key site_id chat_id) (active_ctx_key site_id chat_id) s.active)
          (ground
            (arith, eq_iff (active_ctx_key site_id chat_id) (active_ctx_key site_id chat_id))))

tracked_hash :
    (c later : Clock) (key : String) (values : List (String × String)) (s : Chats)
    → later.now < c.now + context_ttl_secs
    → hgetall later.now key (expire c.now key context_ttl_secs (hset c.now key values s))
      ≡ insert_all values (hgetall c.now key s)
unfolding hgetall expire hset
tracked_hash c later key values s h = simp (lookup-insert, eq_refl key) (ground (arith, h))

resolve_in_found :
    (j : Codec) (r : Reached) (active_key context_id reply_text value : String)
    (fields : Dict String) (s : Chats)
    → r.del ≡ true
    → lookup "component" fields ≡ some value
    → is_option j fields reply_text ≡ true
    → (resolve_in j r active_key context_id reply_text fields s).1
      ≡ ok (some (resolution_of j fields context_id reply_text))
unfolding lookup
resolve_in_found j r active_key context_id reply_text value [] s d l o = ground arith
resolve_in_found j r active_key context_id reply_text value (field ∷ fields) s d l o =
    simp (o, d) refl

module _ (c : Clock) (j : Codec) (component : String) (reply_options : List String)
    (callback_stream original_message_id : String) (fields : Dict String) where
  abbrev tracked_fields : Dict String
  tracked_fields =
      insert_all (context_fields c j component reply_options callback_stream original_message_id)
        fields

  tracked_component : lookup "component" tracked_fields ≡ some component
  unfolding insert_all
  tracked_component = simp lookup-insert refl

  tracked_options : lookup "reply_options" tracked_fields ≡ some (j.encode reply_options)
  unfolding insert_all
  tracked_options = simp lookup-insert refl

  tracked_stream : lookup "callback_stream" tracked_fields ≡ some callback_stream
  unfolding insert_all
  tracked_stream = simp lookup-insert refl

tracked_pointer :
    (now : ℕ) (key context_id : String) (t : ℕ) (m : Dict (String × ℕ))
    → now < t
    → live_context now (lookup key (insert key (context_id, t) m)) ≡ some context_id
tracked_pointer now key context_id t m h = simp (lookup-insert, eq_refl key) (ground (arith, h))

resolve_reply_in :
    (c : Clock) (j : Codec) (r : Reached) (chat_id site_id reply_text context_id : String)
    (s : Chats)
    → r.get ≡ true
    → r.hgetall ≡ true
    → pointer c site_id chat_id s ≡ some context_id
    → resolve_reply c j r chat_id site_id reply_text s
      ≡ resolve_in j r
          (active_ctx_key site_id chat_id)
          context_id
          reply_text
          (hgetall c.now (ctx_key site_id context_id) s)
          s
unfolding resolve_reply
resolve_reply_in c j r chat_id site_id reply_text context_id s g a p = simp (g, p, a) refl

resolve_reply-tracked :
    (c later : Clock) (j : Codec) (again : Reached) (site_id chat_id context_id component : String)
    (reply_options : List String) (callback_stream original_message_id reply_text : String)
    (s : Chats)
    → again.get ≡ true
    → again.hgetall ≡ true
    → again.del ≡ true
    → j.decode (j.encode reply_options) ≡ some reply_options
    → any (λ opt. j.to_uppercase opt == j.to_uppercase (trim reply_text)) reply_options ≡ true
    → later.now < c.now + context_ttl_secs
    → (resolve_reply later j again chat_id site_id reply_text (
        tracked c j site_id chat_id context_id component reply_options callback_stream
          original_message_id s)).1
      ≡ ok (
          some (record {
            context_id = context_id;
            component = component;
            command = j.to_uppercase (trim reply_text);
            callback_stream = callback_stream;
          }))
unfolding is_option expire hgetall
resolve_reply-tracked c later j again site_id chat_id context_id component reply_options
      callback_stream original_message_id reply_text s g a d e o t =
    let t' =
      tracked c j site_id chat_id context_id component reply_options callback_stream
        original_message_id s in
    let before = hgetall c.now (ctx_key site_id context_id) s in
    let l =
      tracked_component c j component reply_options callback_stream original_message_id before in
    let k =
      tracked_options c j component reply_options callback_stream original_message_id before in
    let m = tracked_stream c j component reply_options callback_stream original_message_id before in
    ap (λ x. x.1)
      (resolve_reply_in later j again chat_id site_id reply_text context_id t' g a (
        tracked_pointer later.now (active_ctx_key site_id chat_id) context_id
          (c.now + context_ttl_secs) s.active t))
    ∙ (ap
          (λ fields.
            (resolve_in j again (active_ctx_key site_id chat_id) context_id reply_text fields t').1)
          (tracked_hash c later (ctx_key site_id context_id)
            (context_fields c j component reply_options callback_stream original_message_id) s t)
        ∙ (resolve_in_found j again (active_ctx_key site_id chat_id) context_id reply_text component
              _ t' d l (simp (k, e) o)
            ∙ simp (l, m) refl))

-- A reply among the options of an alert is resolved to the alert's component and stream, for a day.
pub resolve_reply-track_context :
    (c later : Clock) (j : Codec) (r again : Reached)
    (site_id chat_id context_id component : String) (reply_options : List String)
    (callback_stream original_message_id reply_text : String) (s : Chats)
    → r.write ≡ true
    → again.get ≡ true
    → again.hgetall ≡ true
    → again.del ≡ true
    → j.decode (j.encode reply_options) ≡ some reply_options
    → any (λ opt. j.to_uppercase opt == j.to_uppercase (trim reply_text)) reply_options ≡ true
    → later.now < c.now + context_ttl_secs
    → (resolve_reply later j again chat_id site_id reply_text
        (track_context c j r site_id chat_id context_id component reply_options callback_stream
          original_message_id s).0).1
      ≡ ok (
          some (record {
            context_id = context_id;
            component = component;
            command = j.to_uppercase (trim reply_text);
            callback_stream = callback_stream;
          }))
unfolding track_context
resolve_reply-track_context c later j r again site_id chat_id context_id component reply_options
      callback_stream original_message_id reply_text s w g a d e o t =
    rw w (
      resolve_reply-tracked c later j again site_id chat_id context_id component reply_options
        callback_stream original_message_id reply_text s g a d e o t)

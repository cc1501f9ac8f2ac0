-- ===== src/Receiver/Gate.antt =====
-- Who gets into the inbound stream of src/inbound/telegram_receiver.rs.
use Prim.Native.String.{String}
use geodineum_comms.Prelude.{
  ◌+◌, ◌==◌, eq_iff, ◌≡◌, refl, Bool, true, false, ◌&&◌, ◌||◌, ◌⊎◌, Bool-cases, inl, inr, Option,
  none, some, List, [], ◌∷◌, All, if◌then◌else◌, arith,
}
use geodineum_comms.Prelude.Lists.{append}
use geodineum_comms.Prelude.Dict.{is_some}
use geodineum_comms.Errors.{Result, ok, err}
use geodineum_comms.Commands.{InboundMessage}
use geodineum_comms.WebLink.Linking.{parse_link, is_unlink, is_linked}
use geodineum_comms.Receiver.{
  TelegramReceiver, TelegramMsg, TelegramUser, TelegramUpdate, CallbackQuery, Received,
  is_mentioned_in_group, parse_update, parsed_update, text_of, inbound_of, web_subscriber_may_pass,
  is_operator, write_to_stream, press_of, take_press, take_inbound, take_message, take_parts,
  take_updates, poll_once,
}

-- a person outside the operators, about a link of their own, in a private chat
pub record IsSubscriber (r : TelegramReceiver) (m : InboundMessage) : Type 0 where
  pub private_chat : m.chat_type ≡ "private"
  pub about_link :
      is_some (parse_link m.text) || (is_unlink m.text || is_linked r.book r.site_id m.operator_id)
      ≡ true

-- what may stand in the stream
abbrev pub MayPass : TelegramReceiver → InboundMessage → Type 0
MayPass r m =
    (is_operator r.admin_ids m.operator_id ≡ true) ⊎ ((m.is_callback ≡ false) × IsSubscriber r m)

abbrev pub MayAllPass : TelegramReceiver → Received → Type 0
MayAllPass r s = All (λ m. MayPass r m) s.stream

All-snoc :
    (r : TelegramReceiver) (ms : List InboundMessage) (m : InboundMessage)
    → All (λ x. MayPass r x) ms
    → MayPass r m
    → All (λ x. MayPass r x) (append ms (m ∷ []))
All-snoc r [] m h k = (k, tt)
All-snoc r (x ∷ ms) m h k = (h.0, All-snoc r ms m h.1 k)

both_parts : (a b : Bool) → a && b ≡ true → (a ≡ true) × (b ≡ true)
both_parts a b h = ground arith

module _ (r : TelegramReceiver) where
  write-MayAllPass :
      (m : InboundMessage) (s : Received)
      → MayAllPass r s
      → MayPass r m
      → MayAllPass r (write_to_stream r m s)
  write-MayAllPass m s h k = by_write (r.writes m)
    where
      by_write :
          (b : Bool)
          → MayAllPass r (if b then record s { stream = append s.stream (m ∷ []) } else s)
      by_write true = All-snoc r s.stream m h k
      by_write false = h

  press-MayAllPass :
      (cb : CallbackQuery) (s : Received) → MayAllPass r s → MayAllPass r (take_press r cb s)
  unfolding take_press
  press-MayAllPass cb s h = elim (Bool-cases (is_operator r.admin_ids cb.from.id)) [
    | inl e ↦ rw e (write-MayAllPass (press_of r cb) s h (inl e))
    | inr e ↦ rw e h
  ]

  subscriber : (m : InboundMessage) → web_subscriber_may_pass r m ≡ true → IsSubscriber r m
  unfolding web_subscriber_may_pass
  subscriber m h =
      let (p, l) = both_parts (m.chat_type == "private") _ h in
      record { private_chat = (eq_iff m.chat_type "private").0 p; about_link = l }

  inbound-MayAllPass :
      (m : TelegramMsg) (s : Received) (text : Option String) (from : Option TelegramUser)
      → MayAllPass r s
      → MayAllPass r (take_inbound r (parsed_update r m text from) s)
  inbound-MayAllPass m s none from h = h
  inbound-MayAllPass m s (some text) none h = h
  inbound-MayAllPass m s (some text) (some from) h =
      by_gate (is_operator r.admin_ids from.id) refl
        (web_subscriber_may_pass r (inbound_of r m text from)) refl
    where
      by_gate :
          (a : Bool)
          → is_operator r.admin_ids from.id ≡ a
          → (b : Bool) → web_subscriber_may_pass r (inbound_of r m text from) ≡ b
          → MayAllPass r (if a || b then write_to_stream r (inbound_of r m text from) s else s)
      by_gate true e b k = write-MayAllPass (inbound_of r m text from) s h (inl e)
      by_gate false e true k =
          write-MayAllPass (inbound_of r m text from) s h
            (inr (refl, subscriber (inbound_of r m text from) k))
      by_gate false e false k = h

  message-MayAllPass :
      (m : TelegramMsg) (s : Received) → MayAllPass r s → MayAllPass r (take_message r m s)
  unfolding take_message parse_update
  message-MayAllPass m s h = by_mention (is_mentioned_in_group r m)
    where
      by_mention :
          (b : Bool)
          → MayAllPass r (if b then take_inbound r (parsed_update r m (text_of m) m.from) s else s)
      by_mention true = inbound-MayAllPass m s (text_of m) m.from h
      by_mention false = h

  parts-MayAllPass :
      (cb : Option CallbackQuery) (m : Option TelegramMsg) (s : Received)
      → MayAllPass r s
      → MayAllPass r (take_parts r cb m s)
  parts-MayAllPass (some cb) m s h = press-MayAllPass cb s h
  parts-MayAllPass none (some m) s h = message-MayAllPass m s h
  parts-MayAllPass none none s h = h

  updates-MayAllPass :
      (us : List TelegramUpdate) (s : Received)
      → MayAllPass r s
      → MayAllPass r (take_updates r us s)
  unfolding take_updates
  updates-MayAllPass [] s h = h
  updates-MayAllPass (u ∷ us) s h =
      updates-MayAllPass us _
        (parts-MayAllPass u.callback_query u.message (record s { offset = u.update_id + 1 }) h)

  -- Whatever Telegram delivers, a poll adds only messages and presses of operators to the inbound stream,
  -- and of others only messages in a private chat to link or unlink, or of an account that is linked.
  pub poll_once-MayAllPass :
      (answer : Result (List TelegramUpdate)) (s : Received)
      → MayAllPass r s
      → MayAllPass r (poll_once r answer s).0
  unfolding poll_once
  poll_once-MayAllPass (err e) s h = h
  poll_once-MayAllPass (ok updates) s h = updates-MayAllPass updates s h

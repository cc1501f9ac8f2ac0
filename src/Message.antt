-- ===== src/Message.antt =====
-- The data of src/channels/channel.rs: a message of the comms stream, and how a channel and its
-- recipients are configured. A JSON value is kept by the two views that the daemon takes of it.
pub mod Receive
use geodineum_comms.Prelude.{
  ℕ, String, ◌==◌, Bool, true, false, ◌||◌, Option, none, some, List, [], ◌∷◌, any, ltb,
  if◌then◌else◌,
}
use geodineum_comms.Prelude.Dict.{Dict}

-- `serde_json::Value`: `as_str()`, and what it reads as where a list of texts is wanted.
pub record Json : Type 0 where
  pub as_str : Option String
  pub as_texts : Option (List String)

pub record SenderInfo : Type 0 where
  pub name : Option String
  pub email : Option String
  pub phone : Option String
  pub user_agent : Option String
  pub ip : Option String

pub record MessageContent : Type 0 where
  pub subject : Option String
  pub body : Option String
  pub attachments : Dict Json

pub data DispatchStatus : Type 0 where
  pending processing sent failed spam : DispatchStatus

pub record DispatchInfo : Type 0 where
  pub channels : List String
  pub status : DispatchStatus
  pub attempts : ℕ  -- u32
  pub last_attempt : Option String
  pub next_retry : Option String
  pub reply_markup : Option Json

-- One named recipient of an addressed message.
pub record AddressedTo : Type 0 where
  pub email : String
  pub name : Option String
  pub telegram : Option String

-- `message_type` is the field `type` of the wire.
pub record CommsMessage : Type 0 where
  pub id : String
  pub message_type : String
  pub timestamp : String
  pub site_id : String
  pub priority : ℕ  -- u8
  pub sender : Option SenderInfo
  pub content : MessageContent
  pub metadata : Dict Json
  pub environment : String
  pub dispatch : Option DispatchInfo
  pub to : Option AddressedTo

pub record RateLimit : Type 0 where
  pub max_requests : ℕ  -- u32
  pub window_secs : ℕ  -- u64

pub record RecipientConfig : Type 0 where
  pub address : Dict String
  pub types : List String
  pub min_priority : ℕ  -- u8

pub record ChannelConfig : Type 0 where
  pub enabled : Bool
  pub config : Dict Json
  pub recipients : List RecipientConfig
  pub rate_limit : Option RateLimit

pub record SendResult : Type 0 where
  pub success : Bool
  pub provider_id : Option String
  pub metadata : Dict String

abbrev pub is_empty {ℓ} : {A : Type ℓ} → List A → Bool
is_empty [] = true
is_empty (x ∷ xs) = false

-- `RecipientConfig::should_receive`
unfoldable pub should_receive : RecipientConfig → String → ℕ → Bool
should_receive r message_type priority =
    if ltb r.min_priority priority
    then false
    else if is_empty r.types
    then true
    else any (λ t. t == message_type || t == "all") r.types

-- ===== src/Contract.antt =====
-- packages/realtime-chat-message-contracts: the message and target types that the server's
-- packages and the web client share. A timestamp in ISO 8601 form is the text that it is.
pub mod Identity
pub mod Responses
mod Tests
use Prim.Native.String.{◌++◌}
use wake_surfer.Common.{ℕ, String, Bool, true, false, Option, none, some}

pub data MessageTarget : Type 0 where
  channel dm thread : String → MessageTarget

unfoldable pub get_message_target_type : MessageTarget → String
get_message_target_type (channel id) = "channel"
get_message_target_type (dm id) = "dm"
get_message_target_type (thread id) = "thread"

unfoldable pub get_message_target_id : MessageTarget → String
get_message_target_id (channel id) = id
get_message_target_id (dm id) = id
get_message_target_id (thread id) = id

unfoldable pub get_canonical_stream_id : MessageTarget → String
unfolding get_message_target_type get_message_target_id
get_canonical_stream_id target =
    get_message_target_type target ++ (":" ++ get_message_target_id target)

-- `content` and the timestamp that goes with it: `PublicTextMessage` or `PublicDeletedMessage`.
pub data Content : Type 0 where
  text : String → (edited_at : Option String) → Content
  deleted : (deleted_at : String) → Content

pub record PublicMessage : Type 0 where
  pub message_id : String
  pub stream_id : String
  pub sequence : ℕ
  pub sender_actor_id : String
  pub target : MessageTarget
  pub created_at : String
  pub sent_at_client : Option String
  pub content : Content

unfoldable pub is_deleted_public_message : PublicMessage → Bool
is_deleted_public_message message = elim message.content [ text t e ↦ false | deleted d ↦ true ]

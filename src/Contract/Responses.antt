-- ===== src/Contract/Responses.antt =====
-- packages/realtime-chat-stream-messages-contracts: the server's responses to the three queries.
use wake_surfer.Common.{ℕ, String, Bool, List, Option}
use wake_surfer.Contract.{PublicMessage}

pub record LatestResponse : Type 0 where
  pub stream : String
  pub through_sequence : ℕ
  pub messages : List PublicMessage
  pub next_before_sequence : Option ℕ
  pub has_more_before : Bool

pub record OlderResponse : Type 0 where
  pub stream : String
  pub before_sequence : ℕ
  pub messages : List PublicMessage
  pub next_before_sequence : Option ℕ
  pub has_more_before : Bool

pub record SyncResponse : Type 0 where
  pub stream : String
  pub after_sequence : ℕ
  pub through_sequence : ℕ
  pub messages : List PublicMessage
  pub next_after_sequence : ℕ
  pub has_more_after : Bool

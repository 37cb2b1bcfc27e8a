-- ===== src/Send/Fixture.antt =====
-- Data of the tests: Ann writes "hi" to the channel "c".
use wake_surfer.Common.{ℕ, String, Bool, true, List, [], ◌∷◌, Option, some}
use wake_surfer.Contract.{MessageTarget, channel}
use wake_surfer.Send.{CanonicalPayload}
use wake_surfer.Send.Execute.{SendMessageInput}
use wake_surfer.Send.Append.{AppendedTextMessage}

abbrev pub stringify : CanonicalPayload → String
stringify payload = payload.target_id

abbrev pub sha256 : String → List ℕ
sha256 s = 7 ∷ []

abbrev pub resolve_target : (sender_actor_id : String) → MessageTarget → Option String
resolve_target sender target = some "channel:c"

abbrev pub authorize_write :
    (sender_actor_id : String) → MessageTarget → (stream_id : String) → Bool
authorize_write sender target stream_id = true

abbrev pub hello : SendMessageInput
hello = record {
  sender_actor_id = "ann";
  idempotency_key = "k1";
  target = channel "c";
  text = " hi ";
}

abbrev pub hello_message : AppendedTextMessage
hello_message = record {
  message_id = "m1";
  stream_id = "channel:c";
  sequence = 1;
  sender_actor_id = "ann";
  target = channel "c";
  text = "hi";
  created_at = 100;
}

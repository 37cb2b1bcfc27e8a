-- ===== src/Send/Idempotent.antt =====
-- The idempotency key of a sender.
use wake_surfer.Common.{String, ℕ, List, some, ◌≡◌, ◌≢◌, inl, inr, ok}
use wake_surfer.Store.{ReceiptRow, Db, find_receipt}
use wake_surfer.Send.{CanonicalPayload}
use wake_surfer.Send.Append.{AppendedTextMessage}
use wake_surfer.Send.Execute.{
  SendMessageInput, accepted, newly, Resolver, WriteAuthorizer, execute_send_message,
}
use wake_surfer.Send.Results.{execute_send_message-Sent}

module _ (stringify : CanonicalPayload → String) (sha256 : String → List ℕ)
    (resolve_target : Resolver) (authorize_write : WriteAuthorizer) where
  -- A call under an idempotency key for which the sender has a receipt never sends a message again,
  -- whatever its text, its target and its message ID are, and also when the receipt was not there
  -- yet at the first look (`seen`): the database stays as it is, and the answer is not that a message
  -- is new.
  pub execute_send_message-known_key :
      (seen : Db) (input : SendMessageInput) (message_id : String) (now : ℕ) (db : Db)
      (receipt : ReceiptRow)
      → find_receipt input.sender_actor_id input.idempotency_key db.receipts ≡ some receipt
      → ((execute_send_message stringify sha256 resolve_target authorize_write seen input message_id
            now db).1
          ≡ db)
        × ((m : AppendedTextMessage)
            → (execute_send_message stringify sha256 resolve_target authorize_write seen input
                message_id now db).0
              ≢ ok (accepted newly m))
  execute_send_message-known_key seen input id now db receipt known =
      elim (execute_send_message-Sent stringify sha256 resolve_target authorize_write seen input id
        now db) [
          | inl refused ↦ (refused.unchanged, refused.not_new)
          | inr sent ↦ absurd (let free = sent.is_appended.new_receipt in cc)
        ]

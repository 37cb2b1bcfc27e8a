-- ===== src/Fit.antt =====
-- apps/realtime-chat-api/src/features/stream-messages/page-policy.ts: a page of messages becomes a
-- response whose envelope is within the limit of the transport. How an envelope is measured is
-- given from outside: `measure`. `toISOString` belongs to the JavaScript engine: `to_iso_string`.
pub mod Longest
mod Tests
use wake_surfer.Common.{
  ℕ, zero, suc, ◌-◌, String, Bool, true, false, List, [], ◌∷◌, Option, none, some, map, ltb, length,
  drop, take, first?, last?, if◌then◌else◌, Result, ok, err, ◌>>=◌,
}
use wake_surfer.Values.{Number, whole, is_safe_integer}
use wake_surfer.Contract.{
  MessageTarget, PublicMessage, Content, text, deleted, get_canonical_stream_id,
}
use wake_surfer.Contract.Responses.{LatestResponse, OlderResponse, SyncResponse}
use wake_surfer.Streams.{StreamMessage, Body}
use wake_surfer.Streams.Usecases.{LatestMessagesPage, OlderMessagesPage, SyncAfterMessagesPage}

-- StreamMessagesEnvelopeIntegrityError
pub data IntegrityError : Type 0 where
  oversized_row : (message_id stream_id : String) (sequence utf8_byte_length : ℕ) → IntegrityError
  invalid_envelope_measurement : Number → IntegrityError

pub record Measurement : Type 0 where
  pub utf8_byte_length : Number
  pub is_within_limit : Bool

pub record MeasuredPage (R : Type 0) : Type 0 where
  pub response : R
  pub envelope_utf8_byte_length : ℕ

-- The number that passed comes back as a natural number.
unfoldable pub assert_valid_measurement : Measurement → Result IntegrityError ℕ
assert_valid_measurement m = valid m.utf8_byte_length
  where
    valid : Number → Result IntegrityError ℕ
    valid (whole n) =
        if is_safe_integer (whole n) then ok n else err (invalid_envelope_measurement (whole n))
    valid n = err (invalid_envelope_measurement n)

module _ {R : Type 0} where
  -- What the loop does with messages that are over the limit.
  abbrev pub shrink :
      List PublicMessage
      → ℕ
      → Result IntegrityError (MeasuredPage R)
      → Result IntegrityError (MeasuredPage R)
  shrink [] bytes rest = err (invalid_envelope_measurement (whole bytes))
  shrink (m ∷ []) bytes rest = err (oversized_row m.message_id m.stream_id m.sequence bytes)
  shrink (m ∷ n ∷ ms) bytes rest = rest

  module _ (build_response : List PublicMessage → R) (measure : R → Measurement)
      (remove_message : List PublicMessage → List PublicMessage) where
    -- The loop, with fuel: it takes a message away each time, so that their number is enough.
    unfoldable pub fit_loop :
        (fuel : ℕ) → List PublicMessage → Result IntegrityError (MeasuredPage R)
    fit_loop zero messages = err (invalid_envelope_measurement (whole 0))
    fit_loop (suc fuel) messages =
        let rest = fit_loop fuel (remove_message messages) in
        let response = build_response messages in
        assert_valid_measurement (measure response) >>= λ bytes.
        if (measure response).is_within_limit
        then ok (record { response = response; envelope_utf8_byte_length = bytes })
        else shrink messages bytes rest

    unfoldable pub fit_contiguous_messages :
        List PublicMessage → Result IntegrityError (MeasuredPage R)
    unfolding fit_loop
    fit_contiguous_messages messages = fit_loop (suc (length messages)) messages

  module _ (messages : List PublicMessage) (build_response : List PublicMessage → R)
      (measure : R → Measurement) where
    unfoldable pub fit_newest_contiguous_messages : Result IntegrityError (MeasuredPage R)
    unfolding fit_contiguous_messages
    fit_newest_contiguous_messages =
        fit_contiguous_messages build_response measure (λ ms. drop 1 ms) messages

    unfoldable pub fit_oldest_contiguous_messages : Result IntegrityError (MeasuredPage R)
    unfolding fit_contiguous_messages
    fit_oldest_contiguous_messages =
        fit_contiguous_messages build_response measure (λ ms. take (length ms - 1) ms) messages

abbrev pub sequence_of : Option PublicMessage → Option ℕ
sequence_of none = none
sequence_of (some m) = some m.sequence

abbrev pub has_before : Option PublicMessage → Bool
has_before none = false
has_before (some m) = ltb 1 m.sequence

abbrev pub sequence_or : Option PublicMessage → ℕ → ℕ
sequence_or none n = n
sequence_or (some m) n = m.sequence

module _ (to_iso_string : ℕ → String) where
  abbrev pub to_content : Body → Content
  to_content (Body.deleted at) = deleted (to_iso_string at)
  to_content (Body.text s none) = text s none
  to_content (Body.text s (some at)) = text s (some (to_iso_string at))

  abbrev pub iso_or_none : Option ℕ → Option String
  iso_or_none none = none
  iso_or_none (some at) = some (to_iso_string at)

  abbrev pub to_public_message : StreamMessage → PublicMessage
  to_public_message m = record {
    message_id = m.message_id;
    stream_id = get_canonical_stream_id m.target;
    sequence = m.sequence;
    sender_actor_id = m.sender_actor_id;
    target = m.target;
    created_at = to_iso_string m.created_at;
    sent_at_client = iso_or_none m.sent_at_client;
    content = to_content m.body;
  }

  abbrev pub to_public_messages : List StreamMessage → List PublicMessage
  to_public_messages messages = map to_public_message messages

  abbrev pub latest_response :
      MessageTarget → LatestMessagesPage → List PublicMessage → LatestResponse
  latest_response target page messages = record {
    stream = get_canonical_stream_id target;
    through_sequence = page.through_sequence;
    messages = messages;
    next_before_sequence = sequence_of (first? messages);
    has_more_before = has_before (first? messages);
  }

  abbrev pub older_response : MessageTarget → OlderMessagesPage → List PublicMessage → OlderResponse
  older_response target page messages = record {
    stream = get_canonical_stream_id target;
    before_sequence = page.before_sequence;
    messages = messages;
    next_before_sequence = sequence_of (first? messages);
    has_more_before = has_before (first? messages);
  }

  abbrev pub sync_response :
      MessageTarget → SyncAfterMessagesPage → List PublicMessage → SyncResponse
  sync_response target page messages =
      let next = sequence_or (last? messages) page.through_sequence in
      record {
        stream = get_canonical_stream_id target;
        after_sequence = page.after_sequence;
        through_sequence = page.through_sequence;
        messages = messages;
        next_after_sequence = next;
        has_more_after = ltb next page.through_sequence;
      }

  pub fit_latest_messages_page :
      MessageTarget
      → LatestMessagesPage
      → (LatestResponse → Measurement)
      → Result IntegrityError (MeasuredPage LatestResponse)
  unfolding fit_newest_contiguous_messages
  fit_latest_messages_page target page measure =
      fit_newest_contiguous_messages (to_public_messages page.messages)
        (latest_response target page) measure

  pub fit_older_messages_page :
      MessageTarget
      → OlderMessagesPage
      → (OlderResponse → Measurement)
      → Result IntegrityError (MeasuredPage OlderResponse)
  unfolding fit_newest_contiguous_messages
  fit_older_messages_page target page measure =
      fit_newest_contiguous_messages (to_public_messages page.messages) (older_response target page)
        measure

  pub fit_sync_after_messages_page :
      MessageTarget
      → SyncAfterMessagesPage
      → (SyncResponse → Measurement)
      → Result IntegrityError (MeasuredPage SyncResponse)
  unfolding fit_oldest_contiguous_messages
  fit_sync_after_messages_page target page measure =
      fit_oldest_contiguous_messages (to_public_messages page.messages) (sync_response target page)
        measure

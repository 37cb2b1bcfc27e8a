-- ===== src/Send.antt =====
-- packages/realtime-chat-message-send: an actor sends a text to a target. message-send.ts and
-- send-request-fingerprint.ts: the tests of arguments and the fingerprint of a request.
-- `JSON.stringify` belongs to the JavaScript engine and `createHash` to Node: parameters.
pub mod Content
pub mod Stored
pub mod Append
pub mod Execute
pub mod Appended
pub mod Idempotent
pub mod Outcomes
pub mod Results
pub mod Succeeds
pub mod Admitted
pub mod Accepted
pub mod Fixture
mod Tests
use Prim.Native.String.{◌++◌, len}
use wake_surfer.Common.{
  ℕ, String, Bool, true, false, not, ◌&&◌, ◌||◌, List, [], ◌∷◌, Option, none, some, ltb, ◌==◌,
  str_eq, if◌then◌else◌, Result, ok, err, ◌>>◌, guard, is_empty, trim, length,
}
use wake_surfer.Values.{Value}
use wake_surfer.Contract.{MessageTarget, channel, dm, thread}
use wake_surfer.Store.{Error, invalid_argument, unsupported_fingerprint, SendRequestFingerprint}
use wake_surfer.Send.Content.{max_text_message_utf8_bytes, create_persisted_text_message_content}

unfoldable pub assert_non_blank_string : String → Result Error (Unit {0})
assert_non_blank_string value = guard (not (is_empty (trim value))) invalid_argument

unfoldable pub assert_idempotency_key : String → Result Error (Unit {0})
unfolding assert_non_blank_string
assert_idempotency_key key =
    assert_non_blank_string key >> guard (str_eq (trim key) key) invalid_argument

unfoldable pub get_send_message_target_type : MessageTarget → String
get_send_message_target_type (channel id) = "channel"
get_send_message_target_type (dm id) = "dm"
get_send_message_target_type (thread id) = "thread"

unfoldable pub get_send_message_target_id : MessageTarget → String
get_send_message_target_id (channel id) = id
get_send_message_target_id (dm id) = id
get_send_message_target_id (thread id) = id

unfoldable pub get_send_message_stream_id : MessageTarget → String
unfolding get_send_message_target_type get_send_message_target_id
get_send_message_stream_id target =
    get_send_message_target_type target ++ (":" ++ get_send_message_target_id target)

-- The schema of a target: an ID that is not blank. Its other tests hold of every `MessageTarget`.
unfoldable pub assert_send_message_target : MessageTarget → Result Error (Unit {0})
unfolding get_send_message_target_id
assert_send_message_target target =
    guard (not (is_empty (trim (get_send_message_target_id target)))) invalid_argument

unfoldable pub normalize_message_text : String → Option String
normalize_message_text s =
    let normalized = trim s in
    if is_empty normalized || ltb max_text_message_utf8_bytes (len normalized)
    then none
    else some normalized

abbrev pub send_request_canonicalization_version : ℕ
send_request_canonicalization_version = 1

abbrev pub send_request_fingerprint_algorithm : String
send_request_fingerprint_algorithm = "sha256"

-- The object that is turned into JSON.
pub record CanonicalPayload : Type 0 where
  pub target_type : String
  pub target_id : String
  pub content : Value

module _ (stringify : CanonicalPayload → String) (sha256 : String → List ℕ) where
  abbrev pub fingerprint_of : MessageTarget → Value → SendRequestFingerprint
  fingerprint_of target content = record {
    canonicalization_version = send_request_canonicalization_version;
    algorithm = send_request_fingerprint_algorithm;
    key_id = none;
    value = sha256 (
        stringify (record {
          target_type = get_send_message_target_type target;
          target_id = get_send_message_target_id target;
          content = content;
        }));
  }

  unfoldable pub create_send_request_fingerprint :
      MessageTarget → String → Result Error SendRequestFingerprint
  unfolding create_persisted_text_message_content
  create_send_request_fingerprint target normalized_text =
      elim (create_persisted_text_message_content normalized_text) [
        | err e ↦ err e
        | ok content ↦ ok (fingerprint_of target content)
      ]

abbrev pub same_key_id : Option String → Option String → Bool
same_key_id none none = true
same_key_id (some a) (some b) = str_eq a b
same_key_id _ _ = false

-- timingSafeEqual, and the lengths that it wants equal
unfoldable pub same_bytes : List ℕ → List ℕ → Bool
same_bytes [] [] = true
same_bytes (a ∷ rest) (b ∷ more) = (a == b) && same_bytes rest more
same_bytes _ _ = false

unfoldable pub matches_send_request_fingerprint :
    SendRequestFingerprint → SendRequestFingerprint → Bool
unfolding same_bytes
matches_send_request_fingerprint left right =
    if not (left.canonicalization_version == right.canonicalization_version)
      || (not (str_eq left.algorithm right.algorithm)
          || (not (same_key_id left.key_id right.key_id)
              || not (length left.value == length right.value)))
    then false
    else same_bytes left.value right.value

abbrev is_null : Option String → Bool
is_null none = true
is_null (some s) = false

-- The scheme that the source supports: version 1, SHA-256, no key, and at least one byte.
unfoldable pub parse_send_request_fingerprint :
    SendRequestFingerprint → Result Error SendRequestFingerprint
parse_send_request_fingerprint f =
    if (f.canonicalization_version == send_request_canonicalization_version)
      && (str_eq f.algorithm send_request_fingerprint_algorithm
          && (is_null f.key_id && ltb 0 (length f.value)))
    then ok f
    else err unsupported_fingerprint

-- ===== src/Fit/Tests.antt =====
-- A page of three messages, of which two fit.
use wake_surfer.Common.{ℕ, ◌*◌, ◌≡◌, inr, refl, List, [], ◌∷◌, none, ok, arith, length, leb}
use wake_surfer.Values.{whole}
use wake_surfer.Contract.{PublicMessage, channel, text}
use wake_surfer.Fit.{
  Measurement, assert_valid_measurement, fit_newest_contiguous_messages,
  fit_oldest_contiguous_messages,
}
use wake_surfer.Fit.Longest.{
  page_of, fit_newest_contiguous_messages-IsLongest, fit_oldest_contiguous_messages-IsLongest,
}

abbrev note : ℕ → PublicMessage
note n = record {
  message_id = "m";
  stream_id = "channel:general";
  sequence = n;
  sender_actor_id = "ann";
  target = channel "general";
  created_at = "2026-01-01T00:00:00.000Z";
  sent_at_client = none;
  content = text "hello" none;
}

abbrev three_notes : List PublicMessage
three_notes = note 1 ∷ note 2 ∷ note 3 ∷ []

-- An envelope of 100 bytes for each message, with a limit of 200.
abbrev measure_all : List PublicMessage → Measurement
measure_all ms = record {
  utf8_byte_length = whole (length ms * 100);
  is_within_limit = leb (length ms) 2;
}

fit_newest_contiguous_messages-IsLongest_example :
    fit_newest_contiguous_messages three_notes (λ ms. ms) measure_all
    ≡ ok (page_of (λ ms. ms) measure_all 200 (note 2 ∷ note 3 ∷ []))
unfolding assert_valid_measurement
fit_newest_contiguous_messages-IsLongest_example =
    fit_newest_contiguous_messages-IsLongest (λ ms. ms) measure_all three_notes 1 200
      ((300, (refl, refl)), tt) (refl, refl) (inr (omega arith))

fit_oldest_contiguous_messages-IsLongest_example :
    fit_oldest_contiguous_messages three_notes (λ ms. ms) measure_all
    ≡ ok (page_of (λ ms. ms) measure_all 200 (note 1 ∷ note 2 ∷ []))
unfolding assert_valid_measurement
fit_oldest_contiguous_messages-IsLongest_example =
    fit_oldest_contiguous_messages-IsLongest (λ ms. ms) measure_all three_notes 1 200
      ((300, (refl, refl)), tt) (refl, refl) (inr (omega arith))

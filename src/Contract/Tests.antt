-- ===== src/Contract/Tests.antt =====
-- The stream ID of a thread.
use wake_surfer.Common.{◌≡◌, refl}
use wake_surfer.Contract.{thread}
use wake_surfer.Contract.Identity.{get_canonical_stream_id-injective}

get_canonical_stream_id-injective_example : thread "t:1" ≡ thread "t:1"
get_canonical_stream_id-injective_example =
    get_canonical_stream_id-injective (thread "t:1") (thread "t:1") refl

-- ===== src/Streams/Outcomes.antt =====
-- The three pages of the queries, as windows of the stream.
use wake_surfer.Common.{
  ℕ, zero, suc, ◌+◌, ◌-◌, min, ◌≤◌, ◌<◌, ◌≡◌, ◌↔◌, refl, ap, ◌∙◌, sym, true, List, [], ◌∷◌, Option,
  none, some, arith, ◌==◌, length, last?, range_from, length-map, length-range_from, if◌then◌else◌,
}
use wake_surfer.Streams.{StreamMessage}
use wake_surfer.Streams.Window.Range.{sequences}
use wake_surfer.Streams.Reads.{SyncAfterMessagesSnapshot, LatestMessagesSnapshot, through_or}
use wake_surfer.Streams.Usecases.{
  OlderMessagesPage, LatestMessagesPage, SyncAfterMessagesPage, create_load_older_messages_success,
  create_load_latest_messages_success, create_sync_after_messages_success, sequence_or,
}

-- A page of older messages: the window right before the cursor, at most `limit` messages, with the
-- cursor of the next page and whether there is one.
pub record IsOlderPage (before limit : ℕ) (p : OlderMessagesPage) : Type 0 where
  pub cursor : p.before_sequence ≡ before
  pub range :
      sequences p.messages ≡ range_from (before - min (before - 1) limit) (min (before - 1) limit)
  pub next :
      p.next_before_sequence
      ≡ (if before == 1 then none else some (before - min (before - 1) limit))
  pub more : (p.has_more_before ≡ true) ↔ (limit + 1 < before)

head_of : {a b : ℕ} {xs ys : List ℕ} → a ∷ xs ≡ b ∷ ys → a ≡ b
head_of e = cc

count_of : (ms : List StreamMessage) (a n : ℕ) → sequences ms ≡ range_from a n → length ms ≡ n
count_of ms a n h =
    sym (length-map (λ (m : StreamMessage). m.sequence) ms) ∙ ap length h ∙ length-range_from a n

first_of :
    (m : StreamMessage) (ms : List StreamMessage) (a n : ℕ)
    → sequences (m ∷ ms) ≡ range_from a n
    → m.sequence ≡ a
first_of m ms a zero h = cc
first_of m ms a (suc n) h = head_of h

pub create_older-IsOlderPage :
    (before limit : ℕ) (ms : List StreamMessage)
    → 0 < before
    → 0 < limit
    → sequences ms ≡ range_from (before - min (before - 1) limit) (min (before - 1) limit)
    → IsOlderPage before limit (create_load_older_messages_success before ms)
unfolding create_load_older_messages_success
create_older-IsOlderPage before limit [] pos some_limit h =
    let none_left : 0 ≡ min (before - 1) limit = count_of [] _ _ h in
    let one : before ≡ 1 = omega arith in
    record { cursor = refl; range = h; next = ground arith; more = ground arith }
create_older-IsOlderPage before limit (m ∷ ms) pos some_limit h =
    let n : ℕ = min (before - 1) limit in
    let start : m.sequence ≡ before - n = first_of m ms (before - n) n h in
    let count : suc (length ms) ≡ n = count_of (m ∷ ms) (before - n) n h in
    record { cursor = refl; range = h; next = ground arith; more = ground arith }

-- A page of newer messages: the window right after the cursor, at most `limit` messages, up to the
-- number that was asked for, or to the head of the stream.
pub record IsSyncPage (after : ℕ) (through : Option ℕ) (limit head : ℕ) (p : SyncAfterMessagesPage)
    : Type 0 where
  pub cursor : p.after_sequence ≡ after
  pub bound : p.through_sequence ≡ through_or through head
  pub within : (after ≤ p.through_sequence) × (p.through_sequence ≤ head)
  pub range : sequences p.messages ≡ range_from (after + 1) (min (p.through_sequence - after) limit)
  pub next : p.next_after_sequence ≡ after + min (p.through_sequence - after) limit
  pub more : (p.has_more_after ≡ true) ↔ (after + limit < p.through_sequence)

last_of :
    (m : StreamMessage) (ms : List StreamMessage) (a n through : ℕ)
    → sequences (m ∷ ms) ≡ range_from a n
    → sequence_or (last? (m ∷ ms)) through + 1 ≡ a + n
last_of m [] a n through h =
    let start = first_of m [] a n h in let count = count_of (m ∷ []) a n h in omega (arith, start)
last_of m (k ∷ ms) a zero through h = cc
last_of m (k ∷ ms) a (suc n) through h =
    let rest : sequences (k ∷ ms) ≡ range_from (suc a) n = cc in
    omega (arith, last_of k ms (suc a) n through rest)

pub create_sync-IsSyncPage :
    (after : ℕ) (through : Option ℕ) (limit head : ℕ) (s : SyncAfterMessagesSnapshot)
    (ms : List StreamMessage)
    → s.messages ≡ ms
    → 0 < limit
    → s.through ≡ through_or through head
    → after ≤ s.through
    → s.through ≤ head
    → sequences ms ≡ range_from (after + 1) (min (s.through - after) limit)
    → IsSyncPage after through limit head (create_sync_after_messages_success after s)
unfolding create_sync_after_messages_success
create_sync-IsSyncPage after through limit head s [] e pos bound low high h =
    let none_left : 0 ≡ min (s.through - after) limit = count_of [] _ _ h in
    rw e (record {
      cursor = refl;
      bound = bound;
      within = (low, high);
      range = h;
      next = omega arith;
      more = ground arith;
    })
create_sync-IsSyncPage after through limit head s (m ∷ ms) e pos bound low high h =
    let stop = last_of m ms (after + 1) (min (s.through - after) limit) s.through h in
    rw e (record {
      cursor = refl;
      bound = bound;
      within = (low, high);
      range = h;
      next = omega (arith, stop);
      more = ground (arith, stop);
    })

-- The first page: the newest messages of the stream, at most five.
pub record IsLatestPage (head : ℕ) (p : LatestMessagesPage) : Type 0 where
  pub bound : p.through_sequence ≡ head
  pub range : sequences p.messages ≡ range_from (head + 1 - min head 5) (min head 5)
  pub next : p.next_before_sequence ≡ (if head == 0 then none else some (head + 1 - min head 5))
  pub more : (p.has_more_before ≡ true) ↔ (5 < head)

pub create_latest-IsLatestPage :
    (s : LatestMessagesSnapshot) (ms : List StreamMessage)
    → s.messages ≡ ms
    → sequences ms ≡ range_from (s.head + 1 - min s.head 5) (min s.head 5)
    → IsLatestPage s.head (create_load_latest_messages_success s)
unfolding create_load_latest_messages_success
create_latest-IsLatestPage s [] e h =
    let none_left : 0 ≡ min s.head 5 = count_of [] _ _ h in
    rw e (record { bound = refl; range = h; next = ground arith; more = ground arith })
create_latest-IsLatestPage s (m ∷ ms) e h =
    let start = first_of m ms _ _ h in
    let count = count_of (m ∷ ms) _ _ h in
    rw e (record {
      bound = refl;
      range = h;
      next = ground (arith, start);
      more = ground (arith, start);
    })

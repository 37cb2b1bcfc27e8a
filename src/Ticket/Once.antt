-- ===== src/Ticket/Once.antt =====
-- packages/realtime-chat-gateway-ticket: runs of calls, and the tickets that are spent.
use wake_surfer.Common.{
  ℕ, ◌≡◌, ◌≢◌, inl, inr, refl, ◌∙◌, String, Bool, true, false, ◌&&◌, ◌||◌, List, [], ◌∷◌, Option,
  none, some, arith, str_eq, eq_iff, Result, ok, err, is_empty, trim, Bool-cases, Option-cases,
}
use wake_surfer.Common.Exec.{Exec, pure, continue, ◌>>◌, continue-Keeps, >>=-Keeps}
use wake_surfer.Ticket.{
  Error, GatewayAssignment, GatewayTicketPolicy, IssuedGatewayTicket, TicketRow, TicketDb,
  ConsumptionInput, Consumption, consumed, rejected, IssueResponse, has_hash, is_unconsumed,
  is_consumable, update_rows, first_updated, parse_consumed_row, save_issued_gateway_ticket,
  consume_issued_gateway_ticket, assert_non_blank_string, create_gateway_ticket_timestamps,
  assert_gateway_assignment, to_milliseconds,
}
use wake_surfer.Ticket.Usecases.{issue_gateway_ticket, consume_present, consume_gateway_ticket}

-- A row with the hash is not consumed.
abbrev pub has_open : String → TicketDb → Bool
has_open hash [] = false
has_open hash (row ∷ rows) =
    (str_eq row.ticket.ticket_hash hash && is_unconsumed row.consumed_at) || has_open hash rows

-- No two rows have the same hash.
abbrev pub IsKeyed : TicketDb → Type 0
IsKeyed [] = Unit
IsKeyed (row ∷ rows) = (has_hash row.ticket.ticket_hash rows ≡ false) × IsKeyed rows

-- The hash is in the table, and its ticket is consumed.
abbrev pub IsSpent : String → TicketDb → Type 0
IsSpent hash db = (has_hash hash db ≡ true) × (has_open hash db ≡ false)

module _ (input : ConsumptionInput) where
  has_hash-update_rows :
      (hash : String) (db : TicketDb) → has_hash hash (update_rows input db) ≡ has_hash hash db
  unfolding update_rows
  has_hash-update_rows hash [] = refl
  has_hash-update_rows hash (row ∷ rows) = ground (arith, has_hash-update_rows hash rows)

  update_rows-IsKeyed : (db : TicketDb) → IsKeyed db → IsKeyed (update_rows input db)
  unfolding update_rows
  update_rows-IsKeyed [] k = tt
  update_rows-IsKeyed (row ∷ rows) (fresh, k) =
      (ground (arith, has_hash-update_rows row.ticket.ticket_hash rows), update_rows-IsKeyed rows k)

  has_open-update_rows :
      (hash : String) (db : TicketDb)
      → has_open hash db ≡ false
      → has_open hash (update_rows input db) ≡ false
  unfolding update_rows
  has_open-update_rows hash [] h = refl
  has_open-update_rows hash (row ∷ rows) h = ground (arith, has_open-update_rows hash rows)

  pub absent-closed :
      (hash : String) (db : TicketDb) → has_hash hash db ≡ false → has_open hash db ≡ false
  absent-closed hash [] h = refl
  absent-closed hash (row ∷ rows) h = ground (arith, absent-closed hash rows)

  pub closed-first_updated :
      (db : TicketDb) → has_open input.ticket_hash db ≡ false → first_updated input db ≡ none
  unfolding first_updated is_consumable
  closed-first_updated [] h = refl
  closed-first_updated (row ∷ rows) h = ground (arith, closed-first_updated rows)

  -- The row that the update returns is the only one with its hash.
  first_updated-IsSpent :
      (db : TicketDb) (found : TicketRow)
      → IsKeyed db
      → first_updated input db ≡ some found
      → IsSpent input.ticket_hash (update_rows input db)
  unfolding first_updated update_rows is_consumable
  first_updated-IsSpent [] found k h = cc
  first_updated-IsSpent (row ∷ rows) found (fresh, k) h =
      elim (Bool-cases (is_consumable input row)) [
        | inl this ↦
            let named = eq_iff row.ticket.ticket_hash input.ticket_hash in
            let absent : has_hash input.ticket_hash rows ≡ false = ground arith in
            let closed =
              has_open-update_rows input.ticket_hash rows
                (absent-closed input.ticket_hash rows absent) in
            ground arith
        | inr another ↦
            let (there, closed) = first_updated-IsSpent rows found k (ground arith) in
            let still = has_hash-update_rows input.ticket_hash rows in
            let named = eq_iff row.ticket.ticket_hash input.ticket_hash in ground arith
      ]

-- A call of the module, with what the source of random tickets answers in it.
pub data Call : Type 0 where
  issue : (generate : ℕ → String) (actor_id : String) (now : ℕ) → Call
  consume : (ticket gateway_id : String) (now : ℕ) → Call

module _ (parse_url : String → Option String) (hash : String → String)
    (assign_gateway : String → Result Error GatewayAssignment) (policy : GatewayTicketPolicy) where
  abbrev pub table_after : Call → TicketDb → TicketDb
  table_after (issue generate actor_id now) db =
      (issue_gateway_ticket parse_url hash assign_gateway policy generate actor_id now db).1
  table_after (consume ticket gateway_id now) db =
      (consume_gateway_ticket parse_url hash assign_gateway policy ticket gateway_id now db).1

  -- The table after the calls.
  unfoldable pub run : List Call → TicketDb → TicketDb
  run [] db = db
  run (call ∷ calls) db = run calls (table_after call db)

  -- A predicate that the two writes keep holds after any calls.
  run-Keeps :
      (P : TicketDb → Type 0)
      → ((ticket : IssuedGatewayTicket) (db : TicketDb)
          → P db
          → P (save_issued_gateway_ticket ticket db).1)
      → ((input : ConsumptionInput) (db : TicketDb) → P db → P (update_rows input db))
      → (calls : List Call) (db : TicketDb) → P db
      → P (run calls db)
  unfolding run issue_gateway_ticket consume_gateway_ticket consume_issued_gateway_ticket
  run-Keeps P saves updates [] db p = p
  run-Keeps P saves updates (call ∷ calls) db p =
      run-Keeps P saves updates calls (table_after call db) (kept call)
    where
      saved :
          (ticket : IssuedGatewayTicket) (answer : IssueResponse) (s : TicketDb)
          → P s
          → P ((save_issued_gateway_ticket ticket >> pure answer) s).1
      saved ticket answer s q =
          >>=-Keeps P (save_issued_gateway_ticket ticket) (λ u. pure answer) (saves ticket)
            (λ u r k. k) s q

      kept : (call : Call) → P (table_after call db)
      kept (issue generate actor_id now) =
          continue-Keeps P (assert_non_blank_string actor_id) _
            (λ u. continue-Keeps P (create_gateway_ticket_timestamps now policy) _ (λ timestamps.
              continue-Keeps P (assign_gateway actor_id) _ (λ assignment.
                continue-Keeps P (assert_gateway_assignment parse_url assignment) _ (λ v s q.
                  saved
                    (record {
                      ticket_hash = hash (generate (to_milliseconds policy.raw_ticket_bytes));
                      actor_id = actor_id;
                      assigned_gateway_id = assignment.gateway_id;
                      issued_at = timestamps.0;
                      expires_at = timestamps.1;
                    })
                    _ s q))))
            db p
      kept (consume ticket gateway_id now) =
          continue-Keeps P (assert_non_blank_string gateway_id) _
            (λ u s q. elim (Bool-cases (is_empty (trim ticket))) [
              | inl blank ↦ rw blank q
              | inr present ↦ rw present (
                  updates
                    (record {
                      ticket_hash = hash ticket;
                      gateway_id = gateway_id;
                      now = now;
                      consumed_at = now;
                    })
                    s q)
            ])
            db p

  save-IsKeyed :
      (ticket : IssuedGatewayTicket) (db : TicketDb)
      → IsKeyed db
      → IsKeyed (save_issued_gateway_ticket ticket db).1
  unfolding save_issued_gateway_ticket
  save-IsKeyed ticket db k = elim (Bool-cases (has_hash ticket.ticket_hash db)) [
    | inl there ↦ rw there k
    | inr new ↦ rw new (new, k)
  ]

  save-IsSpent :
      (h : String) (ticket : IssuedGatewayTicket) (db : TicketDb)
      → IsSpent h db
      → IsSpent h (save_issued_gateway_ticket ticket db).1
  unfolding save_issued_gateway_ticket
  save-IsSpent h ticket db (there, closed) = elim (Bool-cases (has_hash ticket.ticket_hash db)) [
    | inl taken ↦ rw taken (there, closed)
    | inr new ↦ let named = eq_iff ticket.ticket_hash h in rw new (ground arith, ground arith)
  ]

  update-IsSpent :
      (h : String) (input : ConsumptionInput) (db : TicketDb)
      → IsSpent h db
      → IsSpent h (update_rows input db)
  update-IsSpent h input db (there, closed) =
      (has_hash-update_rows input h db ∙ there, has_open-update_rows input h db closed)

  module _ (ticket gateway_id : String) (now : ℕ) (db : TicketDb) (actor_id : String) (at : ℕ) where
    abbrev input_of : ConsumptionInput
    input_of = record {
      ticket_hash = hash ticket;
      gateway_id = gateway_id;
      now = now;
      consumed_at = now;
    }

    abbrev present : Exec TicketDb Error Consumption
    present = consume_present parse_url hash assign_gateway policy ticket gateway_id now

    -- An answer that the ticket is consumed comes from a row that is updated.
    updated :
        (present db).0 ≡ ok (consumed actor_id at)
        → (row : TicketRow) × (first_updated input_of db ≡ some row)
          × ((present db).1 ≡ update_rows input_of db)
    unfolding consume_issued_gateway_ticket parse_consumed_row
    updated h = elim (Bool-cases (is_empty (trim ticket))) [
      | inl blank ↦ let no : ok rejected ≡ ok (consumed actor_id at) = rw blank at h in cc
      | inr not_blank ↦ elim (Option-cases (first_updated input_of db)) [
        | inl nothing ↦
            let no : ok rejected ≡ ok (consumed actor_id at) = rw (not_blank, nothing) at h in cc
        | inr (row, found) ↦ (row, found, rw not_blank)
      ]
    ]

    passed :
        (r : Result Error (Unit {0}))
        → (continue r (λ u. present) db).0 ≡ ok (consumed actor_id at)
        → ((present db).0 ≡ ok (consumed actor_id at))
          × ((continue r (λ u. present) db).1 ≡ (present db).1)
    passed (ok u) h = (h, refl)
    passed (err e) h = cc

  -- A consumption that succeeds leaves the hash spent.
  consumed-IsSpent :
      (ticket gateway_id : String) (now : ℕ) (db : TicketDb) (actor_id : String) (at : ℕ)
      → IsKeyed db
      → (consume_gateway_ticket parse_url hash assign_gateway policy ticket gateway_id now db).0
        ≡ ok (consumed actor_id at)
      → IsSpent
          (hash ticket)
          (consume_gateway_ticket parse_url hash assign_gateway policy ticket gateway_id now db).1
  unfolding consume_gateway_ticket consume_issued_gateway_ticket
  consumed-IsSpent ticket gateway_id now db actor_id at k h =
      let (answered, same) =
        passed ticket gateway_id now db actor_id at (assert_non_blank_string gateway_id) h in
      let (row, found, updates) = updated ticket gateway_id now db actor_id at answered in
      rw (same, updates)
        (first_updated-IsSpent (input_of ticket gateway_id now db actor_id at) db row k found)

  -- Nothing is left to consume where the hash is spent.
  spent-rejected :
      (ticket gateway_id : String) (now : ℕ) (db : TicketDb)
      → IsSpent (hash ticket) db
      → (actor_id : String) (at : ℕ)
      → (consume_gateway_ticket parse_url hash assign_gateway policy ticket gateway_id now db).0
        ≢ ok (consumed actor_id at)
  unfolding consume_gateway_ticket consume_issued_gateway_ticket
  spent-rejected ticket gateway_id now db (there, closed) actor_id at h =
      let (answered, same) =
        passed ticket gateway_id now db actor_id at (assert_non_blank_string gateway_id) h in
      let (row, found, updates) = updated ticket gateway_id now db actor_id at answered in
      let none_left =
        closed-first_updated (input_of ticket gateway_id now db actor_id at) db closed in
      cc

  -- A ticket that a gateway has consumed, after any calls on an empty table, is never consumed
  -- again: after any further calls, of whatever gateway and at whatever time, no call of
  -- `consumeGatewayTicket` with it answers that it is consumed.
  pub consume_gateway_ticket-is_once :
      (before after : List Call) (ticket gateway_id gateway_id_2 : String) (now now_2 : ℕ)
      (actor_id actor_id_2 : String) (at at_2 : ℕ)
      → (consume_gateway_ticket parse_url hash assign_gateway policy ticket gateway_id now
          (run before [])).0
        ≡ ok (consumed actor_id at)
      → (consume_gateway_ticket parse_url hash assign_gateway policy ticket gateway_id_2 now_2
          (run after (run (consume ticket gateway_id now ∷ []) (run before [])))).0
        ≢ ok (consumed actor_id_2 at_2)
  unfolding run
  consume_gateway_ticket-is_once before after ticket gateway_id gateway_id_2 now now_2 actor_id
        actor_id_2 at at_2 h =
      let keyed =
        run-Keeps IsKeyed save-IsKeyed (λ input db k. update_rows-IsKeyed input db k) before []
          tt in
      let spent = consumed-IsSpent ticket gateway_id now (run before []) actor_id at keyed h in
      let still =
        run-Keeps (IsSpent (hash ticket)) (save-IsSpent (hash ticket))
          (update-IsSpent (hash ticket)) after
          (table_after (consume ticket gateway_id now) (run before [])) spent in
      spent-rejected ticket gateway_id_2 now_2
        (run after (table_after (consume ticket gateway_id now) (run before []))) still actor_id_2
        at_2

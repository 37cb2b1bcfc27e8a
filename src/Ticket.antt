-- ===== src/Ticket.antt =====
-- packages/realtime-chat-gateway-ticket: a server issues a ticket to an actor, and the gateway that
-- the actor is assigned to consumes it. The table of the tickets is a list of rows. A timestamp is
-- its count of milliseconds. `new URL`, the hash, the source of random tickets and the assigner are
-- given from outside: parameters.
pub mod Usecases
pub mod Once
pub mod Roundtrip
mod Tests
use wake_surfer.Common.{
  ℕ, zero, suc, ◌+◌, String, Bool, true, false, not, ◌&&◌, ◌||◌, List, [], ◌∷◌, Option, none, some,
  ltb, leb, str_eq, if◌then◌else◌, Result, ok, err, ◌>>◌, guard, is_empty, trim,
}
use wake_surfer.Common.Exec.{Exec}
use wake_surfer.Values.{Number, whole, negative, other}

pub data Error : Type 0 where
  invalid_policy blank_string invalid_url invalid_protocol invalid_row invalid_time duplicate_hash :
      Error
  assigner_failed : Error

pub record GatewayAssignment : Type 0 where
  pub gateway_id : String
  pub gateway_url : String

pub record GatewayTicketPolicy : Type 0 where
  pub ttl_milliseconds : Number
  pub raw_ticket_bytes : Number

pub record IssuedGatewayTicket : Type 0 where
  pub ticket_hash : String
  pub actor_id : String
  pub assigned_gateway_id : String
  pub issued_at : ℕ
  pub expires_at : ℕ

-- A row of the table `gateway_tickets`.
pub record TicketRow : Type 0 where
  pub ticket : IssuedGatewayTicket
  pub consumed_at : Option ℕ

abbrev pub TicketDb : Type 0
TicketDb = List TicketRow

pub record ConsumptionInput : Type 0 where
  pub ticket_hash : String
  pub gateway_id : String
  pub now : ℕ
  pub consumed_at : ℕ

pub data Consumption : Type 0 where
  consumed : (actor_id : String) (consumed_at : ℕ) → Consumption
  rejected : Consumption

pub record IssueResponse : Type 0 where
  pub ticket : String
  pub gateway_url : String
  pub expires_at : ℕ

abbrev pub min_gateway_ticket_raw_bytes : ℕ
min_gateway_ticket_raw_bytes = 16

abbrev pub max_gateway_ticket_raw_bytes : ℕ
max_gateway_ticket_raw_bytes = 64

-- !Number.isInteger(n) || n <= 0
abbrev pub is_positive_integer : Number → Bool
is_positive_integer (whole n) = ltb 0 n
is_positive_integer _ = false

abbrev pub is_in_range : Number → Bool
is_in_range (whole n) = leb min_gateway_ticket_raw_bytes n && leb n max_gateway_ticket_raw_bytes
is_in_range _ = false

unfoldable pub assert_gateway_ticket_policy : GatewayTicketPolicy → Result Error (Unit {0})
assert_gateway_ticket_policy policy =
    guard (is_positive_integer policy.ttl_milliseconds) invalid_policy
    >> guard (is_in_range policy.raw_ticket_bytes) invalid_policy

-- The number of milliseconds, once it is known to be a positive integer.
abbrev pub to_milliseconds : Number → ℕ
to_milliseconds (whole n) = n
to_milliseconds _ = 0

-- The last time that a Date has.
abbrev pub max_time : ℕ
max_time = 8640000000000000

-- The time of expiry; `toISOString` throws where the Date is invalid.
unfoldable pub create_gateway_ticket_timestamps : ℕ → GatewayTicketPolicy → Result Error (ℕ × ℕ)
unfolding assert_gateway_ticket_policy
create_gateway_ticket_timestamps issued_at policy =
    let expires_at = issued_at + to_milliseconds policy.ttl_milliseconds in
    assert_gateway_ticket_policy policy
    >> (guard (leb issued_at max_time) invalid_time
        >> (guard (leb expires_at max_time) invalid_time >> ok (issued_at, expires_at)))

unfoldable pub assert_non_blank_string : String → Result Error (Unit {0})
assert_non_blank_string value = guard (not (is_empty (trim value))) blank_string

-- `parse_url` answers the protocol of the URL, `none` where `new URL` throws.
abbrev pub check_protocol : Option String → Result Error (Unit {0})
check_protocol none = err invalid_url
check_protocol (some protocol) =
    guard (str_eq protocol "ws:" || str_eq protocol "wss:") invalid_protocol

module _ (parse_url : String → Option String) where
  unfoldable pub assert_gateway_url : String → Result Error (Unit {0})
  unfolding assert_non_blank_string
  assert_gateway_url gateway_url =
      assert_non_blank_string gateway_url >> check_protocol (parse_url gateway_url)

  unfoldable pub assert_gateway_assignment : GatewayAssignment → Result Error (Unit {0})
  unfolding assert_non_blank_string assert_gateway_url
  assert_gateway_assignment assignment =
      assert_non_blank_string assignment.gateway_id >> assert_gateway_url assignment.gateway_url

-- The insertion; the hash is the primary key.
abbrev pub has_hash : String → TicketDb → Bool
has_hash hash [] = false
has_hash hash (row ∷ rows) = str_eq row.ticket.ticket_hash hash || has_hash hash rows

unfoldable pub save_issued_gateway_ticket : IssuedGatewayTicket → Exec TicketDb Error (Unit {0})
save_issued_gateway_ticket ticket db =
    if has_hash ticket.ticket_hash db
    then (err duplicate_hash, db)
    else (ok tt, record { ticket = ticket; consumed_at = none } ∷ db)

-- The conditions of the update.
abbrev pub is_unconsumed : Option ℕ → Bool
is_unconsumed none = true
is_unconsumed (some at) = false

unfoldable pub is_consumable : ConsumptionInput → TicketRow → Bool
is_consumable input row =
    str_eq row.ticket.ticket_hash input.ticket_hash
    && (str_eq row.ticket.assigned_gateway_id input.gateway_id
        && (is_unconsumed row.consumed_at && ltb input.now row.ticket.expires_at))

abbrev pub consume_row : ConsumptionInput → TicketRow → TicketRow
consume_row input row = record row { consumed_at = some input.consumed_at }

-- The rows after the update.
unfoldable pub update_rows : ConsumptionInput → TicketDb → TicketDb
unfolding is_consumable
update_rows input [] = []
update_rows input (row ∷ rows) =
    (if is_consumable input row then consume_row input row else row) ∷ update_rows input rows

-- The first row that the update returns, as it is afterwards.
unfoldable pub first_updated : ConsumptionInput → TicketDb → Option TicketRow
unfolding is_consumable
first_updated input [] = none
first_updated input (row ∷ rows) =
    if is_consumable input row then some (consume_row input row) else first_updated input rows

-- The answer for the returned row. The driver gives `consumed_at` as a Date.
unfoldable pub parse_consumed_row : ConsumptionInput → Option TicketRow → Result Error Consumption
parse_consumed_row input none = ok rejected
parse_consumed_row input (some row) =
    if is_empty row.ticket.actor_id
    then err invalid_row
    else ok (consumed row.ticket.actor_id input.consumed_at)

unfoldable pub consume_issued_gateway_ticket : ConsumptionInput → Exec TicketDb Error Consumption
unfolding update_rows first_updated parse_consumed_row
consume_issued_gateway_ticket input db =
    (parse_consumed_row input (first_updated input db), update_rows input db)

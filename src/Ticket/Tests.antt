-- ===== src/Ticket/Tests.antt =====
-- A ticket for Ann, valid for one minute, at the gateway "eu".
use wake_surfer.Common.{ℕ, ◌≡◌, ◌≢◌, refl, String, [], ◌∷◌, Option, none, some, Result, ok, trim}
use wake_surfer.Values.{whole}
use wake_surfer.Ticket.{
  Error, GatewayAssignment, GatewayTicketPolicy, TicketDb, IssueResponse, consumed,
  assert_non_blank_string, assert_gateway_ticket_policy, create_gateway_ticket_timestamps,
  assert_gateway_url, assert_gateway_assignment, save_issued_gateway_ticket, is_consumable,
  update_rows, first_updated, parse_consumed_row, consume_issued_gateway_ticket,
}
use wake_surfer.Ticket.Usecases.{issue_gateway_ticket, consume_gateway_ticket}
use wake_surfer.Ticket.Once.{issue, consume, run, consume_gateway_ticket-is_once}
use wake_surfer.Ticket.Roundtrip.{issue_gateway_ticket-consume}

tickets : Unit {0}
unfolding trim assert_non_blank_string assert_gateway_ticket_policy create_gateway_ticket_timestamps
    assert_gateway_url assert_gateway_assignment save_issued_gateway_ticket is_consumable
    update_rows first_updated parse_consumed_row consume_issued_gateway_ticket issue_gateway_ticket
    consume_gateway_ticket run
tickets = tt

abbrev parse_url : String → Option String
parse_url url = some "wss:"

abbrev eu : GatewayAssignment
eu = record { gateway_id = "eu"; gateway_url = "wss://eu" }

abbrev to_eu : String → Result Error GatewayAssignment
to_eu actor_id = ok eu

abbrev policy : GatewayTicketPolicy
policy = record { ttl_milliseconds = whole 60000; raw_ticket_bytes = whole 32 }

abbrev same_hash : String → String
same_hash ticket = ticket

abbrev generate : ℕ → String
generate bytes = "gt_1"

abbrev response : IssueResponse
response = record { ticket = "gt_1"; gateway_url = "wss://eu"; expires_at = 61000 }

abbrev issued : TicketDb
issued =
    record {
      ticket = record {
        ticket_hash = "gt_1";
        actor_id = "ann";
        assigned_gateway_id = "eu";
        issued_at = 1000;
        expires_at = 61000;
      };
      consumed_at = none;
    }
    ∷ []

issue_gateway_ticket-consume_example :
    (consume_gateway_ticket parse_url same_hash to_eu policy "gt_1" "eu" 5000 issued).0
    ≡ ok (consumed "ann" 5000)
unfolding tickets
issue_gateway_ticket-consume_example =
    issue_gateway_ticket-consume parse_url same_hash to_eu policy generate "ann" 1000 eu response []
      issued "eu" 5000 refl refl refl refl

consume_gateway_ticket-is_once_example :
    (consume_gateway_ticket parse_url same_hash to_eu policy "gt_1" "eu" 6000 (
      run parse_url same_hash to_eu policy (issue generate "ann" 5500 ∷ []) (
        run parse_url same_hash to_eu policy
          (consume "gt_1" "eu" 5000 ∷ [])
          (run parse_url same_hash to_eu policy (issue generate "ann" 1000 ∷ []) [])))).0
    ≢ ok (consumed "ann" 6000)
unfolding tickets
consume_gateway_ticket-is_once_example =
    consume_gateway_ticket-is_once parse_url same_hash to_eu policy (issue generate "ann" 1000 ∷ [])
      (issue generate "ann" 5500 ∷ []) "gt_1" "eu" "eu" 5000 6000 "ann" "ann" 5000 6000 refl

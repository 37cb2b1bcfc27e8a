-- ===== src/Ticket/Usecases.antt =====
-- packages/realtime-chat-gateway-ticket: the two use cases, and the module that offers them.
use wake_surfer.Common.{ℕ, String, if◌then◌else◌, Option, Result, ok, err, is_empty, trim}
use wake_surfer.Common.Exec.{Exec, pure, ◌>>=◌, ◌>>◌}
use wake_surfer.Ticket.{
  Error, GatewayAssignment, GatewayTicketPolicy, TicketDb, Consumption, rejected, IssueResponse,
  assert_gateway_ticket_policy, create_gateway_ticket_timestamps, assert_non_blank_string,
  assert_gateway_assignment, to_milliseconds, save_issued_gateway_ticket,
  consume_issued_gateway_ticket,
}

-- A check that does not touch the table.
abbrev pub lift : {A : Type 0} → Result Error A → Exec TicketDb Error A
lift r db = (r, db)

-- createGatewayTicketPolicy
pub create_gateway_ticket_policy : GatewayTicketPolicy → Result Error GatewayTicketPolicy
unfolding assert_gateway_ticket_policy
create_gateway_ticket_policy config = elim (assert_gateway_ticket_policy config) [
  | ok u ↦ ok config
  | err e ↦ err e
]

module _ (parse_url : String → Option String) (hash : String → String)
    (assign_gateway : String → Result Error GatewayAssignment) (policy : GatewayTicketPolicy) where
  -- The ticket is saved under its hash and handed out.
  abbrev pub hand_out :
      (ticket actor_id : String) → ℕ × ℕ → GatewayAssignment → Exec TicketDb Error IssueResponse
  hand_out ticket actor_id (issued_at, expires_at) assignment = do
    save_issued_gateway_ticket (record {
      ticket_hash = hash ticket;
      actor_id = actor_id;
      assigned_gateway_id = assignment.gateway_id;
      issued_at = issued_at;
      expires_at = expires_at;
    })
    pure (record { ticket = ticket; gateway_url = assignment.gateway_url; expires_at = expires_at })

  -- `generate` is what the source of random tickets answers in this call.
  unfoldable pub issue_gateway_ticket :
      (generate : ℕ → String) (actor_id : String) (now : ℕ) → Exec TicketDb Error IssueResponse
  unfolding save_issued_gateway_ticket
  issue_gateway_ticket generate actor_id now = do
    u ← lift (assert_non_blank_string actor_id)
    timestamps ← lift (create_gateway_ticket_timestamps now policy)
    assignment ← lift (assign_gateway actor_id)
    v ← lift (assert_gateway_assignment parse_url assignment)
    hand_out (generate (to_milliseconds policy.raw_ticket_bytes)) actor_id timestamps assignment

  abbrev pub consume_present :
      (ticket gateway_id : String) (now : ℕ) → Exec TicketDb Error Consumption
  consume_present ticket gateway_id now =
      if is_empty (trim ticket)
      then pure rejected
      else consume_issued_gateway_ticket (record {
        ticket_hash = hash ticket;
        gateway_id = gateway_id;
        now = now;
        consumed_at = now;
      })

  unfoldable pub consume_gateway_ticket :
      (ticket gateway_id : String) (now : ℕ) → Exec TicketDb Error Consumption
  consume_gateway_ticket ticket gateway_id now = do
    u ← lift (assert_non_blank_string gateway_id)
    consume_present ticket gateway_id now

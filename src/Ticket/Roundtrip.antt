-- ===== src/Ticket/Roundtrip.antt =====
-- packages/realtime-chat-gateway-ticket: an issue that a consumption follows.
use wake_surfer.Common.{
  ℕ, ◌+◌, ◌≡◌, refl, String, false, ◌&&◌, ◌∷◌, Option, none, some, arith, ltb, str_eq, eq_refl,
  if◌then◌else◌, Result, ok, is_empty, trim, is_empty-trim,
}
use wake_surfer.Ticket.{
  Error, GatewayAssignment, GatewayTicketPolicy, TicketRow, TicketDb, ConsumptionInput, consumed,
  rejected, IssueResponse, has_hash, is_consumable, first_updated, parse_consumed_row,
  save_issued_gateway_ticket, consume_issued_gateway_ticket, assert_non_blank_string,
  create_gateway_ticket_timestamps, to_milliseconds,
}
use wake_surfer.Ticket.Usecases.{issue_gateway_ticket, consume_gateway_ticket}
use wake_surfer.Ticket.Once.{absent-closed, closed-first_updated}

module _ (parse_url : String → Option String) (hash : String → String)
    (assign_gateway : String → Result Error GatewayAssignment) (policy : GatewayTicketPolicy) where
  -- What is known when a ticket was issued.
  pub record Issued (actor_id : String) (now : ℕ) (assignment : GatewayAssignment)
      (response : IssueResponse) (db issued : TicketDb) : Type 0 where
    pub actor : is_empty (trim actor_id) ≡ false
    pub expiry : response.expires_at ≡ now + to_milliseconds policy.ttl_milliseconds
    pub url : response.gateway_url ≡ assignment.gateway_url
    pub fresh : has_hash (hash response.ticket) db ≡ false
    pub saved :
        issued
        ≡ record {
          ticket = record {
            ticket_hash = hash response.ticket;
            actor_id = actor_id;
            assigned_gateway_id = assignment.gateway_id;
            issued_at = now;
            expires_at = response.expires_at;
          };
          consumed_at = none;
        }
          ∷ db

  issue-Issued :
      (generate : ℕ → String) (actor_id : String) (now : ℕ) (assignment : GatewayAssignment)
      (response : IssueResponse) (db issued : TicketDb)
      → assign_gateway actor_id ≡ ok assignment
      → issue_gateway_ticket parse_url hash assign_gateway policy generate actor_id now db
        ≡ (ok response, issued)
      → Issued actor_id now assignment response db issued
  unfolding issue_gateway_ticket save_issued_gateway_ticket assert_non_blank_string
      create_gateway_ticket_timestamps
  issue-Issued generate actor_id now assignment response db issued assigned h = record {
    actor = ground arith;
    expiry = ground arith;
    url = ground arith;
    fresh = ground arith;
    saved = ground arith;
  }

  -- The first row is the only one with its hash.
  first_updated_lem :
      (input : ConsumptionInput) (row : TicketRow) (db : TicketDb)
      → row.ticket.ticket_hash ≡ input.ticket_hash
      → has_hash input.ticket_hash db ≡ false
      → first_updated input (row ∷ db) ≡ (
          if is_consumable input row
          then some (record row { consumed_at = some input.consumed_at })
          else none)
  unfolding first_updated
  first_updated_lem input row db same fresh =
      let none_else =
        closed-first_updated input db (absent-closed input input.ticket_hash db fresh) in
      ground arith

  -- `issueGatewayTicket` returned a ticket that is not blank, for an actor that the assigner gives a
  -- gateway: the gateway that consumes it next, under an ID that is not blank, is told that it is
  -- consumed, and the ID of the actor, if it is the assigned gateway and the time is before the
  -- expiry, which is the time of the issue and the lifetime of the policy; else it is refused.
  pub issue_gateway_ticket-consume :
      (generate : ℕ → String) (actor_id : String) (now : ℕ) (assignment : GatewayAssignment)
      (response : IssueResponse) (db issued : TicketDb) (gateway_id : String) (later : ℕ)
      → assign_gateway actor_id ≡ ok assignment
      → issue_gateway_ticket parse_url hash assign_gateway policy generate actor_id now db
        ≡ (ok response, issued)
      → is_empty (trim response.ticket) ≡ false
      → is_empty (trim gateway_id) ≡ false
      → (consume_gateway_ticket parse_url hash assign_gateway policy response.ticket gateway_id
          later issued).0
        ≡ ok (
            if str_eq assignment.gateway_id gateway_id
              && ltb later (now + to_milliseconds policy.ttl_milliseconds)
            then consumed actor_id later
            else rejected)
  unfolding consume_gateway_ticket consume_issued_gateway_ticket assert_non_blank_string
      parse_consumed_row is_consumable
  issue_gateway_ticket-consume generate actor_id now assignment response db issued gateway_id later
        assigned h ticket_there gateway_there =
      let i = issue-Issued generate actor_id now assignment response db issued assigned h in
      let actor_there = is_empty-trim actor_id i.actor in
      let first =
        first_updated_lem
          (record {
            ticket_hash = hash response.ticket;
            gateway_id = gateway_id;
            now = later;
            consumed_at = later;
          })
          (record {
            ticket = record {
              ticket_hash = hash response.ticket;
              actor_id = actor_id;
              assigned_gateway_id = assignment.gateway_id;
              issued_at = now;
              expires_at = response.expires_at;
            };
            consumed_at = none;
          })
          db refl i.fresh in
      rw (gateway_there, ticket_there, i.saved, first)
        (ground (arith, eq_refl (hash response.ticket), i.expiry))

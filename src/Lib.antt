-- ===== src/Lib.antt =====
-- wake-surfer: the message streams of the real-time chat, from the database to the client.
--
-- A message stream belongs to a channel, a direct conversation or a thread. The server reads it from
-- its database, one window of sequence numbers after the other; a page is cut until its envelope
-- fits the transport; the client keeps what it has received in a timeline model, which notifications
-- also feed, in any order. Actors send messages, each once under its idempotency key, and edit and
-- delete their own. A client reaches its gateway with a ticket that works once.
--
-- Common       lists, texts, maps, results and throwing methods that the parts share
-- Values       the dynamic values of JavaScript that reach the program (`unknown`, Date, numbers)
-- Contract     packages/realtime-chat-message-contracts, and the responses of
--              packages/realtime-chat-stream-messages-contracts
-- Streams      packages/realtime-chat-stream-messages: Rows parses the rows, Window tests sequence
--              numbers, Reads holds the database reads, Usecases the three queries (loadLatestMessages,
--              loadOlderMessages, syncAfterMessages); Pages, Outcomes and Contents say what a page
--              is, Access what a permitted read is, Queries proves both
-- Timeline     packages/realtime-chat-stream-messages-client/src/timeline-model.ts: the file itself
--              holds the state and the small methods, Insert the private ones, Apply the public
--              ones; Consistent states the invariant, Shown and Kept keep it in the single steps, Steady
--              and Applied carry what the steps keep through every method; Drain, Runs, Live and
--              Deleted hold the theorems
-- Session      the same package: the file itself holds cursor-storage.ts, Recovery the state of
--              session-model.ts and recovery-model.ts, Bootstrap #runBootstrap and
--              #recoverAfterCursor; Saved is about the stored cursor, Waits about the
--              waits of a recovery, Stored, Ready and Ended hold the theorems
-- Fit          apps/realtime-chat-api/src/features/stream-messages/page-policy.ts
-- Ticket       packages/realtime-chat-gateway-ticket: Usecases has issueGatewayTicket and
--              consumeGatewayTicket over the table of tickets
-- Store        the tables of streams, messages and receipts with their keys and checks, which are in
--              packages/realtime-chat-database/migrations; Consistent is about sequence numbers
-- Send         packages/realtime-chat-message-send: Content is the stored content, Append the
--              transaction (appendTextMessage), Execute the use case (executeSendMessage); Stored,
--              Appended, Outcomes and Results follow a call to its answer, Succeeds and Admitted
--              one that nothing stands against; Idempotent and Accepted hold the theorems
-- Mutation     packages/realtime-chat-message-mutation: Edit and Delete have editOwnMessage,
--              executeEditMessage, deleteOwnMessage and executeDeleteMessage; Outcomes,
--              Tombstones, Edits and Deletes follow a call to its answer
-- History      runs of calls of Send and Mutation on one database: Changes is the abstract step,
--              Sequences, Rows, Receipts and Retry hold what runs keep, Lookup reads the receipts;
--              Readable reads the rows of a run with Streams, as the listing package does
--
-- A function of the source keeps its name in snake case. What can throw returns a `Result`; a method
-- that changes an object is an `Exec`, which gives the object back beside the error too. The Map and
-- the Set of JavaScript are association lists. `throw` keeps the error's class and reason, and drops
-- the metadata for logs. Numbers are natural numbers: of the sequence numbers the source tests that
-- they are safe integers.
--
-- Parameters stand for what is not in the repository: the database of Streams (a function for each of
-- its select statements), the authorizer, `Date.parse`, `toISOString`, the measure of an
-- envelope, `new URL`, the hash, the assigner and the source of random tickets; in Send and Mutation
-- `JSON.stringify`, SHA-256, the resolver of targets, the authorizers, message IDs and the clock of
-- the database; in Session `JSON.stringify`, `JSON.parse` and what a wait for the transport brings.
--
-- The loop of #recoverAfterCursor takes a list of rounds, one for each wait: where the list ends, the
-- session still waits. Two loops run on fuel. `drain_loop` has one round more than there are
-- buffered messages, and each round takes one out. `fit_loop` has one round more than there are
-- messages on the page, and each round takes one away. The fuel does not run out.
--
-- Not modelled: subscriptions and freezing in the timeline model; of the calls of others in a wait of
-- the session, those that set its phase or clear its storage; the HTTP and WebSocket servers, the
-- schemas of the contracts, the web client's views, the database runner and the media gateway, which
-- are I/O or declarations for a library; the client's realtime session and transports, the gateway's
-- relay and rate limits, and authentication.
pub mod Common
pub mod Values
pub mod Contract
pub mod Streams
pub mod Timeline
pub mod Fit
pub mod Ticket
pub mod Store
pub mod Send
pub mod Mutation
pub mod History
pub mod Session

-- ===== src/Lib.antt =====
-- Aizim's state service: an event store with projections, and the queue through which contributions
-- are published.
--
-- The program and its parts. `src/aizim/state/service.py` answers the requests of agents and
-- operators. It stamps a command with an identifier and a time and hands the event to the store
-- (`src/aizim/state/store.py`), a SQLite database of events, projections, capability tokens,
-- artifacts and publication rows. Each transaction inserts the event, asks the reducer
-- (`src/aizim/state/reducers.py`, `src/aizim/state/projections_orchestration.py`) for the changed
-- projections and writes them, so that the projections can be rebuilt from the log. The publication
-- queue (`src/aizim/state/store_publication.py` and its neighbours) takes a contribution from
-- submission through claim, verification, materialization and preparation to publication, and each of
-- its transactions appends events too. Documents (`src/aizim/state/store_documents.py`,
-- `src/aizim/state/document_service.py`) are read by versions and edited under leases and grants of
-- paths; their calls append events that the reducer gets like any other. The operator's requests
-- (`src/aizim/state/control_operations.py`) and the service's own operations
-- (`src/aizim/state/promotion_state.py`) are compositions of these. Workers call tools through the
-- gateway (`src/aizim/gateway/service.py`), which reads the stored tokens and appends an event for
-- each denial; the calls and their answers travel in frames
-- (`src/aizim/gateway/transport_frames.py`).
--
-- The files:
--   Prelude            names of the libraries, Boolean tests on numbers and texts, the conditional
--   Outcome            the exceptions as values
--   Tx                 code that reads and writes the database and may raise, and `BEGIN`/`ROLLBACK`;
--                      Tx/Rules what a success says of the parts, Tx/Atomic what a refusal leaves
--   Json               JSON values and dictionaries (`src/aizim/domain/serialization.py`)
--   Events             event types, envelopes and stamps (`src/aizim/state/events.py`, `_event`)
--   Projections        `ProjectionRecord`, `PROJECTION_NAMES`
--   Orchestration      the status machine of controllers and executions; Orchestration/Statuses
--   Reducers           `apply_event` and its helpers; Reducers/Versions, Reducers/Names
--   Database           the tables of `src/aizim/state/sql/001_foundation.sql`
--   Tokens, Artifacts  capability tokens and artifacts (`src/aizim/state/store_mutations.py`)
--   Store              `_append`, `persist_capability`, `replay_verify` of the store; Store/Replay,
--                      Lookups, Leases and Minted
--   Queue              the rows of the queue and the statements on them (`src/aizim/state/publications.py`);
--                      Queue/Laws, Queue/Order, Queue/Steps with the step relation and its invariant
--   Publication        `enqueue`, `claim_next`, `advance`, `heartbeat`; Publication/Endings `prepare`,
--                      `publish_promotion`, `fail_promotion`, `recover_expired_promotion`, `rebase`;
--                      Publication/Keeps, Steps and Logs what they do to the queue and to the log;
--                      Publication/Queries, Requirements
--   Documents          records, leases and grants (`src/aizim/state/documents.py`, `store_documents.py`,
--                      `document_service.py` and `document_operations.py` beside it): Documents/Records,
--                      Grants, Active, Accesses, Operations, Edits, Endings, Snapshots, Appends and Calls
--                      the code, Methods, Written, Readings, Cycle, Updates, Exclusive and Leases the laws
--   Schema             the checks of a payload (`src/aizim/state/schema_v1.py`, its neighbours and
--                      `payload_validation.py`); Schema/Envelopes and Upcasts the envelope's fields
--                      (`src/aizim/state/events.py`), Schema/Codecs and Orchestration the codecs of the
--                      event types, Schema/Broker, Accepted what is accepted
--   Service            the operations of the service; Service/Atomic, Service/Requests
--   Control            `configure_controller`, `register_worker`, `assign_task`; Control/Roster
--   Ulid               `MonotoneUlidFactory`
--   Frames             the frames of calls and results (`src/aizim/gateway/transport_frames.py`);
--                      Frames/Calls, Streams
--   Gateway            the decision on a worker's call of a tool (`src/aizim/gateway/service.py`,
--                      `src/aizim/gateway/capabilities.py`); Gateway/Tools, Authority, Budgets, Runs,
--                      Minting with `CapabilityIssuer.mint`, Names and Grants
--
-- How state and operations correspond. The database is a record with one list for each table, in the
-- order of insertion or, for projections, of their keys, and the two counters of the AUTOINCREMENT
-- keys. A transaction is a function from a database to an outcome and a database; what was written
-- before an exception comes back with it, and `transaction` gives the database before back. A request
-- is served on the database that the requests before it left, as the service's single connection
-- does. The reducer is an argument of the store and of the queue, as in the code. Columns of JSON
-- text hold the value that the text encodes.
--
-- Bounds. Numbers are unbounded in Python and here. Times are UTC in microseconds, from the epoch on;
-- a timeout that is longer than the time since the epoch stops at 0. The order of the texts of two
-- times is written out (`text_before`). An identifier has 80 random bits and 26 characters of 5 bits.
-- No definition runs on fuel: the loops run over lists, over the fields of an object, or over the 26
-- characters.
--
-- Not modelled. The events of the service do not pass through the checks of Schema again: they are
-- envelopes by their type. Identifiers and the clock are arguments. Regular expressions, hashes, the
-- formats of times and paths, the text of JSON, the text of a token's expiry, the test of a research
-- record and the approval by a human are parameters. Remote calls, process locks, files, the opening
-- of the database, the session broker and its sockets, the controllers and the workers, the Lean
-- toolchain, the research engine, the contributions of knowledge, the formal trace and the command
-- line are left out.
pub mod Prelude
pub mod Outcome
pub mod Json
pub mod Events
pub mod Projections
pub mod Orchestration
pub mod Reducers
pub mod Tx
pub mod Database
pub mod Tokens
pub mod Artifacts
pub mod Store
pub mod Queue
pub mod Publication
pub mod Documents
pub mod Schema
pub mod Service
pub mod Control
pub mod Ulid
pub mod Frames
pub mod Gateway

-- ===== src/Lib.antt =====
-- A model of a2a-superhub, a hub through which agents register, hand tasks to one another and share
-- notes, with the properties that make its parts correct.
--
-- The parts. The hub keeps its tasks, their event logs, the agents and an outbox of ended tasks in
-- one SQLite file (`HubStore`, src/a2a_superhub/store.py), by the states and transitions of
-- src/a2a_superhub/models.py. Requests are let in by `BearerAuth` and counted by
-- `FixedWindowLimiter` (src/a2a_superhub/auth.py), which give the `Principal` that the memory
-- plane (src/a2a_superhub/memory.py) and the artifact store (src/a2a_superhub/artifacts.py) ask
-- for scopes. The memory plane decides who may read a note, generates its deliveries, and has the
-- offline inbox, from which a consumer fetches pages of deliveries with a signed cursor and
-- acknowledges them. The artifact store keeps bytes under their digest, uploaded at once or in
-- chunks; a note can be derived from artifacts.
--
-- The files.
--   Prelude    lists, tests and exceptions. A method that changes an object is `Exec E S A`, from
--              a state to a result and a state; `transaction` is `with self.connect()`, which
--              commits or rolls back.
--   Text, Dict counts and tests of characters; dictionaries as association lists.
--   Json       JSON values, `get`, truth, `or`, `str`, `strip`.
--   Models     models.py: `TaskState`, `ensure_state`, `ensure_transition`.
--   Store      store.py. `Tables` has the tables of `HubStore.init` as lists of rows in rowid order
--              and what a call takes from its surroundings (`Env`: the time, fresh identifiers,
--              failpoints); `Tasks` has create_task, append_event and the readers; `Agents`
--              register_agent, list_agents and health; `Outbox` the two outbox methods. `Runs`
--              takes any sequence of calls as a list.
--   Auth       auth.py. `Bearer` has `Principal` and `BearerAuth.check`, `Registry` the validation of
--              the registry in `BearerAuth.__init__`, `Limiter` the limiter.
--   Memory     memory.py. `Notes` has `_can_read`, `_authorize_create` and `read_note`; `Ops` the
--              tables of ops.sqlite for deliveries and cursors; `Delivery.Generate`
--              `_generate_deliveries_for_note` and its callers; `Delivery.Backfill`
--              `_backfill_logical_deliveries`; `Delivery.Routes` who is sent a note; `Inbox.Cursor`
--              `_encode_cursor` and `_decode_cursor`; `Inbox.Fetch` `fetch_inbox` and
--              `_issue_cursor`; `Inbox.Acknowledge` `acknowledge_inbox`; `Timeline` `timeline` and
--              `_superseded_ids`; `Graph` `graph` and `_graph_edges_for_note`; `Watcher`
--              `MemoryWatcher`, with the calls of `notify` that come during a flush.
--   Artifacts  artifacts.py. `Tables` has the files of the store; `Checks` the checks of arguments;
--              `Content` put_stream, put_bytes, put_base64, get_manifest and get_bytes; `Uploads` the
--              upload sessions; `Sharing` can_read, require_read, set_visibility and list_manifests.
--              `Runs` takes any sequence of calls as a list.
--   Parts      parts.py: `normalize_a2a_parts`, with which the server reads the parts of a message,
--              and `public_part`, with which it writes them for a task.
--   Retrieval  retrieval.py: `deterministic_chunks`, which cuts notes for the search index.
-- Functions have the names of the source, less a leading underscore. In each part the modules that
-- are not named here hold lemmas and theorems, and `Tests` runs and examples.
--
-- Choices. A text column that holds JSON holds the value. A unique column or a primary key is a test
-- before the insert that raises `integrity_error`, or skips the insert where the statement says OR
-- IGNORE or DO NOTHING. Numbers are natural, or `ℤ` where a request gives a size or an index; the
-- sequences of rows never go below zero, and a limit of a page or a timeline below zero counts as
-- zero does. Two recursions are on fuel: in `decimal` a number has at most
-- as many digits as one more than its value, and the loop of `deterministic_chunks` takes at most one
-- turn more than the text has characters. Every other loop is over a list. A call is one step: SQLite
-- serialises the transactions of other connections, and the locks of the process only order the
-- calls. The databases are taken as initialised, so the calls of `init` do nothing.
--
-- Taken as parameters: in `Delivery`, SHA-256, `LIKE` on a trace, the reading of a note and how
-- many numbers AUTOINCREMENT leaves out; in `Inbox`, HMAC, SHA-256, base64 and JSON (`Codec`), and
-- the reading of a note; in `Watcher`, the normalisation of a path and the synchronisation of the
-- files; in `Notes`, `Timeline` and `Graph`, the reading of a note's file and the artifact store's
-- answer whether a source can be read; the order of two operation ids in the outbox; in
-- `Artifacts`, SHA-256, base64 and `casefold`; in `Retrieval`, SHA-256; Python's `repr`, and what
-- SQLite keeps of a float in a text column; in `Parts`, base64 and `urlparse`.
--
-- Not modelled: the other migrations of older databases; the creation, validation, indexing and
-- search of notes, statistics, and wake-up in memory.py; the rest of retrieval.py; derivation.py
-- and operations.py, which are separate components; server.py, mcp_server.py, client.py,
-- adapter.py, cli.py and skill_package.py, which carry requests, files and printing around the
-- components; the temporary files and directories of artifacts.py.
pub mod Prelude
pub mod Text
pub mod Dict
pub mod Json
pub mod Models
pub mod Store
pub mod Auth
pub mod Memory
pub mod Parts
pub mod Artifacts
pub mod Retrieval

-- ===== src/Lib.antt =====
-- RotoWeave: an AI-assisted matting workflow.
--
-- The repository holds a client (RotoWeaveClient: a local web application that keeps a workspace
-- of materials, actions and exports), a server (RotoWeaveServer: one GPU worker behind a persistent
-- job queue) and the contracts they share (RotoWeaveContracts). A client submits an archive of
-- frames; the server's queue gives it an order, hands the jobs one at a time to the worker, records
-- progress and the end of each job as numbered events, and serves those events, the logs and the
-- administration of the queue over HTTP.
--
-- Base is what the files share: Booleans and tests (Base.Tests), tables as lists of rows
-- (Base.Rows), signed numbers (Base.Signed), text by code points (Base.Text), what a search in a text
-- finds (Base.Text.Within), and ORDER BY as a stable insertion sort (Base.Order).
--
-- RotoWeaveServer/server/repository.py is modelled in Server:
--   * Server.Logging: `_redact`, over JSON values.
--   * Server.Queue.Schema: the tables `jobs`, `events`, `logs`, `operational_logs` and
--     `queue_control` of SCHEMA, a record each; a database `Db` is the five tables.
--   * Server.Queue.Statements: `transaction` as a state monad whose errors roll the database back,
--     the SQL statements, `_append_event` and `_append_log`.
--   * Server.Queue.Enqueue: `enqueue`, `log` and `retry`. Server.Queue.Dispatch: `recover`,
--     `set_queue_control` and `claim_next`. Server.Queue.Finish: `progress`, `complete`, `fail` and
--     `cancel`. Server.Queue.Admin: `events_after`, `list_jobs`, `reorder`, `expired`, `delete`,
--     `stats` and `cleanup_logs`.
--   * Server.Queue.Calls: one constructor per method that writes, and a history of such calls as a
--     list, each with the time it reads. One connection writes at a time (BEGIN IMMEDIATE), so a
--     history is a sequence of whole calls.
-- The other files under Server.Queue hold the theorems, named for what they show.
--
-- RotoWeaveServer/server/startup.py is modelled in Server.Startup: the tracker of start-up stages as a
-- list of stage records, changed by `update` and read by `snapshot`.
--
-- RotoWeaveServer/server/service.py is modelled in Server.Service: `RemoteService._execute`, which runs
-- a claimed job and gives its outcome to the queue; what the processor and the calls around it return or
-- raise, the active configuration and the stop flag are arguments. Server.Service.Submit is `submit`,
-- and Server.Service.Cleanup is `cleanup_expired`. Server.Service.Switch is
-- `_activate_configuration`, `_begin_model_self_test` and `_end_model_self_test`, which set the mode
-- of the queue around a wait: a wait is a list of rounds,
-- each with the calls that other threads make while it sleeps, and one that outlasts its list is told
-- apart.
--
-- RotoWeaveClient/backend/app is modelled in Client:
--   * Client.Runtime: the `jobs` table and the methods of `RuntimeRepository`
--     (runtime_repository.py).
--   * Client.Runtime.Runs: what `JobManager._run` (jobs.py) writes around the processing of a job,
--     and each call that writes the table as data. The worker thread and the routes of the
--     application interleave whole calls, each in a transaction; a history is a list of them.
--   * Client.Atlas: how domain_character_exporter.py packs sprites into pages. Client.Atlas.Rects has the
--     free rectangles of a page, Client.Atlas.Packing `_pack_maxrects_in_bounds`, and Client.Atlas.Compact
--     `_pack_shelves`, `_candidate_bounds` and `_pack_compact`. Python's square root is an argument, and
--     an aspect is a fraction that is compared by cross products. The other files hold the theorems.
--   * Client.Workspace: the domain document of a workspace (workspace_repository.py,
--     workspace_format.py): characters, their actions, material sources and the variants made of them,
--     in Client.Workspace.Schema; the move of references to a newer variant in
--     Client.Workspace.Migration; every operation that `_mutate_domain` saves in
--     Client.Workspace.Mutations, Client.Workspace.Mutations.Deletions and
--     Client.Workspace.Mutations.Settings; how a change is saved under a new revision in
--     Client.Workspace.Commit; the list of size profiles in Client.Workspace.Profiles. The checks that a
--     method makes before it calls `_mutate_domain` stand at the start of its change. A patch of a
--     character's settings gives `delivery.defaultActionId` as a text or null and `delivery.actionSettings`
--     as an object; the rest of it is any JSON whose numbers are whole. Of the document's validator, the
--     check that action settings are of listed actions is modelled. Its other checks, the digest of its
--     content, `str.strip`, the normalisation of a name and what the files
--     on disk hold are arguments.
--
-- RotoWeaveContracts/contracts/remote_protocol.py is modelled in Contracts.Protocol: the frames of a
-- submission and `validate_frames`. RotoWeaveContracts/contracts/hardware.py is modelled in
-- Contracts.Hardware: the devices that the vendor's tool lists, the one that is selected, and
-- `memory_mode_plan`; the tool's output is an argument, and so is the parsing of a number.
--
-- Bounds. Nothing runs on fuel: the loops go over tables and lists. A wait for other threads goes over a
-- list of rounds, and its end where the list runs out is a result of its own. Progress is a whole number of
-- millionths, since the source's floats are only compared and clamped; times are whole numbers of
-- one clock, where the source orders ISO 8601 strings. Numbers are unbounded, as in Python.
--
-- Not modelled: the code that reads and writes files, sockets, images and GPU memory; the HTTP
-- routes; the windows and dialogs; the model center and its tables; SQLite itself, whose
-- statements are read as operations on lists of rows in the order of insertion.
pub mod Base
pub mod Server
pub mod Client
pub mod Contracts

-- ===== src/Lib.antt =====
-- Holon: a model of the core of the platform, and what holds of it.
--
-- Holon is a data platform of six Python services (identity, connectivity, knowledge, automation,
-- intelligence, experience) over a shared library, libs/holon_common. The model has the parts that
-- decide: who may do something, what an Action writes and how it is undone, how events leave a
-- service, how failures upstream are contained, and what a caller may spend.
--
-- Files and sources:
--   Resilience   libs/holon_common/observability.py: Breaker is CircuitBreaker, with `gate` for the
--                check before a call and `on_success`, `on_ignored`, `on_failure` for its endings;
--                Retry is retry_with_backoff.
--   SpicedbId    libs/holon_common/spicedb_id.py.
--   Authz        libs/holon_common/authz.py: Cache is the OrderedDict of denials, Client is
--                PermissionClient with `authorize`, `authorize_uncached`, `check_rebac`, `check_abac`.
--                It calls both breakers of Resilience and the ids of SpicedbId.
--   Denylist     libs/holon_common/auth.py and principal_status.py: the denylists, the captured events
--                and `hydrate_revocation_snapshot`. Its events invalidate the cache of Authz.
--   Urn          libs/holon_common/urn.py.
--   Outbox       libs/holon_common/outbox.py: `relay_once` is one round of relay_forever.
--   Actions      services/knowledge/app/actions and action_structural.py. Json and Criteria are
--                declarative_criteria.py; Db and State are the tables, records and transactions;
--                Edits and Undo are declarative_edits.py; Structural is action_structural.py with
--                upsert_link of link_overlays.py; Apply and Approval are __init__.py and approval.py;
--                Frame says which tables the rules leave alone, Decisions what a decision does.
--   Agent        services/intelligence/app/agent_runtime.py: Sessions and RunTurn are the code; Replay is
--                about the messages, Metered, Ended and Lifecycle about the budget. Limits are integers,
--                since a request may ask for a negative one; `room` is what they leave for a count.
--   ConnectorSafety
--                libs/holon_common/connector_safety.py: EnvRefs, Refs, Topics and Hosts are the guards,
--                with Prefixes, EnvIsolation, Isolation and Pinned on what they let pass.
--   Spend        services/intelligence/app/spend_limits.py.
--   Paging       services/knowledge/app/paging.py.
--   SqlIdent     libs/holon_common/sql_ident.py.
--   Cursor       services/connectivity/app/cursor_window.py: CursorTracker and advance_cursor. Four
--                functions of that file are an interface, `Source`: _cursor_key, _cmp, _store_cursor
--                and row_identity. The theorem supposes that a stored cursor keeps its key and that
--                the keys are ordered, as for a column of integers, timestamps or texts; not so for
--                floats, Decimals or a column of mixed types.
--   FileCursor   services/connectivity/app/file_cursor.py: select_files, on decoded cursors, with times
--                of modification from 1970 on.
--   Resource     libs/holon_common/resource.py: most_restrictive.
--   Markings     services/knowledge/app/ontology/markings.py: category_groups_satisfied.
--   Ontology     services/knowledge/app/ontology: Drafts, Validations, Cascade and Publishing are
--                publishing.py, with the reads of object_types.py and the cascade of relation_types.py;
--                Branching is branching.py, Lifecycle is lifecycle.py. Steps takes the operations
--                apart into what runs between two waits; Checked, Refines and Chain are about any
--                order of these, Accepted says by itself what the validations ask of a definition,
--                Approvals and Merges are about a review, Metadata and Proposed about a proposal.
--   Prelude      names, lists, texts, keyed tables, and `Exec`, a computation on a state that may raise
--                and keeps what it wrote.
--
-- How the model reads the code. A coroutine runs to its end before the next one starts, except where a
-- list of events that arrive in between is an argument (`hydrate_revocation_snapshot`) and in
-- Ontology.Steps, where requests run in any order; a transaction
-- is `transaction`, which gives back the state before it when its body raises. A clock is a natural
-- number that the caller reads. Times to live and waits are in seconds, the delays of the retry in
-- milliseconds and its jitter in thousandths. A dict is an association list in order of insertion, a
-- table a list of its rows. An exception is a constructor, with the constant part of its text where
-- several are raised in one place. A JSON value is null, a text, an object or another scalar by its
-- text; the conversion between a JSONB column and its value is left out, but for the transcript of an
-- agent.
--
-- Parameters: SpiceDB, OPA and the monotonic clock (`Upstream`); the function that a breaker guards
-- and the one that is retried, and which of its exceptions are an `Exception`; the event bus, its
-- registry and its dead letter queue (`Bus`); how Python compares two JSON values (`Python`); the
-- language model, the tools and their registry (`Agent.RunTurn.Outside`), json.dumps and what a
-- JSONB column gives back (`Agent.Json`); DNS and the reading of addresses (`Network`); the
-- validators of the other registries, Identity's answer about a project and the reading of ISO
-- dates (`Ontology.Drafts.Outside`); `str` of a value that is no text and `uuid4` (`Runtime`); the
-- output of an Action's edit function. The theorems hold whatever these do, except that
-- Outbox.Delivery supposes a bus that accepts every event, Agent.Replay that a stored result is
-- dumped to the text of the result itself, and Cursor an order of the keys.
--
-- Bounds and fuel. Every function is by structural recursion. The loop of an agent's turn has one round
-- more than the budget has iterations, and Agent.Lifecycle says that this is enough. The pages of
-- Paging.Walk are followed with fuel, one more than there are rows, and the theorem says that this is
-- enough. The decimal numbers of Urn use the number itself as fuel, which is enough since a tenth of
-- it is smaller.
--
-- Not modelled: HTTP, SQL and Kafka themselves, metrics, logs and notifications, the validation of an
-- Action Type when it is registered, the reads of instances through Iceberg, and the services and files
-- that are not named above.
pub mod Prelude
pub mod Resilience
pub mod SpicedbId
pub mod Authz
pub mod Denylist
pub mod Urn
pub mod Actions
pub mod Outbox
pub mod Spend
pub mod Paging
pub mod SqlIdent
pub mod Cursor
pub mod FileCursor
pub mod Resource
pub mod Markings
pub mod Ontology
pub mod Agent
pub mod ConnectorSafety

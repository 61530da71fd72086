-- ===== src/Lib.antt =====
-- Verification of capd, the daemon that drives coding agent CLIs through one JSON-RPC protocol.
--
-- The program. A client asks the daemon for a session of an agent (internal/server), with a token that
-- names what it may do (internal/security); the daemon picks an agent (agent_router.go) and an adapter
-- starts the agent's CLI (internal/adapter): one process for each turn, whose lines a translator of the
-- agent's dialect turns into events, or the app-server of Codex, with which it talks JSON-RPC. The session
-- manager (internal/session/manager.go) runs one loop per session, which numbers the events, keeps the
-- newest of them for replay, stores them in SQLite (internal/session/store.go) and offers them to the
-- channels of the subscribed clients; sessions are created, resolved, revived from the store, closed and
-- listed through it. Which account of a provider a session runs with is kept by the account store
-- (internal/account/store.go), chosen by the routing (internal/account/routing.go) from the quota snapshots
-- that usage reports are read into (internal/account/quota.go). Findings of the daemon's checks become
-- repair steps (internal/repairplan), which a runner executes (internal/repairrunner).
--
-- The files.
--   Prelude        the shared names; its children hold Boolean tests, lists measured by native numbers, Go's
--                  (T, error) pairs and ORDER BY, maps as association lists, package strings and integers.
--   Protocol       pkg/protocol: events, JSON values, error codes, agents and their capabilities.
--   Session.Store, Session.Rows
--                  internal/session/store.go: a table is the list of its rows, one function per statement.
--   Session.Channel, Session.Pump, Session.Subscribe
--                  internal/session/manager.go: a channel is its queue, its bound and whether it is open;
--                  offer, stamp, trim, persist, report, pump_event, pump_loop and pump_end are the steps of
--                  Session.pump; subscribe is Session.Subscribe with its pages.
--   Session.Manager, Session.Queries
--                  internal/session/manager.go: Create, Resolve with its revivals, Close, Fork, List, History,
--                  Stats, on the registry as a record.
--   Session.Revival, Session.Exclusive
--                  Resolve cut where it takes the registry's lock, and its interleavings as sequences of
--                  these parts; Manager.resolve is one call with no other between them.
--   Session.Log, Numbering, Delivery, Persistence, Recovery, Lifecycle, Closing, Closed, End, Follow
--                  the lemmas and theorems on these, named for what they are about.
--   Account.Store, Account.Profiles, Account.Delete
--                  internal/account/store.go: the tables, the single statements, the profiles, and both
--                  transactions. delete_account is DeleteAccount, and so on for each method.
--   Account.Rows, Answers, Calls, References, Memberships, Deleting, Writes
--                  what a check or a statement that did not fail leaves, and the invariant of the tables.
--   Account.Routing, Account.Choice, Account.Evidence, Account.Candidates
--                  internal/account/routing.go: RoutePolicy, the score, the selection, and the evidence for
--                  it with its texts; secret.ParseRef of internal/account/secret/store.go.
--   Account.Quota, Account.Percents, Account.Redaction
--                  internal/account/quota.go: QuotaFromUsage and the redaction of the raw report.
--   Adapter.Turn, Adapter.Schedule
--                  internal/adapter/turn.go: Send, runTurn, Cancel and Close, cut where their goroutines
--                  synchronise, and the runs as sequences of these parts. Adapter.Exclusion, OneTurn, Panics
--                  and Quiet are about every such run.
--   Agents.Claude, Gemini, Opencode, Cursor, CodexExec, Cli
--                  the adapters of internal/adapter: build_spec is buildSpec and translate is translate.
--   Agents.Turns, Fits, Conformance, Unrecorded
--                  a whole turn over any translator, what every dialect keeps to, and OpenCode's session id.
--   Agents.Discovery
--                  internal/adapter/registry.go, probe.go, pending.go and internal/discovery.
--   Codex.Rpc, Calls, AppSession, Engine
--                  internal/adapter/codex/rpc.go and appserver.go: the calls in flight, the session with its
--                  approvals and notifications, the profile that owns the process. Codex.Answered, Approvals,
--                  Results and Deaths are the theorems.
--   Security.Token, Security.Headers, Security.Minting
--                  internal/security: scoped tokens and header checks.
--   Server.Scopes, Auth, Policy, Access, Vouched, Refusals
--                  internal/server/router.go, auth.go and policy.go: what a scope allows, whose token is
--                  accepted, and which requests are refused.
--   Server.Capabilities, Candidate, Routing, RouteAccount, RouteAgent, Routed, Metrics
--                  internal/server/agent_router.go: agents/route from its request to its answer, with the
--                  counters of metrics.go. Server.Suitable describes a choice apart from the code, and
--                  Server.Suits shows that the code's is one.
--   Server.Runtime, Creating, Create, Binding, Created
--                  internal/server/router.go: session/create from its checks to its answer, on the registry, the
--                  account store and the counters; runtimeEnvForAccount of accounts.go.
--   Repair.Plan, Runner, Counts, Safety, Output
--                  internal/repairplan and internal/repairrunner.
--   Examples, StartExamples, RouteExamples, CreateExamples,
--   RevivalExamples
--                  concrete runs.
--
-- How state and failure are written. A method that changes an object takes the object and returns the new
-- one beside its answer. What SQLite, chmod and the clock answer to one call is an argument (Io,
-- PersistIo, Reads, a function from call numbers for a transaction), so a theorem over them is one over
-- every pattern of failures. What runs under one hold of a mutex is atomic, and an interleaving is the
-- order in which such parts are applied. What a command of a repair run prints is taken to be valid
-- UTF-8. encoding/json is the record Codec or UsageText or a decoder for each dialect, float64 the record
-- Floats, cryptography the record Crypto, os/exec the record Machine, a process the lines it prints: what
-- is relied on of them is a named hypothesis of the theorem that needs it.
--
-- Bounds and fuel. The replay buffer holds 4096 events and a channel adds 256 places to its replay;
-- sequence numbers wrap at 2 ^ 64, and theorems that number events say that they stay below. Subscribe
-- reads pages of 5000 rows on fuel, one more than the next sequence number, and each page that is full
-- moves the wanted number on, so that it ends by an underfull page. Every other loop runs over a list. A
-- repair run takes 20 steps, a command 4096 bytes, a report 8192 bytes of output; a task carries sixteen
-- attachments. Times are seconds and not negative; a duration is a number of nanoseconds and its product
-- wraps.
--
-- Not modelled. Opening and migrating a database (no state of its own), the texts of most errors, starting
-- and reading a process, the WebSocket transport and the consoles, the account handlers and the review of
-- several agents in internal/server (accounts.go, review_multi.go), keychains and the imports of other
-- programs' files (internal/account/secret, codexauth, codexquota), the audit file, the daemon's socket
-- and configuration, and the command line (cmd/capd): input and output, or parts that only call the ones
-- above.
pub mod Prelude
pub mod Protocol
pub mod Session
pub mod Account
pub mod Adapter
pub mod Codex
pub mod Security
pub mod Server
pub mod Repair
pub mod Agents

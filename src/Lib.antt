-- ===== src/Lib.antt =====
-- Agent Security Platform: a model of the Go code that decides what an agent may do, and theorems
-- about it.
--
-- An agent's runtime sends an event. internal/domain/model.go says what an event is and when it is
-- valid; internal/policy/engine.go evaluates it against policies; internal/policypack/store.go keeps
-- the policies of each tenant in packs; internal/approval/store.go keeps the requests for approval
-- that some decisions lead to; internal/audit/store.go keeps a record of every evaluation; and
-- internal/runtime/service.go puts them together. internal/auth/apikey.go says which API keys may act
-- for which tenants, and internal/transport/httpapi/handler.go serves all of this to clients.
-- internal/storage/postgres/store.go keeps the stores in a database, internal/baseline/packs.go holds
-- the packs that cmd/server/main.go starts with, and sdk/go/agentsec is what an agent calls: a client,
-- and an enforcer that runs an action only if the platform allows it.
--
-- Files:
--   Prelude, Prelude/*: the shared library names, Boolean tests, lists, members of lists, and Go's
--     int as the integers (Prelude/Int).
--   Strings, Strings/Fold: package strings (TrimSpace, EqualFold, Contains, Split, Cut).
--   Decimal: the %d of a uint64. Strconv: strconv.Atoi.
--   Maps, Maps/*: map[string]V as an association list with distinct keys. Keys: the key of the
--     in-memory stores. Numbering: identifiers that a counter numbers.
--   Domain: the data of internal/domain/model.go. Domain/Decision: Decision.Priority. Domain/Event:
--     Validate, Normalize, HasField, Valid. Domain/Errors: the errors of all components;
--     Domain/Messages: their texts.
--   Policy/Matching: matches, matchesTenant and the functions below them. Policy/Engine: Evaluate
--     and shouldReplace. Policy/Packs: NewEngineFromPacks. Policy/Simulation: Simulate.
--   PolicyPack: MemoryStore of internal/policypack/store.go.
--   Approval: MemoryStore of internal/approval/store.go; Approval/Life and Approval/History: the
--     steps of a request and series of calls; Approval/Threads: Create from several goroutines.
--   Audit: MemoryStore and ListOptions of internal/audit/store.go; Audit/Sorting: the order of a
--     query; Audit/Pages: its pages; Audit/Threads: Append from several goroutines.
--   Runtime: Service of internal/runtime/service.go, over interfaces of its three stores.
--     Runtime/Labels: sameStringSet. Runtime/Memory: the service over the in-memory stores, which
--     Runtime/Denial, Runtime/Life and Runtime/Release are about; Runtime/Laws and Runtime/Gate hold
--     of any stores; Runtime/Preserved: what an evaluation keeps. Runtime/Services: the constructors.
--   Interfaces: the interfaces `Store` of the three stores.
--   Auth: the API keys of internal/auth/apikey.go; Auth/Keyring: what ParseAPIKeys yields.
--   Http: Handler of internal/transport/httpapi/handler.go. Http/Query: parseAuditListOptions.
--     Http/Events, Http/Packs, Http/Approvals: the handlers. Http/Router: router and withAuth.
--     Http/Access: who reaches the stores. Http/Memory: the router over the in-memory stores, which
--     Http/Evaluation and Http/Paging are about; Http/Reading, Http/Options: the options of a query.
--     Http/Confined, Http/Confined/*: what a key gets to see. Http/Effects, Http/Settled,
--     Http/Finality: what requests change. Http/Routers: the constructors.
--   Baseline: internal/baseline/packs.go; Baseline/Verdicts: its decisions.
--   Server, Server/Starting, Server/Stopping: cmd/server/main.go. Server/Seeding and
--     Server/OnDatabase: the server after its start, over the in-memory stores and over PostgreSQL.
--   Postgres: internal/storage/postgres/store.go. Postgres/Packs, Postgres/Audits, Postgres/Approvals:
--     its three stores. Postgres/Query: the placeholders of the audit query. Postgres/Opening:
--     Open and Migrate. Postgres/Reads, Postgres/Decides, Postgres/Tables, Postgres/Writes,
--     Postgres/Enabled, Postgres/Service: the stores, and the service over them, beside the in-memory
--     ones.
--   Sdk: sdk/go/agentsec. Sdk/Types: the data of client.go. Sdk/Messages: the texts of its errors.
--     Sdk/Client: client.go. Sdk/Enforcer: enforcer.go. Sdk/Guard: what Execute
--     does. Sdk/Link: the client connected to the router; Sdk/EndToEnd: the whole path of an action.
--   Tests: runs and instances.
--
-- How state and calls are modelled. A method of a store takes the store and returns the store and
-- its result, as one step: it holds a mutex; the atomic counter of identifiers, which Append and Create
-- take before the mutex, is never decreased, and Audit/Threads and Approval/Threads have the two calls in
-- their two steps. Where it asks ctx.Err() or the clock, the answer is an
-- argument. Errors are values of Domain/Errors. Strings are texts of code points: Go strings that
-- are valid UTF-8, which is what JSON decoding yields. Times are nanoseconds from Go's zero time.
-- The order in which a range loop visits a map is the parameter Maps.Iteration, any rearrangement.
-- unicode.SimpleFold is a table that Go generates; it is the parameter Strings.Folding for the code
-- points from 128, and no law of it is assumed. The counters wrap around at 2 ^ 64. The only fuel is
-- that of Decimal, twenty digits, which hold every uint64.
--
-- Packages that the code calls are parameters: the JSON documents that can be read (Http.Codec,
-- Postgres.Json), the statements of the database (Postgres.Database), its driver
-- (Postgres.Opening.Driver), and net/url, net/http and encoding/json for the client (Sdk.Platform).
-- What a theorem relies on of them is a named hypothesis: Postgres.Reads.IsFaithful, that a row is
-- written under its primary key and a pack survives its encoding; Postgres.Tables.IsTable, the same of
-- a table with its rows and listings; Sdk.Link.IsWired, that the codecs can write and read back the
-- event and the result of one evaluation, and that the server finds its path.
-- A request reaches its handler by the segments of its path. The state of the world, which an action
-- may change, is the state that the stores share.
--
-- Not modelled: the writing of JSON and of headers, what the driver of PostgreSQL and the migration do,
-- the listening socket, signals, time limits and logging of the server, contexts in the SDK, and the
-- web console.
pub mod Prelude
pub mod Strings
pub mod Domain
pub mod Policy
pub mod Maps
pub mod Keys
pub mod Numbering
pub mod PolicyPack
pub mod Decimal
pub mod Strconv
pub mod Approval
pub mod Tests
pub mod Audit
pub mod Interfaces
pub mod Runtime
pub mod Auth
pub mod Http
pub mod Sdk
pub mod Baseline
pub mod Server
pub mod Postgres

-- ===== src/Lib.antt =====
-- Verification of backend-pkg, the Go library that the services of the platform share.
--
-- The program is a set of packages that a service puts together. A request meets the middleware of
-- where it came from and of the rate limit, then that of auth (is the token revoked, which permissions
-- does the user hold), then a guard of middleware (may the actor pass this route), then a handler,
-- whose input the directive of validate has checked. The handler asks the policy gate (rmsgate)
-- whether a transition is allowed, builds its queries with tmsdb, whose hooks keep each row to its
-- company, and records what it did as an audit event (eventlog/events), which it emits in the
-- transaction of its work (tmsdb) and which the outbox carries to the broker. Beside these stand
-- clients of outside services and reporting windows (timewindow), with logic of their own. The modules
-- follow these parts:
--
--   Perms            middleware/perms.go: HasPermission, HasAnyPermission, HasAllPermissions,
--                    CompactHierarchy. Perms/Paths and Perms/Sorting hold the lemmas on prefixes and
--                    on sorting, Perms/Grants and Perms/Compact the theorems.
--   Auth/Actor       consts/auth_consts.go: the actor, its claims, and the context as a record of the
--                    three values that the routes read. A nil actor is kept apart from none.
--   Auth/Routes      middleware/auth_middleware.go: each guard gives a reply: the request goes on, is
--                    refused with a status, or the guard panics.
--   Auth/Revocation  auth/token_revocation.go and auth/middleware.go. The cache is the interface
--                    CutoffStore. Auth/Revocation/Pipeline puts the middleware in front of the guards.
--   Auth/PermCache   auth/perm_resolver.go, and ScopedKey of cache/cache.go.
--   Auth/Origin      middleware/client_origin.go: ResolveClientIP, ResolveUserAgent. The reading of an
--                    address, of a host with a port and the repair of cut text are parameters.
--   Auth/RateLimit   ratelimit/ratelimit.go over the interface Redis of the commands INCR and PEXPIRE,
--                    and middleware/ratelimit_middleware.go. Auth/RateLimit/Window follows the traffic
--                    of many keys, Auth/RateLimit/Guard the requests.
--   Events           eventlog/events: sensitivity.go, classify.go, participants.go, hierarchy.go, a
--                    module each; eventlog/outbox/relay.go with the deletion of repository.go (Outbox;
--                    what becomes of the events in Outbox/Delivery and Outbox/Outcome).
--   Gate             rmsgate: steps.go (Steps), processes.go (Registry), client.go (Client, its circuit
--                    in Client/Circuit) and contract.go (Register).
--   Query            tmsdb/filter.go: the inputs (Filters), the filters of a column (Builder; of
--                    numbers and times in Builder/Range), search and OR/AND/NOT (Logical and Logical/Apply), ORDER BY
--                    (Sort) and pages (Page); tmsdb/proto_convert.go (Proto); tmsdb/tenant_scope.go
--                    (Tenant, with its cache of types in Tenant/Cache and what a user sees in
--                    Tenant/Isolation); the hooks of tmsdb/model (Tenant/Hooks, with Company of
--                    tenant_scoped.go and Shared of tenant_shared.go); tmsdb/cross_service.go
--                    (CrossService, the order of a batch's calls in CrossService/Orders). The
--                    database library is the interface Gorm, which states what its calls do to the
--                    rows that pass, to the orders and to the page; what is unknown of a NULL is kept apart
--                    from false.
--   Factoring        client/factoring: a batch and its check (Invoices), rules.go (Rules), the manifest of
--                    csv.go and the upload of rtssftp.go over the interface Sftp of the server's folder
--                    (Submit; the PDFs in Submit/Folder, the manifest in Submit/Activate, the whole in
--                    Submit/Trigger).
--   Route            client/here/polyline.go (Polyline), its numbers (Polyline/Varint and
--                    Polyline/Signed), a reference encoder with the round trip (Polyline/RoundTrip) and
--                    the end of the loop (Polyline/Ends).
--   Validate         validate/errors.go (Errors; that its map and list agree in Errors/Fields, what it
--                    reports in Errors/Report) and validate/directive.go: the rules and the helpers
--                    (Rules), when each is violated (Violations), the directive (Directive) and what
--                    an operation answers then (Directive/Report). Go's packages are the interface
--                    GoLibrary.
--   Publish          tmsdb/event_builder.go and tmsdb/gorm_tm.go: the builder of an event and what it
--                    is stamped with (Publish, its class and its actor in Publish/Stamp), the
--                    comparison of two structs (Changes, Changes/Exact), the transaction around a
--                    handler and the insert under a savepoint (Transaction, Transaction/Atomic). The
--                    database is the interface Sql of Publish/Sql.
--   Toll             client/toll over the interface TollLibrary: normalize.go (Normalize, plates in
--                    Normalize/Idempotent; the keys of transactions in Hashes and Hashes/Distinct),
--                    sheet.go (Sheet, Sheet/Spacer), prepass.go (PrePass, with what becomes of each row
--                    in PrePass/Account and of blank columns in PrePass/Columns), toll.go and
--                    registry.go (Credential, Credential/Settings), the fetching of sftp.go (Folder).
--                    The readers of the file formats are the interface Readers.
--   Window           timewindow/timewindow.go: kinds, checks, bounds and labels, over the interface Zone;
--                    the calendar (Dates), windows of months (Months) and of weeks (Weeks).
--   Address          address/state.go: the codes of states and provinces; what is read back of a state that
--                    was written in Address/Known.
--   Saved            savedfilter/service.go over the interface FilterRepository of Saved/Repository, which
--                    states what the repository's calls do to the rows of each user; what a request
--                    does to them in Owners, runs of requests in Runs.
--   Common           texts, maps, signed numbers and lists over the native numbers.
--
-- The Examples module of each part holds runs at fixed inputs, with a concrete database library and a
-- concrete store of cutoffs.
--
-- A text is a list of bytes. A UUID is a number, 0 the nil one. A pointer is an Option, a slice a
-- list, a Go map an association list; where a map is walked the order is a parameter. Upper and lower
-- case and white space are those of ASCII. Times and durations are natural numbers of nanoseconds, so
-- a duration below 0 is left out, and so is a maximum of rows below 0. The client of the gate makes
-- one call at a time and the relay of the outbox one batch; the clock and what the gate, the database
-- and the broker answer come from outside. The loops with a bound are those of the source, by its
-- own bound (three attempts of a registration, the parts of a permission key), and two on rounds: the
-- polyline decoder, for which the length of the text is proved to be enough, and the months that a
-- window goes back, which need a round for each year at most and have one for each month. Years before
-- the year 1 are left out. An `int` is unbounded, an
-- `int32` in NewPagination and the int64 of the polyline decoder wrap around. An invoice amount is a
-- number of cents; a coordinate is the integer before its division by a power of ten.
--
-- Not modelled: the network, the databases and the brokers behind the clients, the verification of
-- tokens, generated code and constant tables; of the query builder the relations (Some, None) and the
-- calls that execute a statement; the event rules, which a database and an outside evaluator choose;
-- of factoring the provider of Triumph, the credentials and the dialling; of toll the dialling, the
-- listing of a folder, the test of a connection, the marshalling for GraphQL and the texts of errors;
-- the other packages under client, which call outside services and map their payloads.
mod Common
pub mod Perms
pub mod Events
pub mod Gate
pub mod Query
pub mod Publish
pub mod Auth
pub mod Factoring
pub mod Route
pub mod Toll
pub mod Window
pub mod Address
pub mod Saved
pub mod Validate

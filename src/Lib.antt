-- ===== src/Lib.antt =====
-- The API of Sparks Effect: an HTTP service over PostgreSQL that keeps transit scenarios,
-- compiles them in the background to graphs that a planner can search, and queues isochrone
-- requests for a routing worker. The module tree follows the program's packages.
--
-- Parts and files. A name of the source in camel case stands here in snake case.
-- - internal/transit/types.go, contract/transit/graph.go: Types, the records. Each has the fields
--   that the modelled code reads or writes.
-- - internal/transit/boarding_wait.go: BoardingWait, with Bounds (the wait in seconds) and
--   Resolution (which override is in force). The compiler charges the wait to each service.
-- - internal/transit/compile.go: Segments is buildSegmentAdj, segmentPathSeconds, pathRunSeconds
--   and reversePath, with Chain, Sound, Complete and Built for the search; Compile is Compile and
--   the rest, with Edges (one hop) and Services (a whole graph).
-- - internal/transit/staleness.go: Staleness, with Fresh and Routed (the routes of its edges).
-- - internal/transit/userservice.go: Windows, the checks on frequency windows, with Clock (HH:MM)
--   and Timetable (all windows of a service).
-- - internal/persistence/postgres/handover.go, internal/transit/handover.go: Handover, the rows
--   and the offer; Handover.Move, what moves with a service; Handover.Decide, the decisions and
--   the forced move; Offers, Success, Pending and Moved for what they leave.
-- - internal/compile/compile.go, internal/compile/runner.go and the job queries of
--   internal/persistence/postgres/postgres.go: JobRunner, with Written (one write),
--   Outcome, Drain and Sweep.
-- - internal/persistence/postgres/worker.go and the routing-job queries of postgres.go:
--   RoutingJobs, with Finished and Reuse.
-- - internal/transit/cluster.go, internal/transit/interchange.go: Clusters, the grouping of stops
--   and the check on declared interchanges, with Grouped and Pairs.
-- - internal/handler/routingjob.go, internal/handler/isochronebacklog.go: RoutingApi, with
--   Answered.
-- - internal/auth/authz.go, internal/handler/ownership.go, mayReadRoutingJob: Access, with Rules.
-- - internal/transit/snap.go: Snap is FirstChainageOrderFault, with Order.
-- - internal/account/account.go, the account calls of postgres.go, and
--   internal/persistence/postgres/accounttoken.go: Accounts, with Tokens (the links), Calls (any
--   call, one after another), Authenticated, Passwords, Redeemed and Spent.
-- - internal/auth/middleware.go, internal/auth/password.go, internal/auth/password_policy.go and
--   internal/handler/auth.go: Auth, with SignsIn and Passes; internal/handler/admin.go:
--   Auth.Admin, with KeepsAdmin; internal/handler/accounttoken.go: Auth.Links, with SetsPassword.
-- - internal/ratelimit/limiter.go, internal/ratelimit/middleware.go: RateLimit, with Bounded and
--   Unspent; internal/ratelimit/clientip.go: RateLimit.ClientIp, with Trusted.
-- - internal/route/slug.go: Slugs, with Accepted. internal/transit/compilable.go: StopSlugs, with
--   Distinct. internal/ids/uuid.go: Ids, with Shape.
-- - the isochrone cache of internal/persistence/postgres/worker.go: IsochroneCache, with Best.
-- - internal/persistence/postgres/publication.go, internal/handler/publication.go and
--   internal/transit/publication.go: Publications, the index, with Ordered,
--   Index and Walked;
--   Publications.Snapshots, a publish and the public reads, with Drawn (routes), Newest
--   (compiles), Published (the row) and Reads; Publications.Requests, with authorizeService of
--   internal/handler/service.go.
-- Prelude holds what they share; Examples holds runs on small inputs.
--
-- State and errors. A table is the list of its rows, an UPDATE a function on the list, a
-- transaction a function to a result whose error leaves the rows as they were. A Go map is a list
-- of its assignments, the latest first. An int is a ℤ; the sums of seconds wrap at 64 bits. A
-- string is the list of its bytes. A time is a number, and the clock is an argument.
--
-- Bounds and fuel. The path search runs on rounds, one for each slug on a segment path and one
-- more, and each round takes one slug off the queue; the way back along `prev` has one step for
-- each entry of `prev`. A copy of a route tries the 99 suffixes from 2 to 100, as the source
-- does.
--
-- The slugs of a service's stops are tried on a round for each slug that is taken, and one more.
-- A client of the index makes a request for each row, and one more.
--
-- Arguments of the model. `F` stands for float64 where no arithmetic is done on it. The sign of a
-- step between two chainages, the distance test of the clusters, the placing of a path on its
-- route, the range test of an origin, the compile of a job's target, the ids of NewUUID, the `%q`
-- of fmt and the rounding of PostgreSQL are arguments of the definitions that use them. So are
-- the hashes of bcrypt and SHA-256, the random bytes, the text functions of Go and the decoding
-- of a body (Auth), the token bucket of x/time/rate, of which a reservation that is cancelled
-- gives its token back (RateLimit), the parsing of an address by net (ClientIp), the lower case
-- of a name and the print of a number, and the order of text in the database. The step relation
-- of the runner gives each job an id of its own, and a goroutine leaves the set of compiles and
-- tells the wait group in two steps. Ids are in their canonical text form. A sign-in has no other
-- request between its two calls of the store. A Go map is read in the order of its list, and the
-- cancelling of a reservation finds its bucket by its key.
--
-- Not modelled: physics and the projection of stops, the folding of declared interchanges, the
-- compile of user scenarios, seeding, the other HTTP handlers and the wiring of the server, which
-- are float arithmetic, queries or input and output for the most part; the headers and the
-- caching of a publication's response; failures of the database inside a handover or a publish;
-- concurrent transactions, which the row locks of the source put in an order.
pub mod Prelude
pub mod Types
pub mod BoardingWait
pub mod Segments
pub mod Compile
pub mod Staleness
pub mod Windows
pub mod Handover
pub mod JobRunner
pub mod RoutingJobs
pub mod Clusters
pub mod RoutingApi
pub mod Access
pub mod Accounts
pub mod Auth
pub mod Snap
pub mod RateLimit
pub mod Slugs
pub mod Ids
pub mod StopSlugs
pub mod IsochroneCache
pub mod Publications
pub mod Examples

-- ===== src/Lib.antt =====
-- The control plane of YourStack: the API (apps/api), the worker that runs its queued jobs
-- (apps/worker) and what the two share (packages/shared). A user's request passes the access
-- check of Tenancy and changes tables; long work becomes a job for the worker, which sends signed
-- commands to the agent of a node; the agent's reports come back through the API and close what
-- was opened.
-- The tables are lists of rows, an id, a time and a day are natural numbers, and `next_id` stands
-- for the generator of ids. A handler is a function from the tables to the tables, with an error
-- or an absent result where the source throws. The signature of a command, which a library
-- computes, is a parameter. The spec that buildDeploySpec returns is an argument of the deploy
-- handler, and Secrets models how it is made. Loops run over lists, but for the `while` of the
-- event stream parser: its fuel is the length of the buffer, of which each round takes two
-- characters at least; and for the digits of a number, of which a column of 32 bits needs ten at
-- most.
-- Common: tests, lists as tables, errors of apps/api/src/lib/errors.ts, texts and integers.
-- Rbac: roles and permissions of packages/shared/src/rbac.ts and enums.ts (roleHasPermission is
-- `role_has_permission`, and so on).
-- Tenancy: Db holds the tables; Access is apps/api/src/lib/rbac.ts (resolveMembership,
-- resolveOrgRole, requirePermission); Members is the member handlers of
-- apps/api/src/routes/workspaces.ts; Teams those of organizations.ts. EffectiveRole, Granting,
-- OwnerCount, LastOwner, OrgOwner and TeamAccess hold the proofs.
-- Deploy: Trigger is apps/api/src/services/deployment.service.ts and
-- apps/worker/src/lib/deploy.ts; Process is apps/worker/src/processors/deploy.ts and
-- lib/command.ts; Outcome is apps/api/src/services/command-result.service.ts; Recovery is the
-- healthcheck and rollback processors. A step is one whole run of a handler: handlers that
-- interleave inside a transaction are not modelled. Rows, Invariant, Reachable, Behaviour,
-- Dispatch and Release hold the proofs.
-- Network: Firewall and Balancer are the firewall and load balancer processors of the worker,
-- Targets is dedupeTargets, and Requests is the handlers of apps/api/src/routes/firewalls.ts and
-- loadbalancers.ts that delete and apply. RuleOrder, TargetWeights and Cleanup hold the proofs.
-- Nodes: Health is the heartbeat of apps/api/src/routes/agent.ts, draining in nodes.ts and
-- nodeLiveness of apps/worker/src/processors/maintenance.ts; Placement is placement.service.ts;
-- Claim is claimCommands of agent.ts, which works on the commands of Deploy; Join is join tokens,
-- registration and authenticateNode of agent.ts and nodes.ts, with the check and the transaction
-- of a registration as two steps; Interleaving runs the two steps of several requests in any
-- order. Freshness, Delivery, Draining, Joining and Race hold the proofs.
-- Cron: Jobs is apps/worker/src/processors/cron.ts with applyCronRunResult of the API; the calls
-- of the queue are a log. Lifecycle holds the proofs.
-- Secrets: Env is apps/worker/src/lib/secrets.ts, Source and Spec are lib/spec.ts, and Encryption
-- is packages/security/src/encryption.ts, with the cipher as a parameter. Precedence, Defaults
-- and RoundTrip hold the proofs.
-- Signing: Canonical is packages/shared/src/canonical.ts with JSON.stringify, Signature is
-- packages/security/src/signing.ts with the digest as a parameter. KeyOrder and Reordering hold
-- the proofs.
-- Sse: Parser is apps/cli/src/lib/sse.ts, Wire is what apps/api/src/routes/events.ts writes.
-- Frames, Chunks, Chunking and RoundTrip hold the proofs.
-- Scaling: Runners is apps/worker/src/processors/runner.ts, which places runners by Nodes;
-- Replicas and Autoscale are autoscale.ts, with the arithmetic of doubles as an interface.
-- Reconcile and Bounds hold the proofs.
-- Resources: Databases is apps/worker/src/processors/database.ts and the handlers of
-- apps/api/src/routes/databases.ts that queue jobs, Reports is applyResourceResult of
-- command-result.service.ts, which also changes the tables of Network and Scaling. Lifecycle
-- holds the proofs.
-- Webhooks: Process is apps/worker/src/processors/webhook.ts, which creates deployments by
-- Deploy. Delivery holds the proofs.
-- Cli: KeyValue is parseKeyValue of apps/cli/src/lib/env.ts. Quoting holds the proofs.
-- Blueprint: Schema is packages/shared/src/schemas/blueprint.ts, Plan is
-- apps/api/src/services/blueprint.service.ts, Names is slugify of lib/util.ts, toMb and
-- resolveLbTargets; Store, Inserts, Create, Apply and Export are
-- apps/api/src/routes/blueprint.ts, where a run keeps what it has written when it throws. It
-- places by Nodes, and its apps and firewalls are those that Secrets and Network read. How an id
-- prints and how a number is rounded are parameters. Slugs, Contract, Loops, Planned, Balancing,
-- Sections, Additive, Convergence, Replan, Again, Exported, RoundTrip and Sources hold the
-- proofs.
-- Metrics: Samples is apps/api/src/services/metrics.service.ts with the routes that take samples
-- in and give them out. Upserts and Series hold the proofs.
-- Sessions: Tokens is apps/api/src/lib/auth.ts, plugins/auth.ts and routes/tokens.ts, with the
-- digest as a parameter. Validity holds the proofs.
-- Domains: Requests is apps/api/src/routes/domains.ts and Verify is
-- apps/worker/src/processors/domain.ts, with DNS as a parameter. Attempts holds the proofs; its
-- fuel of ten runs is the limit of attempts of the code, and it is proved to be enough.
-- Tests: the theorems at concrete tables.
-- Not modelled: the agent (Rust), the web pages and the commands of the command line tool, whose
-- code is interface; realtime messages and the texts of logs, which no handler reads back; the
-- checks of request bodies, done by a library; the parsing of YAML, done by a library; the
-- processors of buckets and functions, templates, data transfer objects and the route that takes
-- deliveries in.
pub mod Common
pub mod Rbac
pub mod Tenancy
pub mod Deploy
pub mod Network
pub mod Nodes
pub mod Cron
pub mod Secrets
pub mod Signing
pub mod Sse
pub mod Scaling
pub mod Resources
pub mod Webhooks
pub mod Cli
pub mod Blueprint
pub mod Metrics
pub mod Sessions
pub mod Domains
pub mod Tests

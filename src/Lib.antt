-- ===== src/Lib.antt =====
-- k8s-mtp: a platform that gives each tenant of a Kubernetes cluster a namespace with quotas, roles,
-- network isolation and limits. It has a controller that makes the cluster agree with the Tenant resources,
-- an admission webhook that checks and labels the tenants' pods, a REST API in front of a PostgreSQL
-- database, and a command line tool that calls the API. The API and the controller share the database; the API, the controller and the webhook agree
-- only on the names of namespaces.
--
-- The parts, their files and their code:
--
-- Common: conditionals, lists, texts (fmt.Sprintf as concatenation, strings.Split, SplitN, CutPrefix), maps
--   as association lists, and signed integers over the native numbers.
-- Resources: resource.Quantity, a parameter: parsing, comparison and the test for zero. A quantity that
--   MustParse cannot read makes it panic, which is a value of the model.
-- Tenants: pkg/api/v1/types.go, the Tenant resource with the fields that code reads or writes.
-- Cluster: the Kubernetes objects that internal/reconciler/tenant_reconciler.go builds, with the fields that it sets.
-- Reconciler: the control loop of internal/reconciler/tenant_reconciler.go, Reconcile and all that it calls.
--   Kube is the client of controller-runtime and the store that the loop uses, a parameter: a call is given
--   the world and answers with a value and the next world. Build and Limits are the objects that are
--   built, Diff is needsUpdate and its comparisons. A reconciliation ends with a result, an error or a
--   panic. IsKept, in Kube, is what the API server promises: what was accepted is what is read, up to what
--   it fills in, and a write touches one object. The other files are proofs, named for what they are about:
--   Tenants and Converge (the objects after a reconciliation), Returns (that it returns), Untouched (the
--   objects of others), Settled and Stable (no further update), Unnoticed (changes that the comparisons do
--   not see), Finalizers (the adding of the finalizer).
-- Admission: cmd/webhook/main.go. Admission itself is validateContainer, validateEphemeralContainer and
--   validatePodResource; Server is the two handlers from the decoded review to the reply, and
--   shouldValidateNamespace; Compliance says what a compliant container is.
-- Store: internal/store/tenant.go and member.go, each statement as a function of the tables of
--   internal/store/migrations/001_initial_schema.up.sql. PostgreSQL is a parameter: which texts are UUIDs,
--   and for the n-th statement the time, whether it is answered, refused, or carried out with its answer
--   lost, and whether its values are cut to their columns before a row is looked for. Columns is what a
--   column VARCHAR(n) makes of a text: one that is too long is an error, unless all that is
--   beyond n characters is spaces, which PostgreSQL cuts off. Invariant holds the constraints of the
--   schema, Kept that each call keeps them, Rows what is read after a write. Catalog is what can be read of the tables, and what each call does to it; Found, Acts
--   and Refined are proofs on the two.
-- Api: internal/handlers. Tenants and Members are the handlers, each a function from the decoded request
--   and the database to the response and the database; a body that cannot be decoded is none. Server is
--   NewMux of internal/server/server.go: the limiter around the authentication around the handler.
--   Calls (in Server) describes what any endpoint does to the database as calls of the store; Created,
--   Refused, Edited, Guards and Sound are proofs.
-- Limiter: internal/middleware/ratelimit.go, the token bucket, with exact numbers in place of float64: tokens
--   are counted in parts of which 60,000,000,000 make a token, so that a rate of r requests per minute
--   gains r parts in a nanosecond. Rounding is not modelled.
-- Auth: internal/middleware/auth.go. The parser of tokens, base64 and the request for the keys are a
--   parameter, and IsVerifying states what the documentation of jwt says of Parse.
-- Settings: internal/config/config.go. The record, Load with its sources (Load), validateCfg (Checks), and the
--   logger, with internal/server/logger.go (Logging). The environment, the files and strconv are a parameter. Usable and Checked are proofs on what is let
--   through, EnvFile and Sources on where the values come from.
-- Webhooks and Manager: internal/webhook/manager.go, by which the controller installs the webhook: the
--   objects that it creates, and EnsureAll with its steps, over a client and certificates that are parameters. IsServing, in
--   Serving, is what the API server promises; Steps, Ensured and Agreed are proofs.
-- Cli: cmd/cli. A command is a function from the process, that is the world outside, what was written to the
--   terminal and the requests that were sent, to the process and to a value or an exit; the system and the
--   libraries are a parameter. Client is client.go, Tenants tenant.go, Members member.go, Login login.go
--   and main.go. Ends and Fails are proofs on how commands end, Quiet, Loaded, Requests, Intended and Sent
--   on what they send.
-- Copies: the deep copies of pkg/api/v1/types.go, over a memory in which a slice is the address of its array.
--   Shared and Separate are proofs on which arrays a copy has for itself.
-- Tls: pkg/webhook/tls.go, over a parameter for the cryptographic libraries. Trusted is a proof on the two
--   certificates and on the service that Manager makes.
-- Startup: how the programs start. Startup itself has internal/store/store.go, internal/store/migrations.go and
--   the start that the two share, Controller is cmd/controller/main.go, Api cmd/api/main.go and Webhook main of cmd/webhook/main.go, each over
--   a parameter for its libraries; they call Settings, Manager, Auth and Limiter. Prepared, Installed
--   and Crashed are proofs.
-- Tests: concrete parameters and inputs, on which definitions are run and theorems applied.
--
-- Bounds: the exponent of a key is an int of 64 bits, and wraps around; other integers of the code stay far
-- from their bounds or are compared with zero only, and are unbounded here. Every loop is over a list, so
-- no definition needs fuel.
--
-- Not modelled: the listeners of the servers, the webhook's handler for health checks and SetupWithManager,
-- which call libraries; what is logged, metrics and JSON. Requests are served one after the other: the
-- limiter's mutex makes its step one and each statement of the database is one, but what other
-- requests and the controller do between two statements of one request is not modelled.
pub mod Common
pub mod Resources
pub mod Admission
pub mod Tenants
pub mod Settings
pub mod Cluster
pub mod Store
pub mod Limiter
pub mod Auth
pub mod Api
pub mod Reconciler
pub mod Webhooks
pub mod Cli
pub mod Copies
pub mod Startup
pub mod Tls
pub mod Manager
pub mod Tests

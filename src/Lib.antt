-- ===== src/Lib.antt =====
-- A verification library for the back end of goravel-mine: definitions translated from its Go code, and
-- theorems about them. Paths are from the repository's root.
--
-- Parts, and the files that model them:
-- - Base: lists over native numbers, maps as association lists (Base/Dict), equality tests of keys
--   (Base/Eq), the functions of Go's strings package on bytes (Base/Texts) and decimal numbers as fmt
--   prints them (Base/Decimal). A text is the list of its bytes, and the functions are those of ASCII.
-- - Protection: app/services/runtime/protection. Protection/Rule is rules.go; Protection/State,
--   Matching, Evaluate, Record and Replace are the methods of Engine in engine.go: Engine.Evaluate is
--   `evaluate`, with its three loops over the rules of the matched rule set as steps with an outcome,
--   recordDecision is `record_decision`, recordRuleSet is `record_rule_set`, ReplaceRules is
--   `replace_rules`. The engine is a record of its maps, and each method maps it to a new one: the code
--   holds one mutex in each.
-- - Sso: app/services/access/sso. Sso/Tokens is condition_tokenizer.go, Sso/Value and Sso/Parser are
--   condition.go: `tokenize`, `eval_condition`, and parse_or to parse_factor for parseOr to parseFactor.
--   Where the code keeps an index, the functions take what is left of the input. Sso/Grammar is an
--   independent grammar, which the parser is compared with. What comes from Go's libraries
--   (floating-point numbers, fmt.Sprint, regexp, encoding/json) is the record `Host`.
-- - Queue: app/services/runtime/queue. Queue/Retry is ShouldRetry of reliability.go; Queue/Outbox is
--   outbox_db.go: the table is the list of its rows, and a statement changes the rows of its WHERE.
--   Queue/Dispatch is DispatchDue of outbox.go on that store, Queue/Memory the store of
--   outbox_memory.go, and Queue/Idempotency is idempotency.go at the row of one key. The theorems run
--   over sequences of the statements of any workers in any order. The tokens that the code draws at
--   random are arguments.
-- - Lifecycle: app/modulecatalog. Lifecycle/Versions is lifecycle_version_policy.go, Lifecycle/Planner is
--   lifecycle_planner.go, Lifecycle/Replacement is app/modules/replacement.go, and Lifecycle/Store the
--   methods of MemoryLifecycleStore in lifecycle_memory_store.go. SHA-256 is an argument.
-- - Registry: app/modules. Registry/Sort is sortModulesByDependencies of dependencies.go: the recursive
--   closure visit is `visit`, with the maps visiting and visited and the list sorted as a state.
--   Registry/Disabled is propagateDisabledReasons of registry_kernel.go, round by round, and
--   Registry/Kernel is newRegistryKernel with the lists that it keeps, validateDependencies, and
--   MergeMigrationsAfter of registry_artifacts.go. Registry/Catalog is Catalog.validate of
--   catalog_validator.go with its checks; what os.Stat says of a file is an argument.
-- - Migration: app/services/runtime/migrationlock/service.go. Migration/Keys is migrationLockKeys,
--   Migration/Lock the rounds of acquireAll, Migration/Lock/Service the methods Acquire and Release. The
--   database session, the clock and the timer are the record `Host` over a state of the world; what is
--   relied on of them is in the records `Clock` and `Advisory`. The hash FNV-1a is an argument.
-- - Tenant: the governance of tenants in app/services/application/tenant.go. Tenant/Runs and
--   Tenant/Evidence are TenantGovernanceRunRepository: two tables as lists of rows, each method as a
--   statement on them, and the theorems over sequences of statements. Tenant/Policy and Tenant/Guards are
--   TenantGovernanceService and TenantGovernancePolicy: the policies in memory, their merge with the
--   default one, and patches. Tenant/Rate is app/services/tenancy/tenant/rate_limiter.go.
-- - Tasks: app/services/runtime/scheduledtask. Tasks/Delay and Tasks/Active are the delay of a retry and
--   registerScheduledTaskRun of policy.go, Tasks/Ids is compactUniqueUint64 of tenant_scope.go.
-- The tests and the concrete instances of the theorems are in the module Tests of each part.
--
-- Numbers: an identifier, a count or a time is a natural number. The products and sums of machine
-- integers that can wrap around are written out modulo 2 ^ 64. A time is a number of nanoseconds; the
-- zero time of the engine is 0.
--
-- Fuel: the array scanner and the tokenizer take the length of the input, and the parser three units
-- for each token and three more; Sso/Tokens/Fuel and Sso/Parser/Fuel show that this is enough. A
-- sort of modules has one unit more than there are modules, as every call in progress has an id of its
-- own (Registry/Sort/Cycle); the propagation of reasons one more than the modules, as each round that
-- changes something puts one off (Registry/Disabled/Fixpoint); and the rounds for a migration lock two
-- more than the nanoseconds of the timeout (Migration/Lock/Ends). All other loops are structural.
--
-- Not modelled: errors of the database, texts of error messages, the sorting of messages and metrics
-- for display, the columns of the outbox and the fields of a lifecycle run that its store only
-- carries, the durations among the metrics of the migration lock, tenant policies in the database and
-- their JSON, bytes above 127, the HTTP layer, the ORM, the other services, the console commands and
-- the front end.
pub mod Base
pub mod Protection
pub mod Sso
pub mod Queue
pub mod Lifecycle
pub mod Registry
pub mod Migration
pub mod Tenant
pub mod Tasks

-- ===== src/Lib.antt =====
-- maand: an agentless orchestrator. A catalog in SQLite is built from the files of a workspace
-- (build), and deploy brings the workers in line with it; job commands run on the operator's machine
-- beside a small HTTP server (jobcommand) that gives them semaphores and a key-value store (kv).
--
-- The parts and their files. A path is one of the repository, a file below is of this library.
--
-- Prelude: names of the libraries, Boolean tests on numbers, equality as an interface, and Go's
-- values: slices as lists, `map[K]struct{}` as lists without repetitions, maps as association lists
-- (a write replaces the entry of its key in place), int as signed numbers. A range over a Go map has
-- no fixed order: where the code ranges over one the model does so in the order of its list, and the
-- lists are arguments of the theorems, so these speak about each order. `error` results are values
-- of Result. Text: what is used of Go's strings package.
--
-- Semaphore: jobcommand/runtime_semaphore.go. acquire is two, up to its select and from there on; cancelWait, release,
-- status and normalizeAcquireTimeout are one function each on the state of the coordinator; a
-- channel is a number, and closing one records it. Semaphore/Session has the interleavings: a step is
-- one section under the coordinator's lock or one branch of the select, so a release may come between
-- the end of a context and the lock of its cancelWait. Semaphore/Invariant, Channels and Wakeup hold
-- the invariants of one operation, Session and Wakeup those of all interleavings.
--
-- Kv: kv/store.go and kv/entry.go, a map of maps of entries with versions and marks. Kv/Table has
-- kv/persist.go and the part of kv/session.go that saves a session: loading the latest rows of each
-- key, and writing the marked entries as new rows, where each statement may fail. Kv/Sync to
-- Kv/RoundTrip are about a store and the table, Kv/Client about the callers of the store.
-- Kv/Purge has kv/purge.go, where SQLite's comparison of dates is a parameter.
--
-- Ports: build/build_ports.go on bucket/port_range.go and workspace/ports.go: the allocator with its
-- pool, its fixed ports, and the release of removed ports. The search of assignProvisioned is on the
-- number of ports left in the range, so no bound is chosen. Ports/Build has syncJobPorts, with the
-- rows of job_ports, and the reading of the table of data/ports.go. Whether a statement succeeds is a
-- parameter.
--
-- Rollout: deploy/ordering.go, the order of a job's allocations; it reads the key rollout_order of a
-- store of Kv. Rollout/Steps: the loops of deploy/rollout.go over batches of that order. What they do
-- to workers is a list of events, each of which succeeds or fails by a parameter. The loop is on fuel,
-- one more than the workers of the order: each round moves the index by at least one.
--
-- Placement: build/build_allocations.go. Its query is a function of the tables job, job_selectors,
-- worker and worker_labels; the table allocations is a map by its primary key, and each UPDATE changes
-- the rows that its condition picks. Placement/Reenabled marks the allocations that are no longer
-- disabled in the table hash of Deploy, which is a map of its namespaces here, one for each job.
--
-- Gc: gc/allocations.go and gc/references.go on the table of Placement and the store of Kv.
--
-- Runtime: the HTTP layer of jobcommand, on the store of Kv and the coordinator of Semaphore. Runtime
-- has requests and answers, Runtime/Access which namespaces a job may read and write (with
-- data/bucket_meta.go), Runtime/Handlers jobcommand/runtime_handlers.go and Runtime/Slots
-- jobcommand/runtime_semaphore_handlers.go: one function for each handler, from the request and the
-- state to the answer and the state. A handler is a chain of guards, each of which may end it with an
-- error of api_errors.go. A body comes as what encoding/json makes of it, and a table as its rows, or
-- none where the query fails. Kv/Secrets has kv/encrypt.go and kv/secret.go, where a record Vault stands
-- for AES-GCM, base64, the random nonce and the key file; IsVault is what is relied on of them.
--
-- Sequence: build/build_deployment_sequence.go, the demands between jobs as they are loaded, and the
-- search for a circular dependency. visitJob is on fuel, one more than the jobs of the map: the path of
-- a visit has each job once.
--
-- Versions: workspace/version.go and workspace/demands.go, the parsing and the order of versions and the
-- bounds of a demand, and in Versions/Demands build/validate_demands.go, the check of all demands. Go's order of texts by bytes is the order by code points of Text.
--
-- Deploy: data/hash_allocation.go and the queries of data that JobNeedsRollout of deploy/rollout.go
-- asks, on the rows of the tables hash and allocations, with the two loops of deploy/hashes.go.
--
-- Glob: utils/pathmatch/glob.go, on path.Base and path.Match of Go in Text/Paths. Policy:
-- workspace/restart_policy.go, the difference of two manifests of data/file_manifest.go, and the choice
-- between sync, restart and reload of deploy/rollout_policy.go.
--
-- Update: handleUpdatedAllocations of deploy/allocations.go on the rows of Deploy, the decision of Policy
-- and the batches of Rollout, and beside it handleUpdatedAllocationsWithPolicy of
-- deploy/allocations_lifecycle.go.
--
-- Utils: utils/sets.go, utils/batch.go and deploy/filters.go.
--
-- Not modelled: the SQL queries of data and of the build beyond the tables above, SSH, rsync, files,
-- templates, certificates, Prometheus and dashboards, the command line, and the running of job
-- commands. These are input and output around the parts above, or are left for later.
mod Prelude
pub mod Text
pub mod Semaphore
pub mod Kv
pub mod Runtime
pub mod Ports
pub mod Rollout
pub mod Sequence
pub mod Versions
pub mod Deploy
pub mod Utils
pub mod Placement
pub mod Gc
pub mod Glob
pub mod Policy
pub mod Update

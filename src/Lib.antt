-- ===== src/Lib.antt =====
-- The verified parts of the runtime service: the addressing plane of its microVMs, the choice of hosts
-- and the host inventory of the fleet, the life of its replicas, the network of its node sandboxes, and the life of an execution.
--
-- The program boots microVMs on a fleet of hosts. A host registers itself (Fleet/Registry) with what it
-- measured (Fleet/Capacity) and with its failure domain (Fleet/FailureDomain); the scheduler
-- (Fleet/Scheduler) picks a live host for a replica, and standard-ha asks first whether the live hosts
-- can separate two members at all (Fleet/Availability). To boot, a host takes a lease on an address
-- block for the microVM's owner (Net/Allocator) from the lease table that all hosts share (Net/Table);
-- the coordinates of the lease are a function of the host's ordinal and the slot (Net/Lease). When it starts, a
-- host brings its leases in line with the rows and processes that it finds, and before each boot it checks
-- that they are (Net/Plane). On each
-- tick a host compares the replicas of every app with those desired: it places what is missing
-- (Fleet/Reconcile, Fleet/Placement) and boots what is placed on itself (Fleet/Orchestrator, Fleet/Boot);
-- a replica ends by Fleet/Teardown, and a request to a parked app wakes it (Fleet/Activator). The data volume
-- of a resource is restored in place from a recovery point (Fleet/Restore). A node that
-- runs in a container has a bridge of its own (Sandbox/SubnetPool), and reaches the internet through a
-- sidecar that checks each request (Sandbox/Policy, Sandbox/Address). Execution/Limits and
-- Execution/TestRun are the records of a run of code and of a run of tests.
--
-- Files and code:
--   Errors                 internal/domain/errors.go, fleet_errors.go, fleet_resource_errors.go,
--                          image_workload_errors.go
--   Net/Lease              internal/domain/fleet_net_lease.go, InFleetSubnet of fleet_network.go
--   Net/Table              internal/repository/postgres/fleet_net_lease_repo.go, and the constraints of
--                          migrations/0020_fleet_net_leases.up.sql
--   Net/Allocator          internal/usecase/fleet_net_allocator.go
--   Net/Plane              internal/usecase/fleet_net_lease_reconcile.go, internal/domain/image_workload.go
--   Fleet/Host, Replica    internal/domain/fleet_host.go, fleet_replica.go, fleet_app.go,
--                          fleet_placement.go
--   Fleet/FailureDomain    internal/domain/fleet_failure_domain.go
--   Fleet/Capacity         internal/domain/fleet_host_capacity.go
--   Fleet/Availability     internal/domain/fleet_availability.go
--   Fleet/Scheduler        internal/usecase/fleet_scheduler.go
--   Fleet/Registry         internal/usecase/fleet_host_registry.go
--   Fleet/World            internal/repository/postgres/fleet_app_repository.go,
--                          fleet_replica_repository.go, fleet_volume_repository.go; the inputs of the
--                          driver in internal/usecase/fleet_provision.go
--   Fleet/Volume           internal/domain/fleet_volume.go
--   Fleet/VolumeManager    internal/usecase/fleet_volume_manager.go
--   Fleet/Boot, Teardown   internal/usecase/fleet_replica_runtime.go
--   Fleet/Placement, Reconcile, Orchestrator
--                          internal/usecase/fleet_orchestrator.go
--   Fleet/HostLabel        hostForApp of internal/usecase/fleet_orchestrator.go
--   Fleet/Idle             SweepIdle of internal/usecase/fleet_orchestrator.go
--   Fleet/Activator        internal/usecase/fleet_activator.go
--   Fleet/Restore          internal/usecase/fleet_volume_restore.go, FleetResourcePhase and the recovery point of
--                          internal/domain/fleet_resource.go
--   Sandbox/SubnetPool     internal/usecase/subnet_pool.go
--   Sandbox/Address        cmd/node-sidecar/netguard.go
--   Sandbox/Policy         cmd/node-sidecar/policy.go
--   Execution/Limits       internal/domain/execution.go, types.go
--   Execution/TestRun      internal/domain/test_run.go
-- A file under the folder of one of these holds its proofs, and the Tests files hold concrete runs.
--
-- How the code is read. A UUID is a number, 0 for uuid.Nil. An int is an integer of Base/Ints, with the
-- wrap to 64 bits written where a sum may leave them. An instant is an integer of nanoseconds, and
-- time.Now and uuid.New are arguments. An enumeration over strings has one more constructor, for any
-- other string. An error that wraps a sentinel with %w is the sentinel. The counters, the log lines and
-- the JSON and GORM tags are left out.
--
-- The allocator runs in a world of its own state and others': before each call of the database, other
-- processes change the table (a list of inserts and deletes for each call), and the call may fail. The
-- database runs one call at a time, and a call that fails changes nothing. Its retry loop is a recursion
-- on the 32 attempts of the code, and the slot search one on the 1023 slots.
--
-- What the registry, the scheduler and the sidecar read from a repository, a resolver, the matcher of
-- declared patterns or the conversion to punycode is an argument. netip.ParseAddr and strings.ToLower are
-- arguments of the sidecar's policy: only their answers are used.
--
-- The reconcile of the leases (Net/Plane) reads stores that nothing of its own changes, so every answer is
-- by the count of calls; a statement about a host at rest has them constant. The texts of a row's address
-- and device are read by two functions, as Net/Lease writes them.
--
-- The fleet's use cases run in a world of the tables that all hosts share, a count of the calls made so
-- far, and a log of what this process did or tried to do (Fleet/World). Before each call of the database
-- other processes change the tables at will, and the call may fail; the driver, the secret resolver, the
-- probes, the scheduler's reads and the ledger of claims answer by the count of calls. The statements
-- are on the log, so that they do not depend on what the others do. The loops go over lists that were
-- read, and the polls of Activate over the rounds that the deadline leaves.
--
-- A restore (Fleet/Restore) runs in a state of four files, the phase and the last error of the resource's row,
-- a count of the calls made so far, and a log of its steps. Every call of the file system, the tables, the scaler, the health probe and the engine answers
-- by the count of calls, and may fail at any of them; one that fails on a file changes nothing. Contents are
-- numbers, and the backing file, the parked original, the staging file and the failed restore are different
-- paths. Action is the code that changes a state and may fail, shared by what runs in such a state, and
-- Action/Triple what holds after it.
--
-- Not modelled: the provisioning of apps and resources, the health of an app, the
-- ingress, the admission of a restore and its sweep at boot, the snapshots of the fleet, the graph engine, the drivers of
-- Firecracker, Docker, Caddy and the object store, the transports, the remaining repositories, and the
-- wiring of the server. The network policy's sync, the revocation of tokens and the throttling of log
-- lines are left out of the modelled use cases: nothing that they answer is used.
mod Base
mod Errors
mod Action
pub mod Net
pub mod Fleet
pub mod Sandbox
pub mod Execution

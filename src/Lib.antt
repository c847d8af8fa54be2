-- ===== src/Lib.antt =====
-- A model of the bot that sets up Remnawave Nodes: the client of the DNS balancer, the deployment
-- workflow with its tables and the checks on the panel's Hosts and Nodes, the changes of Nodes that
-- are in the panel already, the engine of the provisioning that a deployment runs on the VPS, the
-- commands that it sends there, the recovery of jobs after a restart, the manager of certificates
-- that a deployment asks for one, and the mutex that the balancer's client and the manager serialise
-- their work with.
--
-- Base: shared names; Go calls that change a state and may fail (Effects, Triples); net/netip (Net).
-- The functions of the standard library that rest on large tables or grammars (strings.ToLower,
-- strings.EqualFold, netip.ParseAddr, Addr.String) are the parameter `Std`; IsLawful states what is
-- relied on.
-- Dns: internal/dnsbalancer. Models, Wire and Matching are models.go, wire.go and matching.go; Zones
-- and Client are client.go, split into the loops over the entries of a zone and the operations. The
-- balancer and the locker answer by the number of the call, so that each may do anything at each
-- call. An HTTP reply is a status with a decoded body, or nothing.
-- Deployment and Repository: internal/deployment/deployment.go, with NewID on bytes in NewId, and the
-- statements on jobs and steps of internal/repository/postgres/postgres.go, as functions on rows. A
-- statement that fails changes nothing; ids are compared as texts, in the lower case in which the bot
-- makes and reads them.
-- Remnawave: internal/remnawave/models.go and validation.go.
-- Orchestrator: internal/orchestrator/service.go. World is what a run works on: the rows, the
-- running jobs, the taken slots and the record of its calls; the context, the database, the panel,
-- the certificate manager, the VPS and the balancer answer by the number of the call. Stages are
-- the durable steps; Provision, Connect and Deploy the stages and operations built from them,
-- Prepare what comes before the operator's confirmation. Steady and Stable carry an invariant over
-- a whole run; Ordered (with Own and Published for one job), Execution, Outcome, Times,
-- Polling and Prepared use them. Texts for the operator, progress and metrics are left out: they
-- have no effect on the state. Polling takes one unit of fuel for each turn; every turn takes at
-- least one unit of time, so the fuel is the timeout and one more.
-- NodeChanges: internal/orchestrator/ip_change.go, node_host_move.go and dns_sync.go, on the World
-- of Orchestrator, which records each change of the panel, the server, the zones and the jobs with
-- its answer. Calls are the further components, IpChange, HostMove and DnsSync the three operations
-- with their rollbacks, Lookup what an operator is shown before a change of an address or of DNS
-- (Offers relates it to the change itself), Fingerprint the comparison of a Node's profile with a
-- Host's; Restored, Applied, Planned, Checked, Outcome and Only hold what is proved of them, and
-- Guarded carries it over the lock and the slot of a run.
-- Ssh: internal/ssh/command.go; a session is what it wrote, piece by piece, and how it ended.
-- Provisioner: internal/provisioner/engine.go, over the same table of steps; the touch of the job's
-- own row by RecordDeploymentStep is left to Repository. A stage is three answers by the number of
-- the call. Quoting is shellQuote and shellPath of internal/provisioner/remote.go on bytes, and Shell
-- how a POSIX shell reads a word.
-- Recovery: internal/recovery/service.go, over the tables and the panel of Orchestrator. What the
-- recheck of a job read and wrote is seen from the events.
-- Certificates: internal/certmanager/manager.go for one domain, over Statements, the statements of
-- internal/repository/postgres/certificates.go and the marker of the store. Distribution, Issuance
-- and Rollback are its operations; Steady carries a predicate over their calls, Ordered and Served
-- use it.
-- KeyedMutex: the mutex for each key of internal/dnsbalancer/lock.go and internal/certmanager/lock.go,
-- as a step relation over the calls of Lock in progress.
-- Tests: inputs at which the theorems are applied.
--
-- Not modelled: the SSH protocol and the scripts of the provisioner, ACME and Cloudflare, X.509, the
-- Telegram messages, configuration and metrics; nor yet the preview of a move of a Node, the notes of
-- the previews, the switch of a server to another SNI, the
-- resolution of the targets of a certificate, and several runs waiting for one slot.
pub mod Base
pub mod Dns
pub mod Deployment
pub mod Repository
pub mod Remnawave
pub mod Orchestrator
pub mod NodeChanges
pub mod Ssh
pub mod Provisioner
pub mod Recovery
pub mod Certificates
pub mod KeyedMutex
pub mod Tests

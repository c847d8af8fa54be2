-- ===== src/NodeChanges.antt =====
-- Changes of a Node that is already in the panel: its address, its Host and its DNS records, in
-- internal/orchestrator/ip_change.go, node_host_move.go and dns_sync.go. They run on the tables,
-- the locks and the record of calls of Orchestrator.World; the further components that they call
-- answer by the number of the call.
pub mod Fingerprint
pub mod Calls
pub mod Guarded
pub mod IpChange
pub mod HostMove
pub mod DnsSync
pub mod Lookup

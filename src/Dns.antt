-- ===== src/Dns.antt =====
-- The client of the DNS balancer: internal/dnsbalancer.
pub mod Models
pub mod Wire
pub mod Matching
pub mod Zones
pub mod Client

-- ===== src/Tests.antt =====
-- The theorems at concrete inputs.
mod Dns
mod Orchestrator
mod Prepare
mod Provisioner
mod Recovery
mod Certificates
mod KeyedMutex
mod NodeChanges
mod Ssh
mod Quoting
mod NewId

-- ===== src/Tests.antt =====
-- Concrete clients and worlds, and the theorems at concrete inputs.
mod Clients
mod Sets
mod Examples
mod Runtime
mod Store
mod Events
mod Monitoring
mod Services
mod Catalog
mod Plans
mod Orchestration

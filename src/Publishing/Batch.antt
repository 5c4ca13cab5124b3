-- ===== src/Publishing/Batch.antt =====
-- The batches of drawings (src/cadplot_mcp/batch.py): pages of plans, staging, queueing and status.
pub mod Page
pub mod Items
pub mod Inventory
pub mod Approvals
pub mod Staging
pub mod Queue
pub mod Texts
pub mod Status
pub mod Telemetry
pub mod Report

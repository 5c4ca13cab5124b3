-- ===== src/Publishing/Rehearsal.antt =====
-- The synthetic rehearsal's loops over batches (src/cadplot_mcp/batch_demo.py): `_plan_all`, which
-- reads every page, and the retries of a saturated queue.
pub mod Paging
pub mod Complete
pub mod Queueing
pub mod Windows
pub mod Drained

-- ===== src/Publishing.antt =====
-- The local program's publishing of drawings (src/cadplot_mcp): plans of sheets, batches of
-- drawings, and the rehearsal that pages and queues them.
pub mod TextOrder
pub mod Value
pub mod Runtime
pub mod Inspection
pub mod Paper
pub mod Planner
pub mod Batch
pub mod Rehearsal
mod Samples
mod Tests

-- ===== src/Publishing/Planner.antt =====
-- The plan of a drawing's sheets (src/cadplot_mcp/planner.py).
pub mod Names
pub mod Geometry
pub mod Checks
pub mod Templates
pub mod Sheets
pub mod Plan
pub mod Validate
pub mod Accepted
pub mod RoundTrip
pub mod Verdicts
pub mod Ready

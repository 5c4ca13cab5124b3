-- ===== src/Publishing/Tests.antt =====
-- Runs of the publishing code on small inputs, and its theorems there.
mod Plans
mod Batches

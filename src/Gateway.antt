-- ===== src/Gateway.antt =====
-- services/gateway/cadplot_gateway: the hosted gateway between users and workstations.
pub mod Models
pub mod Errors
pub mod Operation
pub mod Ports
pub mod Repository
pub mod Service

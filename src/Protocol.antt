-- ===== src/Protocol.antt =====
-- packages/protocol/src/cadplot_protocol: the closed messages that gateway and worker share.
pub mod Translation

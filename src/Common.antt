-- ===== src/Common.antt =====
-- What the proxy and the client share (util/common).
pub mod LayerCache
pub mod Directory

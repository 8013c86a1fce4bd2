-- ===== src/Proxy.antt =====
-- The proxy: the data that it sends, its metadata database, the extractor of an image's tables
-- of contents, and the builder of a delta image.
pub mod Bundle
pub mod Database
pub mod Catalog
pub mod Extractor
pub mod Ranking
pub mod Builder
pub mod Delta
pub mod Body

-- ===== src/Cache.antt =====
-- The content store of the caching application: ccnl_caching/ccnl_helper.c.
pub mod Strategy
pub mod Newest
pub mod Window
pub mod Presence
pub mod Consumer
pub mod Producer
pub mod Publish
pub mod Packets

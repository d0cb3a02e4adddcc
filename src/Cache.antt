-- ===== src/Cache.antt =====
-- The store of a cache node: its operations (Cache/Store.antt), what they do to what can be read
-- (Cache/Visible.antt), and the race in `get` (Cache/Race.antt).
pub mod Store
pub mod Visible
pub mod Race

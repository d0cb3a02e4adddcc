-- ===== src/Ring.antt =====
-- The consistent-hash ring: the structure and its operations (Ring/HashRing.antt), ownership of keys
-- when nodes join and leave (Ring/Ownership.antt), its well-formedness (Ring/Valid.antt), the node
-- nearest to a key (Ring/Nearest.antt), and the preference list
-- (Ring/Preference.antt) with its loop (Ring/Walk.antt).
pub mod HashRing
pub mod Ownership
pub mod Valid
pub mod Nearest
pub mod Walk
pub mod Preference

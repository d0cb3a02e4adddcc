-- ===== src/Tests.antt =====
-- The theorems at concrete inputs, on the data of Tests/Data.antt.
mod Data
mod Gossip
mod Network
mod Cache
mod Ring
mod Router
mod Node
mod Resp
mod Demo
mod Repository

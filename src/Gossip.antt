-- ===== src/Gossip.antt =====
-- The gossip membership of a cache node: the table (Gossip/Table.antt), the exchange of it between
-- nodes (Gossip/Exchange.antt), the timeouts (Gossip/Timeouts.antt), a cluster of such nodes
-- (Gossip/Network.antt), and the proofs about them.
pub mod Table
pub mod Status
pub mod View
pub mod Merge
pub mod Refute
pub mod Exchange
pub mod Timeouts
pub mod Valid
pub mod Address
pub mod Converge
pub mod Detect
pub mod Network
pub mod Known
pub mod Near
pub mod Invariant
pub mod Incarnation
pub mod Spread

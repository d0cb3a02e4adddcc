-- ===== src/Node.antt =====
-- A cache node: its gRPC handlers (Node/Service.antt), the rebalance of a joining node
-- (Node/Rebalancer.antt), what `main` builds (Node/Startup.antt), and the proofs about them.
pub mod Service
pub mod Rebalancer
pub mod Joining
pub mod Accused
pub mod Transfer
pub mod Pulled
pub mod Rebalanced
pub mod Startup
pub mod Started
pub mod Seeds

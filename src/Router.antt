-- ===== src/Router.antt =====
-- The router: the health monitor and its escalation (Health, Escalation), the client pool (Client),
-- the replication coordinator (Coordinator), the requests (Dispatch), the gossip observer (Observer),
-- and what `main` builds (Startup); the nodes behind the router (Cluster, Calls), and what a client of
-- the router relies on (Alive, Replicas, ReadAfterDelete, ReadYourWrite, Tracking, Started).
pub mod Health
pub mod Escalation
pub mod Client
pub mod Coordinator
pub mod Dispatch
pub mod Observer
pub mod Alive
pub mod Cluster
pub mod Calls
pub mod Replicas
pub mod ReadAfterDelete
pub mod ReadYourWrite
pub mod Tracking
pub mod Startup
pub mod Started

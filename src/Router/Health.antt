-- ===== src/Router/Health.antt =====
-- `HealthMonitor` of crates/router/src/health/mod.rs. A method holds the lock for the whole of its
-- body and is one step; `now` is the reading of the clock that it makes.
use self_healing_distributed.Prelude.{
  ℕ, ◌+◌, ◌%◌, ◌^◌, Bool, true, false, not, ◌&&◌, Option, none, some, List, [], ◌∷◌, map, keep, leb,
  if◌then◌else◌, ℕ_discrete,
}
use self_healing_distributed.Prelude.Map
use self_healing_distributed.Prelude.Map.{Map}
use self_healing_distributed.Types.{NodeId, Bytes, Instant}

pub data NodeHealth : Type 0 where
  alive suspect dead joining : NodeHealth

infix 50 ◌=ʰ◌
abbrev pub ◌=ʰ◌ : NodeHealth → NodeHealth → Bool
alive =ʰ alive = true
suspect =ʰ suspect = true
dead =ʰ dead = true
joining =ʰ joining = true
_ =ʰ _ = false

pub record NodeHealthEntry : Type 0 where
  pub health : NodeHealth
  pub last_checked : Instant
  pub consecutive_failures : ℕ

pub record HealthMonitor : Type 0 where
  pub nodes : Map NodeId NodeHealthEntry
  pub failure_threshold : ℕ

unfoldable pub new : HealthMonitor
new = record { nodes = []; failure_threshold = 3 }

unfoldable pub with_failure_threshold : ℕ → HealthMonitor → HealthMonitor
with_failure_threshold threshold m = record m { failure_threshold = threshold }

abbrev pub lookup : HealthMonitor → NodeId → Option NodeHealthEntry
lookup m id = Map.get ℕ_discrete id m.nodes

abbrev pub store : NodeId → NodeHealthEntry → HealthMonitor → HealthMonitor
store id e m = record m { nodes = Map.insert ℕ_discrete id e m.nodes }

unfoldable pub mark_alive : NodeId → Instant → HealthMonitor → HealthMonitor
mark_alive id now =
    store id (record { health = alive; last_checked = now; consecutive_failures = 0 })

unfoldable pub mark_joining : NodeId → Instant → HealthMonitor → HealthMonitor
mark_joining id now =
    store id (record { health = joining; last_checked = now; consecutive_failures = 0 })

-- `entry(node_id).or_insert(…)`.
abbrev pub entry_or_alive : Instant → Option NodeHealthEntry → NodeHealthEntry
entry_or_alive now none = record { health = alive; last_checked = now; consecutive_failures = 0 }
entry_or_alive now (some e) = e

-- The `match entry.health`, at the count of failures after the increment.
unfoldable pub escalate : ℕ → ℕ → NodeHealth → NodeHealth
escalate threshold failures alive = suspect
escalate threshold failures joining = suspect
escalate threshold failures suspect = if leb threshold failures then dead else suspect
escalate threshold failures dead = dead

-- The body of `record_failure` on the entry. The count is a `u32`.
unfoldable pub fail_entry : ℕ → Instant → NodeHealthEntry → NodeHealthEntry
unfolding escalate
fail_entry threshold now e =
    let failures = (e.consecutive_failures + 1) % 2 ^ 32 in
    record {
      health = escalate threshold failures e.health;
      last_checked = now;
      consecutive_failures = failures;
    }

unfoldable pub record_failure : NodeId → Instant → HealthMonitor → HealthMonitor
unfolding fail_entry
record_failure id now m =
    store id (fail_entry m.failure_threshold now (entry_or_alive now (lookup m id))) m

abbrev pub routable : Option NodeHealthEntry → Bool
routable none = true
routable (some e) = not (e.health =ʰ dead) && not (e.health =ʰ joining)

-- Dead and Joining nodes are not routed to; an unknown node is.
unfoldable pub is_alive : NodeId → HealthMonitor → Bool
is_alive id m = routable (lookup m id)

unfoldable pub dead_nodes : HealthMonitor → List NodeId
dead_nodes m = map (λ e. e.0) (keep (λ e. e.1.health =ʰ dead) m.nodes)

unfoldable pub all_health : HealthMonitor → Map NodeId NodeHealth
all_health m = map (λ e. (e.0, e.1.health)) m.nodes

-- The outcome of `get_client` and `heartbeat` for a node.
pub data Probe : Type 0 where
  heartbeat_ok heartbeat_failed connect_failed : Probe

unfoldable pub probe_node : NodeId → Probe → Instant → HealthMonitor → HealthMonitor
probe_node id heartbeat_ok now m = mark_alive id now m
probe_node id heartbeat_failed now m = record_failure id now m
probe_node id connect_failed now m = record_failure id now m

-- One round of the loop of `start_health_checker`: `probe id addr` is what the network answers.
unfoldable pub check_nodes :
    (NodeId → Bytes → Probe) → Instant → List (NodeId × Bytes) → HealthMonitor → HealthMonitor
unfolding probe_node
check_nodes probe now [] m = m
check_nodes probe now ((id, addr) ∷ nodes) m =
    check_nodes probe now nodes (probe_node id (probe id addr) now m)

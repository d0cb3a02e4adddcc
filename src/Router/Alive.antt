-- ===== src/Router/Alive.antt =====
-- The nodes that the coordinator (crates/router/src/replication/coordinator.rs) asks for a key.
use self_healing_distributed.Prelude.{
  ℕ, zero, suc, ◌+◌, ◌-◌, ◌<◌, ◌≡◌, sym, List, [], ◌∷◌, ◌++◌, length, keep, take, arith, Bool-cases,
  append-nil, append_assoc, length-append, inl, inr,
}
use self_healing_distributed.Types.{NodeInfo, Bytes, UuidText}
use self_healing_distributed.Ring.HashRing.{get_preference_list}
use self_healing_distributed.Router.Health.{HealthMonitor, is_alive}
use self_healing_distributed.Router.Coordinator.{
  ReplicationCoordinator, alive_nodes, alive_preference_list,
}

alive_nodes-eq :
    (factor : ℕ) (health : HealthMonitor) (candidates alive : List NodeInfo) (left : ℕ)
    → length alive + suc left ≡ factor
    → alive_nodes factor health candidates alive
      ≡ alive ++ take (suc left) (keep (λ n. is_alive n.id health) candidates)
unfolding alive_nodes
alive_nodes-eq factor health [] alive left room = sym (append-nil alive)
alive_nodes-eq factor health (node ∷ candidates) alive zero room =
    elim (Bool-cases (is_alive node.id health)) [
      | inl up ↦ grind (arith, length-append alive (node ∷ []))
      | inr down ↦ grind (arith, alive_nodes-eq factor health candidates alive zero room)
    ]
alive_nodes-eq factor health (node ∷ candidates) alive (suc left) room =
    elim (Bool-cases (is_alive node.id health)) [
      | inl up ↦ grind (
        arith,
        length-append alive (node ∷ []),
        append_assoc alive (node ∷ []),
        alive_nodes-eq factor health candidates (alive ++ node ∷ []) left,
      )
      | inr down ↦ grind (arith, alive_nodes-eq factor health candidates alive (suc left) room)
    ]

-- The coordinator asks the first nodes of the ring's preference list, of two more than the
-- replication factor, that the health monitor routes to: at most as many as the factor, which is
-- at least 1.
pub alive_preference_list-eq :
    (xxh3_64 : Bytes → ℕ) (uuid : UuidText) (key : Bytes) (c : ReplicationCoordinator)
    → 0 < c.config.replication_factor
    → alive_preference_list xxh3_64 uuid key c
      ≡ take c.config.replication_factor (
          keep
            (λ n. is_alive n.id c.health_monitor)
            (get_preference_list xxh3_64 uuid key (c.config.replication_factor + 2) c.hash_ring))
unfolding alive_preference_list
alive_preference_list-eq xxh3_64 uuid key c some_factor =
    let candidates =
      get_preference_list xxh3_64 uuid key (c.config.replication_factor + 2) c.hash_ring in
    grind (
      arith,
      alive_nodes-eq c.config.replication_factor c.health_monitor candidates []
          (c.config.replication_factor - 1),
    )

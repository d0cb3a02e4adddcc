-- ===== src/Router/Startup.antt =====
-- `ClusterConfig` of crates/router/src/membership/mod.rs, and what `main` of
-- crates/router/src/main.rs builds from it before it starts the tasks of the router. The
-- configuration has been read from its file.
use self_healing_distributed.Prelude.{ℕ, Option, none, some, List, [], ◌∷◌, map}
use self_healing_distributed.Types.{NodeId, NodeInfo, Bytes, UuidText}
use self_healing_distributed.Ring.HashRing as Ring
use self_healing_distributed.Ring.HashRing.{HashRing, add_node}
use self_healing_distributed.Router.Health
use self_healing_distributed.Router.Coordinator.{ReplicationCoordinator}

pub record NodeConfigEntry : Type 0 where
  pub id : Bytes
  pub addr : Bytes

pub record ClusterConfig : Type 0 where
  pub nodes : List NodeConfigEntry

pub record Args : Type 0 where
  pub addr : Bytes
  pub config : Bytes
  pub target_node : Option Bytes
  pub replication_factor : ℕ
  pub max_retries : ℕ
  pub health_check_interval_ms : ℕ

abbrev info_of : Bytes → Option NodeId → Option (List NodeInfo) → Option (List NodeInfo)
info_of addr none infos = none
info_of addr (some id) none = none
info_of addr (some id) (some infos) = some (record { id = id; addr = addr } ∷ infos)

unfoldable pub infos_of : UuidText → List NodeConfigEntry → Option (List NodeInfo)
infos_of uuid [] = some []
infos_of uuid (n ∷ ns) = info_of n.addr (uuid.parse_str n.id) (infos_of uuid ns)

-- `none` is the panic at an identity that does not parse.
unfoldable pub to_node_infos : UuidText → ClusterConfig → Option (List NodeInfo)
unfolding infos_of
to_node_infos uuid config = infos_of uuid config.nodes

-- What the tasks of the router are given: the coordinator with the ring and the monitor that they
-- share, the nodes for the health checker, and the seeds for the gossip client.
pub record RouterStarted : Type 0 where
  pub coordinator : ReplicationCoordinator
  pub node_addrs : List (NodeId × Bytes)
  pub seed_addrs : List Bytes

module _ (xxh3_64 : Bytes → ℕ) (uuid : UuidText) where
  unfoldable pub add_members : List NodeInfo → HashRing → HashRing
  add_members [] ring = ring
  add_members (member ∷ members) ring = add_members members (add_node xxh3_64 uuid member ring)

  abbrev pub started_with : Args → Option (List NodeInfo) → Option RouterStarted
  started_with args none = none
  started_with args (some members) = some (record {
    coordinator = record {
      hash_ring = add_members members Ring.new;
      config = record {
        replication_factor = args.replication_factor;
        max_retries = args.max_retries;
      };
      health_monitor = Health.new;
    };
    node_addrs = map (λ n. (n.id, n.addr)) members;
    seed_addrs = map (λ n. n.addr) members;
  })

  unfoldable pub start : Args → ClusterConfig → Option RouterStarted
  unfolding to_node_infos add_members Ring.new Health.new
  start args config = started_with args (to_node_infos uuid config)

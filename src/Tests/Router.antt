-- ===== src/Tests/Router.antt =====
-- The theorems on the router, over one node that serves.
use self_healing_distributed.Prelude.{
  ℕ_discrete, ◌+◌, ◌≡◌, refl, true, none, some, List, [], ◌∷◌, arith, take, keep, inr,
}
use self_healing_distributed.Prelude.Map
use self_healing_distributed.Prelude.Map.{get-insert_ne}
use self_healing_distributed.Types.{NodeInfo, Bytes, Bytes-discrete, Instant}
use self_healing_distributed.Ring.HashRing
use self_healing_distributed.Ring.HashRing.{
  add_node, with_vnode_count, successor, get_preference_list,
}
use self_healing_distributed.Router.Health
use self_healing_distributed.Router.Health.{
  HealthMonitor, NodeHealthEntry, mark_alive, is_alive, lookup,
}
use self_healing_distributed.Router.Escalation
use self_healing_distributed.Router.Escalation.{failures, health_after}
use self_healing_distributed.Router.Client.{SetRequest, Pool}
use self_healing_distributed.Router.Client
use self_healing_distributed.Router.Coordinator.{
  ReplicationCoordinator, default_config, alive_preference_list, reply,
}
use self_healing_distributed.Router.Coordinator
use self_healing_distributed.Router.Alive
use self_healing_distributed.Router.Cluster.{transport}
use self_healing_distributed.Router.ReadYourWrite
use self_healing_distributed.Router.Replicas
use self_healing_distributed.Router.ReadAfterDelete
use self_healing_distributed.Router.Observer.{Observed}
use self_healing_distributed.Router.Tracking
use self_healing_distributed.Router.Startup
use self_healing_distributed.Router.Startup.{ClusterConfig, RouterStarted}
use self_healing_distributed.Router.Started
use self_healing_distributed.Router.Started.{Exchange, observe_all}
use self_healing_distributed.Router.Cluster
use self_healing_distributed.Gossip.Table
use self_healing_distributed.Gossip.Table.{alive, dead, joining}
use self_healing_distributed.Node.Service
use self_healing_distributed.Node.Service.{NodeState}
use self_healing_distributed.Cache.Store
use self_healing_distributed.Tests.Data.{
  hash, hash-bounded, uuid_text, ring2, key, value, node1, node2, node3, addr1, addr2, table1,
  table2, old_store,
}

abbrev coordinator : ReplicationCoordinator
coordinator = record { hash_ring = ring2; config = default_config; health_monitor = Health.new }

-- The node at addr1 is up, and the one at addr2 is down.
abbrev cluster : Cluster.Cluster
cluster = (addr1, record { store = old_store; table = table1; tombstones = [] }) ∷ []

abbrev request : SetRequest
request = record { key = key; value = value; ttl_ms = some 2 }

abbrev fresh : Pool Bytes Cluster.Cluster
fresh = record { clients = []; world = cluster }

abbrev observed : Observed
observed = record { ring = ring2; health = Health.new }

abbrev instants : List Instant
instants = 2 ∷ 3 ∷ 4 ∷ []

health-failures_example :
    (e : NodeHealthEntry) × (lookup (failures 1 instants (mark_alive 1 1 Health.new)) 1 ≡ some e)
    × (e.consecutive_failures ≡ 3)
    × (e.health ≡ health_after 3 3)
unfolding Health.new
health-failures_example = Escalation.health-failures 1 1 instants Health.new (omega arith)

alive_preference_list-eq_example :
    alive_preference_list hash uuid_text key coordinator
    ≡ take 3 (
        keep
          (λ n. is_alive n.id coordinator.health_monitor)
          (get_preference_list hash uuid_text key (3 + 2) ring2))
alive_preference_list-eq_example =
    Alive.alive_preference_list-eq hash uuid_text key coordinator (omega arith)

get-set_example :
    (Coordinator.get
      (transport 9)
      hash
      uuid_text
      key
      coordinator
      (Coordinator.set (transport 8) hash uuid_text request coordinator fresh).0).1
    ≡ reply (record { value = some value; found = true })
unfolding Coordinator.set Coordinator.alive_preference_list Coordinator.set_retries Client.attempt
    Client.get_client Cluster.serve_set Service.set Store.set Store.deadline Store.plus
    Table.is_self_joining Health.is_alive Health.new get_preference_list Map.get Map.insert
    Bytes-discrete ℕ_discrete add_node with_vnode_count
get-set_example =
    ReadYourWrite.get-set hash uuid_text 8 9 request coordinator fresh (omega arith)
      (λ a c h. unfold Map.get in ground arith) refl

-- The key stands at addr1.
abbrev held : Pool Bytes Cluster.Cluster
held = record {
  clients = [];
  world =
      (
        addr1,
        record {
          store = record old_store {
            data_map = (key, record { value = value; expires_at = none }) ∷ [];
          };
          table = table1;
          tombstones = [];
        },
      )
      ∷ [];
}

get-first_shown_example :
    let nodes = alive_preference_list hash uuid_text key coordinator in
    (Coordinator.get (transport 9) hash uuid_text key coordinator held).1
    ≡ Replicas.read_reply nodes (Replicas.first_shown 9 key nodes held.world)
get-first_shown_example =
    Replicas.get-first_shown hash uuid_text 9 key coordinator held
      (λ a c h. unfold Map.get in ground arith) (omega arith)

-- After the delete, a node comes back with the key at addr2.
abbrev back : NodeState
back = record {
  store = record old_store { data_map = (key, record { value = value; expires_at = none }) ∷ [] };
  table = table2;
  tombstones = [];
}

abbrev deleted : Pool Bytes Cluster.Cluster
deleted = (Coordinator.delete (transport 8) hash uuid_text key coordinator held).0

abbrev returned : Pool Bytes Cluster.Cluster
returned = record { clients = []; world = Map.insert Bytes-discrete addr2 back deleted.world }

returned-IsLeft : ReadAfterDelete.IsLeft held.world deleted.world returned.world
returned-IsLeft addr n there = elim (Bytes-discrete addr2 addr) [
  | yes same ↦ unfold Map.get in ground arith
  | no other ↦ inr (get-insert_ne Bytes-discrete addr2 addr back deleted.world other)
]

get-delete_example :
    let nodes = alive_preference_list hash uuid_text key coordinator in
    (Coordinator.get (transport 9) hash uuid_text key coordinator returned).1
    ≡ Replicas.read_reply nodes
        (Replicas.first_shown 9 key (ReadAfterDelete.absent held.world nodes) returned.world)
get-delete_example =
    ReadAfterDelete.get-delete hash uuid_text 8 9 key coordinator held returned
      (λ a c h. unfold Map.get in ground arith) (λ a c h. unfold Map.get in ground arith)
      (omega arith) returned-IsLeft

-- Two nodes from the configuration, and a seed that reports a third.
abbrev config : ClusterConfig
config = record {
  nodes = record { id = 1 ∷ []; addr = addr1 } ∷ record { id = 2 ∷ []; addr = addr2 } ∷ [];
}

abbrev members : List NodeInfo
members = node1 ∷ node2 ∷ []

abbrev args : Startup.Args
args = record {
  addr = [];
  config = [];
  target_node = none;
  replication_factor = 3;
  max_retries = 1;
  health_check_interval_ms = 1000;
}

abbrev started : RouterStarted
started = record {
  coordinator = record {
    hash_ring = Startup.add_members hash uuid_text members HashRing.new;
    config = record { replication_factor = 3; max_retries = 1 };
    health_monitor = Health.new;
  };
  node_addrs = (1, addr1) ∷ (2, addr2) ∷ [];
  seed_addrs = addr1 ∷ addr2 ∷ [];
}

abbrev report : Exchange
report = record {
  now = 7;
  addr = addr1;
  answer = λ addr. some (record {
    sender_id = 1 ∷ [];
    members =
        record {
          node_id = 3 ∷ [];
          addr = node3.addr;
          status = 0;
          incarnation = 1;
          last_seen_ms = 0;
        }
        ∷ [];
  });
}

start-observe_all-IsProper_example :
    Tracking.IsProper (observe_all hash uuid_text (report ∷ []) (Started.observed started)).ring
unfolding Startup.start Startup.to_node_infos
start-observe_all-IsProper_example =
    Started.start-observe_all-IsProper hash uuid_text hash-bounded args config members started
      (report ∷ []) refl (refl, (refl, tt)) refl

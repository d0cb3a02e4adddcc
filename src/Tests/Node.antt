-- ===== src/Tests/Node.antt =====
-- The theorems on a node at one that joins.
use self_healing_distributed.Prelude.{
  ℕ, ℕ_discrete, ◌+◌, ◌-◌, ◌*◌, ◌/◌, ◌≡◌, ◌≢◌, All, refl, true, false, none, some, [], ◌∷◌, arith,
  map, if◌then◌else◌, ltb, ◌==◌,
}
use self_healing_distributed.Prelude.Map
use self_healing_distributed.Types.{NodeId, Bytes, Bytes-discrete}
use self_healing_distributed.Cache.Store
use self_healing_distributed.Cache.Store.{CacheEntry, CacheStore, TransferEntry, lookup}
use self_healing_distributed.Cache.Visible.{visible, lasting}
use self_healing_distributed.Gossip.Table
use self_healing_distributed.Gossip.Table.{alive, joining, dead, routable_peers, RemoteEntry}
use self_healing_distributed.Ring.HashRing
use self_healing_distributed.Node.Service
use self_healing_distributed.Node.Service.{NodeState}
use self_healing_distributed.Node.Rebalancer.{
  Stream, no_peers, accepts, finish, pull_chunks, take_chunk, join_ring, rebalance,
  wait_and_rebalance,
}
use self_healing_distributed.Node.Joining
use self_healing_distributed.Node.Accused
use self_healing_distributed.Rpc
use self_healing_distributed.Node.Joining.{Event, chunk}
use self_healing_distributed.Node.Transfer
use self_healing_distributed.Node.Rebalanced
use self_healing_distributed.Node.Pulled
use self_healing_distributed.Node.Startup
use self_healing_distributed.Node.Startup.{Args, Started}
use self_healing_distributed.Node.Started
use self_healing_distributed.Node.Seeds
use self_healing_distributed.Strings
use self_healing_distributed.Gossip.Valid
use self_healing_distributed.Gossip.Address.{SaysOwn}
use self_healing_distributed.Gossip.Exchange.{build_gossip_message}
use self_healing_distributed.Tests.Data.{
  hash, uuid_text, ring2, addr1, addr2, key, value, joining_node, table2, member, node1, node2,
}

abbrev empty_store : CacheStore
empty_store = record { data_map = []; epoch = 0 }

-- What another node sends for the key.
abbrev incoming : TransferEntry
incoming = record { key = key; value = value; expires_at_ms = none }

abbrev lasting_entry : CacheEntry
lasting_entry = record { value = value; expires_at = none }

abbrev timed_entry : CacheEntry
timed_entry = record { value = value; expires_at = some 5000000 }

abbrev full_store : CacheStore
full_store = record { data_map = (key, lasting_entry) ∷ []; epoch = 0 }

abbrev timed_store : CacheStore
timed_store = record {
  data_map = (key, record { value = value; expires_at = some 4000009 }) ∷ [];
  epoch = 0;
}

-- The joining node after it has been asked to delete the key and has then taken in the key.
abbrev refilled : NodeState
refilled = record { store = full_store; table = table2; tombstones = (key, tt) ∷ [] }

deleted_stays_deleted_example : lookup (finish refilled).store key ≡ none
unfolding Table.is_self_joining Map.get Map.insert Map.remove ℕ_discrete Bytes-discrete Joining.run
    take_chunk accepts Store.set_from_transfer Store.set Store.deadline Service.delete Store.delete
    HashRing.get_node HashRing.add_node HashRing.with_vnode_count HashRing.successor
deleted_stays_deleted_example =
    Joining.deleted_stays_deleted hash uuid_text 1 ring2 (chunk 9 incoming ∷ []) joining_node
      refilled key refl refl

transferred_until_example : visible (9 + 3000000) timed_store key ≡ (
    if ltb (5000000 - 7) 1000000
    then visible (9 + 3000000) empty_store key
    else if ltb 3000000 ((5000000 - 7) / 1000000 * 1000000)
    then some value
    else none)
unfolding Store.set_from_transfer Store.set Store.deadline Store.plus Map.insert
transferred_until_example =
    Transfer.transferred_until 7 9 key timed_entry 5000000 empty_store timed_store 3000000 refl
      (omega arith) (omega arith) refl

-- Node 2 joins, and knows node 1 as alive.
abbrev newcomer : NodeState
newcomer = record joining_node {
  store = empty_store;
  table = record {
    members = (2, member node2 joining 0 0) ∷ (1, member node1 alive 4 0) ∷ [];
    local_id = 2;
  };
}

abbrev sends_key : Bytes → Stream
sends_key addr = some (some (9, incoming) ∷ [])

-- Node 2 is accused of its death after the delete, and takes a write.
abbrev accusation : RemoteEntry
accusation = record { id = 2; addr = addr2; status = dead; incarnation = 0 }

abbrev accused_node : NodeState
accused_node = Accused.heard 8 key (accusation ∷ []) joining_node

abbrev written_node : NodeState
written_node = record accused_node {
  store = record accused_node.store {
    data_map = (key, record { value = value; expires_at = none }) ∷ [];
  };
}

accusation_ends_joining_example :
    (Table.is_alive 2 accused_node.table ≡ true)
    × (Rpc.ok true ≡ Rpc.ok true)
    × (visible 20 written_node.store key
        ≡ lasting 9 key accused_node.store 20 value (Service.millis none))
    × (lookup (finish written_node).store key ≡ none)
unfolding Service.set Service.delete Store.set Store.delete Store.deadline Table.is_self_joining
    Table.merge Map.get Map.insert Map.remove Bytes-discrete ℕ_discrete
accusation_ends_joining_example =
    Accused.accusation_ends_joining 8 9 20 key value none (accusation ∷ []) joining_node
      written_node (member node2 joining 0 0) (Rpc.ok true) refl refl refl refl

-- A hash that places all of a node in one spot, and the key in front of node 2.
abbrev spot : Bytes → ℕ
spot [] = 0
spot (b ∷ bs) = if b == 2 then 200 else b

-- The node after its rebalance from node 1, which sends the key.
abbrev settled : NodeState
settled = finish (record newcomer { store = full_store })

visible-wait_and_rebalance_example :
    (visible 20 settled.store key
      ≡ Rebalanced.unless_deleted (Map.get Bytes-discrete key newcomer.tombstones) (
          Pulled.owned 20 key spot uuid_text 2
            (join_ring spot uuid_text 2 newcomer.table)
            (Pulled.sent_by 2 sends_key (map (λ e. e.info) (routable_peers newcomer.table)))
            (visible 20 newcomer.store key)))
    × (Table.is_self_joining settled.table ≡ false)
unfolding wait_and_rebalance rebalance join_ring HashRing.new routable_peers Map.get Map.insert
    ℕ_discrete Bytes-discrete take_chunk accepts pull_chunks Store.set_from_transfer Store.set
    Store.deadline HashRing.get_node HashRing.add_node HashRing.with_vnode_count HashRing.successor
visible-wait_and_rebalance_example =
    Rebalanced.visible-wait_and_rebalance spot uuid_text 2 20 sends_key newcomer.table newcomer
      settled 1 key refl

-- `--addr 2 --id 2 --seed-nodes 1`, with the identities from 11 on for the seeds.
abbrev args : Args
args = record { addr = addr2; id = some (2 ∷ []); resp_addr = []; seed_nodes = addr1 }

abbrev new_id : ℕ → NodeId
new_id k = 10 + k

abbrev started : Started
started = record {
  node_id = 2;
  node = record {
    store = Store.new 7;
    table = Table.new 2 (record { id = 11; addr = addr1 } ∷ []) 7;
    tombstones = [];
  };
  is_joining = true;
}

started_without_address_example :
    All
      (SaysOwn uuid_text 2 [])
      (build_gossip_message uuid_text 9
        (Valid.run (Valid.mark_self_alive ∷ []) started.node.table)).members
unfolding Startup.start Startup.own_id Startup.seed_infos Startup.seed_addrs Strings.split
    Strings.trim
started_without_address_example =
    Started.started_without_address uuid_text new_id 7 9 args started (Valid.mark_self_alive ∷ [])
      refl (λ k h. omega arith)

started_never_waits_example :
    (Table.is_self_joining started.node.table ≡ true)
    × (wait_and_rebalance hash uuid_text 2 sends_key started.node.table started.node ≢ no_peers)
unfolding Startup.start Startup.own_id Startup.seed_infos Startup.seed_addrs Strings.split
    Strings.trim
started_never_waits_example =
    Seeds.started_never_waits hash uuid_text new_id 7 sends_key args started started.node refl
      (λ k h. omega arith) refl

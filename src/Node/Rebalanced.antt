-- ===== src/Node/Rebalanced.antt =====
-- What a node holds when its rebalance (crates/node/src/rebalance/mod.rs) has ended.
use self_healing_distributed.Prelude.{
  ℕ, ◌≡◌, ap, ◌∙◌, inl, inr, false, Option, none, some, List, [], ◌∷◌, arith, Option-cases, map,
}
use self_healing_distributed.Prelude.Map
use self_healing_distributed.Prelude.Map.{Map, get-insert_self}
use self_healing_distributed.Types.{NodeId, NodeInfo, Bytes, Bytes-discrete, Instant, UuidText}
use self_healing_distributed.Cache.Store.{CacheStore}
use self_healing_distributed.Cache.Visible.{visible}
use self_healing_distributed.Gossip.Table
use self_healing_distributed.Gossip.Table.{
  MembershipTable, MemberEntry, routable_peers, is_self_joining, mark_self_alive,
}
use self_healing_distributed.Ring.HashRing.{HashRing}
use self_healing_distributed.Node.Service.{NodeState}
use self_healing_distributed.Node.Rebalancer.{
  Stream, rebalance, join_ring, finish, wait_and_rebalance, finished, no_peers, rebalanced,
}
use self_healing_distributed.Node.Joining.{lookup-apply_tombstones}
use self_healing_distributed.Node.Pulled.{sent_by, owned, visible-rebalance}

not_joining : (t : MembershipTable) → is_self_joining (mark_self_alive t) ≡ false
unfolding is_self_joining mark_self_alive
not_joining t = elim (Option-cases (Table.lookup t t.local_id)) [
  | inl absent ↦ ground arith
  | inr (e, found) ↦ grind (arith, get-insert_self)
]

finish_joining : (n : NodeState) → is_self_joining (finish n).table ≡ false
unfolding finish
finish_joining n = not_joining n.table

-- The keys that are removed at the end.
abbrev pub unless_deleted : Option (Unit {0}) → Option Bytes → Option Bytes
unless_deleted none v = v
unless_deleted (some _) v = none

visible-finish :
    (n : NodeState) (later : Instant) (j : Bytes)
    → visible later (finish n).store j
      ≡ unless_deleted (Map.get Bytes-discrete j n.tombstones) (visible later n.store j)
unfolding finish visible
visible-finish n later j = elim (Option-cases (Map.get Bytes-discrete j n.tombstones)) [
  | inl kept ↦ ground (arith, lookup-apply_tombstones n.tombstones n.store j)
  | inr (u, deleted) ↦ ground (arith, lookup-apply_tombstones n.tombstones n.store j)
]

-- A rebalance that ends has passed over all peers.
finished_lem :
    (xxh3_64 : Bytes → ℕ) (uuid : UuidText) (n n' : NodeState) (total : ℕ)
    (r : Option (CacheStore × ℕ))
    → finished xxh3_64 uuid n r ≡ rebalanced n' total
    → (s : CacheStore) × (r ≡ some (s, total)) × (n' ≡ finish (record n { store = s }))
finished_lem xxh3_64 uuid n n' total none h = ground arith
finished_lem xxh3_64 uuid n n' total (some (s, count)) h = (s, ground arith, ground arith)

ended :
    (xxh3_64 : Bytes → ℕ) (uuid : UuidText) (local : NodeId) (ring : HashRing)
    (transfer : Bytes → Stream) (n n' : NodeState) (total : ℕ) (peers : List NodeInfo)
    (seen : List MemberEntry)
    → elim seen [
      | [] ↦ no_peers
      | _ ∷ _ ↦ finished xxh3_64 uuid n (rebalance xxh3_64 uuid local ring transfer peers 0 n.store)
    ]
      ≡ rebalanced n' total
    → (s : CacheStore) × (rebalance xxh3_64 uuid local ring transfer peers 0 n.store
        ≡ some (s, total))
      × (n' ≡ finish (record n { store = s }))
ended xxh3_64 uuid local ring transfer n n' total peers [] h = ground arith
ended xxh3_64 uuid local ring transfer n n' total peers (_ ∷ _) h =
    finished_lem xxh3_64 uuid n n' total _ h

-- When the rebalance of a node ends without a panic, a key with a tombstone shows nothing; a key that
-- the ring of the reachable peers assigns to this node shows what the last entry for it shows among
-- those that the peers sent, up to an error of each, a time to live of 0 left out, or what it showed
-- before if none was sent; every other key shows what it did. And the node no longer counts itself as
-- joining. Each entry is taken in at an instant of its own. The peers, the store and the tombstones
-- are those of the node when it reads its peers for the second time: from then on to the end no other
-- task of the node runs.
pub visible-wait_and_rebalance :
    (xxh3_64 : Bytes → ℕ) (uuid : UuidText) (local : NodeId) (later : Instant)
    (transfer : Bytes → Stream) (polled : MembershipTable) (n n' : NodeState) (total : ℕ)
    (j : Bytes)
    → wait_and_rebalance xxh3_64 uuid local transfer polled n ≡ rebalanced n' total
    → (visible later n'.store j
        ≡ unless_deleted (Map.get Bytes-discrete j n.tombstones) (
            owned later j xxh3_64 uuid local
              (join_ring xxh3_64 uuid local n.table)
              (sent_by local transfer (map (λ e. e.info) (routable_peers n.table)))
              (visible later n.store j)))
      × (is_self_joining n'.table ≡ false)
unfolding wait_and_rebalance
visible-wait_and_rebalance xxh3_64 uuid local later transfer polled n n' total j h =
    let ring = join_ring xxh3_64 uuid local n.table in
    let peers = map (λ e. e.info) (routable_peers n.table) in
    let (s, pulled, same) =
      ended xxh3_64 uuid local ring transfer n n' total peers (routable_peers polled) h in
    rw same (
      visible-finish (record n { store = s }) later j
          ∙ ap (unless_deleted (Map.get Bytes-discrete j n.tombstones)) (
              visible-rebalance later j xxh3_64 uuid local ring transfer peers 0 n.store s total
                pulled),
      finish_joining (record n { store = s }),
    )

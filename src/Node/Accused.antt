-- ===== src/Node/Accused.antt =====
-- What an accusation does to a node that joins: `merge` of crates/node/src/gossip/state.rs, between
-- the handlers of crates/node/src/grpc/service.rs and the end of the rebalance in
-- crates/node/src/rebalance/mod.rs.
use self_healing_distributed.Prelude.{
  ℕ, ◌≡◌, ◌∙◌, ap, Bool, true, false, Option, none, some, List, [], arith, Option-cases, inl, inr,
}
use self_healing_distributed.Prelude.Map
use self_healing_distributed.Types.{NodeId, Bytes, Bytes-discrete, Instant}
use self_healing_distributed.Cache.Store.{lookup}
use self_healing_distributed.Cache.Store
use self_healing_distributed.Cache.Visible.{visible, visible-set, lasting}
use self_healing_distributed.Gossip.Table
use self_healing_distributed.Gossip.Table.{
  MembershipTable, MemberEntry, RemoteEntry, merge, is_alive, is_self_joining,
}
use self_healing_distributed.Gossip.Merge.{local_id-merge}
use self_healing_distributed.Gossip.Refute.{condemned, is_alive-merge-condemned}
use self_healing_distributed.Rpc.{Result, ok}
use self_healing_distributed.Node.Service
use self_healing_distributed.Node.Service.{NodeState, millis}
use self_healing_distributed.Node.Rebalancer.{finish}
use self_healing_distributed.Node.Joining.{joining_rejects, lookup-apply_tombstones}

-- The node after a delete of the key and a message of gossip.
abbrev pub heard : Instant → Bytes → List RemoteEntry → NodeState → NodeState
heard now key rs n =
    let n1 = (Service.delete key n).0 in record n1 { table = merge now rs n1.table }

alive_not_joining :
    (id : NodeId) (t : MembershipTable)
    → t.local_id ≡ id
    → is_alive id t ≡ true
    → is_self_joining t ≡ false
unfolding is_alive is_self_joining
alive_not_joining id t same h = ground arith

table-delete : (key : Bytes) (n : NodeState) → (Service.delete key n).0.table ≡ n.table
unfolding Service.delete
table-delete key n = ground arith

-- A key for which there is a tombstone is removed at the end, also when a node that no longer counts
-- itself as joining has taken a write of it.
lost :
    (now later : Instant) (key value : Bytes) (ttl_ms : Option ℕ) (n n2 : NodeState)
    (reply : Result Bool)
    → Map.get Bytes-discrete key n.tombstones ≡ some tt
    → is_self_joining n.table ≡ false
    → Service.set now key value ttl_ms n ≡ some (n2, reply)
    → (reply ≡ ok true)
      × (visible later n2.store key ≡ lasting now key n.store later value (millis ttl_ms))
      × (lookup (finish n2).store key ≡ none)
unfolding Service.set finish
lost now later key value ttl_ms n n2 reply marked serves h =
    elim (Option-cases (Store.set now key value (millis ttl_ms) n.store)) [
      | inl panics ↦ ground arith
      | inr (s, done) ↦
          let shown = visible-set now key n.store value (millis ttl_ms) s later key done in
          let gone = lookup-apply_tombstones n.tombstones s key in
          (ground arith, ground (arith, shown), ground (arith, gone))
    ]

-- An accusation ends the isolation of a node that joins, and an acknowledged write is lost by it.
-- When a key is deleted while the node joins, and a message then accuses the node at its incarnation
-- or above, the node is Alive with its rebalance still under way. A `Set` of the key that does not
-- panic is then acknowledged and shows the value for its time to live; and when the rebalance ends,
-- the key has no entry. Nothing else comes in between.
pub accusation_ends_joining :
    (before now later : Instant) (key value : Bytes) (ttl_ms : Option ℕ) (rs : List RemoteEntry)
    (n n2 : NodeState) (l : MemberEntry) (reply : Result Bool)
    → is_self_joining n.table ≡ true
    → Table.lookup n.table n.table.local_id ≡ some l
    → condemned n.table.local_id l rs ≡ true
    → Service.set now key value ttl_ms (heard before key rs n) ≡ some (n2, reply)
    → (is_alive n.table.local_id (heard before key rs n).table ≡ true)
      × (reply ≡ ok true)
      × (visible later n2.store key
          ≡ lasting now key (heard before key rs n).store later value (millis ttl_ms))
      × (lookup (finish n2).store key ≡ none)
accusation_ends_joining before now later key value ttl_ms rs n n2 l reply joining self accused h =
    let same = table-delete key n in
    let up : is_alive n.table.local_id (heard before key rs n).table ≡ true =
      rw same (is_alive-merge-condemned before rs n.table l self accused) in
    let id : (heard before key rs n).table.local_id ≡ n.table.local_id =
      local_id-merge before rs (Service.delete key n).0.table ∙ ap (λ t. t.local_id) same in
    let marked = (joining_rejects 0 key [] none n joining).3 in
    let free = alive_not_joining n.table.local_id (heard before key rs n).table id up in
    let (acknowledged, shown, gone) =
      lost now later key value ttl_ms (heard before key rs n) n2 reply marked free h in
    (up, acknowledged, shown, gone)

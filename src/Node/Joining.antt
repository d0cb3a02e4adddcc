-- ===== src/Node/Joining.antt =====
-- A node while it joins: what the handlers of crates/node/src/grpc/service.rs do, and the tombstones
-- of crates/node/src/rebalance/mod.rs, with the tasks of the node interleaved.
use self_healing_distributed.Prelude.{
  ℕ, ◌≡◌, refl, true, Option, none, some, List, [], ◌∷◌, arith, Option-cases, inl, inr,
}
use self_healing_distributed.Prelude.Map
use self_healing_distributed.Prelude.Map.{Map, get-insert, get-remove, get-insert_self}
use self_healing_distributed.Types.{NodeId, Bytes, Bytes-discrete, Instant, UuidText}
use self_healing_distributed.Cache.Store
use self_healing_distributed.Cache.Store.{CacheStore, TransferEntry, lookup}
use self_healing_distributed.Gossip.Table.{RemoteEntry, merge, is_self_joining}
use self_healing_distributed.Ring.HashRing.{HashRing}
use self_healing_distributed.Rpc.{err, unavailable}
use self_healing_distributed.Node.Service
use self_healing_distributed.Node.Service.{NodeState}
use self_healing_distributed.Node.Rebalancer.{take_chunk, apply_tombstones, finish}

-- While the node joins, `Set` and `Delete` answer `unavailable`; `Set` changes nothing, and `Delete`
-- removes the key and remembers it among the tombstones.
pub joining_rejects :
    (now : Instant) (key value : Bytes) (ttl_ms : Option ℕ) (n : NodeState)
    → is_self_joining n.table ≡ true
    → (Service.set now key value ttl_ms n ≡ some (n, err unavailable))
      × ((Service.delete key n).1 ≡ err unavailable)
      × (lookup (Service.delete key n).0.store key ≡ none)
      × (Map.get Bytes-discrete key (Service.delete key n).0.tombstones ≡ some tt)
unfolding Service.set Service.delete Store.delete
joining_rejects now key value ttl_ms n joining = (
  ground arith,
  ground arith,
  ground (arith, get-remove Bytes-discrete key key n.store.data_map),
  ground (arith, get-insert_self Bytes-discrete key tt n.tombstones),
)

-- A step of one of the tasks of a joining node: a chunk that the rebalance takes in, a request, a
-- message of gossip, or the sweep of expired entries.
pub data Event : Type 0 where
  chunk : Instant → TransferEntry → Event
  set : Instant → Bytes → Bytes → Option ℕ → Event
  replicate_write : Instant → Bytes → Bytes → Option ℕ → Event
  get : Instant → Bytes → Event
  delete : Bytes → Event
  gossip : Instant → List RemoteEntry → Event
  sweep : Instant → Event

abbrev state_of {ℓ} : {A : Type ℓ} → Option (NodeState × A) → Option NodeState
state_of none = none
state_of (some (n, _)) = some n

abbrev with_store : NodeState → Option CacheStore → Option NodeState
with_store n none = none
with_store n (some s) = some (record n { store = s })

module _ (xxh3_64 : Bytes → ℕ) (uuid : UuidText) (local : NodeId) (ring : HashRing) where
  -- `none` is a panic.
  unfoldable pub step : Event → NodeState → Option NodeState
  step (chunk now c) n = with_store n (take_chunk xxh3_64 uuid local ring now c n.store)
  step (set now key value ttl_ms) n = state_of (Service.set now key value ttl_ms n)
  step (replicate_write now key value ttl_ms) n =
      state_of (Service.replicate_write now key value ttl_ms n)
  step (get now key) n = some (Service.get now key n).0
  step (delete key) n = some (Service.delete key n).0
  step (gossip now rs) n = some (record n { table = merge now rs n.table })
  step (sweep now) n = some (record n { store = Store.sweep now n.store })

  unfoldable pub run : List Event → NodeState → Option NodeState
  unfolding step
  run [] n = some n
  run (e ∷ es) n = elim (step e n) [ none ↦ none | some n' ↦ run es n' ]

  -- No step takes a tombstone away.
  step-tombstone :
      (e : Event) (n n' : NodeState) (key : Bytes)
      → Map.get Bytes-discrete key n.tombstones ≡ some tt
      → step e n ≡ some n'
      → Map.get Bytes-discrete key n'.tombstones ≡ some tt
  unfolding step Service.set Service.replicate_write Service.get Service.delete
  step-tombstone (delete k) n n' key h s =
      ground (arith, get-insert Bytes-discrete k key tt n.tombstones)
  step-tombstone e n n' key h s = ground arith

  run-tombstone :
      (es : List Event) (n n' : NodeState) (key : Bytes)
      → Map.get Bytes-discrete key n.tombstones ≡ some tt
      → run es n ≡ some n'
      → Map.get Bytes-discrete key n'.tombstones ≡ some tt
  unfolding run
  run-tombstone [] n n' key h r = ground arith
  run-tombstone (e ∷ es) n n' key h r = elim (Option-cases (step e n)) [
    | inl panics ↦ ground arith
    | inr (m, s) ↦ run-tombstone es m n' key (step-tombstone e n m key h s) (ground arith)
  ]

-- The tombstones remove exactly the keys that they name.
pub lookup-apply_tombstones :
    (m : Map Bytes (Unit {0})) (s : CacheStore) (key : Bytes)
    → lookup (apply_tombstones m s) key
      ≡ elim (Map.get Bytes-discrete key m) [ none ↦ lookup s key | some _ ↦ none ]
unfolding apply_tombstones Map.get Store.delete
lookup-apply_tombstones [] s key = refl
lookup-apply_tombstones ((k, u) ∷ m) s key = ground (
  arith,
  lookup-apply_tombstones m (Store.delete k s).0 key,
  get-remove Bytes-discrete k key s.data_map,
)

-- A key that is deleted while the node joins does not come back: whatever chunks, requests, messages
-- and sweeps follow, the key has no entry when the rebalance has ended.
pub deleted_stays_deleted :
    (xxh3_64 : Bytes → ℕ) (uuid : UuidText) (local : NodeId) (ring : HashRing) (es : List Event)
    (n n' : NodeState) (key : Bytes)
    → is_self_joining n.table ≡ true
    → run xxh3_64 uuid local ring es (Service.delete key n).0 ≡ some n'
    → lookup (finish n').store key ≡ none
unfolding finish
deleted_stays_deleted xxh3_64 uuid local ring es n n' key joining r =
    let marked = (joining_rejects 0 key [] none n joining).3 in
    let kept = run-tombstone xxh3_64 uuid local ring es (Service.delete key n).0 n' key marked r in
    ground (arith, lookup-apply_tombstones n'.tombstones n'.store key)

-- ===== src/Node/Rebalancer.antt =====
-- `Rebalancer` of crates/node/src/rebalance/mod.rs. The network answers a call of `transfer_keys`
-- with nothing (no connection, or the call fails) or with a stream of chunks, each of which may be an
-- error. Where the source panics, the result is `none`.
use self_healing_distributed.Prelude.{
  ℕ, ◌+◌, Bool, false, Option, none, some, List, [], ◌∷◌, map, ◌==◌, if◌then◌else◌,
}
use self_healing_distributed.Prelude.Map.{Map}
use self_healing_distributed.Types.{NodeId, NodeInfo, Bytes, Instant, UuidText}
use self_healing_distributed.Cache.Store.{CacheStore, TransferEntry, set_from_transfer}
use self_healing_distributed.Cache.Store
use self_healing_distributed.Gossip.Table.{
  MembershipTable, routable_peers, local_addr, mark_self_alive,
}
use self_healing_distributed.Ring.HashRing as Ring
use self_healing_distributed.Ring.HashRing.{HashRing, add_node, get_node}
use self_healing_distributed.Node.Service.{NodeState}

-- What `transfer_keys` at an address answers: each chunk comes with the instant at which it is taken
-- in.
abbrev pub Stream : Type 0
Stream = Option (List (Option (Instant × TransferEntry)))

-- The number of keys that were pulled, if no error came.
abbrev pub Pulled : Type 0
Pulled = CacheStore × Option ℕ

module _ (xxh3_64 : Bytes → ℕ) (uuid : UuidText) where
  abbrev is_owner : NodeId → Option NodeInfo → Bool
  is_owner local none = false
  is_owner local (some owner) = owner.id == local

  -- The keys that are accepted: those that the ring assigns to this node.
  unfoldable pub accepts : NodeId → HashRing → Bytes → Bool
  accepts local ring key = is_owner local (get_node xxh3_64 uuid key ring)

  -- The body of the loop of `pull_keys_from` for a chunk.
  unfoldable pub take_chunk :
      NodeId → HashRing → Instant → TransferEntry → CacheStore → Option CacheStore
  unfolding accepts
  take_chunk local ring now chunk s =
      if accepts local ring chunk.key
      then set_from_transfer now chunk.key chunk.value chunk.expires_at_ms s
      else some s

  -- The loop of `pull_keys_from`, with the count so far.
  unfoldable pub pull_chunks :
      NodeId → HashRing → List (Option (Instant × TransferEntry)) → ℕ → CacheStore → Option Pulled
  unfolding take_chunk
  pull_chunks local ring [] count s = some (s, some count)
  pull_chunks local ring (none ∷ chunks) count s = some (s, none)
  pull_chunks local ring (some (now, chunk) ∷ chunks) count s =
      elim (take_chunk local ring now chunk s) [
        | none ↦ none
        | some s' ↦
            pull_chunks local ring chunks
              (if accepts local ring chunk.key then count + 1 else count) s'
      ]

  unfoldable pub pull_keys_from : NodeId → HashRing → Stream → CacheStore → Option Pulled
  unfolding pull_chunks
  pull_keys_from local ring none s = some (s, none)
  pull_keys_from local ring (some chunks) s = pull_chunks local ring chunks 0 s

  -- The loop of `rebalance` over the peers: an error of one peer is logged and passed over.
  unfoldable pub rebalance :
      NodeId
      → HashRing
      → (Bytes → Stream)
      → List NodeInfo
      → ℕ
      → CacheStore
      → Option (CacheStore × ℕ)
  unfolding pull_keys_from
  rebalance local ring transfer [] total s = some (s, total)
  rebalance local ring transfer (peer ∷ peers) total s =
      if peer.id == local
      then rebalance local ring transfer peers total s
      else elim (pull_keys_from local ring (transfer peer.addr) s) [
        | none ↦ none
        | some (s', none) ↦ rebalance local ring transfer peers total s'
        | some (s', some n) ↦ rebalance local ring transfer peers (total + n) s'
      ]

  unfoldable pub add_nodes : List NodeInfo → HashRing → HashRing
  add_nodes [] r = r
  add_nodes (n ∷ ns) r = add_nodes ns (add_node xxh3_64 uuid n r)

  -- The ring that `wait_and_rebalance` builds: this node, and the peers that can be routed to.
  unfoldable pub join_ring : NodeId → MembershipTable → HashRing
  unfolding add_nodes Ring.new
  join_ring local t =
      add_nodes (map (λ e. e.info) (routable_peers t))
        (add_node xxh3_64 uuid (record { id = local; addr = local_addr t }) Ring.new)

-- The loop over the tombstones.
unfoldable pub apply_tombstones : Map Bytes (Unit {0}) → CacheStore → CacheStore
apply_tombstones [] s = s
apply_tombstones ((key, _) ∷ m) s = apply_tombstones m (Store.delete key s).0

-- The end of `wait_and_rebalance`, with no other task of the node in between.
unfoldable pub finish : NodeState → NodeState
unfolding apply_tombstones
finish n = record n {
  store = apply_tombstones n.tombstones n.store;
  table = mark_self_alive n.table;
}

-- What a poll of `wait_and_rebalance` comes to.
pub data Polled : Type 0 where
  no_peers panicked : Polled
  rebalanced : NodeState → ℕ → Polled

module _ (xxh3_64 : Bytes → ℕ) (uuid : UuidText) where
  abbrev pub finished : NodeState → Option (CacheStore × ℕ) → Polled
  finished n none = panicked
  finished n (some (s, total)) = rebalanced (finish (record n { store = s })) total

  -- `wait_and_rebalance` from a poll on, in which the table was `polled`: after `no_peers` the node
  -- sleeps and polls again. The peers are read a second time, when the node is in the state `n`. From
  -- then on no other task of the node runs here; Node/Joining.antt has the interleavings.
  unfoldable pub wait_and_rebalance :
      NodeId → (Bytes → Stream) → MembershipTable → NodeState → Polled
  wait_and_rebalance local transfer polled n = elim (routable_peers polled) [
    | [] ↦ no_peers
    | _ ∷ _ ↦ finished n (
        rebalance xxh3_64 uuid local (join_ring xxh3_64 uuid local n.table) transfer
          (map (λ e. e.info) (routable_peers n.table)) 0 n.store)
  ]

-- ===== src/Ring/HashRing.antt =====
-- `HashRing` of crates/common/src/hashring.rs. The `BTreeMap` is the list of its entries in the order
-- of their positions. The hash function xxh3_64 is a parameter.
use self_healing_distributed.Prelude.{
  ℕ, zero, suc, Bool, true, false, not, Option, none, some, List, [], ◌∷◌, ◌++◌, keep, find, any,
  length, ltb, leb, ◌==◌, if◌then◌else◌,
}
use self_healing_distributed.Types.{NodeId, NodeInfo, Bytes, UuidText}
use self_healing_distributed.Decimal.{to_decimal}

abbrev pub default_vnode_count : ℕ
default_vnode_count = 150

pub record HashRing : Type 0 where
  pub ring : List (ℕ × NodeId)
  pub nodes : List NodeInfo
  pub vnode_count : ℕ

unfoldable pub new : HashRing
new = record { ring = []; nodes = []; vnode_count = default_vnode_count }

unfoldable pub with_vnode_count : ℕ → HashRing
with_vnode_count n = record { ring = []; nodes = []; vnode_count = n }

-- `BTreeMap::insert`.
unfoldable pub insert_at : ℕ → NodeId → List (ℕ × NodeId) → List (ℕ × NodeId)
insert_at p id [] = (p, id) ∷ []
insert_at p id ((q, x) ∷ ring) =
    let rest = insert_at p id ring in
    if ltb p q then (p, id) ∷ (q, x) ∷ ring else if p == q then (p, id) ∷ ring else (q, x) ∷ rest

-- `range(hash..).next()`.
abbrev pub at_or_after : ℕ → List (ℕ × NodeId) → Option (ℕ × NodeId)
at_or_after hash = find (λ e. leb hash e.0)

abbrev pub first : List (ℕ × NodeId) → Option (ℕ × NodeId)
first [] = none
first (e ∷ ring) = some e

-- The position that answers for a hash: the first at or after it, or else the first of all.
abbrev pub or_first : List (ℕ × NodeId) → Option (ℕ × NodeId) → Option (ℕ × NodeId)
or_first ring none = first ring
or_first ring (some e) = some e

unfoldable pub successor : ℕ → List (ℕ × NodeId) → Option (ℕ × NodeId)
successor hash ring = or_first ring (at_or_after hash ring)

-- `nodes.iter().find(|n| n.id == id)`.
abbrev pub node_of : List NodeInfo → NodeId → Option NodeInfo
node_of nodes id = find (λ n. n.id == id) nodes

abbrev pub node_at : List NodeInfo → Option (ℕ × NodeId) → Option NodeInfo
node_at nodes none = none
node_at nodes (some e) = node_of nodes e.1

unfoldable pub remove_node : NodeId → HashRing → HashRing
remove_node id r = record r {
  ring = keep (λ e. not (e.1 == id)) r.ring;
  nodes = keep (λ n. not (n.id == id)) r.nodes;
}

abbrev pub nodes : HashRing → List NodeInfo
nodes r = r.nodes

unfoldable pub contains_node : NodeId → HashRing → Bool
contains_node id r = any (λ n. n.id == id) r.nodes

-- `HashSet::insert` finds the identity there already.
abbrev pub seen_before : NodeId → List NodeId → Bool
seen_before id = any (λ x. x == id)

abbrev pub push_node : List NodeInfo → Option NodeInfo → List NodeInfo
push_node result none = result
push_node result (some n) = result ++ n ∷ []

-- The loop of `get_preference_list` over the rest of its iterator.
unfoldable pub walk :
    ℕ → List NodeInfo → List (ℕ × NodeId) → List NodeId → List NodeInfo → List NodeInfo
walk count nodes [] seen result = result
walk count nodes ((_, id) ∷ iter) seen result = elim (seen_before id seen) [
  | true ↦ walk count nodes iter seen result
  | false ↦
      let result' = push_node result (node_of nodes id) in
      elim (leb count (length result')) [
        | true ↦ result'
        | false ↦ walk count nodes iter (id ∷ seen) result'
      ]
]

module _ (xxh3_64 : Bytes → ℕ) (uuid : UuidText) where
  unfoldable pub hash_key : Bytes → ℕ
  hash_key key = xxh3_64 key

  -- `format!("{}-{}", node_id, vnode_index)`.
  unfoldable pub hash_vnode : NodeId → ℕ → ℕ
  unfolding to_decimal
  hash_vnode id i = xxh3_64 (uuid.to_string id ++ (b'-' ∷ to_decimal i))

  -- The loop of `add_node`: `n` rounds from index `i`.
  unfoldable pub add_vnodes : NodeId → ℕ → ℕ → List (ℕ × NodeId) → List (ℕ × NodeId)
  unfolding insert_at hash_vnode
  add_vnodes id i zero ring = ring
  add_vnodes id i (suc n) ring = add_vnodes id (suc i) n (insert_at (hash_vnode id i) id ring)

  unfoldable pub add_node : NodeInfo → HashRing → HashRing
  unfolding add_vnodes
  add_node info r = record r {
    ring = add_vnodes info.id 0 r.vnode_count r.ring;
    nodes = r.nodes ++ info ∷ [];
  }

  unfoldable pub get_node : Bytes → HashRing → Option NodeInfo
  unfolding hash_key
  get_node key r = node_at r.nodes (successor (hash_key key) r.ring)

  unfoldable pub get_preference_list : Bytes → ℕ → HashRing → List NodeInfo
  unfolding walk hash_key
  get_preference_list key count r =
      walk count r.nodes (keep (λ e. leb (hash_key key) e.0) r.ring ++ r.ring) [] []

-- ===== src/Tests/Ring.antt =====
-- The theorems on the hash ring at a ring of two nodes with two positions each.
use self_healing_distributed.Prelude.{
  ℕ, ◌≡◌, ◌≤◌, ◌⊎◌, refl, true, some, arith, any, length, max, All, ◌==◌, ◌&&◌,
}
use self_healing_distributed.Types.{NodeInfo}
use self_healing_distributed.Ring.HashRing
use self_healing_distributed.Ring.HashRing.{
  get_node, get_preference_list, add_node, remove_node, hash_key, node_of, seen_before,
}
use self_healing_distributed.Ring.Ownership
use self_healing_distributed.Ring.Nearest
use self_healing_distributed.Ring.Nearest.{Nearest}
use self_healing_distributed.Ring.Preference
use self_healing_distributed.Ring.Walk.{ids, Distinct}
use self_healing_distributed.Ring.Preference.{first_node}
use self_healing_distributed.Tests.Data.{
  hash, hash-bounded, uuid_text, ring2, ring2-IsValid, key, node1, node3,
}

get_node-remove_node_example : get_node hash uuid_text key (remove_node 2 ring2) ≡ some node1
unfolding get_node add_node remove_node get_preference_list HashRing.with_vnode_count
    HashRing.successor
get_node-remove_node_example =
    Ownership.get_node-remove_node hash uuid_text key 2 ring2 node1 refl (λ h. ground arith)

get_node-add_node_example : (node1.id ≡ node3.id) ⊎ (get_node hash uuid_text key ring2 ≡ some node1)
unfolding get_node add_node remove_node get_preference_list HashRing.with_vnode_count
    HashRing.successor
get_node-add_node_example = Ownership.get_node-add_node hash uuid_text key node3 ring2 node1 refl

get_node-Nearest_example :
    (n : NodeInfo) × (p : ℕ) × (get_node hash uuid_text key ring2 ≡ some n)
    × (any (λ e. (e.0 == p) && (e.1 == n.id)) ring2.ring ≡ true)
    × Nearest (hash_key hash uuid_text key) p ring2.ring
unfolding get_node add_node remove_node get_preference_list HashRing.with_vnode_count
    HashRing.successor
get_node-Nearest_example =
    Nearest.get_node-Nearest hash hash-bounded uuid_text key ring2 ring2-IsValid (λ h. ground arith)

preference_list-Distinct_example :
    let out = get_preference_list hash uuid_text key 2 ring2 in
    Distinct (ids out) × All (λ n. node_of ring2.nodes n.id ≡ some n) out × (length out ≤ max 1 2)
preference_list-Distinct_example =
    Preference.preference_list-Distinct hash uuid_text key 2 ring2 ring2-IsValid

preference_list_complete_example :
    seen_before 2 (ids (get_preference_list hash uuid_text key 3 ring2)) ≡ true
unfolding get_node add_node remove_node get_preference_list HashRing.with_vnode_count
    HashRing.successor
preference_list_complete_example =
    Preference.preference_list_complete hash uuid_text key 3 ring2 ring2-IsValid 2 (omega arith)
      refl

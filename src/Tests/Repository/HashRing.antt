-- ===== src/Tests/Repository/HashRing.antt =====
-- The unit tests of crates/common/src/hashring.rs that no hash function can fail: for every hash
-- function and every node.
use self_healing_distributed.Prelude.{ℕ, ◌≡◌, refl, true, false, none, arith}
use self_healing_distributed.Types.{NodeInfo, Bytes, UuidText, codes}
use self_healing_distributed.Ring.HashRing
use self_healing_distributed.Ring.HashRing.{new, add_node, remove_node, contains_node, get_node}

abbrev TestRemoveNode : (Bytes → ℕ) → UuidText → NodeInfo → Type 0
TestRemoveNode xxh3_64 uuid node =
    let r = add_node xxh3_64 uuid node new in
    (contains_node node.id r ≡ true) × (contains_node node.id (remove_node node.id r) ≡ false)

abbrev TestEmptyRing : (Bytes → ℕ) → UuidText → Type 0
TestEmptyRing xxh3_64 uuid = get_node xxh3_64 uuid (codes "any-key") new ≡ none

ring_tests_pass :
    (xxh3_64 : Bytes → ℕ) (uuid : UuidText) (node : NodeInfo)
    → TestRemoveNode xxh3_64 uuid node × TestEmptyRing xxh3_64 uuid
unfolding new add_node remove_node contains_node get_node HashRing.successor
ring_tests_pass xxh3_64 uuid node = (ground arith, refl)

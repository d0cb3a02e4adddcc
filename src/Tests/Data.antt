-- ===== src/Tests/Data.antt =====
-- Concrete nodes, tables, rings and stores for the tests. An identity is written as one byte, and the
-- hash of a key is the sum of its bytes.
use self_healing_distributed.Prelude.Map
use self_healing_distributed.Prelude.{
  ℕ, ℕ_discrete, ◌+◌, ◌%◌, ◌^◌, ◌<◌, refl, Option, none, some, [], ◌∷◌, arith,
}
use self_healing_distributed.Types.{NodeId, NodeInfo, Bytes, Instant, UuidText}
use self_healing_distributed.Gossip.Table.{
  MemberStatus, alive, suspect, joining, MemberEntry, MembershipTable,
}
use self_healing_distributed.Gossip.Valid.{IsValid}
use self_healing_distributed.Ring.HashRing.{HashRing, add_node, with_vnode_count}
use self_healing_distributed.Ring.Valid
use self_healing_distributed.Cache.Store.{CacheEntry, CacheStore}
use self_healing_distributed.Node.Service.{NodeState}

abbrev parse_str : Bytes → Option NodeId
parse_str [] = none
parse_str (x ∷ []) = some x
parse_str (x ∷ y ∷ xs) = none

abbrev pub uuid_text : UuidText
uuid_text = record {
  to_string = λ id. id ∷ [];
  parse_str = parse_str;
  parse_str-to_string = λ id. refl;
}

abbrev sum : Bytes → ℕ
sum [] = 0
sum (x ∷ xs) = x + sum xs

abbrev pub hash : Bytes → ℕ
hash b = sum b % 2 ^ 64

pub hash-bounded : (b : Bytes) → hash b < 2 ^ 64
hash-bounded b = omega arith

abbrev pub addr1 : Bytes
addr1 = b'1' ∷ []

abbrev pub addr2 : Bytes
addr2 = b'2' ∷ []

abbrev pub node1 : NodeInfo
node1 = record { id = 1; addr = addr1 }

abbrev pub node2 : NodeInfo
node2 = record { id = 2; addr = addr2 }

abbrev pub node3 : NodeInfo
node3 = record { id = 3; addr = b'3' ∷ [] }

abbrev pub member : NodeInfo → MemberStatus → ℕ → Instant → MemberEntry
member info status incarnation last_seen = record {
  info = info;
  status = status;
  incarnation = incarnation;
  last_seen = last_seen;
}

-- Node 1 knows node 3 as alive; node 2 knows it as suspect.
abbrev pub table1 : MembershipTable
table1 = record {
  members = (1, member node1 alive 4 0) ∷ (3, member node3 alive 7 0) ∷ [];
  local_id = 1;
}

abbrev pub table2 : MembershipTable
table2 = record {
  members = (2, member node2 joining 0 0) ∷ (3, member node3 suspect 7 0) ∷ [];
  local_id = 2;
}

-- Node 1 knows node 2 as joining.
abbrev pub table3 : MembershipTable
table3 = record {
  members = (1, member node1 alive 4 0) ∷ (2, member node2 joining 0 0) ∷ [];
  local_id = 1;
}

pub table1-IsValid : IsValid table1
unfolding Map.get ℕ_discrete
table1-IsValid = record {
  unique = (refl, (refl, tt));
  keyed = (refl, (refl, tt));
  has_local = λ h. ground arith;
}

pub table2-IsValid : IsValid table2
unfolding Map.get ℕ_discrete
table2-IsValid = record {
  unique = (refl, (refl, tt));
  keyed = (refl, (refl, tt));
  has_local = λ h. ground arith;
}

pub table3-IsValid : IsValid table3
unfolding Map.get ℕ_discrete
table3-IsValid = record {
  unique = (refl, (refl, tt));
  keyed = (refl, (refl, tt));
  has_local = λ h. ground arith;
}

abbrev pub ring2 : HashRing
ring2 = add_node hash uuid_text node2 (add_node hash uuid_text node1 (with_vnode_count 2))

pub ring2-IsValid : Valid.IsValid ring2
ring2-IsValid =
    Valid.add_node-IsValid hash hash-bounded uuid_text node2 _ (
      Valid.add_node-IsValid hash hash-bounded uuid_text node1 _ (Valid.with_vnode_count-IsValid 2))

abbrev pub key : Bytes
key = b'k' ∷ []

abbrev pub value : Bytes
value = b'v' ∷ []

-- The key has expired at the instant 5.
abbrev pub old_entry : CacheEntry
old_entry = record { value = value; expires_at = some 5 }

abbrev pub old_store : CacheStore
old_store = record { data_map = (key, old_entry) ∷ []; epoch = 0 }

abbrev pub joining_node : NodeState
joining_node = record { store = old_store; table = table2; tombstones = [] }

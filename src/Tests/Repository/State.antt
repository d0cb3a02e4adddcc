-- ===== src/Tests/Repository/State.antt =====
-- The unit tests of crates/node/src/gossip/state.rs. An identity is a number, an address the last
-- digit of its port. All calls are made at the instant 0, since no test looks at a time.
use self_healing_distributed.Prelude.{ℕ, ℕ_discrete, ◌≡◌, refl, true, false, List, [], ◌∷◌, length}
use self_healing_distributed.Prelude.Map
use self_healing_distributed.Types.{NodeId, NodeInfo, Bytes}
use self_healing_distributed.Gossip.Table
use self_healing_distributed.Gossip.Table.{
  MemberStatus, joining, alive, suspect, dead, MemberEntry, MembershipTable, RemoteEntry,
  alive_peers, routable_peers, all_members, mark_suspect, mark_dead, dead_nodes, is_alive,
  local_incarnation, mark_self_alive, is_self_joining,
}

abbrev addr : ℕ → Bytes
addr n = n ∷ []

abbrev info : NodeId → NodeInfo
info id = record { id = id; addr = addr id }

abbrev new : NodeId → List NodeInfo → MembershipTable
new id seeds = Table.new id seeds 0

abbrev merge : List RemoteEntry → MembershipTable → MembershipTable
merge entries t = Table.merge 0 entries t

abbrev remote : NodeId → MemberStatus → ℕ → RemoteEntry
remote id status incarnation = record {
  id = id;
  addr = addr id;
  status = status;
  incarnation = incarnation;
}

-- The table of node 1 with the seeds 1 and 2, as most tests begin.
abbrev pair : MembershipTable
pair = new 1 (info 1 ∷ info 2 ∷ [])

abbrev TestMembershipInitial : Type 0
TestMembershipInitial =
    (is_self_joining pair ≡ true)
    × (is_alive 2 pair ≡ true)
    × (length (alive_peers pair) ≡ 1)
    × (length (all_members pair) ≡ 2)

abbrev TestMarkSuspect : Type 0
TestMarkSuspect =
    let (t, marked) = mark_suspect 2 pair in
    (marked ≡ true) × (is_alive 2 t ≡ false) × ((mark_suspect 2 t).1 ≡ false)

abbrev TestMarkDead : Type 0
TestMarkDead =
    let (t, marked) = mark_dead 2 pair in
    (marked ≡ true)
    × (is_alive 2 t ≡ false)
    × (length (dead_nodes t) ≡ 1)
    × ((mark_dead 2 t).1 ≡ false)

abbrev TestRefutation : Type 0
TestRefutation =
    let t = merge (remote 1 suspect 0 ∷ []) pair in
    let t' = merge (remote 1 dead 1 ∷ []) t in
    (is_alive 1 t ≡ true)
    × (local_incarnation t ≡ 1)
    × (is_alive 1 t' ≡ true)
    × (local_incarnation t' ≡ 2)

abbrev TestMergeHigherIncarnation : Type 0
TestMergeHigherIncarnation =
    let t = merge (remote 2 dead 5 ∷ []) pair in
    (is_alive 2 t ≡ false) × (length (dead_nodes t) ≡ 1)

abbrev TestMergeDeadWins : Type 0
TestMergeDeadWins =
    let t = merge (remote 2 dead 0 ∷ []) pair in
    let t2 = merge (remote 4 suspect 0 ∷ []) (new 3 (info 3 ∷ info 4 ∷ [])) in
    (is_alive 2 t ≡ false)
    × (length (dead_nodes t) ≡ 1)
    × (is_alive 4 t2 ≡ false)
    × (length (dead_nodes t2) ≡ 0)

abbrev TestMergeJoiningPrecedence : Type 0
TestMergeJoiningPrecedence =
    let t = merge (remote 2 alive 0 ∷ []) (merge (remote 2 joining 0 ∷ []) (new 1 (info 1 ∷ []))) in
    let t2 = merge (remote 3 dead 0 ∷ []) (merge (remote 3 joining 0 ∷ []) t) in
    let t3 = merge (remote 4 suspect 0 ∷ []) (merge (remote 4 joining 0 ∷ []) t2) in
    (is_alive 2 t ≡ true) × (length (dead_nodes t2) ≡ 1) × (is_alive 4 t3 ≡ false)

abbrev ids : List MemberEntry → List NodeId
ids [] = []
ids (e ∷ es) = e.info.id ∷ ids es

abbrev TestRoutablePeersExcludesJoining : Type 0
TestRoutablePeersExcludesJoining =
    let t = merge (remote 2 alive 0 ∷ remote 3 joining 0 ∷ []) (new 1 (info 1 ∷ [])) in
    (length (alive_peers t) ≡ 2) × (ids (routable_peers t) ≡ 2 ∷ [])

abbrev TestJoiningNodeStartup : Type 0
TestJoiningNodeStartup =
    let t = new 1 (info 2 ∷ []) in
    let t' = mark_self_alive t in
    (is_self_joining t ≡ true)
    × (is_self_joining t' ≡ false)
    × (is_alive 1 t' ≡ true)
    × (local_incarnation t' ≡ 1)

abbrev TestStandaloneNodeStartup : Type 0
TestStandaloneNodeStartup = (is_self_joining (new 1 []) ≡ false) × (is_alive 1 (new 1 []) ≡ true)

state_tests_pass :
    (TestMembershipInitial × TestMarkSuspect × TestMarkDead × TestRefutation)
    × (TestMergeHigherIncarnation × TestMergeDeadWins × TestMergeJoiningPrecedence)
    × (TestRoutablePeersExcludesJoining × TestJoiningNodeStartup)
    × TestStandaloneNodeStartup
unfolding Table.new Table.merge alive_peers routable_peers mark_suspect mark_dead dead_nodes
    is_alive local_incarnation mark_self_alive is_self_joining Table.should_update Map.get
    Map.insert ℕ_discrete
state_tests_pass = (
  (
    (refl, refl, refl, refl),
    (refl, refl, refl),
    (refl, refl, refl, refl),
    (refl, refl, refl, refl),
  ),
  ((refl, refl), (refl, refl, refl, refl), (refl, refl, refl)),
  ((refl, refl), (refl, refl, refl, refl)),
  (refl, refl),
)

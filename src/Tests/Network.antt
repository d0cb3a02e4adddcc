-- ===== src/Tests/Network.antt =====
-- The theorems on a cluster at two nodes.
use self_healing_distributed.Prelude.{ℕ, ◌+◌, ◌≤◌, refl, List, [], ◌∷◌, arith, ◌≡◌, All}
use self_healing_distributed.Types.{NodeId, NodeInfo}
use self_healing_distributed.Gossip.Table
use self_healing_distributed.Gossip.Table.{new, alive}
use self_healing_distributed.Gossip.Exchange.{GossipMessage, build_gossip_message, gossip_exchange}
use self_healing_distributed.Gossip.Network.{Network, put, post, start, next, send, answer, joined}
use self_healing_distributed.Gossip.Known.{known}
use self_healing_distributed.Gossip.View.{view}
use self_healing_distributed.Gossip.Incarnation
use self_healing_distributed.Gossip.Spread
use self_healing_distributed.Gossip.Spread.{Visit, tour, newest}
use self_healing_distributed.Tests.Data.{
  uuid_text, node1, node2, member, table1, table2, table1-IsValid, table2-IsValid,
}

-- Every node has the seed 1.
abbrev seeds : NodeId → List NodeInfo
seeds i = node1 ∷ []

abbrev started : Network
started = record { table = λ i. new i (seeds i) 0; sent = [] }

-- Node 2 has ended its rebalance, and sends its table.
abbrev settled : Network
settled = put 2 (Table.mark_self_alive (started.table 2)) started

abbrev message : GossipMessage
message = build_gossip_message uuid_text 5 (settled.table 2)

abbrev told : Network
told = post message settled

abbrev fresh : ℕ → NodeId
fresh k = 10 + k

-- Node 1 answers it.
abbrev answered : Network
answered =
    post (gossip_exchange uuid_text fresh 6 message (told.table 1)).1
      (put 1 (gossip_exchange uuid_text fresh 6 message (told.table 1)).0 told)

own_incarnation_highest_example : known (answered.table 1) 2 ≤ known (answered.table 2) 2
own_incarnation_highest_example =
    Incarnation.own_incarnation_highest uuid_text 3 answered 1 2
      (next (next (next (start seeds (λ i. 0)) (joined started 2)) (send settled 2 5))
        (answer told 1 6 fresh 0 message refl))
      (omega arith)

-- Node 1 exchanges gossip with node 2, twice; both know node 3.
abbrev visit : Visit
visit = record { now = 5; now' = 6; fresh = fresh; fresh' = fresh; target = member node2 alive 0 0 }

two_tours_agree_example :
    let (a1, bs1) = tour uuid_text (λ i. visit) 0 (table2 ∷ []) table1 in
    let (a2, bs2) = tour uuid_text (λ i. visit) 0 bs1 a1 in
    (view a2 3 ≡ newest uuid_text 3 (table2 ∷ []) (view table1 3))
    × All (λ b. view b 3 ≡ newest uuid_text 3 (table2 ∷ []) (view table1 3)) bs2
two_tours_agree_example =
    Spread.two_tours_agree uuid_text 3 (λ i. visit) (λ i. visit) (table2 ∷ []) table1
      (record { valid = table1-IsValid; third = λ e. ground arith })
      (record { valid = table2-IsValid; third = λ e. ground arith }, tt)

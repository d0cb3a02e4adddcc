-- ===== src/Tests/Gossip.antt =====
-- The theorems on gossip at concrete tables.
use self_healing_distributed.Prelude.{
  ℕ_discrete, ◌≡◌, ◌≤◌, ◌⊎◌, refl, some, [], ◌∷◌, arith, All, if◌then◌else◌, ◌==◌,
}
use self_healing_distributed.Prelude.Map
use self_healing_distributed.Types.{Bytes}
use self_healing_distributed.Gossip.Table.{
  MemberEntry, alive, suspect, dead, joining, RemoteEntry, lookup, merge, is_self_joining,
}
use self_healing_distributed.Gossip.Exchange.{
  GossipMessage, gossip_exchange, gossip_targets, build_gossip_message,
}
use self_healing_distributed.Gossip.View.{view, absorb_all, reports}
use self_healing_distributed.Gossip.Timeouts.{check_timeouts}
use self_healing_distributed.Gossip.Converge
use self_healing_distributed.Gossip.Converge.{report_of}
use self_healing_distributed.Gossip.Merge
use self_healing_distributed.Gossip.Table
use self_healing_distributed.Gossip.Refute
use self_healing_distributed.Gossip.Detect
use self_healing_distributed.Gossip.Detect.{overdue, sweeps}
use self_healing_distributed.Gossip.Valid
use self_healing_distributed.Gossip.Status.{as_suspect}
use self_healing_distributed.Tests.Data.{
  uuid_text, table1, table2, table3, table1-IsValid, table2-IsValid, table3-IsValid, node2, node3,
  member, addr2,
}

abbrev accusation : RemoteEntry
accusation = record { id = 2; addr = addr2; status = suspect; incarnation = 0 }

abbrev rumour : RemoteEntry
rumour = record { id = 3; addr = node3.addr; status = dead; incarnation = 7 }

exchange_agrees_example :
    let answer = λ (addr : Bytes) (msg : GossipMessage).
      some ((gossip_exchange uuid_text (λ i. i) 6 msg table2).1) in
    let a' = gossip_targets uuid_text answer (λ i. i) 5 (member node2 alive 0 0 ∷ []) table1 in
    let b' =
      (gossip_exchange uuid_text (λ i. i) 6 (build_gossip_message uuid_text 5 table1) table2).0 in
    (view a' 3 ≡ view b' 3) × (view b' 3 ≡ absorb_all (view table2 3) (report_of (view table1 3)))
exchange_agrees_example =
    Converge.exchange_agrees uuid_text (λ i. i) (λ i. i) 5 6 (member node2 alive 0 0) table1 table2
      3 table1-IsValid table2-IsValid (λ h. ground arith) (λ h. ground arith)

view-merge_example :
    view (merge 9 (rumour ∷ []) table1) 3 ≡ absorb_all (view table1 3) (reports 3 (rumour ∷ []))
view-merge_example = Merge.view-merge 9 (rumour ∷ []) table1 3 (λ h. ground arith)

merge_refutes_example :
    (l' : MemberEntry) × (lookup (merge 9 (accusation ∷ []) table2) 2 ≡ some l')
    × (0 ≤ l'.incarnation)
    × ((l'.status ≡ joining) ⊎ (l'.status ≡ alive))
    × All (Refute.Answers 2 l') (accusation ∷ [])
unfolding Map.get ℕ_discrete
merge_refutes_example =
    Refute.merge_refutes 9 (accusation ∷ []) table2 (member node2 joining 0 0) refl
      (omega arith, tt)

lookup-check_timeouts_example :
    lookup (check_timeouts 1 3000000001 table1) 3
    ≡ some (
        if 3 == 1
        then member node3 alive 7 0
        else record (member node3 alive 7 0) { status = overdue 3000000001 alive })
unfolding Map.get ℕ_discrete
lookup-check_timeouts_example =
    Detect.lookup-check_timeouts 1 3000000001 table1 3 (member node3 alive 7 0) table1-IsValid refl

joining_never_suspected_example :
    lookup (sweeps 1 (4000000000 ∷ 90000000000 ∷ []) table3) 2 ≡ some (member node2 joining 0 0)
unfolding Map.get ℕ_discrete
joining_never_suspected_example =
    Detect.joining_never_suspected 1 (4000000000 ∷ 90000000000 ∷ []) table3 2
      (member node2 joining 0 0) table3-IsValid refl refl

run-new-IsValid_example : Valid.IsValid (
    Valid.run
      (Valid.mark (as_suspect 2) ∷ Valid.check_timeouts 1 9000000000 ∷ [])
      (Table.new 1 (node2 ∷ node3 ∷ []) 0))
run-new-IsValid_example =
    Valid.run-new-IsValid 1 (node2 ∷ node3 ∷ []) 0
      (Valid.mark (as_suspect 2) ∷ Valid.check_timeouts 1 9000000000 ∷ [])

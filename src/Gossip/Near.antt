-- ===== src/Gossip/Near.antt =====
-- The incarnations that a table (crates/node/src/gossip/state.rs) knows, against a bound for each node.
use mathlib.Core.Path.{subst}
use self_healing_distributed.Prelude.{
  ℕ, ◌+◌, ◌^◌, ◌≤◌, ◌<◌, ◌≡◌, ◌≢◌, refl, sym, ◌∙◌, Option, none, some, List, [], ◌∷◌, arith,
  ℕ_discrete, ◌==◌, Bool-cases, Option-cases, inl, inr, All,
}
use self_healing_distributed.Prelude.Map.{get-insert}
use self_healing_distributed.Types.{NodeId, Instant, next_u64}
use self_healing_distributed.Gossip.Table.{
  alive, MembershipTable, MemberEntry, RemoteEntry, lookup, store, mark_self_alive, merge_entry,
  merge, refute, merge_peer,
}
use self_healing_distributed.Gossip.Merge.{local_id-merge_entry}
use self_healing_distributed.Gossip.Known.{known}

-- The incarnations against a bound for each node: at most the bound for the others, and at most one
-- more than it for the node of the table, whose own is not below it.
pub record IsNear (bound : NodeId → ℕ) (t : MembershipTable) : Type 0 where
  pub others : (j : NodeId) → j ≢ t.local_id → known t j ≤ bound j
  pub reached : bound t.local_id ≤ known t t.local_id
  pub near : known t t.local_id ≤ bound t.local_id + 1

pub IsNear-refl :
    (t : MembershipTable) (bound : NodeId → ℕ)
    → ((j : NodeId) → known t j ≤ bound j)
    → bound t.local_id ≡ known t t.local_id
    → IsNear bound t
IsNear-refl t bound below same = record {
  others = λ j other. below j;
  reached = omega arith;
  near = omega arith;
}

module _ (bound : NodeId → ℕ) where
  store_own-IsNear :
      (e : MemberEntry) (t : MembershipTable)
      → bound t.local_id ≤ e.incarnation
      → e.incarnation ≤ bound t.local_id + 1
      → IsNear bound t
      → IsNear bound (store t.local_id e t)
  store_own-IsNear e t low high n = record {
    others =
        λ j other. ground (arith, get-insert ℕ_discrete t.local_id j e t.members, n.others j other);
    reached = ground (arith, get-insert ℕ_discrete t.local_id t.local_id e t.members);
    near = ground (arith, get-insert ℕ_discrete t.local_id t.local_id e t.members);
  }

  store_other-IsNear :
      (id : NodeId) (e : MemberEntry) (t : MembershipTable)
      → id ≢ t.local_id
      → e.incarnation ≤ bound id
      → IsNear bound t
      → IsNear bound (store id e t)
  store_other-IsNear id e t foreign low n = record {
    others = λ j other. ground (arith, get-insert ℕ_discrete id j e t.members, n.others j other);
    reached = ground (arith, get-insert ℕ_discrete id t.local_id e t.members, n.reached);
    near = ground (arith, get-insert ℕ_discrete id t.local_id e t.members, n.near);
  }

  pub mark_self_alive-IsNear :
      (t : MembershipTable)
      → bound t.local_id + 1 < 2 ^ 64
      → bound t.local_id ≡ known t t.local_id
      → IsNear bound t
      → IsNear bound (mark_self_alive t)
  unfolding mark_self_alive
  mark_self_alive-IsNear t room same n = elim (Option-cases (lookup t t.local_id)) [
    | inl absent ↦ rw absent n
    | inr (e, found) ↦ rw found (
        store_own-IsNear (record e { incarnation = next_u64 e.incarnation; status = alive }) t
          (ground arith) (ground arith) n)
  ]

  refute-IsNear :
      (r : RemoteEntry) (t : MembershipTable) (o : Option MemberEntry)
      → lookup t t.local_id ≡ o
      → r.incarnation ≤ bound t.local_id
      → bound t.local_id + 1 < 2 ^ 64
      → IsNear bound t
      → IsNear bound (refute r t o)
  unfolding refute
  refute-IsNear r t none at low room n = n
  refute-IsNear r t (some l) at low room n = grind (
    arith,
    n.reached,
    n.near,
    store_own-IsNear (record l { incarnation = next_u64 r.incarnation; status = alive }) t,
  )

  merge_peer-IsNear :
      (now : Instant) (r : RemoteEntry) (t : MembershipTable) (o : Option MemberEntry)
      → r.id ≢ t.local_id
      → r.incarnation ≤ bound r.id
      → IsNear bound t
      → IsNear bound (merge_peer now r t o)
  unfolding merge_peer
  merge_peer-IsNear now r t none foreign low n = store_other-IsNear r.id _ t foreign low n
  merge_peer-IsNear now r t (some l) foreign low n = grind (arith, store_other-IsNear)

  merge_entry-IsNear :
      (now : Instant) (r : RemoteEntry) (t : MembershipTable)
      → r.incarnation ≤ bound r.id
      → bound t.local_id + 1 < 2 ^ 64
      → IsNear bound t
      → IsNear bound (merge_entry now r t)
  unfolding merge_entry
  merge_entry-IsNear now r t low room n = elim (Bool-cases (r.id == t.local_id)) [
    | inl own ↦
        let e : r.id ≡ t.local_id = ground arith in
        rw own (
          refute-IsNear r t (lookup t t.local_id) refl (subst (λ i. r.incarnation ≤ bound i) e low)
            room n)
    | inr other ↦ rw other (merge_peer-IsNear now r t (lookup t r.id) (λ e. ground arith) low n)
  ]

  -- A message that reports nothing above the bound.
  pub merge-IsNear :
      (now : Instant) (rs : List RemoteEntry) (t : MembershipTable)
      → All (λ r. r.incarnation ≤ bound r.id) rs
      → bound t.local_id + 1 < 2 ^ 64
      → IsNear bound t
      → IsNear bound (merge now rs t)
  unfolding merge
  merge-IsNear now [] t low room n = n
  merge-IsNear now (r ∷ rs) t (low, lows) room n =
      merge-IsNear now rs (merge_entry now r t) lows (rw (local_id-merge_entry now r t) room)
        (merge_entry-IsNear now r t low room n)

pub same-IsNear :
    (bound : NodeId → ℕ) (t t' : MembershipTable)
    → t'.local_id ≡ t.local_id
    → ((j : NodeId) → known t' j ≡ known t j)
    → IsNear bound t
    → IsNear bound t'
same-IsNear bound t t' local same n = record {
  others = λ j other. omega (arith, same j, n.others j (λ e. other (e ∙ sym local)));
  reached =
      subst (λ i. bound i ≤ known t' i) (sym local) (omega (arith, same t.local_id, n.reached));
  near = subst (λ i. known t' i ≤ bound i + 1) (sym local) (omega (arith, same t.local_id, n.near));
}

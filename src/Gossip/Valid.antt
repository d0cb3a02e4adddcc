-- ===== src/Gossip/Valid.antt =====
-- The well-formedness of a `MembershipTable`, kept by every method of
-- crates/node/src/gossip/state.rs and by the timeouts and messages that call them.
use self_healing_distributed.Prelude.{
  ℕ, ◌≡◌, ◌≢◌, refl, Option, none, some, List, [], ◌∷◌, arith, ℕ_discrete, find, ◌==◌, Bool-cases,
  inl, inr,
}
use self_healing_distributed.Prelude.Map.{
  Map, IsUnique, insert-IsUnique, Each, Each-insert, Each-get, get-insert, get-nil, get-cons_self,
}
use self_healing_distributed.Types.{NodeId, NodeInfo, Instant, Duration}
use self_healing_distributed.Gossip.Table.{
  MemberStatus, alive, suspect, dead, joining, MemberEntry, MembershipTable, RemoteEntry, lookup,
  store, new, add_seeds, self_info, all_members, mark_suspect, mark_dead, mark_alive, merge_entry,
  refute, merge_peer,
}
use self_healing_distributed.Gossip.Timeouts.{check_status, check_member, check_members}
use self_healing_distributed.Gossip.Table
use self_healing_distributed.Gossip.Timeouts
use self_healing_distributed.Gossip.Status.{Mark, as_suspect, as_dead, as_alive, apply_mark}

-- An entry is about the node under whose identity it is stored.
abbrev pub IsKeyed : Map NodeId MemberEntry → Type 0
IsKeyed = Each (λ id e. e.info.id ≡ id)

pub record IsValid (t : MembershipTable) : Type 0 where
  pub unique : IsUnique ℕ_discrete t.members
  pub keyed : IsKeyed t.members
  pub has_local : lookup t t.local_id ≢ none

store-IsValid :
    (id : NodeId) (e : MemberEntry) (t : MembershipTable)
    → e.info.id ≡ id
    → IsValid t
    → IsValid (store id e t)
store-IsValid id e t h v = record {
  unique = insert-IsUnique ℕ_discrete id e t.members v.unique;
  keyed = Each-insert ℕ_discrete _ id e t.members h v.keyed;
  has_local = λ n. v.has_local (grind (arith, get-insert ℕ_discrete id t.local_id e t.members));
}

pub keyed-lookup :
    (t : MembershipTable) (id : NodeId) (e : MemberEntry)
    → IsValid t
    → lookup t id ≡ some e
    → e.info.id ≡ id
keyed-lookup t id e v h = Each-get ℕ_discrete _ id e t.members v.keyed h

mark_suspect-IsValid :
    (id : NodeId) (t : MembershipTable) → IsValid t → IsValid (mark_suspect id t).0
unfolding mark_suspect
mark_suspect-IsValid id t v = grind (arith, store-IsValid, keyed-lookup)

mark_dead-IsValid : (id : NodeId) (t : MembershipTable) → IsValid t → IsValid (mark_dead id t).0
unfolding mark_dead
mark_dead-IsValid id t v = grind (arith, store-IsValid, keyed-lookup)

mark_alive-IsValid :
    (id : NodeId) (n : ℕ) (t : MembershipTable) → IsValid t → IsValid (mark_alive id n t).0
unfolding mark_alive
mark_alive-IsValid id n t v = grind (arith, store-IsValid, keyed-lookup)

pub touch-IsValid :
    (id : NodeId) (now : Instant) (t : MembershipTable) → IsValid t → IsValid (Table.touch id now t)
unfolding Table.touch
touch-IsValid id now t v = grind (arith, store-IsValid, keyed-lookup)

pub mark_self_alive-IsValid : (t : MembershipTable) → IsValid t → IsValid (Table.mark_self_alive t)
unfolding Table.mark_self_alive
mark_self_alive-IsValid t v = grind (arith, store-IsValid, keyed-lookup)

refute-IsValid :
    (r : RemoteEntry) (t : MembershipTable) → IsValid t → IsValid (refute r t (lookup t t.local_id))
unfolding refute
refute-IsValid r t v = grind (arith, store-IsValid, keyed-lookup)

merge_peer-IsValid :
    (now : Instant) (r : RemoteEntry) (t : MembershipTable) (o : Option MemberEntry)
    → IsValid t
    → IsValid (merge_peer now r t o)
unfolding merge_peer
merge_peer-IsValid now r t none v = store-IsValid r.id _ t refl v
merge_peer-IsValid now r t (some l) v = grind (arith, store-IsValid)

merge_entry-IsValid :
    (now : Instant) (r : RemoteEntry) (t : MembershipTable)
    → IsValid t
    → IsValid (merge_entry now r t)
unfolding merge_entry
merge_entry-IsValid now r t v = grind (arith, refute-IsValid, merge_peer-IsValid)

pub merge-IsValid :
    (now : Instant) (rs : List RemoteEntry) (t : MembershipTable)
    → IsValid t
    → IsValid (Table.merge now rs t)
unfolding Table.merge
merge-IsValid now [] t v = v
merge-IsValid now (r ∷ rs) t v =
    merge-IsValid now rs (merge_entry now r t) (merge_entry-IsValid now r t v)

check_status-IsValid :
    (id : NodeId) (elapsed : Duration) (s : MemberStatus) (t : MembershipTable)
    → IsValid t
    → IsValid (check_status id elapsed s t)
unfolding check_status
check_status-IsValid id elapsed alive t v = grind (arith, mark_suspect-IsValid)
check_status-IsValid id elapsed joining t v = grind (arith, mark_suspect-IsValid)
check_status-IsValid id elapsed suspect t v = grind (arith, mark_dead-IsValid)
check_status-IsValid id elapsed dead t v = v

check_members-IsValid :
    (local : NodeId) (now : Instant) (ms : List MemberEntry) (t : MembershipTable)
    → IsValid t
    → IsValid (check_members local now ms t)
unfolding check_members
check_members-IsValid local now [] t v = v
check_members-IsValid local now (m ∷ ms) t v =
    check_members-IsValid local now ms (check_member local now m t)
      (unfold check_member in grind (arith, check_status-IsValid))

pub check_timeouts-IsValid :
    (local : NodeId) (now : Instant) (t : MembershipTable)
    → IsValid t
    → IsValid (Timeouts.check_timeouts local now t)
unfolding Timeouts.check_timeouts
check_timeouts-IsValid local now t v = check_members-IsValid local now (all_members t) t v

add_seeds-IsValid :
    (now : Instant) (seeds : List NodeInfo) (t : MembershipTable)
    → IsValid t
    → IsValid (add_seeds now seeds t)
unfolding add_seeds
add_seeds-IsValid now [] t v = v
add_seeds-IsValid now (n ∷ ns) t v = elim (Bool-cases (n.id == t.local_id)) [
  | inl own ↦ rw own (add_seeds-IsValid now ns t v)
  | inr other ↦ rw other (add_seeds-IsValid now ns _ (store-IsValid n.id _ t refl v))
]

find-local :
    (local : NodeId) (seeds : List NodeInfo)
    → (self_info local (find (λ n. n.id == local) seeds)).id ≡ local
find-local local [] = refl
find-local local (n ∷ ns) = ground (arith, find-local local ns)

pub new-IsValid :
    (local : NodeId) (seeds : List NodeInfo) (now : Instant) → IsValid (new local seeds now)
unfolding new
new-IsValid local seeds now = add_seeds-IsValid now seeds _ (record {
  unique = (get-nil {V = MemberEntry} ℕ_discrete local, tt);
  keyed = (find-local local seeds, tt);
  has_local = λ n. cc (n, get-cons_self {V = MemberEntry} ℕ_discrete local _ []);
})

-- A call that the node's tasks make on the table: the methods that write it, and the sweep of
-- `check_timeouts`.
pub data Call : Type 0 where
  mark : Mark → Call
  touch : NodeId → Instant → Call
  mark_self_alive : Call
  merge : Instant → List RemoteEntry → Call
  check_timeouts : NodeId → Instant → Call

unfoldable pub perform : Call → MembershipTable → MembershipTable
perform (mark m) t = apply_mark m t
perform (touch id now) t = Table.touch id now t
perform mark_self_alive t = Table.mark_self_alive t
perform (merge now rs) t = Table.merge now rs t
perform (check_timeouts local now) t = Timeouts.check_timeouts local now t

unfoldable pub run : List Call → MembershipTable → MembershipTable
unfolding perform
run [] t = t
run (c ∷ cs) t = run cs (perform c t)

perform-IsValid : (c : Call) (t : MembershipTable) → IsValid t → IsValid (perform c t)
unfolding perform apply_mark
perform-IsValid (mark (as_suspect id)) t v = mark_suspect-IsValid id t v
perform-IsValid (mark (as_dead id)) t v = mark_dead-IsValid id t v
perform-IsValid (mark (as_alive id n)) t v = mark_alive-IsValid id n t v
perform-IsValid (touch id now) t v = touch-IsValid id now t v
perform-IsValid mark_self_alive t v = mark_self_alive-IsValid t v
perform-IsValid (merge now rs) t v = merge-IsValid now rs t v
perform-IsValid (check_timeouts local now) t v = check_timeouts-IsValid local now t v

pub run-IsValid : (cs : List Call) (t : MembershipTable) → IsValid t → IsValid (run cs t)
unfolding run
run-IsValid [] t v = v
run-IsValid (c ∷ cs) t v = run-IsValid cs (perform c t) (perform-IsValid c t v)

-- Whatever calls are made on a new table, no node stands in it twice, every entry is about the node
-- that it is stored under, and the node itself has an entry.
pub run-new-IsValid :
    (local : NodeId) (seeds : List NodeInfo) (now : Instant) (cs : List Call)
    → IsValid (run cs (new local seeds now))
run-new-IsValid local seeds now cs = run-IsValid cs _ (new-IsValid local seeds now)

-- ===== src/Gossip/Refute.antt =====
-- The branch of `merge` (crates/node/src/gossip/state.rs) for reports about the node itself.
use mathlib.Core.Path.{subst}
use self_healing_distributed.Prelude.{
  ◌+◌, ◌^◌, ◌≤◌, ◌<◌, ◌≡◌, ◌⊎◌, Bool, true, Option, none, some, List, [], ◌∷◌, All, any, arith,
  ◌||◌, ◌&&◌, ◌==◌, leb, ltb, if◌then◌else◌, ◌≢◌,
}
use self_healing_distributed.Prelude.Map.{get-insert}
use self_healing_distributed.Types.{NodeId, Instant, next_u64}
use self_healing_distributed.Gossip.Table.{
  MemberStatus, MemberEntry, MembershipTable, RemoteEntry, alive, suspect, dead, lookup, ◌=ˢ◌,
  refute, merge_peer, merge_entry, merge, is_alive,
}
use self_healing_distributed.Gossip.Status.{precedence}
use self_healing_distributed.Gossip.View.{weight, version, reported}
use self_healing_distributed.Gossip.Merge.{local_id-merge_entry}

-- A report about another node does not touch this node's entry.
other-merge_peer :
    (now : Instant) (r : RemoteEntry) (t : MembershipTable) (j : NodeId) (o : Option MemberEntry)
    → r.id ≢ j
    → lookup (merge_peer now r t o) j ≡ lookup t j
unfolding merge_peer
other-merge_peer now r t j none h = grind (arith, get-insert)
other-merge_peer now r t j (some l) h = grind (arith, get-insert)

-- A report that claims that a node has failed.
abbrev pub accuses : RemoteEntry → Bool
accuses r = r.status =ˢ suspect || r.status =ˢ dead

-- A report with room for a higher incarnation.
abbrev pub HasRoom : RemoteEntry → Type 0
HasRoom r = r.incarnation + 1 < 2 ^ 64

-- The node's own entry outdoes an accusation: whoever hears of both keeps the entry.
abbrev pub answers : NodeId → MemberEntry → RemoteEntry → Bool
answers local l r =
    if (r.id == local) && accuses r then ltb (weight (reported r)) (weight (version l)) else true

abbrev pub Answers : NodeId → MemberEntry → RemoteEntry → Type 0
Answers local l r = answers local l r ≡ true

-- The node's own entry after one report.
unfoldable defended : NodeId → MemberEntry → RemoteEntry → MemberEntry
defended local l r =
    if (r.id == local) && (accuses r && leb l.incarnation r.incarnation)
    then record l { incarnation = next_u64 r.incarnation; status = alive }
    else l

-- The node's own entry after a message.
unfoldable defend : NodeId → List RemoteEntry → MemberEntry → MemberEntry
defend local [] l = l
defend local (r ∷ rs) l = defend local rs (defended local l r)

self-merge_entry :
    (now : Instant) (r : RemoteEntry) (t : MembershipTable) (l : MemberEntry)
    → lookup t t.local_id ≡ some l
    → lookup (merge_entry now r t) t.local_id ≡ some (defended t.local_id l r)
unfolding merge_entry defended refute
self-merge_entry now r t l h =
    grind (arith, get-insert, other-merge_peer now r t t.local_id (lookup t r.id))

self-merge :
    (now : Instant) (rs : List RemoteEntry) (t : MembershipTable) (l : MemberEntry)
    → lookup t t.local_id ≡ some l
    → lookup (merge now rs t) t.local_id ≡ some (defend t.local_id rs l)
unfolding merge defend
self-merge now [] t l h = h
self-merge now (r ∷ rs) t l h =
    let same = local_id-merge_entry now r t in
    subst
      (λ i.
        lookup (merge now rs (merge_entry now r t)) i
        ≡ some (defend i rs (defended t.local_id l r)))
      same
      (self-merge now rs (merge_entry now r t) (defended t.local_id l r)
        (rw same (self-merge_entry now r t l h)))

-- An entry that may have been bumped.
record Bumped (l l' : MemberEntry) : Type 0 where
  later : l.incarnation ≤ l'.incarnation
  heavier : weight (version l) ≤ weight (version l')
  status : (l'.status ≡ l.status) ⊎ (l'.status ≡ alive)

precedence-le : (s : MemberStatus) → precedence s ≤ 3
precedence-le s = ground arith

Bumped-defended :
    (local : NodeId) (l : MemberEntry) (r : RemoteEntry) → HasRoom r → Bumped l (defended local l r)
unfolding defended weight
Bumped-defended local l r room = ground (arith, precedence-le l.status)

Answers-defended :
    (local : NodeId) (l : MemberEntry) (r : RemoteEntry)
    → HasRoom r
    → Answers local (defended local l r) r
unfolding defended weight
Answers-defended local l r room = ground (arith, precedence-le l.status, precedence-le r.status)

Bumped-defend :
    (local : NodeId) (rs : List RemoteEntry) (l : MemberEntry)
    → All HasRoom rs
    → Bumped l (defend local rs l)
unfolding defend
Bumped-defend local [] l h = ground arith
Bumped-defend local (r ∷ rs) l (room, h) =
    ground (arith, Bumped-defended local l r room, Bumped-defend local rs (defended local l r) h)

Answers-defend :
    (local : NodeId) (rs : List RemoteEntry) (l : MemberEntry)
    → All HasRoom rs
    → All (Answers local (defend local rs l)) rs
unfolding defend
Answers-defend local [] l h = tt
Answers-defend local (r ∷ rs) l (room, h) = (
  let m = defended local l r in
      ground (arith, Answers-defended local l r room, (Bumped-defend local rs m h).heavier),
  Answers-defend local rs (defended local l r) h,
)

-- `merge` answers every accusation of the node itself, suspicion or death: its own entry comes out
-- with a version above the accusation's, its incarnation never falls, and its status stays or
-- becomes Alive. The reports' incarnations are below 2^64 - 1.
pub merge_refutes :
    (now : Instant) (rs : List RemoteEntry) (t : MembershipTable) (l : MemberEntry)
    → lookup t t.local_id ≡ some l
    → All HasRoom rs
    → (l' : MemberEntry) × (lookup (merge now rs t) t.local_id ≡ some l')
      × (l.incarnation ≤ l'.incarnation)
      × ((l'.status ≡ l.status) ⊎ (l'.status ≡ alive))
      × All (Answers t.local_id l') rs
merge_refutes now rs t l h room =
    let b = Bumped-defend t.local_id rs l room in
    (
      defend t.local_id rs l,
      self-merge now rs t l h,
      b.later,
      b.status,
      Answers-defend t.local_id rs l room,
    )

-- Whether one of the reports accuses the node at its incarnation or above.
abbrev pub condemned : NodeId → MemberEntry → List RemoteEntry → Bool
condemned local l = any (λ r. (r.id == local) && (accuses r && leb l.incarnation r.incarnation))

alive-defend :
    (local : NodeId) (rs : List RemoteEntry) (l : MemberEntry)
    → l.status ≡ alive
    → (defend local rs l).status ≡ alive
unfolding defend defended
alive-defend local [] l h = h
alive-defend local (r ∷ rs) l h = alive-defend local rs (defended local l r) (ground arith)

condemned-defend :
    (local : NodeId) (rs : List RemoteEntry) (l : MemberEntry)
    → condemned local l rs ≡ true
    → (defend local rs l).status ≡ alive
unfolding defend defended
condemned-defend local [] l h = ground arith
condemned-defend local (r ∷ rs) l h =
    ground (arith, condemned-defend local rs l, alive-defend local rs (defended local l r))

-- A node that is accused makes itself Alive, whatever its status was.
pub is_alive-merge-condemned :
    (now : Instant) (rs : List RemoteEntry) (t : MembershipTable) (l : MemberEntry)
    → lookup t t.local_id ≡ some l
    → condemned t.local_id l rs ≡ true
    → is_alive t.local_id (merge now rs t) ≡ true
unfolding is_alive
is_alive-merge-condemned now rs t l h c =
    ground (arith, self-merge now rs t l h, condemned-defend t.local_id rs l c)

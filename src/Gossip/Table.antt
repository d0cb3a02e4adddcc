-- ===== src/Gossip/Table.antt =====
-- `MembershipTable` of crates/node/src/gossip/state.rs. A method that writes returns the new table;
-- the lock is held for the whole of a method, so a method is one step. `now` is the reading of the
-- clock that the method makes.
use self_healing_distributed.Prelude.{
  ℕ, Bool, true, false, not, ◌&&◌, ◌||◌, Option, none, some, List, [], ◌∷◌, map, length, keep, find,
  ltb, leb, ◌==◌, if◌then◌else◌, ℕ_discrete,
}
use self_healing_distributed.Prelude.Map
use self_healing_distributed.Prelude.Map.{Map}
use self_healing_distributed.Types.{NodeId, NodeInfo, Bytes, Instant, next_u64}

pub data MemberStatus : Type 0 where
  alive suspect dead joining : MemberStatus

-- The derived `PartialEq`.
infix 50 ◌=ˢ◌
abbrev pub ◌=ˢ◌ : MemberStatus → MemberStatus → Bool
alive =ˢ alive = true
suspect =ˢ suspect = true
dead =ˢ dead = true
joining =ˢ joining = true
_ =ˢ _ = false

pub record MemberEntry : Type 0 where
  pub info : NodeInfo
  pub status : MemberStatus
  pub incarnation : ℕ
  pub last_seen : Instant

pub record MembershipTable : Type 0 where
  pub members : Map NodeId MemberEntry
  pub local_id : NodeId

-- One element of the argument of `merge`.
pub record RemoteEntry : Type 0 where
  pub id : NodeId
  pub addr : Bytes
  pub status : MemberStatus
  pub incarnation : ℕ

-- `members.get(id)`.
abbrev pub lookup : MembershipTable → NodeId → Option MemberEntry
lookup t id = Map.get ℕ_discrete id t.members

-- `members.insert(id, entry)`.
abbrev pub store : NodeId → MemberEntry → MembershipTable → MembershipTable
store id e t = record t { members = Map.insert ℕ_discrete id e t.members }

abbrev pub self_info : NodeId → Option NodeInfo → NodeInfo
self_info local none = record { id = local; addr = [] }
self_info local (some info) = info

-- The loop of `new` over the seeds.
unfoldable pub add_seeds : Instant → List NodeInfo → MembershipTable → MembershipTable
add_seeds now [] t = t
add_seeds now (node ∷ seeds) t = add_seeds now seeds (
    if node.id == t.local_id
    then t
    else store node.id (record { info = node; status = alive; incarnation = 0; last_seen = now }) t)

unfoldable pub new : NodeId → List NodeInfo → Instant → MembershipTable
unfolding add_seeds
new local seeds now = add_seeds now seeds (record {
  members =
      (
        local,
        record {
          info = self_info local (find (λ n. n.id == local) seeds);
          status = if leb 1 (length seeds) then joining else alive;
          incarnation = 0;
          last_seen = now;
        },
      )
      ∷ [];
  local_id = local;
})

abbrev pub entries : Map NodeId MemberEntry → List MemberEntry
entries = map (λ e. e.1)

unfoldable pub alive_peers : MembershipTable → List MemberEntry
alive_peers t = entries (
    keep (λ e. not (e.0 == t.local_id) && (e.1.status =ˢ alive || e.1.status =ˢ joining)) t.members)

unfoldable pub routable_peers : MembershipTable → List MemberEntry
routable_peers t = entries (keep (λ e. not (e.0 == t.local_id) && e.1.status =ˢ alive) t.members)

abbrev pub all_members : MembershipTable → List MemberEntry
all_members t = entries t.members

-- The body of `mark_suspect` behind `get_mut`.
suspect_entry : NodeId → MembershipTable → Option MemberEntry → MembershipTable × Bool
suspect_entry id t none = (t, false)
suspect_entry id t (some e) =
    if e.status =ˢ alive then (store id (record e { status = suspect }) t, true) else (t, false)

unfoldable pub mark_suspect : NodeId → MembershipTable → MembershipTable × Bool
unfolding suspect_entry
mark_suspect id t = suspect_entry id t (lookup t id)

dead_entry : NodeId → MembershipTable → Option MemberEntry → MembershipTable × Bool
dead_entry id t none = (t, false)
dead_entry id t (some e) =
    if e.status =ˢ alive || e.status =ˢ suspect
    then (store id (record e { status = dead }) t, true)
    else (t, false)

unfoldable pub mark_dead : NodeId → MembershipTable → MembershipTable × Bool
unfolding dead_entry
mark_dead id t = dead_entry id t (lookup t id)

alive_entry : NodeId → ℕ → MembershipTable → Option MemberEntry → MembershipTable × Bool
alive_entry id incarnation t none = (t, false)
alive_entry id incarnation t (some e) =
    if leb e.incarnation incarnation && e.status =ˢ suspect
    then (store id (record e { status = alive; incarnation = incarnation }) t, true)
    else (t, false)

unfoldable pub mark_alive : NodeId → ℕ → MembershipTable → MembershipTable × Bool
unfolding alive_entry
mark_alive id incarnation t = alive_entry id incarnation t (lookup t id)

touch_entry : NodeId → Instant → MembershipTable → Option MemberEntry → MembershipTable
touch_entry id now t none = t
touch_entry id now t (some e) = store id (record e { last_seen = now }) t

unfoldable pub touch : NodeId → Instant → MembershipTable → MembershipTable
unfolding touch_entry
touch id now t = touch_entry id now t (lookup t id)

unfoldable pub dead_nodes : MembershipTable → List NodeId
dead_nodes t = map (λ e. e.0) (keep (λ e. e.1.status =ˢ dead) t.members)

abbrev has_status : MemberStatus → Option MemberEntry → Bool
has_status s none = false
has_status s (some e) = e.status =ˢ s

unfoldable pub is_alive : NodeId → MembershipTable → Bool
is_alive id t = has_status alive (lookup t id)

abbrev pub incarnation_or_zero : Option MemberEntry → ℕ
incarnation_or_zero none = 0
incarnation_or_zero (some e) = e.incarnation

unfoldable pub local_incarnation : MembershipTable → ℕ
local_incarnation t = incarnation_or_zero (lookup t t.local_id)

abbrev addr_or_empty : Option MemberEntry → Bytes
addr_or_empty none = []
addr_or_empty (some e) = e.info.addr

unfoldable pub local_addr : MembershipTable → Bytes
local_addr t = addr_or_empty (lookup t t.local_id)

self_alive_entry : MembershipTable → Option MemberEntry → MembershipTable
self_alive_entry t none = t
self_alive_entry t (some e) =
    store t.local_id (record e { incarnation = next_u64 e.incarnation; status = alive }) t

unfoldable pub mark_self_alive : MembershipTable → MembershipTable
unfolding self_alive_entry
mark_self_alive t = self_alive_entry t (lookup t t.local_id)

unfoldable pub is_self_joining : MembershipTable → Bool
is_self_joining t = has_status joining (lookup t t.local_id)

-- The `match (local.status, remote_status)` of `merge`.
unfoldable pub should_update : MemberStatus → MemberStatus → Bool
should_update alive dead = true
should_update suspect dead = true
should_update joining dead = true
should_update alive suspect = true
should_update joining suspect = true
should_update joining alive = true
should_update _ _ = false

-- The entry that `merge` builds from what it was sent.
abbrev pub received : Instant → RemoteEntry → MemberEntry
received now r = record {
  info = record { id = r.id; addr = r.addr };
  status = r.status;
  incarnation = r.incarnation;
  last_seen = now;
}

-- The branch of `merge` for an entry about this node.
unfoldable pub refute : RemoteEntry → MembershipTable → Option MemberEntry → MembershipTable
refute r t none = t
refute r t (some l) =
    if (r.status =ˢ suspect || r.status =ˢ dead) && leb l.incarnation r.incarnation
    then store t.local_id (record l { incarnation = next_u64 r.incarnation; status = alive }) t
    else t

-- The branches of `merge` for an entry about another node.
unfoldable pub merge_peer :
    Instant → RemoteEntry → MembershipTable → Option MemberEntry → MembershipTable
merge_peer now r t none = store r.id (received now r) t
merge_peer now r t (some l) =
    if ltb l.incarnation r.incarnation
    then store r.id (received now r) t
    else if (r.incarnation == l.incarnation) && should_update l.status r.status
    then store r.id (received now r) t
    else t

-- One round of the loop of `merge`.
unfoldable pub merge_entry : Instant → RemoteEntry → MembershipTable → MembershipTable
unfolding refute merge_peer
merge_entry now r t =
    if r.id == t.local_id
    then refute r t (lookup t t.local_id)
    else merge_peer now r t (lookup t r.id)

unfoldable pub merge : Instant → List RemoteEntry → MembershipTable → MembershipTable
unfolding merge_entry
merge now [] t = t
merge now (r ∷ rs) t = merge now rs (merge_entry now r t)

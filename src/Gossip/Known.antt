-- ===== src/Gossip/Known.antt =====
-- The incarnations that a table (crates/node/src/gossip/state.rs) knows, and how the operations on it
-- change them.
use self_healing_distributed.Prelude.{
  ℕ, ◌≤◌, ◌≡◌, refl, ◌∙◌, List, [], ◌∷◌, arith, ℕ_discrete, ◌==◌, Bool-cases, inl, inr, All, map,
}
use self_healing_distributed.Prelude.Map
use self_healing_distributed.Prelude.Map.{Map, get-insert, IsUnique}
use self_healing_distributed.Types.{NodeId, NodeInfo, Instant, Duration}
use self_healing_distributed.Gossip.Table.{
  MemberStatus, alive, suspect, dead, joining, MembershipTable, MemberEntry, lookup,
  incarnation_or_zero, new, add_seeds, touch, mark_suspect, mark_dead, mark_self_alive, all_members,
}
use self_healing_distributed.Gossip.Status.{local_id-mark_suspect, local_id-mark_dead}
use self_healing_distributed.Gossip.Timeouts.{
  check_status, check_member, check_members, check_timeouts,
}
use self_healing_distributed.Gossip.Valid.{IsKeyed}
use self_healing_distributed.Gossip.Converge.{remote_of}

-- The incarnation of a node that the table knows, and 0 without an entry.
abbrev pub known : MembershipTable → NodeId → ℕ
known t j = incarnation_or_zero (lookup t j)

pub known-touch :
    (id : NodeId) (now : Instant) (t : MembershipTable) (j : NodeId)
    → known (touch id now t) j ≡ known t j
unfolding touch
known-touch id now t j = grind (arith, get-insert)

known-mark_suspect :
    (id : NodeId) (t : MembershipTable) (j : NodeId) → known (mark_suspect id t).0 j ≡ known t j
unfolding mark_suspect
known-mark_suspect id t j = grind (arith, get-insert)

known-mark_dead :
    (id : NodeId) (t : MembershipTable) (j : NodeId) → known (mark_dead id t).0 j ≡ known t j
unfolding mark_dead
known-mark_dead id t j = grind (arith, get-insert)

known-check_status :
    (id : NodeId) (elapsed : Duration) (s : MemberStatus) (t : MembershipTable) (j : NodeId)
    → known (check_status id elapsed s t) j ≡ known t j
unfolding check_status
known-check_status id elapsed alive t j = ground (arith, known-mark_suspect id t j)
known-check_status id elapsed joining t j = ground (arith, known-mark_suspect id t j)
known-check_status id elapsed suspect t j = ground (arith, known-mark_dead id t j)
known-check_status id elapsed dead t j = refl

known-check_members :
    (local : NodeId) (now : Instant) (ms : List MemberEntry) (t : MembershipTable) (j : NodeId)
    → known (check_members local now ms t) j ≡ known t j
unfolding check_members
known-check_members local now [] t j = refl
known-check_members local now (m ∷ ms) t j =
    known-check_members local now ms (check_member local now m t) j
    ∙ (unfold check_member in grind (arith, known-check_status))

pub known-check_timeouts :
    (local : NodeId) (now : Instant) (t : MembershipTable) (j : NodeId)
    → known (check_timeouts local now t) j ≡ known t j
unfolding check_timeouts
known-check_timeouts local now t j = known-check_members local now (all_members t) t j

-- What a table sends is what it knows.
pub remote_of-below :
    (bound : NodeId → ℕ) (m : Map NodeId MemberEntry)
    → IsKeyed m
    → IsUnique ℕ_discrete m
    → ((j : NodeId) → incarnation_or_zero (Map.get ℕ_discrete j m) ≤ bound j)
    → All (λ r. r.incarnation ≤ bound r.id) (map (λ e. remote_of e.1) m)
unfolding Map.get
remote_of-below bound [] k u below = tt
remote_of-below bound ((i, e) ∷ m) (p, k) (f, u) below =
    (ground (arith, below i), remote_of-below bound m k u (λ j. ground (arith, below j, f)))

known-add_seeds :
    (now : Instant) (seeds : List NodeInfo) (t : MembershipTable) (j : NodeId)
    → known t j ≡ 0
    → known (add_seeds now seeds t) j ≡ 0
unfolding add_seeds
known-add_seeds now [] t j h = h
known-add_seeds now (n ∷ ns) t j h = elim (Bool-cases (n.id == t.local_id)) [
  | inl own ↦ rw (add_seeds, own) (known-add_seeds now ns t j h)
  | inr other ↦ rw (add_seeds, other) (known-add_seeds now ns _ j (grind (arith, get-insert)))
]

pub known-new :
    (local : NodeId) (seeds : List NodeInfo) (now : Instant) (j : NodeId)
    → known (new local seeds now) j ≡ 0
unfolding new Map.get
known-new local seeds now j = known-add_seeds now seeds _ j (ground arith)

local_id-check_status :
    (id : NodeId) (elapsed : Duration) (s : MemberStatus) (t : MembershipTable)
    → (check_status id elapsed s t).local_id ≡ t.local_id
unfolding check_status
local_id-check_status id elapsed alive t = grind (arith, local_id-mark_suspect)
local_id-check_status id elapsed joining t = grind (arith, local_id-mark_suspect)
local_id-check_status id elapsed suspect t = grind (arith, local_id-mark_dead)
local_id-check_status id elapsed dead t = refl

local_id-check_members :
    (local : NodeId) (now : Instant) (ms : List MemberEntry) (t : MembershipTable)
    → (check_members local now ms t).local_id ≡ t.local_id
unfolding check_members
local_id-check_members local now [] t = refl
local_id-check_members local now (m ∷ ms) t =
    local_id-check_members local now ms (check_member local now m t)
    ∙ (unfold check_member in grind (arith, local_id-check_status))

pub local_id-check_timeouts :
    (local : NodeId) (now : Instant) (t : MembershipTable)
    → (check_timeouts local now t).local_id ≡ t.local_id
unfolding check_timeouts
local_id-check_timeouts local now t = local_id-check_members local now (all_members t) t

pub local_id-mark_self_alive : (t : MembershipTable) → (mark_self_alive t).local_id ≡ t.local_id
unfolding mark_self_alive
local_id-mark_self_alive t = ground arith

local_id-add_seeds :
    (now : Instant) (seeds : List NodeInfo) (t : MembershipTable)
    → (add_seeds now seeds t).local_id ≡ t.local_id
unfolding add_seeds
local_id-add_seeds now [] t = refl
local_id-add_seeds now (n ∷ ns) t = elim (Bool-cases (n.id == t.local_id)) [
  | inl own ↦ rw (add_seeds, own) (local_id-add_seeds now ns t)
  | inr other ↦ rw (add_seeds, other) (local_id-add_seeds now ns _)
]

pub local_id-new :
    (local : NodeId) (seeds : List NodeInfo) (now : Instant)
    → (new local seeds now).local_id ≡ local
unfolding new
local_id-new local seeds now = local_id-add_seeds now seeds _

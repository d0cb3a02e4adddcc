-- ===== src/Gossip/Status.antt =====
-- The order of the statuses, and the transitions that the methods of `MembershipTable` make
-- (crates/node/src/gossip/state.rs).
use self_healing_distributed.Prelude.{
  ℕ, ◌≡◌, refl, ◌⊎◌, inl, inr, Option, none, some, List, [], ◌∷◌, arith, ltb, ite, ℕ_discrete,
}
use self_healing_distributed.Prelude.Map.{get-insert}
use self_healing_distributed.Types.{NodeId, Instant}
use self_healing_distributed.Gossip.Table.{
  MemberStatus, alive, suspect, dead, joining, MemberEntry, MembershipTable, lookup, mark_suspect,
  mark_dead, mark_alive, touch, should_update,
}

-- Dead > Suspect > Alive > Joining.
abbrev pub precedence : MemberStatus → ℕ
precedence joining = 0
precedence alive = 1
precedence suspect = 2
precedence dead = 3

-- At equal incarnations the table of `merge` is the order of precedence.
pub should_update-eq-ltb :
    (local remote : MemberStatus)
    → should_update local remote ≡ ltb (precedence local) (precedence remote)
unfolding should_update
should_update-eq-ltb alive alive = refl
should_update-eq-ltb alive suspect = refl
should_update-eq-ltb alive dead = refl
should_update-eq-ltb alive joining = refl
should_update-eq-ltb suspect alive = refl
should_update-eq-ltb suspect suspect = refl
should_update-eq-ltb suspect dead = refl
should_update-eq-ltb suspect joining = refl
should_update-eq-ltb dead alive = refl
should_update-eq-ltb dead suspect = refl
should_update-eq-ltb dead dead = refl
should_update-eq-ltb dead joining = refl
should_update-eq-ltb joining alive = refl
should_update-eq-ltb joining suspect = refl
should_update-eq-ltb joining dead = refl
should_update-eq-ltb joining joining = refl

pub precedence-injective : (a b : MemberStatus) → precedence a ≡ precedence b → a ≡ b
precedence-injective a b h = ground arith

-- What each marking method does to the entry of the node that it names.
abbrev pub suspected : MemberStatus → MemberStatus
suspected alive = suspect
suspected s = s

abbrev pub killed : MemberStatus → MemberStatus
killed alive = dead
killed suspect = dead
killed s = s

abbrev pub with_status : (MemberStatus → MemberStatus) → Option MemberEntry → Option MemberEntry
with_status f none = none
with_status f (some e) = some (record e { status = f e.status })

abbrev pub touched : Instant → Option MemberEntry → Option MemberEntry
touched now none = none
touched now (some e) = some (record e { last_seen = now })

module _ (id : NodeId) (t : MembershipTable) (j : NodeId) where
  -- `mark_suspect` turns Alive into Suspect at the node that it names, and changes nothing else.
  pub lookup-mark_suspect :
      lookup (mark_suspect id t).0 j
      ≡ ite (ℕ_discrete id j) (with_status suspected (lookup t j)) (lookup t j)
  unfolding mark_suspect
  lookup-mark_suspect = grind (arith, get-insert)

  -- `mark_dead` turns Alive and Suspect into Dead at the node that it names, and changes nothing
  -- else.
  pub lookup-mark_dead :
      lookup (mark_dead id t).0 j
      ≡ ite (ℕ_discrete id j) (with_status killed (lookup t j)) (lookup t j)
  unfolding mark_dead
  lookup-mark_dead = grind (arith, get-insert)

  -- `touch` writes the clock at the node that it names, and changes nothing else.
  pub lookup-touch :
      (now : Instant)
      → lookup (touch id now t) j ≡ ite (ℕ_discrete id j) (touched now (lookup t j)) (lookup t j)
  unfolding touch
  lookup-touch now = grind (arith, get-insert)

pub local_id-mark_suspect :
    (id : NodeId) (t : MembershipTable) → (mark_suspect id t).0.local_id ≡ t.local_id
unfolding mark_suspect
local_id-mark_suspect id t = ground arith

pub local_id-mark_dead :
    (id : NodeId) (t : MembershipTable) → (mark_dead id t).0.local_id ≡ t.local_id
unfolding mark_dead
local_id-mark_dead id t = ground arith

pub local_id-touch :
    (id : NodeId) (now : Instant) (t : MembershipTable) → (touch id now t).local_id ≡ t.local_id
unfolding touch
local_id-touch id now t = ground arith

-- A node that this table holds Dead or Joining is not moved by the marking methods.
pub data IsFrozen : MemberStatus → Type 0 where
  dead_frozen : IsFrozen dead
  joining_frozen : IsFrozen joining

-- `mark_suspect`, `mark_dead` and `mark_alive`, in any order and about any nodes, leave the entry
-- of a node that is Dead or Joining exactly as it was.
pub data Mark : Type 0 where
  as_suspect as_dead : NodeId → Mark
  as_alive : NodeId → ℕ → Mark

unfoldable pub apply_mark : Mark → MembershipTable → MembershipTable
apply_mark (as_suspect id) t = (mark_suspect id t).0
apply_mark (as_dead id) t = (mark_dead id t).0
apply_mark (as_alive id n) t = (mark_alive id n t).0

unfoldable pub apply_marks : List Mark → MembershipTable → MembershipTable
apply_marks [] t = t
apply_marks (m ∷ ms) t = apply_marks ms (apply_mark m t)

frozen_cases : (s : MemberStatus) → IsFrozen s → (s ≡ dead) ⊎ (s ≡ joining)
frozen_cases _ dead_frozen = inl refl
frozen_cases _ joining_frozen = inr refl

frozen_step :
    (m : Mark) (t : MembershipTable) (j : NodeId) (e : MemberEntry)
    → lookup t j ≡ some e
    → IsFrozen e.status
    → lookup (apply_mark m t) j ≡ some e
unfolding apply_mark mark_alive mark_suspect mark_dead
frozen_step (as_suspect id) t j e h f = grind (arith, get-insert, frozen_cases e.status f)
frozen_step (as_dead id) t j e h f = grind (arith, get-insert, frozen_cases e.status f)
frozen_step (as_alive id n) t j e h f = grind (arith, get-insert, frozen_cases e.status f)

-- No sequence of `mark_suspect`, `mark_dead` and `mark_alive` calls, about any nodes, changes the
-- entry of a node that the table holds Dead or Joining.
pub lookup-apply_marks :
    (ms : List Mark) (t : MembershipTable) (j : NodeId) (e : MemberEntry)
    → lookup t j ≡ some e
    → IsFrozen e.status
    → lookup (apply_marks ms t) j ≡ some e
unfolding apply_marks
lookup-apply_marks [] t j e h f = h
lookup-apply_marks (m ∷ ms) t j e h f =
    lookup-apply_marks ms (apply_mark m t) j e (frozen_step m t j e h f) f

-- ===== src/Gossip/Merge.antt =====
-- `merge` of crates/node/src/gossip/state.rs against the order of versions: what a node knows of
-- another is the newest of the reports that it was sent, whatever their order and repetition.
use self_healing_distributed.Prelude.{
  ℕ, ltb, ◌&&◌, ◌||◌, ◌≡◌, ◌≢◌, refl, ◌∙◌, Option, none, some, List, [], ◌∷◌, arith, ite,
  ℕ_discrete, ◌==◌,
}
use self_healing_distributed.Prelude.Map.{get-insert}
use self_healing_distributed.Types.{NodeId, Instant}
use self_healing_distributed.Gossip.Table.{
  MemberStatus, MembershipTable, MemberEntry, RemoteEntry, lookup, refute, merge_peer, merge_entry,
  merge, should_update,
}
use self_healing_distributed.Gossip.Status.{should_update-eq-ltb}
use self_healing_distributed.Gossip.View.{
  Version, view, weight, absorb, absorb_all, reports, reported, absorb_all_comm, absorb_all_again,
  Covers, Covers-absorb_all,
}

pub local_id-merge_entry :
    (now : Instant) (r : RemoteEntry) (t : MembershipTable)
    → (merge_entry now r t).local_id ≡ t.local_id
unfolding merge_entry
local_id-merge_entry now r t = ground arith

pub local_id-merge :
    (now : Instant) (rs : List RemoteEntry) (t : MembershipTable)
    → (merge now rs t).local_id ≡ t.local_id
unfolding merge
local_id-merge now [] t = refl
local_id-merge now (r ∷ rs) t =
    local_id-merge now rs (merge_entry now r t) ∙ local_id-merge_entry now r t

-- The test of `merge` for an update is the order of versions.
accepts-eq-ltb :
    (i k : ℕ) (s s' : MemberStatus)
    → (ltb i k || ((k == i) && should_update s s'))
      ≡ ltb
          (weight (record { incarnation = i; status = s }))
          (weight (record { incarnation = k; status = s' }))
unfolding weight
accepts-eq-ltb i k s s' = ground (arith, should_update-eq-ltb s s')

view-merge_peer :
    (now : Instant) (r : RemoteEntry) (t : MembershipTable) (j : NodeId) (o : Option MemberEntry)
    → lookup t r.id ≡ o
    → view (merge_peer now r t o) j
      ≡ ite (ℕ_discrete r.id j) (absorb (view t j) (reported r)) (view t j)
unfolding merge_peer
view-merge_peer now r t j none h = grind (arith, get-insert)
view-merge_peer now r t j (some l) h =
    grind (arith, get-insert, accepts-eq-ltb l.incarnation r.incarnation l.status r.status)

view-refute :
    (r : RemoteEntry) (t : MembershipTable) (j : NodeId) (o : Option MemberEntry)
    → j ≢ t.local_id
    → view (refute r t o) j ≡ view t j
unfolding refute
view-refute r t j none h = refl
view-refute r t j (some l) h = grind (arith, get-insert)

view-merge_entry :
    (now : Instant) (r : RemoteEntry) (t : MembershipTable) (j : NodeId)
    → j ≢ t.local_id
    → view (merge_entry now r t) j
      ≡ ite (ℕ_discrete r.id j) (absorb (view t j) (reported r)) (view t j)
unfolding merge_entry
view-merge_entry now r t j h = grind (
  arith,
  view-merge_peer now r t j (lookup t r.id) refl,
  view-refute r t j (lookup t t.local_id) h,
)

-- After `merge`, the version that a node holds of any other is the newest among the one that it
-- held and all that the message reports: incarnation first, then Dead > Suspect > Alive > Joining.
pub view-merge :
    (now : Instant) (rs : List RemoteEntry) (t : MembershipTable) (j : NodeId)
    → j ≢ t.local_id
    → view (merge now rs t) j ≡ absorb_all (view t j) (reports j rs)
unfolding merge absorb_all reports
view-merge now [] t j h = refl
view-merge now (r ∷ rs) t j h = grind (
  arith,
  view-merge now rs (merge_entry now r t) j (rw (local_id-merge_entry now r t) h),
  view-merge_entry now r t j h,
)

module _ (t : MembershipTable) (j : NodeId) (other : j ≢ t.local_id) (now later : Instant) where
  -- The order in which two messages arrive does not matter to what is known of another node.
  pub merge_comm :
      (rs ss : List RemoteEntry)
      → view (merge later ss (merge now rs t)) j ≡ view (merge later rs (merge now ss t)) j
  merge_comm rs ss =
      simp
        (
          view-merge later ss (merge now rs t) j (rw (local_id-merge now rs t) other),
          view-merge later rs (merge now ss t) j (rw (local_id-merge now ss t) other),
          view-merge now rs t j other,
          view-merge now ss t j other,
        )
        (absorb_all_comm (view t j) (reports j rs) (reports j ss))

  -- Receiving a message twice teaches no more than receiving it once.
  pub merge_again :
      (rs : List RemoteEntry) → view (merge later rs (merge now rs t)) j ≡ view (merge now rs t) j
  merge_again rs =
      simp
        (
          view-merge later rs (merge now rs t) j (rw (local_id-merge now rs t) other),
          view-merge now rs t j other,
        )
        (absorb_all_again (view t j) (reports j rs))

-- A version that a node holds of another is never replaced by an older one.
pub Covers-merge :
    (now : Instant) (rs : List RemoteEntry) (t : MembershipTable) (j : NodeId) (v : Version)
    → j ≢ t.local_id
    → Covers (view t j) v
    → Covers (view (merge now rs t) j) v
Covers-merge now rs t j v h c =
    rw (view-merge now rs t j h) (Covers-absorb_all (reports j rs) (view t j) v c)

-- ===== src/Gossip/Timeouts.antt =====
-- `check_timeouts` of `GossipProtocol` (crates/node/src/gossip/protocol.rs).
use self_healing_distributed.Prelude.{◌-◌, List, [], ◌∷◌, ltb, ◌==◌, if◌then◌else◌}
use self_healing_distributed.Types.{NodeId, Instant, Duration, from_secs}
use self_healing_distributed.Gossip.Table.{
  MemberStatus, alive, suspect, dead, joining, MemberEntry, MembershipTable, all_members,
  mark_suspect, mark_dead,
}

abbrev pub suspect_timeout : Duration
suspect_timeout = from_secs 3

abbrev pub dead_timeout : Duration
dead_timeout = from_secs 5

-- The `match member.status` of the loop.
unfoldable pub check_status : NodeId → Duration → MemberStatus → MembershipTable → MembershipTable
check_status id elapsed alive t = if ltb suspect_timeout elapsed then (mark_suspect id t).0 else t
check_status id elapsed joining t = if ltb suspect_timeout elapsed then (mark_suspect id t).0 else t
check_status id elapsed suspect t = if ltb dead_timeout elapsed then (mark_dead id t).0 else t
check_status id elapsed dead t = t

-- One round of the loop. `duration_since` gives 0 for an earlier instant, as `-` does.
unfoldable pub check_member : NodeId → Instant → MemberEntry → MembershipTable → MembershipTable
unfolding check_status
check_member local now member t =
    if member.info.id == local
    then t
    else check_status member.info.id (now - member.last_seen) member.status t

unfoldable pub check_members :
    NodeId → Instant → List MemberEntry → MembershipTable → MembershipTable
unfolding check_member
check_members local now [] t = t
check_members local now (m ∷ ms) t = check_members local now ms (check_member local now m t)

-- The loop runs over a copy of the members that is made before it.
unfoldable pub check_timeouts : NodeId → Instant → MembershipTable → MembershipTable
unfolding check_members
check_timeouts local now t = check_members local now (all_members t) t

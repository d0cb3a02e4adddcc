-- ===== src/Router/Observer.antt =====
-- `RouterGossipClient` of crates/router/src/gossip/mod.rs: how the answer of a seed node changes the
-- hash ring and the health monitor. `now` stands for the readings of the clock while one answer is
-- worked through.
use self_healing_distributed.Prelude.{
  ℕ, zero, suc, Bool, Option, none, some, List, [], ◌∷◌, any, ◌==◌, if◌then◌else◌, length, min,
}
use self_healing_distributed.Types.{NodeId, Bytes, Instant, UuidText, codes}
use self_healing_distributed.Gossip.Table.{MemberStatus, alive, suspect, dead, joining}
use self_healing_distributed.Gossip.Exchange.{ProtoMemberEntry, GossipMessage}
use self_healing_distributed.Ring.HashRing.{HashRing, add_node, remove_node}
use self_healing_distributed.Router.Health.{HealthMonitor, mark_alive, mark_joining, record_failure}

pub record Observed : Type 0 where
  pub ring : HashRing
  pub health : HealthMonitor

-- `ProtoMemberStatus::try_from`.
unfoldable pub try_from : ℕ → Option MemberStatus
try_from zero = some alive
try_from (suc zero) = some suspect
try_from (suc (suc zero)) = some dead
try_from (suc (suc (suc zero))) = some joining
try_from _ = none

-- The request: the router has no members to share.
abbrev pub request : GossipMessage
request = record { members = []; sender_id = codes "router" }

-- The number of seed nodes that a tick of `run` picks.
abbrev pub target_count : List Bytes → ℕ
target_count seed_addrs = min (length seed_addrs) 2

abbrev pub in_ring : NodeId → HashRing → Bool
in_ring id ring = any (λ n. n.id == id) ring.nodes

module _ (xxh3_64 : Bytes → ℕ) (uuid : UuidText) where
  -- The `match status`.
  unfoldable pub observe : Instant → NodeId → Bytes → MemberStatus → Observed → Observed
  observe now id addr alive o = record {
    ring =
        if in_ring id o.ring
        then o.ring
        else add_node xxh3_64 uuid (record { id = id; addr = addr }) o.ring;
    health = mark_alive id now o.health;
  }
  observe now id addr joining o = record o { health = mark_joining id now o.health }
  observe now id addr suspect o = record o { health = record_failure id now o.health }
  observe now id addr dead o = record {
    ring = if in_ring id o.ring then remove_node id o.ring else o.ring;
    health = record_failure id now (record_failure id now (record_failure id now o.health));
  }

  abbrev pub observe_parsed :
      Instant → Bytes → Option NodeId → Option MemberStatus → Observed → Observed
  observe_parsed now addr none status o = o
  observe_parsed now addr (some id) none o = o
  observe_parsed now addr (some id) (some status) o = observe now id addr status o

  -- The body of the loop over the members.
  unfoldable pub observe_member : Instant → ProtoMemberEntry → Observed → Observed
  unfolding try_from
  observe_member now member o =
      observe_parsed now member.addr (uuid.parse_str member.node_id) (try_from member.status) o

  unfoldable pub process_response : Instant → List ProtoMemberEntry → Observed → Observed
  unfolding observe_member
  process_response now [] o = o
  process_response now (member ∷ members) o =
      process_response now members (observe_member now member o)

  -- The network answers with nothing where the connection or the call fails.
  unfoldable pub exchange_gossip :
      Instant → (Bytes → Option GossipMessage) → Bytes → Observed → Observed
  unfolding process_response
  exchange_gossip now answer addr o = elim (answer addr) [
    | none ↦ o
    | some message ↦ process_response now message.members o
  ]

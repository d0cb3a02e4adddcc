-- ===== src/Gossip/Exchange.antt =====
-- The messages by which nodes exchange their tables: `build_gossip_message` and `GossipProtocol` of
-- crates/node/src/gossip/protocol.rs, and `GossipServiceImpl` of crates/node/src/gossip/server.rs.
use self_healing_distributed.Prelude.{
  ℕ, zero, suc, ◌-◌, Option, none, some, List, [], ◌∷◌, map, length, min,
}
use self_healing_distributed.Types.{NodeId, Bytes, Instant, as_millis, UuidText}
use self_healing_distributed.Gossip.Table.{
  MemberStatus, alive, suspect, dead, joining, MemberEntry, MembershipTable, RemoteEntry, merge,
  touch, alive_peers, all_members,
}

-- The generated message types of proto/gossip.proto. A status is the bit pattern of an `i32`.
pub record ProtoMemberEntry : Type 0 where
  pub node_id : Bytes
  pub addr : Bytes
  pub status : ℕ
  pub incarnation : ℕ
  pub last_seen_ms : ℕ

pub record GossipMessage : Type 0 where
  pub members : List ProtoMemberEntry
  pub sender_id : Bytes

unfoldable pub to_proto : MemberStatus → ℕ
to_proto alive = 0
to_proto suspect = 1
to_proto dead = 2
to_proto joining = 3

-- `try_from` of the generated enumeration, with the fallback of the callers.
unfoldable pub from_proto : ℕ → MemberStatus
from_proto zero = alive
from_proto (suc zero) = suspect
from_proto (suc (suc zero)) = dead
from_proto (suc (suc (suc zero))) = joining
from_proto _ = alive

module _ (uuid : UuidText) where
  abbrev pub encode_entry : Instant → MemberEntry → ProtoMemberEntry
  encode_entry now e = record {
    node_id = uuid.to_string e.info.id;
    addr = e.info.addr;
    status = to_proto e.status;
    incarnation = e.incarnation;
    last_seen_ms = as_millis (now - e.last_seen);
  }

  unfoldable pub build_gossip_message : Instant → MembershipTable → GossipMessage
  build_gossip_message now t = record {
    members = map (encode_entry now) (all_members t);
    sender_id = uuid.to_string t.local_id;
  }

  abbrev parsed_or : NodeId → Option NodeId → NodeId
  parsed_or fresh none = fresh
  parsed_or fresh (some id) = id

  -- The closure that both receivers map over the members. `fresh i` is the `NodeId::new()` that
  -- stands in for the i-th identity if that does not parse.
  unfoldable pub decode_entries : (ℕ → NodeId) → ℕ → List ProtoMemberEntry → List RemoteEntry
  unfolding from_proto
  decode_entries fresh i [] = []
  decode_entries fresh i (m ∷ ms) =
      record {
        id = parsed_or (fresh i) (uuid.parse_str m.node_id);
        addr = m.addr;
        status = from_proto m.status;
        incarnation = m.incarnation;
      }
      ∷ decode_entries fresh (suc i) ms

  unfoldable pub process_gossip_response :
      (ℕ → NodeId) → Instant → GossipMessage → MembershipTable → MembershipTable
  process_gossip_response fresh now response t =
      merge now (decode_entries fresh 0 response.members) t

  unfoldable pub touch_sender : Option NodeId → Instant → MembershipTable → MembershipTable
  touch_sender none now t = t
  touch_sender (some id) now t = touch id now t

  -- The handler of `GossipExchange`: the new table, and the answer.
  unfoldable pub gossip_exchange :
      (ℕ → NodeId) → Instant → GossipMessage → MembershipTable → MembershipTable × GossipMessage
  unfolding touch_sender
  gossip_exchange fresh now msg t =
      let merged = merge now (decode_entries fresh 0 msg.members) t in
      let touched = touch_sender (uuid.parse_str msg.sender_id) now merged in
      (touched, build_gossip_message now touched)

  -- What `gossip_round` does with the outcome of `send_gossip`.
  unfoldable pub receive :
      (ℕ → NodeId) → Instant → NodeId → Option GossipMessage → MembershipTable → MembershipTable
  receive fresh now target none t = t
  receive fresh now target (some response) t =
      process_gossip_response fresh now response (touch target now t)

  -- The loop of `gossip_round` over the chosen targets. `send addr msg` is the answer of the node
  -- at `addr`, if the call succeeds.
  unfoldable pub gossip_targets :
      (Bytes → GossipMessage → Option GossipMessage)
      → (ℕ → NodeId)
      → Instant
      → List MemberEntry
      → MembershipTable
      → MembershipTable
  unfolding receive
  gossip_targets send fresh now [] t = t
  gossip_targets send fresh now (target ∷ targets) t =
      gossip_targets send fresh now targets
        (receive fresh now target.info.id (send target.info.addr (build_gossip_message now t)) t)

  -- `choose n` is the draw of `choose_multiple`, and `roll` that of `gen_range(1..=3)`.
  unfoldable pub gossip_round :
      (Bytes → GossipMessage → Option GossipMessage)
      → (ℕ → List MemberEntry → List MemberEntry)
      → ℕ
      → (ℕ → NodeId)
      → Instant
      → MembershipTable
      → MembershipTable
  gossip_round send choose roll fresh now t = elim (alive_peers t) [
    | [] ↦ t
    | p ∷ ps ↦ gossip_targets send fresh now (choose (min (length (p ∷ ps)) roll) (p ∷ ps)) t
  ]

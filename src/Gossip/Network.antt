-- ===== src/Gossip/Network.antt =====
-- All nodes of a cluster, each running `GossipProtocol` and `GossipServiceImpl`
-- (crates/node/src/gossip/protocol.rs, crates/node/src/gossip/server.rs), and a network that may lose,
-- delay, reorder and repeat their messages.
use self_healing_distributed.Prelude.{
  ℕ, zero, suc, ◌+◌, ◌≡◌, Option, none, some, List, [], ◌∷◌, ite, ℕ_discrete,
}
use self_healing_distributed.Types.{NodeId, NodeInfo, Instant, UuidText}
use self_healing_distributed.Gossip.Table.{MembershipTable, new, mark_self_alive}
use self_healing_distributed.Gossip.Exchange.{
  GossipMessage, build_gossip_message, gossip_exchange, receive,
}
use self_healing_distributed.Gossip.Timeouts.{check_timeouts}

-- The table of every node, and the messages that were ever sent.
pub record Network : Type 0 where
  pub table : NodeId → MembershipTable
  pub sent : List GossipMessage

abbrev pub put : NodeId → MembershipTable → Network → Network
put i t w = record w { table = λ k. ite (ℕ_discrete i k) t (w.table k) }

abbrev pub post : GossipMessage → Network → Network
post msg w = record w { sent = msg ∷ w.sent }

-- The n-th of the messages.
abbrev pub message_at : ℕ → List GossipMessage → Option GossipMessage
message_at n [] = none
message_at zero (m ∷ ms) = some m
message_at (suc n) (m ∷ ms) = message_at n ms

module _ (uuid : UuidText) where
  -- A step of one node: it sends its table, it answers a message, it takes in an answer, it looks for
  -- silent peers, or it ends its rebalance.
  pub data Step : Network → Network → Type 0 where
    send :
        (w : Network) (i : NodeId) (now : Instant)
        → Step w (post (build_gossip_message uuid now (w.table i)) w)
    answer :
        (w : Network) (i : NodeId) (now : Instant) (fresh : ℕ → NodeId) (n : ℕ)
        (msg : GossipMessage)
        → message_at n w.sent ≡ some msg
        → Step w (
            post
              (gossip_exchange uuid fresh now msg (w.table i)).1
              (put i (gossip_exchange uuid fresh now msg (w.table i)).0 w))
    take_in :
        (w : Network) (i target : NodeId) (now : Instant) (fresh : ℕ → NodeId) (n : ℕ)
        (msg : GossipMessage)
        → message_at n w.sent ≡ some msg
        → Step w (put i (receive uuid fresh now target (some msg) (w.table i)) w)
    sweep :
        (w : Network) (i : NodeId) (now : Instant)
        → Step w (put i (check_timeouts i now (w.table i)) w)
    joined : (w : Network) (i : NodeId) → Step w (put i (mark_self_alive (w.table i)) w)

  -- The states that are reached in so many steps from new tables.
  pub data Reach : ℕ → Network → Type 0 where
    start :
        (seeds : NodeId → List NodeInfo) (now : NodeId → Instant)
        → Reach 0 (record { table = λ i. new i (seeds i) (now i); sent = [] })
    next : {n : ℕ} {w w' : Network} → Reach n w → Step w w' → Reach (n + 1) w'

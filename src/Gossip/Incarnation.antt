-- ===== src/Gossip/Incarnation.antt =====
-- Nobody in a cluster (crates/node/src/gossip) knows a higher incarnation of a node than the node
-- itself does.
use mathlib.Core.Path.{subst}
use self_healing_distributed.Prelude.{
  ℕ, ◌+◌, ◌^◌, ◌≤◌, ◌<◌, ◌≡◌, sym, ap, ◌∙◌, Option, none, some, arith,
}
use self_healing_distributed.Types.{NodeId, Instant, UuidText}
use self_healing_distributed.Gossip.Table.{MembershipTable, touch}
use self_healing_distributed.Gossip.Status.{local_id-touch}
use self_healing_distributed.Gossip.Exchange.{
  GossipMessage, gossip_exchange, receive, process_gossip_response, touch_sender,
}
use self_healing_distributed.Gossip.Valid.{
  IsValid, new-IsValid, merge-IsValid, touch-IsValid, check_timeouts-IsValid,
  mark_self_alive-IsValid,
}
use self_healing_distributed.Gossip.Merge.{local_id-merge}
use self_healing_distributed.Gossip.Converge.{
  gossip_exchange-IsValid, answer-gossip_exchange, local_id-gossip_exchange,
}
use self_healing_distributed.Gossip.Network.{
  Network, put, post, Step, send, answer, take_in, sweep, joined, Reach, start, next,
}
use self_healing_distributed.Gossip.Known.{
  known, known-touch, known-check_timeouts, local_id-check_timeouts, local_id-mark_self_alive,
  local_id-new, known-new,
}
use self_healing_distributed.Gossip.Near.{
  IsNear, IsNear-refl, same-IsNear, mark_self_alive-IsNear, merge-IsNear,
}
use self_healing_distributed.Gossip.Invariant.{
  own, Below, Inv, message_at-Below, build-Below, put-Inv, known_own, post-Inv,
}

module _ (uuid : UuidText) where
  -- The table of a node, before a step of it.
  table-IsNear : (n : ℕ) (w : Network) → Inv uuid n w → (i : NodeId) → IsNear (own w) (w.table i)
  table-IsNear n w v i =
      IsNear-refl (w.table i) (own w) (v.below i)
        (ap (λ k. known (w.table k) (w.table i).local_id) (v.local i))

  touch-IsNear :
      (bound : NodeId → ℕ) (id : NodeId) (now : Instant) (t : MembershipTable)
      → IsNear bound t
      → IsNear bound (touch id now t)
  touch-IsNear bound id now t near =
      same-IsNear bound t (touch id now t) (local_id-touch id now t) (known-touch id now t) near

  touch_sender-IsNear :
      (bound : NodeId → ℕ) (o : Option NodeId) (now : Instant) (t : MembershipTable)
      → IsNear bound t
      → IsNear bound (touch_sender uuid o now t)
  unfolding touch_sender
  touch_sender-IsNear bound none now t near = near
  touch_sender-IsNear bound (some id) now t near = touch-IsNear bound id now t near

  module _ (bound : NodeId → ℕ) (fresh : ℕ → NodeId) (now : Instant) (msg : GossipMessage)
      (t : MembershipTable) (low : Below uuid bound msg) (room : bound t.local_id + 1 < 2 ^ 64)
      (near : IsNear bound t) where
    gossip_exchange-IsNear : IsNear bound (gossip_exchange uuid fresh now msg t).0
    unfolding gossip_exchange
    gossip_exchange-IsNear =
        touch_sender-IsNear bound _ now _ (merge-IsNear bound now _ t (low fresh) room near)

    receive-IsNear : (target : NodeId) → IsNear bound (receive uuid fresh now target (some msg) t)
    unfolding receive process_gossip_response
    receive-IsNear target =
        merge-IsNear bound now _ (touch target now t) (low fresh)
          (rw (local_id-touch target now t) room) (touch-IsNear bound target now t near)

  pub receive-IsValid :
      (fresh : ℕ → NodeId) (now : Instant) (target : NodeId) (msg : GossipMessage)
      (t : MembershipTable)
      → IsValid t
      → IsValid (receive uuid fresh now target (some msg) t)
  unfolding receive process_gossip_response
  receive-IsValid fresh now target msg t v = merge-IsValid now _ _ (touch-IsValid target now t v)

  pub local_id-receive :
      (fresh : ℕ → NodeId) (now : Instant) (target : NodeId) (msg : GossipMessage)
      (t : MembershipTable)
      → (receive uuid fresh now target (some msg) t).local_id ≡ t.local_id
  unfolding receive process_gossip_response
  local_id-receive fresh now target msg t = local_id-merge now _ _ ∙ local_id-touch target now t

  room_before :
      (n : ℕ) (w : Network)
      → Inv uuid n w
      → (i : NodeId) → n + 1 < 2 ^ 64
      → own w (w.table i).local_id + 1 < 2 ^ 64
  room_before n w v i room = omega (arith, v.few (w.table i).local_id)

  later-Inv : (n : ℕ) (w : Network) → Inv uuid n w → Inv uuid (n + 1) w
  later-Inv n w v = record {
    local = v.local;
    valid = v.valid;
    few = λ i. omega (arith, v.few i);
    below = v.below;
    sent_below = v.sent_below;
  }

  answer-Inv :
      (n : ℕ) (w : Network) (i : NodeId) (now : Instant) (fresh : ℕ → NodeId) (msg : GossipMessage)
      → n + 1 < 2 ^ 64
      → Below uuid (own w) msg
      → Inv uuid n w
      → let (t, reply) = gossip_exchange uuid fresh now msg (w.table i) in
        Inv uuid (n + 1) (post reply (put i t w))
  answer-Inv n w i now fresh msg room low v =
      let t = (gossip_exchange uuid fresh now msg (w.table i)).0 in
      let same = local_id-gossip_exchange uuid fresh now msg (w.table i) ∙ v.local i in
      let valid = gossip_exchange-IsValid uuid fresh now msg (w.table i) (v.valid i) in
      let near =
        gossip_exchange-IsNear (own w) fresh now msg (w.table i) low (room_before n w v i room)
          (table-IsNear n w v i) in
      post-Inv uuid (n + 1) (put i t w) _ (put-Inv uuid n w v i t same valid near) (
        subst (Below uuid (own (put i t w)))
          (sym (answer-gossip_exchange uuid fresh now msg (w.table i)))
          (build-Below uuid (own (put i t w)) now t valid
            (known_own uuid n w v i t same valid near)))

  Step-Inv :
      {n : ℕ} {w w' : Network}
      → n + 1 < 2 ^ 64
      → Step uuid w w'
      → Inv uuid n w
      → Inv uuid (n + 1) w'
  Step-Inv {n} room (send w i now) v =
      post-Inv uuid (n + 1) w _ (later-Inv n w v)
        (build-Below uuid (own w) now (w.table i) (v.valid i) (v.below i))
  Step-Inv {n} room (answer w i now fresh k msg found) v =
      answer-Inv n w i now fresh msg room
        (message_at-Below uuid (own w) k w.sent msg v.sent_below found) v
  Step-Inv {n} room (take_in w i target now fresh k msg found) v =
      put-Inv uuid n w v i _ (local_id-receive fresh now target msg (w.table i) ∙ v.local i)
        (receive-IsValid fresh now target msg (w.table i) (v.valid i))
        (receive-IsNear (own w) fresh now msg (w.table i)
          (message_at-Below uuid (own w) k w.sent msg v.sent_below found) (room_before n w v i room)
          (table-IsNear n w v i) target)
  Step-Inv {n} room (sweep w i now) v =
      put-Inv uuid n w v i _ (local_id-check_timeouts i now (w.table i) ∙ v.local i)
        (check_timeouts-IsValid i now (w.table i) (v.valid i))
        (same-IsNear (own w) (w.table i) _ (local_id-check_timeouts i now (w.table i))
          (known-check_timeouts i now (w.table i)) (table-IsNear n w v i))
  Step-Inv {n} room (joined w i) v =
      put-Inv uuid n w v i _ (local_id-mark_self_alive (w.table i) ∙ v.local i)
        (mark_self_alive-IsValid (w.table i) (v.valid i))
        (mark_self_alive-IsNear (own w) (w.table i) (room_before n w v i room)
          (ap (λ k. known (w.table k) (w.table i).local_id) (v.local i)) (table-IsNear n w v i))

  Reach-Inv : {n : ℕ} {w : Network} → n < 2 ^ 64 → Reach uuid n w → Inv uuid n w
  Reach-Inv room (start seeds now) = record {
    local = λ i. local_id-new i (seeds i) (now i);
    valid = λ i. new-IsValid i (seeds i) (now i);
    few = λ i. omega (arith, known-new i (seeds i) (now i) i);
    below = λ i j. omega (arith, known-new i (seeds i) (now i) j);
    sent_below = tt;
  }
  Reach-Inv room (next {n} r s) = Step-Inv room s (Reach-Inv (omega arith) r)

  -- In every state that a cluster reaches, whatever messages are lost, delayed, reordered or
  -- repeated, nobody knows a higher incarnation of a node than the node has itself. The state is
  -- reached in fewer than 2^64 steps, so that no incarnation has wrapped around.
  pub own_incarnation_highest :
      (n : ℕ) (w : Network) (i j : NodeId)
      → Reach uuid n w
      → n < 2 ^ 64
      → known (w.table i) j ≤ known (w.table j) j
  own_incarnation_highest n w i j r room = (Reach-Inv room r).below i j

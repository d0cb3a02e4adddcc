-- ===== src/Gossip/Invariant.antt =====
-- What holds in a cluster (crates/node/src/gossip) after any steps, and what a new table of one node
-- makes of it.
use mathlib.Core.Path.{subst}
use self_healing_distributed.Prelude.{
  ℕ, zero, suc, ◌+◌, ◌≤◌, ◌≡◌, ◌≢◌, sym, ◌∙◌, some, List, [], ◌∷◌, arith, ℕ_discrete, All,
}
use self_healing_distributed.Types.{NodeId, Instant, UuidText}
use self_healing_distributed.Gossip.Table.{MembershipTable, RemoteEntry}
use self_healing_distributed.Gossip.Exchange.{GossipMessage, build_gossip_message, decode_entries}
use self_healing_distributed.Gossip.Valid.{IsValid}
use self_healing_distributed.Gossip.Converge.{decode-build}
use self_healing_distributed.Gossip.Network.{Network, put, post, message_at}
use self_healing_distributed.Gossip.Known.{known, remote_of-below}
use self_healing_distributed.Gossip.Near.{IsNear}

-- The incarnation that a node has of itself.
abbrev pub own : Network → NodeId → ℕ
own w i = known (w.table i) i

module _ (uuid : UuidText) where
  -- A message reports no node above a bound.
  abbrev pub Below : (NodeId → ℕ) → GossipMessage → Type 0
  Below bound msg =
      (fresh : ℕ → NodeId)
      → All (λ r. r.incarnation ≤ bound r.id) (decode_entries uuid fresh 0 msg.members)

  -- What holds after `n` steps.
  pub record Inv (n : ℕ) (w : Network) : Type 0 where
    pub local : (i : NodeId) → (w.table i).local_id ≡ i
    pub valid : (i : NodeId) → IsValid (w.table i)
    pub few : (i : NodeId) → own w i ≤ n
    pub below : (i j : NodeId) → known (w.table i) j ≤ own w j
    pub sent_below : All (Below (own w)) w.sent

  All-le :
      (low high : NodeId → ℕ) (rs : List RemoteEntry)
      → ((j : NodeId) → low j ≤ high j)
      → All (λ r. r.incarnation ≤ low r.id) rs
      → All (λ r. r.incarnation ≤ high r.id) rs
  All-le low high [] le h = tt
  All-le low high (r ∷ rs) le (h, hs) = (omega (arith, le r.id), All-le low high rs le hs)

  Below-le :
      (low high : NodeId → ℕ) (ms : List GossipMessage)
      → ((j : NodeId) → low j ≤ high j)
      → All (Below low) ms
      → All (Below high) ms
  Below-le low high [] le h = tt
  Below-le low high (m ∷ ms) le (h, hs) =
      ((λ fresh. All-le low high _ le (h fresh)), Below-le low high ms le hs)

  pub message_at-Below :
      (bound : NodeId → ℕ) (n : ℕ) (ms : List GossipMessage) (msg : GossipMessage)
      → All (Below bound) ms
      → message_at n ms ≡ some msg
      → Below bound msg
  message_at-Below bound n [] msg h e = ground arith
  message_at-Below bound zero (m ∷ ms) msg (h, hs) e =
      let same : m ≡ msg = cc in subst (Below bound) same h
  message_at-Below bound (suc n) (m ∷ ms) msg (h, hs) e = message_at-Below bound n ms msg hs e

  pub build-Below :
      (bound : NodeId → ℕ) (now : Instant) (t : MembershipTable)
      → IsValid t
      → ((j : NodeId) → known t j ≤ bound j)
      → Below bound (build_gossip_message uuid now t)
  build-Below bound now t v below fresh =
      rw (decode-build uuid fresh now t) (remote_of-below bound t.members v.keyed v.unique below)

  module _ (n : ℕ) (w : Network) (v : Inv n w) (i : NodeId) (t : MembershipTable)
      (same : t.local_id ≡ i) (valid : IsValid t) (near : IsNear (own w) t) where
    -- The node `i` has a new table.
    abbrev moved : Network
    moved = put i t w

    table_same : (j : NodeId) → i ≡ j → moved.table j ≡ t
    table_same j e = ground arith

    table_other : (j : NodeId) → i ≢ j → moved.table j ≡ w.table j
    table_other j e = ground arith

    grows : (j : NodeId) → own w j ≤ own moved j
    grows j = elim (ℕ_discrete i j) [
      | yes e ↦ rw (table_same j e) (subst (λ k. own w k ≤ known t k) (same ∙ e) near.reached)
      | no e ↦ rw (table_other j e) (omega arith)
    ]

    own-moved : (j : NodeId) → own moved j ≤ n + 1
    own-moved j = elim (ℕ_discrete i j) [
      | yes e ↦
          rw (table_same j e)
            (subst (λ k. known t k ≤ n + 1) (same ∙ e) (omega (arith, near.near, v.few t.local_id)))
      | no e ↦ rw (table_other j e) (omega (arith, v.few j))
    ]

    pub known_own : (j : NodeId) → known t j ≤ own moved j
    known_own j = elim (ℕ_discrete i j) [
      | yes e ↦ rw (table_same j e) (omega arith)
      | no e ↦ omega (arith, near.others j (λ k. e (sym same ∙ sym k)), grows j)
    ]

    known-moved : (k j : NodeId) → known (moved.table k) j ≤ own moved j
    known-moved k j = elim (ℕ_discrete i k) [
      | yes e ↦ subst (λ u. known u j ≤ own moved j) (sym (table_same k e)) (known_own j)
      | no e ↦
          subst (λ u. known u j ≤ own moved j) (sym (table_other k e))
            (omega (arith, v.below k j, grows j))
    ]

    local_id-moved : (k : NodeId) → (moved.table k).local_id ≡ k
    local_id-moved k = elim (ℕ_discrete i k) [
      | yes e ↦ rw (table_same k e) (same ∙ e)
      | no e ↦ rw (table_other k e) (v.local k)
    ]

    moved-IsValid : (k : NodeId) → IsValid (moved.table k)
    moved-IsValid k = elim (ℕ_discrete i k) [
      | yes e ↦ subst IsValid (sym (table_same k e)) valid
      | no e ↦ subst IsValid (sym (table_other k e)) (v.valid k)
    ]

    pub put-Inv : Inv (n + 1) moved
    put-Inv = record {
      local = local_id-moved;
      valid = moved-IsValid;
      few = own-moved;
      below = known-moved;
      sent_below = Below-le (own w) (own moved) w.sent grows v.sent_below;
    }

  pub post-Inv :
      (n : ℕ) (w : Network) (msg : GossipMessage) → Inv n w → Below (own w) msg → Inv n (post msg w)
  post-Inv n w msg v b = record {
    local = v.local;
    valid = v.valid;
    few = v.few;
    below = v.below;
    sent_below = (b, v.sent_below);
  }

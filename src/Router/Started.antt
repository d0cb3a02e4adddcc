-- ===== src/Router/Started.antt =====
-- The ring of a router from its start (crates/router/src/main.rs) through the gossip that it observes
-- (crates/router/src/gossip/mod.rs).
use mathlib.Core.Path.{subst}
use self_healing_distributed.Prelude.{
  ℕ, ◌^◌, ◌<◌, ◌≡◌, ◌≢◌, refl, false, Option, some, List, [], ◌∷◌, ◌++◌, any, arith, Option-cases,
  inl, inr, ◌==◌,
}
use self_healing_distributed.Types.{NodeId, NodeInfo, Bytes, Instant, UuidText}
use self_healing_distributed.Gossip.Exchange.{GossipMessage}
use self_healing_distributed.Ring.HashRing as Ring
use self_healing_distributed.Ring.HashRing.{HashRing, add_node, seen_before, with_vnode_count}
use self_healing_distributed.Ring.Valid.{add_node-IsValid, with_vnode_count-IsValid}
use self_healing_distributed.Ring.Walk.{ids, Distinct}
use self_healing_distributed.Router.Observer.{Observed, exchange_gossip}
use self_healing_distributed.Router.Tracking.{
  IsProper, Distinct-append_last, process_response-IsProper,
}
use self_healing_distributed.Router.Startup.{
  Args, ClusterConfig, RouterStarted, start, started_with, to_node_infos, add_members,
}

-- An exchange with a seed node.
pub record Exchange : Type 0 where
  pub now : Instant
  pub answer : Bytes → Option GossipMessage
  pub addr : Bytes

unfoldable pub observe_all : (Bytes → ℕ) → UuidText → List Exchange → Observed → Observed
unfolding exchange_gossip
observe_all xxh3_64 uuid [] o = o
observe_all xxh3_64 uuid (e ∷ es) o =
    observe_all xxh3_64 uuid es (exchange_gossip xxh3_64 uuid e.now e.answer e.addr o)

-- What the gossip client of a started router works on.
abbrev pub observed : RouterStarted → Observed
observed r = record { ring = r.coordinator.hash_ring; health = r.coordinator.health_monitor }

-- The nodes of the ring, and none of those that are still to be added.
abbrev Apart : List NodeInfo → HashRing → Type 0
Apart [] ring = Unit
Apart (n ∷ ns) ring = (any (λ k. k.id == n.id) ring.nodes ≡ false) × Apart ns ring

any-append_other :
    (x : NodeId) (ns : List NodeInfo) (n : NodeInfo)
    → any (λ k. k.id == x) ns ≡ false
    → n.id ≢ x
    → any (λ k. k.id == x) (ns ++ n ∷ []) ≡ false
any-append_other x [] n h other = ground arith
any-append_other x (k ∷ ns) n h other = ground (arith, any-append_other x ns n)

module _ (xxh3_64 : Bytes → ℕ) (uuid : UuidText) (bounded : (b : Bytes) → xxh3_64 b < 2 ^ 64) where
  Apart-add_node :
      (m : NodeInfo) (ns : List NodeInfo) (ring : HashRing)
      → seen_before m.id (ids ns) ≡ false
      → Apart ns ring
      → Apart ns (add_node xxh3_64 uuid m ring)
  unfolding add_node
  Apart-add_node m [] ring new apart = tt
  Apart-add_node m (n ∷ ns) ring new (h, apart) = (
    any-append_other n.id ring.nodes m h (λ e. ground arith),
    Apart-add_node m ns ring (ground arith) apart,
  )

  add_node-IsProper :
      (m : NodeInfo) (ring : HashRing)
      → any (λ k. k.id == m.id) ring.nodes ≡ false
      → IsProper ring
      → IsProper (add_node xxh3_64 uuid m ring)
  add_node-IsProper m ring new p = record {
    valid = add_node-IsValid xxh3_64 bounded uuid m ring p.valid;
    once = unfold add_node in Distinct-append_last ring.nodes m new p.once;
  }

  add_members-IsProper :
      (members : List NodeInfo) (ring : HashRing)
      → Distinct (ids members)
      → Apart members ring
      → IsProper ring
      → IsProper (add_members xxh3_64 uuid members ring)
  unfolding add_members
  add_members-IsProper [] ring d apart p = p
  add_members-IsProper (m ∷ ms) ring (new, d) (h, apart) p =
      add_members-IsProper ms (add_node xxh3_64 uuid m ring) d (Apart-add_node m ms ring new apart)
        (add_node-IsProper m ring h p)

  Apart-empty : (ns : List NodeInfo) → Apart ns Ring.new
  unfolding Ring.new
  Apart-empty [] = tt
  Apart-empty (n ∷ ns) = (refl, Apart-empty ns)

  new-IsProper : IsProper Ring.new
  unfolding Ring.new with_vnode_count
  new-IsProper = record { valid = with_vnode_count-IsValid Ring.default_vnode_count; once = tt }

  start-IsProper :
      (args : Args) (members : List NodeInfo) (r : RouterStarted)
      → Distinct (ids members)
      → started_with xxh3_64 uuid args (some members) ≡ some r
      → IsProper r.coordinator.hash_ring
  start-IsProper args members r d h =
      let same : add_members xxh3_64 uuid members Ring.new ≡ r.coordinator.hash_ring =
        ground arith in
      subst IsProper same
        (add_members-IsProper members Ring.new d (Apart-empty members) new-IsProper)

  exchange_gossip-IsProper :
      (e : Exchange) (o : Observed)
      → IsProper o.ring
      → IsProper (exchange_gossip xxh3_64 uuid e.now e.answer e.addr o).ring
  unfolding exchange_gossip
  exchange_gossip-IsProper e o p = elim (Option-cases (e.answer e.addr)) [
    | inl fails ↦ rw (fails, exchange_gossip) p
    | inr (m, answers) ↦
        rw (answers, exchange_gossip)
          (process_response-IsProper xxh3_64 uuid e.now bounded m.members o p)
  ]

  observe_all-IsProper :
      (es : List Exchange) (o : Observed)
      → IsProper o.ring
      → IsProper (observe_all xxh3_64 uuid es o).ring
  unfolding observe_all
  observe_all-IsProper [] o p = p
  observe_all-IsProper (e ∷ es) o p =
      observe_all-IsProper es (exchange_gossip xxh3_64 uuid e.now e.answer e.addr o)
        (exchange_gossip-IsProper e o p)

  -- From the start of the router on, whatever seed nodes answer to its gossip, its ring names every
  -- node once, and its positions are in order, below 2^64, and each of a node that it names. The
  -- identities of the configuration parse and are distinct, and the hash function has 64 bits.
  pub start-observe_all-IsProper :
      (args : Args) (config : ClusterConfig) (members : List NodeInfo) (r : RouterStarted)
      (es : List Exchange)
      → to_node_infos uuid config ≡ some members
      → Distinct (ids members)
      → start xxh3_64 uuid args config ≡ some r
      → IsProper (observe_all xxh3_64 uuid es (observed r)).ring
  unfolding start
  start-observe_all-IsProper args config members r es parsed d started =
      observe_all-IsProper es (observed r) (start-IsProper args members r d (rw parsed at started))

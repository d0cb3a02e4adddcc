-- ===== src/Gossip/Spread.antt =====
-- How what the nodes of a cluster know spreads, when one node exchanges gossip with all others in
-- turn (`gossip_round` of crates/node/src/gossip/protocol.rs, `gossip_exchange` of
-- crates/node/src/gossip/server.rs).
use self_healing_distributed.Prelude.{
  ℕ, suc, ◌≤◌, max, ◌≡◌, ◌≢◌, refl, ap, ◌∙◌, Option, none, some, List, [], ◌∷◌, arith, All,
}
use self_healing_distributed.Types.{NodeId, Bytes, Instant, UuidText}
use self_healing_distributed.Gossip.Table.{MembershipTable, MemberEntry}
use self_healing_distributed.Gossip.View.{Version, view, weight, weight-injective, absorb_all}
use self_healing_distributed.Gossip.Valid.{IsValid}
use self_healing_distributed.Gossip.Exchange.{
  GossipMessage, build_gossip_message, gossip_exchange, gossip_targets,
}
use self_healing_distributed.Gossip.Converge.{
  report_of, exchange_agrees, gossip_exchange-IsValid, local_id-gossip_exchange,
}
use self_healing_distributed.Gossip.Incarnation.{receive-IsValid, local_id-receive}

-- How recent what is known of a node is.
level : Option Version → ℕ
level none = 0
level (some v) = suc (weight v)

level-injective : (x y : Option Version) → level x ≡ level y → x ≡ y
unfolding level
level-injective none none h = refl
level-injective none (some w) h = ground arith
level-injective (some v) none h = ground arith
level-injective (some v) (some w) h = ap some (weight-injective v w (omega arith))

-- The newer of two, as an exchange gives it to both.
abbrev pub newer : Option Version → Option Version → Option Version
newer x y = absorb_all y (report_of x)

level-newer : (x y : Option Version) → level (newer x y) ≡ max (level x) (level y)
unfolding level absorb_all
level-newer none none = omega arith
level-newer none (some w) = omega arith
level-newer (some v) none = omega arith
level-newer (some v) (some w) = ground arith

-- When an exchange takes place, for whom, and what either side draws.
pub record Visit : Type 0 where
  pub now : Instant
  pub now' : Instant
  pub fresh : ℕ → NodeId
  pub fresh' : ℕ → NodeId
  pub target : MemberEntry

module _ (uuid : UuidText) where
  -- The table of the one that asks after an exchange, and of the one that answers.
  unfoldable asked : Visit → MembershipTable → MembershipTable → MembershipTable
  asked v b a =
      let answer = λ (addr : Bytes) (msg : GossipMessage).
        some ((gossip_exchange uuid v.fresh' v.now' msg b).1) in
      gossip_targets uuid answer v.fresh v.now (v.target ∷ []) a

  unfoldable told : Visit → MembershipTable → MembershipTable → MembershipTable
  told v b a = (gossip_exchange uuid v.fresh' v.now' (build_gossip_message uuid v.now a) b).0

  -- The exchanges of one node with others, one after the other, from the i-th on.
  unfoldable pub tour :
      (ℕ → Visit)
      → ℕ
      → List MembershipTable
      → MembershipTable
      → MembershipTable × List MembershipTable
  unfolding asked told
  tour visits i [] a = (a, [])
  tour visits i (b ∷ bs) a =
      let (a', bs') = tour visits (suc i) bs (asked (visits i) b a) in
      (a', told (visits i) b a ∷ bs')

  -- A table of a node other than `j`.
  pub record IsThird (j : NodeId) (t : MembershipTable) : Type 0 where
    pub valid : IsValid t
    pub third : j ≢ t.local_id

  told-IsThird :
      (j : NodeId) (v : Visit) (b a : MembershipTable) → IsThird j b → IsThird j (told v b a)
  unfolding told
  told-IsThird j v b a h = record {
    valid =
        gossip_exchange-IsValid uuid v.fresh' v.now' (build_gossip_message uuid v.now a) b h.valid;
    third = λ e.
        h.third
          (e ∙ local_id-gossip_exchange uuid v.fresh' v.now' (build_gossip_message uuid v.now a) b);
  }

  asked-IsThird :
      (j : NodeId) (v : Visit) (b a : MembershipTable) → IsThird j a → IsThird j (asked v b a)
  unfolding asked gossip_targets
  asked-IsThird j v b a h =
      let answer = (gossip_exchange uuid v.fresh' v.now' (build_gossip_message uuid v.now a) b).1 in
      record {
        valid = receive-IsValid uuid v.fresh v.now v.target.info.id answer a h.valid;
        third = λ e. h.third (e ∙ local_id-receive uuid v.fresh v.now v.target.info.id answer a);
      }

  view-asked :
      (j : NodeId) (v : Visit) (b a : MembershipTable)
      → IsThird j a
      → IsThird j b
      → (view (asked v b a) j ≡ newer (view a j) (view b j))
        × (view (told v b a) j ≡ newer (view a j) (view b j))
  unfolding asked told
  view-asked j v b a ha hb =
      let (same, both) =
        exchange_agrees uuid v.fresh v.fresh' v.now v.now' v.target a b j ha.valid hb.valid ha.third
          hb.third in
      (same ∙ both, both)

  -- The newest of what is known and of what the others know.
  abbrev pub newest : NodeId → List MembershipTable → Option Version → Option Version
  newest j [] o = o
  newest j (b ∷ bs) o = newest j bs (newer o (view b j))

  -- What a tour comes to.
  record Toured (j : NodeId) (bs : List MembershipTable) (a a' : MembershipTable)
      (bs' : List MembershipTable) : Type 0 where
    hub : IsThird j a'
    others : All (IsThird j) bs'
    known : view a' j ≡ newest j bs (view a j)
    rises : level (view a j) ≤ level (view a' j)
    between :
        All
          (λ b. (level (view a j) ≤ level (view b j)) × (level (view b j) ≤ level (view a' j)))
          bs'

  All-imp :
      (P Q : MembershipTable → Type 0) (ts : List MembershipTable)
      → ((t : MembershipTable) → P t → Q t)
      → All P ts
      → All Q ts
  All-imp P Q [] f h = tt
  All-imp P Q (t ∷ ts) f (h, hs) = (f t h, All-imp P Q ts f hs)

  tour-Toured :
      (j : NodeId) (visits : ℕ → Visit) (i : ℕ) (bs : List MembershipTable) (a : MembershipTable)
      → IsThird j a
      → All (IsThird j) bs
      → Toured j bs a (tour visits i bs a).0 (tour visits i bs a).1
  unfolding tour
  tour-Toured j visits i [] a ha hbs = record {
    hub = ha;
    others = tt;
    known = refl;
    rises = omega arith;
    between = tt;
  }
  tour-Toured j visits i (b ∷ bs) a ha (hb, hbs) =
      let v = visits i in
      let a1 = asked v b a in
      let (seen, seen') = view-asked j v b a ha hb in
      let up = ap level seen ∙ level-newer (view a j) (view b j) in
      let up' = ap level seen' ∙ level-newer (view a j) (view b j) in
      let rest = tour-Toured j visits (suc i) bs a1 (asked-IsThird j v b a ha) hbs in
      record {
        hub = rest.hub;
        others = (told-IsThird j v b a hb, rest.others);
        known = rest.known ∙ ap (newest j bs) seen;
        rises = omega (arith, up, rest.rises);
        between = (
          (omega (arith, up'), omega (arith, up, up', rest.rises)),
          All-imp _ _ _ (λ t (low, high). (omega (arith, up, low), high)) rest.between,
        );
      }

  newest-same :
      (j : NodeId) (bs : List MembershipTable) (o : Option Version)
      → All (λ b. level (view b j) ≤ level o) bs
      → newest j bs o ≡ o
  newest-same j [] o h = refl
  newest-same j (b ∷ bs) o (h, hs) =
      let same : newer o (view b j) ≡ o =
        level-injective _ _ (omega (arith, level-newer o (view b j), h)) in
      ap (newest j bs) same ∙ newest-same j bs o hs

  -- When a node has exchanged gossip with all others in turn, and then once more, all hold the same
  -- version of every node that takes no part: the newest that any of them held at first. The tables
  -- are valid, and nothing else happens in between.
  pub two_tours_agree :
      (j : NodeId) (first second : ℕ → Visit) (bs : List MembershipTable) (a : MembershipTable)
      → IsThird j a
      → All (IsThird j) bs
      → let (a1, bs1) = tour first 0 bs a in
        let (a2, bs2) = tour second 0 bs1 a1 in
        (view a2 j ≡ newest j bs (view a j)) × All (λ b. view b j ≡ newest j bs (view a j)) bs2
  two_tours_agree j first second bs a ha hbs =
      let (a1, bs1) = tour first 0 bs a in
      let one = tour-Toured j first 0 bs a ha hbs in
      let two = tour-Toured j second 0 bs1 a1 one.hub one.others in
      let still = newest-same j bs1 (view a1 j) (All-imp _ _ _ (λ t h. h.1) one.between) in
      let top = two.known ∙ still in
      (
        top ∙ one.known,
        All-imp _ _ _
            (λ t (low, high).
              level-injective _ _ (omega (arith, low, high, ap level top)) ∙ one.known)
            two.between,
      )

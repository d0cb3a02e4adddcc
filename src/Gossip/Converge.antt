-- ===== src/Gossip/Converge.antt =====
-- One exchange of gossip, in both directions, makes two nodes agree (`gossip_exchange` of
-- crates/node/src/gossip/server.rs and `gossip_round` of crates/node/src/gossip/protocol.rs).
use self_healing_distributed.Prelude.{
  ℕ, suc, ◌≡◌, ◌≢◌, refl, sym, ap, ◌∙◌, Option, none, some, List, [], ◌∷◌, map, arith, ℕ_discrete,
}
use self_healing_distributed.Prelude.Map
use self_healing_distributed.Prelude.Map.{Map, IsUnique}
use self_healing_distributed.Types.{NodeId, Bytes, Instant, UuidText}
use self_healing_distributed.Gossip.Table.{
  MemberStatus, alive, suspect, dead, joining, MembershipTable, MemberEntry, RemoteEntry, touch,
}
use self_healing_distributed.Gossip.Status.{lookup-touch, local_id-touch}
use self_healing_distributed.Gossip.View.{
  Version, view, view_of, absorb_all, reports, weight-injective,
}
use self_healing_distributed.Gossip.Merge.{view-merge, local_id-merge}
use self_healing_distributed.Gossip.Exchange.{
  GossipMessage, to_proto, from_proto, build_gossip_message, decode_entries, gossip_exchange,
  process_gossip_response, gossip_targets, encode_entry, touch_sender,
}
use self_healing_distributed.Gossip.Valid.{IsValid, IsKeyed, merge-IsValid, touch-IsValid}

-- A status survives the wire.
pub from_proto-to_proto : (s : MemberStatus) → from_proto (to_proto s) ≡ s
unfolding from_proto to_proto
from_proto-to_proto alive = refl
from_proto-to_proto suspect = refl
from_proto-to_proto dead = refl
from_proto-to_proto joining = refl

-- What `merge` is given of an entry.
abbrev pub remote_of : MemberEntry → RemoteEntry
remote_of e = record {
  id = e.info.id;
  addr = e.info.addr;
  status = e.status;
  incarnation = e.incarnation;
}

view-touch :
    (id : NodeId) (now : Instant) (t : MembershipTable) (j : NodeId)
    → view (touch id now t) j ≡ view t j
view-touch id now t j = ground (arith, lookup-touch id t j now)

reports_of_absent :
    (j : NodeId) (m : Map NodeId MemberEntry)
    → IsKeyed m
    → Map.get ℕ_discrete j m ≡ none
    → reports j (map (λ e. remote_of e.1) m) ≡ []
unfolding reports Map.get
reports_of_absent j [] k h = refl
reports_of_absent j ((i, e) ∷ m) (p, k) h = ground (arith, reports_of_absent j m k)

-- The report of a table about a node is its own version.
abbrev pub report_of : Option Version → List Version
report_of none = []
report_of (some v) = v ∷ []

reports_of_members :
    (j : NodeId) (m : Map NodeId MemberEntry)
    → IsKeyed m
    → IsUnique ℕ_discrete m
    → reports j (map (λ e. remote_of e.1) m) ≡ report_of (view_of (Map.get ℕ_discrete j m))
unfolding reports Map.get
reports_of_members j [] k u = refl
reports_of_members j ((i, e) ∷ m) (p, k) (f, u) =
    ground (arith, reports_of_members j m k u, reports_of_absent j m k)

module _ (uuid : UuidText) where
  decode-encode :
      (fresh : ℕ → NodeId) (i : ℕ) (now : Instant) (m : Map NodeId MemberEntry)
      → decode_entries uuid fresh i (map (encode_entry uuid now) (map (λ e. e.1) m))
        ≡ map (λ e. remote_of e.1) m
  unfolding decode_entries
  decode-encode fresh i now [] = refl
  decode-encode fresh i now ((k, e) ∷ m) = ground (
    arith,
    decode-encode fresh (suc i) now m,
    from_proto-to_proto e.status,
    uuid.parse_str-to_string e.info.id,
  )

  -- What a receiver decodes from a node's message is the node's table, entry by entry.
  pub decode-build :
      (fresh : ℕ → NodeId) (now : Instant) (t : MembershipTable)
      → decode_entries uuid fresh 0 (build_gossip_message uuid now t).members
        ≡ map (λ e. remote_of e.1) t.members
  unfolding build_gossip_message
  decode-build fresh now t = decode-encode fresh 0 now t.members

  touch_sender-IsValid :
      (o : Option NodeId) (now : Instant) (t : MembershipTable)
      → IsValid t
      → IsValid (touch_sender uuid o now t)
  unfolding touch_sender
  touch_sender-IsValid none now t v = v
  touch_sender-IsValid (some id) now t v = touch-IsValid id now t v

  view-touch_sender :
      (o : Option NodeId) (now : Instant) (t : MembershipTable) (j : NodeId)
      → view (touch_sender uuid o now t) j ≡ view t j
  unfolding touch_sender
  view-touch_sender none now t j = refl
  view-touch_sender (some id) now t j = view-touch id now t j

  -- A node keeps its table valid when it answers a message.
  pub gossip_exchange-IsValid :
      (fresh : ℕ → NodeId) (now : Instant) (msg : GossipMessage) (t : MembershipTable)
      → IsValid t
      → IsValid (gossip_exchange uuid fresh now msg t).0
  unfolding gossip_exchange
  gossip_exchange-IsValid fresh now msg t v = touch_sender-IsValid _ now _ (merge-IsValid now _ t v)

  pub local_id-gossip_exchange :
      (fresh : ℕ → NodeId) (now : Instant) (msg : GossipMessage) (t : MembershipTable)
      → (gossip_exchange uuid fresh now msg t).0.local_id ≡ t.local_id
  unfolding gossip_exchange touch_sender
  local_id-gossip_exchange fresh now msg t =
      grind (arith, local_id-touch, local_id-merge now (decode_entries uuid fresh 0 msg.members) t)

  view-gossip_exchange :
      (fresh : ℕ → NodeId) (sent now : Instant) (a b : MembershipTable) (j : NodeId)
      → IsValid a
      → j ≢ b.local_id
      → view (gossip_exchange uuid fresh now (build_gossip_message uuid sent a) b).0 j
        ≡ absorb_all (view b j) (report_of (view a j))
  unfolding gossip_exchange
  view-gossip_exchange fresh sent now a b j v h =
      view-touch_sender _ now _ j
      ∙ view-merge now _ b j h
      ∙ ap (λ rs. absorb_all (view b j) (reports j rs)) (decode-build fresh sent a)
      ∙ ap (absorb_all (view b j)) (reports_of_members j a.members v.keyed v.unique)

  -- To hear back what one has told adds nothing.
  echo :
      (x y : Option Version)
      → absorb_all x (report_of (absorb_all y (report_of x))) ≡ absorb_all y (report_of x)
  unfolding absorb_all
  echo none none = refl
  echo none (some v) = refl
  echo (some u) none = ground arith
  echo (some u) (some v) = ground (arith, weight-injective u v)

  pub answer-gossip_exchange :
      (fresh : ℕ → NodeId) (now : Instant) (msg : GossipMessage) (t : MembershipTable)
      → let (t', answer) = gossip_exchange uuid fresh now msg t in
        answer ≡ build_gossip_message uuid now t'
  unfolding gossip_exchange
  answer-gossip_exchange fresh now msg t = refl

  view-process :
      (fresh : ℕ → NodeId) (sent now : Instant) (id : NodeId) (a b : MembershipTable) (j : NodeId)
      → IsValid b
      → j ≢ a.local_id
      → view
          (process_gossip_response uuid fresh now
            (build_gossip_message uuid sent b)
            (touch id now a))
          j
        ≡ absorb_all (view a j) (report_of (view b j))
  unfolding process_gossip_response
  view-process fresh sent now id a b j v h =
      view-merge now _ (touch id now a) j (rw (local_id-touch id now a) h)
      ∙ ap (λ rs. absorb_all (view (touch id now a) j) (reports j rs)) (decode-build fresh sent b)
      ∙ ap (absorb_all (view (touch id now a) j)) (reports_of_members j b.members v.keyed v.unique)
      ∙ ap (λ o. absorb_all o (report_of (view b j))) (view-touch id now a j)

  -- One exchange makes two nodes agree. After the one has sent its table to the other, and has
  -- taken in the answer, both hold the same version of every third node: the newer of the two that
  -- they held. The tables are valid before.
  pub exchange_agrees :
      (fresh fresh' : ℕ → NodeId) (now now' : Instant) (target : MemberEntry)
      (a b : MembershipTable) (j : NodeId)
      → IsValid a
      → IsValid b
      → j ≢ a.local_id
      → j ≢ b.local_id
      → let answer = λ (addr : Bytes) (msg : GossipMessage).
        some ((gossip_exchange uuid fresh' now' msg b).1) in
        let a' = gossip_targets uuid answer fresh now (target ∷ []) a in
        let b' = (gossip_exchange uuid fresh' now' (build_gossip_message uuid now a) b).0 in
        (view a' j ≡ view b' j) × (view b' j ≡ absorb_all (view b j) (report_of (view a j)))
  unfolding gossip_targets
  exchange_agrees fresh fresh' now now' target a b j va vb ja jb =
      let b' = (gossip_exchange uuid fresh' now' (build_gossip_message uuid now a) b).0 in
      let seen = view-gossip_exchange fresh' now now' a b j va jb in
      let valid = gossip_exchange-IsValid fresh' now' (build_gossip_message uuid now a) b vb in
      let told = answer-gossip_exchange fresh' now' (build_gossip_message uuid now a) b in
      (
        rw told (view-process fresh now' now target.info.id a b' j valid ja)
            ∙ ap (λ o. absorb_all (view a j) (report_of o)) seen
            ∙ echo (view a j) (view b j)
            ∙ sym seen,
        seen,
      )

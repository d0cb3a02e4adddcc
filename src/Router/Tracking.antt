-- ===== src/Router/Tracking.antt =====
-- What the router routes to after the gossip observer (crates/router/src/gossip/mod.rs) has read a
-- report of a node.
use self_healing_distributed.Prelude.{
  ℕ, ◌+◌, ◌^◌, ◌≤◌, ◌<◌, ◌≡◌, refl, true, false, not, Option, none, some, List, [], ◌∷◌, ◌++◌, keep,
  any, arith, Bool-cases, inl, inr, ◌==◌, ◌||◌,
}
use self_healing_distributed.Types.{NodeId, NodeInfo, Bytes, Instant, UuidText}
use self_healing_distributed.Gossip.Table.{MemberStatus, alive, suspect, dead, joining}
use self_healing_distributed.Gossip.Exchange.{ProtoMemberEntry}
use self_healing_distributed.Ring.HashRing.{HashRing, add_node, remove_node, seen_before}
use self_healing_distributed.Ring.Valid.{IsValid, add_node-IsValid, remove_node-IsValid}
use self_healing_distributed.Router.Health.{
  NodeHealth, entry_or_alive, HealthMonitor, NodeHealthEntry, mark_alive, mark_joining,
  record_failure, is_alive, lookup, fail_entry,
}
use self_healing_distributed.Router.Health
use self_healing_distributed.Router.Escalation.{
  lookup-record_failure, lookup-mark_alive, lookup-mark_joining, threshold-record_failure,
}
use self_healing_distributed.Router.Observer.{
  Observed, in_ring, observe, observe_member, observe_parsed, process_response, try_from,
}
use self_healing_distributed.Ring.Walk.{ids, Distinct}

any-append_last :
    (x : NodeId) (ns : List NodeInfo) (n : NodeInfo)
    → n.id ≡ x
    → any (λ k. k.id == x) (ns ++ n ∷ []) ≡ true
any-append_last x [] n h = ground arith
any-append_last x (k ∷ ns) n h = ground (arith, any-append_last x ns n h)

any-keep_others :
    (x : NodeId) (ns : List NodeInfo)
    → any (λ k. k.id == x) (keep (λ k. not (k.id == x)) ns) ≡ false
any-keep_others x [] = refl
any-keep_others x (k ∷ ns) = ground (arith, any-keep_others x ns)

-- The failures counted for a node leave room for three more.
abbrev pub HasRoom : Option NodeHealthEntry → Type 0
HasRoom none = Unit
HasRoom (some e) = e.consecutive_failures + 3 < 2 ^ 32

health-three_failures :
    (threshold : ℕ) (now : Instant) (health : NodeHealth) (checked : Instant) (count : ℕ)
    → threshold ≤ 3
    → count + 3 < 2 ^ 32
    → let fail = fail_entry threshold now in
      (fail (
        fail (
          fail (record {
            health = health;
            last_checked = checked;
            consecutive_failures = count;
          })))).health
      ≡ Health.dead
unfolding fail_entry
health-three_failures threshold now Health.alive checked count low room = ground arith
health-three_failures threshold now Health.suspect checked count low room = ground arith
health-three_failures threshold now Health.dead checked count low room = ground arith
health-three_failures threshold now Health.joining checked count low room = ground arith

three_failures :
    (id : NodeId) (now : Instant) (m : HealthMonitor)
    → m.failure_threshold ≤ 3
    → HasRoom (lookup m id)
    → is_alive id (record_failure id now (record_failure id now (record_failure id now m))) ≡ false
unfolding is_alive
three_failures id now m low room =
    let m1 = record_failure id now m in
    let m2 = record_failure id now m1 in
    let e = entry_or_alive now (lookup m id) in
    ground (
      arith,
      lookup-record_failure id now m id,
      lookup-record_failure id now m1 id,
      lookup-record_failure id now m2 id,
      threshold-record_failure id now m,
      threshold-record_failure id now m1,
      health-three_failures m.failure_threshold now e.health e.last_checked e.consecutive_failures
          low,
    )

module _ (xxh3_64 : Bytes → ℕ) (uuid : UuidText) (now : Instant) (id : NodeId) (addr : Bytes)
    (o : Observed) where
  -- A report that a node is dead takes it off the ring and out of routing, where the threshold of
  -- failures is at most 3, as it is by default, and the count of failures fits.
  pub observe_dead :
      o.health.failure_threshold ≤ 3
      → HasRoom (lookup o.health id)
      → let o' = observe xxh3_64 uuid now id addr dead o in
        (in_ring id o'.ring ≡ false) × (is_alive id o'.health ≡ false)
  unfolding observe remove_node
  observe_dead low room =
      (ground (arith, any-keep_others id o.ring.nodes), three_failures id now o.health low room)

  -- A report that a node is alive puts it on the ring and into routing; a report that it is joining
  -- takes it out of routing and leaves the ring as it was.
  pub observe_alive :
      let up = observe xxh3_64 uuid now id addr alive o in
      let down = observe xxh3_64 uuid now id addr joining o in
      (in_ring id up.ring ≡ true)
      × (is_alive id up.health ≡ true)
      × (down.ring ≡ o.ring)
      × (is_alive id down.health ≡ false)
  unfolding observe is_alive add_node
  observe_alive = (
    ground (arith, any-append_last id o.ring.nodes (record { id = id; addr = addr })),
    ground (arith, lookup-mark_alive id now o.health id),
    refl,
    ground (arith, lookup-mark_joining id now o.health id),
  )

  observe-IsValid :
      (bounded : (b : Bytes) → xxh3_64 b < 2 ^ 64) (s : MemberStatus)
      → IsValid o.ring
      → IsValid (observe xxh3_64 uuid now id addr s o).ring
  unfolding observe
  observe-IsValid bounded alive v = elim (Bool-cases (in_ring id o.ring)) [
    | inl here ↦ rw here v
    | inr absent ↦
        rw absent (add_node-IsValid xxh3_64 bounded uuid (record { id = id; addr = addr }) o.ring v)
  ]
  observe-IsValid bounded suspect v = v
  observe-IsValid bounded dead v = elim (Bool-cases (in_ring id o.ring)) [
    | inl here ↦ rw here (remove_node-IsValid id o.ring v)
    | inr absent ↦ rw absent v
  ]
  observe-IsValid bounded joining v = v

seen-append_last :
    (x : NodeId) (n : NodeInfo) (ns : List NodeInfo)
    → seen_before x (ids (ns ++ n ∷ [])) ≡ (seen_before x (ids ns) || (n.id == x))
seen-append_last x n [] = ground arith
seen-append_last x n (k ∷ ns) = ground (arith, seen-append_last x n ns)

seen-keep :
    (x y : NodeId) (ns : List NodeInfo)
    → seen_before x (ids ns) ≡ false
    → seen_before x (ids (keep (λ k. not (k.id == y)) ns)) ≡ false
seen-keep x y [] h = refl
seen-keep x y (k ∷ ns) h = ground (arith, seen-keep x y ns)

pub Distinct-append_last :
    (ns : List NodeInfo) (n : NodeInfo)
    → any (λ k. k.id == n.id) ns ≡ false
    → Distinct (ids ns)
    → Distinct (ids (ns ++ n ∷ []))
Distinct-append_last [] n h d = (refl, tt)
Distinct-append_last (k ∷ ns) n h (new, d) =
    (ground (arith, seen-append_last k.id n ns), Distinct-append_last ns n (ground arith) d)

Distinct-keep :
    (x : NodeId) (ns : List NodeInfo)
    → Distinct (ids ns)
    → Distinct (ids (keep (λ k. not (k.id == x)) ns))
Distinct-keep x [] d = tt
Distinct-keep x (k ∷ ns) (new, d) = elim (Bool-cases (k.id == x)) [
  | inl gone ↦ rw (gone, keep) (Distinct-keep x ns d)
  | inr stays ↦ rw (stays, keep) (seen-keep k.id x ns new, Distinct-keep x ns d)
]

-- A ring that is valid and names every node once.
pub record IsProper (r : HashRing) : Type 0 where
  pub valid : IsValid r
  pub once : Distinct (ids r.nodes)

module _ (xxh3_64 : Bytes → ℕ) (uuid : UuidText) (now : Instant)
    (bounded : (b : Bytes) → xxh3_64 b < 2 ^ 64) where
  observe_alive-once :
      (id : NodeId) (addr : Bytes) (o : Observed)
      → Distinct (ids o.ring.nodes)
      → Distinct (ids (observe xxh3_64 uuid now id addr alive o).ring.nodes)
  unfolding observe add_node
  observe_alive-once id addr o d = elim (Bool-cases (in_ring id o.ring)) [
    | inl here ↦ rw here d
    | inr absent ↦
        rw absent (Distinct-append_last o.ring.nodes (record { id = id; addr = addr }) absent d)
  ]

  observe_dead-once :
      (id : NodeId) (addr : Bytes) (o : Observed)
      → Distinct (ids o.ring.nodes)
      → Distinct (ids (observe xxh3_64 uuid now id addr dead o).ring.nodes)
  unfolding observe remove_node
  observe_dead-once id addr o d = elim (Bool-cases (in_ring id o.ring)) [
    | inl here ↦ rw here (Distinct-keep id o.ring.nodes d)
    | inr absent ↦ rw absent d
  ]

  observe-once :
      (id : NodeId) (addr : Bytes) (s : MemberStatus) (o : Observed)
      → Distinct (ids o.ring.nodes)
      → Distinct (ids (observe xxh3_64 uuid now id addr s o).ring.nodes)
  unfolding observe
  observe-once id addr alive o d = observe_alive-once id addr o d
  observe-once id addr suspect o d = d
  observe-once id addr dead o d = observe_dead-once id addr o d
  observe-once id addr joining o d = d

  observe_parsed-IsProper :
      (addr : Bytes) (id : Option NodeId) (s : Option MemberStatus) (o : Observed)
      → IsProper o.ring
      → IsProper (observe_parsed xxh3_64 uuid now addr id s o).ring
  observe_parsed-IsProper addr none s o v = v
  observe_parsed-IsProper addr (some id) none o v = v
  observe_parsed-IsProper addr (some id) (some s) o v = record {
    valid = observe-IsValid xxh3_64 uuid now id addr o bounded s v.valid;
    once = observe-once id addr s o v.once;
  }

  -- Whatever a seed node answers, the ring that the router keeps stays valid, and names every node
  -- once. The hash function has 64 bits.
  pub process_response-IsProper :
      (members : List ProtoMemberEntry) (o : Observed)
      → IsProper o.ring
      → IsProper (process_response xxh3_64 uuid now members o).ring
  unfolding process_response observe_member
  process_response-IsProper [] o v = v
  process_response-IsProper (member ∷ members) o v =
      process_response-IsProper members (observe_member xxh3_64 uuid now member o) (
        observe_parsed-IsProper member.addr (uuid.parse_str member.node_id) (try_from member.status)
          o v)

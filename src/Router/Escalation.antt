-- ===== src/Router/Escalation.antt =====
-- How failures of a node add up in `HealthMonitor` (crates/router/src/health/mod.rs).
use mathlib.Core.Path.{subst}
use self_healing_distributed.Prelude.{
  ℕ, zero, suc, ◌+◌, ◌^◌, ◌<◌, max, ◌≡◌, refl, some, List, [], ◌∷◌, arith, leb, ltb, if◌then◌else◌,
  ite, ℕ_discrete, length,
}
use self_healing_distributed.Prelude.Map.{get-insert}
use self_healing_distributed.Types.{NodeId, Instant}
use self_healing_distributed.Router.Health.{
  NodeHealth, alive, suspect, dead, joining, NodeHealthEntry, HealthMonitor, lookup, mark_alive,
  mark_joining, record_failure, fail_entry, entry_or_alive, is_alive, routable,
}

pub lookup-record_failure :
    (id : NodeId) (now : Instant) (m : HealthMonitor) (j : NodeId)
    → lookup (record_failure id now m) j
      ≡ ite
          (ℕ_discrete id j)
          (some (fail_entry m.failure_threshold now (entry_or_alive now (lookup m id))))
          (lookup m j)
unfolding record_failure
lookup-record_failure id now m j = get-insert ℕ_discrete id j _ m.nodes

pub lookup-mark_alive :
    (id : NodeId) (now : Instant) (m : HealthMonitor) (j : NodeId)
    → lookup (mark_alive id now m) j
      ≡ ite
          (ℕ_discrete id j)
          (some (record { health = alive; last_checked = now; consecutive_failures = 0 }))
          (lookup m j)
unfolding mark_alive
lookup-mark_alive id now m j = get-insert ℕ_discrete id j _ m.nodes

pub lookup-mark_joining :
    (id : NodeId) (now : Instant) (m : HealthMonitor) (j : NodeId)
    → lookup (mark_joining id now m) j
      ≡ ite
          (ℕ_discrete id j)
          (some (record { health = joining; last_checked = now; consecutive_failures = 0 }))
          (lookup m j)
unfolding mark_joining
lookup-mark_joining id now m j = get-insert ℕ_discrete id j _ m.nodes

pub threshold-record_failure :
    (id : NodeId) (now : Instant) (m : HealthMonitor)
    → (record_failure id now m).failure_threshold ≡ m.failure_threshold
unfolding record_failure
threshold-record_failure id now m = refl

-- A failure, at each of the given times, of one node.
unfoldable pub failures : NodeId → List Instant → HealthMonitor → HealthMonitor
failures id [] m = m
failures id (now ∷ nows) m = failures id nows (record_failure id now m)

-- The health of a node that was alive and has failed n times since.
abbrev pub health_after : ℕ → ℕ → NodeHealth
health_after threshold zero = alive
health_after threshold (suc n) = if leb (max 2 threshold) (suc n) then dead else suspect

-- A state that `n` failures since the node was last alive have brought about.
record HasFailed (threshold n : ℕ) (e : NodeHealthEntry) : Type 0 where
  count : e.consecutive_failures ≡ n
  state : e.health ≡ health_after threshold n

HasFailed-fail_entry :
    (threshold n : ℕ) (now : Instant) (e : NodeHealthEntry)
    → suc n < 2 ^ 32
    → HasFailed threshold n e
    → HasFailed threshold (suc n) (fail_entry threshold now e)
unfolding fail_entry
HasFailed-fail_entry threshold zero now e room h = ground arith
HasFailed-fail_entry threshold (suc n) now e room h = ground arith

failures_from :
    (id : NodeId) (nows : List Instant) (m : HealthMonitor) (e : NodeHealthEntry) (n k : ℕ)
    → n + length nows ≡ k
    → lookup m id ≡ some e
    → HasFailed m.failure_threshold n e
    → k < 2 ^ 32
    → (e' : NodeHealthEntry) × (lookup (failures id nows m) id ≡ some e')
      × HasFailed m.failure_threshold k e'
unfolding failures record_failure
failures_from id [] m e n k sum found h room =
    let p : n ≡ k = omega arith in (e, found, subst (λ i. HasFailed m.failure_threshold i e) p h)
failures_from id (now ∷ nows) m e n k sum found h room =
    failures_from id nows (record_failure id now m) (fail_entry m.failure_threshold now e) (suc n) k
      (omega arith) (ground (arith, lookup-record_failure id now m id))
      (HasFailed-fail_entry m.failure_threshold n now e (omega arith) h) room

-- A node that answered and has failed k times in a row since is Alive for k = 0, Suspect below the
-- threshold and at the first failure, and Dead from then on; its count of failures is k. The count
-- fits a `u32`.
pub health-failures :
    (id : NodeId) (now : Instant) (nows : List Instant) (m : HealthMonitor)
    → length nows < 2 ^ 32
    → (e : NodeHealthEntry) × (lookup (failures id nows (mark_alive id now m)) id ≡ some e)
      × (e.consecutive_failures ≡ length nows)
      × (e.health ≡ health_after m.failure_threshold (length nows))
unfolding mark_alive
health-failures id now nows m room =
    let start : NodeHealthEntry = record {
      health = alive;
      last_checked = now;
      consecutive_failures = 0;
    } in
    let (e, found, h) =
      failures_from id nows (mark_alive id now m) start 0 (length nows) (omega arith)
        (ground (arith, lookup-mark_alive id now m id)) (ground arith) room in
    (e, found, h.count, h.state)

routable-health_after :
    (threshold n : ℕ) (e : NodeHealthEntry)
    → e.health ≡ health_after threshold n
    → routable (some e) ≡ ltb n (max 2 threshold)
routable-health_after threshold zero e h = ground arith
routable-health_after threshold (suc n) e h = ground arith

-- The monitor stops routing to a node that has answered exactly when it has failed at least twice
-- and at least as often as the threshold in a row since.
pub is_alive-failures :
    (id : NodeId) (now : Instant) (nows : List Instant) (m : HealthMonitor)
    → length nows < 2 ^ 32
    → is_alive id (failures id nows (mark_alive id now m))
      ≡ ltb (length nows) (max 2 m.failure_threshold)
unfolding is_alive
is_alive-failures id now nows m room =
    let (e, found, count, state) = health-failures id now nows m room in
    rw found (routable-health_after m.failure_threshold (length nows) e state)

-- ===== src/Tests/Repository/Health.antt =====
-- The unit tests of crates/router/src/health/mod.rs, with the identities 1 and 2 and all calls at the
-- instant 0, since no test looks at a time.
use self_healing_distributed.Prelude.{ℕ_discrete, ◌≡◌, refl, true, false, Option, some, [], ◌∷◌}
use self_healing_distributed.Prelude.Map
use self_healing_distributed.Types.{NodeId}
use self_healing_distributed.Router.Health
use self_healing_distributed.Router.Health.{
  NodeHealth, alive, suspect, dead, joining, HealthMonitor, new, with_failure_threshold, is_alive,
  dead_nodes, all_health,
}

abbrev mark_alive : NodeId → HealthMonitor → HealthMonitor
mark_alive id m = Health.mark_alive id 0 m

abbrev mark_joining : NodeId → HealthMonitor → HealthMonitor
mark_joining id m = Health.mark_joining id 0 m

abbrev record_failure : NodeId → HealthMonitor → HealthMonitor
record_failure id m = Health.record_failure id 0 m

abbrev health : HealthMonitor → Option NodeHealth
health m = Map.get ℕ_discrete 1 (all_health m)

abbrev TestMarkAlive : Type 0
TestMarkAlive = let m = mark_alive 1 new in (is_alive 1 m ≡ true) × (health m ≡ some alive)

abbrev TestMarkJoining : Type 0
TestMarkJoining = let m = mark_joining 1 new in (is_alive 1 m ≡ false) × (health m ≡ some joining)

abbrev TestJoiningToAliveTransition : Type 0
TestJoiningToAliveTransition =
    let m = mark_joining 1 new in (is_alive 1 m ≡ false) × (is_alive 1 (mark_alive 1 m) ≡ true)

abbrev TestRecordFailureEscalation : Type 0
TestRecordFailureEscalation =
    let m0 = mark_alive 1 (with_failure_threshold 3 new) in
    let m1 = record_failure 1 m0 in
    let m3 = record_failure 1 (record_failure 1 m1) in
    (is_alive 1 m0 ≡ true)
    × (is_alive 1 m1 ≡ true)
    × (health m1 ≡ some suspect)
    × (is_alive 1 m3 ≡ false)
    × (health m3 ≡ some dead)

abbrev TestUnknownNodeAssumedAlive : Type 0
TestUnknownNodeAssumedAlive = is_alive 1 new ≡ true

abbrev TestDeadNodesList : Type 0
TestDeadNodesList =
    let m = mark_alive 2 (mark_alive 1 (with_failure_threshold 2 new)) in
    dead_nodes (record_failure 1 (record_failure 1 (record_failure 1 m))) ≡ 1 ∷ []

health_tests_pass :
    TestMarkAlive × TestMarkJoining × TestJoiningToAliveTransition × TestRecordFailureEscalation
    × TestUnknownNodeAssumedAlive × TestDeadNodesList
unfolding new with_failure_threshold is_alive dead_nodes all_health Health.mark_alive
    Health.mark_joining Health.record_failure Map.get Map.insert ℕ_discrete
health_tests_pass =
    ((refl, refl), (refl, refl), (refl, refl), (refl, refl, refl, refl, refl), refl, refl)

-- ===== src/Gossip/Detect.antt =====
-- What `check_timeouts` (crates/node/src/gossip/protocol.rs) detects.
use self_healing_distributed.Prelude.{
  ◌+◌, ◌-◌, ◌<◌, ◌≡◌, ◌≢◌, refl, ap, Option, none, some, List, [], ◌∷◌, arith, ltb, ◌==◌, map,
  Bool-cases, inl, inr, if◌then◌else◌, ite, ℕ_discrete, ◌∙◌,
}
use self_healing_distributed.Prelude.Map
use self_healing_distributed.Prelude.Map.{Map, IsUnique}
use self_healing_distributed.Types.{NodeId, Instant, Duration}
use self_healing_distributed.Gossip.Table.{
  MemberStatus, alive, suspect, dead, joining, MemberEntry, MembershipTable, lookup,
}
use self_healing_distributed.Gossip.Status.{
  suspected, killed, with_status, lookup-mark_suspect, lookup-mark_dead,
}
use self_healing_distributed.Gossip.Timeouts.{
  suspect_timeout, dead_timeout, check_status, check_member, check_members, check_timeouts,
}
use self_healing_distributed.Gossip.Valid.{IsValid, IsKeyed, keyed-lookup, check_timeouts-IsValid}

-- What silence for a time makes of a status.
abbrev pub overdue : Duration → MemberStatus → MemberStatus
overdue silence alive = if ltb suspect_timeout silence then suspect else alive
overdue silence suspect = if ltb dead_timeout silence then dead else suspect
overdue silence dead = dead
overdue silence joining = joining

-- What the loop does to the status of the member `m`.
abbrev verdict : Duration → MemberStatus → MemberStatus → MemberStatus
verdict silence alive s = if ltb suspect_timeout silence then suspected s else s
verdict silence joining s = if ltb suspect_timeout silence then suspected s else s
verdict silence suspect s = if ltb dead_timeout silence then killed s else s
verdict silence dead s = s

with_status_id : (o : Option MemberEntry) → with_status (λ s. s) o ≡ o
with_status_id none = refl
with_status_id (some e) = refl

lookup-check_status :
    (id : NodeId) (silence : Duration) (s : MemberStatus) (t : MembershipTable) (j : NodeId)
    → lookup (check_status id silence s t) j
      ≡ ite (ℕ_discrete id j) (with_status (verdict silence s) (lookup t j)) (lookup t j)
unfolding check_status
lookup-check_status id silence alive t j = ground (arith, lookup-mark_suspect id t j)
lookup-check_status id silence joining t j = ground (arith, lookup-mark_suspect id t j)
lookup-check_status id silence suspect t j = ground (arith, lookup-mark_dead id t j)
lookup-check_status id silence dead t j = ground (arith, with_status_id (lookup t j))

abbrev judged : NodeId → Instant → MemberEntry → MemberStatus → MemberStatus
judged local now m = if m.info.id == local then (λ s. s) else verdict (now - m.last_seen) m.status

lookup-check_member :
    (local : NodeId) (now : Instant) (m : MemberEntry) (t : MembershipTable) (j : NodeId)
    → lookup (check_member local now m t) j
      ≡ ite (ℕ_discrete m.info.id j) (with_status (judged local now m) (lookup t j)) (lookup t j)
unfolding check_member
lookup-check_member local now m t j = elim (Bool-cases (m.info.id == local)) [
  | inl own ↦ rw own (ground (arith, with_status_id (lookup t j)))
  | inr other ↦ rw other (lookup-check_status m.info.id (now - m.last_seen) m.status t j)
]

-- Members that are not about a node do not move it.
check_members_absent :
    (local : NodeId) (now : Instant) (m : Map NodeId MemberEntry) (t : MembershipTable) (j : NodeId)
    → IsKeyed m
    → Map.get ℕ_discrete j m ≡ none
    → lookup (check_members local now (map (λ e. e.1) m) t) j ≡ lookup t j
unfolding check_members Map.get
check_members_absent local now [] t j k h = refl
check_members_absent local now ((i, e) ∷ m) t j (p, k) h = grind (
  arith,
  check_members_absent local now m (check_member local now e t) j k,
  lookup-check_member local now e t j,
)

check_members_present :
    (local : NodeId) (now : Instant) (m : Map NodeId MemberEntry) (t : MembershipTable) (j : NodeId)
    (e : MemberEntry)
    → IsKeyed m
    → IsUnique ℕ_discrete m
    → Map.get ℕ_discrete j m ≡ some e
    → lookup (check_members local now (map (λ e. e.1) m) t) j
      ≡ with_status (judged local now e) (lookup t j)
unfolding check_members Map.get
check_members_present local now [] t j e k u h = cc
check_members_present local now ((i, m) ∷ ms) t j e (p, k) (f, u) h = elim (ℕ_discrete i j) [
  | yes q ↦
      let found : m ≡ e = ground arith in
      check_members_absent local now ms (check_member local now m t) j k (rw q at f)
      ∙ ground (arith, lookup-check_member local now m t j)
  | no n ↦
      check_members_present local now ms (check_member local now m t) j e k u (ground arith)
      ∙ ground (arith, lookup-check_member local now m t j)
]

judged_own :
    (local : NodeId) (now : Instant) (j : NodeId) (e : MemberEntry)
    → e.info.id ≡ j
    → record e { status = judged local now e e.status }
      ≡ (if j == local then e else record e { status = overdue (now - e.last_seen) e.status })
judged_own local now j e h = ground arith

-- The sweep makes a silent Alive peer Suspect after three seconds, and a silent Suspect peer Dead
-- after five. It changes no other status, nothing else of an entry, and nothing of this node's own.
pub lookup-check_timeouts :
    (local : NodeId) (now : Instant) (t : MembershipTable) (j : NodeId) (e : MemberEntry)
    → IsValid t
    → lookup t j ≡ some e
    → lookup (check_timeouts local now t) j
      ≡ some (if j == local then e else record e { status = overdue (now - e.last_seen) e.status })
unfolding check_timeouts
lookup-check_timeouts local now t j e v h =
    let here = keyed-lookup t j e v h in
    check_members_present local now t.members t j e v.keyed v.unique h
    ∙ ap (with_status (judged local now e)) h
    ∙ ap some (judged_own local now j e here)

-- A peer that was Alive when it was last heard of is Dead after two sweeps, the first more than
-- three seconds and the second more than five seconds after that.
pub silent_peer_dies :
    (local : NodeId) (first second : Instant) (t : MembershipTable) (j : NodeId) (e : MemberEntry)
    → IsValid t
    → lookup t j ≡ some e
    → j ≢ local
    → e.status ≡ alive
    → e.last_seen + suspect_timeout < first
    → e.last_seen + dead_timeout < second
    → lookup (check_timeouts local second (check_timeouts local first t)) j
      ≡ some (record e { status = dead })
silent_peer_dies local first second t j e v h other up late later =
    let e' : MemberEntry = record e { status = suspect } in
    let once : lookup (check_timeouts local first t) j ≡ some e' =
      ground (arith, lookup-check_timeouts local first t j e v h) in
    ground (
      arith,
      lookup-check_timeouts local second (check_timeouts local first t) j e'
          (check_timeouts-IsValid local first t v) once,
    )

-- The sweeps of `check_timeouts` one after another.
unfoldable pub sweeps : NodeId → List Instant → MembershipTable → MembershipTable
sweeps local [] t = t
sweeps local (now ∷ nows) t = sweeps local nows (check_timeouts local now t)

-- However long a Joining peer stays silent, no sweep changes its entry: it is never suspected.
pub joining_never_suspected :
    (local : NodeId) (nows : List Instant) (t : MembershipTable) (j : NodeId) (e : MemberEntry)
    → IsValid t
    → lookup t j ≡ some e
    → e.status ≡ joining
    → lookup (sweeps local nows t) j ≡ some e
unfolding sweeps
joining_never_suspected local [] t j e v h s = h
joining_never_suspected local (now ∷ nows) t j e v h s =
    joining_never_suspected local nows (check_timeouts local now t) j e
      (check_timeouts-IsValid local now t v)
      (ground (arith, lookup-check_timeouts local now t j e v h)) s

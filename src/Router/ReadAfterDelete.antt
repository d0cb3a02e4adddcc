-- ===== src/Router/ReadAfterDelete.antt =====
-- What a delete through the router leaves, and what a read after it finds
-- (crates/router/src/replication/coordinator.rs over crates/node/src/grpc/service.rs).
use self_healing_distributed.Prelude.{
  ℕ, zero, suc, ◌<◌, ◌≡◌, refl, ap, ◌∙◌, Bool, false, none, some, List, [], ◌∷◌, arith, ◌||◌, ◌⊎◌,
  inl, inr, All, keep, not, Option-cases,
}
use self_healing_distributed.Types.{NodeInfo, Bytes, Instant, UuidText}
use self_healing_distributed.Router.Client.{Pool, Attempt, attempt}
use self_healing_distributed.Router.Coordinator.{
  ReplicationCoordinator, delete_retries, delete_nodes, delete_on, get_on, alive_preference_list,
}
use self_healing_distributed.Router.Coordinator
use self_healing_distributed.Router.Cluster.{
  Cluster, transport, serve_delete, IsFaithful, shows, node_at,
}
use self_healing_distributed.Node.Service.{NodeState}
use self_healing_distributed.Cache.Store.{is_some}
use self_healing_distributed.Router.Calls.{Attempt-cases, attempt-cases}
use self_healing_distributed.Router.Replicas.{
  shows-after_delete, first_shown, read_reply, get_on_lem,
}

-- The nodes that are not there.
abbrev pub absent : Cluster → List NodeInfo → List NodeInfo
absent w = keep (λ node. not (is_some (node_at node.addr w)))

-- A node that was there at the delete is as the delete left it, or gone.
abbrev pub IsLeft : Cluster → Cluster → Cluster → Type 0
IsLeft before after w =
    (addr : Bytes) (n : NodeState)
    → node_at addr before ≡ some n
    → (node_at addr w ≡ none) ⊎ (node_at addr w ≡ node_at addr after)

module _ (now later : Instant) (key : Bytes) where
  abbrev Hidden : Bytes → Cluster → Type 0
  Hidden b w = shows later key b w ≡ none

  -- What is hidden stays so.
  abbrev Hides : Cluster → Cluster → Type 0
  Hides w w' = (b : Bytes) → Hidden b w → Hidden b w'

  abbrev try_delete : Bytes → Pool Bytes Cluster → Pool Bytes Cluster × Attempt Bool
  try_delete addr p = attempt (transport now) (λ c. serve_delete c key) addr p

  try_delete_lem :
      (addr : Bytes) (p : Pool Bytes Cluster)
      → IsFaithful p
      → IsFaithful (try_delete addr p).0
        × Hidden addr (try_delete addr p).0.world
        × Hides p.world (try_delete addr p).0.world
  try_delete_lem addr p faithful =
      elim (attempt-cases now (λ c. serve_delete c key) addr p faithful) [
        | inl (still, failed, same, absent) ↦ (still, rw (same, absent) refl, (λ b h. rw same h))
        | inr (still, outcome, moved) ↦ (
          still,
          rw moved (shows-after_delete later addr addr key p.world).0,
          (λ b h. rw moved ((shows-after_delete later addr b key p.world).1 h)),
        )
      ]

  delete_retries_lem :
      (n : ℕ) (addr : Bytes) (p : Pool Bytes Cluster)
      → IsFaithful p
      → let q = delete_retries (transport now) n addr key p in
        IsFaithful q.0 × (0 < n → Hidden addr q.0.world) × Hides p.world q.0.world
  unfolding delete_retries
  delete_retries_lem zero addr p faithful = (faithful, (λ h. ground arith), (λ b h. h))
  delete_retries_lem (suc n) addr p faithful =
      let (f1, h1, k1) = try_delete_lem addr p faithful in
      let (f2, h2, k2) = delete_retries_lem n addr (try_delete addr p).0 f1 in
      elim (Attempt-cases (try_delete addr p).1) [
        | inl failed ↦ rw (failed, delete_retries) (f1, (λ _. h1), k1)
        | inr (inl failed) ↦
            rw (failed, delete_retries) (f2, (λ _. k2 addr h1), (λ b h. k2 b (k1 b h)))
        | inr (inr (r, done)) ↦ rw (done, delete_retries) (f1, (λ _. h1), k1)
      ]

  delete_nodes_lem :
      (n : ℕ) (nodes : List NodeInfo) (any_deleted : Bool) (p : Pool Bytes Cluster)
      → IsFaithful p
      → let q = delete_nodes (transport now) (suc n) nodes key any_deleted p in
        IsFaithful q.0 × All (λ node. Hidden node.addr q.0.world) nodes × Hides p.world q.0.world
  unfolding delete_nodes
  delete_nodes_lem n [] any_deleted p faithful = (faithful, tt, (λ b h. h))
  delete_nodes_lem n (node ∷ nodes) any_deleted p faithful =
      let (f1, h1, k1) = delete_retries_lem (suc n) node.addr p faithful in
      let one = delete_retries (transport now) (suc n) node.addr key p in
      let (f2, h2, k2) = delete_nodes_lem n nodes (any_deleted || one.1) one.0 f1 in
      (f2, (k2 node.addr (h1 (omega arith)), h2), (λ b h. k2 b (k1 b h)))

  left-Hidden :
      (before after w : Cluster) (addr : Bytes) (n : NodeState)
      → IsLeft before after w
      → Hidden addr after
      → node_at addr before ≡ some n
      → Hidden addr w
  left-Hidden before after w addr n left hidden there = elim (left addr n there) [
    | inl gone ↦ rw gone refl
    | inr same ↦ rw same hidden
  ]

  -- Only a node that was not there at the delete can show the key.
  first_shown-absent :
      (nodes : List NodeInfo) (before after w : Cluster)
      → IsLeft before after w
      → All (λ node. Hidden node.addr after) nodes
      → first_shown later key nodes w ≡ first_shown later key (absent before nodes) w
  first_shown-absent [] before after w left h = refl
  first_shown-absent (node ∷ nodes) before after w left (h, hs) =
      let rest = first_shown-absent nodes before after w left hs in
      elim (Option-cases (node_at node.addr before)) [
        | inl away ↦ ground (arith, rest)
        | inr (n, there) ↦
            let hidden = left-Hidden before after w node.addr n left h there in
            ground (arith, hidden, rest)
      ]

delete-then-get :
    (now later : Instant) (key : Bytes) (n : ℕ) (nodes : List NodeInfo) (p p' : Pool Bytes Cluster)
    → IsFaithful p
    → IsFaithful p'
    → 0 < n
    → IsLeft p.world (delete_on (transport now) n nodes key p).0.world p'.world
    → (get_on (transport later) n nodes key p').1
      ≡ read_reply nodes (first_shown later key (absent p.world nodes) p'.world)
unfolding delete_on
delete-then-get now later key n [] p p' faithful still tries left =
    get_on_lem later key n [] p' still tries
delete-then-get now later key zero (node ∷ nodes) p p' faithful still tries left = ground arith
delete-then-get now later key (suc n) (node ∷ nodes) p p' faithful still tries left =
    let (f, hidden, _) = delete_nodes_lem now later key n (node ∷ nodes) false p faithful in
    let q = (delete_nodes (transport now) (suc n) (node ∷ nodes) key false p).0 in
    get_on_lem later key (suc n) (node ∷ nodes) p' still tries
    ∙ ap (read_reply (node ∷ nodes))
        (first_shown-absent now later key (node ∷ nodes) p.world q.world p'.world left hidden)

-- After a delete through the router, a node that was there at the delete does not show the key: a
-- read through the router, at any time, answers with the value at the first node of the preference
-- list that shows the key, out of those that were not there at the delete, and with not found if
-- none of them does. Only an empty preference list is an error. In particular a replica that could
-- not be reached by the delete, and is back with its entry, shows the key again. Between the two,
-- any node may go or come, but a node that was there at the delete is as the delete left it, or
-- gone. The ring and the health monitor are the same at the read, there is at least one attempt,
-- every client that the router holds is connected to its address, and the network delivers every
-- call to a node that is there.
pub get-delete :
    (xxh3_64 : Bytes → ℕ) (uuid : UuidText) (now later : Instant) (key : Bytes)
    (c : ReplicationCoordinator) (p p' : Pool Bytes Cluster)
    → IsFaithful p
    → IsFaithful p'
    → 0 < c.config.max_retries
    → IsLeft p.world (Coordinator.delete (transport now) xxh3_64 uuid key c p).0.world p'.world
    → let nodes = alive_preference_list xxh3_64 uuid key c in
      (Coordinator.get (transport later) xxh3_64 uuid key c p').1
      ≡ read_reply nodes (first_shown later key (absent p.world nodes) p'.world)
unfolding Coordinator.delete Coordinator.get
get-delete xxh3_64 uuid now later key c p p' faithful still tries left =
    delete-then-get now later key c.config.max_retries (alive_preference_list xxh3_64 uuid key c) p
      p' faithful still tries left

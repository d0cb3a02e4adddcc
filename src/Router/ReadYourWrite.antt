-- ===== src/Router/ReadYourWrite.antt =====
-- A write that the router acknowledges can be read through it
-- (crates/router/src/replication/coordinator.rs over crates/node/src/grpc/service.rs).
use self_healing_distributed.Prelude.{
  ℕ, zero, suc, ◌+◌, ◌<◌, ◌≡◌, ◌≢◌, ap, Bool, true, Option, none, some, List, [], ◌∷◌, arith,
  Option-cases, ◌⊎◌, inl, inr,
}
use self_healing_distributed.Prelude.Map.{get-insert}
use self_healing_distributed.Types.{NodeInfo, Bytes, Bytes-discrete, Instant, from_millis, UuidText}
use self_healing_distributed.Cache.Store
use self_healing_distributed.Cache.Visible.{visible, visible-set, get-eq-visible}
use self_healing_distributed.Node.Service
use self_healing_distributed.Node.Service.{NodeState, millis}
use self_healing_distributed.Rpc.{Result, ok, err, unavailable}
use self_healing_distributed.Router.Client.{SetRequest, Pool, Attempt, replied, attempt}
use self_healing_distributed.Router.Coordinator.{
  ReplicationCoordinator, Reply, reply, failure, set_retries, set_nodes, set_on, get_retries,
  get_nodes, get_on, alive_preference_list,
}
use self_healing_distributed.Router.Coordinator
use self_healing_distributed.Router.Cluster.{
  Cluster, transport, serve_set, serve_get, IsFaithful, shows, node_at,
}
use self_healing_distributed.Router.Calls.{get_client_lem, Attempt-cases, attempt-cases}

-- The time to live of a request has not passed.
abbrev pub Lasts : Instant → Instant → Option ℕ → Type 0
Lasts now later none = Unit
Lasts now later (some ms) = later < now + from_millis ms

-- What a call of `set` at a node comes to: it stores the value, or it leaves the node as it was.
visible-Service_set :
    (now later : Instant) (key value : Bytes) (ttl_ms : Option ℕ) (n n' : NodeState)
    (r : Result Bool)
    → Lasts now later ttl_ms
    → Service.set now key value ttl_ms n ≡ some (n', r)
    → ((r ≡ ok true) × (visible later n'.store key ≡ some value))
      ⊎ ((r ≡ err unavailable) × (n' ≡ n))
unfolding Service.set
visible-Service_set now later key value none n n' r lasts h =
    elim (Option-cases (Store.set now key value none n.store)) [
      | inl panics ↦ ground arith
      | inr (s, stored) ↦ ground (arith, visible-set now key n.store value none s later key stored)
    ]
visible-Service_set now later key value (some ms) n n' r lasts h =
    elim (Option-cases (Store.set now key value (some (from_millis ms)) n.store)) [
      | inl panics ↦ ground arith
      | inr (s, stored) ↦
          ground
            (arith, visible-set now key n.store value (some (from_millis ms)) s later key stored)
    ]

module _ (now later : Instant) (request : SetRequest) (lasts : Lasts now later request.ttl_ms) where
  abbrev Holds : Bytes → Cluster → Type 0
  Holds addr w = shows later request.key addr w ≡ some request.value

  -- An acknowledged call leaves the value at its address, and a call anywhere takes it from none.
  shows-serve_set :
      (addr b : Bytes) (w : Cluster)
      → (((serve_set now addr request w).1 ≢ none) → Holds addr (serve_set now addr request w).0)
        × (Holds b w → Holds b (serve_set now addr request w).0)
  unfolding serve_set
  shows-serve_set addr b w = elim (Option-cases (node_at addr w)) [
    | inl absent ↦ ground arith
    | inr (n, found) ↦
        elim (Option-cases (Service.set now request.key request.value request.ttl_ms n)) [
          | inl panics ↦ ground arith
          | inr ((n', r), done) ↦
              elim (visible-Service_set now later request.key request.value request.ttl_ms n n' r
                lasts done) [
                  | inl (good, held) ↦ ground (
                    arith,
                    get-insert Bytes-discrete addr b n' w,
                    get-insert Bytes-discrete addr addr n' w,
                  )
                  | inr (bad, same) ↦ ground (arith, get-insert Bytes-discrete addr b n' w)
                ]
        ]
  ]

module _ (now later : Instant) (request : SetRequest) (lasts : Lasts now later request.ttl_ms) where
  abbrev try_set : Bytes → Pool Bytes Cluster → Pool Bytes Cluster × Attempt Bool
  try_set addr p = attempt (transport now) (λ c. serve_set now c request) addr p

  attempt_lem :
      (addr b : Bytes) (p : Pool Bytes Cluster)
      → IsFaithful p
      → IsFaithful (try_set addr p).0
        × ((r : Bool)
            → (try_set addr p).1 ≡ replied r
            → Holds now later request lasts addr (try_set addr p).0.world)
        × (Holds now later request lasts b p.world
            → Holds now later request lasts b (try_set addr p).0.world)
  attempt_lem addr b p faithful =
      elim (attempt-cases now (λ c. serve_set now c request) addr p faithful) [
        | inl (still, failed, same, absent) ↦ (still, λ r h. ground arith, λ h. ground arith)
        | inr (still, outcome, moved) ↦ elim (Option-cases (serve_set now addr request p.world).1) [
          | inl fails ↦ (
            still,
            λ r h. ground arith,
            λ h. ground (arith, shows-serve_set now later request lasts addr b p.world),
          )
          | inr (a, answers) ↦ (
            still,
            λ r h. ground (arith, shows-serve_set now later request lasts addr b p.world),
            λ h. ground (arith, shows-serve_set now later request lasts addr b p.world),
          )
        ]
      ]

  set_retries_lem :
      (n : ℕ) (addr b : Bytes) (p : Pool Bytes Cluster)
      → IsFaithful p
      → let q = set_retries (transport now) n addr request p in
        IsFaithful q.0
        × (q.1 ≡ true → Holds now later request lasts addr q.0.world)
        × (Holds now later request lasts b p.world → Holds now later request lasts b q.0.world)
  unfolding set_retries
  set_retries_lem zero addr b p faithful = (faithful, λ h. ground arith, λ h. h)
  set_retries_lem (suc n) addr b p faithful =
      let (f1, g1, k1) = attempt_lem addr b p faithful in
      let (f2, g2, k2) = set_retries_lem n addr b (try_set addr p).0 f1 in
      elim (Attempt-cases (try_set addr p).1) [
        | inl failed ↦ rw (failed, set_retries) (f2, g2, λ h. k2 (k1 h))
        | inr (inl failed) ↦ rw (failed, set_retries) (f2, g2, λ h. k2 (k1 h))
        | inr (inr (r, done)) ↦ rw (done, set_retries) (f1, λ h. g1 r done, k1)
      ]

  set_nodes_lem :
      (n : ℕ) (nodes : List NodeInfo) (b : Bytes) (p : Pool Bytes Cluster)
      → IsFaithful p
      → let q = set_nodes (transport now) n nodes request p in
        IsFaithful q.0
        × (Holds now later request lasts b p.world → Holds now later request lasts b q.0.world)
  unfolding set_nodes
  set_nodes_lem n [] b p faithful = (faithful, λ h. h)
  set_nodes_lem n (node ∷ nodes) b p faithful =
      let (f1, _, k1) = set_retries_lem n node.addr b p faithful in
      let (f2, k2) =
        set_nodes_lem n nodes b (set_retries (transport now) n node.addr request p).0 f1 in
      (f2, λ h. k2 (k1 h))

shows-serve_get :
    (later : Instant) (addr key v : Bytes) (w : Cluster)
    → shows later key addr w ≡ some v
    → (serve_get later addr key w).1 ≡ some (record { value = some v; found = true })
unfolding serve_get Service.get
shows-serve_get later addr key v w h = elim (Option-cases (node_at addr w)) [
  | inl absent ↦ ground arith
  | inr (n, found) ↦ ground (arith, get-eq-visible later key n.store)
]

get_nodes_lem :
    (later : Instant) (n : ℕ) (node : NodeInfo) (nodes : List NodeInfo) (key v : Bytes)
    (p : Pool Bytes Cluster)
    → IsFaithful p
    → shows later key node.addr p.world ≡ some v
    → (get_nodes (transport later) (suc n) (node ∷ nodes) key p).1
      ≡ record { value = some v; found = true }
unfolding get_nodes get_retries attempt
get_nodes_lem later n node nodes key v p faithful h =
    let (still, same, right, there) = get_client_lem later node.addr p faithful in
    ground (arith, shows-serve_get later node.addr key v p.world h)

set-then-get :
    (now later : Instant) (request : SetRequest) (lasts : Lasts now later request.ttl_ms) (n : ℕ)
    (nodes : List NodeInfo) (p : Pool Bytes Cluster)
    → IsFaithful p
    → (set_on (transport now) n nodes request p).1 ≡ reply true
    → (get_on (transport later) n nodes request.key (set_on (transport now) n nodes request p).0).1
      ≡ reply (record { value = some request.value; found = true })
unfolding set_on get_on set_nodes
set-then-get now later request lasts n [] p faithful h = ground arith
set-then-get now later request lasts zero (node ∷ nodes) p faithful h =
    unfold set_retries in ground arith
set-then-get now later request lasts (suc n) (node ∷ nodes) p faithful h =
    let (f1, g1, _) =
      set_retries_lem now later request lasts (suc n) node.addr node.addr p faithful in
    let p1 = (set_retries (transport now) (suc n) node.addr request p).0 in
    let (f2, k2) = set_nodes_lem now later request lasts (suc n) nodes node.addr p1 f1 in
    let p2 = (set_nodes (transport now) (suc n) nodes request p1).0 in
    let acked : (set_retries (transport now) (suc n) node.addr request p).1 ≡ true = ground arith in
    ap (λ r. reply r)
      (get_nodes_lem later n node nodes request.key request.value p2 f2 (k2 (g1 acked)))

-- A write that the coordinator acknowledges can be read through it, from then on until its time to
-- live has passed: the read answers with the value. No other call comes in between, the ring and the
-- health monitor are the same at the read, and every node that was called is still there.
pub get-set :
    (xxh3_64 : Bytes → ℕ) (uuid : UuidText) (now later : Instant) (request : SetRequest)
    (c : ReplicationCoordinator) (p : Pool Bytes Cluster)
    → Lasts now later request.ttl_ms
    → IsFaithful p
    → (Coordinator.set (transport now) xxh3_64 uuid request c p).1 ≡ reply true
    → (Coordinator.get
        (transport later)
        xxh3_64
        uuid
        request.key
        c
        (Coordinator.set (transport now) xxh3_64 uuid request c p).0).1
      ≡ reply (record { value = some request.value; found = true })
unfolding Coordinator.set Coordinator.get
get-set xxh3_64 uuid now later request c p lasts faithful =
    set-then-get now later request lasts c.config.max_retries
      (alive_preference_list xxh3_64 uuid request.key c) p faithful

-- ===== src/Router/Replicas.antt =====
-- Which replica answers a read through the router, and what a delete through it leaves
-- (crates/router/src/replication/coordinator.rs over crates/node/src/grpc/service.rs).
use self_healing_distributed.Prelude.{
  ℕ, zero, suc, ◌≤◌, ◌<◌, ◌≡◌, refl, ap, ◌∙◌, true, false, Option, none, some, List, [], ◌∷◌, arith,
  Option-cases, ◌⊎◌, inl, inr, if◌then◌else◌,
}
use self_healing_distributed.Prelude.Map.{get-insert}
use self_healing_distributed.Types.{NodeInfo, Bytes, Bytes-discrete, Instant, UuidText}
use self_healing_distributed.Cache.Visible.{visible, visible-get, visible-delete, get-eq-visible}
use self_healing_distributed.Node.Service
use self_healing_distributed.Node.Service.{NodeState}
use self_healing_distributed.Rpc.{GetResponse}
use self_healing_distributed.Router.Client.{
  Pool, Attempt, connect_failed, rpc_failed, replied, attempt,
}
use self_healing_distributed.Router.Coordinator.{
  ReplicationCoordinator, Reply, reply, failure, no_alive_nodes, get_retries, get_nodes, get_on,
  delete_retries, delete_nodes, delete_on, alive_preference_list,
}
use self_healing_distributed.Router.Coordinator
use self_healing_distributed.Router.Cluster.{
  Cluster, transport, serve_get, serve_delete, IsFaithful, shows, node_at,
}
use self_healing_distributed.Router.Calls.{attempt-cases}

-- The response that shows a value.
abbrev pub response_to : Option Bytes → GetResponse
response_to none = record { value = none; found = false }
response_to (some v) = record { value = some v; found = true }

abbrev answer_at : Instant → Bytes → Option NodeState → Option GetResponse
answer_at now key none = none
answer_at now key (some n) = some (response_to (visible now n.store key))

serve_get_lem :
    (now : Instant) (addr key : Bytes) (w : Cluster)
    → (serve_get now addr key w).1 ≡ answer_at now key (node_at addr w)
unfolding serve_get Service.get
serve_get_lem now addr key w = elim (Option-cases (node_at addr w)) [
  | inl absent ↦ ground arith
  | inr (n, found) ↦ elim (Option-cases (visible now n.store key)) [
    | inl hidden ↦ ground (arith, get-eq-visible now key n.store)
    | inr (v, visible_now) ↦ ground (arith, get-eq-visible now key n.store)
  ]
]

shows-after_get :
    (now later : Instant) (addr b key j : Bytes) (w : Cluster)
    → now ≤ later
    → shows later j b (serve_get now addr key w).0 ≡ shows later j b w
unfolding serve_get Service.get
shows-after_get now later addr b key j w h = elim (Option-cases (node_at addr w)) [
  | inl absent ↦ ground arith
  | inr (n, found) ↦
      let n' = (Service.get now key n).0 in
      ground (arith, get-insert Bytes-discrete addr b n' w, visible-get now key n.store later j h)
]

pub shows-after_delete :
    (later : Instant) (addr b key : Bytes) (w : Cluster)
    → (shows later key addr (serve_delete addr key w).0 ≡ none)
      × (shows later key b w ≡ none → shows later key b (serve_delete addr key w).0 ≡ none)
unfolding serve_delete Service.delete
shows-after_delete later addr b key w = elim (Option-cases (node_at addr w)) [
  | inl absent ↦ ground arith
  | inr (n, found) ↦
      let n' = (Service.delete key n).0 in
      ground (
        arith,
        get-insert Bytes-discrete addr b n' w,
        get-insert Bytes-discrete addr addr n' w,
        visible-delete 0 key n.store later key,
      )
]

-- What the attempts of `get` at one address give, of what that address shows.
abbrev retried : ℕ → Option Bytes → Option GetResponse
retried zero v = none
retried (suc n) none = none
retried (suc n) (some v) = some (response_to (some v))

retried-none : (n : ℕ) → retried n none ≡ none
retried-none zero = refl
retried-none (suc n) = refl

found-response_to :
    (n : ℕ) (v : Option Bytes)
    → (if (response_to v).found then some (response_to v) else none) ≡ retried (suc n) v
found-response_to n none = refl
found-response_to n (some v) = refl

module _ (now : Instant) (key : Bytes) where
  -- The calls keep what every address shows.
  abbrev Same : Cluster → Cluster → Type 0
  Same w w' = (b : Bytes) → shows now key b w' ≡ shows now key b w

  abbrev try_get : Bytes → Pool Bytes Cluster → Pool Bytes Cluster × Attempt GetResponse
  try_get addr p = attempt (transport now) (λ c. serve_get now c key) addr p

  try_get_lem :
      (addr : Bytes) (p : Pool Bytes Cluster)
      → IsFaithful p
      → IsFaithful (try_get addr p).0
        × Same p.world (try_get addr p).0.world
        × (((node_at addr p.world ≡ none)
              × ((try_get addr p).1 ≡ connect_failed ⊎ (try_get addr p).1 ≡ rpc_failed))
            ⊎ ((try_get addr p).1 ≡ replied (response_to (shows now key addr p.world))))
  try_get_lem addr p faithful =
      elim (attempt-cases now (λ c. serve_get now c key) addr p faithful) [
        | inl (still, failed, same, absent) ↦ (still, (λ b. rw same refl), inl (absent, inl failed))
        | inr (still, outcome, moved) ↦ (
          still,
          (λ b. rw moved (shows-after_get now now addr b key key p.world (omega arith))),
          elim (Option-cases (node_at addr p.world)) [
            | inl absent ↦ inl (absent, inr (ground (arith, serve_get_lem now addr key p.world)))
            | inr (n, there) ↦ inr (ground (arith, serve_get_lem now addr key p.world))
          ],
        )
      ]

  get_retries_lem :
      (n : ℕ) (addr : Bytes) (p : Pool Bytes Cluster)
      → IsFaithful p
      → let q = get_retries (transport now) n addr key p in
        IsFaithful q.0 × Same p.world q.0.world × (q.1 ≡ retried n (shows now key addr p.world))
  unfolding get_retries
  get_retries_lem zero addr p faithful = (faithful, (λ b. refl), refl)
  get_retries_lem (suc n) addr p faithful =
      let (f1, s1, came) = try_get_lem addr p faithful in
      let (f2, s2, e2) = get_retries_lem n addr (try_get addr p).0 f1 in
      let again : node_at addr p.world ≡ none
          → retried n (shows now key addr (try_get addr p).0.world)
            ≡ retried (suc n) (shows now key addr p.world) =
        λ absent. rw (s1 addr, absent) (retried-none n) in
      elim came [
        | inl (absent, inl failed) ↦
            rw (failed, get_retries) (f2, (λ b. s2 b ∙ s1 b), e2 ∙ again absent)
        | inl (absent, inr failed) ↦
            rw (failed, get_retries) (f2, (λ b. s2 b ∙ s1 b), e2 ∙ again absent)
        | inr done ↦
            rw (done, get_retries) (f1, s1, found-response_to n (shows now key addr p.world))
      ]

  -- What the first of the nodes that shows the key shows.
  abbrev pub first_shown : List NodeInfo → Cluster → Option Bytes
  first_shown [] w = none
  first_shown (node ∷ nodes) w = elim (shows now key node.addr w) [
    | some v ↦ some v
    | none ↦ first_shown nodes w
  ]

  first_shown-Same :
      (nodes : List NodeInfo) (w w' : Cluster)
      → Same w w'
      → first_shown nodes w' ≡ first_shown nodes w
  first_shown-Same [] w w' same = refl
  first_shown-Same (node ∷ nodes) w w' same =
      ground (arith, same node.addr, first_shown-Same nodes w w' same)

  get_nodes_lem :
      (n : ℕ) (nodes : List NodeInfo) (p : Pool Bytes Cluster)
      → IsFaithful p
      → (get_nodes (transport now) (suc n) nodes key p).1 ≡ response_to (first_shown nodes p.world)
  unfolding get_nodes
  get_nodes_lem n [] p faithful = refl
  get_nodes_lem n (node ∷ nodes) p faithful =
      let (f1, s1, e1) = get_retries_lem (suc n) node.addr p faithful in
      let q = (get_retries (transport now) (suc n) node.addr key p).0 in
      elim (Option-cases (shows now key node.addr p.world)) [
        | inl hidden ↦
            ground (arith, get_nodes_lem n nodes q f1, first_shown-Same nodes p.world q.world s1)
        | inr (v, shown) ↦ ground arith
      ]

-- What `get` answers, of the nodes that are asked and of what the first one to show the key shows.
abbrev pub read_reply : List NodeInfo → Option Bytes → Reply GetResponse
read_reply [] v = failure no_alive_nodes
read_reply (node ∷ nodes) v = reply (response_to v)

pub get_on_lem :
    (now : Instant) (key : Bytes) (n : ℕ) (nodes : List NodeInfo) (p : Pool Bytes Cluster)
    → IsFaithful p
    → 0 < n
    → (get_on (transport now) n nodes key p).1
      ≡ read_reply nodes (first_shown now key nodes p.world)
unfolding get_on
get_on_lem now key n [] p faithful tries = refl
get_on_lem now key zero (node ∷ nodes) p faithful tries = ground arith
get_on_lem now key (suc n) (node ∷ nodes) p faithful tries =
    ap (λ r. reply r) (get_nodes_lem now key n (node ∷ nodes) p faithful)

-- A read through the router answers with the value at the first of the nodes of the preference list
-- that shows the key, and with not found if none does; a node that is not there counts as one without
-- the key. Only an empty list of nodes is an error. There is at least one attempt.
pub get-first_shown :
    (xxh3_64 : Bytes → ℕ) (uuid : UuidText) (now : Instant) (key : Bytes)
    (c : ReplicationCoordinator) (p : Pool Bytes Cluster)
    → IsFaithful p
    → 0 < c.config.max_retries
    → let nodes = alive_preference_list xxh3_64 uuid key c in
      (Coordinator.get (transport now) xxh3_64 uuid key c p).1
      ≡ read_reply nodes (first_shown now key nodes p.world)
unfolding Coordinator.get
get-first_shown xxh3_64 uuid now key c p faithful tries =
    get_on_lem now key c.config.max_retries (alive_preference_list xxh3_64 uuid key c) p faithful
      tries

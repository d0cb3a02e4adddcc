-- ===== src/Router/Calls.antt =====
-- What a call by the client pool (crates/router/src/client.rs) does to the nodes.
use self_healing_distributed.Prelude.{
  ◌≡◌, ◌≢◌, refl, Option, none, some, arith, Option-cases, ◌⊎◌, inl, inr,
}
use self_healing_distributed.Prelude.Map
use self_healing_distributed.Prelude.Map.{get-insert}
use self_healing_distributed.Types.{Bytes, Bytes-discrete, Instant}
use self_healing_distributed.Router.Client.{
  Pool, Attempt, connect_failed, rpc_failed, replied, attempt, get_client,
}
use self_healing_distributed.Router.Cluster.{Cluster, transport, IsFaithful, node_at}

pub get_client_lem :
    (now : Instant) (addr : Bytes) (p : Pool Bytes Cluster)
    → IsFaithful p
    → IsFaithful (get_client (transport now) addr p).0
      × ((get_client (transport now) addr p).0.world ≡ p.world)
      × ((c : Bytes) → (get_client (transport now) addr p).1 ≡ some c → c ≡ addr)
      × (node_at addr p.world ≢ none → (get_client (transport now) addr p).1 ≡ some addr)
unfolding get_client
get_client_lem now addr p faithful = elim (Option-cases (Map.get Bytes-discrete addr p.clients)) [
  | inl absent ↦ elim (Option-cases (node_at addr p.world)) [
    | inl down ↦ (
      λ a c h. ground (arith, faithful a c),
      ground arith,
      λ c h. ground arith,
      λ h. ground arith,
    )
    | inr (n, up) ↦ (
      λ a c h. ground (arith, get-insert Bytes-discrete addr a addr p.clients, faithful a c),
      ground arith,
      λ c h. ground arith,
      λ h. ground arith,
    )
  ]
  | inr (c, cached) ↦ (
    λ a c' h. ground (arith, faithful a c'),
    ground arith,
    λ c' h. ground (arith, faithful addr c cached),
    λ h. ground (arith, faithful addr c cached),
  )
]

pub Attempt-cases :
    {A : Type 0}
    → (a : Attempt A) → (a ≡ connect_failed) ⊎ ((a ≡ rpc_failed) ⊎ ((x : A) × (a ≡ replied x)))
Attempt-cases connect_failed = inl refl
Attempt-cases rpc_failed = inr (inl refl)
Attempt-cases (replied x) = inr (inr (x, refl))

-- What became of a call that was made.
abbrev pub outcome_of : {A : Type 0} → Option A → Attempt A
outcome_of none = rpc_failed
outcome_of (some a) = replied a

-- Either there is no node to connect to, and nothing has changed, or the call is made at the address.
pub attempt-cases :
    {A : Type 0} (now : Instant) (call : Bytes → Cluster → Cluster × Option A) (addr : Bytes)
    (p : Pool Bytes Cluster)
    → IsFaithful p
    → let q = attempt (transport now) call addr p in
      (IsFaithful q.0
        × (q.1 ≡ connect_failed)
        × (q.0.world ≡ p.world)
        × (node_at addr p.world ≡ none))
      ⊎ (IsFaithful q.0
          × (q.1 ≡ outcome_of (call addr p.world).1)
          × (q.0.world ≡ (call addr p.world).0))
unfolding attempt
attempt-cases now call addr p faithful =
    let (still, same, right, there) = get_client_lem now addr p faithful in
    elim (Option-cases (get_client (transport now) addr p).1) [
      | inl unconnected ↦ inl (
        (λ a c h. ground (arith, still a c)),
        ground arith,
        ground arith,
        elim (Option-cases (node_at addr p.world)) [
          | inl down ↦ down
          | inr (n, up) ↦ ground (arith, there)
        ],
      )
      | inr (c, connected) ↦ elim (Option-cases (call addr p.world).1) [
        | inl fails ↦ inr (
          (λ a c' h. ground (arith, still a c', right c connected)),
          ground (arith, right c connected),
          ground (arith, right c connected),
        )
        | inr (x, answers) ↦ inr (
          (λ a c' h. ground (arith, still a c', right c connected)),
          ground (arith, right c connected),
          ground (arith, right c connected),
        )
      ]
    ]

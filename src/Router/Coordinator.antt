-- ===== src/Router/Coordinator.antt =====
-- `ReplicationCoordinator` of crates/router/src/replication/coordinator.rs, with its configuration
-- (crates/router/src/replication/config.rs). An operation reads the ring and the health monitor as
-- they stand; the connections and the nodes behind them are the state that it passes on.
use self_healing_distributed.Prelude.{
  ℕ, zero, suc, ◌+◌, Bool, true, false, Option, none, some, List, [], ◌∷◌, ◌++◌, length, leb, ◌||◌,
  if◌then◌else◌,
}
use self_healing_distributed.Types.{NodeInfo, Bytes, UuidText}
use self_healing_distributed.Ring.HashRing.{HashRing, get_preference_list}
use self_healing_distributed.Router.Health.{HealthMonitor, is_alive}
use self_healing_distributed.Router.Client.{
  SetRequest, Transport, Pool, connect_failed, rpc_failed, replied, attempt,
}
use self_healing_distributed.Rpc.{GetResponse}

pub record ReplicationConfig : Type 0 where
  pub replication_factor : ℕ
  pub max_retries : ℕ

abbrev pub default_config : ReplicationConfig
default_config = record { replication_factor = 3; max_retries = 1 }

-- The boxed errors of the coordinator and of the router.
pub data Error : Type 0 where
  no_alive_nodes primary_write_failed target_not_found no_target connection_failed call_failed :
      Error

pub data Reply (A : Type 0) : Type 0 where
  reply : A → Reply A
  failure : Error → Reply A

pub record ReplicationCoordinator : Type 0 where
  pub hash_ring : HashRing
  pub config : ReplicationConfig
  pub health_monitor : HealthMonitor

-- The loop of `alive_preference_list` over the rest of the candidates.
unfoldable pub alive_nodes : ℕ → HealthMonitor → List NodeInfo → List NodeInfo → List NodeInfo
alive_nodes factor health [] alive = alive
alive_nodes factor health (node ∷ candidates) alive =
    let alive' = if is_alive node.id health then alive ++ node ∷ [] else alive in
    elim (leb factor (length alive')) [
      | true ↦ alive'
      | false ↦ alive_nodes factor health candidates alive'
    ]

-- The replication factor is below 2^64 - 2, so that adding 2 does not overflow.
unfoldable pub alive_preference_list :
    (Bytes → ℕ) → UuidText → Bytes → ReplicationCoordinator → List NodeInfo
unfolding alive_nodes
alive_preference_list xxh3_64 uuid key c =
    let candidates =
      get_preference_list xxh3_64 uuid key (c.config.replication_factor + 2) c.hash_ring in
    alive_nodes c.config.replication_factor c.health_monitor candidates []

module _ {Client World : Type 0} (t : Transport Client World) where
  -- The attempts at one node in `set`: the first answer ends them.
  unfoldable pub set_retries : ℕ → Bytes → SetRequest → Pool Client World → Pool Client World × Bool
  set_retries zero addr request p = (p, false)
  set_retries (suc n) addr request p =
      let (p', outcome) = attempt t (λ c. t.set c request) addr p in
      elim outcome [
        | connect_failed ↦ set_retries n addr request p'
        | rpc_failed ↦ set_retries n addr request p'
        | replied success ↦ (p', success)
      ]

  -- The loop of `set` over the nodes, with the results in their order.
  unfoldable pub set_nodes :
      ℕ → List NodeInfo → SetRequest → Pool Client World → Pool Client World × List Bool
  unfolding set_retries
  set_nodes retries [] request p = (p, [])
  set_nodes retries (node ∷ nodes) request p =
      let (p1, success) = set_retries retries node.addr request p in
      let (p2, results) = set_nodes retries nodes request p1 in (p2, success ∷ results)

  -- `results.first().copied().unwrap_or(false)`.
  abbrev pub first_or_false : List Bool → Bool
  first_or_false [] = false
  first_or_false (b ∷ bs) = b

  abbrev set_reply : Pool Client World × List Bool → Pool Client World × Reply Bool
  set_reply (p, results) =
      (p, if first_or_false results then reply true else failure primary_write_failed)

  unfoldable pub set_on :
      ℕ → List NodeInfo → SetRequest → Pool Client World → Pool Client World × Reply Bool
  unfolding set_nodes
  set_on retries [] request p = (p, failure no_alive_nodes)
  set_on retries (node ∷ nodes) request p = set_reply (set_nodes retries (node ∷ nodes) request p)

  -- The attempts at one node in `get`: the response that ends the whole operation, if there is one.
  unfoldable pub get_retries :
      ℕ → Bytes → Bytes → Pool Client World → Pool Client World × Option GetResponse
  get_retries zero addr key p = (p, none)
  get_retries (suc n) addr key p =
      let (p', outcome) = attempt t (λ c. t.get c key) addr p in
      elim outcome [
        | connect_failed ↦ get_retries n addr key p'
        | rpc_failed ↦ get_retries n addr key p'
        | replied response ↦ (p', if response.found then some response else none)
      ]

  abbrev pub not_found : GetResponse
  not_found = record { value = none; found = false }

  unfoldable pub get_nodes :
      ℕ → List NodeInfo → Bytes → Pool Client World → Pool Client World × GetResponse
  unfolding get_retries
  get_nodes retries [] key p = (p, not_found)
  get_nodes retries (node ∷ nodes) key p =
      let (p', outcome) = get_retries retries node.addr key p in
      elim outcome [ some response ↦ (p', response) | none ↦ get_nodes retries nodes key p' ]

  abbrev get_reply : Pool Client World × GetResponse → Pool Client World × Reply GetResponse
  get_reply (p, response) = (p, reply response)

  unfoldable pub get_on :
      ℕ → List NodeInfo → Bytes → Pool Client World → Pool Client World × Reply GetResponse
  unfolding get_nodes
  get_on retries [] key p = (p, failure no_alive_nodes)
  get_on retries (node ∷ nodes) key p = get_reply (get_nodes retries (node ∷ nodes) key p)

  -- The attempts at one node in `delete`: also a failure to connect ends them.
  unfoldable pub delete_retries : ℕ → Bytes → Bytes → Pool Client World → Pool Client World × Bool
  delete_retries zero addr key p = (p, false)
  delete_retries (suc n) addr key p =
      let (p', outcome) = attempt t (λ c. t.delete c key) addr p in
      elim outcome [
        | connect_failed ↦ (p', false)
        | rpc_failed ↦ delete_retries n addr key p'
        | replied deleted ↦ (p', deleted)
      ]

  unfoldable pub delete_nodes :
      ℕ → List NodeInfo → Bytes → Bool → Pool Client World → Pool Client World × Bool
  unfolding delete_retries
  delete_nodes retries [] key any_deleted p = (p, any_deleted)
  delete_nodes retries (node ∷ nodes) key any_deleted p =
      let (p1, deleted) = delete_retries retries node.addr key p in
      delete_nodes retries nodes key (any_deleted || deleted) p1

  abbrev delete_reply : Pool Client World × Bool → Pool Client World × Reply Bool
  delete_reply (p, deleted) = (p, reply deleted)

  unfoldable pub delete_on :
      ℕ → List NodeInfo → Bytes → Pool Client World → Pool Client World × Reply Bool
  unfolding delete_nodes
  delete_on retries [] key p = (p, failure no_alive_nodes)
  delete_on retries (node ∷ nodes) key p =
      delete_reply (delete_nodes retries (node ∷ nodes) key false p)

  module _ (xxh3_64 : Bytes → ℕ) (uuid : UuidText) where
    unfoldable pub set :
        SetRequest → ReplicationCoordinator → Pool Client World → Pool Client World × Reply Bool
    unfolding set_on
    set request c =
        set_on c.config.max_retries (alive_preference_list xxh3_64 uuid request.key c) request

    unfoldable pub get :
        Bytes → ReplicationCoordinator → Pool Client World → Pool Client World × Reply GetResponse
    unfolding get_on
    get key c = get_on c.config.max_retries (alive_preference_list xxh3_64 uuid key c) key

    unfoldable pub delete :
        Bytes → ReplicationCoordinator → Pool Client World → Pool Client World × Reply Bool
    unfolding delete_on
    delete key c = delete_on c.config.max_retries (alive_preference_list xxh3_64 uuid key c) key

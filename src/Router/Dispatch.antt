-- ===== src/Router/Dispatch.antt =====
-- `Router` of crates/router/src/router.rs, and `RouterServiceImpl` of
-- crates/router/src/grpc/service.rs, which serves it.
use self_healing_distributed.Prelude.{ℕ, Bool, true, Option, none, some, List, find, ◌==◌}
use self_healing_distributed.Types.{NodeId, NodeInfo, Bytes, UuidText}
use self_healing_distributed.Ring.HashRing.{HashRing}
use self_healing_distributed.Router.Client.{
  SetRequest, Transport, Pool, Attempt, connect_failed, rpc_failed, replied, attempt,
}
use self_healing_distributed.Router.Coordinator.{
  ReplicationCoordinator, Reply, reply, failure, Error, target_not_found, no_target,
  connection_failed, call_failed,
}
use self_healing_distributed.Router.Coordinator
use self_healing_distributed.Rpc.{GetResponse, Result, ok, err, internal, unimplemented}

abbrev addr_or_error : Option NodeInfo → Reply Bytes
addr_or_error none = failure target_not_found
addr_or_error (some node) = reply node.addr

unfoldable pub resolve_addr : Option NodeId → HashRing → Reply Bytes
resolve_addr none ring = failure no_target
resolve_addr (some id) ring = addr_or_error (find (λ n. n.id == id) ring.nodes)

module _ {Client World : Type 0} (t : Transport Client World) where
  abbrev attempted : {A : Type 0} → Pool Client World × Attempt A → Pool Client World × Reply A
  attempted (p, connect_failed) = (p, failure connection_failed)
  attempted (p, rpc_failed) = (p, failure call_failed)
  attempted (p, replied a) = (p, reply a)

  abbrev at_address :
      {A : Type 0}
      → (Client → World → World × Option A)
      → Reply Bytes
      → Pool Client World
      → Pool Client World × Reply A
  at_address call (failure e) p = (p, failure e)
  at_address call (reply addr) p = attempted (attempt t call addr p)

  -- The body of the branch with an explicit target.
  unfoldable pub direct :
      {A : Type 0}
      → (Client → World → World × Option A)
      → Option NodeId
      → HashRing
      → Pool Client World
      → Pool Client World × Reply A
  unfolding resolve_addr
  direct call target ring p = at_address call (resolve_addr target ring) p

  module _ (xxh3_64 : Bytes → ℕ) (uuid : UuidText) where
    unfoldable pub set :
        SetRequest
        → Option NodeId
        → ReplicationCoordinator
        → Pool Client World
        → Pool Client World × Reply Bool
    unfolding direct
    set request none c p = Coordinator.set t xxh3_64 uuid request c p
    set request (some id) c p = direct (λ client. t.set client request) (some id) c.hash_ring p

    unfoldable pub get :
        Bytes
        → Option NodeId
        → ReplicationCoordinator
        → Pool Client World
        → Pool Client World × Reply GetResponse
    unfolding direct
    get key none c p = Coordinator.get t xxh3_64 uuid key c p
    get key (some id) c p = direct (λ client. t.get client key) (some id) c.hash_ring p

    unfoldable pub delete :
        Bytes
        → Option NodeId
        → ReplicationCoordinator
        → Pool Client World
        → Pool Client World × Reply Bool
    unfolding direct
    delete key none c p = Coordinator.delete t xxh3_64 uuid key c p
    delete key (some id) c p = direct (λ client. t.delete client key) (some id) c.hash_ring p

    -- An error of the router is a status.
    abbrev respond : {A : Type 0} → Pool Client World × Reply A → Pool Client World × Result A
    respond (p, reply a) = (p, ok a)
    respond (p, failure e) = (p, err internal)

    unfoldable pub serve_set :
        SetRequest → ReplicationCoordinator → Pool Client World → Pool Client World × Result Bool
    unfolding set
    serve_set request c p = respond (set request none c p)

    unfoldable pub serve_get :
        Bytes → ReplicationCoordinator → Pool Client World → Pool Client World × Result GetResponse
    unfolding get
    serve_get key c p = respond (get key none c p)

    unfoldable pub serve_delete :
        Bytes → ReplicationCoordinator → Pool Client World → Pool Client World × Result Bool
    unfolding delete
    serve_delete key c p = respond (delete key none c p)

abbrev pub serve_heartbeat : Result Bool
serve_heartbeat = ok true

abbrev pub serve_replicate_write : Result Bool
serve_replicate_write = err unimplemented

abbrev pub serve_transfer_keys : Result (List Bytes)
serve_transfer_keys = err unimplemented

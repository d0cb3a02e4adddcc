-- ===== src/Router/Cluster.antt =====
-- The router (crates/router) over nodes (crates/node) that are reached at their addresses, by a
-- network that delivers every call to a node that is there, and that fails to connect to the others.
use self_healing_distributed.Prelude.{◌≡◌, Bool, Option, none, some}
use self_healing_distributed.Prelude.Map
use self_healing_distributed.Prelude.Map.{Map, get-insert}
use self_healing_distributed.Types.{Bytes, Bytes-discrete, Instant}
use self_healing_distributed.Cache.Visible.{visible}
use self_healing_distributed.Node.Service
use self_healing_distributed.Node.Service.{NodeState, millis}
use self_healing_distributed.Rpc.{Result, ok, err, GetResponse}
use self_healing_distributed.Router.Client.{SetRequest, Transport, Pool}

abbrev pub Cluster : Type 0
Cluster = Map Bytes NodeState

abbrev pub node_at : Bytes → Cluster → Option NodeState
node_at addr w = Map.get Bytes-discrete addr w

abbrev response : {A : Type 0} → Result A → Option A
response (ok a) = some a
response (err _) = none

abbrev put : Bytes → Cluster → Option (NodeState × Result Bool) → Cluster × Option Bool
put addr w none = (w, none)
put addr w (some (n, r)) = (Map.insert Bytes-discrete addr n w, response r)

unfoldable pub serve_set : Instant → Bytes → SetRequest → Cluster → Cluster × Option Bool
serve_set now addr request w = elim (node_at addr w) [
  | none ↦ (w, none)
  | some n ↦ put addr w (Service.set now request.key request.value request.ttl_ms n)
]

unfoldable pub serve_get : Instant → Bytes → Bytes → Cluster → Cluster × Option GetResponse
serve_get now addr key w = elim (node_at addr w) [
  | none ↦ (w, none)
  | some n ↦
      let (n', r) = Service.get now key n in (Map.insert Bytes-discrete addr n' w, response r)
]

unfoldable pub serve_delete : Bytes → Bytes → Cluster → Cluster × Option Bool
serve_delete addr key w = elim (node_at addr w) [
  | none ↦ (w, none)
  | some n ↦ let (n', r) = Service.delete key n in (Map.insert Bytes-discrete addr n' w, response r)
]

abbrev address_of : Bytes → Option NodeState → Option Bytes
address_of addr none = none
address_of addr (some n) = some addr

-- A client is the address that it is connected to.
abbrev pub transport : Instant → Transport Bytes Cluster
transport now = record {
  connect = λ addr w. (w, address_of addr (node_at addr w));
  set = serve_set now;
  get = serve_get now;
  delete = serve_delete;
}

-- Every cached client is connected to the address that it is cached for.
abbrev pub IsFaithful : Pool Bytes Cluster → Type 0
IsFaithful p = (addr c : Bytes) → Map.get Bytes-discrete addr p.clients ≡ some c → c ≡ addr

abbrev node_shows : Instant → Bytes → Option NodeState → Option Bytes
node_shows later key none = none
node_shows later key (some n) = visible later n.store key

-- What a read at an address would show.
abbrev pub shows : Instant → Bytes → Bytes → Cluster → Option Bytes
shows later key addr w = node_shows later key (node_at addr w)

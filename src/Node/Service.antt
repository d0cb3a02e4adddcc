-- ===== src/Node/Service.antt =====
-- `CacheServiceImpl` of crates/node/src/grpc/service.rs over the state that its fields share with
-- the other tasks of the node. A handler that can panic returns `none` where it does.
use self_healing_distributed.Prelude.{ℕ, Bool, true, false, Option, none, some, List, if◌then◌else◌}
use self_healing_distributed.Prelude.Map
use self_healing_distributed.Prelude.Map.{Map}
use self_healing_distributed.Types.{Bytes, Bytes-discrete, Instant, Duration, from_millis}
use self_healing_distributed.Cache.Store
use self_healing_distributed.Cache.Store.{CacheStore, TransferEntry, entries_for_transfer}
use self_healing_distributed.Gossip.Table.{MembershipTable, is_self_joining}
use self_healing_distributed.Rpc.{Result, ok, err, unavailable, GetResponse}

pub record NodeState : Type 0 where
  pub store : CacheStore
  pub table : MembershipTable
  pub tombstones : Map Bytes (Unit {0})

abbrev pub millis : Option ℕ → Option Duration
millis none = none
millis (some ms) = some (from_millis ms)

abbrev stored : NodeState → Option CacheStore → Option (NodeState × Result Bool)
stored n none = none
stored n (some s) = some (record n { store = s }, ok true)

unfoldable pub set :
    Instant → Bytes → Bytes → Option ℕ → NodeState → Option (NodeState × Result Bool)
set now key value ttl_ms n =
    if is_self_joining n.table
    then some (n, err unavailable)
    else stored n (Store.set now key value (millis ttl_ms) n.store)

abbrev get_response : Option Bytes → GetResponse
get_response none = record { value = none; found = false }
get_response (some v) = record { value = some v; found = true }

unfoldable pub get : Instant → Bytes → NodeState → NodeState × Result GetResponse
get now key n =
    let (s, v) = Store.get now key n.store in (record n { store = s }, ok (get_response v))

unfoldable pub delete : Bytes → NodeState → NodeState × Result Bool
delete key n =
    let (s, deleted) = Store.delete key n.store in
    if is_self_joining n.table
    then (
      record n { tombstones = Map.insert Bytes-discrete key tt n.tombstones; store = s },
      err unavailable,
    )
    else (record n { store = s }, ok deleted)

unfoldable pub heartbeat : Bytes → NodeState → NodeState × Result Bool
heartbeat node_id n = (n, ok true)

unfoldable pub replicate_write :
    Instant → Bytes → Bytes → Option ℕ → NodeState → Option (NodeState × Result Bool)
replicate_write now key value ttl_ms n = stored n (Store.set now key value (millis ttl_ms) n.store)

-- The chunks that are sent, unless the receiver goes away.
unfoldable pub transfer_keys : Instant → NodeState → NodeState × Result (List TransferEntry)
transfer_keys now n = (n, ok (entries_for_transfer now n.store))

-- ===== src/Router/Client.antt =====
-- `NodeClientPool` of crates/router/src/client.rs. The channels and the generated clients are the
-- record `Transport`: what connecting and calling do to the outside world, and what comes back. An
-- address stands for one that forms a URI with `http://` before it, as the source expects.
use self_healing_distributed.Prelude.{ℕ, Bool, Option, none, some, []}
use self_healing_distributed.Prelude.Map
use self_healing_distributed.Prelude.Map.{Map}
use self_healing_distributed.Types.{Bytes, Bytes-discrete}
use self_healing_distributed.Rpc.{GetResponse}

pub record SetRequest : Type 0 where
  pub key : Bytes
  pub value : Bytes
  pub ttl_ms : Option ℕ

-- A call answers with `none` where it fails.
pub record Transport (Client World : Type 0) : Type 0 where
  pub connect : Bytes → World → World × Option Client
  pub set : Client → SetRequest → World → World × Option Bool
  pub get : Client → Bytes → World → World × Option GetResponse
  pub delete : Client → Bytes → World → World × Option Bool

-- The cached clients, and the world outside.
pub record Pool (Client World : Type 0) : Type 0 where
  pub clients : Map Bytes Client
  pub world : World

-- What became of one attempt at a call.
pub data Attempt (A : Type 0) : Type 0 where
  connect_failed rpc_failed : Attempt A
  replied : A → Attempt A

module _ {Client World : Type 0} where
  unfoldable pub new : World → Pool Client World
  new w = record { clients = []; world = w }

  abbrev keep_client :
      Bytes → Pool Client World → World × Option Client → Pool Client World × Option Client
  keep_client addr p (w, none) = (record p { world = w }, none)
  keep_client addr p (w, some c) =
      (record { clients = Map.insert Bytes-discrete addr c p.clients; world = w }, some c)

  unfoldable pub get_client :
      Transport Client World → Bytes → Pool Client World → Pool Client World × Option Client
  get_client t addr p = elim (Map.get Bytes-discrete addr p.clients) [
    | some c ↦ (p, some c)
    | none ↦ keep_client addr p (t.connect addr p.world)
  ]

  abbrev answered :
      {A : Type 0} → Pool Client World → World × Option A → Pool Client World × Attempt A
  answered p (w, none) = (record p { world = w }, rpc_failed)
  answered p (w, some a) = (record p { world = w }, replied a)

  abbrev called :
      {A : Type 0}
      → (Client → World → World × Option A)
      → Pool Client World × Option Client
      → Pool Client World × Attempt A
  called call (p, none) = (p, connect_failed)
  called call (p, some c) = answered p (call c p.world)

  -- The body of the retry loops: a client for the address, and then the call.
  unfoldable pub attempt :
      {A : Type 0}
      → Transport Client World
      → (Client → World → World × Option A)
      → Bytes
      → Pool Client World
      → Pool Client World × Attempt A
  attempt t call addr p = called call (get_client t addr p)

-- ===== src/Cache/Race.antt =====
-- The race in `get` of crates/node/src/cache/store.rs: it drops its lock between finding an entry
-- expired and removing the key.
use self_healing_distributed.Prelude.{◌≡◌, true, none, some, arith}
use self_healing_distributed.Prelude.Map.{get-remove}
use self_healing_distributed.Types.{Bytes, Bytes-discrete, Instant}
use self_healing_distributed.Cache.Store.{
  CacheEntry, CacheStore, lookup, set, get_read, get_finish, expired,
}
use self_healing_distributed.Cache.Visible.{visible, visible-set}

-- A `set` without a deadline that falls between the two steps of a `get` of the same expired key is
-- acknowledged and lost: the `get` removes the new value.
pub get_loses_set :
    (now between : Instant) (key value : Bytes) (e : CacheEntry) (s s' : CacheStore)
    → lookup s key ≡ some e
    → expired now e ≡ true
    → set between key value none s ≡ some s'
    → (visible between s' key ≡ some value)
      × (visible between (get_finish key (get_read now key s) s').0 key ≡ none)
unfolding get_read get_finish visible
get_loses_set now between key value e s s' found old done = (
  ground (arith, visible-set between key s value none s' between key done),
  ground (arith, get-remove Bytes-discrete key key s'.data_map),
)

-- ===== src/Tests/Cache.antt =====
-- The theorems on the cache at a store whose one key has expired.
use self_healing_distributed.Prelude.{
  ℕ_discrete, ◌+◌, ◌≡◌, refl, true, none, some, [], ◌∷◌, arith, if◌then◌else◌, ltb, ite,
}
use self_healing_distributed.Prelude.Map
use self_healing_distributed.Types.{Bytes, Bytes-discrete}
use self_healing_distributed.Cache.Store
use self_healing_distributed.Cache.Store.{CacheStore, end_of_time, is_some, lookup}
use self_healing_distributed.Cache.Visible
use self_healing_distributed.Cache.Visible.{visible, lasting, value_of}
use self_healing_distributed.Cache.Race
use self_healing_distributed.Tests.Data.{key, old_entry, old_store}

abbrev other : Bytes
other = b'o' ∷ []

-- The store after the key was set again at the instant 9, for 4 nanoseconds or for ever.
abbrev set_store : CacheStore
set_store = record old_store {
  data_map = (key, record { value = other; expires_at = some 13 }) ∷ [];
}

abbrev kept_store : CacheStore
kept_store = record old_store { data_map = (key, record { value = other; expires_at = none }) ∷ [] }

abbrev revived_store : CacheStore
revived_store = record old_store {
  data_map = (key, record old_entry { expires_at = some 13 }) ∷ [];
}

visible-set_example :
    visible 12 set_store key
    ≡ ite
        (Bytes-discrete key key)
        (lasting 9 key old_store 12 other (some 4))
        (visible 12 old_store key)
unfolding Store.set Store.deadline Store.plus Map.insert Bytes-discrete ℕ_discrete
visible-set_example = Visible.visible-set 9 key old_store other (some 4) set_store 12 key refl

visible-expire_example :
    (true ≡ is_some (lookup old_store key))
    × (visible 12 revived_store key
        ≡ ite
            (Bytes-discrete key key)
            (if ltb 12 (9 + 4) then value_of (lookup old_store key) else none)
            (visible 12 old_store key))
unfolding Store.expire Store.plus Map.insert Map.get Bytes-discrete ℕ_discrete
visible-expire_example = Visible.visible-expire 9 key old_store 4 revived_store true 12 key refl

visible-sweep_example : visible 10 (Store.sweep 9 old_store) key ≡ visible 10 old_store key
unfolding Map.get Bytes-discrete ℕ_discrete
visible-sweep_example = Visible.visible-sweep 9 10 old_store key (refl, tt) (omega arith)

get_loses_set_example :
    (visible 9 kept_store key ≡ some other)
    × (visible 9 (Store.get_finish key (Store.get_read 9 key old_store) kept_store).0 key ≡ none)
unfolding Store.set Store.deadline Store.plus Map.insert Map.get Bytes-discrete ℕ_discrete
get_loses_set_example =
    Race.get_loses_set 9 9 key other old_entry old_store kept_store refl refl refl

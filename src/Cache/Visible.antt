-- ===== src/Cache/Visible.antt =====
-- What can be read from a `CacheStore` (crates/node/src/cache/store.rs) at a time, and how the
-- operations change it.
use self_healing_distributed.Prelude.{
  ◌+◌, ◌≤◌, ◌<◌, ◌≡◌, Bool, true, Option, none, some, arith, ltb, if◌then◌else◌, ite, Option-cases,
  inl, inr,
}
use self_healing_distributed.Prelude.Map.{
  IsUnique, get-insert, get-remove, get-retain, retain-IsUnique,
}
use self_healing_distributed.Types.{Bytes, Bytes-discrete, Instant, Duration}
use self_healing_distributed.Cache.Store.{
  CacheEntry, CacheStore, lookup, deadline, set, expired, get, delete, live, exists, expire, sweep,
  is_some,
}

-- The value of an entry that has not expired.
abbrev pub shown : Instant → Option CacheEntry → Option Bytes
shown now none = none
shown now (some e) = if expired now e then none else some e.value

unfoldable pub visible : Instant → CacheStore → Bytes → Option Bytes
visible now s key = shown now (lookup s key)

abbrev pub value_of : Option CacheEntry → Option Bytes
value_of none = none
value_of (some e) = some e.value

module _ (now : Instant) (key : Bytes) (s : CacheStore) where
  -- `get` returns what is visible.
  pub get-eq-visible : (get now key s).1 ≡ visible now s key
  unfolding get visible
  get-eq-visible = ground arith

  -- `get` changes nothing that can be read then or later.
  pub visible-get :
      (later : Instant) (j : Bytes)
      → now ≤ later
      → visible later (get now key s).0 j ≡ visible later s j
  unfolding get visible
  visible-get later j h = ground (arith, get-remove Bytes-discrete key j s.data_map)

  pub visible-delete :
      (later : Instant) (j : Bytes)
      → visible later (delete key s).0 j ≡ ite (Bytes-discrete key j) none (visible later s j)
  unfolding delete visible
  visible-delete later j = ground (arith, get-remove Bytes-discrete key j s.data_map)

  pub visible-exists :
      (later : Instant) (j : Bytes)
      → now ≤ later
      → visible later (exists now key s).0 j ≡ visible later s j
  unfolding exists
  visible-exists later j h = visible-get later j h

  -- The value that a `set` with this time to live shows.
  abbrev pub lasting : Instant → Bytes → Option Duration → Option Bytes
  lasting later value none = some value
  lasting later value (some d) = if ltb later (now + d) then some value else none

  -- After a `set` that does not panic, the key shows the value exactly until its time to live has
  -- passed, for ever without one, and every other key shows what it did.
  pub visible-set :
      (value : Bytes) (ttl : Option Duration) (s' : CacheStore) (later : Instant) (j : Bytes)
      → set now key value ttl s ≡ some s'
      → visible later s' j
        ≡ ite (Bytes-discrete key j) (lasting later value ttl) (visible later s j)
  unfolding set visible deadline
  visible-set value none s' later j h =
      let e : CacheEntry = record { value = value; expires_at = none } in
      ground (arith, get-insert Bytes-discrete key j e s.data_map)
  visible-set value (some d) s' later j h =
      let e : CacheEntry = record { value = value; expires_at = some (now + d) } in
      ground (arith, get-insert Bytes-discrete key j e s.data_map)

  -- `expire` reports whether the key has an entry, and then sets its deadline: what is visible is
  -- cut off there. An entry that has expired and not been dropped is brought back.
  pub visible-expire :
      (d : Duration) (s' : CacheStore) (done : Bool) (later : Instant) (j : Bytes)
      → expire now key d s ≡ some (s', done)
      → (done ≡ is_some (lookup s key))
        × (visible later s' j
            ≡ ite
                (Bytes-discrete key j)
                (if ltb later (now + d) then value_of (lookup s key) else none)
                (visible later s j))
  unfolding expire visible
  visible-expire d s' done later j h = elim (Option-cases (lookup s key)) [
    | inl absent ↦ ground arith
    | inr (e, found) ↦
        let e' : CacheEntry = record e { expires_at = some (now + d) } in
        ground (arith, get-insert Bytes-discrete key j e' s.data_map)
  ]

  -- `expire` on a key whose entry has expired, and was not dropped yet, makes the old value readable
  -- again, though the key could not be read before.
  pub expire_revives :
      (d : Duration) (e : CacheEntry) (s' : CacheStore) (done : Bool)
      → lookup s key ≡ some e
      → expired now e ≡ true
      → 0 < d
      → expire now key d s ≡ some (s', done)
      → (visible now s key ≡ none) × (visible now s' key ≡ some e.value) × (done ≡ true)
  expire_revives d e s' done found old pos h = (
    unfold visible in ground arith,
    ground (arith, visible-expire d s' done now key h),
    ground (arith, visible-expire d s' done now key h),
  )

pub sweep-IsUnique :
    (now : Instant) (s : CacheStore)
    → IsUnique Bytes-discrete s.data_map
    → IsUnique Bytes-discrete (sweep now s).data_map
unfolding sweep
sweep-IsUnique now s u = retain-IsUnique Bytes-discrete _ s.data_map u

-- The sweep changes nothing that can be read then or later. No key stands twice in the store.
pub visible-sweep :
    (now later : Instant) (s : CacheStore) (j : Bytes)
    → IsUnique Bytes-discrete s.data_map
    → now ≤ later
    → visible later (sweep now s) j ≡ visible later s j
unfolding sweep visible
visible-sweep now later s j u h =
    ground (arith, get-retain Bytes-discrete (λ key e. live now e) j s.data_map u)

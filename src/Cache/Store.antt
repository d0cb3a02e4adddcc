-- ===== src/Cache/Store.antt =====
-- `CacheStore` of crates/node/src/cache/store.rs, and the sweep of crates/node/src/cache/expiry.rs.
-- `now` is the reading of the clock that a method makes. A method that can panic returns `none`
-- where it does: `Instant::now() + ttl` panics past the last instant that the platform can name.
use self_healing_distributed.Prelude.{
  ℕ, ◌+◌, ◌-◌, ◌*◌, ◌^◌, Bool, true, false, Option, none, some, List, [], ◌∷◌, length, ltb, leb,
  ◌==◌, if◌then◌else◌, keep,
}
use self_healing_distributed.Prelude.Map
use self_healing_distributed.Prelude.Map.{Map}
use self_healing_distributed.Types.{
  Bytes, Bytes-discrete, Instant, Duration, from_millis, as_millis,
}

pub record CacheEntry : Type 0 where
  pub value : Bytes
  pub expires_at : Option Instant

pub record CacheStore : Type 0 where
  pub data_map : Map Bytes CacheEntry
  pub epoch : Instant

-- Seconds are an `i64` on 64-bit Unix.
abbrev pub end_of_time : Instant
end_of_time = 2 ^ 63 * 1000000000

-- `instant + duration`.
unfoldable pub plus : Instant → Duration → Option Instant
plus instant d = if ltb (instant + d) end_of_time then some (instant + d) else none

unfoldable pub new : Instant → CacheStore
new now = record { data_map = []; epoch = now }

unfoldable pub instant_to_epoch_ms : Instant → CacheStore → ℕ
instant_to_epoch_ms instant s = if leb s.epoch instant then as_millis (instant - s.epoch) else 0

unfoldable pub epoch_ms_to_instant : ℕ → CacheStore → Option Instant
unfolding plus
epoch_ms_to_instant ms s = plus s.epoch (from_millis ms)

abbrev pub lookup : CacheStore → Bytes → Option CacheEntry
lookup s key = Map.get Bytes-discrete key s.data_map

abbrev pub store : Bytes → CacheEntry → CacheStore → CacheStore
store key e s = record s { data_map = Map.insert Bytes-discrete key e s.data_map }

abbrev pub without : Bytes → CacheStore → CacheStore
without key s = record s { data_map = Map.remove Bytes-discrete key s.data_map }

-- `ttl.map(|d| Instant::now() + d)`: the outer `none` is the panic.
unfoldable pub deadline : Instant → Option Duration → Option (Option Instant)
unfolding plus
deadline now none = some none
deadline now (some d) = elim (plus now d) [ none ↦ none | some i ↦ some (some i) ]

abbrev store_until : Bytes → Bytes → CacheStore → Option (Option Instant) → Option CacheStore
store_until key value s none = none
store_until key value s (some expires_at) =
    some (store key (record { value = value; expires_at = expires_at }) s)

unfoldable pub set : Instant → Bytes → Bytes → Option Duration → CacheStore → Option CacheStore
set now key value ttl s = store_until key value s (deadline now ttl)

-- `expires_at <= now`.
abbrev pub expired : Instant → CacheEntry → Bool
expired now e = elim e.expires_at [ none ↦ false | some t ↦ leb t now ]

-- What `get` finds while it holds the entry.
pub data Reading : Type 0 where
  missing stale : Reading
  found : Bytes → Reading

abbrev pub reading : Instant → Option CacheEntry → Reading
reading now none = missing
reading now (some e) = if expired now e then stale else found e.value

-- The first step of `get`, under the lock of the entry, and the second, after the lock is dropped.
unfoldable pub get_read : Instant → Bytes → CacheStore → Reading
get_read now key s = reading now (lookup s key)

unfoldable pub get_finish : Bytes → Reading → CacheStore → CacheStore × Option Bytes
get_finish key missing s = (s, none)
get_finish key stale s = (without key s, none)
get_finish key (found v) s = (s, some v)

unfoldable pub get : Instant → Bytes → CacheStore → CacheStore × Option Bytes
unfolding get_read get_finish
get now key s = get_finish key (get_read now key s) s

abbrev pub is_some {ℓ} : {A : Type ℓ} → Option A → Bool
is_some none = false
is_some (some _) = true

unfoldable pub delete : Bytes → CacheStore → CacheStore × Bool
delete key s = (without key s, is_some (lookup s key))

-- `expires_at > now`, or no expiry.
abbrev pub live : Instant → CacheEntry → Bool
live now e = elim e.expires_at [ none ↦ true | some t ↦ ltb now t ]

unfoldable pub len : Instant → CacheStore → ℕ
len now s = length (keep (λ e. live now e.1) s.data_map)

unfoldable pub is_empty : Instant → CacheStore → Bool
unfolding len
is_empty now s = len now s == 0

abbrev pub remaining : Instant → Option Instant → Option Duration
remaining now none = none
remaining now (some t) = some (if ltb now t then t - now else 0)

abbrev remaining_of : Instant → Option CacheEntry → Option Duration
remaining_of now none = none
remaining_of now (some e) = remaining now e.expires_at

unfoldable pub ttl : Instant → Bytes → CacheStore → Option Duration
ttl now key s = remaining_of now (lookup s key)

unfoldable pub exists : Instant → Bytes → CacheStore → CacheStore × Bool
unfolding get
exists now key s = let (s', v) = get now key s in (s', is_some v)

abbrev expire_at : Bytes → CacheStore → CacheEntry → Option Instant → Option (CacheStore × Bool)
expire_at key s e none = none
expire_at key s e (some t) = some (store key (record e { expires_at = some t }) s, true)

expire_entry :
    Instant → Bytes → Duration → CacheStore → Option CacheEntry → Option (CacheStore × Bool)
expire_entry now key d s none = some (s, false)
expire_entry now key d s (some e) = expire_at key s e (plus now d)

unfoldable pub expire : Instant → Bytes → Duration → CacheStore → Option (CacheStore × Bool)
unfolding expire_entry plus
expire now key d s = expire_entry now key d s (lookup s key)

-- An element of the result of `entries_for_transfer`.
pub record TransferEntry : Type 0 where
  pub key : Bytes
  pub value : Bytes
  pub expires_at_ms : Option ℕ

abbrev pub remaining_ms : Instant → Option Instant → Option ℕ
remaining_ms now none = none
remaining_ms now (some t) = some (as_millis (t - now))

unfoldable pub transfer_from : Instant → Map Bytes CacheEntry → List TransferEntry
transfer_from now [] = []
transfer_from now ((key, e) ∷ m) =
    let rest = transfer_from now m in
    if expired now e
    then rest
    else record { key = key; value = e.value; expires_at_ms = remaining_ms now e.expires_at } ∷ rest

unfoldable pub entries_for_transfer : Instant → CacheStore → List TransferEntry
unfolding transfer_from
entries_for_transfer now s = transfer_from now s.data_map

abbrev ttl_of_ms : ℕ → Option Duration
ttl_of_ms ms = some (from_millis ms)

unfoldable pub set_from_transfer :
    Instant → Bytes → Bytes → Option ℕ → CacheStore → Option CacheStore
unfolding set
set_from_transfer now key value none s = set now key value none s
set_from_transfer now key value (some ms) s =
    if ms == 0 then some s else set now key value (ttl_of_ms ms) s

-- One round of the loop of `start_expiry_sweeper`.
unfoldable pub sweep : Instant → CacheStore → CacheStore
sweep now s = record s { data_map = Map.retain (λ key e. live now e) s.data_map }

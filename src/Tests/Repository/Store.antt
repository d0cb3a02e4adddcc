-- ===== src/Tests/Repository/Store.antt =====
-- The unit tests of crates/node/src/cache/store.rs. A test is a list of calls, each with the instant
-- at which it is made, in nanoseconds after the store was made.
use self_healing_distributed.Prelude.{
  ℕ, ℕ_discrete, ◌+◌, ◌≡◌, refl, Bool, true, false, Option, none, some, List, [], ◌∷◌, ltb, leb,
  ◌&&◌,
}
use self_healing_distributed.Prelude.Map
use self_healing_distributed.Types.{Bytes, Bytes-discrete, Instant, Duration, codes, from_millis}
use self_healing_distributed.Cache.Store
use self_healing_distributed.Cache.Store.{CacheStore, TransferEntry}

data Call : Type 0 where
  set : Bytes → Bytes → Option Duration → Call
  get delete exists ttl : Bytes → Call
  expire : Bytes → Duration → Call
  set_from_transfer : Bytes → Bytes → Option ℕ → Call
  entries_for_transfer : Call

-- What a call returns.
data Returned : Type 0 where
  nothing panicked : Returned
  bytes : Option Bytes → Returned
  answer : Bool → Returned
  duration : Option Duration → Returned
  entries : List TransferEntry → Returned

abbrev written : CacheStore → Option CacheStore → CacheStore × Returned
written s none = (s, panicked)
written s (some s') = (s', nothing)

abbrev answered : CacheStore → Option (CacheStore × Bool) → CacheStore × Returned
answered s none = (s, panicked)
answered s (some (s', b)) = (s', answer b)

abbrev call : Instant → Call → CacheStore → CacheStore × Returned
call now (set key value d) s = written s (Store.set now key value d s)
call now (get key) s = let (s', v) = Store.get now key s in (s', bytes v)
call now (delete key) s = let (s', b) = Store.delete key s in (s', answer b)
call now (exists key) s = let (s', b) = Store.exists now key s in (s', answer b)
call now (ttl key) s = (s, duration (Store.ttl now key s))
call now (expire key d) s = answered s (Store.expire now key d s)
call now (set_from_transfer key value ms) s = written s (Store.set_from_transfer now key value ms s)
call now entries_for_transfer s = (s, entries (Store.entries_for_transfer now s))

abbrev returned_from : List (Instant × Call) → CacheStore → List Returned
returned_from [] s = []
returned_from ((now, c) ∷ cs) s = let (s', r) = call now c s in r ∷ returned_from cs s'

abbrev returned : List (Instant × Call) → List Returned
returned cs = returned_from cs (Store.new 0)

abbrev ms : ℕ → Duration
ms n = from_millis n

abbrev key : Bytes
key = codes "key"

abbrev val : Bytes
val = codes "val"

abbrev TestSetGetRoundtrip : Type 0
TestSetGetRoundtrip =
    returned ((1, set (codes "hello") (codes "world") none) ∷ (2, get (codes "hello")) ∷ [])
    ≡ nothing ∷ bytes (some (codes "world")) ∷ []

abbrev TestGetNonexistent : Type 0
TestGetNonexistent = returned ((1, get (codes "missing")) ∷ []) ≡ bytes none ∷ []

abbrev TestDeleteRemovesKey : Type 0
TestDeleteRemovesKey =
    returned ((1, set key val none) ∷ (2, delete key) ∷ (3, get key) ∷ [])
    ≡ nothing ∷ answer true ∷ bytes none ∷ []

abbrev TestTtlExpiry : Type 0
TestTtlExpiry =
    returned ((1, set key val (some (ms 50))) ∷ (2, get key) ∷ (3 + ms 100, get key) ∷ [])
    ≡ nothing ∷ bytes (some val) ∷ bytes none ∷ []

abbrev TestNoTtl : Type 0
TestNoTtl =
    returned ((1, set key val none) ∷ (2 + ms 50, get key) ∷ []) ≡ nothing ∷ bytes (some val) ∷ []

abbrev TestOverwrite : Type 0
TestOverwrite =
    returned ((1, set key (codes "v1") none) ∷ (2, set key (codes "v2") none) ∷ (3, get key) ∷ [])
    ≡ nothing ∷ nothing ∷ bytes (some (codes "v2")) ∷ []

abbrev TestExists : Type 0
TestExists =
    returned ((1, set key val none) ∷ (2, exists key) ∷ (3, delete key) ∷ (4, exists key) ∷ [])
    ≡ nothing ∷ answer true ∷ answer true ∷ answer false ∷ []

abbrev TestExpire : Type 0
TestExpire =
    returned (
      (1, set key val none)
      ∷ (2, expire key (ms 50))
      ∷ (3, exists key)
      ∷ (4 + ms 100, exists key)
      ∷ [])
    ≡ nothing ∷ answer true ∷ answer true ∷ answer false ∷ []

-- The bounds that the test asserts, at the instant 2.
abbrev TestTtlRemaining : Type 0
TestTtlRemaining =
    let left : ℕ = 999999999 in
    (returned ((1, set key val (some (ms 1000))) ∷ (2, ttl key) ∷ [])
      ≡ nothing ∷ duration (some left) ∷ [])
    × (ltb (ms 900) left && leb left (ms 1000) ≡ true)

-- The keys stand in the order in which they were set.
abbrev TestEntriesForTransfer : Type 0
TestEntriesForTransfer =
    let left : ℕ = 59989 in
    (returned (
        (1, set (codes "no_ttl") (codes "v1") none)
        ∷ (2, set (codes "with_ttl") (codes "v2") (some (ms 60000)))
        ∷ (3, set (codes "expired") (codes "v3") (some (ms 1)))
        ∷ (4 + ms 10, entries_for_transfer)
        ∷ [])
      ≡ nothing
        ∷ nothing
        ∷ nothing
        ∷ entries (
            record { key = codes "no_ttl"; value = codes "v1"; expires_at_ms = none }
            ∷ record { key = codes "with_ttl"; value = codes "v2"; expires_at_ms = some left }
            ∷ [])
        ∷ [])
    × (ltb 59000 left && leb left 60000 ≡ true)

abbrev TestSetFromTransferWithTtl : Type 0
TestSetFromTransferWithTtl =
    let left : ℕ = 4999999998 in
    (returned ((1, set_from_transfer key val (some 5000)) ∷ (2, get key) ∷ (3, ttl key) ∷ [])
      ≡ nothing ∷ bytes (some val) ∷ duration (some left) ∷ [])
    × (ltb (ms 4000) left && leb left (ms 5000) ≡ true)

abbrev TestSetFromTransferNoTtl : Type 0
TestSetFromTransferNoTtl =
    returned ((1, set_from_transfer key val none) ∷ (2, get key) ∷ (3, ttl key) ∷ [])
    ≡ nothing ∷ bytes (some val) ∷ duration none ∷ []

abbrev TestSetFromTransferExpiredSkipped : Type 0
TestSetFromTransferExpiredSkipped =
    returned ((1, set_from_transfer key val (some 0)) ∷ (2, get key) ∷ [])
    ≡ nothing ∷ bytes none ∷ []

-- At an instant 7.5 milliseconds after the store was made, which comes back as 7 milliseconds.
abbrev TestEpochConversion : Type 0
TestEpochConversion =
    (Store.instant_to_epoch_ms 7500000 (Store.new 0) ≡ 7)
    × (Store.epoch_ms_to_instant 7 (Store.new 0) ≡ some 7000000)

store_tests_pass :
    (TestSetGetRoundtrip × TestGetNonexistent × TestDeleteRemovesKey × TestTtlExpiry)
    × (TestNoTtl × TestOverwrite × TestExists × TestExpire × TestTtlRemaining)
    × (TestEntriesForTransfer × TestSetFromTransferWithTtl × TestSetFromTransferNoTtl)
    × (TestSetFromTransferExpiredSkipped × TestEpochConversion)
unfolding Store.new Store.set Store.get Store.delete Store.exists Store.ttl Store.expire
    Store.set_from_transfer Store.entries_for_transfer Store.deadline Store.plus
    Store.instant_to_epoch_ms Store.epoch_ms_to_instant Map.get Map.insert Map.remove Bytes-discrete
    ℕ_discrete
store_tests_pass = (
  (refl, refl, refl, refl),
  (refl, refl, refl, refl, (refl, refl)),
  ((refl, refl), (refl, refl), refl),
  (refl, (refl, refl)),
)

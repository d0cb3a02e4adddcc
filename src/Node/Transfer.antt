-- ===== src/Node/Transfer.antt =====
-- What the rebalance (crates/node/src/rebalance/mod.rs) brings over from another node's
-- `entries_for_transfer` (crates/node/src/cache/store.rs).
use self_healing_distributed.Prelude.{
  ℕ, ◌+◌, ◌-◌, ◌*◌, ◌/◌, ◌^◌, ◌<◌, ◌≡◌, ◌≢◌, inl, inr, false, Option, none, some, List, [], ◌∷◌,
  arith, ltb, ◌==◌, if◌then◌else◌, length, keep, Option-cases, Bool-cases, map,
}
use self_healing_distributed.Prelude.Map.{get-insert}
use self_healing_distributed.Types.{
  NodeId, Bytes, Instant, Duration, UuidText, from_millis, as_millis,
}
use self_healing_distributed.Cache.Store.{
  CacheStore, CacheEntry, TransferEntry, lookup, end_of_time, live, expired, remaining_ms,
  set_from_transfer,
}
use self_healing_distributed.Cache.Store
use self_healing_distributed.Cache.Visible.{visible, visible-set}
use self_healing_distributed.Ring.HashRing.{HashRing}
use self_healing_distributed.Node.Rebalancer.{accepts, take_chunk, pull_chunks}

visible-set_from_transfer :
    (now : Instant) (key value : Bytes) (ms : ℕ) (s s' : CacheStore) (later : Instant)
    → set_from_transfer now key value (some ms) s ≡ some s'
    → visible later s' key ≡ (
        if ms == 0
        then visible later s key
        else if ltb later (now + from_millis ms)
        then some value
        else none)
unfolding set_from_transfer
visible-set_from_transfer now key value ms s s' later h = elim (Bool-cases (ms == 0)) [
  | inl zero_left ↦ ground arith
  | inr some_left ↦ ground (arith, visible-set now key s value (some (from_millis ms)) s' later key)
]

as_millis-eq : (d : Duration) → d < 2 ^ 64 * 1000000 → as_millis d ≡ d / 1000000
as_millis-eq d h = ground arith

-- An entry that is brought over with a deadline is visible at the receiver for as many whole
-- milliseconds as it had left at the sender, and one with less than a millisecond left is not
-- brought over. `d` is the time since the receiver took it in; less than 2^64 ms were left.
pub transferred_until :
    (now now' : Instant) (key : Bytes) (e : CacheEntry) (t : Instant) (s s' : CacheStore)
    (d : Duration)
    → e.expires_at ≡ some t
    → now < t
    → t - now < 2 ^ 64 * 1000000
    → set_from_transfer now' key e.value (remaining_ms now e.expires_at) s ≡ some s'
    → visible (now' + d) s' key ≡ (
        if ltb (t - now) 1000000
        then visible (now' + d) s key
        else if ltb d ((t - now) / 1000000 * 1000000)
        then some e.value
        else none)
transferred_until now now' key e t s s' d at left short h =
    let ms = as_millis (t - now) in
    grind (
      arith,
      at,
      as_millis-eq (t - now) short,
      visible-set_from_transfer now' key e.value (as_millis (t - now)) s s' (now' + d),
    )

-- An entry with no deadline is brought over for ever.
pub transferred_forever :
    (now now' later : Instant) (key : Bytes) (e : CacheEntry) (s s' : CacheStore)
    → e.expires_at ≡ none
    → set_from_transfer now' key e.value (remaining_ms now e.expires_at) s ≡ some s'
    → visible later s' key ≡ some e.value
unfolding set_from_transfer
transferred_forever now now' later key e s s' at h =
    ground (arith, visible-set now' key s e.value none s' later key)

module _ (xxh3_64 : Bytes → ℕ) (uuid : UuidText) (local : NodeId) (ring : HashRing) where
  lookup-set_from_transfer :
      (now : Instant) (key value : Bytes) (ms : Option ℕ) (s s' : CacheStore) (j : Bytes)
      → key ≢ j
      → set_from_transfer now key value ms s ≡ some s'
      → lookup s' j ≡ lookup s j
  unfolding set_from_transfer Store.set
  lookup-set_from_transfer now key value none s s' j other h = grind (arith, get-insert)
  lookup-set_from_transfer now key value (some ms) s s' j other h = grind (arith, get-insert)

  lookup-take_chunk :
      (now : Instant) (c : TransferEntry) (s s' : CacheStore) (j : Bytes)
      → accepts xxh3_64 uuid local ring j ≡ false
      → take_chunk xxh3_64 uuid local ring now c s ≡ some s'
      → lookup s' j ≡ lookup s j
  unfolding take_chunk
  lookup-take_chunk now c s s' j foreign h =
      elim (Bool-cases (accepts xxh3_64 uuid local ring c.key)) [
        | inl mine ↦
            ground (arith, lookup-set_from_transfer now c.key c.value c.expires_at_ms s s' j)
        | inr other ↦ ground arith
      ]

  -- A pull touches no key that the ring assigns to another node, also when it ends in an error.
  pub lookup-pull_chunks :
      (chunks : List (Option (Instant × TransferEntry))) (n : ℕ) (s s' : CacheStore)
      (count : Option ℕ) (j : Bytes)
      → accepts xxh3_64 uuid local ring j ≡ false
      → pull_chunks xxh3_64 uuid local ring chunks n s ≡ some (s', count)
      → lookup s' j ≡ lookup s j
  unfolding pull_chunks
  lookup-pull_chunks [] n s s' count j foreign h = ground arith
  lookup-pull_chunks (none ∷ chunks) n s s' count j foreign h = ground arith
  lookup-pull_chunks (some (now, c) ∷ chunks) n s s' count j foreign h =
      elim (Option-cases (take_chunk xxh3_64 uuid local ring now c s)) [
        | inl panics ↦ ground arith
        | inr (s1, taken) ↦ ground (
          arith,
          lookup-take_chunk now c s s1 j,
          lookup-pull_chunks chunks (if accepts xxh3_64 uuid local ring c.key then n + 1 else n) s1
              s' count j,
        )
      ]

  -- A pull with no error counts the chunks of the keys that the ring assigns to this node, also those
  -- whose time to live is 0 and that are not stored.
  pub count-pull_chunks :
      (chunks : List (Instant × TransferEntry)) (n : ℕ) (s s' : CacheStore) (count : Option ℕ)
      → pull_chunks xxh3_64 uuid local ring (map some chunks) n s ≡ some (s', count)
      → count ≡ some (n + length (keep (λ c. accepts xxh3_64 uuid local ring c.1.key) chunks))
  unfolding pull_chunks
  count-pull_chunks [] n s s' count h = ground arith
  count-pull_chunks ((now, c) ∷ chunks) n s s' count h =
      elim (Option-cases (take_chunk xxh3_64 uuid local ring now c s)) [
        | inl panics ↦ ground arith
        | inr (s1, taken) ↦ ground (
          arith,
          count-pull_chunks chunks (if accepts xxh3_64 uuid local ring c.key then n + 1 else n) s1
              s' count,
        )
      ]

-- ===== src/Node/Pulled.antt =====
-- What a node has taken in from the streams of the others (crates/node/src/rebalance/mod.rs).
use self_healing_distributed.Prelude.{
  ℕ, ◌+◌, ◌≡◌, refl, sym, ap, ◌∙◌, inl, inr, Option, none, some, List, [], ◌∷◌, ◌++◌, arith, ltb,
  ◌==◌, if◌then◌else◌, Option-cases, Bool-cases, ite,
}
use self_healing_distributed.Types.{
  NodeId, NodeInfo, Bytes, Bytes-discrete, Instant, UuidText, from_millis,
}
use self_healing_distributed.Cache.Store.{CacheStore, TransferEntry, set_from_transfer}
use self_healing_distributed.Cache.Visible.{visible, visible-set}
use self_healing_distributed.Ring.HashRing.{HashRing}
use self_healing_distributed.Node.Rebalancer.{
  Stream, accepts, take_chunk, pull_chunks, pull_keys_from, rebalance,
}

-- The entries of a stream, up to its first error.
abbrev pub before_error : List (Option (Instant × TransferEntry)) → List (Instant × TransferEntry)
before_error [] = []
before_error (none ∷ chunks) = []
before_error (some c ∷ chunks) = c ∷ before_error chunks

abbrev pub entries_of : Stream → List (Instant × TransferEntry)
entries_of none = []
entries_of (some chunks) = before_error chunks

-- Everything that the other nodes send, in the order in which they are asked.
abbrev pub sent_by : NodeId → (Bytes → Stream) → List NodeInfo → List (Instant × TransferEntry)
sent_by local transfer [] = []
sent_by local transfer (peer ∷ peers) =
    (if peer.id == local then [] else entries_of (transfer peer.addr))
    ++ sent_by local transfer peers

module _ (later : Instant) (j : Bytes) where
  -- What an entry with this time to live that is taken in at `now` shows at `later`; a time to live
  -- of 0 leaves what was there.
  abbrev pub showing : Instant → Option ℕ → Bytes → Option Bytes → Option Bytes
  showing now none value before = some value
  showing now (some ms) value before =
      if ms == 0 then before else if ltb later (now + from_millis ms) then some value else none

  -- The last of the entries for the key decides what it shows.
  abbrev pub last_sent : List (Instant × TransferEntry) → Option Bytes → Option Bytes
  last_sent [] before = before
  last_sent ((now, c) ∷ cs) before =
      last_sent cs
        (ite (Bytes-discrete c.key j) (showing now c.expires_at_ms c.value before) before)

  last_sent-append :
      (cs ds : List (Instant × TransferEntry)) (before : Option Bytes)
      → last_sent (cs ++ ds) before ≡ last_sent ds (last_sent cs before)
  last_sent-append [] ds before = refl
  last_sent-append (c ∷ cs) ds before = last_sent-append cs ds _

  visible-transferred :
      (now : Instant) (key value : Bytes) (ms : Option ℕ) (s s' : CacheStore)
      → set_from_transfer now key value ms s ≡ some s'
      → visible later s' j
        ≡ ite (Bytes-discrete key j) (showing now ms value (visible later s j)) (visible later s j)
  unfolding set_from_transfer
  visible-transferred now key value none s s' h =
      ground (arith, visible-set now key s value none s' later j)
  visible-transferred now key value (some ms) s s' h = elim (Bool-cases (ms == 0)) [
    | inl zero_left ↦ ground arith
    | inr some_left ↦ ground (arith, visible-set now key s value (some (from_millis ms)) s' later j)
  ]

  module _ (xxh3_64 : Bytes → ℕ) (uuid : UuidText) (local : NodeId) (ring : HashRing) where
    -- The entries count only for a key that the ring assigns to this node.
    abbrev pub owned : List (Instant × TransferEntry) → Option Bytes → Option Bytes
    owned cs before = if accepts xxh3_64 uuid local ring j then last_sent cs before else before

    owned-append :
        (cs ds : List (Instant × TransferEntry)) (before : Option Bytes)
        → owned (cs ++ ds) before ≡ owned ds (owned cs before)
    owned-append cs ds before = elim (Bool-cases (accepts xxh3_64 uuid local ring j)) [
      | inl mine ↦ rw mine (last_sent-append cs ds before)
      | inr foreign ↦ rw foreign refl
    ]

    visible-take_chunk :
        (now : Instant) (c : TransferEntry) (s s' : CacheStore)
        → take_chunk xxh3_64 uuid local ring now c s ≡ some s'
        → visible later s' j ≡ owned ((now, c) ∷ []) (visible later s j)
    unfolding take_chunk
    visible-take_chunk now c s s' h = elim (Bytes-discrete c.key j) [
      | yes same ↦
          let owner = ap (accepts xxh3_64 uuid local ring) same in
          ground (arith, owner, visible-transferred now c.key c.value c.expires_at_ms s s')
      | no other ↦ ground (arith, visible-transferred now c.key c.value c.expires_at_ms s s')
    ]

    visible-pull_chunks :
        (chunks : List (Option (Instant × TransferEntry))) (n : ℕ) (s s' : CacheStore)
        (count : Option ℕ)
        → pull_chunks xxh3_64 uuid local ring chunks n s ≡ some (s', count)
        → visible later s' j ≡ owned (before_error chunks) (visible later s j)
    unfolding pull_chunks
    visible-pull_chunks [] n s s' count h = ground arith
    visible-pull_chunks (none ∷ chunks) n s s' count h = ground arith
    visible-pull_chunks (some (now, c) ∷ chunks) n s s' count h =
        elim (Option-cases (take_chunk xxh3_64 uuid local ring now c s)) [
          | inl panics ↦ ground arith
          | inr (s1, taken) ↦
              let n1 = if accepts xxh3_64 uuid local ring c.key then n + 1 else n in
              let rest : pull_chunks xxh3_64 uuid local ring chunks n1 s1 ≡ some (s', count) =
                ground arith in
              visible-pull_chunks chunks n1 s1 s' count rest
              ∙ ap (owned (before_error chunks)) (visible-take_chunk now c s s1 taken)
              ∙ sym (owned-append ((now, c) ∷ []) (before_error chunks) (visible later s j))
        ]

    visible-pull_keys_from :
        (stream : Stream) (s s' : CacheStore) (count : Option ℕ)
        → pull_keys_from xxh3_64 uuid local ring stream s ≡ some (s', count)
        → visible later s' j ≡ owned (entries_of stream) (visible later s j)
    unfolding pull_keys_from
    visible-pull_keys_from none s s' count h = ground arith
    visible-pull_keys_from (some chunks) s s' count h = visible-pull_chunks chunks 0 s s' count h

    pub visible-rebalance :
        (transfer : Bytes → Stream) (peers : List NodeInfo) (total : ℕ) (s s' : CacheStore)
        (count : ℕ)
        → rebalance xxh3_64 uuid local ring transfer peers total s ≡ some (s', count)
        → visible later s' j ≡ owned (sent_by local transfer peers) (visible later s j)
    unfolding rebalance
    visible-rebalance transfer [] total s s' count h = ground arith
    visible-rebalance transfer (peer ∷ peers) total s s' count h =
        elim (Bool-cases (peer.id == local)) [
          | inl self ↦ ground (arith, visible-rebalance transfer peers total s s' count)
          | inr other ↦
              elim (Option-cases (pull_keys_from xxh3_64 uuid local ring (transfer peer.addr) s)) [
                | inl panics ↦ ground arith
                | inr ((s1, pulled), done) ↦
                    let here = visible-pull_keys_from (transfer peer.addr) s s1 pulled done in
                    let both =
                      owned-append (entries_of (transfer peer.addr)) (sent_by local transfer peers)
                        (visible later s j) in
                    elim (Option-cases pulled) [
                      | inl fails ↦
                          grind
                            (arith, both, here, visible-rebalance transfer peers total s1 s' count)
                      | inr (n, counted) ↦ grind (
                        arith,
                        both,
                        here,
                        visible-rebalance transfer peers (total + n) s1 s' count,
                      )
                    ]
              ]
        ]

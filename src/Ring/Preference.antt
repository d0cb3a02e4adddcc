-- ===== src/Ring/Preference.antt =====
-- `get_preference_list` of crates/common/src/hashring.rs.
use self_healing_distributed.Prelude.{
  ℕ, ◌≤◌, ◌<◌, max, ◌≡◌, refl, ap, ◌∙◌, inl, inr, Bool, true, false, Option, none, some, List, [],
  ◌∷◌, ◌++◌, keep, find, any, All, length, arith, leb, ◌==◌, Option-cases,
}
use self_healing_distributed.Types.{NodeId, NodeInfo, Bytes, UuidText}
use self_healing_distributed.Ring.HashRing.{
  HashRing, first, or_first, successor, node_of, node_at, seen_before, walk, hash_key, get_node,
  get_preference_list,
}
use self_healing_distributed.Ring.Valid.{Covered, IsValid, All-keep}
use self_healing_distributed.Ring.Walk.{
  ids, Distinct, any-append, All-append, Outcome, walk-Outcome, walk_new,
}

any-keep {ℓ} :
    {A : Type ℓ} (t p : A → Bool) (xs : List A) → any t xs ≡ false → any t (keep p xs) ≡ false
any-keep t p [] h = refl
any-keep t p (x ∷ xs) h = ground (arith, any-keep t p xs)

first-keep-append :
    (p : ℕ × NodeId → Bool) (ring : List (ℕ × NodeId)) (rest : List (ℕ × NodeId))
    → first (keep p ring ++ rest) ≡ or_first rest (find p ring)
first-keep-append p [] rest = ground arith
first-keep-append p (e ∷ ring) rest = ground (arith, first-keep-append p ring rest)

abbrev pub first_node : List NodeInfo → Option NodeInfo
first_node [] = none
first_node (n ∷ ns) = some n

-- What stands first in the result stays first.
first-walk :
    (count : ℕ) (nodes : List NodeInfo) (iter : List (ℕ × NodeId)) (seen : List NodeId)
    (n : NodeInfo) (result : List NodeInfo)
    → first_node (walk count nodes iter seen (n ∷ result)) ≡ some n
unfolding walk
first-walk count nodes [] seen n result = refl
first-walk count nodes ((p, id) ∷ iter) seen n result = elim (Option-cases (node_of nodes id)) [
  | inl absent ↦ ground (
    arith,
    first-walk count nodes iter seen n result,
    first-walk count nodes iter (id ∷ seen) n result,
  )
  | inr (m, found) ↦ ground (
    arith,
    first-walk count nodes iter seen n result,
    first-walk count nodes iter (id ∷ seen) n (result ++ m ∷ []),
  )
]

first-walk_start :
    (count : ℕ) (nodes : List NodeInfo) (iter : List (ℕ × NodeId))
    → Covered nodes iter
    → first_node (walk count nodes iter [] []) ≡ node_at nodes (first iter)
first-walk_start count nodes [] c = unfold walk in refl
first-walk_start count nodes ((p, id) ∷ iter) (k, c) = elim (Option-cases (node_of nodes id)) [
  | inl absent ↦ absurd (k absent)
  | inr (n, found) ↦ ground (
    arith,
    walk_new count nodes p id iter [] [] n refl found,
    first-walk count nodes iter (id ∷ []) n [],
  )
]

module _ (xxh3_64 : Bytes → ℕ) (uuid : UuidText) (key : Bytes) (count : ℕ) (r : HashRing)
    (v : IsValid r) where
  preference-Outcome :
      Outcome count r.nodes
        (keep (λ e. leb (hash_key xxh3_64 uuid key) e.0) r.ring ++ r.ring)
        []
        []
        (get_preference_list xxh3_64 uuid key count r)
  unfolding get_preference_list
  preference-Outcome =
      walk-Outcome count r.nodes _ [] []
        (All-append _ (keep _ r.ring) r.ring (All-keep _ _ r.ring v.covered) v.covered)
        (record { same = λ x. refl; distinct = tt; known = tt }) (omega arith)

  -- The preference list names different nodes, all of them nodes of the ring, and at most as many as
  -- asked for, or one if none is asked for. The ring is valid.
  pub preference_list-Distinct :
      let out = get_preference_list xxh3_64 uuid key count r in
      Distinct (ids out) × All (λ n. node_of r.nodes n.id ≡ some n) out × (length out ≤ max 1 count)
  preference_list-Distinct = let o = preference-Outcome in (o.distinct, o.known, o.short)

  -- A preference list shorter than asked for names every node that has a position on the ring. The
  -- ring is valid.
  pub preference_list_complete :
      (x : NodeId)
      → length (get_preference_list xxh3_64 uuid key count r) < count
      → any (λ e. e.1 == x) r.ring ≡ true
      → seen_before x (ids (get_preference_list xxh3_64 uuid key count r)) ≡ true
  preference_list_complete x few h =
      let before = keep (λ e. leb (hash_key xxh3_64 uuid key) e.0) r.ring in
      preference-Outcome.complete few x (ground (arith, any-append (λ e. e.1 == x) before r.ring))

  -- The first node of the preference list is the node that answers for the key. The ring is valid.
  pub first-preference_list :
      first_node (get_preference_list xxh3_64 uuid key count r) ≡ get_node xxh3_64 uuid key r
  unfolding get_preference_list get_node successor
  first-preference_list =
      let hash = hash_key xxh3_64 uuid key in
      let before = keep (λ e. leb hash e.0) r.ring in
      first-walk_start count r.nodes (before ++ r.ring)
        (All-append _ before r.ring (All-keep _ _ r.ring v.covered) v.covered)
      ∙ ap (node_at r.nodes) (first-keep-append (λ e. leb hash e.0) r.ring r.ring)

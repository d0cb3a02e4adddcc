-- ===== src/Ring/Valid.antt =====
-- The well-formedness of a `HashRing` (crates/common/src/hashring.rs).
use self_healing_distributed.Prelude.{
  ℕ, zero, suc, ◌+◌, ◌^◌, ◌≤◌, ◌<◌, ◌≢◌, refl, inl, inr, Bool, not, none, List, [], ◌∷◌, ◌++◌, keep,
  All, arith, ltb, ◌==◌, Option-cases, Bool-cases,
}
use self_healing_distributed.Types.{NodeId, NodeInfo, Bytes, UuidText}
use self_healing_distributed.Ring.HashRing.{
  HashRing, with_vnode_count, insert_at, node_of, remove_node, hash_vnode, add_vnodes, add_node,
}
use self_healing_distributed.Ring.Ownership.{find-keep, find_holds}

-- Every position of the ring from `p` on.
abbrev pub From : ℕ → List (ℕ × NodeId) → Type 0
From p = All (λ e. p ≤ e.0)

abbrev pub IsSorted : List (ℕ × NodeId) → Type 0
IsSorted [] = Unit
IsSorted (e ∷ ring) = From (e.0 + 1) ring × IsSorted ring

pub From-weaken : (p q : ℕ) (ring : List (ℕ × NodeId)) → p ≤ q → From q ring → From p ring
From-weaken p q [] h f = f
From-weaken p q (e ∷ ring) h (a, f) = (omega arith, From-weaken p q ring h f)

From-insert_at :
    (b p : ℕ) (id : NodeId) (ring : List (ℕ × NodeId))
    → b ≤ p
    → From b ring
    → From b (insert_at p id ring)
unfolding insert_at
From-insert_at b p id [] h f = (h, tt)
From-insert_at b p id ((q, x) ∷ ring) h (a, f) = grind (arith, From-insert_at b p id ring h f)

insert_at-IsSorted :
    (p : ℕ) (id : NodeId) (ring : List (ℕ × NodeId))
    → IsSorted ring
    → IsSorted (insert_at p id ring)
unfolding insert_at
insert_at-IsSorted p id [] s = (tt, tt)
insert_at-IsSorted p id ((q, x) ∷ ring) (f, s) = grind (
  arith,
  insert_at-IsSorted p id ring s,
  From-insert_at (q + 1) p id ring,
  From-weaken (p + 1) (q + 1) ring,
)

From-keep :
    (b : ℕ) (t : ℕ × NodeId → Bool) (ring : List (ℕ × NodeId)) → From b ring → From b (keep t ring)
From-keep b t [] f = f
From-keep b t (e ∷ ring) (a, f) = ground (arith, From-keep b t ring f)

keep-IsSorted :
    (t : ℕ × NodeId → Bool) (ring : List (ℕ × NodeId)) → IsSorted ring → IsSorted (keep t ring)
keep-IsSorted t [] s = s
keep-IsSorted t (e ∷ ring) (f, s) =
    ground (arith, keep-IsSorted t ring s, From-keep (e.0 + 1) t ring f)

-- Every position belongs to one of the nodes.
abbrev pub Covered : List NodeInfo → List (ℕ × NodeId) → Type 0
Covered nodes = All (λ e. node_of nodes e.1 ≢ none)

abbrev pub Below : ℕ → List (ℕ × NodeId) → Type 0
Below b = All (λ e. e.0 < b)

pub record IsValid (r : HashRing) : Type 0 where
  pub sorted : IsSorted r.ring
  pub covered : Covered r.nodes r.ring
  pub below : Below (2 ^ 64) r.ring

All-insert_at :
    (P : ℕ × NodeId → Type 0) (p : ℕ) (id : NodeId) (ring : List (ℕ × NodeId))
    → P (p, id)
    → All P ring
    → All P (insert_at p id ring)
unfolding insert_at
All-insert_at P p id [] h a = (h, tt)
All-insert_at P p id ((q, x) ∷ ring) h (b, a) = elim (Bool-cases (ltb p q)) [
  | inl before ↦ rw before (h, (b, a))
  | inr after ↦ elim (Bool-cases (p == q)) [
    | inl same ↦ rw (after, same) (h, a)
    | inr other ↦ rw (after, other) (b, All-insert_at P p id ring h a)
  ]
]

pub All-keep {ℓ} :
    {A : Type ℓ} (P : A → Type 0) (t : A → Bool) (xs : List A) → All P xs → All P (keep t xs)
All-keep P t [] a = a
All-keep P t (x ∷ xs) (p, a) = elim (Bool-cases (t x)) [
  | inl stays ↦ rw (stays, All) (p, All-keep P t xs a)
  | inr goes ↦ rw (goes, All) (All-keep P t xs a)
]

node_of-append :
    (ns : List NodeInfo) (m : NodeInfo) (id : NodeId)
    → node_of ns id ≢ none
    → node_of (ns ++ m ∷ []) id ≢ none
node_of-append [] m id h = absurd (h refl)
node_of-append (n ∷ ns) m id h = ground (arith, node_of-append ns m id)

node_of-append_last : (ns : List NodeInfo) (m : NodeInfo) → node_of (ns ++ m ∷ []) m.id ≢ none
node_of-append_last [] m = ground arith
node_of-append_last (n ∷ ns) m = ground (arith, node_of-append_last ns m)

Covered-append :
    (ns : List NodeInfo) (m : NodeInfo) (ring : List (ℕ × NodeId))
    → Covered ns ring
    → Covered (ns ++ m ∷ []) ring
Covered-append ns m [] c = tt
Covered-append ns m (e ∷ ring) (h, c) = (node_of-append ns m e.1 h, Covered-append ns m ring c)

node_of-keep :
    (ns : List NodeInfo) (x id : NodeId)
    → id ≢ x
    → node_of ns id ≢ none
    → node_of (keep (λ n. not (n.id == x)) ns) id ≢ none
node_of-keep ns x id other h = elim (Option-cases (node_of ns id)) [
  | inl absent ↦ absurd (h absent)
  | inr (n, found) ↦
      let same = find_holds (λ m. m.id == id) ns n found in
      λ gone.
        cc (gone, find-keep (λ m. m.id == id) (λ m. not (m.id == x)) ns n found (ground arith))
]

Covered-keep :
    (ns : List NodeInfo) (x : NodeId) (ring : List (ℕ × NodeId))
    → Covered ns ring
    → Covered (keep (λ n. not (n.id == x)) ns) (keep (λ e. not (e.1 == x)) ring)
Covered-keep ns x [] c = tt
Covered-keep ns x (e ∷ ring) (h, c) = elim (Bool-cases (e.1 == x)) [
  | inl goes ↦ rw (goes, keep) (Covered-keep ns x ring c)
  | inr stays ↦ rw (stays, keep) (node_of-keep ns x e.1 (ground arith) h, Covered-keep ns x ring c)
]

pub with_vnode_count-IsValid : (n : ℕ) → IsValid (with_vnode_count n)
unfolding with_vnode_count
with_vnode_count-IsValid n = record { sorted = tt; covered = tt; below = tt }

pub remove_node-IsValid : (x : NodeId) (r : HashRing) → IsValid r → IsValid (remove_node x r)
unfolding remove_node
remove_node-IsValid x r v = record {
  sorted = keep-IsSorted _ r.ring v.sorted;
  covered = Covered-keep r.nodes x r.ring v.covered;
  below = All-keep _ _ r.ring v.below;
}

module _ (xxh3_64 : Bytes → ℕ) (bounded : (b : Bytes) → xxh3_64 b < 2 ^ 64) (uuid : UuidText) where
  hash_vnode-lt : (id : NodeId) (i : ℕ) → hash_vnode xxh3_64 uuid id i < 2 ^ 64
  unfolding hash_vnode
  hash_vnode-lt id i = bounded _

  add_vnodes-IsSorted :
      (id : NodeId) (i n : ℕ) (ring : List (ℕ × NodeId))
      → IsSorted ring
      → IsSorted (add_vnodes xxh3_64 uuid id i n ring)
  unfolding add_vnodes
  add_vnodes-IsSorted id i zero ring s = s
  add_vnodes-IsSorted id i (suc n) ring s =
      add_vnodes-IsSorted id (suc i) n _
        (insert_at-IsSorted (hash_vnode xxh3_64 uuid id i) id ring s)

  All-add_vnodes :
      (P : ℕ × NodeId → Type 0) (id : NodeId) (i n : ℕ) (ring : List (ℕ × NodeId))
      → ((p : ℕ) → p < 2 ^ 64 → P (p, id))
      → All P ring
      → All P (add_vnodes xxh3_64 uuid id i n ring)
  unfolding add_vnodes
  All-add_vnodes P id i zero ring h a = a
  All-add_vnodes P id i (suc n) ring h a =
      All-add_vnodes P id (suc i) n _ h
        (All-insert_at P (hash_vnode xxh3_64 uuid id i) id ring (h _ (hash_vnode-lt id i)) a)

  pub add_node-IsValid :
      (info : NodeInfo) (r : HashRing) → IsValid r → IsValid (add_node xxh3_64 uuid info r)
  unfolding add_node
  add_node-IsValid info r v = record {
    sorted = add_vnodes-IsSorted info.id 0 r.vnode_count r.ring v.sorted;
    covered =
        All-add_vnodes _ info.id 0 r.vnode_count r.ring (λ p h. node_of-append_last r.nodes info)
          (Covered-append r.nodes info r.ring v.covered);
    below = All-add_vnodes _ info.id 0 r.vnode_count r.ring (λ p h. h) v.below;
  }

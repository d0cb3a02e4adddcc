-- ===== src/Ring/Ownership.antt =====
-- Who owns a key on the `HashRing` (crates/common/src/hashring.rs), and how little that changes when
-- a node joins or leaves.
use self_healing_distributed.Prelude.{
  ℕ, zero, suc, ◌≡◌, ◌≢◌, refl, ◌∙◌, ◌⊎◌, inl, inr, Bool, true, not, Option, none, some, List, [],
  ◌∷◌, ◌++◌, keep, find, arith, leb, ◌==◌, Option-cases, ap,
}
use self_healing_distributed.Types.{NodeId, NodeInfo, Bytes, UuidText}
use self_healing_distributed.Ring.HashRing.{
  HashRing, insert_at, at_or_after, first, successor, node_of, node_at, remove_node, hash_key,
  hash_vnode, add_vnodes, add_node, get_node,
}

-- `find` among the entries that `keep` leaves.
pub find-keep {ℓ} :
    {A : Type ℓ} (p q : A → Bool) (xs : List A) (x : A)
    → find p xs ≡ some x
    → q x ≡ true
    → find p (keep q xs) ≡ some x
find-keep p q [] x h k = cc
find-keep p q (y ∷ ys) x h k = ground (arith, find-keep p q ys x)

pub find-keep-none {ℓ} :
    {A : Type ℓ} (p q : A → Bool) (xs : List A) → find p xs ≡ none → find p (keep q xs) ≡ none
find-keep-none p q [] h = refl
find-keep-none p q (y ∷ ys) h = ground (arith, find-keep-none p q ys)

first-keep :
    (q : ℕ × NodeId → Bool) (ring : List (ℕ × NodeId)) (e : ℕ × NodeId)
    → first ring ≡ some e
    → q e ≡ true
    → first (keep q ring) ≡ some e
first-keep q [] e h k = cc
first-keep q (x ∷ ring) e h k = ground arith

successor-keep :
    (hash : ℕ) (q : ℕ × NodeId → Bool) (ring : List (ℕ × NodeId)) (e : ℕ × NodeId)
    → successor hash ring ≡ some e
    → q e ≡ true
    → successor hash (keep q ring) ≡ some e
unfolding successor
successor-keep hash q ring e h k = elim (Option-cases (at_or_after hash ring)) [
  | inl past ↦
      rw (find-keep-none (λ x. leb hash x.0) q ring past) (first-keep q ring e (rw past at h) k)
  | inr (x, found) ↦
      let same : x ≡ e = cc (rw found at h) in
      rw (find-keep (λ x. leb hash x.0) q ring e (found ∙ ap some same) k) refl
]

pub find_holds {ℓ} :
    {A : Type ℓ} (p : A → Bool) (xs : List A) (x : A) → find p xs ≡ some x → p x ≡ true
find_holds p [] x h = cc
find_holds p (y ∷ ys) x h = ground (arith, find_holds p ys x)

pub find-keep_holds {ℓ} :
    {A : Type ℓ} (p q : A → Bool) (xs : List A) (x : A) → find p (keep q xs) ≡ some x → q x ≡ true
find-keep_holds p q [] x h = cc
find-keep_holds p q (y ∷ ys) x h = ground (arith, find-keep_holds p q ys x)

pub find-append_last {ℓ} :
    {A : Type ℓ} (p : A → Bool) (xs : List A) (y x : A)
    → find p (xs ++ y ∷ []) ≡ some x
    → (find p xs ≡ some x) ⊎ (x ≡ y)
find-append_last p [] y x h = ground arith
find-append_last p (z ∷ zs) y x h = ground (arith, find-append_last p zs y x)

-- The node that answers has the identity at the position that answers.
pub node_at-some :
    (nodes : List NodeInfo) (o : Option (ℕ × NodeId)) (n : NodeInfo)
    → node_at nodes o ≡ some n
    → (e : ℕ × NodeId) × (o ≡ some e) × (node_of nodes e.1 ≡ some n) × (e.1 ≡ n.id)
node_at-some nodes none n h = cc
node_at-some nodes (some e) n h =
    (e, refl, h, ground (arith, find_holds (λ m. m.id == e.1) nodes n h))

module _ (xxh3_64 : Bytes → ℕ) (uuid : UuidText) (key : Bytes) (x : NodeId) (r : HashRing) where
  -- When a node leaves the ring, every key that another node answers for keeps its node.
  pub get_node-remove_node :
      (n : NodeInfo)
      → get_node xxh3_64 uuid key r ≡ some n
      → n.id ≢ x
      → get_node xxh3_64 uuid key (remove_node x r) ≡ some n
  unfolding get_node remove_node
  get_node-remove_node n h other =
      let (e, at, found, same) = node_at-some r.nodes _ n h in
      rw (successor-keep _ (λ e. not (e.1 == x)) r.ring e at (ground arith))
        (find-keep (λ m. m.id == e.1) (λ m. not (m.id == x)) r.nodes n found (ground arith))

  -- A node that has left the ring answers for no key.
  pub removed_owns_nothing :
      (n : NodeInfo) → get_node xxh3_64 uuid key (remove_node x r) ≡ some n → n.id ≢ x
  unfolding get_node remove_node
  removed_owns_nothing n h =
      let left = remove_node x r in
      let (e, at, found, same) =
        node_at-some left.nodes (successor (hash_key xxh3_64 uuid key) left.ring) n h in
      let kept = find-keep_holds (λ m. m.id == e.1) (λ m. not (m.id == x)) r.nodes n found in
      ground arith

-- A new position changes the answer for a hash only to the node that it belongs to.
at_or_after-insert_at :
    (hash p : ℕ) (id : NodeId) (ring : List (ℕ × NodeId))
    → (at_or_after hash (insert_at p id ring) ≡ at_or_after hash ring)
      ⊎ (at_or_after hash (insert_at p id ring) ≡ some (p, id))
unfolding insert_at
at_or_after-insert_at hash p id [] = ground arith
at_or_after-insert_at hash p id ((q, x) ∷ ring) =
    ground (arith, at_or_after-insert_at hash p id ring)

first-insert_at :
    (p : ℕ) (id : NodeId) (ring : List (ℕ × NodeId))
    → (first (insert_at p id ring) ≡ first ring) ⊎ (first (insert_at p id ring) ≡ some (p, id))
unfolding insert_at
first-insert_at p id [] = inr refl
first-insert_at p id ((q, x) ∷ ring) = ground arith

-- An answer is the one before, or the node `id`.
abbrev Stays : NodeId → Option (ℕ × NodeId) → Option (ℕ × NodeId) → Type 0
Stays id old new = (new ≡ old) ⊎ ((p : ℕ) × (new ≡ some (p, id)))

successor-insert_at :
    (hash p : ℕ) (id : NodeId) (ring : List (ℕ × NodeId))
    → Stays id (successor hash ring) (successor hash (insert_at p id ring))
unfolding successor
successor-insert_at hash p id ring =
    ground (arith, at_or_after-insert_at hash p id ring, first-insert_at p id ring)

Stays-trans :
    (id : NodeId) (a b c : Option (ℕ × NodeId)) → Stays id a b → Stays id b c → Stays id a c
Stays-trans id a b c h (inl e) = ground arith
Stays-trans id a b c h (inr e) = inr e

module _ (xxh3_64 : Bytes → ℕ) (uuid : UuidText) where
  successor-add_vnodes :
      (hash : ℕ) (id : NodeId) (i n : ℕ) (ring : List (ℕ × NodeId))
      → Stays id (successor hash ring) (successor hash (add_vnodes xxh3_64 uuid id i n ring))
  unfolding add_vnodes
  successor-add_vnodes hash id i zero ring = inl refl
  successor-add_vnodes hash id i (suc n) ring =
      Stays-trans id _ _ _ (successor-insert_at hash (hash_vnode xxh3_64 uuid id i) id ring)
        (successor-add_vnodes hash id (suc i) n (insert_at (hash_vnode xxh3_64 uuid id i) id ring))

  -- When a node joins the ring, a key moves to the new node or stays where it was; also where
  -- positions of the new node coincide with those of others.
  pub get_node-add_node :
      (key : Bytes) (info : NodeInfo) (r : HashRing) (n : NodeInfo)
      → get_node xxh3_64 uuid key (add_node xxh3_64 uuid info r) ≡ some n
      → (n.id ≡ info.id) ⊎ (get_node xxh3_64 uuid key r ≡ some n)
  unfolding get_node add_node
  get_node-add_node key info r n h =
      let hash = hash_key xxh3_64 uuid key in
      let more = add_node xxh3_64 uuid info r in
      let (e, at, found, same) = node_at-some more.nodes (successor hash more.ring) n h in
      ground (
        arith,
        successor-add_vnodes hash info.id 0 r.vnode_count r.ring,
        find-append_last (λ m. m.id == e.1) r.nodes info n found,
      )

-- ===== src/Ring/Nearest.antt =====
-- `get_node` of crates/common/src/hashring.rs goes clockwise to the nearest position.
use mathlib.Core.Path.{subst}
use native.Mathlib.Nat.{le_refl}
use self_healing_distributed.Prelude.{
  ℕ, ◌+◌, ◌-◌, ◌%◌, ◌^◌, ◌≤◌, ◌<◌, ◌≡◌, ◌≢◌, refl, ◌∙◌, ap, inl, inr, Bool, true, none, some, List,
  [], ◌∷◌, find, any, All, ◌&&◌, arith, leb, ◌==◌, Option-cases, Bool-cases,
}
use self_healing_distributed.Types.{NodeId, NodeInfo, Bytes, UuidText}
use self_healing_distributed.Ring.HashRing.{
  HashRing, at_or_after, successor, node_of, hash_key, get_node,
}
use self_healing_distributed.Ring.Ownership.{find_holds}
use self_healing_distributed.Ring.Valid.{From, From-weaken, IsSorted, Below, IsValid}

-- How far a position lies clockwise from a hash, on the circle of 2^64 positions.
abbrev pub clockwise : ℕ → ℕ → ℕ
clockwise hash p = (p + 2 ^ 64 - hash) % 2 ^ 64

-- No position of the ring is nearer to a hash, clockwise, than `p`.
abbrev pub Nearest : ℕ → ℕ → List (ℕ × NodeId) → Type 0
Nearest hash p = All (λ e. clockwise hash p ≤ clockwise hash e.0)

Nearest-later :
    (hash p : ℕ) (ring : List (ℕ × NodeId))
    → hash ≤ p
    → From p ring
    → Below (2 ^ 64) ring
    → p < 2 ^ 64
    → Nearest hash p ring
Nearest-later hash p [] h f b l = tt
Nearest-later hash p (e ∷ ring) h (a, f) (c, b) l = (omega arith, Nearest-later hash p ring h f b l)

Nearest-at_or_after :
    (hash : ℕ) (ring : List (ℕ × NodeId)) (e : ℕ × NodeId)
    → hash < 2 ^ 64
    → IsSorted ring
    → Below (2 ^ 64) ring
    → at_or_after hash ring ≡ some e
    → Nearest hash e.0 ring × (hash ≤ e.0) × (e.0 < 2 ^ 64)
Nearest-at_or_after hash [] e h s b found = cc
Nearest-at_or_after hash (x ∷ ring) e h (f, s) (c, b) found = elim (Bool-cases (leb hash x.0)) [
  | inl on ↦
      let same : x ≡ e = ground arith in
      let le : hash ≤ x.0 = ground arith in
      subst (λ e. Nearest hash e.0 (x ∷ ring) × (hash ≤ e.0) × (e.0 < 2 ^ 64)) same
        (
          (
            le_refl _,
            Nearest-later hash x.0 ring le (From-weaken x.0 (x.0 + 1) ring (omega arith) f) b c,
          ),
          le,
          c,
        )
  | inr before ↦
      let (near, le, lt) = Nearest-at_or_after hash ring e h s b (ground arith) in
      let gt : x.0 < hash = ground arith in ((omega arith, near), le, lt)
]

Nearest-past :
    (hash : ℕ) (p : ℕ) (ring : List (ℕ × NodeId))
    → hash < 2 ^ 64
    → p < hash
    → From p ring
    → at_or_after hash ring ≡ none
    → Nearest hash p ring
Nearest-past hash p [] h lt f past = tt
Nearest-past hash p (x ∷ ring) h lt (a, f) past =
    let gt : x.0 < hash = ground arith in
    (omega arith, Nearest-past hash p ring h lt f (ground arith))

-- On a sorted ring `successor` finds a position that no other is nearer than.
successor-Nearest :
    (hash : ℕ) (ring : List (ℕ × NodeId)) (e : ℕ × NodeId)
    → hash < 2 ^ 64
    → IsSorted ring
    → Below (2 ^ 64) ring
    → successor hash ring ≡ some e
    → Nearest hash e.0 ring
unfolding successor
successor-Nearest hash [] e h s b found = cc
successor-Nearest hash (x ∷ ring) e h (f, s) (c, b) found =
    elim (Option-cases (at_or_after hash (x ∷ ring))) [
      | inl past ↦
          let same : x ≡ e = ground arith in
          let gt : x.0 < hash = ground arith in
          subst (λ e. Nearest hash e.0 (x ∷ ring)) same
            (
              le_refl _,
              Nearest-past hash x.0 ring h gt (From-weaken x.0 (x.0 + 1) ring (omega arith) f)
                  (ground arith),
            )
      | inr (y, at) ↦
          let same : y ≡ e = cc (rw at at found) in
          (Nearest-at_or_after hash (x ∷ ring) e h (f, s) (c, b) (at ∙ ap some same)).0
    ]

successor_total :
    (hash : ℕ) (ring : List (ℕ × NodeId))
    → ring ≢ []
    → (e : ℕ × NodeId) × (successor hash ring ≡ some e)
unfolding successor
successor_total hash [] h = absurd (h refl)
successor_total hash (x ∷ ring) h = elim (Option-cases (at_or_after hash (x ∷ ring))) [
  | inl past ↦ (x, rw past)
  | inr (y, at) ↦ (y, rw at)
]

All-find {ℓ} :
    {A : Type ℓ} (P : A → Type 0) (p : A → Bool) (xs : List A) (x : A)
    → All P xs
    → find p xs ≡ some x
    → P x
All-find P p [] x a h = cc
All-find P p (y ∷ ys) x (q, a) h = elim (Bool-cases (p y)) [
  | inl here ↦ let same : y ≡ x = ground arith in subst P same q
  | inr later ↦ All-find P p ys x a (ground arith)
]

any-find {ℓ} :
    {A : Type ℓ} (t p : A → Bool) (xs : List A) (x : A)
    → find p xs ≡ some x
    → t x ≡ true
    → any t xs ≡ true
any-find t p [] x h k = cc
any-find t p (y ∷ ys) x h k = ground (arith, any-find t p ys x)

-- The answer for a hash stands on the ring.
pub All-successor :
    (P : ℕ × NodeId → Type 0) (hash : ℕ) (ring : List (ℕ × NodeId)) (e : ℕ × NodeId)
    → All P ring
    → successor hash ring ≡ some e
    → P e
unfolding successor
All-successor P hash [] e a h = cc
All-successor P hash (x ∷ ring) e (q, a) h = elim (Option-cases (at_or_after hash (x ∷ ring))) [
  | inl past ↦ let same : x ≡ e = ground arith in subst P same q
  | inr (y, at) ↦
      let same : y ≡ e = cc (rw at at h) in
      All-find P (λ z. leb hash z.0) (x ∷ ring) e (q, a) (at ∙ ap some same)
]

any-successor :
    (t : ℕ × NodeId → Bool) (hash : ℕ) (ring : List (ℕ × NodeId)) (e : ℕ × NodeId)
    → successor hash ring ≡ some e
    → t e ≡ true
    → any t ring ≡ true
unfolding successor
any-successor t hash [] e h k = cc
any-successor t hash (x ∷ ring) e h k = elim (Option-cases (at_or_after hash (x ∷ ring))) [
  | inl past ↦ ground arith
  | inr (y, at) ↦
      let same : y ≡ e = cc (rw at at h) in
      any-find t (λ z. leb hash z.0) (x ∷ ring) e (at ∙ ap some same) k
]

-- On a valid ring with a position every key has a node, and it is one of the ring's nodes whose
-- position lies nearest to the key's hash, clockwise. xxh3_64 gives 64-bit numbers.
pub get_node-Nearest :
    (xxh3_64 : Bytes → ℕ) (bounded : (b : Bytes) → xxh3_64 b < 2 ^ 64) (uuid : UuidText)
    (key : Bytes) (r : HashRing)
    → IsValid r
    → r.ring ≢ []
    → (n : NodeInfo) × (p : ℕ) × (get_node xxh3_64 uuid key r ≡ some n)
      × (any (λ e. (e.0 == p) && (e.1 == n.id)) r.ring ≡ true)
      × Nearest (hash_key xxh3_64 uuid key) p r.ring
unfolding get_node hash_key
get_node-Nearest xxh3_64 bounded uuid key r v h =
    let hash = hash_key xxh3_64 uuid key in
    let (e, at) = successor_total hash r.ring h in
    let known = All-successor (λ x. node_of r.nodes x.1 ≢ none) hash r.ring e v.covered at in
    elim (Option-cases (node_of r.nodes e.1)) [
      | inl absent ↦ absurd (known absent)
      | inr (n, found) ↦
          let same = find_holds (λ m. m.id == e.1) r.nodes n found in
          (
            n,
            e.0,
            rw at found,
            any-successor (λ x. (x.0 == e.0) && (x.1 == n.id)) hash r.ring e at (ground arith),
            successor-Nearest hash r.ring e (bounded key) v.sorted v.below at,
          )
    ]

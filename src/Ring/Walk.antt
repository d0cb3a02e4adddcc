-- ===== src/Ring/Walk.antt =====
-- The loop of `get_preference_list` of crates/common/src/hashring.rs: what it finds.
use mathlib.Core.Path.{subst}
use self_healing_distributed.Prelude.{
  ℕ, ◌≤◌, ◌<◌, max, ◌≡◌, refl, sym, inl, inr, Bool, true, false, ◌||◌, some, List, [], ◌∷◌, ◌++◌,
  map, any, All, length, length-append, arith, leb, ◌==◌, if◌then◌else◌, Option-cases, Bool-cases,
}
use self_healing_distributed.Types.{NodeId, NodeInfo}
use self_healing_distributed.Ring.HashRing.{node_of, seen_before, walk}
use self_healing_distributed.Ring.Ownership.{find_holds}
use self_healing_distributed.Ring.Valid.{Covered}

abbrev pub ids : List NodeInfo → List NodeId
ids = map (λ n. n.id)

-- No identity stands twice.
abbrev pub Distinct : List NodeId → Type 0
Distinct [] = Unit
Distinct (x ∷ xs) = (seen_before x xs ≡ false) × Distinct xs

pub any-append {ℓ} :
    {A : Type ℓ} (t : A → Bool) (xs ys : List A) → any t (xs ++ ys) ≡ (any t xs || any t ys)
any-append t [] ys = refl
any-append t (x ∷ xs) ys = ground (arith, any-append t xs ys)

pub seen_before-push :
    (x : NodeId) (ns : List NodeInfo) (n : NodeInfo)
    → seen_before x (ids (ns ++ n ∷ [])) ≡ (seen_before x (ids ns) || (n.id == x))
seen_before-push x [] n = ground arith
seen_before-push x (m ∷ ns) n = ground (arith, seen_before-push x ns n)

Distinct-push :
    (ns : List NodeInfo) (n : NodeInfo)
    → Distinct (ids ns)
    → seen_before n.id (ids ns) ≡ false
    → Distinct (ids (ns ++ n ∷ []))
Distinct-push [] n d h = (refl, tt)
Distinct-push (m ∷ ns) n (f, d) h =
    (ground (arith, seen_before-push m.id ns n), Distinct-push ns n d (ground arith))

-- What holds of the loop: the identities in the result are those that it has seen, each once, and
-- the nodes are nodes of the ring.
pub record Walked (nodes : List NodeInfo) (seen : List NodeId) (result : List NodeInfo)
    : Type 0 where
  pub same : (x : NodeId) → seen_before x seen ≡ seen_before x (ids result)
  pub distinct : Distinct (ids result)
  pub known : All (λ n. node_of nodes n.id ≡ some n) result

All-push {ℓ} :
    {A : Type ℓ} (P : A → Type 0) (xs : List A) (x : A) → All P xs → P x → All P (xs ++ x ∷ [])
All-push P [] x a p = (p, tt)
All-push P (y ∷ ys) x (q, a) p = (q, All-push P ys x a p)

Walked-push :
    (nodes : List NodeInfo) (seen : List NodeId) (result : List NodeInfo) (id : NodeId)
    (n : NodeInfo)
    → Walked nodes seen result
    → seen_before id seen ≡ false
    → node_of nodes id ≡ some n
    → Walked nodes (id ∷ seen) (result ++ n ∷ [])
Walked-push nodes seen result id n w new found =
    let same : n.id ≡ id = ground (arith, find_holds (λ m. m.id == id) nodes n found) in
    record {
      same = λ x. ground (arith, w.same x, seen_before-push x result n);
      distinct = Distinct-push result n w.distinct (ground (arith, w.same n.id));
      known = All-push _ result n w.known (subst (λ i. node_of nodes i ≡ some n) (sym same) found);
    }

-- What the loop gives. `Full` says that it stopped for having enough, or has every identity.
pub record Outcome (count : ℕ) (nodes : List NodeInfo) (iter : List (ℕ × NodeId))
    (seen : List NodeId) (result : List NodeInfo) (out : List NodeInfo) : Type 0 where
  pub distinct : Distinct (ids out)
  pub known : All (λ n. node_of nodes n.id ≡ some n) out
  pub short : length out ≤ max 1 count
  pub complete :
      length out < count
      → (x : NodeId) → (seen_before x seen || any (λ e. e.1 == x) iter) ≡ true
      → seen_before x (ids out) ≡ true

module _ (count : ℕ) (nodes : List NodeInfo) (p : ℕ) (id : NodeId) (iter : List (ℕ × NodeId))
    (seen : List NodeId) (result : List NodeInfo) where
  walk_old :
      seen_before id seen ≡ true
      → walk count nodes ((p, id) ∷ iter) seen result ≡ walk count nodes iter seen result
  unfolding walk
  walk_old old = ground arith

  pub walk_new :
      (n : NodeInfo)
      → seen_before id seen ≡ false
      → node_of nodes id ≡ some n
      → walk count nodes ((p, id) ∷ iter) seen result ≡ (
          if leb count (length (result ++ n ∷ []))
          then result ++ n ∷ []
          else walk count nodes iter (id ∷ seen) (result ++ n ∷ []))
  unfolding walk
  walk_new n new found = ground arith

  Outcome-old :
      (out : List NodeInfo)
      → seen_before id seen ≡ true
      → Outcome count nodes iter seen result out
      → Outcome count nodes ((p, id) ∷ iter) seen result out
  Outcome-old out old o = record {
    distinct = o.distinct;
    known = o.known;
    short = o.short;
    complete = λ few x h. o.complete few x (ground arith);
  }

  Outcome-new :
      (n : NodeInfo) (out : List NodeInfo)
      → Outcome count nodes iter (id ∷ seen) (result ++ n ∷ []) out
      → Outcome count nodes ((p, id) ∷ iter) seen result out
  Outcome-new n out o = record {
    distinct = o.distinct;
    known = o.known;
    short = o.short;
    complete = λ few x h. o.complete few x (ground arith);
  }

  -- The loop stops.
  Outcome-full :
      (n : NodeInfo)
      → Walked nodes (id ∷ seen) (result ++ n ∷ [])
      → length result < max 1 count
      → leb count (length (result ++ n ∷ [])) ≡ true
      → Outcome count nodes ((p, id) ∷ iter) seen result (result ++ n ∷ [])
  Outcome-full n w room full = record {
    distinct = w.distinct;
    known = w.known;
    short = omega (arith, length-append result (n ∷ []));
    complete = λ few x h. absurd (ground arith);
  }

pub walk-Outcome :
    (count : ℕ) (nodes : List NodeInfo) (iter : List (ℕ × NodeId)) (seen : List NodeId)
    (result : List NodeInfo)
    → Covered nodes iter
    → Walked nodes seen result
    → length result < max 1 count
    → Outcome count nodes iter seen result (walk count nodes iter seen result)
walk-Outcome count nodes [] seen result c w room =
    unfold walk in
    record {
      distinct = w.distinct;
      known = w.known;
      short = omega arith;
      complete = λ few x h. ground (arith, w.same x);
    }
walk-Outcome count nodes ((p, id) ∷ iter) seen result (k, c) w room =
    elim (Bool-cases (seen_before id seen)) [
      | inl old ↦ rw (walk_old count nodes p id iter seen result old) (
          Outcome-old count nodes p id iter seen result _ old
            (walk-Outcome count nodes iter seen result c w room))
      | inr new ↦ elim (Option-cases (node_of nodes id)) [
        | inl absent ↦ absurd (k absent)
        | inr (n, found) ↦
            let w' = Walked-push nodes seen result id n w new found in
            rw (walk_new count nodes p id iter seen result n new found)
              (elim (Bool-cases (leb count (length (result ++ n ∷ [])))) [
                | inl full ↦ rw full (Outcome-full count nodes p id iter seen result n w' room full)
                | inr more ↦ rw more (
                    Outcome-new count nodes p id iter seen result n _ (
                      walk-Outcome count nodes iter (id ∷ seen) (result ++ n ∷ []) c w'
                        (ground arith)))
              ])
      ]
    ]

pub All-append {ℓ} :
    {A : Type ℓ} (P : A → Type 0) (xs ys : List A) → All P xs → All P ys → All P (xs ++ ys)
All-append P [] ys a b = b
All-append P (x ∷ xs) ys (p, a) b = (p, All-append P xs ys a b)

-- ===== src/Demo/Percentiles.antt =====
-- The percentiles that the load generator (tools/demo/src/main.rs) reports.
use mathlib.Core.Path.{subst}
use self_healing_distributed.Prelude.{
  ℕ, zero, suc, ◌*◌, ◌/◌, ◌%◌, ◌^◌, ◌≤◌, ◌<◌, ◌≡◌, refl, some, List, [], ◌∷◌, leb, arith, length,
  All, Bool-cases, inl, inr,
}
use self_healing_distributed.Demo.Metrics.{
  LoadMetrics, insert_sorted, sort_unstable, index, last, percentiles_of, compute_percentiles,
}

-- In ascending order, from a number on.
abbrev IsSortedFrom : ℕ → List ℕ → Type 0
IsSortedFrom low [] = Unit
IsSortedFrom low (x ∷ xs) = (low ≤ x) × IsSortedFrom x xs

insert_sorted-IsSortedFrom :
    (low x : ℕ) (xs : List ℕ)
    → low ≤ x
    → IsSortedFrom low xs
    → IsSortedFrom low (insert_sorted x xs)
unfolding insert_sorted
insert_sorted-IsSortedFrom low x [] h s = (h, tt)
insert_sorted-IsSortedFrom low x (y ∷ ys) h (k, s) = elim (Bool-cases (leb x y)) [
  | inl first ↦ rw (first, insert_sorted) (h, (ground arith, s))
  | inr later ↦ rw (later, insert_sorted) (k, insert_sorted-IsSortedFrom y x ys (ground arith) s)
]

sort_unstable-IsSortedFrom : (xs : List ℕ) → IsSortedFrom 0 (sort_unstable xs)
unfolding sort_unstable
sort_unstable-IsSortedFrom [] = tt
sort_unstable-IsSortedFrom (x ∷ xs) =
    insert_sorted-IsSortedFrom 0 x (sort_unstable xs) (omega arith) (sort_unstable-IsSortedFrom xs)

length-insert_sorted : (x : ℕ) (xs : List ℕ) → length (insert_sorted x xs) ≡ suc (length xs)
unfolding insert_sorted
length-insert_sorted x [] = refl
length-insert_sorted x (y ∷ ys) = ground (arith, length-insert_sorted x ys)

length-sort_unstable : (xs : List ℕ) → length (sort_unstable xs) ≡ length xs
unfolding sort_unstable
length-sort_unstable [] = refl
length-sort_unstable (x ∷ xs) =
    omega (arith, length-insert_sorted x (sort_unstable xs), length-sort_unstable xs)

-- Every number of the one list is at most the bound if every number of the other is.
All-insert_sorted :
    (P : ℕ → Type 0) (x : ℕ) (xs : List ℕ) → All P (insert_sorted x xs) → P x × All P xs
unfolding insert_sorted
All-insert_sorted P x [] h = h
All-insert_sorted P x (y ∷ ys) h = elim (Bool-cases (leb x y)) [
  | inl first ↦ rw (first, insert_sorted) at h
  | inr later ↦
      let (py, rest) : P y × All P (insert_sorted x ys) = rw (later, insert_sorted) at h in
      let (px, others) = All-insert_sorted P x ys rest in (px, (py, others))
]

last-bound :
    (low x : ℕ) (xs : List ℕ) → IsSortedFrom low (x ∷ xs) → All (λ y. y ≤ last x xs) (x ∷ xs)
last-bound low x [] s = (omega arith, tt)
last-bound low x (y ∷ ys) (h, (k, s)) =
    let rest = last-bound x y ys (k, s) in (omega (arith, rest.0), rest)

index-le :
    (low : ℕ) (xs : List ℕ) (i : ℕ)
    → IsSortedFrom low xs
    → i < length xs
    → (v : ℕ) × (index xs i ≡ some v) × (low ≤ v)
index-le low [] i s h = ground arith
index-le low (x ∷ xs) zero (k, s) h = (x, refl, k)
index-le low (x ∷ xs) (suc i) (k, s) h =
    let (v, at, le) = index-le x xs i s (omega arith) in (v, at, omega arith)

index_mono :
    (low : ℕ) (xs : List ℕ) (i j a b : ℕ)
    → IsSortedFrom low xs
    → i ≤ j
    → j < length xs
    → index xs i ≡ some a
    → index xs j ≡ some b
    → a ≤ b
index_mono low [] i j a b s le h at bt = ground arith
index_mono low (x ∷ xs) zero zero a b s le h at bt = ground arith
index_mono low (x ∷ xs) zero (suc j) a b (k, s) le h at bt =
    let (v, found, above) = index-le x xs j s (omega arith) in ground arith
index_mono low (x ∷ xs) (suc i) zero a b s le h at bt = ground arith
index_mono low (x ∷ xs) (suc i) (suc j) a b (k, s) le h at bt =
    index_mono x xs i j a b s (omega arith) (omega arith) at bt

All-index : (P : ℕ → Type 0) (xs : List ℕ) (i a : ℕ) → All P xs → index xs i ≡ some a → P a
All-index P [] i a h at = ground arith
All-index P (x ∷ xs) zero a (h, hs) at = let e : x ≡ a = ground arith in subst P e h
All-index P (x ∷ xs) (suc i) a (h, hs) at = All-index P xs i a hs at

All-sort_unstable : (P : ℕ → Type 0) (xs : List ℕ) → All P (sort_unstable xs) → All P xs
unfolding sort_unstable
All-sort_unstable P [] h = tt
All-sort_unstable P (x ∷ xs) h =
    let (p, rest) = All-insert_sorted P x (sort_unstable xs) h in (p, All-sort_unstable P xs rest)

-- The figures of a sorted list.
Figures : List ℕ → Type 0
Figures xs =
    (p50 : ℕ) × (p99 : ℕ) × (max : ℕ) × (percentiles_of xs ≡ some (p50, p99, max))
    × (p50 ≤ p99)
    × (p99 ≤ max)
    × All (λ y. y ≤ max) xs

figures : (xs : List ℕ) → IsSortedFrom 0 xs → 0 < length xs → length xs * 99 < 2 ^ 64 → Figures xs
unfolding Figures
figures [] s some_entry small = ground arith
figures (x ∷ xs) s some_entry small =
    let n = length (x ∷ xs) in
    let i = n * 50 % 2 ^ 64 / 100 in
    let j = n * 99 % 2 ^ 64 / 100 in
    let (a, at, _) = index-le 0 (x ∷ xs) i s (omega arith) in
    let (b, bt, _) = index-le 0 (x ∷ xs) j s (omega arith) in
    let bound = last-bound 0 x xs s in
    (
      a,
      b,
      last x xs,
      rw (at, bt) refl,
      index_mono 0 (x ∷ xs) i j a b s (omega arith) (omega arith) at bt,
      All-index (λ y. y ≤ last x xs) (x ∷ xs) j b bound bt,
      bound,
    )

-- The figures that are reported for latencies that were recorded are in order, and no latency is
-- above the last: the reading never fails. There is a latency, and there are not so many that the
-- index of the last figure overflows.
pub compute_percentiles_ordered :
    (m : LoadMetrics)
    → 0 < length m.latencies_us
    → length m.latencies_us * 99 < 2 ^ 64
    → (p50 : ℕ) × (p99 : ℕ) × (max : ℕ) × ((compute_percentiles m).1 ≡ some (p50, p99, max))
      × (p50 ≤ p99)
      × (p99 ≤ max)
      × All (λ y. y ≤ max) m.latencies_us
unfolding compute_percentiles Figures
compute_percentiles_ordered m some_entry small =
    let size = length-sort_unstable m.latencies_us in
    let (p50, p99, max, found, low, high, bound) =
      figures (sort_unstable m.latencies_us) (sort_unstable-IsSortedFrom m.latencies_us)
        (omega (arith, size)) (omega (arith, size)) in
    (p50, p99, max, found, low, high, All-sort_unstable (λ y. y ≤ max) m.latencies_us bound)

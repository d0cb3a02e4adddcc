-- ===== src/Demo/Metrics.antt =====
-- `LoadMetrics` of tools/demo/src/main.rs. A counter is an atomic of 64 bits; a panic is `none`.
use self_healing_distributed.Prelude.{
  ℕ, zero, suc, ◌*◌, ◌/◌, ◌%◌, ◌^◌, Option, none, some, List, [], ◌∷◌, ◌++◌, leb, if◌then◌else◌,
  length,
}
use self_healing_distributed.Types.{next_u64}

pub record LoadMetrics : Type 0 where
  pub total_ops : ℕ
  pub successful_ops : ℕ
  pub failed_ops : ℕ
  pub latencies_us : List ℕ

unfoldable pub new : LoadMetrics
new = record { total_ops = 0; successful_ops = 0; failed_ops = 0; latencies_us = [] }

unfoldable pub record_success : ℕ → LoadMetrics → LoadMetrics
record_success latency_us m = record m {
  total_ops = next_u64 m.total_ops;
  successful_ops = next_u64 m.successful_ops;
}

unfoldable pub record_failure : LoadMetrics → LoadMetrics
record_failure m = record m { total_ops = next_u64 m.total_ops; failed_ops = next_u64 m.failed_ops }

unfoldable pub record_latency : ℕ → LoadMetrics → LoadMetrics
record_latency latency_us m = record m { latencies_us = m.latencies_us ++ latency_us ∷ [] }

-- `sort_unstable`: numbers that are equal cannot be told apart.
unfoldable pub insert_sorted : ℕ → List ℕ → List ℕ
insert_sorted x [] = x ∷ []
insert_sorted x (y ∷ ys) = let rest = insert_sorted x ys in if leb x y then x ∷ y ∷ ys else y ∷ rest

unfoldable pub sort_unstable : List ℕ → List ℕ
unfolding insert_sorted
sort_unstable [] = []
sort_unstable (x ∷ xs) = insert_sorted x (sort_unstable xs)

-- `latencies[i]`.
abbrev pub index : List ℕ → ℕ → Option ℕ
index [] i = none
index (x ∷ xs) zero = some x
index (x ∷ xs) (suc i) = index xs i

abbrev pub last : ℕ → List ℕ → ℕ
last x [] = x
last x (y ∷ ys) = last y ys

abbrev pub Percentiles : Type 0
Percentiles = ℕ × ℕ × ℕ

abbrev read_at : Option ℕ → Option ℕ → ℕ → Option Percentiles
read_at none p99 max = none
read_at (some p50) none max = none
read_at (some p50) (some p99) max = some (p50, p99, max)

-- The part of `compute_percentiles` behind the sort.
abbrev pub percentiles_of : List ℕ → Option Percentiles
percentiles_of [] = some (0, 0, 0)
percentiles_of (x ∷ xs) =
    let latencies = x ∷ xs in
    read_at (index latencies (length latencies * 50 % 2 ^ 64 / 100))
      (index latencies (length latencies * 99 % 2 ^ 64 / 100)) (last x xs)

-- The latencies stay sorted.
unfoldable pub compute_percentiles : LoadMetrics → LoadMetrics × Option Percentiles
unfolding sort_unstable
compute_percentiles m =
    let sorted = sort_unstable m.latencies_us in
    (record m { latencies_us = sorted }, percentiles_of sorted)

unfoldable pub summary : LoadMetrics → ℕ × ℕ × ℕ
summary m = (m.total_ops, m.successful_ops, m.failed_ops)

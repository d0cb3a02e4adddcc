-- ===== src/Tests/Demo.antt =====
-- The theorems on the load generator at one round that sets a key.
use self_healing_distributed.Prelude.{
  ℕ, ◌≤◌, ◌≡◌, Bool, true, false, none, some, [], ◌∷◌, ◌++◌, arith, length, All,
}
use self_healing_distributed.Decimal
use self_healing_distributed.Resp.Parser.{complete, parse_resp}
use self_healing_distributed.Router.Client.{Transport}
use self_healing_distributed.Demo.Metrics.{LoadMetrics, compute_percentiles}
use self_healing_distributed.Demo.Percentiles
use self_healing_distributed.Demo.Workers.{Draw, Stream, command_of}
use self_healing_distributed.Demo.Commands
use self_healing_distributed.Demo.Commands.{IsConsistent, meant}
use self_healing_distributed.Tests.Data.{value}

abbrev draw : Draw
draw = record { key_index = 7; op_type = 10; value_number = 5; latency_us = 40 }

abbrev measured : LoadMetrics
measured = record {
  total_ops = 3;
  successful_ops = 3;
  failed_ops = 0;
  latencies_us = 30 ∷ 10 ∷ 20 ∷ [];
}

compute_percentiles_ordered_example :
    (p50 : ℕ) × (p99 : ℕ) × (max : ℕ) × ((compute_percentiles measured).1 ≡ some (p50, p99, max))
    × (p50 ≤ p99)
    × (p99 ≤ max)
    × All (λ y. y ≤ max) (30 ∷ 10 ∷ 20 ∷ [])
compute_percentiles_ordered_example =
    Percentiles.compute_percentiles_ordered measured (omega arith) (omega arith)

parse_resp-command_of_example :
    parse_resp 1000 (command_of draw ++ value) ≡ complete (meant draw) (length (command_of draw))
unfolding Decimal.to_decimal
parse_resp-command_of_example =
    Commands.parse_resp-command_of 1000 draw value (omega arith) (omega arith, omega arith)

-- A server that takes every `set`, and a stream whose connection is refused.
abbrev transport : Transport Bool ℕ
transport = record {
  connect = λ addr w. (w, some true);
  set = λ client request w. (w, some true);
  get = λ client key w. (w, none);
  delete = λ client key w. (w, none);
}

abbrev refused : Stream ℕ
refused = record {
  connect = λ addr w. (w, false);
  write_all = λ bytes w. (w, false);
  read = λ w. (w, false);
}

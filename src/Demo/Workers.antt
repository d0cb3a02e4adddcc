-- ===== src/Demo/Workers.antt =====
-- The workers of tools/demo/src/main.rs. What a worker draws and measures in a round is an argument,
-- and there are as many rounds as fit in its time; the network is a parameter.
use self_healing_distributed.Prelude.{
  ℕ, Bool, true, false, Option, none, some, List, [], ◌∷◌, ◌++◌, ltb, if◌then◌else◌, length,
}
use self_healing_distributed.Types.{Bytes, codes}
use self_healing_distributed.Decimal.{to_decimal}
use self_healing_distributed.Router.Client.{SetRequest, Transport}
use self_healing_distributed.Resp.Encoder.{crlf}
use self_healing_distributed.Demo.Metrics.{
  LoadMetrics, record_success, record_failure, record_latency,
}

pub record Draw : Type 0 where
  pub key_index : ℕ
  pub op_type : ℕ
  pub value_number : ℕ
  pub latency_us : ℕ

abbrev pub key_of : Draw → Bytes
key_of d = codes "key_" ++ to_decimal d.key_index

abbrev pub value_of : Draw → Bytes
value_of d = codes "value_" ++ to_decimal d.value_number

-- The end of a round, by whether the operation succeeded.
abbrev pub record_round : Draw → Bool → LoadMetrics → LoadMetrics
record_round d true m = record_latency d.latency_us (record_success d.latency_us m)
record_round d false m = record_failure m

module _ {Client World : Type 0} (t : Transport Client World) where
  -- `map(|_| ())`.
  abbrev succeeded : {A : Type 0} → World × Option A → World × Bool
  succeeded (w, none) = (w, false)
  succeeded (w, some a) = (w, true)

  -- Half of the operations set a key, four in ten read it, and one in ten deletes it.
  unfoldable pub grpc_operation : Draw → Client → World → World × Bool
  grpc_operation d client w =
      let request : SetRequest = record {
        key = key_of d;
        value = value_of d;
        ttl_ms = some 60000;
      } in
      if ltb d.op_type 50
      then succeeded (t.set client request w)
      else if ltb d.op_type 90
      then succeeded (t.get client (key_of d) w)
      else succeeded (t.delete client (key_of d) w)

  unfoldable pub grpc_rounds : List Draw → Client → LoadMetrics → World → LoadMetrics × World
  unfolding grpc_operation
  grpc_rounds [] client m w = (m, w)
  grpc_rounds (d ∷ ds) client m w =
      let (w', ok) = grpc_operation d client w in grpc_rounds ds client (record_round d ok m) w'

  abbrev grpc_connected : List Draw → LoadMetrics → World × Option Client → LoadMetrics × World
  grpc_connected ds m (w, none) = (m, w)
  grpc_connected ds m (w, some client) = grpc_rounds ds client m w

  unfoldable pub grpc_worker : Bytes → List Draw → LoadMetrics → World → LoadMetrics × World
  unfolding grpc_rounds
  grpc_worker router_addr ds m w = grpc_connected ds m (t.connect router_addr w)

-- A bulk string, as the worker writes it.
abbrev pub bulk : Bytes → Bytes
bulk b = b'$' ∷ to_decimal (length b) ++ crlf ++ b ++ crlf

-- The command of a round.
unfoldable pub command_of : Draw → Bytes
command_of d =
    if ltb d.op_type 50
    then codes "*3"
      ++ crlf
      ++ codes "$3"
      ++ crlf
      ++ codes "SET"
      ++ crlf
      ++ bulk (key_of d)
      ++ bulk (value_of d)
    else if ltb d.op_type 90
    then codes "*2" ++ crlf ++ codes "$3" ++ crlf ++ codes "GET" ++ crlf ++ bulk (key_of d)
    else codes "*2" ++ crlf ++ codes "$3" ++ crlf ++ codes "DEL" ++ crlf ++ bulk (key_of d)

-- A TCP stream: whether connecting, writing and reading end without an error. What is read is not
-- looked at.
pub record Stream (World : Type 0) : Type 0 where
  pub connect : Bytes → World → World × Bool
  pub write_all : Bytes → World → World × Bool
  pub read : World → World × Bool

module _ {World : Type 0} (stream : Stream World) where
  abbrev answered : World × Bool → World × Bool
  answered (w, true) = stream.read w
  answered (w, false) = (w, false)

  unfoldable pub resp_operation : Draw → World → World × Bool
  unfolding command_of
  resp_operation d w = answered (stream.write_all (command_of d) w)

  unfoldable pub resp_rounds : List Draw → LoadMetrics → World → LoadMetrics × World
  unfolding resp_operation
  resp_rounds [] m w = (m, w)
  resp_rounds (d ∷ ds) m w =
      let (w', ok) = resp_operation d w in resp_rounds ds (record_round d ok m) w'

  abbrev resp_connected : List Draw → LoadMetrics → World × Bool → LoadMetrics × World
  resp_connected ds m (w, false) = (m, w)
  resp_connected ds m (w, true) = resp_rounds ds m w

  unfoldable pub resp_worker : Bytes → List Draw → LoadMetrics → World → LoadMetrics × World
  unfolding resp_rounds
  resp_worker router_addr ds m w = resp_connected ds m (stream.connect router_addr w)

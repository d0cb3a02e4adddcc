-- ===== src/Demo/Commands.antt =====
-- What the load generator (tools/demo/src/main.rs) sends to the RESP front end
-- (crates/node/src/resp), and what it counts.
use self_healing_distributed.Prelude.{
  ℕ, ◌+◌, ◌%◌, ◌^◌, ◌≤◌, ◌<◌, ◌≡◌, refl, Bool, true, false, List, [], ◌∷◌, ◌++◌, ltb, length, arith,
  Bool-cases, Option-cases, inl, inr, length-append, append_assoc, append-nil, if◌then◌else◌,
}
use self_healing_distributed.Types.{Bytes, codes}
use self_healing_distributed.Decimal.{to_decimal}
use self_healing_distributed.Resp.Parser.{
  RespValue, bulk_string, array, end, item, complete, parse_resp,
}
use self_healing_distributed.Resp.Encoder.{encode_value, encode_bulk_string}
use self_healing_distributed.Resp.Scalars.{IsSendable}
use self_healing_distributed.Resp.RoundTrip.{parse_resp-encode_value}
use self_healing_distributed.Router.Client.{Transport}
use self_healing_distributed.Demo.Metrics.{
  LoadMetrics, record_success, record_failure, record_latency,
}
use self_healing_distributed.Demo.Workers.{
  Draw, key_of, value_of, command_of, record_round, grpc_rounds, grpc_worker, Stream, resp_rounds,
  resp_worker,
}

-- The command as a value of the protocol.
abbrev pub meant : Draw → RespValue
meant d =
    if ltb d.op_type 50
    then array (
        item (bulk_string (codes "SET"))
          (item (bulk_string (key_of d)) (item (bulk_string (value_of d)) end)))
    else if ltb d.op_type 90
    then array (item (bulk_string (codes "GET")) (item (bulk_string (key_of d)) end))
    else array (item (bulk_string (codes "DEL")) (item (bulk_string (key_of d)) end))

two : to_decimal 2 ≡ codes "2"
unfolding to_decimal
two = refl

three : to_decimal 3 ≡ codes "3"
unfolding to_decimal
three = refl

command_of-encode_value : (d : Draw) → command_of d ≡ encode_value (meant d)
unfolding command_of encode_value encode_bulk_string
command_of-encode_value d = elim (Bool-cases (ltb d.op_type 50)) [
  | inl writes ↦ rw (writes, three) (simp (append_assoc, append-nil) refl)
  | inr other ↦ elim (Bool-cases (ltb d.op_type 90)) [
    | inl reads ↦ rw (other, reads, two, three) (simp (append_assoc, append-nil) refl)
    | inr deletes ↦ rw (other, deletes, two, three) (simp (append_assoc, append-nil) refl)
  ]
]

-- The lengths that the worker writes fit.
abbrev pub IsShort : Draw → Type 0
IsShort d = (length (key_of d) < 2 ^ 63) × (length (value_of d) < 2 ^ 63)

meant-IsSendable : (limit : ℕ) (d : Draw) → 3 ≤ limit → IsShort d → IsSendable limit (meant d)
unfolding IsSendable
meant-IsSendable limit d room short = elim (Bool-cases (ltb d.op_type 50)) [
  | inl writes ↦ rw writes (room, omega arith, (omega arith, (short.0, (short.1, tt))))
  | inr other ↦ elim (Bool-cases (ltb d.op_type 90)) [
    | inl reads ↦ rw (other, reads) (omega arith, omega arith, (omega arith, (short.0, tt)))
    | inr deletes ↦ rw (other, deletes) (omega arith, omega arith, (omega arith, (short.0, tt)))
  ]
]

-- The RESP front end reads every command that the load generator sends as the operation that it
-- means, whatever follows, and consumes exactly the command. Key and value are shorter than 2^63
-- bytes, and a vector may have three items.
pub parse_resp-command_of :
    (limit : ℕ) (d : Draw) (rest : Bytes)
    → 3 ≤ limit
    → IsShort d
    → parse_resp limit (command_of d ++ rest) ≡ complete (meant d) (length (command_of d))
parse_resp-command_of limit d rest room short =
    rw (command_of-encode_value d)
      (parse_resp-encode_value limit (meant d) rest (meant-IsSendable limit d room short))

-- The counts of the metrics fit together, modulo their width.
pub record IsConsistent (m : LoadMetrics) : Type 0 where
  pub counted : m.total_ops ≡ (m.successful_ops + m.failed_ops) % 2 ^ 64
  pub measured : m.successful_ops ≡ length m.latencies_us % 2 ^ 64

record_round-IsConsistent :
    (d : Draw) (ok : Bool) (m : LoadMetrics) → IsConsistent m → IsConsistent (record_round d ok m)
unfolding record_success record_failure record_latency
record_round-IsConsistent d true m c = record {
  counted = omega (arith, c.counted);
  measured = omega (arith, c.measured, length-append m.latencies_us (d.latency_us ∷ []));
}
record_round-IsConsistent d false m c = record {
  counted = omega (arith, c.counted);
  measured = omega (arith, c.measured);
}

grpc_rounds-IsConsistent :
    {Client World : Type 0} (t : Transport Client World) (ds : List Draw) (client : Client)
    (m : LoadMetrics) (w : World)
    → IsConsistent m
    → IsConsistent (grpc_rounds t ds client m w).0
unfolding grpc_rounds
grpc_rounds-IsConsistent t [] client m w c = c
grpc_rounds-IsConsistent t (d ∷ ds) client m w c =
    grpc_rounds-IsConsistent t ds client _ _ (record_round-IsConsistent d _ m c)

resp_rounds-IsConsistent :
    {World : Type 0} (stream : Stream World) (ds : List Draw) (m : LoadMetrics) (w : World)
    → IsConsistent m
    → IsConsistent (resp_rounds stream ds m w).0
unfolding resp_rounds
resp_rounds-IsConsistent stream [] m w c = c
resp_rounds-IsConsistent stream (d ∷ ds) m w c =
    resp_rounds-IsConsistent stream ds _ _ (record_round-IsConsistent d _ m c)

-- The workers keep the counts of their metrics consistent: all operations are the successful and the
-- failed ones, and a latency was recorded for each successful one, modulo 2^64. That holds also if
-- the worker cannot connect.
pub workers-IsConsistent :
    {Client World : Type 0} (t : Transport Client World) (stream : Stream World) (addr : Bytes)
    (ds : List Draw) (m : LoadMetrics) (w : World)
    → IsConsistent m
    → IsConsistent (grpc_worker t addr ds m w).0 × IsConsistent (resp_worker stream addr ds m w).0
unfolding grpc_worker resp_worker
workers-IsConsistent t stream addr ds m w c = (
  elim (Option-cases (t.connect addr w).1) [
    | inl fails ↦ rw fails c
    | inr (client, connected) ↦ rw connected (grpc_rounds-IsConsistent t ds client m _ c)
  ],
  elim (Bool-cases (stream.connect addr w).1) [
    | inl connected ↦ rw connected (resp_rounds-IsConsistent stream ds m _ c)
    | inr fails ↦ rw fails c
  ],
)
